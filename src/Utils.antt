-- ===== src/Utils.antt =====
-- src/utils/mod.rs: alignment, sign extension and fields of bits. Sums wrap, and a shift by 64 or more
-- takes its amount modulo 64, as in a release build.
pub mod Alignment
pub mod Ranges
use vivisect_rs.Base.{ℕ, ◌+◌, Bool, leb, ◌==◌, if◌then◌else◌, bit_and, bit_or}
use vivisect_rs.Word.{u64_max, wrapping_add, wrapping_sub, wrapping_shl, wrapping_shr, not_u64}

-- `align_up`.
unfoldable pub align_up : ℕ → ℕ → ℕ
align_up value alignment =
    bit_and (wrapping_sub (wrapping_add value alignment) 1) (not_u64 (wrapping_sub alignment 1))

-- `align_down`.
unfoldable pub align_down : ℕ → ℕ → ℕ
align_down value alignment = bit_and value (not_u64 (wrapping_sub alignment 1))

-- `is_aligned`.
unfoldable pub is_aligned : ℕ → ℕ → Bool
is_aligned value alignment = bit_and value (wrapping_sub alignment 1) == 0

-- `(1u64 << len) - 1`.
abbrev pub low_mask : ℕ → ℕ
low_mask len = wrapping_sub (wrapping_shl 1 len) 1

-- `sign_extend`.
unfoldable pub sign_extend_bits : ℕ → ℕ → ℕ → ℕ
sign_extend_bits value from_bits to_bits =
    let sign_bit = wrapping_shl 1 (wrapping_sub from_bits 1) in
    let to_mask = if leb 64 to_bits then u64_max else low_mask to_bits in
    if bit_and value sign_bit == 0
    then bit_and value to_mask
    else bit_and (bit_or value (not_u64 (low_mask from_bits))) to_mask

-- `extract_bits`.
unfoldable pub extract_range : ℕ → ℕ → ℕ → ℕ
extract_range value start len = bit_and (wrapping_shr value start) (low_mask len)

-- `insert_bits`.
unfoldable pub insert_range : ℕ → ℕ → ℕ → ℕ → ℕ
insert_range value bits start len =
    let mask = wrapping_shl (low_mask len) start in
    bit_or (bit_and value (not_u64 mask)) (bit_and (wrapping_shl bits start) mask)
