-- ===== src/Word.antt =====
-- Rust's `u64` and its wrapping operations. A `u64` is a number below `2 ^ 64`; every operation
-- writes its wrap-around out. Overflow of a plain `+`, `-`, `*` or unary `-` is that of a release
-- build, which wraps.
pub mod Laws
pub mod Bits
pub mod Digits
pub mod Fields
use vivisect_rs.Base.{
  ℕ, zero, suc, ◌+◌, ◌-◌, ◌*◌, ◌/◌, ◌%◌, ◌^◌, ◌<◌, Bool, ltb, leb, ◌==◌, if◌then◌else◌,
}

abbrev pub u64_mod : ℕ
u64_mod = 2 ^ 64

abbrev pub u64_max : ℕ
u64_max = 2 ^ 64 - 1

abbrev pub IsU64 : ℕ → Type 0
IsU64 n = n < u64_mod

abbrev pub wrapping_add : ℕ → ℕ → ℕ
wrapping_add a b = (a + b) % u64_mod

abbrev pub wrapping_sub : ℕ → ℕ → ℕ
wrapping_sub a b = (a + u64_mod - b) % u64_mod

abbrev pub wrapping_mul : ℕ → ℕ → ℕ
wrapping_mul a b = (a * b) % u64_mod

-- `b as u32`, then the amount modulo the width, as `wrapping_shl` and `wrapping_shr` take it.
abbrev pub shift_amount : ℕ → ℕ
shift_amount b = b % 2 ^ 32 % 64

abbrev pub wrapping_shl : ℕ → ℕ → ℕ
wrapping_shl a b = (a * 2 ^ shift_amount b) % u64_mod

abbrev pub wrapping_shr : ℕ → ℕ → ℕ
wrapping_shr a b = a / 2 ^ shift_amount b

-- `a as i64 < 0`.
abbrev pub is_negative : ℕ → Bool
is_negative a = leb (2 ^ 63) a

-- `((a as i64) >> k) as u64`: a negative number is shifted through its complement, so that ones
-- come in from the left.
abbrev pub arithmetic_shr : ℕ → ℕ → ℕ
arithmetic_shr a k = if is_negative a then u64_max - (u64_max - a) / 2 ^ k else a / 2 ^ k

-- `((a as i64).wrapping_shr(b as u32)) as u64`.
abbrev pub wrapping_sar : ℕ → ℕ → ℕ
wrapping_sar a b = arithmetic_shr a (shift_amount b)

-- `!a` and `(-(a as i64)) as u64`.
abbrev pub not_u64 : ℕ → ℕ
not_u64 a = u64_max - a

abbrev pub neg_u64 : ℕ → ℕ
neg_u64 a = (u64_mod - a) % u64_mod

-- `a.wrapping_pow(b as u32)`. Shut, since a power at a large exponent must not be computed.
unfoldable pub wrapping_pow : ℕ → ℕ → ℕ
wrapping_pow a b = a ^ (b % 2 ^ 32) % u64_mod

-- The order of `as i64` is the order of the numbers moved up by `2 ^ 63`.
abbrev pub signed_key : ℕ → ℕ
signed_key a = (a + 2 ^ 63) % u64_mod

abbrev pub signed_lt : ℕ → ℕ → Bool
signed_lt a b = ltb (signed_key a) (signed_key b)

abbrev pub signed_le : ℕ → ℕ → Bool
signed_le a b = leb (signed_key a) (signed_key b)

abbrev pub saturating_sub : ℕ → ℕ → ℕ
saturating_sub a b = a - b

abbrev pub saturating_add : ℕ → ℕ → ℕ
saturating_add a b = if leb (a + b) u64_max then a + b else u64_max

-- `n.trailing_zeros()` of a number other than 0, on 64 rounds of fuel.
unfoldable pub count_trailing : ℕ → ℕ → ℕ
count_trailing zero n = 0
count_trailing (suc k) n = let rest = count_trailing k (n / 2) in if n % 2 == 1 then 0 else suc rest

abbrev pub trailing_zeros : ℕ → ℕ
trailing_zeros n = count_trailing 64 n

-- `n.is_power_of_two()`: one bit is set. Halving meets 1 before any other odd number.
unfoldable pub has_one_bit : ℕ → ℕ → Bool
has_one_bit zero n = Bool.false
has_one_bit (suc k) n =
    let rest = has_one_bit k (n / 2) in
    if n == 1 then Bool.true else if n % 2 == 1 then Bool.false else rest

abbrev pub is_power_of_two : ℕ → Bool
is_power_of_two n = has_one_bit 64 n
