-- ===== src/Utils/Ranges.antt =====
-- src/utils/mod.rs: ranges of bits that are put in and taken out.
use native.Mathlib.Nat.{pow-le-pow_right, one-le-pow}
use vivisect_rs.Base.{
  ℕ, ◌+◌, ◌-◌, ◌%◌, ◌^◌, ◌≤◌, ◌<◌, min, ◌≡◌, sym, ◌∙◌, ltb, if◌then◌else◌, arith, bit_and,
}
use vivisect_rs.Word.{IsU64, wrapping_shl}
use vivisect_rs.Word.Laws.{shift_amount_small}
use vivisect_rs.Word.Digits.{digit_at, digit_at-and, digits-ext}
use vivisect_rs.Word.Fields.{ones, digit_at-wrapping_shl, extract_bits-insert_bits}
use vivisect_rs.Utils.{low_mask, extract_range, insert_range}

low_mask_small : (len : ℕ) → len < 64 → low_mask len ≡ ones len
low_mask_small len h =
    let bound = pow-le-pow_right {n = 2} (omega arith) {i = len} {j = 63} (omega arith) in
    rw (shift_amount_small len h) (omega (arith, bound, one-le-pow len 2))

-- Masking after a shift is shifting after a mask.
shifted_mask :
    (bits mask start : ℕ)
    → start < 64
    → bit_and (wrapping_shl bits start) (wrapping_shl mask start)
      ≡ wrapping_shl (bit_and bits mask) start
shifted_mask bits mask start h =
    digits-ext (bit_and (wrapping_shl bits start) (wrapping_shl mask start))
      (wrapping_shl (bit_and bits mask) start)
      (λ i.
        digit_at-and (wrapping_shl bits start) (wrapping_shl mask start) i
        ∙ both i (digit_at (wrapping_shl bits start) i) (digit_at (wrapping_shl mask start) i)
            (digit_at bits (i - start)) (digit_at mask (i - start))
            (digit_at (bit_and bits mask) (i - start)) (digit_at-wrapping_shl bits start i h)
            (digit_at-wrapping_shl mask start i h) (digit_at-and bits mask (i - start))
        ∙ sym (digit_at-wrapping_shl (bit_and bits mask) start i h))
  where
    both :
        (i a b c d e : ℕ)
        → a ≡ (if ltb i 64 then (if ltb i start then 0 else c) else 0)
        → b ≡ (if ltb i 64 then (if ltb i start then 0 else d) else 0)
        → e ≡ min c d
        → min a b ≡ (if ltb i 64 then (if ltb i start then 0 else e) else 0)
    both i a b c d e p q r = ground arith

-- A range of fewer than 64 bits that is put in is taken out again, modulo 2 to its length.
pub extract_range-insert_range :
    (value bits start len : ℕ)
    → IsU64 value
    → 0 < len
    → len < 64
    → start + len ≤ 64
    → extract_range (insert_range value bits start len) start len ≡ bits % 2 ^ len
unfolding extract_range insert_range
extract_range-insert_range value bits start len u positive small fits =
    rw (low_mask_small len small, shifted_mask bits (ones len) start (omega arith))
      (extract_bits-insert_bits value start len bits u positive fits)
