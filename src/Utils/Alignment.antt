-- ===== src/Utils/Alignment.antt =====
-- src/utils/mod.rs: alignment to a power of two.
use native.Mathlib.Nat.{
  pow-le-pow_right, one-le-pow, mod-eq-sub-div-mul, mod-lt, div-mul-le_self, mul-mod_left,
}
use vivisect_rs.Base.{
  ℕ, ◌+◌, ◌-◌, ◌*◌, ◌/◌, ◌%◌, ◌^◌, ◌≤◌, ◌<◌, ◌≡◌, refl, sym, ap, ◌∙◌, min, ltb, ◌==◌, if◌then◌else◌,
  arith, bit_and,
}
use vivisect_rs.Word.{u64_mod, IsU64, wrapping_add, wrapping_sub, not_u64}
use vivisect_rs.Word.Digits.{
  digit_at, digit_at-le, digit_at-and, digit_at-mask, digit_at-not, digit_at-shl, digit_at-shr,
  digits-ext, and-mask,
}
use vivisect_rs.Word.Fields.{digit_at-u64}
use vivisect_rs.Utils.{align_up, align_down, is_aligned}

-- A number without its low digits.
and-not_mask : (k x : ℕ) → IsU64 x → k < 64 → bit_and x (not_u64 (2 ^ k - 1)) ≡ x / 2 ^ k * 2 ^ k
and-not_mask k x u h =
    let bound = pow-le-pow_right {n = 2} (omega arith) {i = k} {j = 63} (omega arith) in
    let high = not_u64 (2 ^ k - 1) in
    digits-ext (bit_and x high) (x / 2 ^ k * 2 ^ k) (λ i.
      digit_at-and x high i
      ∙ clear i (digit_at x i) (digit_at high i) (digit_at (2 ^ k - 1) i)
          (digit_at (x / 2 ^ k) (i - k))
          (digit_at-not 64 (2 ^ k - 1) i (omega (arith, bound, one-le-pow k 2))) (digit_at-mask k i)
          (digit_at-le x i) (digit_at-u64 x i u)
          (λ above.
            digit_at-shr k x (i - k) ∙ ap (digit_at x) {x = i - k + k} {y = i} (omega arith))
      ∙ sym (digit_at-shl k (x / 2 ^ k) i))
  where
    clear :
        (i d n m e : ℕ)
        → n ≡ (if ltb i 64 then 1 - m else 0)
        → m ≡ (if ltb i k then 1 else 0)
        → d ≤ 1
        → (64 ≤ i → d ≡ 0)
        → (k ≤ i → e ≡ d)
        → min d n ≡ (if ltb i k then 0 else e)
    clear i d n m e p q le high same = ground (arith, high, same)

mask_of : (k : ℕ) → k < 64 → wrapping_sub (2 ^ k) 1 ≡ 2 ^ k - 1
mask_of k h =
    let bound = pow-le-pow_right {n = 2} (omega arith) {i = k} {j = 63} (omega arith) in
    omega (arith, bound, one-le-pow k 2)

-- Aligning down to a power of two takes off the remainder.
pub align_down_lem :
    (k value : ℕ) → IsU64 value → k < 64 → align_down value (2 ^ k) ≡ value - value % 2 ^ k
unfolding align_down
align_down_lem k value u h = rw (mask_of k h) (
    and-not_mask k value u h
    ∙ omega (arith, mod-eq-sub-div-mul value (2 ^ k), div-mul-le_self value (2 ^ k)))

-- A number is aligned to a power of two exactly if that divides it.
pub is_aligned_lem : (k value : ℕ) → k < 64 → is_aligned value (2 ^ k) ≡ (value % 2 ^ k == 0)
unfolding is_aligned
is_aligned_lem k value h = rw (mask_of k h, and-mask k value) refl

-- Aligning up to a power of two gives the least multiple of it that is not below the number, if the sum
-- of the two fits: a multiple, not below the number, and less than one step above it.
pub align_up_lem :
    (k value : ℕ)
    → value + 2 ^ k < u64_mod
    → k < 64
    → (align_up value (2 ^ k) % 2 ^ k ≡ 0)
      × (value ≤ align_up value (2 ^ k))
      × (align_up value (2 ^ k) < value + 2 ^ k)
unfolding align_up
align_up_lem k value fits h =
    let p = 2 ^ k in
    let one = one-le-pow k 2 in
    let top : wrapping_sub (wrapping_add value p) 1 ≡ value + p - 1 = omega (arith, one) in
    let x = value + p - 1 in
    let cleared = and-not_mask k x (omega arith) h in
    rw (top, mask_of k h, cleared)
      (
        mul-mod_left (x / p) p,
        omega (
          arith,
          one,
          mod-eq-sub-div-mul x p,
          mod-lt x {m = p} (omega (arith, one)),
          div-mul-le_self x p,
        ),
        omega (arith, one, div-mul-le_self x p),
      )
