-- ===== src/Vstruct/Number/Values.antt =====
-- src/vstruct/primitives.rs: the values that a number takes.
use native.Mathlib.Nat.{pow-suc, pow-le-pow_right, one-le-pow, div-eq_of_lt, div-eq_of_lt-le}
use vivisect_rs.Base.{
  ℕ, suc, ◌+◌, ◌-◌, ◌*◌, ◌/◌, ◌%◌, ◌^◌, ◌≤◌, ◌<◌, ◌≡◌, refl, sym, ap, ◌∙◌, true, arith, ltb, ◌==◌,
  if◌then◌else◌, Bool-cases, inl, inr, bit_and,
}
use vivisect_rs.Word.{u64_mod, wrapping_sub, wrapping_shl}
use vivisect_rs.Word.Bits.{bit_and-zero}
use vivisect_rs.Word.Laws.{shift_amount_small}
use vivisect_rs.Word.Digits.{and-mask, and-power, digit_at, digit_at-shr}
use vivisect_rs.Vstruct.Number.{VNumber, max_value, set_value, get_signed_value}

-- The greatest value of fewer than 8 bytes.
max_value_small : (v : VNumber) → v.size < 8 → max_value v ≡ 2 ^ (v.size * 8) - 1
unfolding max_value
max_value_small v h =
    let bound = pow-le-pow_right {n = 2} (omega arith) {i = v.size * 8} {j = 63} (omega arith) in
    rw (shift_amount_small (v.size * 8) (omega arith))
      (omega (arith, bound, one-le-pow (v.size * 8) 2))

-- `set_value` keeps a value modulo 2 to the number of bits at a size below 8 bytes. At 8 bytes the mask
-- is empty, and the value becomes 0.
pub set_value_lem :
    (v : VNumber) (n : ℕ)
    → v.size ≤ 8
    → (set_value v n).value ≡ (if v.size == 8 then 0 else n % 2 ^ (v.size * 8))
unfolding set_value
set_value_lem v n h = elim (Bool-cases (v.size == 8)) [
  | inl e ↦ let full : v.size ≡ 8 = ground arith in rw (e, full_mask v full) (bit_and-zero n)
  | inr e ↦ rw (e, max_value_small v (ground arith)) (and-mask (v.size * 8) n)
]
  where
    full_mask : (v : VNumber) → v.size ≡ 8 → max_value v ≡ 0
    full_mask v full = unfold max_value in rw full refl

digit-and-order : (k x : ℕ) → x < 2 ^ suc k → digit_at x k ≡ (if ltb x (2 ^ k) then 0 else 1)
digit-and-order k x h =
    let quotient : digit_at x k ≡ x / 2 ^ k % 2 =
      ap (digit_at x) {x = k} {y = 0 + k} (omega arith) ∙ sym (digit_at-shr k x 0) in
    elim (Bool-cases (ltb x (2 ^ k))) [
      | inl below ↦ let none : x / 2 ^ k ≡ 0 = div-eq_of_lt (ground arith) in ground arith
      | inr above ↦
          let whole : x / 2 ^ k ≡ 1 =
            div-eq_of_lt-le {k = 1} (2 ^ k) (ground arith) (omega (arith, pow-suc 2 k)) in
          ground arith
    ]

sign_test : (k x : ℕ) → x < 2 ^ suc k → (bit_and x (2 ^ k) == 0) ≡ ltb x (2 ^ k)
sign_test k x h = rw (and-power k x, digit-and-order k x h) (ground (arith, one-le-pow k 2))

-- A signed number of fewer than 8 bytes, as an `i64`, has its two's complement value.
pub get_signed_value_lem :
    (v : VNumber) (k : ℕ)
    → v.signed ≡ true
    → v.size < 8
    → v.size * 8 ≡ suc k
    → v.value < 2 ^ suc k
    → get_signed_value v ≡ (if ltb v.value (2 ^ k) then v.value else u64_mod + v.value - 2 ^ suc k)
unfolding get_signed_value
get_signed_value_lem v k s h e small =
    let bound = pow-le-pow_right {n = 2} (omega arith) {i = suc k} {j = 56} (omega arith) in
    let place : wrapping_sub (v.size * 8) 1 ≡ k = omega arith in
    let bit : wrapping_shl 1 k ≡ 2 ^ k =
      rw (shift_amount_small k (omega arith)) (omega (arith, bound, pow-suc 2 k)) in
    rw (max_value_small v h, s, place, bit, sign_test k v.value small, e)
      (ground (arith, bound, one-le-pow (suc k) 2))
