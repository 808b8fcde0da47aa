-- ===== src/Word/Bits.antt =====
-- `&`, `|` and `^` of two numbers: bounds, units and idempotence, from the digit recursion that the
-- native operations stand for.
use Prim.Native.Nat.{digits, differ, bit_and-bitwise, bit_or-bitwise, bit_xor-bitwise}
use native.Mathlib.Nat.{pow-suc, div-add-mod}
use vivisect_rs.Base.{
  ℕ, zero, suc, ◌*◌, ◌/◌, ◌%◌, ◌^◌, ◌≤◌, ◌<◌, min, max, bit_and, bit_or, bit_xor, ◌≡◌, refl, ap,
  arith,
}

differ_bit : (x y : ℕ) → x ≤ 1 → y ≤ 1 → differ x y ≤ 1
differ_bit zero y h k = k
differ_bit (suc x) zero h k = h
differ_bit (suc x) (suc y) h k = ground (arith, differ_bit x y)

differ_self : (x : ℕ) → differ x x ≡ 0
differ_self zero = refl
differ_self (suc x) = differ_self x

differ-zero : (x : ℕ) → differ x 0 ≡ x
differ-zero zero = refl
differ-zero (suc x) = refl

-- An operation on digits, `f`, with the result `z b` once the first number has run out.
module _ (z : ℕ → ℕ) (f : ℕ → ℕ → ℕ) (z-le : (b : ℕ) → z b ≤ b)
    (f_bit : (x y : ℕ) → x ≤ 1 → y ≤ 1 → f x y ≤ 1) where
  digits-lt : (n k a b : ℕ) → a < 2 ^ k → b < 2 ^ k → digits z f n a b < 2 ^ k
  digits-lt zero k a b p q = omega (arith, z-le b)
  digits-lt (suc n) k zero b p q = omega (arith, z-le b)
  digits-lt (suc n) zero (suc a) b p q = absurd (omega arith)
  digits-lt (suc n) (suc k) (suc a) b p q =
      let e = pow-suc 2 k in
      omega (
        arith,
        digits-lt n k (suc a / 2) (b / 2) (omega arith) (omega arith),
        f_bit (suc a % 2) (b % 2) (omega arith) (omega arith),
      )

pub bit_and-lt : (k a b : ℕ) → a < 2 ^ k → b < 2 ^ k → bit_and a b < 2 ^ k
bit_and-lt k a b p q =
    rw (bit_and-bitwise a b)
      (digits-lt (λ b. zero) min (λ b. omega arith) (λ x y h j. omega arith) a k a b p q)

pub bit_or-lt : (k a b : ℕ) → a < 2 ^ k → b < 2 ^ k → bit_or a b < 2 ^ k
bit_or-lt k a b p q =
    rw (bit_or-bitwise a b)
      (digits-lt (λ b. b) max (λ b. omega arith) (λ x y h j. omega arith) a k a b p q)

pub bit_xor-lt : (k a b : ℕ) → a < 2 ^ k → b < 2 ^ k → bit_xor a b < 2 ^ k
bit_xor-lt k a b p q =
    rw (bit_xor-bitwise a b) (digits-lt (λ b. b) differ (λ b. omega arith) differ_bit a k a b p q)

-- A function of the digits that agrees with `g` on numbers: the step of each law below.
module _ (z : ℕ → ℕ) (f : ℕ → ℕ → ℕ) where
  digits_self :
      (c : ℕ)
      → z 0 ≡ 0
      → ((x : ℕ) → x ≤ 1 → f x x ≡ c * x)
      → (n a : ℕ) → a ≤ n
      → digits z f n a a ≡ c * a
  digits_self c hz hf zero zero h = omega arith
  digits_self c hz hf zero (suc a) h = absurd (omega arith)
  digits_self c hz hf (suc n) zero h = omega arith
  digits_self c hz hf (suc n) (suc a) h =
      let halves = ap (λ (t : ℕ). c * t) (div-add-mod (suc a) 2) in
      omega (
        arith,
        halves,
        digits_self c hz hf n (suc a / 2) (omega arith),
        hf (suc a % 2) (omega arith),
      )

  digits-zero :
      (c : ℕ)
      → z 0 ≡ 0
      → ((x : ℕ) → x ≤ 1 → f x 0 ≡ c * x)
      → (n a : ℕ) → a ≤ n
      → digits z f n a 0 ≡ c * a
  digits-zero c hz hf zero zero h = omega arith
  digits-zero c hz hf zero (suc a) h = absurd (omega arith)
  digits-zero c hz hf (suc n) zero h = omega arith
  digits-zero c hz hf (suc n) (suc a) h =
      let halves = ap (λ (t : ℕ). c * t) (div-add-mod (suc a) 2) in
      omega (
        arith,
        halves,
        digits-zero c hz hf n (suc a / 2) (omega arith),
        hf (suc a % 2) (omega arith),
      )

pub bit_and_self : (a : ℕ) → bit_and a a ≡ a
bit_and_self a =
    rw (bit_and-bitwise a a)
      (omega (arith, digits_self (λ b. zero) min 1 refl (λ x h. omega arith) a a (omega arith)))

pub bit_or_self : (a : ℕ) → bit_or a a ≡ a
bit_or_self a =
    rw (bit_or-bitwise a a)
      (omega (arith, digits_self (λ b. b) max 1 refl (λ x h. omega arith) a a (omega arith)))

pub bit_xor_self : (a : ℕ) → bit_xor a a ≡ 0
bit_xor_self a = rw (bit_xor-bitwise a a) (
    omega (
      arith,
      digits_self (λ b. b) differ 0 refl (λ x h. omega (arith, differ_self x)) a a (omega arith),
    ))

pub bit_and-zero : (a : ℕ) → bit_and a 0 ≡ 0
bit_and-zero a =
    rw (bit_and-bitwise a 0)
      (omega (arith, digits-zero (λ b. zero) min 0 refl (λ x h. omega arith) a a (omega arith)))

pub bit_or-zero : (a : ℕ) → bit_or a 0 ≡ a
bit_or-zero a =
    rw (bit_or-bitwise a 0)
      (omega (arith, digits-zero (λ b. b) max 1 refl (λ x h. omega arith) a a (omega arith)))

pub bit_xor-zero : (a : ℕ) → bit_xor a 0 ≡ a
bit_xor-zero a = rw (bit_xor-bitwise a 0) (
    omega (
      arith,
      digits-zero (λ b. b) differ 1 refl (λ x h. omega (arith, differ-zero x)) a a (omega arith),
    ))

pub zero-bit_and : (b : ℕ) → bit_and 0 b ≡ 0
zero-bit_and b = bit_and-bitwise 0 b

pub zero-bit_or : (b : ℕ) → bit_or 0 b ≡ b
zero-bit_or b = bit_or-bitwise 0 b
