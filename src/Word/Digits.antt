-- ===== src/Word/Digits.antt =====
-- The binary digits of a number, and what `&`, `|`, `!`, shifts and masks do to them.
use Prim.Native.Nat.{digits, bit_and-bitwise, bit_or-bitwise}
use native.Mathlib.Nat.{
  pow-suc, one-le-pow, div-div-eq-div-mul, mod-eq-sub-div-mul, div-mul-le_self, mod-eq_of_lt,
}
use vivisect_rs.Base.{
  ℕ, zero, suc, ◌+◌, ◌-◌, ◌*◌, ◌/◌, ◌%◌, ◌^◌, ◌≤◌, ◌<◌, min, max, bit_and, bit_or, ◌≡◌, refl, ap,
  sym, ◌∙◌, arith, ltb, ◌==◌, if◌then◌else◌,
}

-- The digit of weight `2 ^ i`.
abbrev pub digit_at : ℕ → ℕ → ℕ
digit_at x zero = x % 2
digit_at x (suc i) = digit_at (x / 2) i

-- The recursion on digits does not depend on its fuel.
module _ (z : ℕ → ℕ) (f : ℕ → ℕ → ℕ) where
  digits-enough : (a b n : ℕ) → a ≤ n → digits z f n a b ≡ digits z f a a b
  digits-enough a b n h = fuel n a a b h (omega arith)
    where
      fuel : (n m a b : ℕ) → a ≤ n → a ≤ m → digits z f n a b ≡ digits z f m a b
      fuel zero zero a b p q = refl
      fuel zero (suc m) zero b p q = refl
      fuel zero (suc m) (suc a) b p q = absurd (omega arith)
      fuel (suc n) zero zero b p q = refl
      fuel (suc n) zero (suc a) b p q = absurd (omega arith)
      fuel (suc n) (suc m) zero b p q = refl
      fuel (suc n) (suc m) (suc a) b p q =
          omega (arith, fuel n m (suc a / 2) (b / 2) (omega arith) (omega arith))

and_halves : (a b : ℕ) → bit_and a b ≡ 2 * bit_and (a / 2) (b / 2) + min (a % 2) (b % 2)
and_halves zero b = simp bit_and-bitwise (omega arith)
and_halves (suc a) b =
    simp bit_and-bitwise
      (omega (arith, digits-enough (λ y. 0) min (suc a / 2) (b / 2) a (omega arith)))

or_halves : (a b : ℕ) → bit_or a b ≡ 2 * bit_or (a / 2) (b / 2) + max (a % 2) (b % 2)
or_halves zero b = simp bit_or-bitwise (omega arith)
or_halves (suc a) b =
    simp bit_or-bitwise
      (omega (arith, digits-enough (λ y. y) max (suc a / 2) (b / 2) a (omega arith)))

pub digit_at-le : (x i : ℕ) → digit_at x i ≤ 1
digit_at-le x zero = omega arith
digit_at-le x (suc i) = digit_at-le (x / 2) i

pub digit_at-and : (a b i : ℕ) → digit_at (bit_and a b) i ≡ min (digit_at a i) (digit_at b i)
digit_at-and a b zero = omega (arith, and_halves a b)
digit_at-and a b (suc i) =
    let e : bit_and a b / 2 ≡ bit_and (a / 2) (b / 2) = omega (arith, and_halves a b) in
    rw e (digit_at-and (a / 2) (b / 2) i)

pub digit_at-or : (a b i : ℕ) → digit_at (bit_or a b) i ≡ max (digit_at a i) (digit_at b i)
digit_at-or a b zero = omega (arith, or_halves a b)
digit_at-or a b (suc i) =
    let e : bit_or a b / 2 ≡ bit_or (a / 2) (b / 2) = omega (arith, or_halves a b) in
    rw e (digit_at-or (a / 2) (b / 2) i)

pub digit_at-zero : (i : ℕ) → digit_at 0 i ≡ 0
digit_at-zero zero = refl
digit_at-zero (suc i) = digit_at-zero i

pub digit_at-shl :
    (k x i : ℕ) → digit_at (x * 2 ^ k) i ≡ (if ltb i k then 0 else digit_at x (i - k))
digit_at-shl zero x i = ground arith
digit_at-shl (suc k) x zero = let e = ap (λ (t : ℕ). x * t) (pow-suc 2 k) in ground (arith, e)
digit_at-shl (suc k) x (suc i) =
    let e = ap (λ (t : ℕ). x * t) (pow-suc 2 k) in
    let half : x * 2 ^ suc k / 2 ≡ x * 2 ^ k = omega (arith, e) in
    rw half (digit_at-shl k x i ∙ ground arith)

pub digit_at-mask : (k i : ℕ) → digit_at (2 ^ k - 1) i ≡ (if ltb i k then 1 else 0)
digit_at-mask zero i = rw (digit_at-zero i) (ground arith)
digit_at-mask (suc k) zero = ground (arith, pow-suc 2 k, one-le-pow k 2)
digit_at-mask (suc k) (suc i) =
    let half : (2 ^ suc k - 1) / 2 ≡ 2 ^ k - 1 = omega (arith, pow-suc 2 k, one-le-pow k 2) in
    rw half (digit_at-mask k i ∙ ground arith)

pub digit_at-not :
    (k x i : ℕ) → x < 2 ^ k → digit_at (2 ^ k - 1 - x) i ≡ (if ltb i k then 1 - digit_at x i else 0)
digit_at-not zero x i h =
    let e : 2 ^ 0 - 1 - x ≡ 0 = omega arith in rw e (digit_at-zero i ∙ ground arith)
digit_at-not (suc k) x zero h = ground (arith, pow-suc 2 k)
digit_at-not (suc k) x (suc i) h =
    let half : (2 ^ suc k - 1 - x) / 2 ≡ 2 ^ k - 1 - x / 2 = omega (arith, pow-suc 2 k) in
    rw half (digit_at-not k (x / 2) i (omega (arith, pow-suc 2 k)) ∙ ground arith)

div_halves : (k x : ℕ) → x / 2 ^ suc k ≡ x / 2 / 2 ^ k
div_halves k x = ap (λ t. x / t) (pow-suc 2 k ∙ omega arith) ∙ sym (div-div-eq-div-mul x 2 (2 ^ k))

mod_halves : (k x : ℕ) → x % 2 ^ suc k ≡ 2 * (x / 2 % 2 ^ k) + x % 2
mod_halves k x =
    let p = 2 ^ k in
    let q = x / 2 / p in
    let whole = mod-eq-sub-div-mul x (2 ^ suc k) in
    let half = mod-eq-sub-div-mul (x / 2) p in
    let quotient : x / 2 ^ suc k * 2 ^ suc k ≡ 2 * (q * p) =
      ap (λ t. t * 2 ^ suc k) (div_halves k x)
      ∙ omega (arith, ap (λ (t : ℕ). q * t) (pow-suc 2 k)) in
    omega (arith, whole, half, quotient, div-mul-le_self (x / 2) p)

pub digit_at-mod : (k x i : ℕ) → digit_at (x % 2 ^ k) i ≡ (if ltb i k then digit_at x i else 0)
digit_at-mod zero x i = let e : x % 2 ^ 0 ≡ 0 = omega arith in rw e (digit_at-zero i ∙ ground arith)
digit_at-mod (suc k) x zero = ground (arith, mod_halves k x)
digit_at-mod (suc k) x (suc i) =
    let half : x % 2 ^ suc k / 2 ≡ x / 2 % 2 ^ k = omega (arith, mod_halves k x) in
    rw half (digit_at-mod k (x / 2) i ∙ ground arith)

pub digit_at-shr : (k x i : ℕ) → digit_at (x / 2 ^ k) i ≡ digit_at x (i + k)
digit_at-shr zero x i = ground arith
digit_at-shr (suc k) x i =
    let next : i + suc k ≡ suc (i + k) = omega arith in
    rw (div_halves k x, next) (digit_at-shr k (x / 2) i)

-- Two numbers with the same digits are one.
pub digits-ext : (a b : ℕ) → ((i : ℕ) → digit_at a i ≡ digit_at b i) → a ≡ b
digits-ext a b h = below (a + b) a b (omega arith) h
  where
    below : (n a b : ℕ) → a + b ≤ n → ((i : ℕ) → digit_at a i ≡ digit_at b i) → a ≡ b
    below zero a b p h = omega arith
    below (suc n) zero zero p h = refl
    below (suc n) (suc a) b p h =
        omega (arith, h 0, below n (suc a / 2) (b / 2) (omega arith) (λ i. h (suc i)))
    below (suc n) zero (suc b) p h = omega (
      arith,
      h 0,
      below n 0 (suc b / 2) (omega arith)
          (λ i. digit_at-zero i ∙ sym (digit_at-zero i) ∙ h (suc i)),
    )

digit_at-append :
    (k a b i : ℕ)
    → b < 2 ^ k
    → digit_at (a * 2 ^ k + b) i ≡ (if ltb i k then digit_at b i else digit_at a (i - k))
digit_at-append zero a b i h = let e : a * 2 ^ 0 + b ≡ a = omega arith in rw e (ground arith)
digit_at-append (suc k) a b zero h =
    let e = ap (λ (t : ℕ). a * t) (pow-suc 2 k) in ground (arith, e)
digit_at-append (suc k) a b (suc i) h =
    let e = ap (λ (t : ℕ). a * t) (pow-suc 2 k) in
    let half : (a * 2 ^ suc k + b) / 2 ≡ a * 2 ^ k + b / 2 = omega (arith, e) in
    rw half (digit_at-append k a (b / 2) i (omega (arith, pow-suc 2 k)) ∙ ground arith)

-- Masks and sums of numbers with no common digit.
pub and-mask : (k x : ℕ) → bit_and x (2 ^ k - 1) ≡ x % 2 ^ k
and-mask k x = digits-ext (bit_and x (2 ^ k - 1)) (x % 2 ^ k) (λ i.
    digit_at-and x (2 ^ k - 1) i
    ∙ ground (arith, digit_at-mask k i, digit_at-mod k x i, digit_at-le x i))

pub or-append : (k a b : ℕ) → b < 2 ^ k → bit_or (a * 2 ^ k) b ≡ a * 2 ^ k + b
or-append k a b h = digits-ext (bit_or (a * 2 ^ k) b) (a * 2 ^ k + b) (λ i.
    digit_at-or (a * 2 ^ k) b i
    ∙ ground (arith, digit_at-shl k a i, digit_at-append k a b i h, small i))
  where
    e : b % 2 ^ k ≡ b
    e = mod-eq_of_lt h

    small : (i : ℕ) → digit_at b i ≡ (if ltb i k then digit_at b i else 0)
    small i = ap (λ t. digit_at t i) (sym e) ∙ digit_at-mod k b i

pub or_comm : (a b : ℕ) → bit_or a b ≡ bit_or b a
or_comm a b =
    digits-ext (bit_or a b) (bit_or b a) (λ i. digit_at-or a b i ∙ omega (arith, digit_at-or b a i))

digit_at-bit : (d i : ℕ) → d ≤ 1 → digit_at d i ≡ (if i == 0 then d else 0)
digit_at-bit d zero h = omega arith
digit_at-bit d (suc i) h =
    let half : d / 2 ≡ 0 = omega arith in rw half (digit_at-zero i ∙ ground arith)

-- One digit of a number, in its place.
pub and-power : (k x : ℕ) → bit_and x (2 ^ k) ≡ digit_at x k * 2 ^ k
and-power k x =
    ap (bit_and x) one
    ∙ digits-ext (bit_and x (1 * 2 ^ k)) (digit_at x k * 2 ^ k) (λ i.
      digit_at-and x (1 * 2 ^ k) i
      ∙ ground (
        arith,
        digit_at-shl k 1 i,
        digit_at-shl k (digit_at x k) i,
        digit_at-bit 1 (i - k) (omega arith),
        digit_at-bit (digit_at x k) (i - k) (digit_at-le x k),
        digit_at-le x i,
        same i,
      ))
  where
    one : 2 ^ k ≡ 1 * 2 ^ k
    one = omega arith

    same : (i : ℕ) → i ≡ k → digit_at x i ≡ digit_at x k
    same i e = ap (digit_at x) e
