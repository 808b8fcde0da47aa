-- ===== src/Word/Laws.antt =====
-- Laws of the `u64` operations: bounds, units, and shifts against multiplication.
use native.Mathlib.Nat.{pow-suc, pow-zero}
use vivisect_rs.Base.{
  ℕ, zero, suc, ◌*◌, ◌/◌, ◌%◌, ◌^◌, ◌<◌, ◌≡◌, refl, true, arith, ◌==◌, Bool-cases, inl, inr,
}
use vivisect_rs.Word.{
  IsU64, wrapping_mul, wrapping_pow, shift_amount, count_trailing, has_one_bit, trailing_zeros,
  is_power_of_two, wrapping_shl,
}

pub shift_amount_small : (b : ℕ) → b < 64 → shift_amount b ≡ b
shift_amount_small b h = omega arith

two_pow_suc : (n : ℕ) → 2 ^ suc n ≡ 2 ^ n * 2
two_pow_suc n = pow-suc 2 n

-- A number with one bit set is two to the power of its trailing zeros.
pub power-trailing : (k n : ℕ) → has_one_bit k n ≡ true → n ≡ 2 ^ count_trailing k n
unfolding has_one_bit count_trailing
power-trailing zero n h = cc
power-trailing (suc k) n h = elim (Bool-cases (n % 2 == 1)) [
  | inl odd ↦ rw odd (ground arith)
  | inr even ↦
      rw even (ground (arith, power-trailing k (n / 2), two_pow_suc (count_trailing k (n / 2))))
]

pub count_trailing-lt : (k n : ℕ) → has_one_bit k n ≡ true → count_trailing k n < k
unfolding has_one_bit count_trailing
count_trailing-lt zero n h = cc
count_trailing-lt (suc k) n h = ground (arith, count_trailing-lt k (n / 2))

-- Strength reduction: a product with a power of two is a shift by its trailing zeros.
pub mul-power-shl :
    (a n : ℕ) → is_power_of_two n ≡ true → wrapping_mul a n ≡ wrapping_shl a (trailing_zeros n)
mul-power-shl a n h =
    rw (shift_amount_small (trailing_zeros n) (count_trailing-lt 64 n h), ← power-trailing 64 n h)

pub wrapping_pow-zero : (a : ℕ) → wrapping_pow a 0 ≡ 1
unfolding wrapping_pow
wrapping_pow-zero a = rw (pow-zero a) refl

pub wrapping_pow-one : (a : ℕ) → IsU64 a → wrapping_pow a 1 ≡ a
unfolding wrapping_pow
wrapping_pow-one a h = rw (pow-suc a 0, pow-zero a) (omega arith)
