-- ===== src/Vstruct/Number/Loops.antt =====
-- src/vstruct/primitives.rs: the loops of `VNumber` over the bytes of other sizes.
use native.Mathlib.Nat.{pow-suc, div-add-mod, pow-le-pow_right}
use vivisect_rs.Base.{
  ℕ, zero, suc, ◌+◌, ◌*◌, ◌/◌, ◌%◌, ◌^◌, ◌≤◌, ◌<◌, ◌≡◌, refl, sym, ap, ◌∙◌, List, ◌∷◌, arith,
  bit_and, bit_or, length,
}
use vivisect_rs.Word.{u64_mod, wrapping_shl}
use vivisect_rs.Word.Laws.{shift_amount_small}
use vivisect_rs.Word.Digits.{and-mask, or-append, or_comm}
use vivisect_rs.Vstruct.Number.{read_be, read_le, write_be, write_le}

pub low_byte : (n : ℕ) → bit_and n 255 ≡ n % 256
low_byte n = and-mask 8 n

pub length-write_le : (k n : ℕ) → length (write_le k n) ≡ k
unfolding write_le
length-write_le zero n = refl
length-write_le (suc k) n = ap suc (length-write_le k (n / 256))

pub length-write_be :
    (k n : ℕ) (written : List ℕ) → length (write_be k n written) ≡ k + length written
unfolding write_be
length-write_be zero n written = omega arith
length-write_be (suc k) n written =
    omega (arith, length-write_be k (n / 256) (bit_and n 255 ∷ written))

-- One round of the big-endian loop.
append_byte : (x b : ℕ) → x * 256 < u64_mod → b < 256 → bit_or (wrapping_shl x 8) b ≡ x * 256 + b
append_byte x b fits small =
    let shifted : wrapping_shl x 8 ≡ x * 2 ^ 8 = omega arith in rw shifted (or-append 8 x b small)

pub read_be-write_be :
    (k p n : ℕ) (written : List ℕ)
    → n < 256 ^ k
    → p * 256 ^ k + n < u64_mod
    → read_be p (write_be k n written) ≡ read_be (p * 256 ^ k + n) written
unfolding read_be write_be
read_be-write_be zero p n written small fits =
    let e : p * 256 ^ 0 + n ≡ p = omega arith in ap (λ t. read_be t written) (sym e)
read_be-write_be (suc k) p n written small fits =
    let e = ap (λ (t : ℕ). p * t) (pow-suc 256 k) in
    let x = p * 256 ^ k + n / 256 in
    let whole : x * 256 + n % 256 ≡ p * 256 ^ suc k + n = omega (arith, e) in
    let last = append_byte x (n % 256) (omega (arith, e)) (omega arith) in
    read_be-write_be k p (n / 256) (bit_and n 255 ∷ written) (omega (arith, pow-suc 256 k))
      (omega (arith, e))
    ∙ ap (λ t. read_be (bit_or (wrapping_shl x 8) t) written) (low_byte n)
    ∙ ap (λ t. read_be t written) (last ∙ whole)

byte_power : (i : ℕ) → 2 ^ (i * 8) ≡ 256 ^ i
byte_power zero = refl
byte_power (suc i) =
    let next : suc i * 8 ≡ suc (suc (suc (suc (suc (suc (suc (suc (i * 8)))))))) = omega arith in
    rw next (
      omega (
        arith,
        byte_power i,
        pow-suc 256 i,
        pow-suc 2 (i * 8),
        pow-suc 2 (suc (i * 8)),
        pow-suc 2 (suc (suc (i * 8))),
        pow-suc 2 (suc (suc (suc (i * 8)))),
        pow-suc 2 (suc (suc (suc (suc (i * 8))))),
        pow-suc 2 (suc (suc (suc (suc (suc (i * 8)))))),
        pow-suc 2 (suc (suc (suc (suc (suc (suc (i * 8))))))),
        pow-suc 2 (suc (suc (suc (suc (suc (suc (suc (i * 8)))))))),
      ))

-- One round of the little-endian loop.
prepend_byte :
    (v b i : ℕ)
    → v < 256 ^ i
    → b < 256
    → i < 8
    → bit_or v (wrapping_shl b (i * 8)) ≡ b * 256 ^ i + v
prepend_byte v b i below small h =
    let top = pow-le-pow_right {n = 256} (omega arith) {i = suc i} {j = 8} (omega arith) in
    let shifted : wrapping_shl b (i * 8) ≡ b * 2 ^ (i * 8) =
      rw (shift_amount_small (i * 8) (omega arith), byte_power i)
        (grind (arith, top, pow-suc 256 i)) in
    or_comm v (wrapping_shl b (i * 8))
    ∙ rw shifted (or-append (i * 8) b v (rw (byte_power i) below))
    ∙ ap (λ t. b * t + v) (byte_power i)

pub read_le-write_le :
    (k v n i : ℕ)
    → n < 256 ^ k
    → v < 256 ^ i
    → i + k ≤ 8
    → read_le v i (write_le k n) ≡ n * 256 ^ i + v
unfolding read_le write_le
read_le-write_le zero v n i small below h = let e : n ≡ 0 = omega arith in rw e (omega arith)
read_le-write_le (suc k) v n i small below h =
    let byte = prepend_byte v (n % 256) i below (omega arith) (omega arith) in
    let next = n % 256 * 256 ^ i + v in
    ap (λ t. read_le (bit_or v (wrapping_shl t (i * 8))) (suc i) (write_le k (n / 256)))
      (low_byte n)
    ∙ ap (λ t. read_le t (suc i) (write_le k (n / 256))) byte
    ∙ read_le-write_le k next (n / 256) (suc i) (omega (arith, pow-suc 256 k))
        (grind (arith, pow-suc 256 i)) (omega arith)
    ∙ omega (
      arith,
      ap (λ (t : ℕ). n / 256 * t) (pow-suc 256 i),
      ap (λ (t : ℕ). t * 256 ^ i) (div-add-mod n 256),
    )
