-- ===== src/Analysis/Strings/Runs.antt =====
-- src/analysis/strings.rs: the runs of characters that the loops pass.
use vivisect_rs.Base.{
  ℕ, zero, suc, ◌+◌, ◌*◌, ◌≤◌, ◌<◌, ◌≡◌, refl, ap, ◌∙◌, true, ◌||◌, some, List, [], ◌∷◌, ◌++◌,
  arith, length, take, drop, all, Option-cases, inl, inr,
}
use vivisect_rs.Analysis.Strings.{
  StringEncoding, ascii_run, is_printable_ascii, null_at, unit_run, printable_at,
}

-- A run of bytes lies in the bytes and is at most as long as allowed.
pub ascii_run-bounds : (k n : ℕ) (bs : List ℕ) → ascii_run k bs ≡ some n → (n ≤ length bs) × (n ≤ k)
unfolding ascii_run
ascii_run-bounds zero n bs h = ground arith
ascii_run-bounds (suc k) n [] h = ground arith
ascii_run-bounds (suc k) n (b ∷ bs) h = elim (Option-cases (ascii_run k bs)) [
  | inl e ↦ ground arith
  | inr (m, e) ↦ let rest = ascii_run-bounds k m bs e in ground (arith, rest)
]

-- It has only printable characters.
pub ascii_run-printable :
    (k n : ℕ) (bs : List ℕ) → ascii_run k bs ≡ some n → all is_printable_ascii (take n bs) ≡ true
unfolding ascii_run
ascii_run-printable zero n bs h = let e : n ≡ 0 = ground arith in rw e refl
ascii_run-printable (suc k) n [] h = let e : n ≡ 0 = ground arith in rw e refl
ascii_run-printable (suc k) zero (b ∷ bs) h = refl
ascii_run-printable (suc k) (suc n) (b ∷ bs) h = elim (Option-cases (ascii_run k bs)) [
  | inl e ↦ ground arith
  | inr (m, e) ↦
      let same : m ≡ n = ground arith in
      let rest = ascii_run-printable k n bs (e ∙ ap some same) in ground (arith, rest)
]

-- Where a run is empty, the first byte is a null byte.
ascii_run-null : (k : ℕ) (b : ℕ) (bs : List ℕ) → ascii_run (suc k) (b ∷ bs) ≡ some 0 → b ≡ 0
unfolding ascii_run
ascii_run-null k b bs h = ground (arith, Option-cases (ascii_run k bs))

-- A text that a null byte follows is a run.
pub ascii_run-text :
    (k : ℕ) (s after : List ℕ)
    → all is_printable_ascii s ≡ true
    → length s < k
    → ascii_run k (s ++ (0 ∷ after)) ≡ some (length s)
unfolding ascii_run is_printable_ascii
ascii_run-text zero s after p h = absurd (omega arith)
ascii_run-text (suc k) [] after p h = refl
ascii_run-text (suc k) (b ∷ s) after p h = ground (arith, ascii_run-text k s after)

pub unit_run-bounds :
    (e : StringEncoding) (k : ℕ) (bs us : List ℕ)
    → unit_run e k bs ≡ some us
    → (2 * length us ≤ length bs) × (length us ≤ k)
unfolding unit_run
unit_run-bounds e zero bs us h = ground arith
unit_run-bounds e (suc k) [] us h = ground arith
unit_run-bounds e (suc k) (a ∷ []) us h = ground arith
unit_run-bounds e (suc k) (a ∷ b ∷ bs) us h = elim (Option-cases (unit_run e k bs)) [
  | inl r ↦ ground arith
  | inr (vs, r) ↦ let rest = unit_run-bounds e k bs vs r in ground (arith, rest)
]

-- A null byte is one of the bytes.
pub null_at-bound : (bs : List ℕ) (i : ℕ) → null_at bs i ≡ true → i < length bs
unfolding null_at
null_at-bound [] i h = absurd (ground arith)
null_at-bound (b ∷ bs) zero h = omega arith
null_at-bound (b ∷ bs) (suc i) h = omega (arith, null_at-bound bs i h)

pub ascii_run-null_at :
    (k : ℕ) (bs : List ℕ) (offset : ℕ)
    → ascii_run (suc k) (drop offset bs) ≡ some 0
    → offset < length bs
    → null_at bs offset ≡ true
unfolding null_at
ascii_run-null_at k [] offset h b = absurd (omega arith)
ascii_run-null_at k (b ∷ bs) zero h inside = ground (arith, ascii_run-null k b bs h)
ascii_run-null_at k (b ∷ bs) (suc offset) h inside = ascii_run-null_at k bs offset h (omega arith)

-- A run of code units is not empty where the first or the second byte is printable.
unit_run-starts :
    (e : StringEncoding) (k a b : ℕ) (bs us : List ℕ)
    → unit_run e (suc k) (a ∷ b ∷ bs) ≡ some us
    → (is_printable_ascii a || is_printable_ascii b) ≡ true
    → 0 < length us
unfolding unit_run is_printable_ascii
unit_run-starts e k a b bs us h p = ground (arith, Option-cases (unit_run e k bs))

unit_run-nonempty :
    (e : StringEncoding) (k : ℕ) (bs us : List ℕ) (offset : ℕ)
    → unit_run e (suc k) (drop offset bs) ≡ some us
    → (printable_at bs offset || printable_at bs (suc offset)) ≡ true
    → suc offset < length bs
    → 0 < length us
unfolding printable_at
unit_run-nonempty e k [] us offset h p inside = absurd (omega arith)
unit_run-nonempty e k (a ∷ []) us offset h p inside = absurd (omega arith)
unit_run-nonempty e k (a ∷ b ∷ bs) us zero h p inside = unit_run-starts e k a b bs us h p
unit_run-nonempty e k (a ∷ b ∷ bs) us (suc offset) h p inside =
    unit_run-nonempty e k (b ∷ bs) us offset h p (omega arith)

pub unit_run-positive :
    (e : StringEncoding) (k : ℕ) (bs us : List ℕ) (offset : ℕ)
    → unit_run e (suc k) (drop offset bs) ≡ some us
    → (printable_at bs offset || printable_at bs (offset + 1)) ≡ true
    → offset + 1 < length bs
    → 0 < length us
unit_run-positive e k bs us offset h p inside =
    let next : suc offset ≡ offset + 1 = omega arith in
    unit_run-nonempty e k bs us offset h
      (ap (λ t. printable_at bs offset || printable_at bs t) next ∙ p) (omega arith)
