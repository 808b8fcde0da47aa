-- ===== src/Core/XRefs/Tally.antt =====
-- How often a reference stands in one of the lists of src/core/xrefs.rs.
use vivisect_rs.Base.{
  ℕ, suc, ◌-◌, ◌<◌, true, false, ◌&&◌, none, some, [], ◌∷◌, ◌++◌, ◌==◌, if◌then◌else◌, any, ◌≡◌,
  refl, arith, inl, inr, Bool-cases, Option-cases,
}
use vivisect_rs.Core.XRefs.{RefType, discriminant, References, is_ref, position, remove_at}

-- How often a reference stands in a list.
abbrev pub tally : ℕ → RefType → References → ℕ
tally a r [] = 0
tally a r (x ∷ xs) = if is_ref a r x then suc (tally a r xs) else tally a r xs

both : (a b c d e f : ℕ) → (c == a && d == b) ≡ true → (c == e && d == f) ≡ (e == a && f == b)
both a b c d e f h = ground arith

neither :
    (a b c d e f : ℕ)
    → (c == a && d == b) ≡ false
    → (e == a && f == b) ≡ true
    → (c == e && d == f) ≡ false
neither a b c d e f h p = ground arith

-- A reference that passes one test passes another exactly when the tests are for the same reference.
pub is_ref-true :
    (a b : ℕ) (r s : RefType) (x : ℕ × RefType)
    → is_ref a r x ≡ true
    → is_ref b s x ≡ is_ref a r (b, s)
unfolding is_ref
is_ref-true a b r s (c, t) h = both a (discriminant r) c (discriminant t) b (discriminant s) h

pub is_ref-false :
    (a b : ℕ) (r s : RefType) (x : ℕ × RefType)
    → is_ref a r x ≡ false
    → is_ref a r (b, s) ≡ true
    → is_ref b s x ≡ false
unfolding is_ref
is_ref-false a b r s (c, t) h p =
    neither a (discriminant r) c (discriminant t) b (discriminant s) h p

pub tally-append :
    (b : ℕ) (s : RefType) (xs : References) (x : ℕ × RefType)
    → tally b s (xs ++ (x ∷ [])) ≡ (if is_ref b s x then suc (tally b s xs) else tally b s xs)
tally-append b s [] x = refl
tally-append b s (y ∷ xs) x = ground (arith, tally-append b s xs x)

pub tally-any :
    (a : ℕ) (r : RefType) (xs : References)
    → any (is_ref a r) xs ≡ (if tally a r xs == 0 then false else true)
tally-any a r [] = refl
tally-any a r (x ∷ xs) = ground (arith, tally-any a r xs)

pub position-none :
    (a : ℕ) (r : RefType) (xs : References) → position a r xs ≡ none → tally a r xs ≡ 0
position-none a r [] h = refl
position-none a r (x ∷ xs) h = elim (Option-cases (position a r xs)) [
  | inl e ↦ ground (arith, position-none a r xs e)
  | inr (i, e) ↦ absurd (ground arith)
]

pub tally-same :
    (a b : ℕ) (r s : RefType) (xs : References)
    → is_ref a r (b, s) ≡ true
    → tally b s xs ≡ tally a r xs
tally-same a b r s [] p = refl
tally-same a b r s (x ∷ xs) p = elim (Bool-cases (is_ref a r x)) [
  | inl e ↦ ground (arith, is_ref-true a b r s x e, tally-same a b r s xs p)
  | inr e ↦ ground (arith, is_ref-false a b r s x e p, tally-same a b r s xs p)
]

pub tally-remove_at :
    (a b : ℕ) (r s : RefType) (xs : References) {i : ℕ}
    → position a r xs ≡ some i
    → (0 < tally a r xs)
      × (tally b s (remove_at i xs)
          ≡ (if is_ref a r (b, s) then tally b s xs - 1 else tally b s xs))
tally-remove_at a b r s [] h = cc
tally-remove_at a b r s (x ∷ xs) {i} h = elim (Bool-cases (is_ref a r x)) [
  | inl here ↦
      let first : 0 ≡ i = ground arith in rw (← first) (ground (arith, is_ref-true a b r s x here))
  | inr elsewhere ↦ elim (Option-cases (position a r xs)) [
    | inl e ↦ absurd (ground arith)
    | inr (j, e) ↦
        let next : suc j ≡ i = ground arith in
        let (some_left, rest) = tally-remove_at a b r s xs e in
        rw (← next) (ground (arith, is_ref-false a b r s x elsewhere, tally-same a b r s xs))
  ]
]
