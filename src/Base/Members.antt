-- ===== src/Base/Members.antt =====
-- Membership of lists, and what holds of all members.
use mathlib.Core.Path.{◌≡◌, sym, subst}
use mathlib.Core.Logic.{◌⊎◌, inl, inr}
use mathlib.Core.List.{List, [], ◌∷◌, ◌++◌}
use vivisect_rs.Base.Lists.{All}

module _ {A : Type 0} where
  -- It computes to a sum, which can be taken apart.
  abbrev pub Member : A → List A → Type 0
  Member a [] = ⊥
  Member a (x ∷ xs) = (a ≡ x) ⊎ Member a xs

  pub Member-left : (a : A) (xs ys : List A) → Member a xs → Member a (xs ++ ys)
  Member-left a [] ys m = elim m [ ]
  Member-left a (x ∷ xs) ys (inl e) = inl e
  Member-left a (x ∷ xs) ys (inr m) = inr (Member-left a xs ys m)

  pub Member-right : (a : A) (xs ys : List A) → Member a ys → Member a (xs ++ ys)
  Member-right a [] ys m = m
  Member-right a (x ∷ xs) ys m = inr (Member-right a xs ys m)

  pub All-append {κ} : (P : A → Type κ) (xs ys : List A) → All P xs → All P ys → All P (xs ++ ys)
  All-append P [] ys hx hy = hy
  All-append P (x ∷ xs) ys hx hy = (hx.0, All-append P xs ys hx.1 hy)

  pub All-Member {κ} : (P : A → Type κ) (a : A) (xs : List A) → All P xs → Member a xs → P a
  All-Member P a [] h m = elim m [ ]
  All-Member P a (x ∷ xs) h (inl e) = subst P (sym e) h.0
  All-Member P a (x ∷ xs) h (inr m) = All-Member P a xs h.1 m

  pub All-imp {κ μ} :
      (P : A → Type κ) (Q : A → Type μ) (xs : List A) → ((a : A) → P a → Q a) → All P xs → All Q xs
  All-imp P Q [] f h = tt
  All-imp P Q (x ∷ xs) f h = (f x h.0, All-imp P Q xs f h.1)
