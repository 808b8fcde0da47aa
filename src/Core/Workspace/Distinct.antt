-- ===== src/Core/Workspace/Distinct.antt =====
-- src/core/workspace.rs: lists of addresses, and the keys of the map of functions.
use vivisect_rs.Base.{ℕ, ◌≡◌, refl, ap, ◌∙◌, none, List, [], ◌∷◌, ◌++◌, false, ◌||◌, ◌==◌, arith}
use vivisect_rs.BTreeMap.{get}
use vivisect_rs.IndexMap.{IndexMaps, keys, keys_of}
use vivisect_rs.Core.Workspace.Setters.{has_va}

-- No address is in the list twice.
abbrev pub IsDistinct : List ℕ → Type 0
IsDistinct [] = Unit
IsDistinct (x ∷ xs) = (has_va x xs ≡ false) × IsDistinct xs

pub has_va-snoc : (x va : ℕ) (xs : List ℕ) → has_va x (xs ++ (va ∷ [])) ≡ (has_va x xs || (va == x))
has_va-snoc x va [] = ground arith
has_va-snoc x va (y ∷ ys) = ground (arith, has_va-snoc x va ys)

pub IsDistinct-snoc :
    (va : ℕ) (xs : List ℕ) → has_va va xs ≡ false → IsDistinct xs → IsDistinct (xs ++ (va ∷ []))
IsDistinct-snoc va [] fresh h = (refl, tt)
IsDistinct-snoc va (x ∷ xs) fresh h =
    (ground (arith, has_va-snoc x va xs, h.0), IsDistinct-snoc va xs (ground arith) h.1)

pub get-has_va :
    {V : Type 0} (va : ℕ) (m : List (ℕ × V)) → get va m ≡ none → has_va va (keys_of m) ≡ false
unfolding get
get-has_va va [] e = refl
get-has_va va ((j, v) ∷ m) e = ground (arith, get-has_va va m)

pub keys_of-append :
    {V : Type 0} (xs : List (ℕ × V)) (k : ℕ) (v : V)
    → keys_of (xs ++ ((k, v) ∷ [])) ≡ keys_of xs ++ (k ∷ [])
keys_of-append [] k v = refl
keys_of-append ((j, w) ∷ xs) k v = ap (λ l. j ∷ l) (keys_of-append xs k v)

pub keys-put_new :
    (I : IndexMaps) {V : Type 0} (k : ℕ) (v : V) (m : I.Map V)
    → I.find k m ≡ none
    → keys I (I.put k v m) ≡ keys I m ++ (k ∷ [])
keys-put_new I k v m fresh =
    ap keys_of (I.entries-put_new k v m fresh) ∙ keys_of-append (I.entries m) k v

pub find-has_va :
    (I : IndexMaps) {V : Type 0} (va : ℕ) (m : I.Map V)
    → I.find va m ≡ none
    → has_va va (keys I m) ≡ false
find-has_va I va m fresh = get-has_va va (I.entries m) (I.get-entries va m ∙ fresh)
