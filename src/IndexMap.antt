-- ===== src/IndexMap.antt =====
-- The crate indexmap: a map with number keys that keeps the order of insertion, as an interface with what
-- its documentation says of the operations that the program uses.
pub mod Entries
use vivisect_rs.Base.{ℕ, ◌≡◌, ap, Option, none, some, List, [], ◌∷◌, ◌++◌, ◌==◌, if◌then◌else◌}
use vivisect_rs.BTreeMap.{get, values}

-- The keys of a list of entries.
abbrev pub keys_of : {V : Type 0} → List (ℕ × V) → List ℕ
keys_of [] = []
keys_of ((k, v) ∷ m) = k ∷ keys_of m

pub record IndexMaps : Type 1 where
  pub Map : Type 0 → Type 0
  -- `IndexMap::new`, `get`, `insert` and `iter`.
  pub empty : {V : Type 0} → Map V
  pub find : {V : Type 0} → ℕ → Map V → Option V
  pub put : {V : Type 0} → ℕ → V → Map V → Map V
  pub entries : {V : Type 0} → Map V → List (ℕ × V)
  -- A lookup finds the entry of the key, and a new map has none.
  pub get-entries : {V : Type 0} (k : ℕ) (m : Map V) → get k (entries m) ≡ find k m
  pub entries-empty : {V : Type 0} → entries (empty {V = V}) ≡ []
  -- An insertion is found, a new key comes last, and a key that is there keeps its place.
  pub find-put :
      {V : Type 0} (k q : ℕ) (v : V) (m : Map V)
      → find q (put k v m) ≡ (if q == k then some v else find q m)
  pub entries-put_new :
      {V : Type 0} (k : ℕ) (v : V) (m : Map V)
      → find k m ≡ none
      → entries (put k v m) ≡ entries m ++ ((k, v) ∷ [])
  pub keys_of-put_old :
      {V : Type 0} (k : ℕ) (v w : V) (m : Map V)
      → find k m ≡ some w
      → keys_of (entries (put k v m)) ≡ keys_of (entries m)

-- `keys` and `values`.
abbrev pub keys : (I : IndexMaps) {V : Type 0} → I.Map V → List ℕ
keys I m = keys_of (I.entries m)

abbrev pub values_of : (I : IndexMaps) {V : Type 0} → I.Map V → List V
values_of I m = values (I.entries m)
