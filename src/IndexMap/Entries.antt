-- ===== src/IndexMap/Entries.antt =====
-- The map in insertion order as the list of its entries: one way to fill the interface.
use vivisect_rs.Base.{
  ℕ, ◌≡◌, refl, ap, true, none, some, List, [], ◌∷◌, ◌++◌, arith, ◌==◌, if◌then◌else◌, Bool-cases,
  inl, inr,
}
use vivisect_rs.BTreeMap.{get}
use vivisect_rs.IndexMap.{IndexMaps, keys_of}

num_eq : (k j : ℕ) → (k == j) ≡ true → k ≡ j
num_eq k j same = ground arith

module _ {V : Type 0} where
  unfoldable pub put_entry : ℕ → V → List (ℕ × V) → List (ℕ × V)
  put_entry k v [] = (k, v) ∷ []
  put_entry k v ((j, w) ∷ m) =
      let rest = put_entry k v m in if k == j then (k, v) ∷ m else (j, w) ∷ rest

  pub get-put_entry :
      (k q : ℕ) (v : V) (m : List (ℕ × V))
      → get q (put_entry k v m) ≡ (if q == k then some v else get q m)
  unfolding get put_entry
  get-put_entry k q v [] = ground arith
  get-put_entry k q v ((j, w) ∷ m) = ground (arith, get-put_entry k q v m)

  pub put_entry_new :
      (k : ℕ) (v : V) (m : List (ℕ × V)) → get k m ≡ none → put_entry k v m ≡ m ++ ((k, v) ∷ [])
  unfolding get put_entry
  put_entry_new k v [] h = refl
  put_entry_new k v ((j, w) ∷ m) h = elim (Bool-cases (k == j)) [
    | inl same ↦ ground arith
    | inr apart ↦ rw apart (ap (λ l. (j, w) ∷ l) (put_entry_new k v m (ground arith)))
  ]

  pub keys_of-put_entry :
      (k : ℕ) (v w : V) (m : List (ℕ × V))
      → get k m ≡ some w
      → keys_of (put_entry k v m) ≡ keys_of m
  unfolding get put_entry
  keys_of-put_entry k v w [] h = cc
  keys_of-put_entry k v w ((j, x) ∷ m) h = elim (Bool-cases (k == j)) [
    | inl same ↦ rw same (ap (λ i. i ∷ keys_of m) (num_eq k j same))
    | inr apart ↦ rw apart (ap (λ l. j ∷ l) (keys_of-put_entry k v w m (ground arith)))
  ]

-- The interface, filled.
abbrev pub entry_lists : IndexMaps
entry_lists = record {
  Map = λ V. List (ℕ × V);
  empty = [];
  find = λ k m. get k m;
  put = λ k v m. put_entry k v m;
  entries = λ m. m;
  get-entries = λ k m. refl;
  entries-empty = refl;
  find-put = λ k q v m. get-put_entry k q v m;
  entries-put_new = λ k v m h. put_entry_new k v m h;
  keys_of-put_old = λ k v w m h. keys_of-put_entry k v w m h;
}
