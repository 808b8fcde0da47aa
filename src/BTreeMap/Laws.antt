-- ===== src/BTreeMap/Laws.antt =====
-- Laws of the ordered map: lookups after changes, the order of the keys, and the greatest entry.
use vivisect_rs.Base.{
  ℕ, ◌≤◌, ◌<◌, ◌≡◌, refl, none, some, [], ◌∷◌, arith, ◌==◌, if◌then◌else◌, Option-cases, inl, inr,
}
use vivisect_rs.BTreeMap.{BTreeMap, KeysAbove, IsSorted, get, insert, remove, floor}

module _ {ℓ} {V : Type ℓ} where
  KeysAbove-insert :
      (b k : ℕ) (v : V) (m : BTreeMap V) → KeysAbove b m → b < k → KeysAbove b (insert k v m)
  unfolding insert
  KeysAbove-insert b k v [] h p = (p, tt)
  KeysAbove-insert b k v ((j, w) ∷ m) h p = ground (arith, KeysAbove-insert b k v m)

  KeysAbove-remove : (b k : ℕ) (m : BTreeMap V) → KeysAbove b m → KeysAbove b (remove k m)
  unfolding remove
  KeysAbove-remove b k [] h = tt
  KeysAbove-remove b k ((j, w) ∷ m) h = ground (arith, KeysAbove-remove b k m)

  KeysAbove-imp : (b c : ℕ) (m : BTreeMap V) → c ≤ b → KeysAbove b m → KeysAbove c m
  KeysAbove-imp b c [] p h = tt
  KeysAbove-imp b c ((j, w) ∷ m) p h = (omega arith, KeysAbove-imp b c m p h.1)

  pub get-KeysAbove : (b k : ℕ) (m : BTreeMap V) → KeysAbove b m → k ≤ b → get k m ≡ none
  unfolding get
  get-KeysAbove b k [] h p = refl
  get-KeysAbove b k ((j, w) ∷ m) h p = ground (arith, get-KeysAbove b k m h.1)

  pub insert-IsSorted : (k : ℕ) (v : V) (m : BTreeMap V) → IsSorted m → IsSorted (insert k v m)
  unfolding insert
  insert-IsSorted k v [] h = (tt, tt)
  insert-IsSorted k v ((j, w) ∷ m) h =
      ground (arith, insert-IsSorted k v m, KeysAbove-insert j k v m, KeysAbove-imp j k m)

  pub remove-IsSorted : (k : ℕ) (m : BTreeMap V) → IsSorted m → IsSorted (remove k m)
  unfolding remove
  remove-IsSorted k [] h = tt
  remove-IsSorted k ((j, w) ∷ m) h = ground (arith, remove-IsSorted k m, KeysAbove-remove j k m)

  pub get-insert :
      (k q : ℕ) (v : V) (m : BTreeMap V)
      → get q (insert k v m) ≡ (if q == k then some v else get q m)
  unfolding get insert
  get-insert k q v [] = ground arith
  get-insert k q v ((j, w) ∷ m) = ground (arith, get-insert k q v m)

  pub get-remove :
      (k q : ℕ) (m : BTreeMap V)
      → IsSorted m
      → get q (remove k m) ≡ (if q == k then none else get q m)
  unfolding get remove
  get-remove k q [] h = ground arith
  get-remove k q ((j, w) ∷ m) h = ground (arith, get-remove k q m h.1, get-KeysAbove j q m h.0)

  -- The greatest entry up to `k` has a key up to `k`.
  pub floor-le : (k : ℕ) (m : BTreeMap V) {e : ℕ × V} → floor k m ≡ some e → e.0 ≤ k
  unfolding floor
  floor-le k [] h = cc
  floor-le k ((j, w) ∷ m) h = elim (Option-cases (floor k m)) [
    | inl nothing ↦ ground arith
    | inr (e', found) ↦ ground (arith, floor-le k m found)
  ]

  -- It is an entry of the map.
  pub floor-get :
      (k : ℕ) (m : BTreeMap V) {e : ℕ × V} → IsSorted m → floor k m ≡ some e → get e.0 m ≡ some e.1
  unfolding floor get
  floor-get k [] s h = cc
  floor-get k ((j, w) ∷ m) s h = elim (Option-cases (floor k m)) [
    | inl nothing ↦ ground arith
    | inr (e', found) ↦ ground (arith, floor-get k m s.1 found, get-KeysAbove j e'.0 m s.0)
  ]
