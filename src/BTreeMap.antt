-- ===== src/BTreeMap.antt =====
-- The standard library's `BTreeMap` with number keys, as a list of entries in ascending order of
-- their keys, with the operations that the program uses.
pub mod Laws
use vivisect_rs.Base.{
  ℕ, ◌<◌, Option, none, some, List, [], ◌∷◌, All, ltb, leb, ◌==◌, if◌then◌else◌, ◌&&◌, map,
}

abbrev pub BTreeMap {ℓ} : Type ℓ → Type ℓ
BTreeMap V = List (ℕ × V)

module _ {ℓ} {V : Type ℓ} where
  -- Every key of the map is above `k`.
  abbrev pub KeysAbove : ℕ → BTreeMap V → Type 0
  KeysAbove k [] = Unit
  KeysAbove k ((j, v) ∷ m) = (k < j) × KeysAbove k m

  abbrev pub IsSorted : BTreeMap V → Type 0
  IsSorted [] = Unit
  IsSorted ((k, v) ∷ m) = KeysAbove k m × IsSorted m

  -- `get`.
  unfoldable pub get : ℕ → BTreeMap V → Option V
  get k [] = none
  get k ((j, v) ∷ m) = if k == j then some v else get k m

  -- `insert`.
  unfoldable pub insert : ℕ → V → BTreeMap V → BTreeMap V
  insert k v [] = (k, v) ∷ []
  insert k v ((j, w) ∷ m) =
      if k == j then (k, v) ∷ m else if ltb k j then (k, v) ∷ (j, w) ∷ m else (j, w) ∷ insert k v m

  -- `remove`.
  unfoldable pub remove : ℕ → BTreeMap V → BTreeMap V
  remove k [] = []
  remove k ((j, v) ∷ m) = if k == j then m else (j, v) ∷ remove k m

  -- The later of two entries, if there is a second.
  abbrev pub later : (ℕ × V) → Option (ℕ × V) → Option (ℕ × V)
  later e none = some e
  later e (some e') = some e'

  -- `range(..=k).next_back()`: the entry with the greatest key up to `k`.
  unfoldable pub floor : ℕ → BTreeMap V → Option (ℕ × V)
  floor k [] = none
  floor k ((j, v) ∷ m) = if leb j k then later (j, v) (floor k m) else none

  -- `range(lo..hi)`, the values.
  unfoldable pub range : ℕ → ℕ → BTreeMap V → List V
  range lo hi [] = []
  range lo hi ((j, v) ∷ m) = if leb lo j && ltb j hi then v ∷ range lo hi m else range lo hi m

  -- `values()`.
  unfoldable pub values : BTreeMap V → List V
  values [] = []
  values ((j, v) ∷ m) = v ∷ values m
