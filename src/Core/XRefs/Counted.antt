-- ===== src/Core/XRefs/Counted.antt =====
-- src/core/xrefs.rs: the count of the cross-references, and sequences of changes.
use vivisect_rs.Base.{
  ℕ, suc, ◌+◌, ◌≤◌, ◌<◌, some, List, [], ◌∷◌, ◌++◌, ◌≡◌, refl, arith, inl, inr, Bool-cases,
  Option-cases, length, length-append,
}
use vivisect_rs.Word.{u64_mod}
use vivisect_rs.BTreeMap.{BTreeMap, IsSorted, get, insert}
use vivisect_rs.BTreeMap.Laws.{get-KeysAbove, insert-IsSorted}
use vivisect_rs.Core.XRefs.{
  RefType, References, XRefManager, is_ref, refs_at, add_xref, position, remove_at, remove_xref,
  new_xrefs,
}
use vivisect_rs.Core.XRefs.Mirror.{IsMirror, add_xref-IsMirror, remove_xref-IsMirror}

-- The number of references in a map.
abbrev pub total : BTreeMap References → ℕ
total [] = 0
total ((k, refs) ∷ m) = length refs + total m

total-insert :
    (k : ℕ) (v : References) (m : BTreeMap References)
    → IsSorted m
    → total (insert k v m) + length (refs_at k m) ≡ total m + length v
unfolding insert get
total-insert k v [] h = omega arith
total-insert k v ((j, w) ∷ m) h = ground (arith, get-KeysAbove j k m h.0, total-insert k v m h.1)

length-remove_at :
    (a : ℕ) (r : RefType) (xs : References) {i : ℕ}
    → position a r xs ≡ some i
    → length (remove_at i xs) + 1 ≡ length xs
length-remove_at a r [] h = cc
length-remove_at a r (x ∷ xs) {i} h = elim (Bool-cases (is_ref a r x)) [
  | inl here ↦ let first : 0 ≡ i = ground arith in rw (← first) (omega arith)
  | inr elsewhere ↦ elim (Option-cases (position a r xs)) [
    | inl e ↦ absurd (ground arith)
    | inr (j, e) ↦
        let next : suc j ≡ i = ground arith in
        rw (← next) (omega (arith, length-remove_at a r xs e))
  ]
]

-- The two maps agree, the map by destination is in order, and the count is its number of references.
pub record IsCounted (m : XRefManager) : Type 0 where
  pub mirrored : IsMirror m
  pub sorted : IsSorted m.to_map
  pub counted : m.count ≡ total m.to_map

add_xref-counted :
    (m : XRefManager) (from to : ℕ) (r : RefType)
    → IsCounted m
    → m.count + 1 < u64_mod
    → (IsSorted (add_xref m from to r).to_map)
      × ((add_xref m from to r).count ≡ total (add_xref m from to r).to_map)
      × ((add_xref m from to r).count ≤ m.count + 1)
unfolding add_xref
add_xref-counted m from to r v p =
    let refs = refs_at to m.to_map in
    let one : References = (from, r) ∷ [] in
    ground (
      arith,
      v.sorted,
      v.counted,
      insert-IsSorted to (refs ++ one) m.to_map v.sorted,
      total-insert to (refs ++ one) m.to_map v.sorted,
      length-append refs one,
    )

remove_xref-counted :
    (m : XRefManager) (from to : ℕ) (r : RefType)
    → IsCounted m
    → m.count < u64_mod
    → (IsSorted (remove_xref m from to r).to_map)
      × ((remove_xref m from to r).count ≡ total (remove_xref m from to r).to_map)
      × ((remove_xref m from to r).count ≤ m.count)
unfolding remove_xref
remove_xref-counted m from to r v p = elim (Option-cases (get to m.to_map)) [
  | inl e ↦ ground (arith, v.sorted, v.counted)
  | inr (refs, e) ↦ elim (Option-cases (position from r refs)) [
    | inl none_left ↦ ground (arith, v.sorted, v.counted)
    | inr (i, found) ↦ ground (
      arith,
      v.sorted,
      v.counted,
      insert-IsSorted to (remove_at i refs) m.to_map v.sorted,
      total-insert to (remove_at i refs) m.to_map v.sorted,
      length-remove_at from r refs found,
    )
  ]
]

-- A change of the references.
pub data Change : Type 0 where
  added removed : (from to : ℕ) (r : RefType) → Change

abbrev pub apply_change : Change → XRefManager → XRefManager
apply_change (added from to r) m = add_xref m from to r
apply_change (removed from to r) m = remove_xref m from to r

abbrev pub apply_changes : List Change → XRefManager → XRefManager
apply_changes [] m = m
apply_changes (c ∷ cs) m = apply_changes cs (apply_change c m)

apply_change-IsCounted :
    (c : Change) (m : XRefManager)
    → IsCounted m
    → m.count + 1 < u64_mod
    → IsCounted (apply_change c m) × ((apply_change c m).count ≤ m.count + 1)
apply_change-IsCounted (added from to r) m v p =
    let (sorted, counted, most) = add_xref-counted m from to r v p in
    (
      record {
        mirrored = add_xref-IsMirror m from to r v.mirrored;
        sorted = sorted;
        counted = counted;
      },
      most,
    )
apply_change-IsCounted (removed from to r) m v p =
    let (sorted, counted, most) = remove_xref-counted m from to r v (omega arith) in
    (
      record {
        mirrored = remove_xref-IsMirror m from to r v.mirrored;
        sorted = sorted;
        counted = counted;
      },
      omega (arith, most),
    )

apply_changes-IsCounted' :
    (cs : List Change) (m : XRefManager)
    → IsCounted m
    → m.count + length cs < u64_mod
    → IsCounted (apply_changes cs m)
apply_changes-IsCounted' [] m v p = v
apply_changes-IsCounted' (c ∷ cs) m v p =
    let (v', most) = apply_change-IsCounted c m v (omega arith) in
    apply_changes-IsCounted' cs (apply_change c m) v' (omega (arith, most))

-- After any additions and removals on an empty manager, fewer than 2 ^ 64 of them, the two maps hold
-- the same edges, each once, and the count is the number of references held.
pub apply_changes-IsCounted :
    (cs : List Change) → length cs < u64_mod → IsCounted (apply_changes cs new_xrefs)
unfolding get
apply_changes-IsCounted cs p =
    apply_changes-IsCounted' cs new_xrefs
      (record {
        mirrored = record { once = λ f t r. omega arith; same = λ f t r. refl };
        sorted = tt;
        counted = refl;
      })
      (omega arith)
