-- ===== src/Core/XRefs/Mirror.antt =====
-- src/core/xrefs.rs: the edges that the two maps of the cross-references hold.
use vivisect_rs.Base.{
  ℕ, ◌-◌, ◌≤◌, Bool, true, ◌&&◌, [], ◌∷◌, ◌++◌, ◌==◌, if◌then◌else◌, any, unwrap_or, ◌≡◌, refl, sym,
  ◌∙◌, arith, inl, inr, Bool-cases, Option-cases,
}
use vivisect_rs.BTreeMap.{BTreeMap, get, insert}
use vivisect_rs.BTreeMap.Laws.{get-insert}
use vivisect_rs.Core.XRefs.{
  RefType, discriminant, References, XRefManager, is_ref, refs_at, add_xref, position, remove_at,
  remove_ref, remove_xref,
}
use vivisect_rs.Core.XRefs.Tally.{
  tally, tally-append, tally-any, tally-same, position-none, tally-remove_at,
}

-- The references of the two maps, as a number for each edge.
abbrev pub edges_to : XRefManager → ℕ → ℕ → RefType → ℕ
edges_to m from to r = tally from r (refs_at to m.to_map)

abbrev pub edges_from : XRefManager → ℕ → ℕ → RefType → ℕ
edges_from m from to r = tally to r (refs_at from m.from_map)

-- Both maps hold the same edges, each at most once.
pub record IsMirror (m : XRefManager) : Type 0 where
  pub once : (from to : ℕ) (r : RefType) → edges_to m from to r ≤ 1
  pub same : (from to : ℕ) (r : RefType) → edges_from m from to r ≡ edges_to m from to r

-- Whether two edges are one.
abbrev pub is_edge : ℕ → ℕ → RefType → ℕ → ℕ → RefType → Bool
is_edge from to r g u s = u == to && is_ref from r (g, s)

refs_at-insert :
    (k q : ℕ) (v : References) (m : BTreeMap References)
    → refs_at q (insert k v m) ≡ (if q == k then v else refs_at q m)
refs_at-insert k q v m = ground (arith, get-insert k q v m)

is_ref-sym : (a b : ℕ) (r s : RefType) → is_ref b s (a, r) ≡ is_ref a r (b, s)
unfolding is_ref
is_ref-sym a b r s = symmetric a (discriminant r) b (discriminant s)
  where
    symmetric : (a c b d : ℕ) → (a == b && c == d) ≡ (b == a && d == c)
    symmetric a c b d = ground arith

-- An edge in the map from its source is the same edge in the map to its destination.
is_ref-swap :
    (from to : ℕ) (r : RefType) (g u : ℕ) (s : RefType)
    → (g == from && is_ref to r (u, s)) ≡ is_edge from to r g u s
unfolding is_ref
is_ref-swap from to r g u s = swap g from u to (discriminant s) (discriminant r)
  where
    swap : (g f u t s r : ℕ) → (g == f && (u == t && s == r)) ≡ (u == t && (g == f && s == r))
    swap g f u t s r = ground arith

-- After `add_xref` the edge is there once, in both maps, and the other edges are as they were.
pub add_xref_edges :
    (m : XRefManager) (from to : ℕ) (r : RefType)
    → IsMirror m
    → (g u : ℕ) (s : RefType)
    → (edges_to (add_xref m from to r) g u s
        ≡ (if is_edge from to r g u s then 1 else edges_to m g u s))
      × (edges_from (add_xref m from to r) g u s
          ≡ (if is_edge from to r g u s then 1 else edges_to m g u s))
unfolding add_xref
add_xref_edges m from to r v g u s =
    let there = tally-any from r (refs_at to m.to_map) in
    let edge = v.once from to r in
    let same = v.same g u s in
    let alike = tally-same from g r s (refs_at to m.to_map) in
    elim (Bool-cases (any (is_ref from r) (refs_at to m.to_map))) [
      | inl old ↦ (ground (arith, there, edge, alike), ground (arith, there, edge, alike, same))
      | inr new ↦ (
        ground (
          arith,
          there,
          alike,
          refs_at-insert to u (refs_at to m.to_map ++ ((from, r) ∷ [])) m.to_map,
          tally-append g s (refs_at to m.to_map) (from, r),
          is_ref-sym from g r s,
        ),
        ground (
          arith,
          there,
          alike,
          same,
          refs_at-insert from g (refs_at from m.from_map ++ ((to, r) ∷ [])) m.from_map,
          tally-append u s (refs_at from m.from_map) (to, r),
          is_ref-sym to u r s,
          is_ref-swap from to r g u s,
        ),
      )
    ]

tally-remove_ref :
    (key a q b : ℕ) (r s : RefType) (m : BTreeMap References)
    → tally b s (refs_at q (unwrap_or (remove_ref key a r m) m)) ≡ (
        if q == key && is_ref a r (b, s)
        then tally b s (refs_at q m) - 1
        else tally b s (refs_at q m))
tally-remove_ref key a q b r s m = elim (Option-cases (get key m)) [
  | inl e ↦ ground arith
  | inr (refs, e) ↦
      let alike = tally-same a b r s refs in
      elim (Option-cases (position a r refs)) [
        | inl none_left ↦ ground (arith, alike, position-none a r refs none_left)
        | inr (i, found) ↦ ground (
          arith,
          refs_at-insert key q (remove_at i refs) m,
          (tally-remove_at a b r s refs found).1,
        )
      ]
]

-- After `remove_xref` the edge is in neither map, and the other edges are as they were.
pub remove_xref_edges :
    (m : XRefManager) (from to : ℕ) (r : RefType)
    → IsMirror m
    → (g u : ℕ) (s : RefType)
    → (edges_to (remove_xref m from to r) g u s
        ≡ (if is_edge from to r g u s then 0 else edges_to m g u s))
      × (edges_from (remove_xref m from to r) g u s
          ≡ (if is_edge from to r g u s then 0 else edges_to m g u s))
unfolding remove_xref
remove_xref_edges m from to r v g u s =
    let once = v.once g u s in
    let same = v.same g u s in
    (
      ground (arith, once, tally-remove_ref to from u g r s m.to_map),
      ground (
        arith,
        once,
        same,
        tally-remove_ref from to g u r s m.from_map,
        is_ref-swap from to r g u s,
      ),
    )

-- Both changes keep the two maps in agreement.
pub add_xref-IsMirror :
    (m : XRefManager) (from to : ℕ) (r : RefType) → IsMirror m → IsMirror (add_xref m from to r)
add_xref-IsMirror m from to r v = record {
  once = λ g u s. ground (arith, (add_xref_edges m from to r v g u s).0, v.once g u s);
  same =
      λ g u s. (add_xref_edges m from to r v g u s).1 ∙ sym (add_xref_edges m from to r v g u s).0;
}

pub remove_xref-IsMirror :
    (m : XRefManager) (from to : ℕ) (r : RefType) → IsMirror m → IsMirror (remove_xref m from to r)
remove_xref-IsMirror m from to r v = record {
  once = λ g u s. ground (arith, (remove_xref_edges m from to r v g u s).0, v.once g u s);
  same = λ g u s.
      (remove_xref_edges m from to r v g u s).1 ∙ sym (remove_xref_edges m from to r v g u s).0;
}

-- Adding a reference a second time changes nothing.
pub add_xref-add_xref :
    (m : XRefManager) (from to : ℕ) (r : RefType)
    → add_xref (add_xref m from to r) from to r ≡ add_xref m from to r
unfolding add_xref
add_xref-add_xref m from to r = elim (Bool-cases (any (is_ref from r) (refs_at to m.to_map))) [
  | inl old ↦ ground arith
  | inr new ↦
      let refs = refs_at to m.to_map ++ ((from, r) ∷ []) in
      let stored = refs_at-insert to to refs m.to_map in
      let there = tally-any from r refs in
      let counted = tally-append from r (refs_at to m.to_map) (from, r) in
      let itself = is_ref_refl from r in
      let e : any (is_ref from r) (refs_at to (insert to refs m.to_map)) ≡ true =
        ground (arith, stored, there, counted, itself) in
      rw (new, e) refl
]
  where
    is_ref_refl : (a : ℕ) (r : RefType) → is_ref a r (a, r) ≡ true
    is_ref_refl a r = unfold is_ref in ground arith
