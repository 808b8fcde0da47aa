-- ===== src/Core/XRefs/Tests.antt =====
-- Changes of cross-references for src/core/xrefs.rs.
use vivisect_rs.Base.{◌≡◌, refl, List, [], ◌∷◌, arith}
use vivisect_rs.BTreeMap.{get, insert}
use vivisect_rs.Core.XRefs.{
  code, data_ref, pointer, XRefManager, new_xrefs, add_xref, remove_xref, get_xrefs_to,
}
use vivisect_rs.Core.XRefs.Mirror.{IsMirror}
use vivisect_rs.Core.XRefs.Counted.{
  IsCounted, Change, added, removed, apply_changes, apply_changes-IsCounted,
}

abbrev changes : List Change
changes =
    added 4096 8192 code
    ∷ added 4096 8192 data_ref
    ∷ added 4096 8192 code
    ∷ removed 4096 8192 code
    ∷ []

abbrev one_edge : XRefManager
one_edge = apply_changes changes new_xrefs

apply_changes-IsCounted_example : IsCounted (apply_changes changes new_xrefs)
apply_changes-IsCounted_example = apply_changes-IsCounted changes (omega arith)

one_edge-IsMirror : IsMirror one_edge
one_edge-IsMirror = (apply_changes-IsCounted changes (omega arith)).mirrored

-- The duplicate is dropped, and the removed reference is gone.
one_edge_left : get_xrefs_to one_edge 8192 ≡ (4096, data_ref) ∷ []
unfolding add_xref remove_xref get insert vivisect_rs.Core.XRefs.is_ref
one_edge_left = refl
