-- ===== src/Core/Workspace/Located.antt =====
-- src/core/workspace.rs: the location of an address, after any calls.
use mathlib.Core.Path.{subst}
use vivisect_rs.Base.{
  ℕ, ◌≡◌, refl, sym, Bool, true, false, Option, none, some, List, [], ◌∷◌, ◌==◌, if◌then◌else◌,
  keep, arith, ap, ◌∙◌, ==_iff, unwrap_or, inl,
}
use vivisect_rs.BTreeMap.{get}
use vivisect_rs.IndexMap.{IndexMaps, values_of}
use vivisect_rs.Core.Locations.{Location}
use vivisect_rs.HashMap.{find_name}
use vivisect_rs.Memory.Object.{write_memory}
use vivisect_rs.Memory.Image.{map_verbatim}
use vivisect_rs.Core.Workspace.{
  VivWorkspace, new_workspace, is_function, add_function, drain_pending_functions,
  set_function_name, add_location, add_codeblock, set_name, add_reference, set_comment, set_meta,
  add_noreturn_va,
}
use vivisect_rs.Core.Workspace.Loading.Blind.{load_macho_lem}
use vivisect_rs.Core.Workspace.Changes.{
  Change, change, run_changes, or_same_lem, if_lem, option_lem, err_lem, to_add_function,
  to_add_location, to_write_memory, to_add_memory_region, to_add_entry_point, to_add_va_set,
  to_load_macho,
}
use vivisect_rs.Core.Workspace.Setters.{
  has_va, write_image, set_file_meta, set_architecture, set_endian, add_memory_region, add_segment,
  add_file, add_entry_point, add_va_set, set_va_set_row, del_va_set, add_event_listener,
  remove_event_listener,
}
use vivisect_rs.Core.Workspace.Lookup.{
  IsScan, get_location_containing, max_by_va, extends_over, max_by_va-IsScan, get-Member,
  ends_below,
}

stored_lem :
    (same : Bool) (l x : Location) (o : Option Location) {k : ℕ}
    → (if same then some l else o) ≡ some x
    → (same ≡ true → l.va ≡ k)
    → (o ≡ some x → x.va ≡ k)
    → x.va ≡ k
stored_lem true l x o {k = k} h new old =
    subst (λ (y : Location). y.va ≡ k) (ap (λ p. unwrap_or p l) h) (new refl)
stored_lem false l x o h new old = old h

module _ (I : IndexMaps) where
  -- Every location is stored under its start.
  abbrev pub AreKeyed : I.Map Location → Type 0
  AreKeyed m = (k : ℕ) (l : Location) → I.find k m ≡ some l → l.va ≡ k

  empty-AreKeyed : AreKeyed I.empty
  unfolding get
  empty-AreKeyed k l found =
      none_lem
        (ap (λ m. get k m) (sym (I.entries-empty {V = Location})) ∙ I.get-entries k I.empty ∙ found)
    where
      none_lem : {l k : ℕ} {x : Location} → none ≡ some x → l ≡ k
      none_lem e = cc

  put-AreKeyed :
      (va : ℕ) (l : Location) (m : I.Map Location)
      → l.va ≡ va
      → AreKeyed m
      → AreKeyed (I.put va l m)
  put-AreKeyed va l m e keyed k x found =
      stored_lem (k == va) l x (I.find k m) (sym (I.find-put va k l m) ∙ found)
        (λ same. e ∙ sym ((==_iff k va).0 same)) (keyed k x)

module _ {I : IndexMaps} {L : Type 0} where
  -- If every location is stored under its start, a location that `get_location_containing` gives starts at
  -- the address or extends over it, and no location that extends over it starts later; if it gives none,
  -- no location extends over the address.
  pub get_location_containing-IsScan :
      (ws : VivWorkspace I L) (va : ℕ)
      → AreKeyed I ws.locations
      → IsScan va (values_of I ws.locations) (get_location_containing ws va)
  unfolding get_location_containing
  get_location_containing-IsScan ws va keyed = by_start (I.find va ws.locations) refl
    where
      by_start :
          (o : Option Location)
          → I.find va ws.locations ≡ o
          → IsScan va (values_of I ws.locations) (elim o as (λ x. Option Location) [
            | some l ↦ some l
            | none ↦ max_by_va (keep (extends_over va) (values_of I ws.locations))
          ])
      by_start none e = max_by_va-IsScan va (values_of I ws.locations)
      by_start (some l) e =
          let start = keyed va l e in
          let there =
            get-Member va (I.entries ws.locations) {l = l} (I.get-entries va ws.locations ∙ e) in
          (there, inl start, ends_below va l.va (values_of I ws.locations) (omega (arith, start)))

  change-AreKeyed :
      (ws : VivWorkspace I L) (c : Change L)
      → AreKeyed I ws.locations
      → AreKeyed I (change ws c).locations
  unfolding add_function drain_pending_functions set_function_name add_location add_codeblock
      set_name add_reference set_comment set_meta add_noreturn_va write_image set_file_meta
      set_architecture set_endian add_memory_region add_segment add_file add_entry_point add_va_set
      set_va_set_row del_va_set add_event_listener remove_event_listener
  change-AreKeyed ws (to_add_function va m) h =
      err_lem (λ ws'. AreKeyed I ws'.locations) ws (is_function ws va) _ _ h h
  change-AreKeyed ws (to_add_location va size ltype tinfo) h =
      put-AreKeyed I va _ ws.locations refl h
  change-AreKeyed ws (to_write_memory va chunk) h =
      or_same_lem (λ ws'. AreKeyed I ws'.locations) ws (write_memory ws.image.mem va chunk) _ h
        (λ mem. h)
  change-AreKeyed ws (to_add_memory_region base bytes perms name) h =
      or_same_lem (λ ws'. AreKeyed I ws'.locations) ws (map_verbatim ws.image base bytes perms name)
        _ h (λ image. h)
  change-AreKeyed ws (to_add_entry_point va) h =
      if_lem (λ ws'. AreKeyed I ws'.locations) (has_va va ws.entry_points) ws _ h h
  change-AreKeyed ws (to_add_va_set name columns) h =
      option_lem (λ ws'. AreKeyed I ws'.locations) (find_name name ws.va_sets) (λ set. ws) _
        (λ set. h) h
  change-AreKeyed ws (to_load_macho macho filename md5) h =
      load_macho_lem (λ ws'. AreKeyed I ws'.locations) ws macho filename md5
        (λ w image arch segments names meta entries files p. p) h
  change-AreKeyed ws c h = h

  run_changes-AreKeyed :
      (ws : VivWorkspace I L) (cs : List (Change L))
      → AreKeyed I ws.locations
      → AreKeyed I (run_changes ws cs).locations
  run_changes-AreKeyed ws [] h = h
  run_changes-AreKeyed ws (c ∷ cs) h =
      run_changes-AreKeyed (change ws c) cs (change-AreKeyed ws c h)

module _ (I : IndexMaps) {L : Type 0} where
  -- After any calls of `Change` on a new workspace, a location that `get_location_containing` gives is one of the
  -- workspace that starts at the address or extends over it, and no location that extends over it starts
  -- later; if it gives none, no location of the workspace extends over the address.
  pub run_changes_located :
      (cs : List (Change L)) (va : ℕ)
      → IsScan va
          (values_of I (run_changes (new_workspace I) cs).locations)
          (get_location_containing (run_changes (new_workspace I) cs) va)
  run_changes_located cs va =
      get_location_containing-IsScan (run_changes (new_workspace I) cs) va
        (run_changes-AreKeyed (new_workspace I) cs (empty-AreKeyed I))
