-- ===== src/Core/Workspace/Listeners.antt =====
-- src/core/workspace.rs: the ids of the event listeners.
use mathlib.Core.Path.{subst}
use vivisect_rs.Base.{
  ℕ, ◌+◌, ◌%◌, ◌^◌, ◌≤◌, ◌<◌, ◌≡◌, sym, ap, false, not, List, [], ◌∷◌, ◌++◌, ◌==◌, if◌then◌else◌,
  All, All-append, keep, length, arith,
}
use vivisect_rs.HashMap.{find_name}
use vivisect_rs.Memory.Object.{write_memory}
use vivisect_rs.Memory.Image.{map_verbatim}
use vivisect_rs.IndexMap.{IndexMaps}
use vivisect_rs.Core.Workspace.{
  VivWorkspace, new_workspace, is_function, add_function, drain_pending_functions,
  set_function_name, add_location, add_codeblock, set_name, add_reference, set_comment, set_meta,
  add_noreturn_va,
}
use vivisect_rs.Core.Workspace.Loading.Blind.{load_macho_lem}
use vivisect_rs.Core.Workspace.Changes.{
  Change, change, run_changes, or_same_lem, if_lem, option_lem, err_lem, to_add_function,
  to_write_memory, to_add_memory_region, to_add_entry_point, to_add_va_set, to_add_listener,
  to_remove_listener, to_load_macho,
}
use vivisect_rs.Core.Workspace.Setters.{
  has_va, write_image, set_file_meta, set_architecture, set_endian, add_memory_region, add_segment,
  add_file, add_entry_point, add_va_set, set_va_set_row, del_va_set, add_event_listener,
  remove_event_listener,
}

next_lem : (n j : ℕ) → n ≤ j → j + 1 < 2 ^ 32 → (n + 1) % 2 ^ 32 ≡ n + 1
next_lem n j p q = omega arith

later : (j n : ℕ) → n ≤ j → n ≤ j + 1
later j n h = omega arith

apart_lem : (a b : ℕ) → a < b → (a == b) ≡ false
apart_lem a b h = ground arith

module _ {L : Type 0} where
  -- Every listener's id is below `n`.
  abbrev AreBelow : ℕ → List (ℕ × L) → Type 0
  AreBelow n ls = All (λ l. l.0 < n) ls

  AreBelow-suc : (n : ℕ) (ls : List (ℕ × L)) → AreBelow n ls → AreBelow (n + 1) ls
  AreBelow-suc n [] h = tt
  AreBelow-suc n (l ∷ ls) h = (omega (arith, h.0), AreBelow-suc n ls h.1)

  keep-AreBelow :
      (n id : ℕ) (ls : List (ℕ × L)) → AreBelow n ls → AreBelow n (keep (λ l. not (l.0 == id)) ls)
  keep-AreBelow n id [] h = tt
  keep-AreBelow n id (l ∷ ls) h = ground (arith, keep-AreBelow n id ls)

  -- No listener below an id has it, so none is removed with it.
  keep_all :
      (n : ℕ) (callback : L) (ls : List (ℕ × L))
      → AreBelow n ls
      → keep (λ l. not (l.0 == n)) (ls ++ ((n, callback) ∷ [])) ≡ ls
  keep_all n callback [] h = ground arith
  keep_all n callback (l ∷ ls) h =
      let apart : (l.0 == n) ≡ false = apart_lem l.0 n h.0 in
      subst
        (λ b.
          (if not b
            then l ∷ keep (λ x. not (x.0 == n)) (ls ++ ((n, callback) ∷ []))
            else keep (λ x. not (x.0 == n)) (ls ++ ((n, callback) ∷ [])))
          ≡ l ∷ ls)
        (sym apart) (ap (λ xs. l ∷ xs) (keep_all n callback ls h.1))

module _ {I : IndexMaps} {L : Type 0} where
  -- At most `j` ids are given away, and the listeners have ids that are.
  abbrev AreGiven : ℕ → VivWorkspace I L → Type 0
  AreGiven j ws = (ws.next_listener_id ≤ j) × AreBelow ws.next_listener_id ws.event_listeners

  add_event_listener-AreGiven :
      (j : ℕ) (ws : VivWorkspace I L) (callback : L)
      → j + 1 < 2 ^ 32
      → AreGiven j ws
      → AreGiven (j + 1) (add_event_listener ws callback).0
  unfolding add_event_listener
  add_event_listener-AreGiven j ws callback few h =
      let n = ws.next_listener_id in
      let e = next_lem n j h.0 few in
      (
        omega (arith, e, h.0),
        subst (λ m. AreBelow m (ws.event_listeners ++ ((n, callback) ∷ []))) (sym e)
            (All-append _ ws.event_listeners ((n, callback) ∷ [])
              (AreBelow-suc n ws.event_listeners h.1) (omega arith, tt)),
      )

  change-AreGiven :
      (j : ℕ) (ws : VivWorkspace I L) (c : Change L)
      → j + 1 < 2 ^ 32
      → AreGiven j ws
      → AreGiven (j + 1) (change ws c)
  unfolding add_function drain_pending_functions set_function_name add_location add_codeblock
      set_name add_reference set_comment set_meta add_noreturn_va write_image set_file_meta
      set_architecture set_endian add_memory_region add_segment add_file add_entry_point add_va_set
      set_va_set_row del_va_set remove_event_listener
  change-AreGiven j ws (to_add_function va m) few h =
      let h' : AreGiven (j + 1) ws = (later j ws.next_listener_id h.0, h.1) in
      err_lem (AreGiven (j + 1)) ws (is_function ws va) _ _ h' h'
  change-AreGiven j ws (to_write_memory va chunk) few h =
      let h' : AreGiven (j + 1) ws = (later j ws.next_listener_id h.0, h.1) in
      or_same_lem (AreGiven (j + 1)) ws (write_memory ws.image.mem va chunk) _ h' (λ mem. h')
  change-AreGiven j ws (to_add_memory_region base bytes perms name) few h =
      let h' : AreGiven (j + 1) ws = (later j ws.next_listener_id h.0, h.1) in
      or_same_lem (AreGiven (j + 1)) ws (map_verbatim ws.image base bytes perms name) _ h'
        (λ image. h')
  change-AreGiven j ws (to_add_entry_point va) few h =
      let h' : AreGiven (j + 1) ws = (later j ws.next_listener_id h.0, h.1) in
      if_lem (AreGiven (j + 1)) (has_va va ws.entry_points) ws _ h' h'
  change-AreGiven j ws (to_add_va_set name columns) few h =
      let h' : AreGiven (j + 1) ws = (later j ws.next_listener_id h.0, h.1) in
      option_lem (AreGiven (j + 1)) (find_name name ws.va_sets) (λ set. ws) _ (λ set. h') h'
  change-AreGiven j ws (to_add_listener callback) few h =
      add_event_listener-AreGiven j ws callback few h
  change-AreGiven j ws (to_remove_listener id) few h =
      (later j ws.next_listener_id h.0, keep-AreBelow ws.next_listener_id id ws.event_listeners h.1)
  change-AreGiven j ws (to_load_macho macho filename md5) few h =
      load_macho_lem (AreGiven (j + 1)) ws macho filename md5
        (λ w image arch segments names meta entries files p. p)
        (later j ws.next_listener_id h.0, h.1)
  change-AreGiven j ws c few h = (later j ws.next_listener_id h.0, h.1)

  run_changes-AreGiven :
      (j : ℕ) (ws : VivWorkspace I L) (cs : List (Change L))
      → j + length cs < 2 ^ 32
      → AreGiven j ws
      → AreBelow (run_changes ws cs).next_listener_id (run_changes ws cs).event_listeners
  run_changes-AreGiven j ws [] few h = h.1
  run_changes-AreGiven j ws (c ∷ cs) few h =
      run_changes-AreGiven (j + 1) (change ws c) cs (omega (arith, few))
        (change-AreGiven j ws c (omega (arith, few)) h)

module _ (I : IndexMaps) {L : Type 0} where
  -- After fewer than `2 ^ 32` calls of `Change` on a new workspace, removing the listener that was just added, by the id
  -- that it got, gives the listeners that there were: no other listener has the id.
  pub remove_event_listener-add_event_listener :
      (cs : List (Change L)) (callback : L)
      → length cs < 2 ^ 32
      → (remove_event_listener
          (add_event_listener (run_changes (new_workspace I) cs) callback).0
          (add_event_listener (run_changes (new_workspace I) cs) callback).1).event_listeners
        ≡ (run_changes (new_workspace I) cs).event_listeners
  unfolding remove_event_listener add_event_listener
  remove_event_listener-add_event_listener cs callback few =
      let ws = run_changes (new_workspace I) cs in
      keep_all ws.next_listener_id callback ws.event_listeners
        (run_changes-AreGiven 0 (new_workspace I) cs (omega (arith, few)) (omega arith, tt))
