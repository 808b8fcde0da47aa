-- ===== src/Core/Workspace/Pending.antt =====
-- src/core/workspace.rs: the list of functions that wait for their analysis.
use mathlib.Core.Path.{subst}
use vivisect_rs.Base.{
  append_assoc, append-nil, ℕ, ◌≡◌, refl, sym, ap, ap₂, ◌∙◌, Option, String, none, some, List, [],
  ◌∷◌, ◌++◌, Option-cases, inl, inr,
}
use vivisect_rs.HashMap.{find_name}
use vivisect_rs.IndexMap.{IndexMaps, keys, keys_of}
use vivisect_rs.Memory.Object.{write_memory}
use vivisect_rs.Memory.Image.{map_verbatim}
use vivisect_rs.Core.Workspace.{
  VivWorkspace, new_workspace, get_functions, add_function, drain_pending_functions,
  set_function_name, add_location, add_codeblock, set_name, add_reference, set_comment, set_meta,
  add_noreturn_va,
}
use vivisect_rs.Core.Workspace.Loading.Blind.{load_macho_lem}
use vivisect_rs.Core.Workspace.Changes.{
  Change, to_add_function, to_drain, to_set_function_name, to_write_memory, to_add_memory_region,
  change, handed_out, run_changes, all_handed_out, or_same, or_same_lem, if_lem, option_lem,
  to_add_location, to_add_codeblock, to_set_name, to_add_xref, to_set_comment, to_set_meta,
  to_add_noreturn_va, to_set_file_meta, to_set_architecture, to_set_endian, to_add_segment,
  to_add_file, to_add_entry_point, to_add_va_set, to_set_va_set_row, to_del_va_set, to_add_listener,
  to_remove_listener, to_load_macho, or_same_lem, if_lem, option_lem,
}
use vivisect_rs.Core.Records.{FunctionMeta}
use vivisect_rs.Core.Workspace.Setters.{
  has_va, write_image, set_file_meta, set_architecture, set_endian, add_memory_region, add_segment,
  add_file, add_entry_point, add_va_set, set_va_set_row, del_va_set, add_event_listener,
  remove_event_listener,
}
use vivisect_rs.Core.Workspace.Distinct.{IsDistinct, IsDistinct-snoc, keys-put_new, find-has_va}

-- Every call but two leaves them.
abbrev IsAside : {L : Type 0} → Change L → Type 0
IsAside (to_add_function va m) = ⊥
IsAside to_drain = ⊥
IsAside c = Unit

module _ {I : IndexMaps} {L : Type 0} where
  -- The functions, in the order of their creation, are those handed out and then those pending.
  abbrev IsTracked : List ℕ → VivWorkspace I L → Type 0
  IsTracked drained ws = get_functions ws ≡ drained ++ ws.pending_functions

  add_function-IsTracked :
      (drained : List ℕ) (ws : VivWorkspace I L) (va : ℕ) (m : FunctionMeta)
      → IsTracked drained ws
      → IsTracked drained (or_same ws (add_function ws va m))
  unfolding add_function
  add_function-IsTracked drained ws va m h = elim (Option-cases (I.find va ws.functions)) [
    | inr (old, there) ↦ rw there h
    | inl fresh ↦ rw fresh (
        keys-put_new I va m ws.functions fresh
        ∙ ap (λ l. l ++ (va ∷ [])) h
        ∙ append_assoc drained ws.pending_functions (va ∷ []))
  ]

  add_function-IsDistinct :
      (ws : VivWorkspace I L) (va : ℕ) (m : FunctionMeta)
      → IsDistinct (get_functions ws)
      → IsDistinct (get_functions (or_same ws (add_function ws va m)))
  unfolding add_function
  add_function-IsDistinct ws va m h = elim (Option-cases (I.find va ws.functions)) [
    | inr (old, there) ↦ rw there h
    | inl fresh ↦ rw fresh (
        subst IsDistinct (sym (keys-put_new I va m ws.functions fresh))
          (IsDistinct-snoc va (get_functions ws) (find-has_va I va ws.functions fresh) h))
  ]

  pub set_function_name-keys :
      (ws : VivWorkspace I L) (va : ℕ) (name : String)
      → get_functions (set_function_name ws va name) ≡ get_functions ws
  unfolding set_function_name
  set_function_name-keys ws va name = elim (Option-cases (I.find va ws.functions)) [
    | inl e ↦ ap (λ m. keys I m) (named_none e)
    | inr (m, e) ↦
        ap (λ m. keys I m) (named_some m e)
        ∙ I.keys_of-put_old va (record m { name = some name }) m ws.functions e
  ]
    where
      named : Option FunctionMeta → I.Map FunctionMeta
      named o = elim o [
        | none ↦ ws.functions
        | some m ↦ I.put va (record m { name = some name }) ws.functions
      ]

      named_none : I.find va ws.functions ≡ none → named (I.find va ws.functions) ≡ ws.functions
      named_none e = ap named e

      named_some :
          (m : FunctionMeta)
          → I.find va ws.functions ≡ some m
          → named (I.find va ws.functions) ≡ I.put va (record m { name = some name }) ws.functions
      named_some m e = ap named e

  set_function_name-pending :
      (ws : VivWorkspace I L) (va : ℕ) (name : String)
      → (set_function_name ws va name).pending_functions ≡ ws.pending_functions
  unfolding set_function_name
  set_function_name-pending ws va name = refl

  -- The same functions, and the same ones pending.
  abbrev IsSame : VivWorkspace I L → VivWorkspace I L → Type 0
  IsSame ws ws' =
      (get_functions ws' ≡ get_functions ws) × (ws'.pending_functions ≡ ws.pending_functions)

  IsSame-IsTracked :
      (drained : List ℕ) (ws ws' : VivWorkspace I L)
      → IsTracked drained ws
      → IsSame ws ws'
      → IsTracked (drained ++ []) ws'
  IsSame-IsTracked drained ws ws' h same =
      same.0 ∙ h ∙ ap₂ (λ xs ys. xs ++ ys) (sym (append-nil drained)) (sym same.1)

  change-IsSame : (ws : VivWorkspace I L) (c : Change L) → IsAside c → IsSame ws (change ws c)
  unfolding add_location add_codeblock set_name add_reference set_comment set_meta add_noreturn_va
      write_image set_file_meta set_architecture set_endian add_memory_region add_segment add_file
      add_entry_point add_va_set set_va_set_row del_va_set add_event_listener remove_event_listener
  change-IsSame ws (to_add_function va m) aside = elim aside [ ]
  change-IsSame ws to_drain aside = elim aside [ ]
  change-IsSame ws (to_set_function_name va name) aside =
      (set_function_name-keys ws va name, set_function_name-pending ws va name)
  change-IsSame ws (to_write_memory va chunk) aside =
      or_same_lem (IsSame ws) ws (write_memory ws.image.mem va chunk) _ (refl, refl)
        (λ image. (refl, refl))
  change-IsSame ws (to_add_memory_region base bytes perms name) aside =
      or_same_lem (IsSame ws) ws (map_verbatim ws.image base bytes perms name) _ (refl, refl)
        (λ image. (refl, refl))
  change-IsSame ws (to_add_entry_point va) aside =
      if_lem (IsSame ws) (has_va va ws.entry_points) ws _ (refl, refl) (refl, refl)
  change-IsSame ws (to_add_va_set name columns) aside =
      option_lem (IsSame ws) (find_name name ws.va_sets) (λ set. ws) _ (λ set. (refl, refl))
        (refl, refl)
  change-IsSame ws (to_add_location va size ltype tinfo) aside = (refl, refl)
  change-IsSame ws (to_add_codeblock va size func_va) aside = (refl, refl)
  change-IsSame ws (to_set_name va name) aside = (refl, refl)
  change-IsSame ws (to_add_xref from to r) aside = (refl, refl)
  change-IsSame ws (to_set_comment va comment) aside = (refl, refl)
  change-IsSame ws (to_set_meta key value) aside = (refl, refl)
  change-IsSame ws (to_add_noreturn_va va) aside = (refl, refl)
  change-IsSame ws (to_set_file_meta filename key value) aside = (refl, refl)
  change-IsSame ws (to_set_architecture arch) aside = (refl, refl)
  change-IsSame ws (to_set_endian endian) aside = (refl, refl)
  change-IsSame ws (to_add_segment seg) aside = (refl, refl)
  change-IsSame ws (to_add_file file) aside = (refl, refl)
  change-IsSame ws (to_set_va_set_row name va row) aside = (refl, refl)
  change-IsSame ws (to_del_va_set name) aside = (refl, refl)
  change-IsSame ws (to_add_listener callback) aside = (refl, refl)
  change-IsSame ws (to_remove_listener id) aside = (refl, refl)
  change-IsSame ws (to_load_macho macho filename md5) aside =
      load_macho_lem (IsSame ws) ws macho filename md5
        (λ w image arch segments names meta entries files h. h) (refl, refl)

  change-IsTracked :
      (drained : List ℕ) (ws : VivWorkspace I L) (c : Change L)
      → IsTracked drained ws
      → IsTracked (drained ++ handed_out ws c) (change ws c)
  unfolding drain_pending_functions
  change-IsTracked drained ws (to_add_function va m) h =
      rw (append-nil drained) (add_function-IsTracked drained ws va m h)
  change-IsTracked drained ws to_drain h = h ∙ sym (append-nil (drained ++ ws.pending_functions))
  change-IsTracked drained ws c h =
      IsSame-IsTracked drained ws (change ws c) h (change-IsSame ws c tt)

  run_changes-IsTracked :
      (drained : List ℕ) (ws : VivWorkspace I L) (cs : List (Change L))
      → IsTracked drained ws
      → IsTracked (drained ++ all_handed_out ws cs) (run_changes ws cs)
  run_changes-IsTracked drained ws [] h = rw (append-nil drained) h
  run_changes-IsTracked drained ws (c ∷ cs) h =
      subst (λ xs. IsTracked xs (run_changes (change ws c) cs))
        (append_assoc drained (handed_out ws c) (all_handed_out (change ws c) cs))
        (run_changes-IsTracked (drained ++ handed_out ws c) (change ws c) cs
          (change-IsTracked drained ws c h))

  change-IsDistinct :
      (ws : VivWorkspace I L) (c : Change L)
      → IsDistinct (get_functions ws)
      → IsDistinct (get_functions (change ws c))
  unfolding drain_pending_functions
  change-IsDistinct ws (to_add_function va m) h = add_function-IsDistinct ws va m h
  change-IsDistinct ws to_drain h = h
  change-IsDistinct ws c h = subst IsDistinct (sym (change-IsSame ws c tt).0) h

  run_changes-IsDistinct :
      (ws : VivWorkspace I L) (cs : List (Change L))
      → IsDistinct (get_functions ws)
      → IsDistinct (get_functions (run_changes ws cs))
  run_changes-IsDistinct ws [] h = h
  run_changes-IsDistinct ws (c ∷ cs) h =
      run_changes-IsDistinct (change ws c) cs (change-IsDistinct ws c h)

module _ (I : IndexMaps) {L : Type 0} where
  -- After any calls of `Change` on a new workspace, its functions in the order of their creation are those that
  -- `drain_pending_functions` has handed out so far, in order, and then those that still wait, and no
  -- address is among them twice.
  pub run_changes_handed_out :
      (cs : List (Change L))
      → (get_functions (run_changes (new_workspace I) cs)
          ≡ all_handed_out (new_workspace I) cs
            ++ (run_changes (new_workspace I) cs).pending_functions)
        × IsDistinct (
            all_handed_out (new_workspace I) cs
            ++ (run_changes (new_workspace I) cs).pending_functions)
  run_changes_handed_out cs =
      let start : keys I (I.empty {V = FunctionMeta}) ≡ [] = ap keys_of I.entries-empty in
      let e = run_changes-IsTracked [] (new_workspace I) cs start in
      (
        e,
        subst IsDistinct e
            (run_changes-IsDistinct (new_workspace I) cs (subst IsDistinct (sym start) tt)),
      )
