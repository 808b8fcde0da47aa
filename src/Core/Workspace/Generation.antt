-- ===== src/Core/Workspace/Generation.antt =====
-- src/core/workspace.rs: the generation counter, by which a client sees that what it has kept is stale.
-- The load of a Mach-O file, which is one of the calls, changes the segments, the files, the entry
-- points, the architecture and the byte order without counting, so these are left out.
use vivisect_rs.Base.{
  ℕ, ◌+◌, ◌%◌, ◌≤◌, ◌<◌, ◌≡◌, refl, sym, ap, ◌∙◌, ◌⊎◌, inl, inr, List, [], ◌∷◌, length, arith,
  String,
}
use vivisect_rs.Word.{u64_mod, IsU64}
use vivisect_rs.HashMap.{find_name}
use vivisect_rs.Memory.Object.{write_memory}
use vivisect_rs.Memory.Image.{map_verbatim}
use vivisect_rs.IndexMap.{IndexMaps}
use vivisect_rs.Core.Workspace.{
  VivWorkspace, bump, get_functions, is_function, add_function, drain_pending_functions,
  add_location, add_codeblock, set_name, add_reference, set_comment, set_meta, add_noreturn_va,
  set_function_name,
}
use vivisect_rs.Core.Workspace.Loading.Blind.{load_macho_lem}
use vivisect_rs.Core.Workspace.Changes.{
  Change, to_add_function, to_drain, to_set_function_name, to_write_memory, to_add_memory_region,
  change, run_changes, or_same_lem, err_lem, if_lem, option_lem, to_add_location, to_add_codeblock,
  to_set_name, to_add_xref, to_set_comment, to_set_meta, to_add_noreturn_va, to_set_file_meta,
  to_set_architecture, to_set_endian, to_add_segment, to_add_file, to_add_entry_point,
  to_add_va_set, to_set_va_set_row, to_del_va_set, to_add_listener, to_remove_listener,
  to_load_macho,
}
use vivisect_rs.Core.Workspace.Pending.{set_function_name-keys}
use vivisect_rs.Core.Workspace.Setters.{
  has_va, write_image, set_file_meta, set_architecture, set_endian, add_memory_region, add_segment,
  add_file, add_entry_point, add_va_set, set_va_set_row, del_va_set, add_event_listener,
  remove_event_listener,
}

bump_lem : (g : ℕ) → bump g < u64_mod
bump_lem g = omega arith

mod_lem : (g b : ℕ) → (((g + 1) % u64_mod) + b) % u64_mod ≡ (g + (b + 1)) % u64_mod
mod_lem g b = omega arith

none_lem : (g b n : ℕ) → g < u64_mod → n < u64_mod → b ≤ n → g ≡ (g + b) % u64_mod → b ≡ 0
none_lem g b n hg hn hb e = omega arith

module _ {I : IndexMaps} {L : Type 0} where
  -- The same function addresses, locations and code blocks.
  abbrev pub SameAnalysis : VivWorkspace I L → VivWorkspace I L → Type 0
  SameAnalysis ws ws' =
      (get_functions ws' ≡ get_functions ws)
      × (ws'.locations ≡ ws.locations)
      × (ws'.codeblocks ≡ ws.codeblocks)

  SameAnalysis-refl : (ws : VivWorkspace I L) → SameAnalysis ws ws
  SameAnalysis-refl ws = (refl, refl, refl)

  SameAnalysis-trans :
      (a b c : VivWorkspace I L) → SameAnalysis a b → SameAnalysis b c → SameAnalysis a c
  SameAnalysis-trans a b c p q = (q.0 ∙ p.0, q.1 ∙ p.1, q.2 ∙ p.2)

  -- A call counts the generation on, or leaves both the generation and these.
  abbrev IsCountedOn : VivWorkspace I L → VivWorkspace I L → Type 0
  IsCountedOn ws ws' =
      ((ws'.generation ≡ ws.generation) × SameAnalysis ws ws')
      ⊎ (ws'.generation ≡ bump ws.generation)

  set_function_name-IsCountedOn :
      (ws : VivWorkspace I L) (va : ℕ) (name : String)
      → IsCountedOn ws (set_function_name ws va name)
  unfolding set_function_name
  set_function_name-IsCountedOn ws va name =
      inl (refl, (set_function_name-keys ws va name, refl, refl))

  change-IsCountedOn : (ws : VivWorkspace I L) (c : Change L) → IsCountedOn ws (change ws c)
  unfolding add_function drain_pending_functions add_location add_codeblock set_name add_reference
      set_comment set_meta add_noreturn_va write_image set_file_meta set_architecture set_endian
      add_memory_region add_segment add_file add_entry_point add_va_set set_va_set_row del_va_set
      add_event_listener remove_event_listener
  change-IsCountedOn ws (to_add_function va m) =
      err_lem (IsCountedOn ws) ws (is_function ws va) _ _ (inl (refl, SameAnalysis-refl ws))
        (inr refl)
  change-IsCountedOn ws to_drain = inl (refl, SameAnalysis-refl ws)
  change-IsCountedOn ws (to_set_function_name va name) = set_function_name-IsCountedOn ws va name
  change-IsCountedOn ws (to_write_memory va chunk) =
      or_same_lem (IsCountedOn ws) ws (write_memory ws.image.mem va chunk) _
        (inl (refl, SameAnalysis-refl ws)) (λ mem. inl (refl, SameAnalysis-refl ws))
  change-IsCountedOn ws (to_add_memory_region base bytes perms name) =
      or_same_lem (IsCountedOn ws) ws (map_verbatim ws.image base bytes perms name) _
        (inl (refl, SameAnalysis-refl ws)) (λ image. inr refl)
  change-IsCountedOn ws (to_add_entry_point va) =
      if_lem (IsCountedOn ws) (has_va va ws.entry_points) ws _ (inl (refl, SameAnalysis-refl ws))
        (inr refl)
  change-IsCountedOn ws (to_add_va_set name columns) =
      option_lem (IsCountedOn ws) (find_name name ws.va_sets) (λ set. ws) _
        (λ set. inl (refl, SameAnalysis-refl ws)) (inl (refl, SameAnalysis-refl ws))
  change-IsCountedOn ws (to_set_name va name) = inl (refl, SameAnalysis-refl ws)
  change-IsCountedOn ws (to_add_xref from to r) = inl (refl, SameAnalysis-refl ws)
  change-IsCountedOn ws (to_set_comment va comment) = inl (refl, SameAnalysis-refl ws)
  change-IsCountedOn ws (to_set_meta key value) = inl (refl, SameAnalysis-refl ws)
  change-IsCountedOn ws (to_add_noreturn_va va) = inl (refl, SameAnalysis-refl ws)
  change-IsCountedOn ws (to_set_file_meta filename key value) = inl (refl, SameAnalysis-refl ws)
  change-IsCountedOn ws (to_set_va_set_row name va row) = inl (refl, SameAnalysis-refl ws)
  change-IsCountedOn ws (to_del_va_set name) = inl (refl, SameAnalysis-refl ws)
  change-IsCountedOn ws (to_add_listener callback) = inl (refl, SameAnalysis-refl ws)
  change-IsCountedOn ws (to_remove_listener id) = inl (refl, SameAnalysis-refl ws)
  change-IsCountedOn ws (to_load_macho macho filename md5) = inl (
      load_macho_lem (λ w. (w.generation ≡ ws.generation) × SameAnalysis ws w) ws macho filename md5
        (λ w image arch segments names meta entries files p. p) (refl, SameAnalysis-refl ws))
  change-IsCountedOn ws (to_add_location va size ltype tinfo) = inr refl
  change-IsCountedOn ws (to_add_codeblock va size func_va) = inr refl
  change-IsCountedOn ws (to_set_architecture arch) = inr refl
  change-IsCountedOn ws (to_set_endian endian) = inr refl
  change-IsCountedOn ws (to_add_segment seg) = inr refl
  change-IsCountedOn ws (to_add_file file) = inr refl

  -- The generation counted on at most `n` times, and these are the same if it did not.
  abbrev IsWithin : ℕ → VivWorkspace I L → VivWorkspace I L → Type 0
  IsWithin n ws ws' =
      (b : ℕ) × ((b ≤ n)
        × (ws'.generation ≡ (ws.generation + b) % u64_mod)
        × (b ≡ 0 → SameAnalysis ws ws'))

  change-IsWithin :
      (n : ℕ) (ws ws' ws'' : VivWorkspace I L)
      → IsCountedOn ws ws'
      → IsWithin n ws' ws''
      → IsWithin (n + 1) ws ws''
  change-IsWithin n ws ws' ws'' (inl (e, same)) (b, (le, count, still)) = (
    b,
    (
      omega arith,
      rw (← e) count,
      λ none_counted. SameAnalysis-trans ws ws' ws'' same (still none_counted),
    ),
  )
  change-IsWithin n ws ws' ws'' (inr e) (b, (le, count, still)) = (
    b + 1,
    (
      omega arith,
      count ∙ ap (λ g. (g + b) % u64_mod) e ∙ mod_lem ws.generation b,
      λ none_counted. absurd (omega (arith, none_counted)),
    ),
  )

  change-IsU64 :
      (ws : VivWorkspace I L) (c : Change L) → IsU64 ws.generation → IsU64 (change ws c).generation
  change-IsU64 ws c g = elim (change-IsCountedOn ws c) [
    | inl (e, same) ↦ rw e g
    | inr e ↦ rw e (bump_lem ws.generation)
  ]

  run_changes-IsWithin :
      (ws : VivWorkspace I L) (cs : List (Change L))
      → IsU64 ws.generation
      → IsWithin (length cs) ws (run_changes ws cs)
  run_changes-IsWithin ws [] g =
      (0, (omega arith, omega (arith, g), λ none_counted. SameAnalysis-refl ws))
  run_changes-IsWithin ws (c ∷ cs) g =
      let rest = run_changes-IsWithin (change ws c) cs (change-IsU64 ws c g) in
      let (b, (le, count, still)) =
        change-IsWithin (length cs) ws (change ws c) (run_changes (change ws c) cs)
          (change-IsCountedOn ws c) rest in
      (b, (omega (arith, le), count, still))

  -- If a client finds the generation that it has seen, after fewer than `2 ^ 64` calls of `Change`, the
  -- loads of Mach-O files among them, then the function addresses, the locations and the code blocks of
  -- the workspace are those that it has seen. The loads of PE and ELF files are not among the calls.
  pub run_changes_generation :
      (ws : VivWorkspace I L) (cs : List (Change L))
      → IsU64 ws.generation
      → length cs < u64_mod
      → (run_changes ws cs).generation ≡ ws.generation
      → SameAnalysis ws (run_changes ws cs)
  run_changes_generation ws cs g few seen =
      let (b, (le, count, still)) = run_changes-IsWithin ws cs g in
      still (none_lem ws.generation b (length cs) g few le (sym seen ∙ count))
