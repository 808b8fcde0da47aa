-- ===== src/Core/Workspace/Loading/Entries.antt =====
-- src/core/workspace.rs, `load_macho_bytes`: the entry points of the workspace after a load.
use vivisect_rs.Base.{
  ℕ, Bool, not, ◌≡◌, refl, arith, String, List, [], ◌∷◌, ◌==◌, ◌&&◌, ◌||◌, any, Bool-cases, inl,
  inr, sym, ap, ◌∙◌, str_eq,
}
use mathlib.Core.Path.{subst}
use vivisect_rs.Error.{VivResult, ok}
use vivisect_rs.IndexMap.{IndexMaps}
use vivisect_rs.Memory.Object.{is_valid_address}
use vivisect_rs.Core.Symbols.{add_symbol}
use vivisect_rs.Core.Workspace.{VivWorkspace, set_meta}
use vivisect_rs.Core.Workspace.Setters.{has_va}
use vivisect_rs.Core.Workspace.Distinct.{IsDistinct, IsDistinct-snoc, has_va-snoc}
use vivisect_rs.Core.Workspace.Changes.{if_lem}
use vivisect_rs.Core.Workspace.Loading.{
  ExportInfo, MachOParser, load_sections, push_entry, load_entry, load_exports, name_function,
  load_function, load_functions, load_header, load_macho, load_macho_bytes,
}
use vivisect_rs.Core.Workspace.Loading.Blind.{
  load_sections_lem, load_function_lem, load_functions_lem, load_macho_bytes_ok,
}

module _ {I : IndexMaps} {L : Type 0} where
  push_entry-IsDistinct :
      (ws : VivWorkspace I L) (va : ℕ)
      → IsDistinct ws.entry_points
      → IsDistinct (push_entry ws va).entry_points
  push_entry-IsDistinct ws va h = elim (Bool-cases (has_va va ws.entry_points)) [
    | inl there ↦ rw there h
    | inr fresh ↦ rw fresh (IsDistinct-snoc va ws.entry_points fresh h)
  ]

  push_entry-has_va :
      (ws : VivWorkspace I L) (va a : ℕ)
      → has_va a (push_entry ws va).entry_points ≡ (has_va a ws.entry_points || (va == a))
  push_entry-has_va ws va a = elim (Bool-cases (va == a)) [
    | inl same ↦ ground (arith, has_va-snoc a va ws.entry_points)
    | inr apart ↦ ground (arith, has_va-snoc a va ws.entry_points)
  ]

  name_function-entry_points :
      (ws : VivWorkspace I L) (va : ℕ) (name : String)
      → (name_function ws va name).entry_points ≡ ws.entry_points
  name_function-entry_points ws va name =
      if_lem (λ w. w.entry_points ≡ ws.entry_points) (str_eq name "") ws
        (record ws { symbols = add_symbol ws.symbols va name }) refl refl

  load_function-has_va :
      (ws : VivWorkspace I L) (va a : ℕ) (name : String)
      → has_va a (load_function ws va name).entry_points ≡ (
          has_va a ws.entry_points
          || (not (a == 0) && is_valid_address ws.image.mem a && (va == a)))
  load_function-has_va ws va a name =
      let kept = name_function-entry_points (push_entry ws va) va name in
      let pushed = push_entry-has_va ws va a in
      elim (Bool-cases (va == a)) [
        | inl same ↦ let there : va ≡ a = ground arith in ground (arith, kept, pushed, there)
        | inr apart ↦ ground (arith, kept, pushed)
      ]

  load_function-image :
      (ws : VivWorkspace I L) (va : ℕ) (name : String) → (load_function ws va name).image ≡ ws.image
  load_function-image ws va name =
      load_function_lem (λ w. w.image ≡ ws.image) ws va name (λ w entries names h. h) refl

  load_functions-has_va :
      (ws : VivWorkspace I L) (fs : List (ℕ × String)) (a : ℕ)
      → has_va a (load_functions ws fs).entry_points ≡ (
          has_va a ws.entry_points
          || (not (a == 0) && is_valid_address ws.image.mem a && any (λ f. f.0 == a) fs))
  load_functions-has_va ws [] a = ground arith
  load_functions-has_va ws ((va, name) ∷ fs) a =
      let first = load_function-has_va ws va a name in
      let rest = load_functions-has_va (load_function ws va name) fs a in
      let same = load_function-image ws va name in ground (arith, first, rest, same)

  load_function-IsDistinct :
      (ws : VivWorkspace I L) (va : ℕ) (name : String)
      → IsDistinct ws.entry_points
      → IsDistinct (load_function ws va name).entry_points
  load_function-IsDistinct ws va name h =
      let kept = name_function-entry_points (push_entry ws va) va name in
      if_lem (λ w. IsDistinct w.entry_points) (not (va == 0) && is_valid_address ws.image.mem va)
        (name_function (push_entry ws va) va name) ws
        (subst IsDistinct (sym kept) (push_entry-IsDistinct ws va h)) h

  load_functions-IsDistinct :
      (ws : VivWorkspace I L) (fs : List (ℕ × String))
      → IsDistinct ws.entry_points
      → IsDistinct (load_functions ws fs).entry_points
  load_functions-IsDistinct ws [] h = h
  load_functions-IsDistinct ws ((va, name) ∷ fs) h =
      load_functions-IsDistinct (load_function ws va name) fs
        (load_function-IsDistinct ws va name h)

  load_entry-has_va :
      (ws : VivWorkspace I L) (entry a : ℕ)
      → has_va a (load_entry ws entry).entry_points
        ≡ (has_va a ws.entry_points || (not (a == 0) && (entry == a)))
  load_entry-has_va ws entry a =
      let pushed = push_entry-has_va ws entry a in
      elim (Bool-cases (entry == a)) [
        | inl same ↦ let there : entry ≡ a = ground arith in ground (arith, pushed, there)
        | inr apart ↦ ground (arith, pushed)
      ]

  load_entry-IsDistinct :
      (ws : VivWorkspace I L) (entry : ℕ)
      → IsDistinct ws.entry_points
      → IsDistinct (load_entry ws entry).entry_points
  load_entry-IsDistinct ws entry h =
      if_lem (λ w. IsDistinct w.entry_points) (entry == 0) ws (push_entry ws entry) h
        (push_entry-IsDistinct ws entry h)

  -- The workspace after the loop over the sections.
  abbrev after_sections : VivWorkspace I L → MachOParser → String → String → VivWorkspace I L
  after_sections ws macho filename md5 =
      load_sections filename macho.raw_data (load_header ws macho filename md5) macho.sections

  -- The workspace when the loop over the function entries starts.
  abbrev before_functions : VivWorkspace I L → MachOParser → String → String → VivWorkspace I L
  before_functions ws macho filename md5 =
      load_exports (load_entry (after_sections ws macho filename md5) macho.entry_point)
        macho.exports

  mapped-entry_points :
      (ws : VivWorkspace I L) (macho : MachOParser) (filename md5 : String)
      → (after_sections ws macho filename md5).entry_points ≡ ws.entry_points
  unfolding set_meta
  mapped-entry_points ws macho filename md5 =
      load_sections_lem (λ w. w.entry_points ≡ ws.entry_points) filename macho.raw_data
        (load_header ws macho filename md5) macho.sections (λ w image segments h. h) refl

  load_exports-entry_points :
      (ws : VivWorkspace I L) (es : List ExportInfo)
      → (load_exports ws es).entry_points ≡ ws.entry_points
  load_exports-entry_points ws [] = refl
  load_exports-entry_points ws (e ∷ es) =
      load_exports-entry_points (record ws { symbols = add_symbol ws.symbols e.address e.name }) es

  load_functions-image :
      (ws : VivWorkspace I L) (fs : List (ℕ × String)) → (load_functions ws fs).image ≡ ws.image
  load_functions-image ws fs =
      load_functions_lem (λ w. w.image ≡ ws.image) ws fs (λ w entries names h. h) refl

  before_functions-has_va :
      (ws : VivWorkspace I L) (macho : MachOParser) (filename md5 : String) (a : ℕ)
      → has_va a (before_functions ws macho filename md5).entry_points
        ≡ (has_va a ws.entry_points || (not (a == 0) && (macho.entry_point == a)))
  before_functions-has_va ws macho filename md5 a =
      let mapped = after_sections ws macho filename md5 in
      ap (has_va a) (load_exports-entry_points (load_entry mapped macho.entry_point) macho.exports)
      ∙ load_entry-has_va mapped macho.entry_point a
      ∙ ap (λ vas. has_va a vas || (not (a == 0) && (macho.entry_point == a)))
          (mapped-entry_points ws macho filename md5)

  before_functions-IsDistinct :
      (ws : VivWorkspace I L) (macho : MachOParser) (filename md5 : String)
      → IsDistinct ws.entry_points
      → IsDistinct (before_functions ws macho filename md5).entry_points
  before_functions-IsDistinct ws macho filename md5 h =
      let mapped = after_sections ws macho filename md5 in
      subst IsDistinct
        (sym (load_exports-entry_points (load_entry mapped macho.entry_point) macho.exports))
        (load_entry-IsDistinct mapped macho.entry_point
          (subst IsDistinct (sym (mapped-entry_points ws macho filename md5)) h))

  -- Is an address, not 0, the entry of the file or one of its functions in the mapped memory?
  abbrev pub is_entry : MachOParser → VivWorkspace I L → ℕ → Bool
  is_entry macho ws' a =
      not (a == 0)
      && ((macho.entry_point == a)
          || (is_valid_address ws'.image.mem a && any (λ f. f.0 == a) macho.function_entries))

  load_macho-has_va :
      (ws : VivWorkspace I L) (macho : MachOParser) (filename md5 : String) (a : ℕ)
      → has_va a (load_macho ws macho filename md5).entry_points
        ≡ (has_va a ws.entry_points || is_entry macho (load_macho ws macho filename md5) a)
  load_macho-has_va ws macho filename md5 a =
      let before = before_functions ws macho filename md5 in
      let last = load_functions-has_va before macho.function_entries a in
      let first = before_functions-has_va ws macho filename md5 a in
      let same = load_functions-image before macho.function_entries in
      ground (arith, last, first, same)

  -- If no address is twice among the entry points before a Mach-O file is loaded, then none is after
  -- it, and the entry points are those of before, the entry of the file, and the addresses of its
  -- functions that lie in the memory with the sections mapped; of the latter two not the address 0.
  pub load_macho_bytes_entries :
      (from_bytes : List ℕ → VivResult MachOParser) (md5 : List ℕ → String) (ws : VivWorkspace I L)
      {ws' : VivWorkspace I L} (bytes : List ℕ) (filename : String)
      → IsDistinct ws.entry_points
      → load_macho_bytes from_bytes md5 ws bytes filename ≡ ok ws'
      → (macho : MachOParser) × ((from_bytes bytes ≡ ok macho)
          × IsDistinct ws'.entry_points
          × ((a : ℕ)
              → has_va a ws'.entry_points ≡ (has_va a ws.entry_points || is_entry macho ws' a)))
  load_macho_bytes_entries from_bytes md5 ws {ws' = ws'} bytes filename d h =
      let (macho, (parsed, same)) =
        load_macho_bytes_ok from_bytes md5 ws {ws' = ws'} bytes filename h in
      let apart =
        load_functions-IsDistinct (before_functions ws macho filename (md5 bytes))
          macho.function_entries (before_functions-IsDistinct ws macho filename (md5 bytes) d) in
      let after =
        subst
          (λ (w : VivWorkspace I L).
            IsDistinct w.entry_points
            × ((a : ℕ)
                → has_va a w.entry_points ≡ (has_va a ws.entry_points || is_entry macho w a)))
          same (apart, load_macho-has_va ws macho filename (md5 bytes)) in
      (macho, (parsed, after.0, after.1))
