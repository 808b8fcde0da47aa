-- ===== src/Core/Workspace/Loading/Blind.antt =====
-- src/core/workspace.rs, `load_macho_bytes`: a predicate that does not look at what a step of the load
-- changes holds after the step if it held before.
use vivisect_rs.Base.{
  ℕ, not, ◌≡◌, ap, ◌∙◌, sym, String, List, [], ◌∷◌, ◌==◌, ◌&&◌, str_eq, inl, inr,
}
use vivisect_rs.Error.{VivResult, ok, err, ◌>>=◌, VivResult-cases}
use vivisect_rs.HashMap.{NameMap}
use vivisect_rs.IndexMap.{IndexMaps}
use vivisect_rs.Memory.Object.{is_valid_address}
use vivisect_rs.Memory.Image.{MemoryImage}
use vivisect_rs.Core.Symbols.{SymbolTable, add_symbol}
use vivisect_rs.Core.Records.{Architecture, FileInfo, Segment}
use vivisect_rs.Core.Workspace.{VivWorkspace, set_meta}
use vivisect_rs.Core.Workspace.Setters.{has_va}
use vivisect_rs.Core.Workspace.Changes.{if_lem}
use vivisect_rs.Core.Workspace.Loading.{
  SectionInfo, ExportInfo, MachOParser, load_section, load_sections, push_entry, load_entry,
  load_exports, load_function, load_functions, load_header, load_macho, load_macho_bytes,
}

module _ {I : IndexMaps} {L : Type 0} where
  -- A predicate that does not look at the entry points or the names.
  abbrev pub IsBlind : (VivWorkspace I L → Type 0) → Type 0
  IsBlind P =
      (ws : VivWorkspace I L) (entries : List ℕ) (names : SymbolTable)
      → P ws
      → P (record ws { entry_points = entries; symbols = names })

  pub load_entry_lem :
      (P : VivWorkspace I L → Type 0) (ws : VivWorkspace I L) (entry : ℕ)
      → IsBlind P
      → P ws
      → P (load_entry ws entry)
  load_entry_lem P ws entry blind h =
      if_lem P (entry == 0) ws (push_entry ws entry) h
        (if_lem P (has_va entry ws.entry_points) ws _ h (blind ws _ ws.symbols h))

  pub load_exports_lem :
      (P : VivWorkspace I L → Type 0) (ws : VivWorkspace I L) (es : List ExportInfo)
      → IsBlind P
      → P ws
      → P (load_exports ws es)
  load_exports_lem P ws [] blind h = h
  load_exports_lem P ws (e ∷ es) blind h =
      load_exports_lem P (record ws { symbols = add_symbol ws.symbols e.address e.name }) es blind
        (blind ws ws.entry_points _ h)

  pub load_function_lem :
      (P : VivWorkspace I L → Type 0) (ws : VivWorkspace I L) (va : ℕ) (name : String)
      → IsBlind P
      → P ws
      → P (load_function ws va name)
  load_function_lem P ws va name blind h =
      let pushed = if_lem P (has_va va ws.entry_points) ws _ h (blind ws _ ws.symbols h) in
      if_lem P (not (va == 0) && is_valid_address ws.image.mem va) _ ws
        (if_lem P (str_eq name "") (push_entry ws va) _ pushed
          (blind (push_entry ws va) (push_entry ws va).entry_points _ pushed))
        h

  pub load_functions_lem :
      (P : VivWorkspace I L → Type 0) (ws : VivWorkspace I L) (fs : List (ℕ × String))
      → IsBlind P
      → P ws
      → P (load_functions ws fs)
  load_functions_lem P ws [] blind h = h
  load_functions_lem P ws ((va, name) ∷ fs) blind h =
      load_functions_lem P (load_function ws va name) fs blind
        (load_function_lem P ws va name blind h)

  pub load_sections_lem :
      (P : VivWorkspace I L → Type 0) (filename : String) (raw : List ℕ) (ws : VivWorkspace I L)
      (ss : List SectionInfo)
      → ((w : VivWorkspace I L) (image : MemoryImage) (segments : List Segment)
          → P w
          → P (record w { image = image; segments = segments }))
      → P ws
      → P (load_sections filename raw ws ss)
  load_sections_lem P filename raw ws [] blind h = h
  load_sections_lem P filename raw ws (s ∷ ss) blind h =
      load_sections_lem P filename raw (load_section filename raw ws s) ss blind
        (if_lem P (s.virtual_size == 0) ws _ h (blind ws _ _ h))

  -- A predicate that does not look at what a load changes holds after the load if it held before.
  pub load_macho_lem :
      (P : VivWorkspace I L → Type 0) (ws : VivWorkspace I L) (macho : MachOParser)
      (filename md5 : String)
      → ((w : VivWorkspace I L) (image : MemoryImage) (arch : Architecture)
            (segments : List Segment) (names : SymbolTable) (meta : NameMap String)
            (entries : List ℕ) (files : List FileInfo)
          → P w
          → P (record w {
            image = image;
            arch = arch;
            segments = segments;
            symbols = names;
            meta = meta;
            entry_points = entries;
            files = files;
          }))
      → P ws
      → P (load_macho ws macho filename md5)
  unfolding set_meta
  load_macho_lem P ws macho filename md5 blind h =
      let P_blind : IsBlind P =
        λ w entries names p. blind w w.image w.arch w.segments names w.meta entries w.files p in
      let mapped =
        load_sections_lem P filename macho.raw_data (load_header ws macho filename md5)
          macho.sections
          (λ w image segments p.
            blind w image w.arch segments w.symbols w.meta w.entry_points w.files p)
          (blind ws _ macho.arch ws.segments ws.symbols _ ws.entry_points _ h) in
      load_functions_lem P _ macho.function_entries P_blind (
        load_exports_lem P _ macho.exports P_blind
          (load_entry_lem P _ macho.entry_point P_blind mapped))

  -- A load that succeeds has read the file.
  pub load_macho_bytes_ok :
      (from_bytes : List ℕ → VivResult MachOParser) (md5 : List ℕ → String) (ws : VivWorkspace I L)
      {ws' : VivWorkspace I L} (bytes : List ℕ) (filename : String)
      → load_macho_bytes from_bytes md5 ws bytes filename ≡ ok ws'
      → (macho : MachOParser) × ((from_bytes bytes ≡ ok macho)
          × (load_macho ws macho filename (md5 bytes) ≡ ws'))
  unfolding load_macho_bytes
  load_macho_bytes_ok from_bytes md5 ws {ws' = ws'} bytes filename h =
      let put =
        λ (r : VivResult MachOParser). r >>= λ m. ok (load_macho ws m filename (md5 bytes)) in
      elim (VivResult-cases (from_bytes bytes)) [
        | inl (macho, parsed) ↦
            let run : ok (load_macho ws macho filename (md5 bytes)) ≡ ok ws' =
              sym (ap put parsed) ∙ h in
            (macho, (parsed, cc run))
        | inr (e, failed) ↦ let run : err e ≡ ok ws' = sym (ap put failed) ∙ h in absurd (cc run)
      ]
