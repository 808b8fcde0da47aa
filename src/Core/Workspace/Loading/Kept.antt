-- ===== src/Core/Workspace/Loading/Kept.antt =====
-- src/core/workspace.rs, `load_macho_bytes`: what a load records, and what it leaves.
use vivisect_rs.Base.{
  ℕ, not, ◌≡◌, refl, sym, arith, some, String, List, [], ◌∷◌, ◌++◌, append-nil, append_assoc, ◌==◌,
  keep, map, Bool-cases, inl, inr,
}
use mathlib.Core.Path.{subst}
use vivisect_rs.Error.{VivResult, ok}
use vivisect_rs.IndexMap.{IndexMaps}
use vivisect_rs.Core.Records.{FileInfo, mach_o}
use vivisect_rs.Core.Workspace.{VivWorkspace, set_meta}
use vivisect_rs.Core.Workspace.Loading.{
  SectionInfo, MachOParser, image_base, segment_of, load_section, load_sections, load_header,
  load_macho, load_macho_bytes,
}
use vivisect_rs.Core.Workspace.Loading.Blind.{
  IsBlind, load_entry_lem, load_exports_lem, load_functions_lem, load_sections_lem,
  load_macho_bytes_ok,
}

-- The sections that the loader maps.
abbrev pub mapped_sections : List SectionInfo → List SectionInfo
mapped_sections ss = keep (λ s. not (s.virtual_size == 0)) ss

-- The file that the loader records.
abbrev pub file_of : MachOParser → String → String → FileInfo
file_of macho filename md5 = record {
  name = filename;
  base_addr = image_base macho;
  format = mach_o;
  md5 = some md5;
}

module _ {I : IndexMaps} {L : Type 0} where
  -- What `load_macho` leaves, and the architecture, the file and the segments that it records.
  pub record Loaded (ws : VivWorkspace I L) (macho : MachOParser) (filename md5 : String)
      (ws' : VivWorkspace I L) : Type 0 where
    pub same_generation : ws'.generation ≡ ws.generation
    pub same_functions : ws'.functions ≡ ws.functions
    pub same_locations : ws'.locations ≡ ws.locations
    pub same_codeblocks : ws'.codeblocks ≡ ws.codeblocks
    pub arch_is : ws'.arch ≡ macho.arch
    pub file_added : ws'.files ≡ ws.files ++ (file_of macho filename md5 ∷ [])
    pub segments_added :
        ws'.segments ≡ ws.segments ++ map (segment_of filename) (mapped_sections macho.sections)

  load_sections-segments :
      (filename : String) (raw : List ℕ) (ws : VivWorkspace I L) (ss : List SectionInfo)
      → (load_sections filename raw ws ss).segments
        ≡ ws.segments ++ map (segment_of filename) (mapped_sections ss)
  load_sections-segments filename raw ws [] = sym (append-nil ws.segments)
  load_sections-segments filename raw ws (s ∷ ss) =
      let rest = load_sections-segments filename raw (load_section filename raw ws s) ss in
      let after = map (segment_of filename) (mapped_sections ss) in
      let joined = append_assoc ws.segments (segment_of filename s ∷ []) after in
      elim (Bool-cases (s.virtual_size == 0)) [
        | inl unmapped ↦ ground (arith, rest)
        | inr here ↦ ground (arith, rest, joined)
      ]

  mapped-Loaded :
      (ws : VivWorkspace I L) (macho : MachOParser) (filename md5 : String)
      → Loaded ws macho filename md5
          (load_sections filename macho.raw_data (load_header ws macho filename md5) macho.sections)
  unfolding set_meta
  mapped-Loaded ws macho filename md5 =
      let start = load_header ws macho filename md5 in
      let kept =
        load_sections_lem
          (λ w.
            (w.generation ≡ ws.generation)
            × (w.functions ≡ ws.functions)
            × (w.locations ≡ ws.locations)
            × (w.codeblocks ≡ ws.codeblocks)
            × (w.arch ≡ macho.arch)
            × (w.files ≡ ws.files ++ (file_of macho filename md5 ∷ [])))
          filename macho.raw_data start macho.sections (λ w image segments h. h)
          (refl, refl, refl, refl, refl, refl) in
      record {
        same_generation = kept.0;
        same_functions = kept.1;
        same_locations = kept.2;
        same_codeblocks = kept.3;
        arch_is = kept.4;
        file_added = kept.5;
        segments_added = load_sections-segments filename macho.raw_data start macho.sections;
      }

  Loaded-IsBlind :
      (ws : VivWorkspace I L) (macho : MachOParser) (filename md5 : String)
      → IsBlind (Loaded ws macho filename md5)
  Loaded-IsBlind ws macho filename md5 w entries names h = record {
    same_generation = h.same_generation;
    same_functions = h.same_functions;
    same_locations = h.same_locations;
    same_codeblocks = h.same_codeblocks;
    arch_is = h.arch_is;
    file_added = h.file_added;
    segments_added = h.segments_added;
  }

  load_macho-Loaded :
      (ws : VivWorkspace I L) (macho : MachOParser) (filename md5 : String)
      → Loaded ws macho filename md5 (load_macho ws macho filename md5)
  load_macho-Loaded ws macho filename md5 =
      let P = Loaded ws macho filename md5 in
      let blind = Loaded-IsBlind ws macho filename md5 in
      load_functions_lem P _ macho.function_entries blind (
        load_exports_lem P _ macho.exports blind
          (load_entry_lem P _ macho.entry_point blind (mapped-Loaded ws macho filename md5)))

  -- A Mach-O file that is loaded does not count the generation on, and leaves the functions, the
  -- locations and the code blocks. But the architecture becomes that of the file, the list of files
  -- ends with the file, and the list of segments with one for each section whose virtual size is not
  -- 0, in order: a client that compares the generation does not see these.
  pub load_macho_bytes-Loaded :
      (from_bytes : List ℕ → VivResult MachOParser) (md5 : List ℕ → String) (ws : VivWorkspace I L)
      {ws' : VivWorkspace I L} (bytes : List ℕ) (filename : String)
      → load_macho_bytes from_bytes md5 ws bytes filename ≡ ok ws'
      → (macho : MachOParser) × ((from_bytes bytes ≡ ok macho)
          × Loaded ws macho filename (md5 bytes) ws')
  load_macho_bytes-Loaded from_bytes md5 ws {ws' = ws'} bytes filename h =
      let (macho, (parsed, same)) =
        load_macho_bytes_ok from_bytes md5 ws {ws' = ws'} bytes filename h in
      (
        macho,
        (
          parsed,
          subst (Loaded ws macho filename (md5 bytes)) same
              (load_macho-Loaded ws macho filename (md5 bytes)),
        ),
      )
