-- ===== src/Core/Workspace/Loading/Valid.antt =====
-- src/core/workspace.rs, `load_macho_bytes`: the memory after a load.
use vivisect_rs.Base.{ℕ, ◌+◌, ◌<◌, ◌≡◌, sym, String, List, [], ◌∷◌, All, ◌==◌, inl, inr, some}
use mathlib.Core.Path.{subst}
use vivisect_rs.Word.{u64_mod}
use vivisect_rs.Error.{VivResult, ok, VivResult-cases}
use vivisect_rs.IndexMap.{IndexMaps}
use vivisect_rs.Memory.Object.Lookup.{IsValid}
use vivisect_rs.Memory.Image.{MemoryImage, map_normalized}
use vivisect_rs.Memory.Image.Normalize.{map_normalized-IsValid}
use vivisect_rs.Core.Workspace.{VivWorkspace, set_meta}
use vivisect_rs.Core.Workspace.Changes.{if_lem}
use vivisect_rs.Core.Workspace.Loading.{
  SectionInfo, MachOParser, section_perms, or_unmapped, map_section, load_section, load_sections,
  load_header, load_macho, load_macho_bytes,
}
use vivisect_rs.Core.Workspace.Loading.Blind.{
  load_entry_lem, load_exports_lem, load_functions_lem, load_macho_bytes_ok,
}

-- The end of a section is below `2 ^ 64`.
abbrev pub Fits : SectionInfo → Type 0
Fits s = s.virtual_address + s.virtual_size < u64_mod

map_section-IsValid :
    (raw : List ℕ) (img : MemoryImage) (s : SectionInfo)
    → Fits s
    → IsValid img.mem
    → IsValid (map_section raw img s).mem
map_section-IsValid raw img s fits v =
    let mapped =
      map_normalized img s.virtual_address raw s.raw_offset s.raw_size s.virtual_size
        (section_perms s) (some s.name) in
    elim (VivResult-cases mapped) [
      | inl (img', done) ↦
          subst (λ r. IsValid (or_unmapped img r).mem) (sym done)
            (map_normalized-IsValid img {img' = img'} s.virtual_address raw s.raw_offset s.raw_size
              s.virtual_size (section_perms s) (some s.name) v fits done)
      | inr (e, failed) ↦ subst (λ r. IsValid (or_unmapped img r).mem) (sym failed) v
    ]

module _ {I : IndexMaps} {L : Type 0} where
  load_sections-IsValid :
      (filename : String) (raw : List ℕ) (ws : VivWorkspace I L) (ss : List SectionInfo)
      → All Fits ss
      → IsValid ws.image.mem
      → IsValid (load_sections filename raw ws ss).image.mem
  load_sections-IsValid filename raw ws [] fit v = v
  load_sections-IsValid filename raw ws (s ∷ ss) fit v =
      load_sections-IsValid filename raw (load_section filename raw ws s) ss fit.1 (
        if_lem (λ w. IsValid w.image.mem) (s.virtual_size == 0) ws _ v
          (map_section-IsValid raw ws.image s fit.0 v))

  load_macho-IsValid :
      (ws : VivWorkspace I L) (macho : MachOParser) (filename md5 : String)
      → All Fits macho.sections
      → IsValid ws.image.mem
      → IsValid (load_macho ws macho filename md5).image.mem
  unfolding set_meta
  load_macho-IsValid ws macho filename md5 fit v =
      let P = λ (w : VivWorkspace I L). IsValid w.image.mem in
      load_functions_lem P _ macho.function_entries (λ w entries names h. h)
        (load_exports_lem P _ macho.exports (λ w entries names h. h)
          (load_entry_lem P _ macho.entry_point (λ w entries names h. h)
            (load_sections-IsValid filename macho.raw_data (load_header ws macho filename md5)
              macho.sections fit v)))

  -- A Mach-O file whose sections end below `2 ^ 64` keeps the memory of the workspace valid when it is
  -- loaded, whatever its sections overlap: each region is not empty, has as many bytes as its size, does
  -- not wrap, is stored under its base and ends before the next one starts.
  pub load_macho_bytes-IsValid :
      (from_bytes : List ℕ → VivResult MachOParser) (md5 : List ℕ → String) (ws : VivWorkspace I L)
      {ws' : VivWorkspace I L} (bytes : List ℕ) (filename : String)
      → ((macho : MachOParser) → from_bytes bytes ≡ ok macho → All Fits macho.sections)
      → IsValid ws.image.mem
      → load_macho_bytes from_bytes md5 ws bytes filename ≡ ok ws'
      → IsValid ws'.image.mem
  load_macho_bytes-IsValid from_bytes md5 ws {ws' = ws'} bytes filename fit v h =
      let (macho, (parsed, same)) =
        load_macho_bytes_ok from_bytes md5 ws {ws' = ws'} bytes filename h in
      subst (λ (w : VivWorkspace I L). IsValid w.image.mem) same
        (load_macho-IsValid ws macho filename (md5 bytes) (fit macho parsed) v)
