-- ===== src/Core/Workspace/Loading.antt =====
-- src/core/workspace.rs, `load_macho_bytes`, which puts a Mach-O file into the workspace. The reader of
-- the file, which calls the crate goblin, and the hash of the crate md5 are parameters.
pub mod Blind
pub mod Kept
pub mod Entries
pub mod Valid
mod Tests
use vivisect_rs.Base.{
  ℕ, ◌+◌, ◌*◌, Bool, not, ◌&&◌, Option, none, some, String, List, [], ◌∷◌, ◌++◌, ◌==◌, ltb,
  if◌then◌else◌, keep, map, min, unwrap_or, str_eq,
}
use vivisect_rs.Error.{VivResult, ok, err, ◌>>=◌}
use vivisect_rs.IndexMap.{IndexMaps}
use vivisect_rs.Memory.Object.{is_valid_address}
use vivisect_rs.Memory.Image.{MemoryImage, little, map_normalized}
use vivisect_rs.Core.Symbols.{SymbolTable, add_symbol}
use vivisect_rs.Core.Records.{Architecture, Segment, FileInfo, mach_o}
use vivisect_rs.Core.Workspace.{VivWorkspace, set_meta}
use vivisect_rs.Core.Workspace.Setters.{has_va}

-- `struct SectionInfo` and `struct ExportInfo` of src/abstractions/binary.rs.
pub record SectionInfo : Type 0 where
  pub name : String
  pub virtual_address : ℕ
  pub virtual_size : ℕ
  pub raw_size : ℕ
  pub raw_offset : ℕ
  pub executable : Bool
  pub writable : Bool
  pub readable : Bool

pub record ExportInfo : Type 0 where
  pub address : ℕ
  pub name : String
  pub ordinal : Option ℕ

-- The fields of `struct MachOParser` of src/parsers/macho.rs that the loader reads.
pub record MachOParser : Type 0 where
  pub raw_data : List ℕ
  pub arch : Architecture
  pub entry_point : ℕ
  pub sections : List SectionInfo
  pub exports : List ExportInfo
  pub function_entries : List (ℕ × String)

-- `Iterator::min`.
unfoldable pub least : List ℕ → Option ℕ
least [] = none
least (x ∷ xs) = some (elim (least xs) [ none ↦ x | some y ↦ min x y ])

-- `image_base`: the lowest address of a readable section.
abbrev pub image_base : MachOParser → ℕ
image_base macho =
    unwrap_or (least (map (λ s. s.virtual_address) (keep (λ s. s.readable) macho.sections))) 0

-- The bits of the permissions of a section.
abbrev pub section_perms : SectionInfo → ℕ
section_perms s =
    (if s.readable then 1 else 0) + (if s.writable then 2 else 0) + (if s.executable then 4 else 0)

-- `let _ = self.image.map_normalized(...)`: an error is left aside, and the image is as it was.
abbrev pub or_unmapped : MemoryImage → VivResult MemoryImage → MemoryImage
or_unmapped img (ok img') = img'
or_unmapped img (err e) = img

abbrev pub map_section : List ℕ → MemoryImage → SectionInfo → MemoryImage
map_section raw img s = or_unmapped img (
    map_normalized img s.virtual_address raw s.raw_offset s.raw_size s.virtual_size
      (section_perms s) (some s.name))

abbrev pub segment_of : String → SectionInfo → Segment
segment_of filename s = record {
  va = s.virtual_address;
  size = s.virtual_size;
  name = s.name;
  filename = filename;
}

module _ {I : IndexMaps} {L : Type 0} where
  -- One round of the loop over the sections, and the loop.
  abbrev pub load_section : String → List ℕ → VivWorkspace I L → SectionInfo → VivWorkspace I L
  load_section filename raw ws s = if s.virtual_size == 0 then ws else record ws {
    image = map_section raw ws.image s;
    segments = ws.segments ++ (segment_of filename s ∷ []);
  }

  abbrev pub load_sections :
      String → List ℕ → VivWorkspace I L → List SectionInfo → VivWorkspace I L
  load_sections filename raw ws [] = ws
  load_sections filename raw ws (s ∷ ss) =
      load_sections filename raw (load_section filename raw ws s) ss

  -- `if entry != 0 && !self.entry_points.contains(&entry)`.
  abbrev pub push_entry : VivWorkspace I L → ℕ → VivWorkspace I L
  push_entry ws va =
      if has_va va ws.entry_points
      then ws
      else record ws { entry_points = ws.entry_points ++ (va ∷ []) }

  abbrev pub load_entry : VivWorkspace I L → ℕ → VivWorkspace I L
  load_entry ws entry = if entry == 0 then ws else push_entry ws entry

  -- The loop over the exports.
  abbrev pub load_exports : VivWorkspace I L → List ExportInfo → VivWorkspace I L
  load_exports ws [] = ws
  load_exports ws (e ∷ es) =
      load_exports (record ws { symbols = add_symbol ws.symbols e.address e.name }) es

  abbrev pub name_function : VivWorkspace I L → ℕ → String → VivWorkspace I L
  name_function ws va name =
      if str_eq name "" then ws else record ws { symbols = add_symbol ws.symbols va name }

  -- One round of the loop over the function entries, and the loop.
  abbrev pub load_function : VivWorkspace I L → ℕ → String → VivWorkspace I L
  load_function ws va name =
      if not (va == 0) && is_valid_address ws.image.mem va
      then name_function (push_entry ws va) va name
      else ws

  abbrev pub load_functions : VivWorkspace I L → List (ℕ × String) → VivWorkspace I L
  load_functions ws [] = ws
  load_functions ws ((va, name) ∷ fs) = load_functions (load_function ws va name) fs

  -- What precedes the loops: the architecture, the byte order, two metadata and the file.
  abbrev pub load_header : VivWorkspace I L → MachOParser → String → String → VivWorkspace I L
  load_header ws macho filename md5 =
      let ws' = record ws { arch = macho.arch; image = record ws.image { endian = little } } in
      let named = set_meta (set_meta ws' "StorageName" filename) "md5" md5 in
      record named {
        files =
            named.files
            ++ (record {
              name = filename;
              base_addr = image_base macho;
              format = mach_o;
              md5 = some md5;
            }
                ∷ []);
      }

  -- `load_macho_bytes` of a file that was read.
  abbrev pub load_macho : VivWorkspace I L → MachOParser → String → String → VivWorkspace I L
  load_macho ws macho filename md5 =
      let mapped =
        load_sections filename macho.raw_data (load_header ws macho filename md5) macho.sections in
      load_functions (load_exports (load_entry mapped macho.entry_point) macho.exports)
        macho.function_entries

  -- `load_macho_bytes`; `filename` is the last part of the path.
  unfoldable pub load_macho_bytes :
      (List ℕ → VivResult MachOParser)
      → (List ℕ → String)
      → VivWorkspace I L
      → List ℕ
      → String
      → VivResult (VivWorkspace I L)
  load_macho_bytes from_bytes md5 ws bytes filename =
      from_bytes bytes >>= λ macho. ok (load_macho ws macho filename (md5 bytes))
