-- ===== src/Core/Workspace/Loading/Tests.antt =====
-- src/core/workspace.rs, `load_macho_bytes`: runs.
use vivisect_rs.Base.{ℕ, ◌≡◌, refl, Bool, true, false, String, List, [], ◌∷◌, ◌||◌}
use vivisect_rs.IndexMap.Entries.{entry_lists}
use vivisect_rs.Error.{VivResult, ok, err, parse_error}
use vivisect_rs.BTreeMap.{floor, insert}
use vivisect_rs.Memory.Region.{copy_from_slice, with_data}
use vivisect_rs.Memory.Object.{add_named_memory, is_valid_address, find_region, find_entry}
use vivisect_rs.Memory.Image.{normalize_mapped_image, map_normalized}
use vivisect_rs.Core.Records.{amd64}
use vivisect_rs.Core.Workspace.{VivWorkspace, new_workspace, set_meta}
use vivisect_rs.Core.Workspace.Setters.{has_va}
use vivisect_rs.Core.Workspace.Distinct.{IsDistinct}
use vivisect_rs.Core.Workspace.Loading.{
  SectionInfo, MachOParser, load_macho, load_macho_bytes, least, image_base,
}
use vivisect_rs.Core.Workspace.Loading.Kept.{Loaded, load_macho_bytes-Loaded}
use vivisect_rs.Core.Workspace.Loading.Entries.{is_entry, load_macho_bytes_entries}

abbrev text : SectionInfo
text = record {
  name = "__text";
  virtual_address = 4096;
  virtual_size = 4;
  raw_size = 4;
  raw_offset = 0;
  executable = true;
  writable = false;
  readable = true;
}

abbrev empty : SectionInfo
empty = record {
  name = "__bss";
  virtual_address = 8192;
  virtual_size = 0;
  raw_size = 0;
  raw_offset = 4;
  executable = false;
  writable = true;
  readable = true;
}

-- A file with a section to map and one without bytes, and functions at the entry, in the section, and
-- outside of it.
abbrev a_file : MachOParser
a_file = record {
  raw_data = 85 ∷ 72 ∷ 137 ∷ 229 ∷ [];
  arch = amd64;
  entry_point = 4096;
  sections = text ∷ empty ∷ [];
  exports = [];
  function_entries = (4096, "main") ∷ (4098, "inner") ∷ (12288, "outer") ∷ [];
}

-- A reader that takes the file of four bytes for it.
abbrev a_reader : List ℕ → VivResult MachOParser
a_reader (a ∷ b ∷ c ∷ d ∷ []) = ok a_file
a_reader bytes = err (parse_error "not a Mach-O file")

abbrev a_digest : List ℕ → String
a_digest bytes = "d41d8cd9"

abbrev new : VivWorkspace entry_lists Bool
new = new_workspace entry_lists

abbrev loaded : VivWorkspace entry_lists Bool
loaded = load_macho new a_file "sample" "d41d8cd9"

base_is_least : image_base a_file ≡ 4096
unfolding least
base_is_least = refl

load_succeeds :
    load_macho_bytes a_reader a_digest new (85 ∷ 72 ∷ 137 ∷ 229 ∷ []) "sample" ≡ ok loaded
unfolding load_macho_bytes
load_succeeds = refl

entries_are : loaded.entry_points ≡ 4096 ∷ 4098 ∷ []
unfolding set_meta map_normalized normalize_mapped_image add_named_memory is_valid_address
    find_region find_entry floor insert copy_from_slice with_data
entries_are = refl

load_macho_bytes-Loaded_example :
    (macho : MachOParser) × ((a_reader (85 ∷ 72 ∷ 137 ∷ 229 ∷ []) ≡ ok macho)
      × Loaded new macho "sample" "d41d8cd9" loaded)
load_macho_bytes-Loaded_example =
    load_macho_bytes-Loaded a_reader a_digest new {ws' = loaded} (85 ∷ 72 ∷ 137 ∷ 229 ∷ []) "sample"
      load_succeeds

load_macho_bytes_entries_example :
    (macho : MachOParser) × ((a_reader (85 ∷ 72 ∷ 137 ∷ 229 ∷ []) ≡ ok macho)
      × IsDistinct loaded.entry_points
      × ((a : ℕ)
          → has_va a loaded.entry_points ≡ (has_va a new.entry_points || is_entry macho loaded a)))
load_macho_bytes_entries_example =
    load_macho_bytes_entries a_reader a_digest new {ws' = loaded} (85 ∷ 72 ∷ 137 ∷ 229 ∷ [])
      "sample" tt load_succeeds
