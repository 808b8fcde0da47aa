-- ===== src/Memory/Image/Tests.antt =====
-- A file of five bytes and its image, for src/envi/memory.rs.
use vivisect_rs.Base.{
  ℕ, ◌+◌, ◌-◌, ◌≡◌, refl, ◌&&◌, ◌||◌, none, some, List, [], ◌∷◌, arith, ltb, leb, if◌then◌else◌,
  length, get_elem?,
}
use vivisect_rs.Error.{ok}
use vivisect_rs.BTreeMap.{insert, get, floor}
use vivisect_rs.Memory.Region.{with_data, write, copy_from_slice}
use vivisect_rs.Memory.Object.{
  MemoryObject, add_named_memory, find_region_mut, find_entry, write_memory,
}
use vivisect_rs.Memory.Object.Lookup.{IsValid, byte_at}
use vivisect_rs.Memory.Image.{
  MemoryImage, little, new_image, normalize_mapped_image, map_normalized, from_records, to_records,
  to_le_bytes, write_le,
}
use vivisect_rs.Memory.Image.Normalize.{map_normalized_bytes}
use vivisect_rs.Memory.Image.Records.{from_records-to_records}

abbrev file : List ℕ
file = 77 ∷ 90 ∷ 144 ∷ 0 ∷ 195 ∷ []

abbrev mapped : MemoryImage
mapped = record {
  mem = record {
    regions =
        (
          8192,
          record {
            base = 8192;
            size = 6;
            bytes = 144 ∷ 0 ∷ 195 ∷ 0 ∷ 0 ∷ 0 ∷ [];
            permissions = 5;
            name = none;
          },
        )
        ∷ [];
  };
  endian = little;
}

map_file : map_normalized (new_image little) 8192 file 2 4 6 5 none ≡ ok mapped
unfolding map_normalized normalize_mapped_image add_named_memory with_data insert copy_from_slice
map_file = refl

map_normalized_bytes_example : byte_at mapped.mem.regions 8194 ≡ (
    if ltb 8194 8192 || leb (8192 + 6) 8194
    then none
    else if ltb (8194 - 8192) 4 && ltb (2 + (8194 - 8192)) (length file)
    then get_elem? file (2 + (8194 - 8192))
    else some 0)
map_normalized_bytes_example =
    map_normalized_bytes (new_image little) 8192 file 2 4 6 5 none 8194 tt (omega arith)
      (omega arith) map_file

mapped-IsValid : IsValid mapped.mem
mapped-IsValid =
    (refl, record { counted = refl; occupied = omega arith; fits = omega arith }, tt, tt)

from_records-to_records_example : from_records little (to_records mapped) ≡ ok mapped
from_records-to_records_example = from_records-to_records mapped mapped-IsValid (omega arith, tt)

abbrev stored : MemoryObject
stored = record {
  regions =
      (
        8192,
        record {
          base = 8192;
          size = 6;
          bytes = 144 ∷ 52 ∷ 18 ∷ 0 ∷ 0 ∷ 0 ∷ [];
          permissions = 5;
          name = none;
        },
      )
      ∷ [];
}

store_word : write_le mapped.mem 8193 2 4660 ≡ ok stored
unfolding write_le write_memory write find_region_mut find_entry floor get insert copy_from_slice
    to_le_bytes
store_word = refl
