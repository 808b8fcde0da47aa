-- ===== src/Memory/Image.antt =====
-- src/envi/memory.rs, `MemoryImage`: the mapped memory of a workspace with its byte order;
-- src/parsers/pe.rs, `normalize_mapped_image`; src/abstractions/memory.rs, the typed accesses.
pub mod Normalize
pub mod Records
pub mod Order
mod Tests
use vivisect_rs.Base.{
  ℕ, zero, suc, ◌+◌, ◌-◌, ◌*◌, ◌%◌, ◌/◌, min, Bool, true, false, not, ◌&&◌, Option, none, some,
  String, List, [], ◌∷◌, ◌++◌, ltb, leb, ◌==◌, if◌then◌else◌, length, take, drop, replicate,
}
use vivisect_rs.Error.{VivResult, ok, err, invalid_memory, ◌>>=◌}
use vivisect_rs.BTreeMap.{BTreeMap}
use vivisect_rs.Memory.Region.{MemoryRegion, copy_from_slice}
use vivisect_rs.Memory.Object.{
  MemoryObject, empty_object, add_named_memory, read_memory, write_memory, get_permissions,
}

-- `enum Endian`.
pub data Endian : Type 0 where
  little big : Endian

abbrev pub is_big : Endian → Bool
is_big little = false
is_big big = true

-- `struct MemoryImage`.
pub record MemoryImage : Type 0 where
  pub mem : MemoryObject
  pub endian : Endian

-- `normalize_mapped_image`.
unfoldable pub normalize_mapped_image : List ℕ → ℕ → ℕ → ℕ → List ℕ
normalize_mapped_image source raw_offset raw_size virtual_size =
    if virtual_size == 0
    then []
    else let bytes = replicate virtual_size 0 in
      let avail = length source - raw_offset in
      let copy = min (min raw_size virtual_size) avail in
      if ltb 0 copy then copy_from_slice 0 (take copy (drop raw_offset source)) bytes else bytes

-- `MemoryImage::new`.
abbrev pub new_image : Endian → MemoryImage
new_image endian = record { mem = empty_object; endian = endian }

abbrev pub is_empty : List ℕ → Bool
is_empty [] = true
is_empty (x ∷ xs) = false

-- The image with the memory that an operation on it gives.
abbrev pub with_mem : MemoryImage → VivResult MemoryObject → VivResult MemoryImage
with_mem img r = r >>= λ mem. ok (record img { mem = mem })

-- `map_normalized`.
unfoldable pub map_normalized :
    MemoryImage → ℕ → List ℕ → ℕ → ℕ → ℕ → ℕ → Option String → VivResult MemoryImage
map_normalized img base source raw_offset raw_size virtual_size perms name =
    let bytes = normalize_mapped_image source raw_offset raw_size virtual_size in
    if is_empty bytes then ok img else with_mem img (add_named_memory img.mem base bytes perms name)

-- `map_verbatim`.
unfoldable pub map_verbatim : MemoryImage → ℕ → List ℕ → ℕ → Option String → VivResult MemoryImage
map_verbatim img base bytes perms name =
    with_mem img (add_named_memory img.mem base bytes perms name)

-- `u16::from_le_bytes` and the wider ones, on the bytes of an array.
unfoldable pub from_le_bytes : List ℕ → ℕ
from_le_bytes [] = 0
from_le_bytes (b ∷ bs) = b + 256 * from_le_bytes bs

-- `from_be_bytes`, with what the bytes before have given.
unfoldable pub be_bytes_after : ℕ → List ℕ → ℕ
be_bytes_after n [] = n
be_bytes_after n (b ∷ bs) = be_bytes_after (256 * n + b) bs

abbrev pub from_be_bytes : List ℕ → ℕ
from_be_bytes bs = be_bytes_after 0 bs

-- `to_le_bytes` of an integer of so many bytes.
unfoldable pub to_le_bytes : ℕ → ℕ → List ℕ
to_le_bytes zero n = []
to_le_bytes (suc count) n = (n % 256) ∷ to_le_bytes count (n / 256)

-- `read_u16`, `read_u32` and `read_u64`, by the number of bytes.
unfoldable pub read_uint : MemoryImage → ℕ → ℕ → VivResult ℕ
read_uint img addr count = read_memory img.mem addr count >>= λ b.
    ok (if is_big img.endian then from_be_bytes b else from_le_bytes b)

-- `read_ptr`.
unfoldable pub read_ptr : MemoryImage → ℕ → ℕ → VivResult ℕ
read_ptr img addr width =
    if width == 4
    then read_uint img addr 4
    else if width == 8
    then read_uint img addr 8
    else err (invalid_memory addr)

-- `MemoryAccess::read_u8`, `read_u16_le`, `read_u32_le`, `read_u64_le`, by the number of bytes.
unfoldable pub read_le : MemoryObject → ℕ → ℕ → VivResult ℕ
read_le m addr count = read_memory m addr count >>= λ b. ok (from_le_bytes b)

-- `MemoryAccess::write_u8`, `write_u16_le`, `write_u32_le`, `write_u64_le`.
unfoldable pub write_le : MemoryObject → ℕ → ℕ → ℕ → VivResult MemoryObject
write_le m addr count value = write_memory m addr (to_le_bytes count value)

-- `is_executable`: the flag `EXEC` is bit 2 of the permissions.
unfoldable pub is_executable : MemoryImage → ℕ → Bool
is_executable img addr = elim (get_permissions img.mem addr) [
  | none ↦ false
  | some p ↦ (p / 4) % 2 == 1
]

-- A record of `to_records`: base, bits of the permissions, name, data.
pub record RegionRecord : Type 0 where
  pub base : ℕ
  pub perms : ℕ
  pub name : Option String
  pub bytes : List ℕ

abbrev pub records_of : BTreeMap MemoryRegion → List RegionRecord
records_of [] = []
records_of ((k, r) ∷ m) =
    record { base = r.base; perms = r.permissions; name = r.name; bytes = r.bytes } ∷ records_of m

-- `to_records`.
unfoldable pub to_records : MemoryImage → List RegionRecord
to_records img = records_of img.mem.regions

-- The loop of `from_records`. `from_bits_truncate` keeps the three flags.
unfoldable pub map_records : MemoryImage → List RegionRecord → VivResult MemoryImage
map_records img [] = ok img
map_records img (r ∷ rs) =
    map_verbatim img r.base r.bytes (r.perms % 8) r.name >>= λ img'. map_records img' rs

-- `from_records`.
unfoldable pub from_records : Endian → List RegionRecord → VivResult MemoryImage
from_records endian records = map_records (new_image endian) records
