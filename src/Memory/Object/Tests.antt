-- ===== src/Memory/Object/Tests.antt =====
-- A memory of two regions that touch, for src/envi/memory.rs.
use vivisect_rs.Base.{
  ℕ, ◌+◌, ◌-◌, ◌≤◌, ◌<◌, ◌≡◌, ◌↔◌, refl, true, ◌&&◌, none, some, List, [], ◌∷◌, arith, ltb, leb,
  if◌then◌else◌, length, get_elem?,
}
use vivisect_rs.Error.{ok, err, invalid_memory}
use vivisect_rs.BTreeMap.{get, insert, floor}
use vivisect_rs.Memory.Region.{MemoryRegion, with_data, read, write, copy_from_slice}
use vivisect_rs.Memory.Object.{
  MemoryObject, find_entry, find_region, find_region_mut, add_memory, add_named_memory,
  remove_memory_map, read_memory, write_memory, is_valid_address,
}
use vivisect_rs.Memory.Object.Lookup.{IsValid, byte_at}
use vivisect_rs.Memory.Object.Valid.{write_memory-IsValid}
use vivisect_rs.Memory.Object.Bytes.{write_memory_bytes}
use vivisect_rs.Memory.Object.Errors.{add_memory-refused, read_memory-write_memory}

abbrev text : MemoryRegion
text = record {
  base = 4096;
  size = 4;
  bytes = 85 ∷ 72 ∷ 137 ∷ 229 ∷ [];
  permissions = 5;
  name = some ".text";
}

abbrev bss : MemoryRegion
bss = record { base = 4100; size = 2; bytes = 0 ∷ 0 ∷ []; permissions = 3; name = none }

abbrev patched : MemoryRegion
patched = record {
  base = 4096;
  size = 4;
  bytes = 85 ∷ 144 ∷ 144 ∷ 229 ∷ [];
  permissions = 5;
  name = some ".text";
}

abbrev memory : MemoryObject
memory = record { regions = (4096, text) ∷ (4100, bss) ∷ [] }

abbrev patched_memory : MemoryObject
patched_memory = record { regions = (4096, patched) ∷ (4100, bss) ∷ [] }

abbrev nops : List ℕ
nops = 144 ∷ 144 ∷ []

abbrev middle : List ℕ
middle = 72 ∷ 137 ∷ []

memory-IsValid : IsValid memory
memory-IsValid = (
  refl,
  record { counted = refl; occupied = omega arith; fits = omega arith },
  (omega arith, tt),
  (refl, record { counted = refl; occupied = omega arith; fits = omega arith }, tt, tt),
)

write_patched : write_memory memory 4097 nops ≡ ok patched_memory
unfolding write_memory find_region_mut find_entry floor get insert write copy_from_slice
write_patched = refl

read_text : read_memory memory 4097 2 ≡ ok (72 ∷ 137 ∷ [])
unfolding read_memory find_region find_entry floor read
read_text = refl

-- A span that runs on into the next region is refused, although all its addresses are mapped.
read_across : read_memory memory 4098 4 ≡ err (invalid_memory 4098)
unfolding read_memory find_region find_entry floor read
read_across = refl

write_memory-IsValid_example : IsValid patched_memory
write_memory-IsValid_example = write_memory-IsValid memory 4097 nops memory-IsValid write_patched

write_memory_bytes_example : byte_at patched_memory.regions 4098 ≡ (
    if leb 4097 4098 && ltb 4098 (4097 + length nops)
    then get_elem? nops (4098 - 4097)
    else byte_at memory.regions 4098)
write_memory_bytes_example = write_memory_bytes memory 4097 nops 4098 memory-IsValid write_patched

read_memory-write_memory_example : read_memory patched_memory 4097 2 ≡ ok nops
read_memory-write_memory_example =
    read_memory-write_memory memory 4097 nops memory-IsValid write_patched

add_memory-refused_example :
    (add_memory memory 4101 nops 3 ≡ err (invalid_memory 4101))
    ↔ ((a : ℕ) × (4101 ≤ a) × (a < 4101 + length nops) × (is_valid_address memory a ≡ true))
add_memory-refused_example =
    add_memory-refused memory 4101 nops 3 memory-IsValid (omega arith) (omega arith)

abbrev bss_alone : MemoryObject
bss_alone = record { regions = (4100, bss) ∷ [] }

abbrev text_bytes : List ℕ
text_bytes = 85 ∷ 72 ∷ 137 ∷ 229 ∷ []

bss_alone-IsValid : IsValid bss_alone
bss_alone-IsValid =
    (refl, record { counted = refl; occupied = omega arith; fits = omega arith }, tt, tt)

remove_text : remove_memory_map memory 4096 ≡ ok bss_alone
unfolding remove_memory_map get vivisect_rs.BTreeMap.remove
remove_text = refl

add_text : add_named_memory bss_alone 4096 text_bytes 5 (some ".text") ≡ ok memory
unfolding add_named_memory with_data insert
add_text = refl

-- No bytes at the base of a region are not an overlap: the region is replaced by an empty one.
empty_replaces :
    add_memory bss_alone 4100 [] 1 ≡ ok (record { regions = (4100, with_data 4100 [] 1) ∷ [] })
unfolding add_memory insert
empty_replaces = refl
