-- ===== src/Memory/Object.antt =====
-- src/envi/memory.rs, `MemoryObject`: the regions of a memory, indexed by their base address.
pub mod Lookup
pub mod Valid
pub mod Bytes
pub mod Errors
pub mod Snapshot
mod Tests
use vivisect_rs.Base.{
  ℕ, ◌+◌, Bool, true, false, ◌||◌, Option, none, some, String, List, [], ◌∷◌, if◌then◌else◌, length,
  any, is_some, map,
}
use vivisect_rs.Error.{VivResult, ok, err, invalid_memory, ◌>>=◌}
use vivisect_rs.BTreeMap.{BTreeMap, get, insert, remove, floor, values}
use vivisect_rs.Memory.Region.{MemoryRegion, new_region, with_data, contains, overlaps, read, write}

-- `struct MemoryObject`.
pub record MemoryObject : Type 0 where
  pub regions : BTreeMap MemoryRegion

abbrev pub empty_object : MemoryObject
empty_object = record { regions = [] }

-- `Option::filter` on the region of an entry.
abbrev pub filter_containing : ℕ → Option (ℕ × MemoryRegion) → Option (ℕ × MemoryRegion)
filter_containing addr none = none
filter_containing addr (some (base, r)) = if contains r addr then some (base, r) else none

-- The entry that `find_region` and `find_region_mut` look up.
unfoldable pub find_entry : MemoryObject → ℕ → Option (ℕ × MemoryRegion)
find_entry m addr = filter_containing addr (floor addr m.regions)

-- `.map(|(_, r)| r)`.
abbrev pub region_of : Option (ℕ × MemoryRegion) → Option MemoryRegion
region_of none = none
region_of (some (base, r)) = some r

-- `MemoryObject::find_region`, and `region_at`.
unfoldable pub find_region : MemoryObject → ℕ → Option MemoryRegion
find_region m addr = region_of (find_entry m addr)

-- `find_region_mut`: the key of the entry, then `get_mut` of that key.
unfoldable pub find_region_mut : MemoryObject → ℕ → Option (ℕ × MemoryRegion)
find_region_mut m addr = elim (find_entry m addr) [
  | none ↦ none
  | some (base, r) ↦ elim (get base m.regions) [ none ↦ none | some r' ↦ some (base, r') ]
]

-- `for region in self.regions.values() { if region.overlaps(base, size) { … } }`
abbrev pub overlaps_any : BTreeMap MemoryRegion → ℕ → ℕ → Bool
overlaps_any [] base size = false
overlaps_any ((k, r) ∷ m) base size = overlaps r base size || overlaps_any m base size

-- The check for overlaps, and the insertion.
abbrev pub insert_region : MemoryObject → ℕ → ℕ → MemoryRegion → VivResult MemoryObject
insert_region m base size region =
    if overlaps_any m.regions base size
    then err (invalid_memory base)
    else ok (record { regions = insert base region m.regions })

-- `MemoryObject::add_memory`.
unfoldable pub add_memory : MemoryObject → ℕ → List ℕ → ℕ → VivResult MemoryObject
add_memory m base bytes permissions =
    insert_region m base (length bytes) (with_data base bytes permissions)

-- `MemoryObject::add_named_memory`.
unfoldable pub add_named_memory :
    MemoryObject → ℕ → List ℕ → ℕ → Option String → VivResult MemoryObject
add_named_memory m base bytes permissions name =
    let region = with_data base bytes permissions in
    insert_region m base (length bytes) (record region { name = name })

-- `MemoryMap::add_memory_map`.
unfoldable pub add_memory_map : MemoryObject → ℕ → ℕ → ℕ → Option String → VivResult MemoryObject
add_memory_map m base size permissions name =
    let region = new_region base size permissions in
    insert_region m base size (record region { name = name })

-- `MemoryMap::remove_memory_map`.
unfoldable pub remove_memory_map : MemoryObject → ℕ → VivResult MemoryObject
remove_memory_map m base = elim (get base m.regions) [
  | none ↦ err (invalid_memory base)
  | some r ↦ ok (record { regions = remove base m.regions })
]

-- `MemoryAccess::read_memory`.
unfoldable pub read_memory : MemoryObject → ℕ → ℕ → VivResult (List ℕ)
read_memory m addr size = elim (find_region m addr) [
  | none ↦ err (invalid_memory addr)
  | some r ↦ read r addr size
]

-- `MemoryAccess::write_memory`: the region is changed in place.
unfoldable pub write_memory : MemoryObject → ℕ → List ℕ → VivResult MemoryObject
write_memory m addr chunk = elim (find_region_mut m addr) [
  | none ↦ err (invalid_memory addr)
  | some (base, r) ↦ write r addr chunk >>= λ r'. ok (record { regions = insert base r' m.regions })
]

-- `MemoryAccess::is_valid_address` and `get_permissions`.
unfoldable pub is_valid_address : MemoryObject → ℕ → Bool
is_valid_address m addr = is_some (find_region m addr)

unfoldable pub get_permissions : MemoryObject → ℕ → Option ℕ
get_permissions m addr = elim (find_region m addr) [ none ↦ none | some r ↦ some r.permissions ]

-- `snapshot_memory` and `restore_memory`.
unfoldable pub snapshot_memory : MemoryObject → List MemoryRegion
snapshot_memory m = values m.regions

-- `self.regions.clear()`, then one insertion for each region.
unfoldable pub insert_all : List MemoryRegion → BTreeMap MemoryRegion → BTreeMap MemoryRegion
insert_all [] m = m
insert_all (r ∷ rs) m = insert_all rs (insert r.base r m)

unfoldable pub restore_memory : List MemoryRegion → MemoryObject → MemoryObject
restore_memory snapshot m = record { regions = insert_all snapshot [] }

-- `total_size` and `region_count`.
unfoldable pub total_size : BTreeMap MemoryRegion → ℕ
total_size [] = 0
total_size ((k, r) ∷ m) = r.size + total_size m

abbrev pub region_count : MemoryObject → ℕ
region_count m = length m.regions
