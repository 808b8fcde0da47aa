-- ===== src/Memory/Region.antt =====
-- src/abstractions/memory.rs: a contiguous region of memory. Bytes are numbers; sums of an address
-- and a size wrap, as in a release build.
pub mod Laws
use vivisect_rs.Base.{
  ℕ, ◌+◌, ◌-◌, ◌%◌, ◌^◌, ◌≤◌, ◌<◌, Bool, true, false, not, ◌&&◌, ◌||◌, Option, none, some, String,
  List, [], ◌∷◌, ◌++◌, ltb, leb, ◌==◌, if◌then◌else◌, length, take, drop, replicate,
}
use vivisect_rs.Word.{u64_mod}
use vivisect_rs.Error.{VivResult, ok, err, invalid_memory}

-- `struct MemoryRegion`. The permissions are the bits of the flags.
pub record MemoryRegion : Type 0 where
  pub base : ℕ
  pub size : ℕ
  pub bytes : List ℕ
  pub permissions : ℕ
  pub name : Option String

-- `MemoryRegion::new`.
unfoldable pub new_region : ℕ → ℕ → ℕ → MemoryRegion
new_region base size permissions = record {
  base = base;
  size = size;
  bytes = replicate size 0;
  permissions = permissions;
  name = none;
}

-- `MemoryRegion::with_data`.
unfoldable pub with_data : ℕ → List ℕ → ℕ → MemoryRegion
with_data base bytes permissions = record {
  base = base;
  size = length bytes;
  bytes = bytes;
  permissions = permissions;
  name = none;
}

-- `MemoryRegion::end`.
abbrev pub end : MemoryRegion → ℕ
end r = (r.base + r.size) % u64_mod

-- `MemoryRegion::contains`.
abbrev pub contains : MemoryRegion → ℕ → Bool
contains r addr = leb r.base addr && ltb addr (end r)

-- `MemoryRegion::overlaps`.
abbrev pub overlaps : MemoryRegion → ℕ → ℕ → Bool
overlaps r base size =
    let last = (base + size) % u64_mod in not (leb last r.base || leb (end r) base)

-- The guards that `read` and `write` share: the address lies in the region, `checked_add` does not
-- overflow, and the span ends within the data and the size.
abbrev pub in_bounds : MemoryRegion → ℕ → ℕ → Bool
in_bounds r addr count =
    contains r addr
    && ltb (addr - r.base + count) u64_mod
    && leb (addr - r.base + count) (length r.bytes)
    && leb (addr - r.base + count) r.size

-- `MemoryRegion::read`.
unfoldable pub read : MemoryRegion → ℕ → ℕ → VivResult (List ℕ)
read r addr count =
    if in_bounds r addr count
    then ok (take count (drop (addr - r.base) r.bytes))
    else err (invalid_memory addr)

-- `bytes[offset..offset + data.len()].copy_from_slice(data)`.
unfoldable pub copy_from_slice : ℕ → List ℕ → List ℕ → List ℕ
copy_from_slice offset chunk bytes =
    take offset bytes ++ (chunk ++ drop (offset + length chunk) bytes)

-- `MemoryRegion::write`: the region with the new data.
unfoldable pub write : MemoryRegion → ℕ → List ℕ → VivResult MemoryRegion
write r addr chunk =
    if in_bounds r addr (length chunk)
    then ok (record r { bytes = copy_from_slice (addr - r.base) chunk r.bytes })
    else err (invalid_memory addr)
