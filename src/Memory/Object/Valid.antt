-- ===== src/Memory/Object/Valid.antt =====
-- src/envi/memory.rs: the operations of the memory object and the invariant of its regions.
use vivisect_rs.Base.{
  ℕ, ◌+◌, ◌≤◌, ◌<◌, ◌≡◌, refl, sym, ap, false, Option, some, String, List, [], ◌∷◌, arith, length,
  length-replicate, Option-cases, inl, inr, Bool-cases,
}
use mathlib.Core.Path.{subst}
use vivisect_rs.Word.{u64_mod}
use vivisect_rs.Error.{ok, VivResult-cases}
use vivisect_rs.BTreeMap.{BTreeMap, get, insert, remove}
use vivisect_rs.Memory.Region.{MemoryRegion, new_region, with_data, contains, write}
use vivisect_rs.Memory.Region.Laws.{IsSound, write_bytes}
use vivisect_rs.Memory.Object.{
  MemoryObject, overlaps_any, insert_region, add_memory, add_named_memory, add_memory_map,
  remove_memory_map, write_memory,
}
use vivisect_rs.Memory.Object.Lookup.{
  StartsAfter, AreValid, IsValid, StartsAfter-mono, scan, scan_key, scan-IsSound,
  find_region_mut-scan,
}

StartsAfter-insert :
    (e base : ℕ) (r : MemoryRegion) (m : BTreeMap MemoryRegion)
    → StartsAfter e m
    → e ≤ base
    → StartsAfter e (insert base r m)
unfolding insert
StartsAfter-insert e base r [] h p = (p, tt)
StartsAfter-insert e base r ((k, s) ∷ m) h p = ground (arith, StartsAfter-insert e base r m h.1)

-- A sound region that overlaps no region of a valid map can be inserted.
pub insert-AreValid :
    (base : ℕ) (r : MemoryRegion) (m : BTreeMap MemoryRegion)
    → AreValid m
    → r.base ≡ base
    → IsSound r
    → overlaps_any m base r.size ≡ false
    → AreValid (insert base r m)
unfolding insert
insert-AreValid base r [] v e s o = (e, s, tt, tt)
insert-AreValid base r ((k, q) ∷ m) v e s o = ground (
  arith,
  v.1.occupied,
  v.1.fits,
  insert-AreValid base r m v.3 e s,
  StartsAfter-insert (k + q.size) base r m v.2,
  StartsAfter-mono (base + r.size) (k + q.size) m,
)

insert_region-IsValid :
    (m : MemoryObject) {m' : MemoryObject} (base size : ℕ) (r : MemoryRegion)
    → IsValid m
    → r.base ≡ base
    → r.size ≡ size
    → IsSound r
    → insert_region m base size r ≡ ok m'
    → IsValid m'
insert_region-IsValid m {m'} base size r v e z s h =
    elim (Bool-cases (overlaps_any m.regions base size)) [
      | inl overlap ↦ absurd (ground arith)
      | inr apart ↦
          let same : record { regions = insert base r m.regions } ≡ m' = ground arith in
          subst IsValid same (insert-AreValid base r m.regions v e s (rw z apart))
    ]

-- `add_named_memory` keeps a memory valid, if it is given at least one byte and the end of the new
-- region does not wrap.
pub add_named_memory-IsValid :
    (m : MemoryObject) {m' : MemoryObject} (base : ℕ) (bytes : List ℕ) (permissions : ℕ)
    (name : Option String)
    → IsValid m
    → 0 < length bytes
    → base + length bytes < u64_mod
    → add_named_memory m base bytes permissions name ≡ ok m'
    → IsValid m'
unfolding add_named_memory with_data
add_named_memory-IsValid m base bytes permissions name v p f h =
    insert_region-IsValid m base (length bytes) _ v refl refl
      (record { counted = refl; occupied = p; fits = f }) h

pub add_memory-IsValid :
    (m : MemoryObject) {m' : MemoryObject} (base : ℕ) (bytes : List ℕ) (permissions : ℕ)
    → IsValid m
    → 0 < length bytes
    → base + length bytes < u64_mod
    → add_memory m base bytes permissions ≡ ok m'
    → IsValid m'
unfolding add_memory with_data
add_memory-IsValid m base bytes permissions v p f h =
    insert_region-IsValid m base (length bytes) _ v refl refl
      (record { counted = refl; occupied = p; fits = f }) h

pub add_memory_map-IsValid :
    (m : MemoryObject) {m' : MemoryObject} (base size permissions : ℕ) (name : Option String)
    → IsValid m
    → 0 < size
    → base + size < u64_mod
    → add_memory_map m base size permissions name ≡ ok m'
    → IsValid m'
unfolding add_memory_map new_region
add_memory_map-IsValid m base size permissions name v p f h =
    insert_region-IsValid m base size _ v refl refl
      (record { counted = sym (length-replicate size 0); occupied = p; fits = f }) h

StartsAfter-remove :
    (e base : ℕ) (m : BTreeMap MemoryRegion) → StartsAfter e m → StartsAfter e (remove base m)
unfolding remove
StartsAfter-remove e base [] h = tt
StartsAfter-remove e base ((k, r) ∷ m) h = ground (arith, StartsAfter-remove e base m h.1)

remove-AreValid : (base : ℕ) (m : BTreeMap MemoryRegion) → AreValid m → AreValid (remove base m)
unfolding remove
remove-AreValid base [] v = tt
remove-AreValid base ((k, r) ∷ m) v =
    ground (arith, remove-AreValid base m v.3, StartsAfter-remove (k + r.size) base m v.2)

-- `remove_memory_map` keeps a memory valid.
pub remove_memory_map-IsValid :
    (m : MemoryObject) {m' : MemoryObject} (base : ℕ)
    → IsValid m
    → remove_memory_map m base ≡ ok m'
    → IsValid m'
unfolding remove_memory_map
remove_memory_map-IsValid m {m'} base v h = elim (Option-cases (get base m.regions)) [
  | inl nothing ↦ absurd (ground arith)
  | inr (r, found) ↦
      let same : record { regions = remove base m.regions } ≡ m' = ground arith in
      subst IsValid same (remove-AreValid base m.regions v)
]

-- A region may be replaced by a sound one of the same place.
pub replace-AreValid :
    (addr : ℕ) (m : BTreeMap MemoryRegion) (j : ℕ) (p r : MemoryRegion)
    → AreValid m
    → scan m addr ≡ some (j, p)
    → r.base ≡ p.base
    → r.size ≡ p.size
    → IsSound r
    → AreValid (insert j r m)
unfolding insert
replace-AreValid addr [] j p r v f b z s = cc
replace-AreValid addr ((k, q) ∷ m) j p r v f b z s = elim (Bool-cases (contains q addr)) [
  | inl here ↦
      let key : k ≡ j = ground arith in
      let region : q ≡ p = ground arith in
      ground
        (arith, ap (λ (t : MemoryRegion). t.size) region, ap (λ (t : MemoryRegion). t.base) region)
  | inr elsewhere ↦
      let later : scan m addr ≡ some (j, p) = ground arith in
      ground (
        arith,
        v.1.occupied,
        scan_key (k + q.size) addr m {x = (j, p)} v.2 later,
        replace-AreValid addr m j p r v.3 later b z s,
        StartsAfter-insert (k + q.size) j r m v.2,
      )
]

-- What a successful write has done: it found the region of the address, wrote to it, and put it
-- back under its key.
pub record Written (m m' : MemoryObject) (addr : ℕ) (chunk : List ℕ) : Type 0 where
  pub key : ℕ
  pub before : MemoryRegion
  pub after : MemoryRegion
  pub found : scan m.regions addr ≡ some (key, before)
  pub wrote : write before addr chunk ≡ ok after
  pub stored : m'.regions ≡ insert key after m.regions

pub write_memory-Written :
    (m : MemoryObject) {m' : MemoryObject} (addr : ℕ) (chunk : List ℕ)
    → IsValid m
    → write_memory m addr chunk ≡ ok m'
    → Written m m' addr chunk
unfolding write_memory
write_memory-Written m {m'} addr chunk v h = elim (Option-cases (scan m.regions addr)) [
  | inl nothing ↦ absurd (ground (arith, find_region_mut-scan m addr v))
  | inr ((j, p), found) ↦ elim (VivResult-cases (write p addr chunk)) [
    | inr (e, failed) ↦ absurd (ground (arith, find_region_mut-scan m addr v))
    | inl (r, wrote) ↦ record {
      key = j;
      before = p;
      after = r;
      found = found;
      wrote = wrote;
      stored = ground (arith, find_region_mut-scan m addr v);
    }
  ]
]

-- `write_memory` keeps a memory valid.
pub write_memory-IsValid :
    (m : MemoryObject) {m' : MemoryObject} (addr : ℕ) (chunk : List ℕ)
    → IsValid m
    → write_memory m addr chunk ≡ ok m'
    → IsValid m'
write_memory-IsValid m {m'} addr chunk v h =
    let w = write_memory-Written m {m' = m'} addr chunk v h in
    let sound = (scan-IsSound addr m.regions v w.found).1 in
    let (base, size, s, bytes) = write_bytes w.before w.after addr chunk sound w.wrote in
    subst AreValid (sym w.stored)
      (replace-AreValid addr m.regions w.key w.before w.after v w.found base size s)
