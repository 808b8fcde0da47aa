-- ===== src/Memory/Object/Bytes.antt =====
-- src/envi/memory.rs: the memory object as a function from addresses to bytes.
use vivisect_rs.Base.{
  ℕ, ◌+◌, ◌-◌, ◌<◌, ◌≡◌, refl, sym, ap, ◌∙◌, true, false, ◌&&◌, Option, none, some, String, List,
  [], ◌∷◌, arith, ltb, leb, if◌then◌else◌, length, get_elem?, Option-cases, inl, inr, Bool-cases,
}
use vivisect_rs.Word.{u64_mod}
use vivisect_rs.Error.{ok}
use vivisect_rs.BTreeMap.{BTreeMap, insert}
use vivisect_rs.Memory.Region.{MemoryRegion, with_data, contains, in_bounds, read, write}
use vivisect_rs.Memory.Region.Laws.{IsSound, byte_of, read_bytes, write_bytes, get_elem?-beyond}
use vivisect_rs.Memory.Object.{
  MemoryObject, overlaps_any, add_named_memory, read_memory, write_memory,
}
use vivisect_rs.Memory.Object.Lookup.{
  AreValid, IsValid, scan, scan_key, scan-IsSound, find_region-scan, byte_at, byte_at-scan,
}
use vivisect_rs.Memory.Object.Valid.{write_memory-Written}

-- Every address of a region is found in that region.
pub scan_same :
    (addr a : ℕ) (m : BTreeMap MemoryRegion) (j : ℕ) (p : MemoryRegion)
    → AreValid m
    → scan m addr ≡ some (j, p)
    → contains p a ≡ true
    → scan m a ≡ some (j, p)
scan_same addr a [] j p v f c = cc
scan_same addr a ((k, q) ∷ m) j p v f c = elim (Bool-cases (contains q addr)) [
  | inl here ↦
      let key : k ≡ j = ground arith in
      let region : q ≡ p = ground arith in rw (region, key, c) refl
  | inr elsewhere ↦
      let later : scan m addr ≡ some (j, p) = ground arith in
      ground (
        arith,
        v.1.occupied,
        v.1.fits,
        scan_key (k + q.size) addr m {x = (j, p)} v.2 later,
        (scan-IsSound addr m {x = (j, p)} v.3 later).2,
        scan_same addr a m j p v.3 later c,
      )
]

-- A region inserted apart from the others adds its bytes.
byte_at-insert :
    (base a : ℕ) (r : MemoryRegion) (m : BTreeMap MemoryRegion)
    → AreValid m
    → r.base ≡ base
    → IsSound r
    → overlaps_any m base r.size ≡ false
    → byte_at (insert base r m) a ≡ (if contains r a then byte_of r a else byte_at m a)
unfolding insert
byte_at-insert base a r [] v e s o = refl
byte_at-insert base a r ((k, q) ∷ m) v e s o =
    ground
      (arith, v.1.occupied, v.1.fits, s.occupied, s.fits, v.0, byte_at-insert base a r m v.3 e s)

-- A region put in the place of the one found changes the bytes of that place alone.
byte_at-replace :
    (addr a : ℕ) (m : BTreeMap MemoryRegion) (j : ℕ) (p r : MemoryRegion)
    → AreValid m
    → scan m addr ≡ some (j, p)
    → r.base ≡ p.base
    → r.size ≡ p.size
    → byte_at (insert j r m) a ≡ (if contains r a then byte_of r a else byte_at m a)
unfolding insert
byte_at-replace addr a [] j p r v f b z = cc
byte_at-replace addr a ((k, q) ∷ m) j p r v f b z = elim (Bool-cases (contains q addr)) [
  | inl here ↦
      let key : k ≡ j = ground arith in
      let region : q ≡ p = ground arith in
      ground
        (arith, ap (λ (t : MemoryRegion). t.size) region, ap (λ (t : MemoryRegion). t.base) region)
  | inr elsewhere ↦
      let later : scan m addr ≡ some (j, p) = ground arith in
      ground (
        arith,
        v.1.occupied,
        v.1.fits,
        scan_key (k + q.size) addr m {x = (j, p)} v.2 later,
        (scan-IsSound addr m {x = (j, p)} v.3 later).2,
        byte_at-replace addr a m j p r v.3 later b z,
      )
]

pub read_memory_span :
    (m : MemoryObject) (addr size : ℕ) {bs : List ℕ}
    → IsValid m
    → read_memory m addr size ≡ ok bs
    → (length bs ≡ size) × ((i : ℕ) → i < size → get_elem? bs i ≡ byte_at m.regions (addr + i))
unfolding read_memory read
read_memory_span m addr size {bs} v h = elim (Option-cases (scan m.regions addr)) [
  | inl nothing ↦ absurd (ground (arith, find_region-scan m addr v))
  | inr ((j, p), found) ↦
      let sound = (scan-IsSound addr m.regions {x = (j, p)} v found).1 in
      let reads : read p addr size ≡ ok bs = ground (arith, find_region-scan m addr v) in
      let (counted, same) = read_bytes p addr size {bs = bs} sound reads in
      (
        counted,
        λ i below. same i below ∙ sym (byte_at-span m addr size i j p v found sound reads below),
      )
]
  where
    byte_at-span :
        (m : MemoryObject) (addr size i j : ℕ) (p : MemoryRegion) {bs : List ℕ}
        → IsValid m
        → scan m.regions addr ≡ some (j, p)
        → IsSound p
        → read p addr size ≡ ok bs
        → i < size
        → byte_at m.regions (addr + i) ≡ byte_of p (addr + i)
    byte_at-span m addr size i j p v found s reads below =
        elim (Bool-cases (in_bounds p addr size)) [
          | inr outside ↦ absurd (ground arith)
          | inl inside ↦
              let here : contains p (addr + i) ≡ true = ground (arith, s.fits) in
              rw
                (
                  byte_at-scan (addr + i) m.regions,
                  scan_same addr (addr + i) m.regions j p v found here,
                )
                refl
        ]

-- A read that succeeds gives as many bytes as were asked for, and they are those of the memory at
-- the consecutive addresses.
pub read_memory_bytes :
    (m : MemoryObject) (addr size i : ℕ) {bs : List ℕ}
    → IsValid m
    → read_memory m addr size ≡ ok bs
    → (length bs ≡ size)
      × (get_elem? bs i ≡ (if ltb i size then byte_at m.regions (addr + i) else none))
read_memory_bytes m addr size i {bs} v h =
    let (counted, same) = read_memory_span m addr size {bs = bs} v h in
    (
      counted,
      elim (Bool-cases (ltb i size)) [
        | inl below ↦ rw below (same i (ground arith))
        | inr beyond ↦ rw beyond (get_elem?-beyond bs i (ground (arith, counted)))
      ],
    )

-- In a valid memory, where each region is not empty, has as many bytes as its size, does not wrap, is
-- stored under its base and ends before the next one starts, a write that succeeds changes the bytes
-- of its span to those of the chunk, and no other byte of the memory.
pub write_memory_bytes :
    (m : MemoryObject) {m' : MemoryObject} (addr : ℕ) (chunk : List ℕ) (a : ℕ)
    → IsValid m
    → write_memory m addr chunk ≡ ok m'
    → byte_at m'.regions a ≡ (
        if leb addr a && ltb a (addr + length chunk)
        then get_elem? chunk (a - addr)
        else byte_at m.regions a)
unfolding write
write_memory_bytes m {m'} addr chunk a v h =
    let w = write_memory-Written m {m' = m'} addr chunk v h in
    let sound = (scan-IsSound addr m.regions v w.found).1 in
    let (base, size, s, bytes) = write_bytes w.before w.after addr chunk sound w.wrote in
    rw (w.stored, byte_at-replace addr a m.regions w.key w.before w.after v w.found base size)
      (in_region m.regions addr a w.key w.before w.after chunk v w.found base size w.wrote
        (bytes a))
  where
    in_region :
        (m : BTreeMap MemoryRegion) (addr a j : ℕ) (p r : MemoryRegion) (chunk : List ℕ)
        → AreValid m
        → scan m addr ≡ some (j, p)
        → r.base ≡ p.base
        → r.size ≡ p.size
        → write p addr chunk ≡ ok r
        → byte_of r a ≡ (
            if leb addr a && ltb a (addr + length chunk)
            then get_elem? chunk (a - addr)
            else byte_of p a)
        → (if contains r a then byte_of r a else byte_at m a) ≡ (
            if leb addr a && ltb a (addr + length chunk)
            then get_elem? chunk (a - addr)
            else byte_at m a)
    in_region m addr a j p r chunk v found base size wrote e =
        let s = (scan-IsSound addr m {x = (j, p)} v found).1 in
        elim (Bool-cases (contains p a)) [
          | inl here ↦
              let same : byte_at m a ≡ byte_of p a =
                rw (byte_at-scan a m, scan_same addr a m j p v found here) refl in
              ground arith
          | inr elsewhere ↦ ground (arith, s.fits)
        ]

-- Adding named memory adds the bytes given, and changes no other byte of the memory, if there is at
-- least one byte and the end of the span does not wrap.
pub add_named_memory_bytes :
    (m : MemoryObject) {m' : MemoryObject} (base : ℕ) (bytes : List ℕ) (permissions : ℕ)
    (name : Option String) (a : ℕ)
    → IsValid m
    → 0 < length bytes
    → base + length bytes < u64_mod
    → add_named_memory m base bytes permissions name ≡ ok m'
    → byte_at m'.regions a ≡ (
        if leb base a && ltb a (base + length bytes)
        then get_elem? bytes (a - base)
        else byte_at m.regions a)
unfolding add_named_memory with_data
add_named_memory_bytes m {m'} base bytes permissions name a v p f h =
    let r : MemoryRegion = record (with_data base bytes permissions) { name = name } in
    let s : IsSound r = record { counted = refl; occupied = p; fits = f } in
    elim (Bool-cases (overlaps_any m.regions base (length bytes))) [
      | inl overlap ↦ absurd (ground arith)
      | inr apart ↦
          let same : record { regions = insert base r m.regions } ≡ m' = ground arith in
          ap (λ (t : MemoryObject). byte_at t.regions a) (sym same)
          ∙ byte_at-insert base a r m.regions v refl s apart
          ∙ ground arith
    ]
