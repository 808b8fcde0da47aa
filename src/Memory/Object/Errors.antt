-- ===== src/Memory/Object/Errors.antt =====
-- src/envi/memory.rs: the errors of the memory object, and a read after a write.
use vivisect_rs.Base.{
  ℕ, suc, ◌+◌, ◌≤◌, ◌<◌, ◌≡◌, ◌↔◌, refl, ap, ◌∙◌, Bool, true, false, Option, none, some, List, [],
  ◌∷◌, arith, leb, length, get_elem?, is_some, Option-cases, inl, inr, Bool-cases,
}
use vivisect_rs.Word.{u64_mod}
use vivisect_rs.Error.{VivResult, ok, err, invalid_memory, VivResult-cases}
use vivisect_rs.BTreeMap.{BTreeMap, insert}
use vivisect_rs.Memory.Region.{MemoryRegion, contains, overlaps, read, write}
use vivisect_rs.Memory.Region.Laws.{write_bytes}
use vivisect_rs.Memory.Object.{
  MemoryObject, region_of, overlaps_any, add_memory, find_region, read_memory, write_memory,
  is_valid_address,
}
use vivisect_rs.Memory.Object.Lookup.{
  AreValid, IsValid, scan, scan_key, scan-IsSound, find_region-scan, find_region_mut-scan,
}
use vivisect_rs.Memory.Object.Valid.{write_memory-Written, write_memory-IsValid}
use vivisect_rs.Memory.Object.Bytes.{read_memory_span, write_memory_bytes}

-- Whether a span that starts in a region ends in it.
abbrev pub covers : Option MemoryRegion → ℕ → ℕ → Bool
covers none addr size = false
covers (some r) addr size = leb (addr + size) (r.base + r.size)

abbrev pub is_ok {ℓ} : {A : Type ℓ} → VivResult A → Bool
is_ok (ok a) = true
is_ok (err e) = false

-- In a valid memory a read succeeds exactly when its span ends in the region that contains its
-- first address, and so does a write.
pub read_memory-is_ok :
    (m : MemoryObject) (addr size : ℕ) (chunk : List ℕ)
    → IsValid m
    → (is_ok (read_memory m addr size) ≡ covers (find_region m addr) addr size)
      × (is_ok (write_memory m addr chunk) ≡ covers (find_region m addr) addr (length chunk))
unfolding read_memory write_memory read write
read_memory-is_ok m addr size chunk v =
    let e = find_region-scan m addr v in
    let e' = find_region_mut-scan m addr v in
    elim (Option-cases (scan m.regions addr)) [
      | inl nothing ↦ (ground arith, ground (arith, e'))
      | inr ((j, p), found) ↦
          let (here, s, base) = scan-IsSound addr m.regions {x = (j, p)} v found in
          (
            rw (e, found) (ground (arith, s.fits, s.counted)),
            ground (arith, e, e', s.fits, s.counted),
          )
    ]

overlap_shared :
    (base size : ℕ) (m : BTreeMap MemoryRegion)
    → AreValid m
    → 0 < size
    → base + size < u64_mod
    → overlaps_any m base size ≡ true
    → (a : ℕ) × (base ≤ a) × (a < base + size) × (is_some (scan m a) ≡ true)
overlap_shared base size [] v p f o = absurd (ground arith)
overlap_shared base size ((k, r) ∷ m) v p f o = elim (Bool-cases (overlaps r base size)) [
  | inr apart ↦
      let (a, lo, hi, mapped) = overlap_shared base size m v.3 p f (ground arith) in
      (a, lo, hi, ground arith)
  | inl shared ↦ elim (Bool-cases (leb base r.base)) [
    | inl first ↦
        (r.base, ground arith, ground (arith, v.1.fits), ground (arith, v.1.fits, v.1.occupied))
    | inr second ↦ (base, omega arith, omega arith, ground (arith, v.1.fits, v.1.occupied))
  ]
]

shared_overlap :
    (base size a : ℕ) (m : BTreeMap MemoryRegion)
    → AreValid m
    → base + size < u64_mod
    → base ≤ a
    → a < base + size
    → is_some (scan m a) ≡ true
    → overlaps_any m base size ≡ true
shared_overlap base size a [] v f lo hi mapped = mapped
shared_overlap base size a ((k, r) ∷ m) v f lo hi mapped =
    ground (arith, v.1.fits, shared_overlap base size a m v.3 f lo hi)

-- In a valid memory `add_memory` refuses bytes exactly when an address of their span is mapped
-- already, if there is at least one byte and the end of the span does not wrap.
pub add_memory-refused :
    (m : MemoryObject) (base : ℕ) (bytes : List ℕ) (permissions : ℕ)
    → IsValid m
    → 0 < length bytes
    → base + length bytes < u64_mod
    → (add_memory m base bytes permissions ≡ err (invalid_memory base))
      ↔ ((a : ℕ) × (base ≤ a) × (a < base + length bytes) × (is_valid_address m a ≡ true))
unfolding add_memory is_valid_address
add_memory-refused m base bytes permissions v p f = (
  λ refused.
      let (a, lo, hi, mapped) =
        overlap_shared base (length bytes) m.regions v p f
          (elim (Bool-cases (overlaps_any m.regions base (length bytes))) [
            | inl o ↦ o
            | inr o ↦ absurd (ground arith)
          ]) in
      (a, lo, hi, rw (find_region-scan m a v) (scan_mapped a m.regions mapped)),
  λ (a, lo, hi, valid).
      let o =
        shared_overlap base (length bytes) a m.regions v f lo hi
          (mapped_scan a m.regions (rw (← find_region-scan m a v) valid)) in
      rw o refl,
)
  where
    scan_mapped :
        (a : ℕ) (m : BTreeMap MemoryRegion)
        → is_some (scan m a) ≡ true
        → is_some (region_of (scan m a)) ≡ true
    scan_mapped a m h = elim (Option-cases (scan m a)) [
      | inl e ↦ ground arith
      | inr (x, e) ↦ rw e refl
    ]

    mapped_scan :
        (a : ℕ) (m : BTreeMap MemoryRegion)
        → is_some (region_of (scan m a)) ≡ true
        → is_some (scan m a) ≡ true
    mapped_scan a m h = elim (Option-cases (scan m a)) [
      | inl e ↦ ground arith
      | inr (x, e) ↦ rw e refl
    ]

-- The bytes of a list decide it.
get_elem?-ext :
    (xs ys : List ℕ)
    → length xs ≡ length ys
    → ((i : ℕ) → i < length ys → get_elem? xs i ≡ get_elem? ys i)
    → xs ≡ ys
get_elem?-ext [] [] l e = refl
get_elem?-ext [] (y ∷ ys) l e = absurd (omega arith)
get_elem?-ext (x ∷ xs) [] l e = absurd (omega arith)
get_elem?-ext (x ∷ xs) (y ∷ ys) l e =
    let head = e 0 (omega arith) in
    ground (arith, head, get_elem?-ext xs ys (omega arith) (λ i p. e (suc i) (omega arith)))

scan-replace :
    (addr : ℕ) (m : BTreeMap MemoryRegion) (j : ℕ) (p r : MemoryRegion)
    → AreValid m
    → scan m addr ≡ some (j, p)
    → r.base ≡ p.base
    → r.size ≡ p.size
    → scan (insert j r m) addr ≡ some (j, r)
unfolding insert
scan-replace addr [] j p r v f b z = cc
scan-replace addr ((k, q) ∷ m) j p r v f b z = elim (Bool-cases (contains q addr)) [
  | inl here ↦
      let key : k ≡ j = ground arith in
      let region : q ≡ p = ground arith in
      ground
        (arith, ap (λ (t : MemoryRegion). t.size) region, ap (λ (t : MemoryRegion). t.base) region)
  | inr elsewhere ↦
      let later : scan m addr ≡ some (j, p) = ground arith in
      ground (
        arith,
        v.1.occupied,
        scan_key (k + q.size) addr m {x = (j, p)} v.2 later,
        scan-replace addr m j p r v.3 later b z,
      )
]

-- The region found after a write covers what the region found before it did.
covers-write :
    (m : MemoryObject) {m' : MemoryObject} (addr : ℕ) (chunk : List ℕ)
    → IsValid m
    → write_memory m addr chunk ≡ ok m'
    → covers (find_region m' addr) addr (length chunk) ≡ true
covers-write m {m'} addr chunk v h =
    let w = write_memory-Written m {m' = m'} addr chunk v h in
    let sound = (scan-IsSound addr m.regions v w.found).1 in
    let (base, size, s, bytes) = write_bytes w.before w.after addr chunk sound w.wrote in
    let valid = write_memory-IsValid m {m' = m'} addr chunk v h in
    let covered : covers (find_region m addr) addr (length chunk) ≡ true =
      rw (← (read_memory-is_ok m addr 0 chunk v).1, h) refl in
    let before : leb (addr + length chunk) (w.before.base + w.before.size) ≡ true =
      ground (arith, find_region-scan m addr v, w.found, covered) in
    rw
      (
        find_region-scan m' addr valid,
        w.stored,
        scan-replace addr m.regions w.key w.before w.after v w.found base size,
        base,
        size,
      )
      before

-- In a valid memory, where each region is not empty, has as many bytes as its size, does not wrap, is
-- stored under its base and ends before the next one starts, a read of the span of a write that
-- succeeded gives back what the write has stored.
pub read_memory-write_memory :
    (m : MemoryObject) {m' : MemoryObject} (addr : ℕ) (chunk : List ℕ)
    → IsValid m
    → write_memory m addr chunk ≡ ok m'
    → read_memory m' addr (length chunk) ≡ ok chunk
read_memory-write_memory m {m'} addr chunk v h =
    let valid = write_memory-IsValid m {m' = m'} addr chunk v h in
    elim (VivResult-cases (read_memory m' addr (length chunk))) [
      | inr (e, failed) ↦ absurd (
          ground (
            arith,
            (read_memory-is_ok m' addr (length chunk) chunk valid).0,
            covers-write m {m' = m'} addr chunk v h,
          ))
      | inl (bs, reads) ↦
          let (counted, same) = read_memory_span m' addr (length chunk) {bs = bs} valid reads in
          let e : bs ≡ chunk = get_elem?-ext bs chunk counted (λ i below.
            same i below
            ∙ ground (arith, write_memory_bytes m {m' = m'} addr chunk (addr + i) v h)) in
          reads ∙ ap ok e
    ]
