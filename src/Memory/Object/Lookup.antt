-- ===== src/Memory/Object/Lookup.antt =====
-- src/envi/memory.rs, the lookup of a region by the greatest base address, and a scan of all regions.
use vivisect_rs.Base.{
  ℕ, ◌+◌, ◌≤◌, ◌<◌, ◌≡◌, refl, ap, true, Option, none, some, [], ◌∷◌, arith, if◌then◌else◌,
  Option-cases, inl, inr, Bool-cases,
}
use vivisect_rs.BTreeMap.{BTreeMap, KeysAbove, IsSorted, get, floor}
use vivisect_rs.BTreeMap.Laws.{floor-le}
use vivisect_rs.Memory.Region.{MemoryRegion, contains}
use vivisect_rs.Memory.Region.Laws.{IsSound, byte_of}
use vivisect_rs.Memory.Object.{
  MemoryObject, filter_containing, region_of, find_entry, find_region, find_region_mut,
}

-- Every region of the map starts at `e` or later.
abbrev pub StartsAfter : ℕ → BTreeMap MemoryRegion → Type 0
StartsAfter e [] = Unit
StartsAfter e ((k, r) ∷ m) = (e ≤ k) × StartsAfter e m

-- Each region is sound, is stored under its base, and ends before the next one starts.
abbrev pub AreValid : BTreeMap MemoryRegion → Type 0
AreValid [] = Unit
AreValid ((k, r) ∷ m) = (r.base ≡ k) × IsSound r × StartsAfter (k + r.size) m × AreValid m

abbrev pub IsValid : MemoryObject → Type 0
IsValid m = AreValid m.regions

-- The scan: the first region that contains the address.
abbrev pub scan : BTreeMap MemoryRegion → ℕ → Option (ℕ × MemoryRegion)
scan [] addr = none
scan ((k, r) ∷ m) addr = if contains r addr then some (k, r) else scan m addr

pub StartsAfter-mono :
    (d e : ℕ) (m : BTreeMap MemoryRegion) → d ≤ e → StartsAfter e m → StartsAfter d m
StartsAfter-mono d e [] p h = tt
StartsAfter-mono d e ((k, r) ∷ m) p h = (omega arith, StartsAfter-mono d e m p h.1)

scan-StartsAfter :
    (e addr : ℕ) (m : BTreeMap MemoryRegion)
    → AreValid m
    → StartsAfter e m
    → addr < e
    → scan m addr ≡ none
scan-StartsAfter e addr [] v h p = refl
scan-StartsAfter e addr ((k, r) ∷ m) v h p = ground (arith, scan-StartsAfter e addr m v.3 h.1)

floor-StartsAfter :
    (e addr : ℕ) (m : BTreeMap MemoryRegion) {x : ℕ × MemoryRegion}
    → StartsAfter e m
    → floor addr m ≡ some x
    → e ≤ x.0
unfolding floor
floor-StartsAfter e addr [] h f = cc
floor-StartsAfter e addr ((k, r) ∷ m) h f = elim (Option-cases (floor addr m)) [
  | inl nothing ↦ ground arith
  | inr (x, found) ↦ ground (arith, floor-StartsAfter e addr m h.1 found)
]

pub AreValid-IsSorted : (m : BTreeMap MemoryRegion) → AreValid m → IsSorted m
AreValid-IsSorted [] v = tt
AreValid-IsSorted ((k, r) ∷ m) v =
    (above k (k + r.size) m (grind arith) v.2, AreValid-IsSorted m v.3)
  where
    above : (k e : ℕ) (m : BTreeMap MemoryRegion) → k < e → StartsAfter e m → KeysAbove k m
    above k e [] p h = tt
    above k e ((j, r) ∷ m) p h = (omega arith, above k e m p h.1)

find_entry_scan :
    (addr : ℕ) (m : BTreeMap MemoryRegion)
    → AreValid m
    → filter_containing addr (floor addr m) ≡ scan m addr
unfolding floor
find_entry_scan addr [] v = refl
find_entry_scan addr ((k, r) ∷ m) v = elim (Option-cases (floor addr m)) [
  | inl nothing ↦
      ground (arith, find_entry_scan addr m v.3, scan-StartsAfter (k + r.size) addr m v.3 v.2)
  | inr (x, found) ↦ ground (
    arith,
    find_entry_scan addr m v.3,
    scan-StartsAfter (k + r.size) addr m v.3 v.2,
    floor-StartsAfter (k + r.size) addr m v.2 found,
    floor-le addr m found,
  )
]

-- In a valid memory the region that `find_region` gives is the one that a scan of all regions, in
-- ascending order, meets first.
pub find_region-scan :
    (m : MemoryObject) (addr : ℕ) → IsValid m → find_region m addr ≡ region_of (scan m.regions addr)
unfolding find_region find_entry
find_region-scan m addr v = ap region_of (find_entry_scan addr m.regions v)

pub scan_key :
    (e addr : ℕ) (m : BTreeMap MemoryRegion) {x : ℕ × MemoryRegion}
    → StartsAfter e m
    → scan m addr ≡ some x
    → e ≤ x.0
scan_key e addr [] h f = cc
scan_key e addr ((k, r) ∷ m) {x} h f = ground (arith, scan_key e addr m {x = x} h.1)

pub get-scan :
    (addr : ℕ) (m : BTreeMap MemoryRegion) {x : ℕ × MemoryRegion}
    → AreValid m
    → scan m addr ≡ some x
    → get x.0 m ≡ some x.1
unfolding get
get-scan addr [] v e = cc
get-scan addr ((k, r) ∷ m) {x} v e =
    ground
      (arith, v.1.occupied, get-scan addr m {x = x} v.3, scan_key (k + r.size) addr m {x = x} v.2)

-- The mutable lookup finds the same entry.
pub find_region_mut-scan :
    (m : MemoryObject) (addr : ℕ) → IsValid m → find_region_mut m addr ≡ scan m.regions addr
unfolding find_region_mut find_entry
find_region_mut-scan m addr v =
    let e = find_entry_scan addr m.regions v in
    elim (Option-cases (scan m.regions addr)) [
      | inl nothing ↦ ground arith
      | inr (x, found) ↦ ground (arith, get-scan addr m.regions v found)
    ]

-- What the scan finds is a sound region that contains the address.
pub scan-IsSound :
    (addr : ℕ) (m : BTreeMap MemoryRegion) {x : ℕ × MemoryRegion}
    → AreValid m
    → scan m addr ≡ some x
    → (contains x.1 addr ≡ true) × IsSound x.1 × (x.1.base ≡ x.0)
scan-IsSound addr [] v e = cc
scan-IsSound addr ((k, r) ∷ m) {x} v e = elim (Bool-cases (contains r addr)) [
  | inl here ↦ let same : (k, r) ≡ x = ground arith in rw (← same) (here, v.1, v.0)
  | inr elsewhere ↦ scan-IsSound addr m v.3 (ground arith)
]

-- The byte of a memory at an address, the abstract view of the regions.
abbrev pub byte_at : BTreeMap MemoryRegion → ℕ → Option ℕ
byte_at [] addr = none
byte_at ((k, r) ∷ m) addr = if contains r addr then byte_of r addr else byte_at m addr

pub byte_at-scan :
    (addr : ℕ) (m : BTreeMap MemoryRegion)
    → byte_at m addr ≡ (elim (scan m addr) [ none ↦ none | some x ↦ byte_of x.1 addr ])
byte_at-scan addr [] = refl
byte_at-scan addr ((k, r) ∷ m) = ground (arith, byte_at-scan addr m)
