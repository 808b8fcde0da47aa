-- ===== src/Core/Locations/Containing.antt =====
-- src/core/locations.rs, `get_containing`.
use vivisect_rs.Base.{
  ℕ, ◌+◌, ◌≤◌, ◌<◌, true, false, Option, none, some, List, [], ◌∷◌, ◌++◌, if◌then◌else◌, ◌≡◌, refl,
  ◌∙◌, arith, inl, inr, Option-cases,
}
use vivisect_rs.Word.{u64_mod}
use vivisect_rs.BTreeMap.{insert, floor}
use vivisect_rs.BTreeMap.Laws.{floor-le}
use vivisect_rs.Core.Locations.{
  Location, Locations, covers_addr, add, up_to, containing_loop, get_containing,
}

-- Every location is stored under its start.
abbrev pub AreKeyed : Locations → Type 0
AreKeyed [] = Unit
AreKeyed ((k, l) ∷ m) = (l.va ≡ k) × AreKeyed m

-- The location of an entry, if it contains the address.
abbrev pub if_covers : ℕ → Option (ℕ × Location) → Option Location
if_covers addr none = none
if_covers addr (some (k, l)) = if covers_addr l addr then some l else none

abbrev first_of : List Location → Option Location
first_of [] = none
first_of (l ∷ ls) = some l

abbrev location_of : Option (ℕ × Location) → Option Location
location_of none = none
location_of (some (k, l)) = some l

first_of-append :
    (ls : List Location) (l : Location)
    → first_of (ls ++ (l ∷ [])) ≡ (elim (first_of ls) [ none ↦ some l | some x ↦ some x ])
first_of-append [] l = refl
first_of-append (x ∷ ls) l = refl

first_of-up_to : (addr : ℕ) (m : Locations) → first_of (up_to addr m) ≡ location_of (floor addr m)
unfolding floor
first_of-up_to addr [] = refl
first_of-up_to addr ((k, l) ∷ m) = elim (Option-cases (floor addr m)) [
  | inl e ↦ ground (arith, first_of-append (up_to addr m) l, first_of-up_to addr m)
  | inr (x, e) ↦ ground (arith, first_of-append (up_to addr m) l, first_of-up_to addr m)
]

-- The loop never goes past its first location: one that starts up to the address and does not
-- contain it ends before it.
loop_first :
    (addr : ℕ) (ls : List Location) (l : Location)
    → first_of ls ≡ some l
    → l.va ≤ addr
    → containing_loop addr ls ≡ (if covers_addr l addr then some l else none)
loop_first addr [] l e p = cc
loop_first addr (x ∷ ls) l e p = let same : x ≡ l = ground arith in rw same (ground arith)

floor-va :
    (addr : ℕ) (m : Locations) {x : ℕ × Location}
    → AreKeyed m
    → floor addr m ≡ some x
    → x.1.va ≡ x.0
unfolding floor
floor-va addr [] v e = cc
floor-va addr ((k, l) ∷ m) {x} v e = elim (Option-cases (floor addr m)) [
  | inl nothing ↦ let same : (k, l) ≡ x = ground arith in rw (← same) v.0
  | inr (y, found) ↦ let same : y ≡ x = ground arith in rw (← same) (floor-va addr m v.1 found)
]

-- Where locations are stored under their starts, `get_containing` looks at one of them only: the one
-- that starts last at the address or before it.
pub get_containing-floor :
    (m : Locations) (addr : ℕ) → AreKeyed m → get_containing m addr ≡ if_covers addr (floor addr m)
unfolding get_containing
get_containing-floor m addr v =
    let first = first_of-up_to addr m in
    elim (Option-cases (floor addr m)) [
      | inl nothing ↦ rw nothing (no_first addr (up_to addr m) (ground (arith, first)))
      | inr ((k, l), found) ↦
          let e : first_of (up_to addr m) ≡ some l = ground (arith, first) in
          let key = floor-va addr m {x = (k, l)} v found in
          let low = floor-le addr m {e = (k, l)} found in
          rw found (loop_first addr (up_to addr m) l e (omega (arith, key, low)))
    ]
  where
    no_first : (addr : ℕ) (ls : List Location) → first_of ls ≡ none → containing_loop addr ls ≡ none
    no_first addr [] e = refl
    no_first addr (l ∷ ls) e = absurd (ground arith)

-- Every location of the map starts at `e` or later.
abbrev pub StartFrom : ℕ → Locations → Type 0
StartFrom e [] = Unit
StartFrom e ((k, l) ∷ m) = (e ≤ k) × StartFrom e m

-- Each location ends before the next one starts, and no end wraps.
abbrev pub AreApart : Locations → Type 0
AreApart [] = Unit
AreApart ((k, l) ∷ m) = (l.va ≡ k) × (k + l.size < u64_mod) × StartFrom (k + l.size) m × AreApart m

-- The scan of all locations.
abbrev pub scan_locations : Locations → ℕ → Option Location
scan_locations [] addr = none
scan_locations ((k, l) ∷ m) addr = if covers_addr l addr then some l else scan_locations m addr

AreApart-AreKeyed : (m : Locations) → AreApart m → AreKeyed m
AreApart-AreKeyed [] v = tt
AreApart-AreKeyed ((k, l) ∷ m) v = (v.0, AreApart-AreKeyed m v.3)

scan-StartFrom :
    (e addr : ℕ) (m : Locations)
    → AreApart m
    → StartFrom e m
    → addr < e
    → scan_locations m addr ≡ none
scan-StartFrom e addr [] v h p = refl
scan-StartFrom e addr ((k, l) ∷ m) v h p = ground (arith, scan-StartFrom e addr m v.3 h.1)

floor-StartFrom :
    (e addr : ℕ) (m : Locations) {x : ℕ × Location}
    → StartFrom e m
    → floor addr m ≡ some x
    → e ≤ x.0
unfolding floor
floor-StartFrom e addr [] h f = cc
floor-StartFrom e addr ((k, l) ∷ m) h f = elim (Option-cases (floor addr m)) [
  | inl nothing ↦ ground arith
  | inr (x, found) ↦ ground (arith, floor-StartFrom e addr m h.1 found)
]

if_covers-floor :
    (addr : ℕ) (m : Locations) → AreApart m → if_covers addr (floor addr m) ≡ scan_locations m addr
unfolding floor
if_covers-floor addr [] v = refl
if_covers-floor addr ((k, l) ∷ m) v = elim (Option-cases (floor addr m)) [
  | inl nothing ↦
      ground (arith, if_covers-floor addr m v.3, scan-StartFrom (k + l.size) addr m v.3 v.2)
  | inr (x, found) ↦ ground (
    arith,
    if_covers-floor addr m v.3,
    scan-StartFrom (k + l.size) addr m v.3 v.2,
    floor-StartFrom (k + l.size) addr m v.2 found,
    floor-le addr m found,
  )
]

-- Where no two locations overlap and no end wraps, `get_containing` gives the location that a scan of
-- all of them finds.
pub get_containing-scan :
    (m : Locations) (addr : ℕ) → AreApart m → get_containing m addr ≡ scan_locations m addr
get_containing-scan m addr v =
    get_containing-floor m addr (AreApart-AreKeyed m v) ∙ if_covers-floor addr m v

-- Where a location starts inside another one, an address after its end that the outer one contains is
-- not found: a scan of the two finds the outer location, and `get_containing` finds none.
pub get_containing_nested :
    (outer inner : Location) (addr : ℕ)
    → outer.va < inner.va
    → inner.va ≤ addr
    → covers_addr inner addr ≡ false
    → covers_addr outer addr ≡ true
    → (get_containing (add (add [] outer) inner) addr ≡ none)
      × (scan_locations (add (add [] outer) inner) addr ≡ some outer)
unfolding add insert get_containing
get_containing_nested outer inner addr p q e c = (ground arith, ground arith)
