-- ===== src/Core/Workspace/Lookup.antt =====
-- src/core/workspace.rs, `get_location_containing`.
use mathlib.Core.Path.{subst}
use vivisect_rs.Base.{
  ℕ, ◌+◌, ◌≤◌, ◌≡◌, ◌⊎◌, refl, sym, min, Bool, true, false, ◌&&◌, Option, none, some, List, [], ◌∷◌,
  ltb, leb, ◌==◌, if◌then◌else◌, All, Member, keep, arith, leb→le, inl, inr, Bool-cases,
}
use vivisect_rs.Word.{u64_max}
use vivisect_rs.BTreeMap.{get, values}
use vivisect_rs.IndexMap.{IndexMaps, values_of}
use vivisect_rs.Core.Locations.{Location}
use vivisect_rs.Core.Workspace.{VivWorkspace}

-- `l.va <= va && va < l.va.saturating_add(l.size)`.
abbrev pub extends_over : ℕ → Location → Bool
extends_over va l = leb l.va va && ltb va (min (l.va + l.size) u64_max)

-- `max_by_key`: the last one of the greatest.
abbrev pub later_start : Location → Option Location → Option Location
later_start l none = some l
later_start l (some best) = if leb l.va best.va then some best else some l

unfoldable pub max_by_va : List Location → Option Location
max_by_va [] = none
max_by_va (l ∷ ls) = later_start l (max_by_va ls)

module _ {I : IndexMaps} {L : Type 0} where
  unfoldable pub get_location_containing : VivWorkspace I L → ℕ → Option Location
  get_location_containing ws va = elim (I.find va ws.locations) [
    | some l ↦ some l
    | none ↦ max_by_va (keep (extends_over va) (values_of I ws.locations))
  ]

-- `l` starts at the address or extends over it, and no location that extends over it starts later.
abbrev pub IsClosest : ℕ → List Location → Location → Type 0
IsClosest va ls l =
    Member l ls
    × ((l.va ≡ va) ⊎ (extends_over va l ≡ true))
    × All (λ other. extends_over va other ≡ true → other.va ≤ l.va) ls

pub get-Member :
    (va : ℕ) (m : List (ℕ × Location)) {l : Location} → get va m ≡ some l → Member l (values m)
unfolding get values
get-Member va [] e = cc
get-Member va ((k, x) ∷ m) {l = l} e = elim (Bool-cases (va == k)) [
  | inl same ↦ inl (ground arith)
  | inr apart ↦ inr (get-Member va m {l = l} (ground arith))
]

-- No location that extends over an address starts after it.
extends_over_lem : (va : ℕ) (x : Location) → extends_over va x ≡ true → x.va ≤ va
extends_over_lem va x over = ground arith

pub ends_below :
    (va bound : ℕ) (ls : List Location)
    → va ≤ bound
    → All (λ other. extends_over va other ≡ true → other.va ≤ bound) ls
ends_below va bound [] le = tt
ends_below va bound (x ∷ ls) le =
    (λ over. omega (arith, extends_over_lem va x over), ends_below va bound ls le)

ends_later :
    (va low bound : ℕ) (ls : List Location)
    → low ≤ bound
    → All (λ other. extends_over va other ≡ true → other.va ≤ low) ls
    → All (λ other. extends_over va other ≡ true → other.va ≤ bound) ls
ends_later va low bound [] le h = tt
ends_later va low bound (x ∷ ls) le h =
    (λ over. omega (arith, h.0 over), ends_later va low bound ls le h.1)

-- What the scan gives.
abbrev pub IsScan : ℕ → List Location → Option Location → Type 0
IsScan va ls none = All (λ other. extends_over va other ≡ false) ls
IsScan va ls (some l) = IsClosest va ls l

not_over : (b : Bool) → b ≡ false → b ≡ true → ⊥
not_over b h h' = ground arith

ends_none :
    (va bound : ℕ) (ls : List Location)
    → All (λ other. extends_over va other ≡ false) ls
    → All (λ other. extends_over va other ≡ true → other.va ≤ bound) ls
ends_none va bound [] h = tt
ends_none va bound (x ∷ ls) h =
    (λ over. absurd (not_over (extends_over va x) h.0 over), ends_none va bound ls h.1)

skip-IsScan :
    (va : ℕ) (x : Location) (ls : List Location) (o : Option Location)
    → extends_over va x ≡ false
    → IsScan va ls o
    → IsScan va (x ∷ ls) o
skip-IsScan va x ls none out h = (out, h)
skip-IsScan va x ls (some l) out (m, why, all) =
    (inr m, why, (λ over. absurd (not_over (extends_over va x) out over), all))

later_start-IsScan :
    (va : ℕ) (x : Location) (ls : List Location) (o : Option Location)
    → extends_over va x ≡ true
    → IsScan va ls o
    → IsScan va (x ∷ ls) (later_start x o)
later_start-IsScan va x ls none over h =
    (inl refl, inr over, (λ same. omega arith, ends_none va x.va ls h))
later_start-IsScan va x ls (some l) over (m, why, all) = elim (Bool-cases (leb x.va l.va)) [
  | inl below ↦ rw below (inr m, why, (λ same. leb→le x.va l.va below, all))
  | inr above ↦ rw above (
    inl refl,
    inr over,
    (λ same. omega arith, ends_later va l.va x.va ls (above_lem x.va l.va above) all),
  )
]
  where
    above_lem : (a b : ℕ) → leb a b ≡ false → b ≤ a
    above_lem a b h = ground arith

pub max_by_va-IsScan :
    (va : ℕ) (ls : List Location) → IsScan va ls (max_by_va (keep (extends_over va) ls))
unfolding max_by_va
max_by_va-IsScan va [] = tt
max_by_va-IsScan va (x ∷ ls) = elim (Bool-cases (extends_over va x)) [
  | inl over ↦
      subst
        (λ b.
          IsScan va (x ∷ ls)
            (max_by_va (if b then x ∷ keep (extends_over va) ls else keep (extends_over va) ls)))
        (sym over)
        (later_start-IsScan va x ls (max_by_va (keep (extends_over va) ls)) over
          (max_by_va-IsScan va ls))
  | inr out ↦
      subst
        (λ b.
          IsScan va (x ∷ ls)
            (max_by_va (if b then x ∷ keep (extends_over va) ls else keep (extends_over va) ls)))
        (sym out)
        (skip-IsScan va x ls (max_by_va (keep (extends_over va) ls)) out (max_by_va-IsScan va ls))
]
