-- ===== src/Memory/Object/Snapshot.antt =====
-- src/envi/memory.rs: snapshots of a memory object, and the removal of a region.
use vivisect_rs.Base.{
  ℕ, ◌+◌, ◌≤◌, ◌<◌, ◌≡◌, refl, sym, ap, ◌∙◌, none, some, [], ◌∷◌, ◌++◌, arith, ◌==◌, if◌then◌else◌,
  inl, inr, Bool-cases,
}
use vivisect_rs.Error.{ok}
use vivisect_rs.BTreeMap.{BTreeMap, KeysAbove, get, insert, remove, values}
use vivisect_rs.Memory.Region.{MemoryRegion, contains}
use vivisect_rs.Memory.Object.{
  MemoryObject, snapshot_memory, insert_all, restore_memory, remove_memory_map,
}
use vivisect_rs.Memory.Object.Lookup.{StartsAfter, AreValid, IsValid, AreValid-IsSorted, byte_at}

-- Every key of the map is below `k`.
abbrev KeysBelow : ℕ → BTreeMap MemoryRegion → Type 0
KeysBelow k [] = Unit
KeysBelow k ((j, r) ∷ m) = (j < k) × KeysBelow k m

insert-KeysBelow :
    (k : ℕ) (r : MemoryRegion) (m : BTreeMap MemoryRegion)
    → KeysBelow k m
    → insert k r m ≡ m ++ ((k, r) ∷ [])
unfolding insert
insert-KeysBelow k r [] b = refl
insert-KeysBelow k r ((j, q) ∷ m) b = ground (arith, insert-KeysBelow k r m b.1)

KeysBelow-append :
    (k j : ℕ) (r : MemoryRegion) (m : BTreeMap MemoryRegion)
    → KeysBelow j m
    → j < k
    → KeysBelow k (m ++ ((j, r) ∷ []))
KeysBelow-append k j r [] b p = (p, tt)
KeysBelow-append k j r ((i, q) ∷ m) b p = (omega arith, KeysBelow-append k j r m b.1 p)

pub append-cons :
    (x : ℕ × MemoryRegion) (xs ys : BTreeMap MemoryRegion) → (xs ++ (x ∷ [])) ++ ys ≡ xs ++ (x ∷ ys)
append-cons x [] ys = refl
append-cons x (y ∷ xs) ys = rw (append-cons x xs ys) refl

abbrev AllBelow : BTreeMap MemoryRegion → BTreeMap MemoryRegion → Type 0
AllBelow m [] = Unit
AllBelow m ((k, r) ∷ n) = KeysBelow k m × AllBelow m n

AllBelow-append :
    (j : ℕ) (r : MemoryRegion) (m n : BTreeMap MemoryRegion)
    → AllBelow m n
    → KeysAbove j n
    → KeysBelow j m
    → AllBelow (m ++ ((j, r) ∷ [])) n
AllBelow-append j r m [] b a k = tt
AllBelow-append j r m ((i, q) ∷ n) b a k =
    (KeysBelow-append i j r m k a.0, AllBelow-append j r m n b.1 a.1 k)

-- The regions of a valid map, inserted in order after a map of lower keys.
insert_all-values :
    (m n : BTreeMap MemoryRegion) → AreValid n → AllBelow m n → insert_all (values n) m ≡ m ++ n
unfolding insert_all values
insert_all-values m [] v b = append_nil m
  where
    append_nil : (m : BTreeMap MemoryRegion) → m ≡ m ++ []
    append_nil [] = refl
    append_nil (x ∷ m) = ap (λ t. x ∷ t) (append_nil m)
insert_all-values m ((k, r) ∷ n) v b =
    let above = (AreValid-IsSorted ((k, r) ∷ n) v).0 in
    let key = ap (λ t. insert t r m) v.0 ∙ insert-KeysBelow k r m b.0 in
    ap (insert_all (values n)) key
    ∙ insert_all-values (m ++ ((k, r) ∷ [])) n v.3 (AllBelow-append k r m n b.1 above b.0)
    ∙ append-cons (k, r) m n

AllBelow-nil : (n : BTreeMap MemoryRegion) → AllBelow [] n
AllBelow-nil [] = tt
AllBelow-nil ((k, r) ∷ n) = (tt, AllBelow-nil n)

-- The snapshot of a valid memory, restored into any memory, gives the valid memory back.
pub restore_memory-snapshot_memory :
    (m current : MemoryObject) → IsValid m → restore_memory (snapshot_memory m) current ≡ m
unfolding restore_memory snapshot_memory
restore_memory-snapshot_memory m current v =
    ap (λ t. record { regions = t }) (insert_all-values [] m.regions v (AllBelow-nil m.regions))

get-StartsAfter :
    (e base : ℕ) (m : BTreeMap MemoryRegion) {r : MemoryRegion}
    → StartsAfter e m
    → get base m ≡ some r
    → e ≤ base
unfolding get
get-StartsAfter e base [] h g = cc
get-StartsAfter e base ((k, q) ∷ m) {r} h g = ground (arith, get-StartsAfter e base m {r = r} h.1)

byte_at-below :
    (e a : ℕ) (m : BTreeMap MemoryRegion)
    → AreValid m
    → StartsAfter e m
    → a < e
    → byte_at m a ≡ none
byte_at-below e a [] v h p = refl
byte_at-below e a ((k, q) ∷ m) v h p = ground (arith, v.0, byte_at-below e a m v.3 h.1 p)

byte_at-remove :
    (base a : ℕ) (m : BTreeMap MemoryRegion) (r : MemoryRegion)
    → AreValid m
    → get base m ≡ some r
    → byte_at (remove base m) a ≡ (if contains r a then none else byte_at m a)
unfolding remove get
byte_at-remove base a [] r v g = cc
byte_at-remove base a ((k, q) ∷ m) r v g = elim (Bool-cases (base == k)) [
  | inl here ↦
      let region : q ≡ r = ground arith in
      rw (← region, here) (ground (arith, v.0, v.1.fits, byte_at-below (k + q.size) a m v.3 v.2))
  | inr elsewhere ↦
      let later : get base m ≡ some r = ground arith in
      let base_of = get-base base m r v.3 later in
      ground (
        arith,
        v.0,
        v.1.fits,
        base_of,
        get-StartsAfter (k + q.size) base m {r = r} v.2 later,
        byte_at-remove base a m r v.3 later,
      )
]
  where
    get-base :
        (base : ℕ) (m : BTreeMap MemoryRegion) (r : MemoryRegion)
        → AreValid m
        → get base m ≡ some r
        → r.base ≡ base
    get-base base [] r v g = cc
    get-base base ((k, q) ∷ m) r v g = elim (Bool-cases (base == k)) [
      | inl here ↦ let region : q ≡ r = ground arith in rw (← region) (ground (arith, v.0))
      | inr elsewhere ↦ get-base base m r v.3 (ground arith)
    ]

-- Removing the region of a base address unmaps the addresses of that region, and changes no other
-- byte of the memory.
pub remove_memory_map_bytes :
    (m : MemoryObject) {m' : MemoryObject} (base a : ℕ) (r : MemoryRegion)
    → IsValid m
    → get base m.regions ≡ some r
    → remove_memory_map m base ≡ ok m'
    → byte_at m'.regions a ≡ (if contains r a then none else byte_at m.regions a)
unfolding remove_memory_map
remove_memory_map_bytes m {m'} base a r v g h =
    let same : record { regions = remove base m.regions } ≡ m' = ground arith in
    ap (λ (t : MemoryObject). byte_at t.regions a) (sym same)
    ∙ byte_at-remove base a m.regions r v g
