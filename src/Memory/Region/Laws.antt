-- ===== src/Memory/Region/Laws.antt =====
-- src/abstractions/memory.rs: a region as a function from addresses to bytes.
use vivisect_rs.Base.{
  ℕ, zero, suc, ◌+◌, ◌-◌, ◌≤◌, ◌<◌, ◌≡◌, refl, ◌∙◌, true, ◌&&◌, Option, none, List, [], ◌∷◌, ◌++◌,
  arith, ltb, leb, if◌then◌else◌, length, take, drop, get_elem?, length-append, length-take,
  length-drop, Bool-cases, inl, inr,
}
use vivisect_rs.Word.{u64_mod}
use vivisect_rs.Error.{ok}
use vivisect_rs.Memory.Region.{MemoryRegion, contains, in_bounds, read, copy_from_slice, write}

module _ {ℓ} {A : Type ℓ} where
  pub get_elem?-take :
      (n i : ℕ) (xs : List A) → get_elem? (take n xs) i ≡ (if ltb i n then get_elem? xs i else none)
  get_elem?-take zero i xs = ground arith
  get_elem?-take (suc n) i [] = ground arith
  get_elem?-take (suc n) zero (x ∷ xs) = ground arith
  get_elem?-take (suc n) (suc i) (x ∷ xs) = get_elem?-take n i xs ∙ ground arith

  pub get_elem?-drop : (n i : ℕ) (xs : List A) → get_elem? (drop n xs) i ≡ get_elem? xs (n + i)
  get_elem?-drop zero i xs = let e : 0 + i ≡ i = omega arith in rw e
  get_elem?-drop (suc n) i [] = refl
  get_elem?-drop (suc n) i (x ∷ xs) =
      let e : suc n + i ≡ suc (n + i) = omega arith in rw e (get_elem?-drop n i xs)

  pub get_elem?-append :
      (xs ys : List A) (i : ℕ)
      → get_elem? (xs ++ ys) i
        ≡ (if ltb i (length xs) then get_elem? xs i else get_elem? ys (i - length xs))
  get_elem?-append [] ys i = ground arith
  get_elem?-append (x ∷ xs) ys zero = ground arith
  get_elem?-append (x ∷ xs) ys (suc i) = get_elem?-append xs ys i ∙ ground arith

  pub get_elem?-beyond : (xs : List A) (i : ℕ) → length xs ≤ i → get_elem? xs i ≡ none
  get_elem?-beyond [] i h = refl
  get_elem?-beyond (x ∷ xs) zero h = absurd (omega arith)
  get_elem?-beyond (x ∷ xs) (suc i) h = get_elem?-beyond xs i (omega arith)

-- A span inside the data keeps its length when it is overwritten.
pub length-copy_from_slice :
    (offset : ℕ) (chunk bytes : List ℕ)
    → offset + length chunk ≤ length bytes
    → length (copy_from_slice offset chunk bytes) ≡ length bytes
unfolding copy_from_slice
length-copy_from_slice offset chunk bytes h = omega (
  arith,
  length-append (take offset bytes) (chunk ++ drop (offset + length chunk) bytes),
  length-append chunk (drop (offset + length chunk) bytes),
  length-take offset bytes,
  length-drop (offset + length chunk) bytes,
)

-- The bytes of the span are those of the chunk, and the others stay.
pub get_elem?-copy_from_slice :
    (offset i : ℕ) (chunk bytes : List ℕ)
    → offset + length chunk ≤ length bytes
    → get_elem? (copy_from_slice offset chunk bytes) i ≡ (
        if leb offset i && ltb i (offset + length chunk)
        then get_elem? chunk (i - offset)
        else get_elem? bytes i)
unfolding copy_from_slice
get_elem?-copy_from_slice offset i chunk bytes h =
    let t : length (take offset bytes) ≡ offset = omega (arith, length-take offset bytes) in
    rw
      (
        get_elem?-append (take offset bytes) (chunk ++ drop (offset + length chunk) bytes) i,
        t,
        get_elem?-take offset i bytes,
        get_elem?-append chunk (drop (offset + length chunk) bytes) (i - offset),
        get_elem?-drop (offset + length chunk) (i - offset - length chunk) bytes,
      )
      (ground arith)

-- The byte of a region at an address.
abbrev pub byte_of : MemoryRegion → ℕ → Option ℕ
byte_of r addr = if contains r addr then get_elem? r.bytes (addr - r.base) else none

-- The size is the number of bytes, there is at least one, and the end does not wrap.
pub record IsSound (r : MemoryRegion) : Type 0 where
  pub counted : r.size ≡ length r.bytes
  pub occupied : 0 < r.size
  pub fits : r.base + r.size < u64_mod

-- What the guards of `read` and `write` leave.
pub in_bounds_lem :
    (r : MemoryRegion) (addr count : ℕ)
    → in_bounds r addr count ≡ true
    → (r.base ≤ addr) × (addr - r.base + count ≤ length r.bytes) × (addr - r.base + count ≤ r.size)
in_bounds_lem r addr count h = ground arith

-- A read gives the asked number of bytes, and each is the byte of the region at its address.
pub read_bytes :
    (r : MemoryRegion) (addr count : ℕ) {bs : List ℕ}
    → IsSound r
    → read r addr count ≡ ok bs
    → (length bs ≡ count) × ((i : ℕ) → i < count → get_elem? bs i ≡ byte_of r (addr + i))
unfolding read
read_bytes r addr count {bs} s h = elim (Bool-cases (in_bounds r addr count)) [
  | inr outside ↦ absurd (ground arith)
  | inl inside ↦
      let e : take count (drop (addr - r.base) r.bytes) ≡ bs = ground arith in
      (
        rw (← e) (
            omega (
              arith,
              length-take count (drop (addr - r.base) r.bytes),
              length-drop (addr - r.base) r.bytes,
              (in_bounds_lem r addr count inside).1,
            )),
        λ i p. rw (← e) (
            get_elem?-take count i (drop (addr - r.base) r.bytes)
            ∙ ground (
              arith,
              get_elem?-drop (addr - r.base) i r.bytes,
              in_bounds_lem r addr count inside,
            )),
      )
]

-- A write keeps the place of the region, and changes the bytes of the span alone.
pub write_bytes :
    (r r' : MemoryRegion) (addr : ℕ) (chunk : List ℕ)
    → IsSound r
    → write r addr chunk ≡ ok r'
    → (r'.base ≡ r.base)
      × (r'.size ≡ r.size)
      × IsSound r'
      × ((a : ℕ)
          → byte_of r' a ≡ (
              if leb addr a && ltb a (addr + length chunk)
              then get_elem? chunk (a - addr)
              else byte_of r a))
unfolding write
write_bytes r r' addr chunk s h = elim (Bool-cases (in_bounds r addr (length chunk))) [
  | inr outside ↦ absurd (ground arith)
  | inl inside ↦
      let offset = addr - r.base in
      let e : record r { bytes = copy_from_slice offset chunk r.bytes } ≡ r' = ground arith in
      let b = in_bounds_lem r addr (length chunk) inside in
      let l = length-copy_from_slice offset chunk r.bytes b.1 in
      rw (← e) (
        refl,
        refl,
        record { counted = omega arith; occupied = s.occupied; fits = s.fits },
        λ a. ground (arith, get_elem?-copy_from_slice offset (a - r.base) chunk r.bytes b.1),
      )
]
