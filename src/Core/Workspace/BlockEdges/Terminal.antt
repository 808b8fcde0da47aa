-- ===== src/Core/Workspace/BlockEdges/Terminal.antt =====
-- src/core/workspace.rs, `find_terminal_instruction`: its loop ends.
use mathlib.Core.Option
use vivisect_rs.Base.{
  ℕ, zero, suc, ◌+◌, ◌-◌, ◌≤◌, ◌<◌, ◌≡◌, refl, ap, Option, none, some, List, drop, take, length,
  length-take, ltb, leb, if◌then◌else◌, arith, Bool, is_some, true, false,
}
use vivisect_rs.Word.{u64_mod, wrapping_add, wrapping_sub}
use vivisect_rs.Error.{VivError, invalid_memory, VivResult, ok, err}
use vivisect_rs.Memory.Object.{MemoryObject, read_memory, find_region}
use vivisect_rs.Memory.Region.{MemoryRegion, read, in_bounds}
use vivisect_rs.IndexMap.{IndexMaps}
use vivisect_rs.Core.Workspace.{VivWorkspace}
use vivisect_rs.Core.Workspace.BlockEdges.{
  Decoded, Decoder, mode_of, terminal_loop, find_terminal_instruction,
}

-- A read gives at most the bytes that it was asked for.
bounded_lem :
    (b : Bool) (n : ℕ) (xs : List ℕ) (e : VivError) {bs : List ℕ}
    → (if b then ok (take n xs) else err e) ≡ ok bs
    → length bs ≤ n
bounded_lem true n xs e h = omega (
  arith,
  length-take n xs,
  ap (λ (r : VivResult (List ℕ)). elim r as (λ x. ℕ) [ ok ys ↦ length ys | err x ↦ 0 ]) h,
)
bounded_lem false n xs e h = cc

read_memory-length :
    (m : MemoryObject) (va n : ℕ) (bs : List ℕ) → read_memory m va n ≡ ok bs → length bs ≤ n
unfolding read_memory read
read_memory-length m va n bs = by_region (find_region m va)
  where
    by_region :
        (o : Option MemoryRegion)
        → (elim o as (λ x. VivResult (List ℕ)) [
          | none ↦ err (invalid_memory va)
          | some r ↦ read r va n
        ])
          ≡ ok bs
        → length bs ≤ n
    by_region none h = cc
    by_region (some r) h =
        bounded_lem (in_bounds r va n) n (drop (va - r.base) r.bytes) (invalid_memory va) h

start_lem : (va size n : ℕ) → va < u64_mod → n ≤ size → n ≤ wrapping_sub va va + size
start_lem va size n p h = omega arith

map_lem :
    {A B : Type 0} (f : A → B) (o : Option A)
    → is_some o ≡ true
    → (r : B) × (Option.map f o ≡ some r)
map_lem f none h = cc
map_lem f (some a) h = (f a, refl)

-- The offset after an instruction, and a step of the bound on it.
offset_lem :
    (va current size n : ℕ)
    → 0 < size
    → size ≤ 15
    → n + 15 < u64_mod
    → wrapping_sub current va < n
    → va < u64_mod
    → current < u64_mod
    → wrapping_sub (wrapping_add current size) va ≡ wrapping_sub current va + size
offset_lem va current size n p q room inside hva hc = omega arith

not_le_lem : (a b : ℕ) → leb a b ≡ false → b < a
not_le_lem a b h = ground arith

wrapping_lem : (a b : ℕ) → wrapping_add a b < u64_mod
wrapping_lem a b = omega arith

bound_lem :
    (n offset size k next : ℕ) → 0 < size → next ≡ offset + size → n ≤ offset + suc k → n ≤ next + k
bound_lem n offset size k next p e h = omega arith

tests_lem :
    (a b : Bool) (last : ℕ) (next : Option ℕ)
    → (b ≡ false → is_some next ≡ true)
    → is_some (if a then if b then some last else next else some last) ≡ true
tests_lem true true last next h = refl
tests_lem true false last next h = h refl
tests_lem false b last next h = refl

decoded_lem :
    (o : Option Decoded) (last : ℕ) (f : Decoded → Option ℕ)
    → ((op : Decoded) → o ≡ some op → is_some (f op) ≡ true)
    → is_some (elim o as (λ x. Option ℕ) [ none ↦ some last | some op ↦ f op ]) ≡ true
decoded_lem none last f h = refl
decoded_lem (some op) last f h = h op refl

module _ (decode : Decoder) where
  -- Decoded sizes are those of x86 instructions.
  abbrev pub HasSizes : Type 0
  HasSizes =
      (bits va : ℕ) (bytes : List ℕ) (op : Decoded)
      → decode bits bytes va ≡ some op
      → (0 < op.size) × (op.size ≤ 15)

  terminal_loop_enough :
      (k bits : ℕ) (bytes : List ℕ) (va end_va current last : ℕ)
      → HasSizes
      → length bytes + 15 < u64_mod
      → va < u64_mod
      → current < u64_mod
      → length bytes ≤ wrapping_sub current va + k
      → is_some (terminal_loop decode (suc k) bits bytes va end_va current last) ≡ true
  unfolding terminal_loop
  terminal_loop_enough zero bits bytes va end_va current last sizes room hva hc enough =
      tests_lem (ltb current end_va) (leb (length bytes) (wrapping_sub current va)) last _
        (λ inside.
          absurd (omega (arith, not_le_lem (length bytes) (wrapping_sub current va) inside)))
  terminal_loop_enough (suc k) bits bytes va end_va current last sizes room hva hc enough =
      let offset = wrapping_sub current va in
      tests_lem (ltb current end_va) (leb (length bytes) offset) last _ (λ inside.
        decoded_lem (decode bits (drop offset bytes) current) last _ (λ op found.
          let size = sizes bits current (drop offset bytes) op found in
          let within = not_le_lem (length bytes) offset inside in
          let moved =
            offset_lem va current op.size (length bytes) size.0 size.1 room within hva hc in
          terminal_loop_enough k bits bytes va end_va (wrapping_add current op.size) current sizes
            room hva (wrapping_lem current op.size)
            (bound_lem (length bytes) offset op.size k _ size.0 moved enough)))

  -- If decoded sizes are those of x86 instructions, as many rounds as the block has bytes, and one more,
  -- are enough for `find_terminal_instruction`: it gives an error of the read, or an address.
  pub find_terminal_instruction_enough :
      {I : IndexMaps} {L : Type 0} (ws : VivWorkspace I L) (va size : ℕ)
      → HasSizes
      → va < u64_mod
      → size + 15 < u64_mod
      → (r : VivResult ℕ) × (find_terminal_instruction decode (suc size) ws va size ≡ some r)
  unfolding find_terminal_instruction
  find_terminal_instruction_enough ws va size sizes hva room =
      by_read (read_memory ws.image.mem va size) (read_memory-length ws.image.mem va size)
    where
      by_mode :
          (bytes : List ℕ) (m : Option ℕ)
          → length bytes ≤ size
          → (r : VivResult ℕ) × (elim m as (λ x. Option (VivResult ℕ)) [
            | none ↦ some (ok va)
            | some bits ↦
                Option.map ok
                  (terminal_loop decode (suc size) bits bytes va (wrapping_add va size) va va)
          ]
              ≡ some r)
      by_mode bytes none le = (ok va, refl)
      by_mode bytes (some bits) le =
          map_lem ok (terminal_loop decode (suc size) bits bytes va (wrapping_add va size) va va) (
            terminal_loop_enough size bits bytes va (wrapping_add va size) va va sizes (omega arith)
              hva hva (start_lem va size (length bytes) hva le))

      by_read :
          (o : VivResult (List ℕ))
          → ((bytes : List ℕ) → o ≡ ok bytes → length bytes ≤ size)
          → (r : VivResult ℕ) × (elim o as (λ x. Option (VivResult ℕ)) [
            | err e ↦ some (err e)
            | ok bytes ↦ elim (mode_of ws.arch) as (λ x. Option (VivResult ℕ)) [
              | none ↦ some (ok va)
              | some bits ↦
                  Option.map ok
                    (terminal_loop decode (suc size) bits bytes va (wrapping_add va size) va va)
            ]
          ]
              ≡ some r)
      by_read (err e) le = (err e, refl)
      by_read (ok bytes) le = by_mode bytes (mode_of ws.arch) (le bytes refl)
