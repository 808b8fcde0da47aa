-- ===== src/Core/Blocks/Predecessors.antt =====
-- src/core/cfg.rs, `compute_block_predecessors`, and the blocks that are successors of one another.
use vivisect_rs.Base.{
  ℕ, zero, suc, ◌+◌, ◌-◌, ◌≤◌, ◌<◌, min, ◌≡◌, refl, ap, ◌∙◌, Bool, true, ◌&&◌, ◌||◌, some, List, [],
  ◌∷◌, ◌==◌, if◌then◌else◌, any, is_some_of, arith, Bool-cases, Option-cases, inl, inr,
}
use vivisect_rs.Word.{u64_mod}
use vivisect_rs.BTreeMap.{get, values}
use vivisect_rs.Core.XRefs.{
  RefType, code, discriminant, References, XRefManager, is_ref, get_xrefs_from, get_xrefs_to,
}
use vivisect_rs.Core.XRefs.Tally.{tally}
use vivisect_rs.Core.XRefs.Mirror.{IsMirror, edges_to}
use vivisect_rs.Core.Blocks.{
  CodeBlock, Blocks, block_end, push_new, is_code, holds, block_of, sources_loop, fall_loop,
  compute_block_successors, compute_block_predecessors,
}
use vivisect_rs.Core.Blocks.Successors.{
  times, times-push_new, leads, reaches, times-compute_block_successors,
}

-- Whether a reference is a code reference from an address of the block that starts at `p`.
abbrev pub comes_from : List CodeBlock → ℕ → ℕ × RefType → Bool
comes_from bs p (addr, r) = is_code r && is_some_of (block_of bs addr) p

-- Whether a block starts at `p` and ends at `va`.
abbrev pub falls_into : ℕ → ℕ → CodeBlock → Bool
falls_into va p b = block_end b == va && b.va == p

times-sources_loop :
    (bs : List CodeBlock) (refs : References) (predecessors : List ℕ) (p : ℕ)
    → times p predecessors ≤ 1
    → times p (sources_loop bs refs predecessors)
      ≡ (if any (comes_from bs p) refs then 1 else times p predecessors)
unfolding sources_loop
times-sources_loop bs [] predecessors p h = refl
times-sources_loop bs ((addr, r) ∷ refs) predecessors p h = elim (Bool-cases (is_code r)) [
  | inr skipped ↦ rw skipped (ground (arith, times-sources_loop bs refs predecessors p h))
  | inl taken ↦ elim (Option-cases (block_of bs addr)) [
    | inl nothing ↦
        rw (taken, nothing) (ground (arith, times-sources_loop bs refs predecessors p h))
    | inr (q, found) ↦
        rw (taken, found)
          (ground (
            arith,
            times-push_new p q predecessors h,
            times-sources_loop bs refs (push_new q predecessors) p,
          ))
  ]
]

times-fall_loop :
    (va : ℕ) (bs : List CodeBlock) (predecessors : List ℕ) (p : ℕ)
    → times p predecessors ≤ 1
    → times p (fall_loop va bs predecessors)
      ≡ (if any (falls_into va p) bs then 1 else times p predecessors)
unfolding fall_loop
times-fall_loop va [] predecessors p h = refl
times-fall_loop va (b ∷ bs) predecessors p h = elim (Bool-cases (block_end b == va)) [
  | inr skipped ↦ rw skipped (ground (arith, times-fall_loop va bs predecessors p h))
  | inl taken ↦ rw taken (
      ground (
        arith,
        times-push_new p b.va predecessors h,
        times-fall_loop va bs (push_new b.va predecessors) p,
      ))
]

-- A block has an address as a predecessor once or not at all. It has it exactly if there is a code
-- reference to its start from an address of the block found there, or a block starts there and ends
-- where it starts.
pub times-compute_block_predecessors :
    (b : CodeBlock) (xrefs : XRefManager) (blocks : Blocks) (p : ℕ)
    → times p (compute_block_predecessors b xrefs blocks) ≡ (
        if any (comes_from (values blocks) p) (get_xrefs_to xrefs b.va)
          || any (falls_into b.va p) (values blocks)
        then 1
        else 0)
unfolding compute_block_predecessors
times-compute_block_predecessors b xrefs blocks p =
    let bs = values blocks in
    let sources = times-sources_loop bs (get_xrefs_to xrefs b.va) [] p (omega arith) in
    let found : List ℕ = sources_loop bs (get_xrefs_to xrefs b.va) [] in
    ground (arith, sources, times-fall_loop b.va bs found p)

-- Every block of the map starts at `e` or later.
abbrev pub BlocksFrom : ℕ → Blocks → Type 0
BlocksFrom e [] = Unit
BlocksFrom e ((k, b) ∷ m) = (e ≤ k) × BlocksFrom e m

-- Blocks are stored under their starts, end below 2 ^ 64, and before the next one starts.
abbrev pub AreBlocks : Blocks → Type 0
AreBlocks [] = Unit
AreBlocks ((k, b) ∷ m) =
    (b.va ≡ k) × (k + b.size < u64_mod) × BlocksFrom (k + b.size) m × AreBlocks m

get-BlocksFrom : (e k : ℕ) (m : Blocks) {b : CodeBlock} → BlocksFrom e m → get k m ≡ some b → e ≤ k
unfolding get
get-BlocksFrom e k [] h g = cc
get-BlocksFrom e k ((j, c) ∷ m) {b} h g = ground (arith, get-BlocksFrom e k m {b = b} h.1)

-- The block of an address is the one that holds it.
block_of_lem :
    (k a : ℕ) (m : Blocks) (b : CodeBlock)
    → AreBlocks m
    → get k m ≡ some b
    → holds b a ≡ true
    → (b.va ≡ k) × (b.va + b.size < u64_mod) × (block_of (values m) a ≡ some k)
unfolding get values block_of
block_of_lem k a [] b v g h = cc
block_of_lem k a ((j, c) ∷ m) b v g h = elim (Bool-cases (k == j)) [
  | inl here ↦
      let same : c ≡ b = ground arith in
      let key : k ≡ j = ground arith in
      let held : holds c a ≡ true = ap (λ t. holds t a) same ∙ h in
      rw (← same) (omega (arith, v.0, key), omega (arith, v.0, v.1), ground (arith, v.0, key, held))
  | inr elsewhere ↦
      let later : get k m ≡ some b = ground arith in
      ground (
        arith,
        v.0,
        v.1,
        get-BlocksFrom (j + c.size) k m {b = b} v.2 later,
        block_of_lem k a m b v.3 later h,
      )
]

holds-reaches :
    (xrefs : XRefManager) (blocks : Blocks) (t a count : ℕ)
    → reaches xrefs blocks t a count ≡ true
    → (c : ℕ) × (a ≤ c) × (c < a + count) × (leads blocks (get_xrefs_from xrefs c) t ≡ true)
holds-reaches xrefs blocks t a zero h = cc
holds-reaches xrefs blocks t a (suc count) h =
    elim (Bool-cases (leads blocks (get_xrefs_from xrefs a) t)) [
      | inl here ↦ (a, omega arith, omega arith, here)
      | inr later ↦
          let (c, low, high, found) = holds-reaches xrefs blocks t (a + 1) count (ground arith) in
          (c, omega arith, omega arith, found)
    ]

any-comes_from :
    (bs : List CodeBlock) (refs : References) (a p : ℕ)
    → 0 < tally a code refs
    → block_of bs a ≡ some p
    → any (comes_from bs p) refs ≡ true
unfolding is_ref
any-comes_from bs [] a p h e = absurd (omega arith)
any-comes_from bs ((c, r) ∷ refs) a p h e =
    elim (Bool-cases (c == a && discriminant r == discriminant code)) [
      | inl here ↦
          let same : c ≡ a = ground arith in
          let found : block_of bs c ≡ some p = rw same e in ground arith
      | inr elsewhere ↦ ground (arith, any-comes_from bs refs a p (ground arith) e)
    ]

any-falls_into :
    (va k : ℕ) (m : Blocks) (b : CodeBlock)
    → AreBlocks m
    → get k m ≡ some b
    → block_end b ≡ va
    → any (falls_into va k) (values m) ≡ true
unfolding get values
any-falls_into va k [] b v g e = cc
any-falls_into va k ((j, c) ∷ m) b v g e = elim (Bool-cases (k == j)) [
  | inl here ↦
      let same : c ≡ b = ground arith in
      let last : block_end c ≡ va = ap block_end same ∙ e in ground (arith, v.0)
  | inr elsewhere ↦ ground (arith, any-falls_into va k m b v.3 (ground arith) e)
]

get-va : (k : ℕ) (m : Blocks) (b : CodeBlock) → AreBlocks m → get k m ≡ some b → b.va ≡ k
unfolding get
get-va k [] b v g = cc
get-va k ((j, c) ∷ m) b v g = elim (Bool-cases (k == j)) [
  | inl here ↦ let same : c ≡ b = ground arith in rw (← same) (ground (arith, v.0))
  | inr elsewhere ↦ get-va k m b v.3 (ground arith)
]

-- Where the two maps of the cross-references agree and the blocks do not overlap, the block that is
-- found as a successor of a block has that block among its predecessors.
pub predecessors-successors :
    (b c : CodeBlock) (xrefs : XRefManager) (blocks : Blocks) (falls_through : Bool)
    → IsMirror xrefs
    → AreBlocks blocks
    → get b.va blocks ≡ some b
    → get c.va blocks ≡ some c
    → b.va + b.size < u64_mod
    → 0 < times c.va (compute_block_successors b xrefs blocks falls_through)
    → times b.va (compute_block_predecessors c xrefs blocks) ≡ 1
predecessors-successors b c xrefs blocks falls_through mirror v gb gc p h =
    let bs = values blocks in
    let count = min b.size 15 in
    let succ = times-compute_block_successors b xrefs blocks falls_through c.va p in
    let pred = times-compute_block_predecessors c xrefs blocks b.va in
    elim (Bool-cases (reaches xrefs blocks c.va (b.va + b.size - count) count)) [
      | inl reached ↦
          let (a, low, high, found) =
            holds-reaches xrefs blocks c.va (b.va + b.size - count) count reached in
          let inside : holds b a ≡ true = ground arith in
          let (key, last, block) = block_of_lem b.va a blocks b v gb inside in
          let edge : 0 < edges_to xrefs a c.va code =
            ground (arith, mirror.same a c.va code, found) in
          let source = any-comes_from bs (get_xrefs_to xrefs c.va) a b.va edge block in
          ground (arith, pred, source)
      | inr not_reached ↦
          let last : block_end b ≡ c.va = ground (arith, succ) in
          let source = any-falls_into c.va b.va blocks b v gb last in ground (arith, pred, source)
    ]
