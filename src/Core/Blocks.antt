-- ===== src/Core/Blocks.antt =====
-- src/core/cfg.rs: the successors and the predecessors of a basic block, from the cross-references.
-- Sums of an address and a size wrap, as in a release build.
pub mod Successors
pub mod Predecessors
mod Tests
use vivisect_rs.Base.{
  ℕ, zero, suc, ◌+◌, ◌-◌, ◌%◌, min, Bool, true, false, not, ◌&&◌, ◌||◌, Option, none, some, List,
  [], ◌∷◌, ◌++◌, ◌==◌, ltb, leb, if◌then◌else◌, any, is_some,
}
use vivisect_rs.Word.{u64_mod, wrapping_add}
use vivisect_rs.BTreeMap.{BTreeMap, get, values}
use vivisect_rs.Core.XRefs.{
  RefType, code, discriminant, References, XRefManager, get_xrefs_from, get_xrefs_to,
}

-- `struct CodeBlock` of src/core/workspace.rs.
pub record CodeBlock : Type 0 where
  pub va : ℕ
  pub size : ℕ
  pub func_va : ℕ

-- The map of all blocks by start address.
abbrev pub Blocks : Type 0
Blocks = BTreeMap CodeBlock

-- `block.va + block.size as u64`.
abbrev pub block_end : CodeBlock → ℕ
block_end b = (b.va + b.size) % u64_mod

-- `Vec::contains`.
unfoldable pub occurs : ℕ → List ℕ → Bool
occurs a xs = any (λ x. x == a) xs

-- `push`, if the address is not there yet.
abbrev pub push_new : ℕ → List ℕ → List ℕ
push_new a xs = if occurs a xs then xs else xs ++ (a ∷ [])

-- `all_blocks.contains_key`.
abbrev pub is_block : Blocks → ℕ → Bool
is_block blocks a = is_some (get a blocks)

abbrev pub is_code : RefType → Bool
is_code r = discriminant r == discriminant code

-- The loop over the references from one address.
unfoldable pub targets_loop : Blocks → References → List ℕ → List ℕ
targets_loop blocks [] successors = successors
targets_loop blocks ((target, r) ∷ refs) successors =
    targets_loop blocks refs
      (if is_code r && is_block blocks target then push_new target successors else successors)

-- The first address of the last 15 bytes.
abbrev pub check_start : CodeBlock → ℕ
check_start b = if ltb 15 b.size then (b.va + b.size + u64_mod - 15) % u64_mod else b.va

-- The loop over the offsets, with the rounds that are left.
unfoldable pub offsets_loop : XRefManager → Blocks → CodeBlock → ℕ → ℕ → List ℕ → List ℕ
offsets_loop xrefs blocks b zero offset successors = successors
offsets_loop xrefs blocks b (suc rounds) offset successors =
    let addr = wrapping_add (check_start b) offset in
    let rest =
      offsets_loop xrefs blocks b rounds (offset + 1)
        (targets_loop blocks (get_xrefs_from xrefs addr) successors) in
    if leb (block_end b) addr then successors else rest

-- `compute_block_successors`.
unfoldable pub compute_block_successors : CodeBlock → XRefManager → Blocks → Bool → List ℕ
compute_block_successors b xrefs blocks falls_through =
    let successors = offsets_loop xrefs blocks b (min b.size 15) 0 [] in
    if falls_through && is_block blocks (block_end b)
    then push_new (block_end b) successors
    else successors

-- `from_addr >= other_block.va && from_addr < other_block.va + other_block.size`.
abbrev pub holds : CodeBlock → ℕ → Bool
holds b addr = leb b.va addr && ltb addr (block_end b)

-- The search for the block of an address, with its `break`. The source goes over a `HashMap`, in an order
-- that is not documented; which block is found first matters only where two of them overlap.
unfoldable pub block_of : List CodeBlock → ℕ → Option ℕ
block_of [] addr = none
block_of (b ∷ bs) addr = if holds b addr then some b.va else block_of bs addr

abbrev pub push_some : Option ℕ → List ℕ → List ℕ
push_some none xs = xs
push_some (some a) xs = push_new a xs

-- The loop over the references to a block.
unfoldable pub sources_loop : List CodeBlock → References → List ℕ → List ℕ
sources_loop bs [] predecessors = predecessors
sources_loop bs ((from_addr, r) ∷ refs) predecessors =
    sources_loop bs refs
      (if is_code r then push_some (block_of bs from_addr) predecessors else predecessors)

-- The loop over the blocks that end where a block starts.
unfoldable pub fall_loop : ℕ → List CodeBlock → List ℕ → List ℕ
fall_loop va [] predecessors = predecessors
fall_loop va (b ∷ bs) predecessors =
    fall_loop va bs (if block_end b == va then push_new b.va predecessors else predecessors)

-- `compute_block_predecessors`.
unfoldable pub compute_block_predecessors : CodeBlock → XRefManager → Blocks → List ℕ
compute_block_predecessors b xrefs blocks =
    let bs = values blocks in fall_loop b.va bs (sources_loop bs (get_xrefs_to xrefs b.va) [])
