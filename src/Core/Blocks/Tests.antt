-- ===== src/Core/Blocks/Tests.antt =====
-- src/core/cfg.rs: runs.
use vivisect_rs.Base.{◌<◌, ◌≡◌, refl, true, List, [], ◌∷◌, arith, some}
use vivisect_rs.BTreeMap.{get, insert}
use vivisect_rs.Core.XRefs.{code, XRefManager, new_xrefs, add_xref, is_ref}
use vivisect_rs.Core.XRefs.Mirror.{IsMirror}
use vivisect_rs.Core.XRefs.Counted.{Change, added, apply_changes, apply_changes-IsCounted}
use vivisect_rs.Core.Blocks.{
  CodeBlock, Blocks, occurs, targets_loop, offsets_loop, compute_block_successors,
  compute_block_predecessors,
}
use vivisect_rs.Core.Blocks.Successors.{times}
use vivisect_rs.Core.Blocks.Predecessors.{AreBlocks, predecessors-successors}

-- A block of 4 bytes with a jump to another block in its third byte.
abbrev source : CodeBlock
source = record { va = 4096; size = 4; func_va = 4096 }

abbrev target : CodeBlock
target = record { va = 8192; size = 2; func_va = 4096 }

abbrev blocks : Blocks
blocks = (4096, source) ∷ (8192, target) ∷ []

abbrev jumps : List Change
jumps = added 4098 8192 code ∷ []

abbrev xrefs : XRefManager
xrefs = apply_changes jumps new_xrefs

xrefs-IsMirror : IsMirror xrefs
xrefs-IsMirror = (apply_changes-IsCounted jumps (omega arith)).mirrored

blocks-AreBlocks : AreBlocks blocks
blocks-AreBlocks = (refl, omega arith, (omega arith, tt), (refl, omega arith, tt, tt))

target_is_successor : 0 < times 8192 (compute_block_successors source xrefs blocks true)
unfolding compute_block_successors offsets_loop targets_loop add_xref get insert is_ref occurs
target_is_successor = omega arith

source_found : get 4096 blocks ≡ some source
unfolding get
source_found = refl

target_found : get 8192 blocks ≡ some target
unfolding get
target_found = refl

predecessors-successors_example : times 4096 (compute_block_predecessors target xrefs blocks) ≡ 1
predecessors-successors_example =
    predecessors-successors source target xrefs blocks true xrefs-IsMirror blocks-AreBlocks
      source_found target_found (omega arith) target_is_successor
