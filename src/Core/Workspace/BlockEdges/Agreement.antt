-- ===== src/Core/Workspace/BlockEdges/Agreement.antt =====
-- src/core/workspace.rs and src/core/cfg.rs: the two ways to the successors of a block.
use vivisect_rs.Base.{
  ℕ, zero, suc, ◌+◌, ◌≡◌, refl, sym, ap, ap₂, ◌∙◌, min, Bool, ◌&&◌, some, List, [], ◌∷◌, ◌==◌, leb,
  is_some, if◌then◌else◌,
}
use vivisect_rs.Word.{wrapping_add}
use vivisect_rs.BTreeMap.{get, insert}
use vivisect_rs.BTreeMap.Laws.{get-insert}
use vivisect_rs.IndexMap.{IndexMaps}
use vivisect_rs.Core.XRefs.{References, XRefManager, get_xrefs_from}
use vivisect_rs.Core.Blocks.{
  CodeBlock, Blocks, block_end, is_code, push_new, check_start, targets_loop, offsets_loop,
  compute_block_successors,
}
use vivisect_rs.Core.Workspace.{VivWorkspace}
use vivisect_rs.Core.Workspace.BlockEdges.{block_targets, last_bytes_loop, block_successors}

-- `get_codeblocks_map`. The keys I of an `IndexMap` are distinct, so the order of the insertions is not seen.
unfoldable pub collect : List (ℕ × CodeBlock) → Blocks
collect [] = []
collect ((va, b) ∷ m) = insert va b (collect m)

abbrev pub get_codeblocks_map : (I : IndexMaps) → I.Map CodeBlock → Blocks
get_codeblocks_map I m = collect (I.entries m)

get-collect : (a : ℕ) (m : List (ℕ × CodeBlock)) → get a (collect m) ≡ get a m
unfolding collect get
get-collect a [] = refl
get-collect a ((va, b) ∷ m) =
    get-insert va a b (collect m) ∙ ap (λ o. if a == va then some b else o) (get-collect a m)

module _ (I : IndexMaps) where
  get-get_codeblocks_map :
      (a : ℕ) (m : I.Map CodeBlock) → get a (get_codeblocks_map I m) ≡ I.find a m
  get-get_codeblocks_map a m = get-collect a (I.entries m) ∙ I.get-entries a m

  targets_agree :
      (m : I.Map CodeBlock) (refs : References) (successors : List ℕ)
      → block_targets I m refs successors ≡ targets_loop (get_codeblocks_map I m) refs successors
  unfolding block_targets targets_loop
  targets_agree m [] successors = refl
  targets_agree m ((target, r) ∷ refs) successors =
      targets_agree m refs _
      ∙ ap
          (λ o.
            targets_loop (get_codeblocks_map I m) refs
              (if is_code r && is_some o then push_new target successors else successors))
          (sym (get-get_codeblocks_map target m))

  loops_agree :
      (xrefs : XRefManager) (m : I.Map CodeBlock) (b : CodeBlock) (rounds offset : ℕ)
      (successors : List ℕ)
      → last_bytes_loop I xrefs m b rounds offset successors
        ≡ offsets_loop xrefs (get_codeblocks_map I m) b rounds offset successors
  unfolding last_bytes_loop offsets_loop
  loops_agree xrefs m b zero offset successors = refl
  loops_agree xrefs m b (suc rounds) offset successors =
      let addr = wrapping_add (check_start b) offset in
      ap (λ x. if leb (block_end b) addr then successors else x)
        (loops_agree xrefs m b rounds (offset + 1)
            (block_targets I m (get_xrefs_from xrefs addr) successors)
          ∙ ap (λ x. offsets_loop xrefs (get_codeblocks_map I m) b rounds (offset + 1) x)
              (targets_agree m (get_xrefs_from xrefs addr) successors))

-- `get_block_successors` gives the successors that `compute_block_successors` of src/core/cfg.rs computes
-- from the same block, cross-references and blocks, where both take the block to fall through or not.
pub block_successors_agree :
    (I : IndexMaps) {L : Type 0} (ws : VivWorkspace I L) (b : CodeBlock) (falls_through : Bool)
    → block_successors ws b falls_through
      ≡ compute_block_successors b ws.xrefs (get_codeblocks_map I ws.codeblocks) falls_through
unfolding block_successors compute_block_successors
block_successors_agree I ws b falls_through =
    ap₂
      (λ successors o.
        if falls_through && is_some o then push_new (block_end b) successors else successors)
      (loops_agree I ws.xrefs ws.codeblocks b (min b.size 15) 0 [])
      (sym (get-get_codeblocks_map I (block_end b) ws.codeblocks))
