-- ===== src/Symboliks/Paths/Fuel.antt =====
-- src/symboliks/analysis.rs: more fuel gives the same results of the walk.
use mathlib.Core.Path.{subst}
use vivisect_rs.Base.{
  ℕ, zero, suc, ◌+◌, ◌≡◌, sym, ◌∙◌, Option, none, some, String, List, [], ◌∷◌, arith, leb,
  Bool-cases, inl, inr,
}
use vivisect_rs.Symboliks.Paths.{
  PathResult, WorkItem, push_all, edges_loop, entry_path, walk_loop, walk_edges, walk_from,
  walk_symbolik_paths,
}
use vivisect_rs.Symboliks.Paths.Steps.{state, walk_loop_full, walk_loop_round}
use vivisect_rs.Symboliks.Graph.{
  Edge, SymbolikBlock, SymbolikGraph, SymbolikAnalysisContext, entry_block,
}

module _ {O : Type 0} (hash : String → ℕ) (ctx : SymbolikAnalysisContext)
    (g : SymbolikGraph O) where
  walk_loop_more :
      (k : ℕ) (results : List PathResult) (count : ℕ) (stack : List WorkItem) {rs : List PathResult}
      → walk_loop hash k ctx g (state results count stack) ≡ some rs
      → walk_loop hash (suc k) ctx g (state results count stack) ≡ some rs
  unfolding walk_loop
  walk_loop_more zero results count stack run = cc
  walk_loop_more (suc k) results count [] run = run
  walk_loop_more (suc k) results count (item ∷ stack) run =
      let next = edges_loop hash ctx g item item.edges (state results count stack) in
      elim (Bool-cases (leb ctx.max_paths count)) [
        | inl full ↦
            walk_loop_full hash ctx g (suc k) results count item stack full
            ∙ (sym (walk_loop_full hash ctx g k results count item stack full) ∙ run)
        | inr room ↦
            walk_loop_round hash ctx g (suc k) results count item stack room
            ∙ walk_loop_more k next.results next.path_count next.work_stack
                (sym (walk_loop_round hash ctx g k results count item stack room) ∙ run)
      ]

  walk_from_more :
      (k : ℕ) (o : Option (SymbolikBlock O)) {rs : List PathResult}
      → walk_from hash k ctx g o ≡ some rs
      → walk_from hash (suc k) ctx g o ≡ some rs
  walk_from_more k none run = run
  walk_from_more k (some entry) run =
      walk_edges_more (entry_path hash ctx entry) entry.successors run
    where
      walk_edges_more :
          (r : PathResult) (es : List Edge) {rs : List PathResult}
          → walk_edges hash k ctx g r es ≡ some rs
          → walk_edges hash (suc k) ctx g r es ≡ some rs
      walk_edges_more r [] run' = run'
      walk_edges_more r (e ∷ es) run' = walk_loop_more k [] 0 (push_all r (e ∷ es) []) run'

  -- More fuel gives the same results.
  pub walk_symbolik_paths_more :
      (j k : ℕ) {rs : List PathResult}
      → walk_symbolik_paths hash k ctx g ≡ some rs
      → walk_symbolik_paths hash (j + k) ctx g ≡ some rs
  unfolding walk_symbolik_paths
  walk_symbolik_paths_more zero k {rs = rs} run =
      let index : k ≡ zero + k = omega arith in
      subst (λ n. walk_from hash n ctx g (entry_block g) ≡ some rs) index run
  walk_symbolik_paths_more (suc j) k {rs = rs} run =
      let index : suc (j + k) ≡ suc j + k = omega arith in
      subst (λ n. walk_from hash n ctx g (entry_block g) ≡ some rs) index
        (walk_from_more (j + k) (entry_block g) (walk_symbolik_paths_more j k run))
