-- ===== src/Symboliks/Paths/Counted.antt =====
-- src/symboliks/analysis.rs: the count of results and its bound, as the walk goes on.
use vivisect_rs.Base.{
  ℕ, zero, suc, ◌+◌, ◌≤◌, ◌≡◌, refl, sym, ap, ◌∙◌, max, Option, none, some, String, List, [], ◌∷◌,
  inl, inr, length, length-append, leb, arith, Bool-cases, Option-cases, unwrap_or, false,
}
use vivisect_rs.Symboliks.Paths.{
  PathResult, WorkItem, WalkState, push_all, record_step, take_edge, advance, entry_path,
  edges_loop, walk_loop, walk_edges, walk_symbolik_paths,
}
use vivisect_rs.Symboliks.Paths.Steps.{
  state, walk_loop_full, walk_loop_round, walk_none, walk_entry,
}
use vivisect_rs.Symboliks.Graph.{
  Edge, SymbolikBlock, SymbolikGraph, SymbolikAnalysisContext, entry_block,
}

-- The count is the number of results, and is at most `n`.
abbrev pub IsCounted : ℕ → WalkState → Type 0
IsCounted n s = (s.path_count ≡ length s.results) × (s.path_count ≤ n)

-- A round can only add one to the count.
record_step_count :
    (s : WalkState) (es : List Edge) (r : PathResult)
    → s.path_count ≤ (record_step s es r).path_count
record_step_count s [] r = omega arith
record_step_count s (e ∷ es) r = omega arith

record_step-IsCounted :
    (n : ℕ) (s : WalkState) (es : List Edge) (r : PathResult)
    → s.path_count + 1 ≤ n
    → IsCounted n s
    → IsCounted n (record_step s es r)
record_step-IsCounted n s [] r room h = (omega (arith, length-append s.results (r ∷ []), h.0), room)
record_step-IsCounted n s (e ∷ es) r room h = h

room_lem : (n count : ℕ) → leb n count ≡ false → count + 1 ≤ n
room_lem n count room = ground arith

module _ {O : Type 0} where
  take_edge_count :
      (s : WalkState) (o : Option (SymbolikBlock O × PathResult))
      → s.path_count ≤ (take_edge s o).path_count
  take_edge_count s none = omega arith
  take_edge_count s (some (b, r)) = record_step_count s b.successors r

  take_edge-IsCounted :
      (n : ℕ) (s : WalkState) (o : Option (SymbolikBlock O × PathResult))
      → s.path_count + 1 ≤ n
      → IsCounted n s
      → IsCounted n (take_edge s o)
  take_edge-IsCounted n s none room h = h
  take_edge-IsCounted n s (some (b, r)) room h = record_step-IsCounted n s b.successors r room h

  module _ (hash : String → ℕ) (ctx : SymbolikAnalysisContext) (g : SymbolikGraph O) where
    pub edges_loop_count :
        (item : WorkItem) (es : List Edge) (s : WalkState)
        → s.path_count ≤ (edges_loop hash ctx g item es s).path_count
    unfolding edges_loop
    edges_loop_count item [] s = omega arith
    edges_loop_count item (e ∷ es) s = elim (Bool-cases (leb ctx.max_paths s.path_count)) [
      | inl full ↦ rw full (omega arith)
      | inr room ↦
          let o = advance hash ctx g item e in
          rw room (omega (arith, edges_loop_count item es (take_edge s o), take_edge_count s o))
    ]

    pub edges_loop-IsCounted :
        (item : WorkItem) (es : List Edge) (s : WalkState)
        → IsCounted ctx.max_paths s
        → IsCounted ctx.max_paths (edges_loop hash ctx g item es s)
    unfolding edges_loop
    edges_loop-IsCounted item [] s h = h
    edges_loop-IsCounted item (e ∷ es) s h = elim (Bool-cases (leb ctx.max_paths s.path_count)) [
      | inl full ↦ rw full h
      | inr room ↦
          let o = advance hash ctx g item e in
          rw room (
            edges_loop-IsCounted item es (take_edge s o)
              (take_edge-IsCounted ctx.max_paths s o (room_lem ctx.max_paths s.path_count room) h))
    ]

    -- The count of a state of the walk is at most the number of results, which is at most `max_paths`.
    pub walk_loop_count :
        (k : ℕ) (results : List PathResult) (count : ℕ) (stack : List WorkItem)
        {rs : List PathResult}
        → IsCounted ctx.max_paths (state results count stack)
        → walk_loop hash k ctx g (state results count stack) ≡ some rs
        → (count ≤ length rs) × (length rs ≤ ctx.max_paths)
    unfolding walk_loop
    walk_loop_count zero results count stack h run = cc
    walk_loop_count (suc k) results count [] h run =
        omega (arith, h.0, h.1, ap (λ o. length (unwrap_or o [])) run)
    walk_loop_count (suc k) results count (item ∷ stack) {rs} h run =
        let next = edges_loop hash ctx g item item.edges (state results count stack) in
        elim (Bool-cases (leb ctx.max_paths count)) [
          | inl full ↦ omega (
            arith,
            h.0,
            h.1,
            ap (λ o. length (unwrap_or o [])) {x = some results} {y = some rs}
                (sym (walk_loop_full hash ctx g k results count item stack full) ∙ run),
          )
          | inr room ↦
              let rest =
                walk_loop_count k next.results next.path_count next.work_stack
                  (edges_loop-IsCounted item item.edges (state results count stack) h)
                  (sym (walk_loop_round hash ctx g k results count item stack room) ∙ run) in
              (
                omega (arith, rest.0, edges_loop_count item item.edges (state results count stack)),
                rest.1,
              )
        ]

    walk_edges-IsBounded :
        (k : ℕ) (r : PathResult) (es : List Edge) {rs : List PathResult}
        → walk_edges hash k ctx g r es ≡ some rs
        → length rs ≤ max 1 ctx.max_paths
    walk_edges-IsBounded k r [] run = omega (arith, ap (λ o. length (unwrap_or o [])) run)
    walk_edges-IsBounded k r (e ∷ es) run =
        omega (arith, (walk_loop_count k [] 0 (push_all r (e ∷ es) []) (refl, omega arith) run).1)

    -- The walk gives at most `max_paths` results, or one result where that is less.
    pub walk_symbolik_paths-IsBounded :
        (k : ℕ) {rs : List PathResult}
        → walk_symbolik_paths hash k ctx g ≡ some rs
        → length rs ≤ max 1 ctx.max_paths
    walk_symbolik_paths-IsBounded k run = elim (Option-cases (entry_block g)) [
      | inl nothing ↦
          omega
            (arith, ap (λ o. length (unwrap_or o [])) (sym (walk_none hash ctx g k nothing) ∙ run))
      | inr (entry, found) ↦
          walk_edges-IsBounded k (entry_path hash ctx entry) entry.successors
            (sym (walk_entry hash ctx g k entry found) ∙ run)
    ]
