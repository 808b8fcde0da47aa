-- ===== src/Symboliks/Paths/Complete.antt =====
-- src/symboliks/analysis.rs: the walk finds every path of the graph, unless it stops at `max_paths`.
use mathlib.Core.Path.{subst}
use vivisect_rs.Base.{
  ℕ, zero, suc, ◌≤◌, ◌<◌, ◌≡◌, refl, sym, ap, ◌∙◌, ◌⊎◌, Option, none, some, String, List, [], ◌∷◌,
  inl, inr, length, leb, leb→le, arith, Bool-cases, unwrap_or,
}
use vivisect_rs.Symboliks.Paths.{
  PathResult, WorkItem, item_of, WalkState, push_all, record_step, take_edge, advance, entry_path,
  edges_loop, walk_loop, walk_edges, walk_symbolik_paths,
}
use vivisect_rs.Base.{Member, Member-left, Member-right}
use vivisect_rs.Symboliks.Paths.Steps.{
  Completes, ends, goes_on, IsResult, entry_alone, completed, state, walk_loop_round, walk_entry,
}
use vivisect_rs.Symboliks.Paths.Counted.{IsCounted, edges_loop-IsCounted, walk_loop_count}
use vivisect_rs.Symboliks.Graph.{Edge, SymbolikBlock, SymbolikGraph, SymbolikAnalysisContext}

push_all-Member :
    (item : WorkItem) (r : PathResult) (es : List Edge) (stack : List WorkItem)
    → Member item stack
    → Member item (push_all r es stack)
push_all-Member item r [] stack m = m
push_all-Member item r (e ∷ es) stack m = push_all-Member item r es (item_of r e ∷ stack) (inr m)

push_all-item_of :
    (e : Edge) (r : PathResult) (es : List Edge) (stack : List WorkItem)
    → Member e es
    → Member (item_of r e) (push_all r es stack)
push_all-item_of e r [] stack m = elim m [ ]
push_all-item_of e r (e' ∷ es) stack (inl same) =
    push_all-Member (item_of r e) r es (item_of r e' ∷ stack) (inl (ap (item_of r) same))
push_all-item_of e r (e' ∷ es) stack (inr m) = push_all-item_of e r es (item_of r e' ∷ stack) m

record_step-Member :
    (r : PathResult) (s : WalkState) (es : List Edge) (q : PathResult)
    → Member r s.results
    → Member r (record_step s es q).results
record_step-Member r s [] q m = Member-left r s.results (q ∷ []) m
record_step-Member r s (e ∷ es) q m = m

record_step_stack :
    (item : WorkItem) (s : WalkState) (es : List Edge) (q : PathResult)
    → Member item s.work_stack
    → Member item (record_step s es q).work_stack
record_step_stack item s [] q m = m
record_step_stack item s (e ∷ es) q m = push_all-Member item q (e ∷ es) s.work_stack m

module _ {O : Type 0} (hash : String → ℕ) (ctx : SymbolikAnalysisContext)
    (g : SymbolikGraph O) where
  -- `r` is a result already, or completes an entry of the stack.
  abbrev IsFound : PathResult → WalkState → Type 0
  IsFound r s =
      Member r s.results
      ⊎ ((item : WorkItem) × (Member item s.work_stack × Completes hash ctx g r item))

  -- From a block with the edges `es`, reached by the path `q`, the path `r` ends or goes on.
  abbrev IsOnward : PathResult → PathResult → List Edge → Type 0
  IsOnward r q es =
      ((es ≡ []) × (r ≡ q))
      ⊎ ((next : Edge) × (Member next es × Completes hash ctx g r (item_of q next)))

  -- An edge of `es` takes the item towards `r`.
  abbrev IsPending : PathResult → WorkItem → List Edge → Type 0
  IsPending r item es =
      (e : Edge) × (Member e es
        × ((b : SymbolikBlock O) × ((q : PathResult) × ((advance hash ctx g item e ≡ some (b, q))
                × IsOnward r q b.successors))))

  Completes-IsPending :
      (r : PathResult) {item : WorkItem} → Completes hash ctx g r item → IsPending r item item.edges
  Completes-IsPending r (ends e b m taken last) = (e, (m, (b, (r, (taken, inl (last, refl))))))
  Completes-IsPending r (goes_on e b q next m taken in_block c) =
      (e, (m, (b, (q, (taken, inr (next, (in_block, c)))))))

  record_step-IsFound :
      (r : PathResult) (s : WalkState) (es : List Edge) (q : PathResult)
      → IsFound r s
      → IsFound r (record_step s es q)
  record_step-IsFound r s es q (inl m) = inl (record_step-Member r s es q m)
  record_step-IsFound r s es q (inr (item, (m, c))) =
      inr (item, (record_step_stack item s es q m, c))

  record_step-IsOnward :
      (r : PathResult) (s : WalkState) (es : List Edge) (q : PathResult)
      → IsOnward r q es
      → IsFound r (record_step s es q)
  record_step-IsOnward r s [] q (inl (last, same)) =
      inl (Member-right r s.results (q ∷ []) (inl same))
  record_step-IsOnward r s (e ∷ es) q (inl (last, same)) = cc
  record_step-IsOnward r s [] q (inr (next, (m, c))) = elim m [ ]
  record_step-IsOnward r s (e ∷ es) q (inr (next, (m, c))) =
      inr (item_of q next, (push_all-item_of next q (e ∷ es) s.work_stack m, c))

  take_edge-IsFound :
      (r : PathResult) (s : WalkState) (o : Option (SymbolikBlock O × PathResult))
      → IsFound r s
      → IsFound r (take_edge s o)
  take_edge-IsFound r s none h = h
  take_edge-IsFound r s (some (b, q)) h = record_step-IsFound r s b.successors q h

  edges_loop-IsFound :
      (r : PathResult) (item : WorkItem) (es : List Edge) (s : WalkState)
      → IsFound r s ⊎ IsPending r item es
      → IsFound r (edges_loop hash ctx g item es s)
        ⊎ (ctx.max_paths ≤ (edges_loop hash ctx g item es s).path_count)
  unfolding edges_loop
  edges_loop-IsFound r item [] s (inl found) = inl found
  edges_loop-IsFound r item [] s (inr (e, (m, rest))) = elim m [ ]
  edges_loop-IsFound r item (e ∷ es) s h = elim (Bool-cases (leb ctx.max_paths s.path_count)) [
    | inl full ↦ rw full (inr (leb→le ctx.max_paths s.path_count full))
    | inr room ↦
        rw room (edges_loop-IsFound r item es (take_edge s (advance hash ctx g item e)) (moves h))
  ]
    where
      moves :
          IsFound r s ⊎ IsPending r item (e ∷ es)
          → IsFound r (take_edge s (advance hash ctx g item e)) ⊎ IsPending r item es
      moves (inl found) = inl (take_edge-IsFound r s (advance hash ctx g item e) found)
      moves (inr (e', (inl same, (b, (q, (taken, onward)))))) = inl (
          subst (λ o. IsFound r (take_edge s o)) (sym taken ∙ ap (advance hash ctx g item) same)
            (record_step-IsOnward r s b.successors q onward))
      moves (inr (e', (inr m, rest))) = inr (e', (m, rest))

  walk_loop-Complete :
      (r : PathResult) (k : ℕ) (results : List PathResult) (count : ℕ) (stack : List WorkItem)
      {rs : List PathResult}
      → IsCounted ctx.max_paths (state results count stack)
      → walk_loop hash k ctx g (state results count stack) ≡ some rs
      → length rs < ctx.max_paths
      → IsFound r (state results count stack)
      → Member r rs
  unfolding walk_loop
  walk_loop-Complete r zero results count stack n run few h = cc
  walk_loop-Complete r (suc k) results count [] n run few (inl m) =
      subst (Member r) (ap (λ o. unwrap_or o []) run) m
  walk_loop-Complete r (suc k) results count [] n run few (inr (item, (m, c))) = elim m [ ]
  walk_loop-Complete r (suc k) results count (item ∷ stack) {rs} n run few h =
      elim (Bool-cases (leb ctx.max_paths count)) [
        | inl full ↦ absurd (
            omega (
              arith,
              leb→le ctx.max_paths count full,
              walk_loop_count hash ctx g (suc k) results count (item ∷ stack) n run,
            ))
        | inr room ↦
            let next = edges_loop hash ctx g item item.edges (state results count stack) in
            let counted =
              edges_loop-IsCounted hash ctx g item item.edges (state results count stack) n in
            let run' = sym (walk_loop_round hash ctx g k results count item stack room) ∙ run in
            elim (edges_loop-IsFound r item item.edges (state results count stack) (moves h)) [
              | inl found ↦
                  walk_loop-Complete r k next.results next.path_count next.work_stack counted run'
                    few found
              | inr full ↦ absurd (
                  omega (
                    arith,
                    full,
                    walk_loop_count hash ctx g k next.results next.path_count next.work_stack
                        counted run',
                  ))
            ]
      ]
    where
      moves :
          IsFound r (state results count (item ∷ stack))
          → IsFound r (state results count stack) ⊎ IsPending r item item.edges
      moves (inl m) = inl (inl m)
      moves (inr (item', (inl same, c))) =
          inr (Completes-IsPending r (subst (Completes hash ctx g r) same c))
      moves (inr (item', (inr m, c))) = inl (inr (item', (m, c)))

  walk_edges-Complete :
      (r : PathResult) (k : ℕ) (entry : SymbolikBlock O) (es : List Edge) {rs : List PathResult}
      → walk_edges hash k ctx g (entry_path hash ctx entry) es ≡ some rs
      → length rs < ctx.max_paths
      → ((es ≡ []) × (r ≡ record (entry_path hash ctx entry) { constraints = [] }))
        ⊎ ((e : Edge) × (Member e es
              × Completes hash ctx g r (item_of (entry_path hash ctx entry) e)))
      → Member r rs
  walk_edges-Complete r k entry [] run few (inl (out, same)) =
      subst (Member r) (ap (λ o. unwrap_or o []) run) (inl same)
  walk_edges-Complete r k entry [] run few (inr (e, (m, c))) = elim m [ ]
  walk_edges-Complete r k entry (e ∷ es) run few (inl (out, same)) = cc
  walk_edges-Complete r k entry (e ∷ es) run few (inr (next, (m, c))) =
      walk_loop-Complete r k [] 0 (push_all (entry_path hash ctx entry) (e ∷ es) [])
        (refl, omega arith) run few
        (inr (
          item_of (entry_path hash ctx entry) next,
          (push_all-item_of next (entry_path hash ctx entry) (e ∷ es) [] m, c),
        ))

  -- If the walk gives fewer results than `max_paths`, every path from the entry to a block without edges
  -- on which each edge passes the checks of the walk is among them.
  pub walk_symbolik_paths-Complete :
      (k : ℕ) {rs : List PathResult} (r : PathResult)
      → walk_symbolik_paths hash k ctx g ≡ some rs
      → length rs < ctx.max_paths
      → IsResult hash ctx g r
      → Member r rs
  walk_symbolik_paths-Complete k r run few (entry_alone entry found out same) =
      walk_edges-Complete r k entry entry.successors
        (sym (walk_entry hash ctx g k entry found) ∙ run) few (inl (out, same))
  walk_symbolik_paths-Complete k r run few (completed entry e found m c) =
      walk_edges-Complete r k entry entry.successors
        (sym (walk_entry hash ctx g k entry found) ∙ run) few (inr (e, (m, c)))
