-- ===== src/Symboliks/Paths/Trail.antt =====
-- src/symboliks/analysis.rs: the blocks of a path of the graph.
use mathlib.Core.Path.{subst}
use mathlib.Core.List.{append_assoc}
use vivisect_rs.Base.{
  ℕ, ◌≡◌, ◌≤◌, ◌<◌, ◌+◌, sym, ap, ◌∙◌, Option, some, String, List, [], ◌∷◌, ◌++◌, max, arith, inl,
  inr,
}
use vivisect_rs.Symboliks.Value.{SymbolicValue}
use vivisect_rs.Symboliks.Paths.{PathResult, WorkItem, advance, entry_path, visits}
use vivisect_rs.Base.{Member}
use vivisect_rs.Symboliks.Paths.Steps.{Completes, ends, goes_on, IsResult, entry_alone, completed}
use vivisect_rs.Symboliks.Paths.Edges.{advance_lem, enter_path, visits-append}
use vivisect_rs.Symboliks.Graph.{
  Edge, SymbolikBlock, SymbolikGraph, SymbolikAnalysisContext, entry_block, get_block,
}

visited_lem :
    (n va target before total : ℕ)
    → before ≤ max 1 n
    → (target ≡ va → before < n)
    → total ≡ before + visits va (target ∷ [])
    → total ≤ max 1 n
unfolding visits
visited_lem n va target before total h again sum = ground arith

one_lem : (n va target : ℕ) → visits va (target ∷ []) ≤ max 1 n
unfolding visits
one_lem n va target = ground arith

module _ {O : Type 0} (g : SymbolikGraph O) where
  -- From a block with the edges `es`, the addresses follow edges of the graph to a block without edges.
  abbrev pub IsTrail : List Edge → List ℕ → Type 0
  IsTrail es [] = es ≡ []
  IsTrail es (va ∷ vas) =
      (c : Option SymbolicValue) × (Member (va, c) es
        × ((b : SymbolikBlock O) × ((get_block g va ≡ some b) × IsTrail b.successors vas)))

  only_edge :
      (next : Edge) (es : List Edge) (e : Edge)
      → Member next es
      → Member e (next ∷ [])
      → Member e es
  only_edge next es e m (inl same) = subst (λ x. Member x es) (sym same) m
  only_edge next es e m (inr none_left) = elim none_left [ ]

  module _ (hash : String → ℕ) (ctx : SymbolikAnalysisContext) where
    -- What completes an entry goes on from the path of the entry by a trail.
    Completes-IsTrail :
        {r : PathResult} {item : WorkItem} (es : List Edge)
        → Completes hash ctx g r item
        → ((e : Edge) → Member e item.edges → Member e es)
        → (vas : List ℕ) × ((r.path ≡ item.path ++ vas) × IsTrail es vas)
    Completes-IsTrail {item = item} es (ends e b m taken last) sub =
        let steps = advance_lem hash ctx g item e taken in
        (
          e.0 ∷ [],
          (enter_path hash ctx g item e b steps.1.1, (e.1, (sub e m, (b, (steps.1.0, last))))),
        )
    Completes-IsTrail {item = item} es (goes_on e b q next m taken in_block c) sub =
        let steps = advance_lem hash ctx g item e taken in
        let (vas, (along, trail)) =
          Completes-IsTrail b.successors c (λ e' m'. only_edge next b.successors e' in_block m') in
        (
          e.0 ∷ vas,
          (
            along
                ∙ ap (λ p. p ++ vas) (enter_path hash ctx g item e b steps.1.1)
                ∙ append_assoc item.path (e.0 ∷ []) vas,
            (e.1, (sub e m, (b, (steps.1.0, trail)))),
          ),
        )

    -- The path of a result starts at the entry and follows edges of the graph to a block without edges.
    pub IsResult-IsTrail :
        {r : PathResult}
        → IsResult hash ctx g r
        → (entry : SymbolikBlock O) × ((entry_block g ≡ some entry)
            × ((vas : List ℕ) × ((r.path ≡ entry.va ∷ vas) × IsTrail entry.successors vas)))
    unfolding entry_path
    IsResult-IsTrail (entry_alone entry found out same) =
        (entry, (found, ([], (ap (λ (q : PathResult). q.path) same, out))))
    IsResult-IsTrail (completed entry e found m c) = (
      entry,
      (found, Completes-IsTrail entry.successors c (λ e' m'. only_edge e entry.successors e' m m')),
    )

    -- No block is visited more often than `max_loop_count`, or than once where that is less.
    abbrev pub IsVisited : List ℕ → Type 0
    IsVisited path = (va : ℕ) → visits va path ≤ max 1 ctx.max_loop_count

    advance-IsVisited :
        (item : WorkItem) (e : Edge) {b : SymbolikBlock O} {r : PathResult}
        → advance hash ctx g item e ≡ some (b, r)
        → IsVisited item.path
        → IsVisited r.path
    advance-IsVisited item e {b} {r} taken h va =
        let steps = advance_lem hash ctx g item e taken in
        rw (enter_path hash ctx g item e b steps.1.1) (
          visited_lem ctx.max_loop_count va e.0 (visits va item.path) _ (h va)
            (λ same. subst (λ v. visits v item.path < ctx.max_loop_count) same steps.0)
            (visits-append va item.path (e.0 ∷ [])))

    Completes-IsVisited :
        {r : PathResult} {item : WorkItem}
        → Completes hash ctx g r item
        → IsVisited item.path
        → IsVisited r.path
    Completes-IsVisited {item = item} (ends e b m taken last) h = advance-IsVisited item e taken h
    Completes-IsVisited {item = item} (goes_on e b q next m taken in_block c) h =
        Completes-IsVisited c (advance-IsVisited item e taken h)

    pub IsResult-IsVisited : {r : PathResult} → IsResult hash ctx g r → IsVisited r.path
    unfolding entry_path
    IsResult-IsVisited (entry_alone entry found out same) = λ va.
        subst (λ (q : PathResult). visits va q.path ≤ max 1 ctx.max_loop_count) (sym same)
          (one_lem ctx.max_loop_count va entry.va)
    IsResult-IsVisited (completed entry e found m c) =
        Completes-IsVisited c (λ va. one_lem ctx.max_loop_count va entry.va)
