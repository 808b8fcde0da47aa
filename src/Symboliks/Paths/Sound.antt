-- ===== src/Symboliks/Paths/Sound.antt =====
-- src/symboliks/analysis.rs: the results of the walk are paths of the graph.
use mathlib.Core.Path.{subst}
use vivisect_rs.Base.{
  ℕ, zero, suc, ◌≡◌, refl, sym, Option, none, some, String, List, [], ◌∷◌, inl, inr, All, leb, ap,
  ◌∙◌, unwrap_or, Bool-cases, Option-cases,
}
use vivisect_rs.Symboliks.Paths.{
  PathResult, WorkItem, item_of, WalkState, push_all, record_step, take_edge, advance, entry_path,
  edges_loop, walk_loop, walk_edges, walk_symbolik_paths,
}
use vivisect_rs.Base.{Member, All-append}
use vivisect_rs.Symboliks.Paths.Steps.{
  state, walk_loop_full, walk_loop_round, walk_none, walk_entry, Completes, ends, goes_on, IsResult,
  entry_alone, completed,
}
use vivisect_rs.Symboliks.Graph.{
  Edge, SymbolikBlock, SymbolikGraph, SymbolikAnalysisContext, entry_block,
}

push_all-All :
    (P : WorkItem → Type 0) (r : PathResult) (es : List Edge) (stack : List WorkItem)
    → All P stack
    → ((e : Edge) → Member e es → P (item_of r e))
    → All P (push_all r es stack)
push_all-All P r [] stack h each = h
push_all-All P r (e ∷ es) stack h each =
    push_all-All P r es (item_of r e ∷ stack) (each e (inl refl), h) (λ e' m. each e' (inr m))

module _ {O : Type 0} (hash : String → ℕ) (ctx : SymbolikAnalysisContext)
    (g : SymbolikGraph O) where
  -- All that completes the entry is a path of the graph.
  abbrev IsGood : WorkItem → Type 0
  IsGood item = (r : PathResult) → Completes hash ctx g r item → IsResult hash ctx g r

  abbrev IsSoundState : WalkState → Type 0
  IsSoundState s = All (IsResult hash ctx g) s.results × All IsGood s.work_stack

  record_step-IsSoundState :
      (s : WalkState) (item : WorkItem) (e : Edge) (b : SymbolikBlock O) (r : PathResult)
      (es : List Edge)
      → IsSoundState s
      → IsGood item
      → Member e item.edges
      → advance hash ctx g item e ≡ some (b, r)
      → b.successors ≡ es
      → IsSoundState (record_step s es r)
  record_step-IsSoundState s item e b r [] h good m taken last =
      (All-append _ s.results (r ∷ []) h.0 (good r (ends e b m taken last), tt), h.1)
  record_step-IsSoundState s item e b r (e' ∷ es) h good m taken last = (
    h.0,
    push_all-All IsGood r (e' ∷ es) s.work_stack h.1 (λ next in_block r' c.
        good r' (goes_on e b r next m taken (subst (Member next) (sym last) in_block) c)),
  )

  take_edge-IsSoundState :
      (s : WalkState) (item : WorkItem) (e : Edge) (o : Option (SymbolikBlock O × PathResult))
      → IsSoundState s
      → IsGood item
      → Member e item.edges
      → advance hash ctx g item e ≡ o
      → IsSoundState (take_edge s o)
  take_edge-IsSoundState s item e none h good m taken = h
  take_edge-IsSoundState s item e (some (b, r)) h good m taken =
      record_step-IsSoundState s item e b r b.successors h good m taken refl

  edges_loop-IsSoundState :
      (item : WorkItem) (es : List Edge) (s : WalkState)
      → IsGood item
      → ((e : Edge) → Member e es → Member e item.edges)
      → IsSoundState s
      → IsSoundState (edges_loop hash ctx g item es s)
  unfolding edges_loop
  edges_loop-IsSoundState item [] s good sub h = h
  edges_loop-IsSoundState item (e ∷ es) s good sub h =
      elim (Bool-cases (leb ctx.max_paths s.path_count)) [
        | inl full ↦ rw full h
        | inr room ↦ rw room (
            edges_loop-IsSoundState item es (take_edge s (advance hash ctx g item e)) good
              (λ e' m. sub e' (inr m))
              (take_edge-IsSoundState s item e (advance hash ctx g item e) h good (sub e (inl refl))
                refl))
      ]

  walk_loop-IsSound :
      (k : ℕ) (results : List PathResult) (count : ℕ) (stack : List WorkItem) {rs : List PathResult}
      → IsSoundState (state results count stack)
      → walk_loop hash k ctx g (state results count stack) ≡ some rs
      → All (IsResult hash ctx g) rs
  unfolding walk_loop
  walk_loop-IsSound zero results count stack h run = cc
  walk_loop-IsSound (suc k) results count [] h run =
      subst (All (IsResult hash ctx g)) (ap (λ o. unwrap_or o []) run) h.0
  walk_loop-IsSound (suc k) results count (item ∷ stack) h run =
      let next = edges_loop hash ctx g item item.edges (state results count stack) in
      elim (Bool-cases (leb ctx.max_paths count)) [
        | inl full ↦
            subst (All (IsResult hash ctx g))
              (ap (λ o. unwrap_or o [])
                (sym (walk_loop_full hash ctx g k results count item stack full) ∙ run))
              h.0
        | inr room ↦
            walk_loop-IsSound k next.results next.path_count next.work_stack
              (edges_loop-IsSoundState item item.edges (state results count stack) h.1.0 (λ e m. m)
                (h.0, h.1.1))
              (sym (walk_loop_round hash ctx g k results count item stack room) ∙ run)
      ]

  walk_edges-IsSound :
      (k : ℕ) (entry : SymbolikBlock O) (es : List Edge) {rs : List PathResult}
      → entry_block g ≡ some entry
      → entry.successors ≡ es
      → walk_edges hash k ctx g (entry_path hash ctx entry) es ≡ some rs
      → All (IsResult hash ctx g) rs
  walk_edges-IsSound k entry [] found out run =
      subst (All (IsResult hash ctx g)) (ap (λ o. unwrap_or o []) run)
        (entry_alone entry found out refl, tt)
  walk_edges-IsSound k entry (e ∷ es) found out run =
      walk_loop-IsSound k [] 0 (push_all (entry_path hash ctx entry) (e ∷ es) [])
        (
          tt,
          push_all-All IsGood (entry_path hash ctx entry) (e ∷ es) [] tt
              (λ next m r c. completed entry next found (subst (Member next) (sym out) m) c),
        )
        run

  -- Every result of the walk is a path from the entry to a block without edges on which each edge passes
  -- the checks of the walk.
  pub walk_symbolik_paths-IsSound :
      (k : ℕ) {rs : List PathResult}
      → walk_symbolik_paths hash k ctx g ≡ some rs
      → All (IsResult hash ctx g) rs
  walk_symbolik_paths-IsSound k run = elim (Option-cases (entry_block g)) [
    | inl nothing ↦
        subst (All (IsResult hash ctx g))
          (ap (λ o. unwrap_or o []) (sym (walk_none hash ctx g k nothing) ∙ run)) tt
    | inr (entry, found) ↦
        walk_edges-IsSound k entry entry.successors found refl
          (sym (walk_entry hash ctx g k entry found) ∙ run)
  ]
