-- ===== src/Symboliks/Paths/Halting.antt =====
-- src/symboliks/analysis.rs: the walk ends.
use mathlib.Core.Path.{subst}
use mathlib.Core.List.{append-nil}
use vivisect_rs.Base.{
  ℕ, zero, suc, ◌+◌, ◌-◌, ◌≤◌, ◌<◌, ◌≡◌, refl, sym, ◌∙◌, Option, none, some, String, List, [], ◌∷◌,
  ◌++◌, inl, inr, All, leb, arith, Bool-cases, Option-cases, false,
}
use vivisect_rs.BTreeMap.{BTreeMap, get}
use vivisect_rs.Symboliks.Paths.{
  PathResult, WorkItem, item_of, WalkState, push_all, record_step, take_edge, advance, entry_path,
  edges_loop, walk_loop, walk_edges, walk_symbolik_paths, visits,
}
use vivisect_rs.Symboliks.Paths.Edges.{visits-append, enter_path, advance_lem}
use vivisect_rs.Symboliks.Paths.Steps.{
  state, walk_loop_full, walk_loop_round, walk_none, walk_entry,
}
use vivisect_rs.Symboliks.Graph.{
  Edge, SymbolikBlock, SymbolikGraph, SymbolikAnalysisContext, entry_block,
}

-- The visits to the keys of a map that the limit `n` leaves.
abbrev budget : {V : Type 0} → ℕ → List ℕ → BTreeMap V → ℕ
budget n path [] = 0
budget n path ((va, b) ∷ m) = (n - visits va path) + budget n path m

module _ {V : Type 0} where
  budget_le :
      (n : ℕ) (path : List ℕ) (target : ℕ) (m : BTreeMap V)
      → budget n (path ++ (target ∷ [])) m ≤ budget n path m
  budget_le n path target [] = omega arith
  budget_le n path target ((va, b) ∷ m) =
      omega (arith, budget_le n path target m, visits-append va path (target ∷ []))

  -- A further visit to a key takes from them.
  budget_lt :
      (n : ℕ) (path : List ℕ) (target : ℕ) (m : BTreeMap V) {b : V}
      → visits target path < n
      → get target m ≡ some b
      → budget n (path ++ (target ∷ [])) m < budget n path m
  unfolding get visits
  budget_lt n path target [] few found = cc
  budget_lt n path target ((va, b') ∷ m) {b = b} few found = ground (
    arith,
    budget_le n path target m,
    (λ (f : get target m ≡ some b). budget_lt n path target m {b = b} few f),
    visits-append va path (target ∷ []),
  )

module _ {O : Type 0} (hash : String → ℕ) (ctx : SymbolikAnalysisContext)
    (g : SymbolikGraph O) where
  -- An edge that is taken leaves less of the visits.
  advance-budget :
      (item : WorkItem) (e : Edge) {b : SymbolikBlock O} {r : PathResult}
      → advance hash ctx g item e ≡ some (b, r)
      → budget ctx.max_loop_count r.path g.blocks < budget ctx.max_loop_count item.path g.blocks
  advance-budget item e {b} taken =
      let steps = advance_lem hash ctx g item e taken in
      rw (enter_path hash ctx g item e b steps.1.1)
        (budget_lt ctx.max_loop_count item.path e.0 g.blocks steps.0 steps.1.0)

  abbrev IsBelow : ℕ → WorkItem → Type 0
  IsBelow n item = budget ctx.max_loop_count item.path g.blocks < n

  -- The stack of a state is `below`, with entries on top that have less than `n` visits left.
  abbrev IsGrown : ℕ → List WorkItem → WalkState → Type 0
  IsGrown n below s = (top : List WorkItem) × (All (IsBelow n) top × (s.work_stack ≡ top ++ below))

  push_all-IsGrown :
      (n : ℕ) (below top : List WorkItem) (r : PathResult) (es : List Edge) (s : WalkState)
      → budget ctx.max_loop_count r.path g.blocks < n
      → All (IsBelow n) top
      → IsGrown n below (record s { work_stack = push_all r es (top ++ below) })
  push_all-IsGrown n below top r [] s less h = (top, (h, refl))
  push_all-IsGrown n below top r (e ∷ es) s less h =
      push_all-IsGrown n below (item_of r e ∷ top) r es s less (less, h)

  record_step-IsGrown :
      (n : ℕ) (below : List WorkItem) (r : PathResult) (es : List Edge) (s : WalkState)
      → budget ctx.max_loop_count r.path g.blocks < n
      → IsGrown n below s
      → IsGrown n below (record_step s es r)
  record_step-IsGrown n below r [] s less h = h
  record_step-IsGrown n below r (e ∷ es) s less (top, (h, same)) =
      subst (λ stack. IsGrown n below (record s { work_stack = push_all r (e ∷ es) stack }))
        (sym same) (push_all-IsGrown n below top r (e ∷ es) s less h)

  take_edge-IsGrown :
      (below : List WorkItem) (item : WorkItem) (e : Edge)
      (o : Option (SymbolikBlock O × PathResult)) (s : WalkState)
      → advance hash ctx g item e ≡ o
      → IsGrown (budget ctx.max_loop_count item.path g.blocks) below s
      → IsGrown (budget ctx.max_loop_count item.path g.blocks) below (take_edge s o)
  take_edge-IsGrown below item e none s taken h = h
  take_edge-IsGrown below item e (some (b, r)) s taken h =
      record_step-IsGrown (budget ctx.max_loop_count item.path g.blocks) below r b.successors s
        (advance-budget item e taken) h

  edges_loop-IsGrown :
      (below : List WorkItem) (item : WorkItem) (es : List Edge) (s : WalkState)
      → IsGrown (budget ctx.max_loop_count item.path g.blocks) below s
      → IsGrown
          (budget ctx.max_loop_count item.path g.blocks)
          below
          (edges_loop hash ctx g item es s)
  unfolding edges_loop
  edges_loop-IsGrown below item [] s h = h
  edges_loop-IsGrown below item (e ∷ es) s h = elim (Bool-cases (leb ctx.max_paths s.path_count)) [
    | inl full ↦ rw full h
    | inr room ↦ rw room (
        edges_loop-IsGrown below item es (take_edge s (advance hash ctx g item e))
          (take_edge-IsGrown below item e (advance hash ctx g item e) s refl h))
  ]

  -- The walk ends from a state.
  abbrev Halts : WalkState → Type 0
  Halts s = (k : ℕ) × ((rs : List PathResult) × (walk_loop hash k ctx g s ≡ some rs))

  abbrev HaltsOn : List WorkItem → Type 0
  HaltsOn stack = (results : List PathResult) (count : ℕ) → Halts (state results count stack)

  Halts-empty : HaltsOn []
  unfolding walk_loop
  Halts-empty results count = (1, (results, refl))

  Halts-stack :
      (s : WalkState) {stack : List WorkItem} → s.work_stack ≡ stack → HaltsOn stack → Halts s
  Halts-stack s same halts =
      subst (λ stack. Halts (state s.results s.path_count stack)) (sym same)
        (halts s.results s.path_count)

  Halts-round :
      (results : List PathResult) (count : ℕ) (item : WorkItem) (stack : List WorkItem)
      → (leb ctx.max_paths count ≡ false
          → Halts (edges_loop hash ctx g item item.edges (state results count stack)))
      → Halts (state results count (item ∷ stack))
  Halts-round results count item stack next = elim (Bool-cases (leb ctx.max_paths count)) [
    | inl full ↦ (1, (results, walk_loop_full hash ctx g 0 results count item stack full))
    | inr room ↦
        let (k, (rs, run)) = next room in
        (suc k, (rs, walk_loop_round hash ctx g k results count item stack room ∙ run))
  ]

  IsBelow-le :
      (m n : ℕ) (items : List WorkItem) → m ≤ n → All (IsBelow m) items → All (IsBelow n) items
  IsBelow-le m n [] le h = tt
  IsBelow-le m n (item ∷ items) le h = (omega (arith, h.0), IsBelow-le m n items le h.1)

  -- Entries with less than `n` visits left do not keep the walk from ending.
  HaltsOn-append :
      (n : ℕ) (items below : List WorkItem)
      → All (IsBelow n) items
      → HaltsOn below
      → HaltsOn (items ++ below)
  HaltsOn-append n [] below h halts = halts
  HaltsOn-append zero (item ∷ items) below h halts = absurd (omega (arith, h.0))
  HaltsOn-append (suc n) (item ∷ items) below h halts =
      let rest = HaltsOn-append (suc n) items below h.1 halts in
      λ results count. Halts-round results count item (items ++ below) (λ room.
        let s = state results count (items ++ below) in
        let (top, (less, same)) =
          edges_loop-IsGrown (items ++ below) item item.edges s ([], (tt, refl)) in
        Halts-stack (edges_loop hash ctx g item item.edges s) same (
          HaltsOn-append n top (items ++ below) (IsBelow-le _ n top (omega (arith, h.0)) less)
            rest))

  -- Every entry has a bound on the visits that it leaves.
  bound_of : (items : List WorkItem) → (n : ℕ) × All (IsBelow n) items
  bound_of [] = (0, tt)
  bound_of (item ∷ items) =
      let (n, h) = bound_of items in
      let b = budget ctx.max_loop_count item.path g.blocks in
      (suc b + n, (omega arith, IsBelow-le n (suc b + n) items (omega arith) h))

  walk_loop-Halts : (s : WalkState) → Halts s
  walk_loop-Halts s =
      let (n, h) = bound_of s.work_stack in
      Halts-stack s (sym (append-nil s.work_stack)) (HaltsOn-append n s.work_stack [] h Halts-empty)

  walk_edges_ends :
      (r : PathResult) (es : List Edge)
      → (k : ℕ) × ((rs : List PathResult) × (walk_edges hash k ctx g r es ≡ some rs))
  walk_edges_ends r [] = (0, (record r { constraints = [] } ∷ [], refl))
  walk_edges_ends r (e ∷ es) = walk_loop-Halts (state [] 0 (push_all r (e ∷ es) []))

  -- There is fuel for the walk of any graph, loops included.
  pub walk_symbolik_paths_ends :
      (k : ℕ) × ((rs : List PathResult) × (walk_symbolik_paths hash k ctx g ≡ some rs))
  walk_symbolik_paths_ends = elim (Option-cases (entry_block g)) [
    | inl nothing ↦ (0, ([], walk_none hash ctx g 0 nothing))
    | inr (entry, found) ↦
        let (k, (rs, run)) = walk_edges_ends (entry_path hash ctx entry) entry.successors in
        (k, (rs, walk_entry hash ctx g k entry found ∙ run))
  ]
