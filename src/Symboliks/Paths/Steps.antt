-- ===== src/Symboliks/Paths/Steps.antt =====
-- src/symboliks/analysis.rs: the paths that complete an entry of the work stack, as a relation, and the
-- paths that complete a graph.
use vivisect_rs.Base.{ℕ, suc, ◌≡◌, refl, ap, true, false, none, some, leb, String, List, [], ◌∷◌}
use vivisect_rs.Symboliks.Paths.{
  PathResult, WorkItem, item_of, advance, entry_path, WalkState, edges_loop, walk_loop, walk_edges,
  walk_from, walk_symbolik_paths,
}
use vivisect_rs.Base.{Member}
use vivisect_rs.Symboliks.Graph.{
  Edge, SymbolikBlock, SymbolikGraph, SymbolikAnalysisContext, entry_block,
}

abbrev pub state : List PathResult → ℕ → List WorkItem → WalkState
state results count stack = record { results = results; path_count = count; work_stack = stack }

module _ {O : Type 0} (hash : String → ℕ) (ctx : SymbolikAnalysisContext)
    (g : SymbolikGraph O) where
  -- `Completes r item`: an edge of the item leads to a block without edges, where the path is `r`, or to a
  -- block with an edge that `r` completes in turn.
  pub data Completes (r : PathResult) : WorkItem → Type 0 where
    ends :
        {item : WorkItem} (e : Edge) (b : SymbolikBlock O)
        → Member e item.edges
        → advance hash ctx g item e ≡ some (b, r)
        → b.successors ≡ []
        → Completes r item
    goes_on :
        {item : WorkItem} (e : Edge) (b : SymbolikBlock O) (q : PathResult) (next : Edge)
        → Member e item.edges
        → advance hash ctx g item e ≡ some (b, q)
        → Member next b.successors
        → Completes r (item_of q next)
        → Completes r item

  -- The paths from the entry to a block without edges on which each edge passes the checks.
  pub data IsResult (r : PathResult) : Type 0 where
    entry_alone :
        (entry : SymbolikBlock O)
        → entry_block g ≡ some entry
        → entry.successors ≡ []
        → r ≡ record (entry_path hash ctx entry) { constraints = [] }
        → IsResult r
    completed :
        (entry : SymbolikBlock O) (e : Edge)
        → entry_block g ≡ some entry
        → Member e entry.successors
        → Completes r (item_of (entry_path hash ctx entry) e)
        → IsResult r

  -- The two ways of a round.
  pub walk_loop_full :
      (k : ℕ) (results : List PathResult) (count : ℕ) (item : WorkItem) (stack : List WorkItem)
      → leb ctx.max_paths count ≡ true
      → walk_loop hash (suc k) ctx g (state results count (item ∷ stack)) ≡ some results
  unfolding walk_loop
  walk_loop_full k results count item stack full = rw full refl

  pub walk_loop_round :
      (k : ℕ) (results : List PathResult) (count : ℕ) (item : WorkItem) (stack : List WorkItem)
      → leb ctx.max_paths count ≡ false
      → walk_loop hash (suc k) ctx g (state results count (item ∷ stack))
        ≡ walk_loop hash k ctx g (edges_loop hash ctx g item item.edges (state results count stack))
  unfolding walk_loop
  walk_loop_round k results count item stack room = rw room refl

  pub walk_none : (k : ℕ) → entry_block g ≡ none → walk_symbolik_paths hash k ctx g ≡ some []
  unfolding walk_symbolik_paths
  walk_none k nothing = ap (walk_from hash k ctx g) nothing

  pub walk_entry :
      (k : ℕ) (entry : SymbolikBlock O)
      → entry_block g ≡ some entry
      → walk_symbolik_paths hash k ctx g
        ≡ walk_edges hash k ctx g (entry_path hash ctx entry) entry.successors
  unfolding walk_symbolik_paths
  walk_entry k entry found = ap (walk_from hash k ctx g) found
