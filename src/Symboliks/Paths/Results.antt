-- ===== src/Symboliks/Paths/Results.antt =====
-- src/symboliks/analysis.rs: what each result of the walk is.
use vivisect_rs.Base.{ℕ, ◌≡◌, some, String, List, ◌∷◌, All}
use vivisect_rs.Symboliks.Emulator.{snapshot}
use vivisect_rs.Symboliks.Paths.{PathResult, walk_symbolik_paths}
use vivisect_rs.Base.{All-imp}
use vivisect_rs.Symboliks.Paths.Steps.{IsResult}
use vivisect_rs.Symboliks.Paths.Sound.{walk_symbolik_paths-IsSound}
use vivisect_rs.Symboliks.Paths.Trail.{IsTrail, IsVisited, IsResult-IsTrail, IsResult-IsVisited}
use vivisect_rs.Symboliks.Paths.Replay.{IsReplay, IsResult-IsReplay}
use vivisect_rs.Symboliks.Graph.{SymbolikBlock, SymbolikGraph, SymbolikAnalysisContext, entry_block}

module _ {O : Type 0} (hash : String → ℕ) (ctx : SymbolikAnalysisContext)
    (g : SymbolikGraph O) where
  abbrev pub HasTrail : PathResult → Type 0
  HasTrail r =
      (entry : SymbolikBlock O) × ((entry_block g ≡ some entry)
        × ((vas : List ℕ) × ((r.path ≡ entry.va ∷ vas) × IsTrail g entry.successors vas)))

  abbrev pub HasReplay : PathResult → Type 0
  HasReplay r =
      (entry : SymbolikBlock O) × ((entry_block g ≡ some entry)
        × IsReplay hash ctx g entry r.path (snapshot r.emulator) r.effects)

  -- The path of every result of the walk starts at the entry and follows edges of the graph to a block
  -- without edges, and visits no address more often than `max_loop_count`, or than once where that is
  -- less.
  pub walk_symbolik_paths-HasTrail :
      (k : ℕ) {rs : List PathResult}
      → walk_symbolik_paths hash k ctx g ≡ some rs
      → All (λ r. HasTrail r × IsVisited g hash ctx r.path) rs
  walk_symbolik_paths-HasTrail k {rs = rs} run =
      All-imp (IsResult hash ctx g) (λ r. HasTrail r × IsVisited g hash ctx r.path) rs
        (λ r h. (IsResult-IsTrail g hash ctx h, IsResult-IsVisited g hash ctx h))
        (walk_symbolik_paths-IsSound hash ctx g k run)

  -- The emulator of every result has the registers and the memory of one run, from before the entry, over
  -- the effects of the path's blocks, whatever was explored before it. The effects of the result are those
  -- of the entry, as they were translated, and those of the other blocks in reduced form; the reduced form
  -- resolves no name against the registers or the memory that the run has reached.
  pub walk_symbolik_paths-HasReplay :
      (k : ℕ) {rs : List PathResult} → walk_symbolik_paths hash k ctx g ≡ some rs → All HasReplay rs
  walk_symbolik_paths-HasReplay k {rs = rs} run =
      All-imp (IsResult hash ctx g) HasReplay rs (λ r h. IsResult-IsReplay hash ctx g h)
        (walk_symbolik_paths-IsSound hash ctx g k run)
