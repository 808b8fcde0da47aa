-- ===== src/Symboliks/Paths.antt =====
-- src/symboliks/analysis.rs: the walk over the paths of the symbolic graph of a function. The hash of names
-- is the parameter `hash`.
pub mod Steps
pub mod Sound
pub mod Counted
pub mod Complete
pub mod Edges
pub mod Halting
pub mod Fuel
pub mod Replay
pub mod Trail
pub mod Results
pub mod Outputs
mod Tests
use vivisect_rs.Base.{
  ℕ, zero, suc, ◌+◌, ◌==◌, Bool, true, false, Option, none, some, String, List, [], ◌∷◌, ◌++◌,
  if◌then◌else◌, leb, length, keep, map,
}
use mathlib.Core.Option
use vivisect_rs.BTreeMap.{BTreeMap, get, insert}
use vivisect_rs.HashMap.{NameMap, put_name}
use vivisect_rs.Symboliks.Value.{SymbolicValue, var}
use vivisect_rs.Symboliks.Effect.{SymbolicEffect, is_memory_write, is_call}
use vivisect_rs.Symboliks.Emulator.{
  SymbolicEmulator, new_emulator, init_registers, get_register, EmulatorSnapshot, snapshot, restore,
  constrain_path, apply_effects, path_satisfiable,
}
use vivisect_rs.Symboliks.Graph.{
  Edge, SymbolikBlock, SymbolikGraph, SymbolikAnalysisContext, get_func_emu, get_block, entry_block,
}

-- `struct PathResult`.
pub record PathResult : Type 0 where
  pub emulator : SymbolicEmulator
  pub effects : List SymbolicEffect
  pub constraints : List SymbolicValue
  pub path : List ℕ

-- The loop over the constraints before the entry.
unfoldable pub constrain_all : SymbolicEmulator → List SymbolicValue → SymbolicEmulator
constrain_all emu [] = emu
constrain_all emu (c ∷ cs) = constrain_all (constrain_path emu 0 c) cs

-- `path.iter().filter(|&&v| v == target).count()`.
unfoldable pub visits : ℕ → List ℕ → ℕ
visits target [] = 0
visits target (v ∷ vs) = let rest = visits target vs in if v == target then suc rest else rest

-- An entry of the work stack.
pub record WorkItem : Type 0 where
  pub snap : EmulatorSnapshot
  pub acc_effects : List SymbolicEffect
  pub path : List ℕ
  pub acc_constraints : List SymbolicValue
  pub edges : List Edge

-- What is pushed for an edge out of a block that a path has reached.
abbrev pub item_of : PathResult → Edge → WorkItem
item_of r e = record {
  snap = snapshot r.emulator;
  acc_effects = r.effects;
  path = r.path;
  acc_constraints = r.constraints;
  edges = e ∷ [];
}

-- The loop that pushes the edges, with the top of the stack first.
abbrev pub push_all : PathResult → List Edge → List WorkItem → List WorkItem
push_all r [] stack = stack
push_all r (e ∷ es) stack = push_all r es (item_of r e ∷ stack)

-- The state of the loop.
pub record WalkState : Type 0 where
  pub results : List PathResult
  pub path_count : ℕ
  pub work_stack : List WorkItem

-- The end of a round for a target, by the edges of its block: the result is recorded, or the edges are
-- pushed.
abbrev pub record_step : WalkState → List Edge → PathResult → WalkState
record_step s [] r = record s { results = s.results ++ (r ∷ []); path_count = s.path_count + 1 }
record_step s (e ∷ es) r = record s { work_stack = push_all r (e ∷ es) s.work_stack }

module _ (hash : String → ℕ) where
  -- The emulator before the entry block.
  unfoldable pub start_emulator : SymbolikAnalysisContext → SymbolicEmulator
  start_emulator ctx =
      constrain_all
        (elim ctx.pre_effects [
          | [] ↦ get_func_emu ctx
          | e ∷ es ↦ (apply_effects hash (get_func_emu ctx) (e ∷ es)).0
        ])
        ctx.pre_constraints

module _ {O : Type 0} where
  -- The outcome of an edge: nothing if it was left, or the block and the path that it leads to.
  abbrev pub take_edge : WalkState → Option (SymbolikBlock O × PathResult) → WalkState
  take_edge s none = s
  take_edge s (some (block, r)) = record_step s block.successors r

  module _ (hash : String → ℕ) where
    -- The path of the entry block alone, as the edges out of it are pushed.
    unfoldable pub entry_path : SymbolikAnalysisContext → SymbolikBlock O → PathResult
    entry_path ctx entry = record {
      emulator = (apply_effects hash (start_emulator hash ctx) entry.effects).0;
      effects = entry.effects;
      constraints = ctx.pre_constraints;
      path = entry.va ∷ [];
    }

    -- The effects of a target are applied, and the target joins the path.
    unfoldable pub arrive :
        WorkItem → ℕ → SymbolikBlock O → SymbolicEmulator → List SymbolicValue → PathResult
    arrive item target block emu constraints =
        let applied = apply_effects hash emu block.effects in
        record {
          emulator = applied.0;
          effects = item.acc_effects ++ applied.1;
          constraints = constraints;
          path = item.path ++ (target ∷ []);
        }

    -- The constraint of an edge is put on a fresh emulator with the snapshot; the path is left if it
    -- cannot be satisfied.
    unfoldable pub enter :
        SymbolikAnalysisContext → WorkItem → Edge → SymbolikBlock O → Option PathResult
    enter ctx item (target, none) block = some (
        arrive item target block (restore (new_emulator ctx.pointer_size) item.snap)
          item.acc_constraints)
    enter ctx item (target, some c) block =
        let emu = constrain_path (restore (new_emulator ctx.pointer_size) item.snap) target c in
        if path_satisfiable hash emu
        then some (arrive item target block emu (item.acc_constraints ++ (c ∷ [])))
        else none

    -- The checks of an edge, and the block that it leads to.
    unfoldable pub advance :
        SymbolikAnalysisContext
        → SymbolikGraph O
        → WorkItem
        → Edge
        → Option (SymbolikBlock O × PathResult)
    advance ctx g item (target, constraint) =
        if leb ctx.max_loop_count (visits target item.path)
        then none
        else elim (get_block g target) [
          | none ↦ none
          | some block ↦ elim (enter ctx item (target, constraint) block) [
            | none ↦ none
            | some r ↦ some (block, r)
          ]
        ]

    -- The loop over the edges of an item.
    unfoldable pub edges_loop :
        SymbolikAnalysisContext → SymbolikGraph O → WorkItem → List Edge → WalkState → WalkState
    edges_loop ctx g item [] s = s
    edges_loop ctx g item (e ∷ es) s =
        if leb ctx.max_paths s.path_count
        then s
        else edges_loop ctx g item es (take_edge s (advance ctx g item e))

    -- The loop over the work stack, on fuel: `none` if the fuel does not last.
    unfoldable pub walk_loop :
        ℕ → SymbolikAnalysisContext → SymbolikGraph O → WalkState → Option (List PathResult)
    walk_loop zero ctx g s = none
    walk_loop (suc k) ctx g s = elim s.work_stack [
      | [] ↦ some s.results
      | item ∷ rest ↦
          let next =
            walk_loop k ctx g (edges_loop ctx g item item.edges (record s { work_stack = rest })) in
          if leb ctx.max_paths s.path_count then some s.results else next
    ]

    -- The walk from an entry block that has the path `r` and the edges.
    abbrev pub walk_edges :
        ℕ
        → SymbolikAnalysisContext
        → SymbolikGraph O
        → PathResult
        → List Edge
        → Option (List PathResult)
    walk_edges k ctx g r [] = some (record r { constraints = [] } ∷ [])
    walk_edges k ctx g r (e ∷ es) =
        walk_loop k ctx g
          (record { results = []; path_count = 0; work_stack = push_all r (e ∷ es) [] })

    -- `walk_symbolik_paths`, by the block of the entry.
    abbrev pub walk_from :
        ℕ
        → SymbolikAnalysisContext
        → SymbolikGraph O
        → Option (SymbolikBlock O)
        → Option (List PathResult)
    walk_from k ctx g none = some []
    walk_from k ctx g (some entry) = walk_edges k ctx g (entry_path ctx entry) entry.successors

    unfoldable pub walk_symbolik_paths :
        ℕ → SymbolikAnalysisContext → SymbolikGraph O → Option (List PathResult)
    walk_symbolik_paths k ctx g = walk_from k ctx g (entry_block g)
