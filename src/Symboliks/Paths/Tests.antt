-- ===== src/Symboliks/Paths/Tests.antt =====
-- src/symboliks/analysis.rs: runs.
use vivisect_rs.Base.{
  ℕ, ◌≡◌, ◌<◌, ◌≤◌, max, refl, none, some, String, List, [], ◌∷◌, arith, All, length, map,
  unwrap_or, inl, inr,
}
use vivisect_rs.BTreeMap.{get, insert}
use vivisect_rs.Symboliks.Value.{Op, const, var, oper, is_discrete}
use vivisect_rs.Symboliks.Reducer.{reduce}
use vivisect_rs.Symboliks.Effect.{SymbolicEffect, set_variable}
use vivisect_rs.Symboliks.Emulator.{
  new_emulator, init_registers, restore, constrain_path, apply_effect, apply_from, all_satisfiable,
}
use vivisect_rs.Symboliks.Paths.{
  PathResult, walk_symbolik_paths, walk_loop, edges_loop, advance, enter, arrive, start_emulator,
  entry_path, constrain_all, visits, item_of, WorkItem,
}
use vivisect_rs.Base.{Member}
use vivisect_rs.Symboliks.Paths.Steps.{IsResult, completed, ends}
use vivisect_rs.Symboliks.Paths.Sound.{walk_symbolik_paths-IsSound}
use vivisect_rs.Symboliks.Paths.Counted.{walk_symbolik_paths-IsBounded}
use vivisect_rs.Symboliks.Paths.Complete.{walk_symbolik_paths-Complete}
use vivisect_rs.Symboliks.Paths.Halting.{walk_symbolik_paths_ends}
use vivisect_rs.Symboliks.Paths.Trail.{IsVisited}
use vivisect_rs.Symboliks.Paths.Results.{
  HasTrail, HasReplay, walk_symbolik_paths-HasTrail, walk_symbolik_paths-HasReplay,
}
use vivisect_rs.Symboliks.Graph.{
  SymbolikBlock, SymbolikGraph, SymbolikAnalysisContext, new_analysis_context, new_graph, add_block,
  get_func_emu,
}

abbrev a_hash : String → ℕ
a_hash name = 77

abbrev ctx : SymbolikAnalysisContext
ctx = new_analysis_context 8

abbrev add_one : SymbolicEffect
add_one = set_variable 16 "rax" (oper Op.add (var "rax" 8) (const 1 8))

-- A block that leads to itself and to the end.
abbrev round_block : SymbolikBlock ℕ
round_block = record {
  va = 16;
  opcodes = [];
  effects = add_one ∷ [];
  successors = (16, none) ∷ (32, some (var "rbx" 8)) ∷ [];
}

abbrev end_block : SymbolikBlock ℕ
end_block = record { va = 32; opcodes = []; effects = []; successors = [] }

abbrev g : SymbolikGraph ℕ
g = add_block (add_block (new_graph 16) round_block) end_block

abbrev rs : List PathResult
rs = unwrap_or (walk_symbolik_paths a_hash 9 ctx g) []

run : walk_symbolik_paths a_hash 9 ctx g ≡ some rs
unfolding walk_symbolik_paths walk_loop get insert edges_loop advance enter arrive start_emulator
    entry_path constrain_all get_func_emu visits apply_from apply_effect init_registers
    all_satisfiable constrain_path restore is_discrete reduce
run = refl

paths : map (λ (r : PathResult). r.path) rs ≡ (16 ∷ 32 ∷ []) ∷ (16 ∷ 16 ∷ 32 ∷ []) ∷ []
unfolding walk_symbolik_paths get insert walk_loop edges_loop advance visits entry_path enter
    all_satisfiable constrain_path restore is_discrete reduce arrive
paths = refl

few : length rs < 1000
unfolding walk_symbolik_paths get insert walk_loop edges_loop advance visits entry_path enter
    all_satisfiable constrain_path restore is_discrete reduce arrive
few = omega arith

-- The path that leaves the round block at once.
abbrev item : WorkItem
item = item_of (entry_path a_hash ctx round_block) (32, some (var "rbx" 8))

abbrev straight : PathResult
straight =
    arrive a_hash item 32 end_block
      (constrain_path (restore (new_emulator 8) item.snap) 32 (var "rbx" 8)) (var "rbx" 8 ∷ [])

straight-IsResult : IsResult a_hash ctx g straight
unfolding advance get insert visits enter entry_path all_satisfiable constrain_path restore
    is_discrete reduce
straight-IsResult =
    completed round_block (32, some (var "rbx" 8)) refl (inr (inl refl))
      (ends (32, some (var "rbx" 8)) end_block (inl refl) refl refl)

walk_symbolik_paths-IsSound_example : All (IsResult a_hash ctx g) rs
walk_symbolik_paths-IsSound_example = walk_symbolik_paths-IsSound a_hash ctx g 9 run

walk_symbolik_paths-IsBounded_example : length rs ≤ max 1 1000
walk_symbolik_paths-IsBounded_example = walk_symbolik_paths-IsBounded a_hash ctx g 9 run

walk_symbolik_paths-Complete_example : Member straight rs
walk_symbolik_paths-Complete_example =
    walk_symbolik_paths-Complete a_hash ctx g 9 straight run few straight-IsResult

walk_symbolik_paths_ends_example :
    (k : ℕ) × ((found : List PathResult) × (walk_symbolik_paths a_hash k ctx g ≡ some found))
walk_symbolik_paths_ends_example = walk_symbolik_paths_ends a_hash ctx g

walk_symbolik_paths-HasTrail_example :
    All (λ r. HasTrail a_hash ctx g r × IsVisited g a_hash ctx r.path) rs
walk_symbolik_paths-HasTrail_example = walk_symbolik_paths-HasTrail a_hash ctx g 9 run

walk_symbolik_paths-HasReplay_example : All (HasReplay a_hash ctx g) rs
walk_symbolik_paths-HasReplay_example = walk_symbolik_paths-HasReplay a_hash ctx g 9 run
