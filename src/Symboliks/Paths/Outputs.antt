-- ===== src/Symboliks/Paths/Outputs.antt =====
-- src/symboliks/analysis.rs: the outputs of the walk.
use vivisect_rs.Base.{ℕ, ◌==◌, Option, none, some, String, List, if◌then◌else◌, keep, map}
use mathlib.Core.Option
use vivisect_rs.Symboliks.Value.{SymbolicValue, var}
use vivisect_rs.Symboliks.Effect.{SymbolicEffect, is_memory_write, is_call}
use vivisect_rs.Symboliks.Emulator.{get_register}
use vivisect_rs.Symboliks.Graph.{SymbolikGraph, SymbolikAnalysisContext}
use vivisect_rs.Symboliks.Paths.{PathResult, walk_symbolik_paths}

-- `struct SymbolikOutput`.
pub record SymbolikOutput : Type 0 where
  pub return_value : Option SymbolicValue
  pub memory_writes : List SymbolicEffect
  pub calls : List SymbolicEffect
  pub constraints : List SymbolicValue

-- A register that still holds a variable has no value to return.
abbrev pub returned : SymbolicValue → Option SymbolicValue
returned (var name width) = none
returned v = some v

-- The output for a path.
unfoldable pub output_of : SymbolikAnalysisContext → PathResult → SymbolikOutput
output_of ctx r = record {
  return_value =
      returned (get_register r.emulator (if ctx.pointer_size == 8 then "rax" else "eax"));
  memory_writes = keep is_memory_write r.effects;
  calls = keep is_call r.effects;
  constraints = r.constraints;
}

module _ {O : Type 0} (hash : String → ℕ) where
  -- `get_symbolik_outputs`.
  unfoldable pub get_symbolik_outputs :
      ℕ → SymbolikAnalysisContext → SymbolikGraph O → Option (List SymbolikOutput)
  get_symbolik_outputs k ctx g = Option.map (map (output_of ctx)) (walk_symbolik_paths hash k ctx g)
