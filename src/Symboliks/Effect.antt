-- ===== src/Symboliks/Effect.antt =====
-- src/symboliks/effect.rs: what an instruction does, in terms of symbolic values. The hash of names,
-- which `reduce` needs, is the parameter `hash`.
use vivisect_rs.Base.{ℕ, Bool, true, false, Option, none, some, String, str_eq}
use vivisect_rs.Symboliks.Value.{SymbolicValue, Args}
use vivisect_rs.Symboliks.Reducer.{reduce, reduce_args}

-- `enum SymbolicEffect`. Each effect has the address of its instruction.
pub data SymbolicEffect : Type 0 where
  set_variable : (va : ℕ) (name : String) (value : SymbolicValue) → SymbolicEffect
  read_effect : (va : ℕ) (addr : SymbolicValue) (size : ℕ) → SymbolicEffect
  write_effect : (va : ℕ) (addr : SymbolicValue) (size : ℕ) (value : SymbolicValue) → SymbolicEffect
  constrain_effect : (va : ℕ) (condition : SymbolicValue) → SymbolicEffect
  call_effect : (va : ℕ) (target : String) (args : Args) → SymbolicEffect
  debug : (va : ℕ) (message : String) → SymbolicEffect

-- `SymbolicEffect::va`.
unfoldable pub effect_va : SymbolicEffect → ℕ
effect_va (set_variable va name value) = va
effect_va (read_effect va addr size) = va
effect_va (write_effect va addr size value) = va
effect_va (constrain_effect va condition) = va
effect_va (call_effect va target args) = va
effect_va (debug va message) = va

-- `sets_variable`.
abbrev pub sets_variable : SymbolicEffect → String → Bool
sets_variable (set_variable va name value) var_name = str_eq name var_name
sets_variable _ var_name = false

-- `is_memory_write`, `is_call` and `is_constraint`.
abbrev pub is_memory_write : SymbolicEffect → Bool
is_memory_write (write_effect va addr size value) = true
is_memory_write _ = false

abbrev pub is_call : SymbolicEffect → Bool
is_call (call_effect va target args) = true
is_call _ = false

abbrev pub is_constraint : SymbolicEffect → Bool
is_constraint (constrain_effect va condition) = true
is_constraint _ = false

-- `variable_value` and `write_info`.
abbrev pub variable_value : SymbolicEffect → Option SymbolicValue
variable_value (set_variable va name value) = some value
variable_value _ = none

abbrev pub write_info : SymbolicEffect → Option (SymbolicValue × ℕ × SymbolicValue)
write_info (write_effect va addr size value) = some (addr, size, value)
write_info _ = none

module _ (hash : String → ℕ) where
  -- `SymbolicEffect::reduced`.
  unfoldable pub reduced : SymbolicEffect → SymbolicEffect
  reduced (set_variable va name value) = set_variable va name (reduce hash value)
  reduced (read_effect va addr size) = read_effect va (reduce hash addr) size
  reduced (write_effect va addr size value) =
      write_effect va (reduce hash addr) size (reduce hash value)
  reduced (constrain_effect va condition) = constrain_effect va (reduce hash condition)
  reduced (call_effect va target args) = call_effect va target (reduce_args hash args)
  reduced (debug va message) = debug va message
