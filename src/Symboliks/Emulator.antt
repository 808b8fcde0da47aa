-- ===== src/Symboliks/Emulator.antt =====
-- src/symboliks/emulator.rs: symbolic execution, the state of registers and memory over expressions.
-- The hash of names, which `reduce` needs, is the parameter `hash`.
pub mod Effects
pub mod Machine
pub mod Stack
mod Tests
use vivisect_rs.Base.{
  ℕ, ◌==◌, Bool, true, false, ◌&&◌, Option, none, some, String, List, [], ◌∷◌, ◌++◌, if◌then◌else◌,
  leb, unwrap_or,
}
use vivisect_rs.Word.{wrapping_sub}
use vivisect_rs.BTreeMap.{BTreeMap, get, insert}
use vivisect_rs.HashMap.{NameMap, find_name, put_name}
use vivisect_rs.Symboliks.Value.{
  Op, add, sub, SymbolicValue, const, var, mem, oper, Args, as_const, is_discrete,
}
use vivisect_rs.Symboliks.Value.Solve.{solve}
use vivisect_rs.Symboliks.Reducer.{reduce, reduce_args}
use vivisect_rs.Symboliks.Effect.{
  SymbolicEffect, set_variable, read_effect, write_effect, constrain_effect, call_effect, debug,
}

-- `struct SymbolicEmulator`.
pub record SymbolicEmulator : Type 0 where
  pub registers : NameMap SymbolicValue
  pub memory : BTreeMap SymbolicValue
  pub effects : List SymbolicEffect
  pub pointer_size : ℕ
  pub constraints : List SymbolicValue
  pub metadata : NameMap ℕ

-- `SymbolicEmulator::new`.
abbrev pub new_emulator : ℕ → SymbolicEmulator
new_emulator pointer_size = record {
  registers = [];
  memory = [];
  effects = [];
  pointer_size = pointer_size;
  constraints = [];
  metadata = [];
}

-- `init_register`, and the loop of `init_x64_registers` and `init_x86_registers`.
abbrev pub init_register : SymbolicEmulator → String → SymbolicEmulator
init_register emu name = record emu {
  registers = put_name name (var name emu.pointer_size) emu.registers;
}

unfoldable pub init_registers : SymbolicEmulator → List String → SymbolicEmulator
init_registers emu [] = emu
init_registers emu (name ∷ names) = init_registers (init_register emu name) names

-- `get_register`: a register that is not set stands for itself.
unfoldable pub get_register : SymbolicEmulator → String → SymbolicValue
get_register emu name = unwrap_or (find_name name emu.registers) (var name emu.pointer_size)

-- `struct EmulatorSnapshot`, `snapshot` and `restore`.
pub record EmulatorSnapshot : Type 0 where
  pub saved_variables : NameMap SymbolicValue
  pub saved_memory : BTreeMap SymbolicValue

unfoldable pub snapshot : SymbolicEmulator → EmulatorSnapshot
snapshot emu = record { saved_variables = emu.registers; saved_memory = emu.memory }

unfoldable pub restore : SymbolicEmulator → EmulatorSnapshot → SymbolicEmulator
restore emu snap = record emu { registers = snap.saved_variables; memory = snap.saved_memory }

-- `get_meta` and `set_meta`.
abbrev pub get_meta : SymbolicEmulator → String → Option ℕ
get_meta emu key = find_name key emu.metadata

abbrev pub set_meta : SymbolicEmulator → String → ℕ → SymbolicEmulator
set_meta emu key value = record emu { metadata = put_name key value emu.metadata }

-- The write to the memory map, where the address is a constant.
abbrev pub track : SymbolicValue → SymbolicValue → BTreeMap SymbolicValue → BTreeMap SymbolicValue
track addr value m = elim (as_const addr) [ none ↦ m | some a ↦ insert a value m ]

-- The value read from the memory map, where the address is a constant with an entry.
abbrev pub tracked : SymbolicValue → BTreeMap SymbolicValue → Option SymbolicValue
tracked addr m = elim (as_const addr) [ none ↦ none | some a ↦ get a m ]

-- `read_memory`: the emulator with the effect recorded, and the value.
unfoldable pub read_symbolic :
    SymbolicEmulator → ℕ → SymbolicValue → ℕ → SymbolicEmulator × SymbolicValue
read_symbolic emu va addr size = (
  record emu { effects = emu.effects ++ (read_effect va addr size ∷ []) },
  unwrap_or (tracked addr emu.memory) (mem addr size),
)

-- `call_function` and `constrain_path`.
unfoldable pub call_function : SymbolicEmulator → ℕ → String → Args → SymbolicEmulator
call_function emu va target args = record emu {
  effects = emu.effects ++ (call_effect va target args ∷ []);
}

unfoldable pub constrain_path : SymbolicEmulator → ℕ → SymbolicValue → SymbolicEmulator
constrain_path emu va condition = record emu {
  constraints = emu.constraints ++ (condition ∷ []);
  effects = emu.effects ++ (constrain_effect va condition ∷ []);
}

-- `is_stack_memory`.
unfoldable pub is_stack_memory : SymbolicValue → ℕ → ℕ → Bool
is_stack_memory addr stack_base stack_size = elim (as_const addr) [
  | none ↦ false
  | some a ↦ leb (wrapping_sub stack_base stack_size) a && leb a stack_base
]

-- `take_effects`: the emulator with no effects, and the effects.
unfoldable pub take_effects : SymbolicEmulator → SymbolicEmulator × List SymbolicEffect
take_effects emu = (record emu { effects = [] }, emu.effects)

-- `reset`.
unfoldable pub reset : SymbolicEmulator → SymbolicEmulator
reset emu = record emu { effects = []; memory = []; constraints = [] }

module _ (hash : String → ℕ) where
  -- `set_register` and `set_register_silent`.
  unfoldable pub set_register : SymbolicEmulator → ℕ → String → SymbolicValue → SymbolicEmulator
  set_register emu va name value = record emu {
    effects = emu.effects ++ (set_variable va name (reduce hash value) ∷ []);
    registers = put_name name (reduce hash value) emu.registers;
  }

  unfoldable pub set_register_silent : SymbolicEmulator → String → SymbolicValue → SymbolicEmulator
  set_register_silent emu name value = record emu {
    registers = put_name name (reduce hash value) emu.registers;
  }

  -- `write_memory`.
  unfoldable pub write_symbolic :
      SymbolicEmulator → ℕ → SymbolicValue → ℕ → SymbolicValue → SymbolicEmulator
  write_symbolic emu va addr size value = record emu {
    effects = emu.effects ++ (write_effect va addr size (reduce hash value) ∷ []);
    memory = track addr (reduce hash value) emu.memory;
  }

  -- `apply_effect`: the emulator, and the effect with its expressions reduced.
  unfoldable pub apply_effect :
      SymbolicEmulator → SymbolicEffect → SymbolicEmulator × SymbolicEffect
  apply_effect emu (set_variable va name value) = (
    record emu { registers = put_name name (reduce hash value) emu.registers },
    set_variable va name (reduce hash value),
  )
  apply_effect emu (read_effect va addr size) = (emu, read_effect va (reduce hash addr) size)
  apply_effect emu (write_effect va addr size value) = (
    record emu { memory = track (reduce hash addr) (reduce hash value) emu.memory },
    write_effect va (reduce hash addr) size (reduce hash value),
  )
  apply_effect emu (constrain_effect va condition) = (
    record emu { constraints = emu.constraints ++ (reduce hash condition ∷ []) },
    constrain_effect va (reduce hash condition),
  )
  apply_effect emu (call_effect va target args) =
      (emu, call_effect va target (reduce_args hash args))
  apply_effect emu (debug va message) = (emu, debug va message)

  -- The loop of `apply_effects`, with the effects applied so far.
  unfoldable pub apply_from :
      SymbolicEmulator
      → List SymbolicEffect
      → List SymbolicEffect
      → SymbolicEmulator × List SymbolicEffect
  apply_from emu applied [] = (emu, applied)
  apply_from emu applied (e ∷ es) =
      apply_from (apply_effect emu e).0 (applied ++ ((apply_effect emu e).1 ∷ [])) es

  -- `apply_effects`.
  abbrev pub apply_effects :
      SymbolicEmulator → List SymbolicEffect → SymbolicEmulator × List SymbolicEffect
  apply_effects emu es = apply_from emu [] es

  -- The loop of `path_satisfiable`, and `path_satisfiable`.
  unfoldable pub all_satisfiable : List SymbolicValue → Bool
  all_satisfiable [] = true
  all_satisfiable (c ∷ cs) =
      if is_discrete (reduce hash c) && solve hash (reduce hash c) == 0
      then false
      else all_satisfiable cs

  abbrev pub path_satisfiable : SymbolicEmulator → Bool
  path_satisfiable emu = all_satisfiable emu.constraints

  -- `process_mov` and `process_arith`.
  abbrev pub process_mov : SymbolicEmulator → ℕ → String → SymbolicValue → SymbolicEmulator
  process_mov emu va dst_reg src = set_register emu va dst_reg src

  unfoldable pub process_arith :
      SymbolicEmulator → ℕ → Op → String → SymbolicValue → SymbolicEmulator
  process_arith emu va op dst_reg src =
      set_register emu va dst_reg (oper op (get_register emu dst_reg) src)

  -- `process_push`: the write goes to the new stack pointer as it was built, before reduction.
  unfoldable pub process_push : SymbolicEmulator → ℕ → SymbolicValue → String → SymbolicEmulator
  process_push emu va value sp_name =
      let p = emu.pointer_size in
      let new_sp = oper sub (get_register emu sp_name) (const p p) in
      write_symbolic (set_register emu va sp_name new_sp) va new_sp p value

  -- `process_pop`.
  unfoldable pub process_pop :
      SymbolicEmulator → ℕ → String → String → SymbolicEmulator × SymbolicValue
  process_pop emu va dst_reg sp_name =
      let p = emu.pointer_size in
      let sp = get_register emu sp_name in
      let (read, value) = read_symbolic emu va sp p in
      let new_sp = oper add sp (const p p) in
      (set_register (set_register read va sp_name new_sp) va dst_reg value, value)

-- `struct SymbolicSummary`.
pub record SymbolicSummary : Type 0 where
  pub return_value : Option SymbolicValue
  pub memory_writes : List (SymbolicValue × SymbolicValue)
  pub calls : List (String × Args)

-- The two `filter_map`s of `summarize`.
abbrev pub writes_of : List SymbolicEffect → List (SymbolicValue × SymbolicValue)
writes_of [] = []
writes_of (write_effect va addr size value ∷ es) = (addr, value) ∷ writes_of es
writes_of (e ∷ es) = writes_of es

abbrev pub calls_of : List SymbolicEffect → List (String × Args)
calls_of [] = []
calls_of (call_effect va target args ∷ es) = (target, args) ∷ calls_of es
calls_of (e ∷ es) = calls_of es

-- `summarize`.
unfoldable pub summarize : SymbolicEmulator → SymbolicSummary
summarize emu = record {
  return_value = find_name (if emu.pointer_size == 8 then "rax" else "eax") emu.registers;
  memory_writes = writes_of emu.effects;
  calls = calls_of emu.effects;
}
