-- ===== src/Symboliks/Emulator/Tests.antt =====
-- src/symboliks/emulator.rs: runs.
use vivisect_rs.Base.{ℕ, ◌≡◌, refl, true, none, String, List, [], ◌∷◌, arith, All}
use vivisect_rs.BTreeMap.{get}
use vivisect_rs.Symboliks.Value.{
  Op, SymbolicValue, const, var, oper, ConstraintOp, constraint, is_discrete, width,
}
use vivisect_rs.Symboliks.Value.Solve.{solve}
use vivisect_rs.Symboliks.Reducer.Wide.{IsWide}
use vivisect_rs.Symboliks.Reducer.Shape.{IsDivisionFree}
use vivisect_rs.Symboliks.Effect.{SymbolicEffect, set_variable, write_effect, constrain_effect}
use vivisect_rs.Symboliks.Emulator.{
  SymbolicEmulator, new_emulator, init_register, get_register, constrain_path, apply_effects,
  process_push, process_pop,
}
use vivisect_rs.Symboliks.Emulator.Machine.{
  Machine, Denotes, execute_all, IsPlainEffect, apply_effects-Denotes,
}
use vivisect_rs.Symboliks.Emulator.Stack.{process_pop-process_push}

abbrev a_hash : String → ℕ
a_hash name = 77

abbrev start : SymbolicEmulator
start = init_register (new_emulator 8) "rsp"

-- `rax` is set to a sum, the sum is stored, and the path is taken under a condition.
abbrev condition : SymbolicValue
condition = constraint ConstraintOp.ult (const 1 8) (const 2 8)

abbrev steps : List SymbolicEffect
steps =
    set_variable 4096 "rax" (oper Op.add (const 1 8) (const 2 8))
    ∷ write_effect 4097 (const 8192 8) 8 (var "rax" 8)
    ∷ constrain_effect 4098 condition
    ∷ []

abbrev machine : Machine
machine = record {
  register = λ q. solve a_hash (get_register start q);
  cell = λ a. none;
  conditions = [];
}

start-Denotes : Denotes a_hash start machine
unfolding get
start-Denotes = record { registers_are = λ q. refl; cells_are = λ a. refl; conditions_are = refl }

condition-IsWide : IsWide a_hash condition
condition-IsWide = (omega arith, omega arith)

steps-ArePlain : All (IsPlainEffect a_hash) steps
unfolding width is_discrete
steps-ArePlain = (
  (omega arith, omega arith, omega arith, omega arith, tt),
  ((omega arith, refl, tt, tt), (condition-IsWide, tt)),
)

apply_effects-Denotes_example :
    Denotes a_hash (apply_effects a_hash start steps).0 (execute_all a_hash machine steps)
apply_effects-Denotes_example =
    apply_effects-Denotes a_hash start machine steps start-Denotes steps-ArePlain

process_pop-process_push_example :
    ((process_push a_hash start 4096 (const 1 8) "rsp").memory ≡ start.memory)
    × ((process_pop a_hash (process_push a_hash start 4096 (const 1 8) "rsp") 4097 "rax" "rsp").1
        ≡ (process_pop a_hash
            (process_push a_hash start 4096 (const 2 8) "rsp")
            4097
            "rax"
            "rsp").1)
process_pop-process_push_example =
    process_pop-process_push a_hash start 4096 4097 (const 1 8) (const 2 8) "rax" "rsp"

abbrev constrained : SymbolicEmulator
constrained = constrain_path start 4096 condition

constrained-AreConstant :
    All (λ c. IsWide a_hash c × (is_discrete c ≡ true) × IsDivisionFree c) constrained.constraints
unfolding constrain_path is_discrete
constrained-AreConstant = ((condition-IsWide, refl, (tt, tt)), tt)
