-- ===== src/Symboliks/Solver.antt =====
-- src/symboliks/solver.rs: bounds of a variable from a set of constraints, the check of a value
-- against them, and the enumeration of the values that they admit.
pub mod Enumerate
pub mod Bounds
pub mod Exact
pub mod Sampling
pub mod Divergence
mod Tests
use vivisect_rs.Base.{
  ℕ, zero, suc, ◌+◌, ◌-◌, ◌/◌, ◌%◌, ◌^◌, min, max, Bool, true, false, not as bool_not, ◌&&◌, Option,
  none, some, String, List, [], ◌∷◌, ◌++◌, bit_and, bit_or, bit_xor, ltb, leb, ◌==◌, if◌then◌else◌,
  ◌or_else◌, unwrap_or, str_eq, length, any, all,
}
use vivisect_rs.Word.{
  u64_mod, u64_max, wrapping_add, wrapping_sub, wrapping_mul, wrapping_shl, wrapping_shr,
  wrapping_sar, not_u64, neg_u64, signed_lt, signed_le, saturating_add, saturating_sub,
}
use vivisect_rs.Symboliks.Value.{
  Op, add, sub, mul, div, modulo, and, or, xor, shl, shr, sar, not, neg, ConstraintOp, eq, ne, lt,
  le, gt, ge, ult, ugt, SymbolicValue, const, var, arg, mem, oper, call, constraint, Args, nil,
  cons, as_const, is_discrete,
}
use vivisect_rs.Symboliks.Value.Solve.{solve}

-- `struct SymbolicSolver`.
pub record SymbolicSolver : Type 0 where
  pub max_brute_force : ℕ

-- `SymbolicSolver::new`.
abbrev pub new_solver : SymbolicSolver
new_solver = record { max_brute_force = 4096 }

-- `struct VarBounds`: the least and the greatest value, both included.
pub record VarBounds : Type 0 where
  pub lower : ℕ
  pub upper : ℕ

-- `HashSet::insert`, on a list without repetitions.
unfoldable pub insert_name : String → List String → List String
insert_name name vars = if any (str_eq name) vars then vars else name ∷ vars

unfoldable mutual
  -- `collect_vars_recursive`.
  pub collect_vars_recursive : SymbolicValue → List String → List String
  collect_vars_recursive (const value w) vars = vars
  collect_vars_recursive (var name w) vars = insert_name name vars
  collect_vars_recursive (arg index w) vars = vars
  collect_vars_recursive (mem addr w) vars = collect_vars_recursive addr vars
  collect_vars_recursive (oper op l r) vars =
      collect_vars_recursive r (collect_vars_recursive l vars)
  collect_vars_recursive (call target args w) vars = collect_vars_args args vars
  collect_vars_recursive (constraint op l r) vars =
      collect_vars_recursive r (collect_vars_recursive l vars)

  -- The loop over the arguments of a call.
  pub collect_vars_args : Args → List String → List String
  collect_vars_args nil vars = vars
  collect_vars_args (cons a args) vars = collect_vars_args args (collect_vars_recursive a vars)

-- `collect_variables`: the loop over the constraints.
unfoldable pub collect_from : List SymbolicValue → List String → List String
collect_from [] vars = vars
collect_from (c ∷ cs) vars = collect_from cs (collect_vars_recursive c vars)

abbrev pub collect_variables : List SymbolicValue → List String
collect_variables cs = collect_from cs []

-- `is_var_named`.
unfoldable pub is_var_named : SymbolicValue → String → Bool
is_var_named (var n w) name = str_eq n name
is_var_named _ name = false

-- The bound of `try_var_op_const`, by the comparison.
unfoldable pub op_bounds : ConstraintOp → ℕ → Option VarBounds
op_bounds eq c = some (record { lower = c; upper = c })
op_bounds ne c = none
op_bounds lt c = some (record { lower = 0; upper = saturating_sub c 1 })
op_bounds ult c = some (record { lower = 0; upper = saturating_sub c 1 })
op_bounds le c = some (record { lower = 0; upper = c })
op_bounds gt c = some (record { lower = saturating_add c 1; upper = u64_max })
op_bounds ugt c = some (record { lower = saturating_add c 1; upper = u64_max })
op_bounds ge c = some (record { lower = c; upper = u64_max })

-- `try_var_op_const`.
unfoldable pub try_var_op_const :
    String → ConstraintOp → SymbolicValue → SymbolicValue → Option VarBounds
try_var_op_const name op l r =
    if is_var_named l name
    then (elim (as_const r) [ none ↦ none | some c ↦ op_bounds op c ])
    else none

-- The flip of `try_const_op_var`.
unfoldable pub flip : ConstraintOp → ConstraintOp
flip eq = eq
flip ne = ne
flip lt = gt
flip le = ge
flip gt = lt
flip ge = le
flip ult = ugt
flip ugt = ult

-- `try_const_op_var`.
unfoldable pub try_const_op_var :
    String → ConstraintOp → SymbolicValue → SymbolicValue → Option VarBounds
try_const_op_var name op l r =
    if is_var_named r name
    then (elim (as_const l) [
      | none ↦ none
      | some c ↦ try_var_op_const name (flip op) r (const c 4)
    ])
    else none

-- The adjusted constant of `try_var_plus_offset_op_const`.
unfoldable pub adjust : Op → ℕ → ℕ → Option ℕ
adjust add c offset = some (wrapping_sub c offset)
adjust sub c offset = some (wrapping_add c offset)
adjust _ c offset = none

-- `try_var_plus_offset_op_const`.
unfoldable pub try_var_plus_offset_op_const :
    String → ConstraintOp → SymbolicValue → SymbolicValue → Option VarBounds
try_var_plus_offset_op_const name op (oper arith_op x (const offset w)) (const c w') =
    if is_var_named x name
    then (elim (adjust arith_op c offset) [
      | none ↦ none
      | some k ↦ try_var_op_const name op (var name 4) (const k 4)
    ])
    else none
try_var_plus_offset_op_const name op l r = none

-- `extract_single_bound`.
unfoldable pub extract_single_bound : String → SymbolicValue → Option VarBounds
extract_single_bound name (constraint op l r) =
    try_var_op_const name op l r
    or_else try_const_op_var name op l r
    or_else try_var_plus_offset_op_const name op l r
extract_single_bound name _ = none

-- One round of `extract_bounds`: the intersection with the bound of a constraint.
unfoldable pub narrow : VarBounds → Option VarBounds → VarBounds
narrow b none = b
narrow b (some c) = record { lower = max b.lower c.lower; upper = min b.upper c.upper }

-- `extract_bounds`: the loop, from the bounds so far.
unfoldable pub extract_from : String → VarBounds → List SymbolicValue → VarBounds
extract_from name b [] = b
extract_from name b (c ∷ cs) = extract_from name (narrow b (extract_single_bound name c)) cs

abbrev pub extract_bounds : String → List SymbolicValue → VarBounds
extract_bounds name cs = extract_from name (record { lower = 0; upper = u64_max }) cs

-- `eval_op`; the operations that it does not list give 0.
unfoldable pub eval_op : Op → ℕ → ℕ → ℕ
eval_op add l r = wrapping_add l r
eval_op sub l r = wrapping_sub l r
eval_op mul l r = wrapping_mul l r
eval_op div l r = if r == 0 then 0 else l / r
eval_op modulo l r = if r == 0 then 0 else l % r
eval_op and l r = bit_and l r
eval_op or l r = bit_or l r
eval_op xor l r = bit_xor l r
eval_op shl l r = wrapping_shl l r
eval_op shr l r = wrapping_shr l r
eval_op sar l r = wrapping_sar l r
eval_op not l r = not_u64 l
eval_op neg l r = neg_u64 l
eval_op _ l r = 0

-- The comparison of `verify_single_constraint`, which `eval_with_subst` repeats.
unfoldable pub constraint_holds : ConstraintOp → ℕ → ℕ → Bool
constraint_holds eq l r = l == r
constraint_holds ne l r = bool_not (l == r)
constraint_holds lt l r = signed_lt l r
constraint_holds le l r = signed_le l r
constraint_holds gt l r = signed_lt r l
constraint_holds ge l r = signed_le r l
constraint_holds ult l r = ltb l r
constraint_holds ugt l r = ltb r l

-- `?` on the two operands, then a function of their values.
unfoldable pub both_known : Option ℕ → Option ℕ → (ℕ → ℕ → ℕ) → Option ℕ
both_known none r f = none
both_known (some a) none f = none
both_known (some a) (some b) f = some (f a b)

-- `eval_with_subst`.
unfoldable pub eval_with_subst : SymbolicValue → String → ℕ → Option ℕ
eval_with_subst (const value w) name x = some value
eval_with_subst (var n w) name x = if str_eq n name then some x else none
eval_with_subst (oper op l r) name x =
    both_known (eval_with_subst l name x) (eval_with_subst r name x) (eval_op op)
eval_with_subst (constraint op l r) name x =
    both_known (eval_with_subst l name x) (eval_with_subst r name x)
      (λ a b. if constraint_holds op a b then 1 else 0)
eval_with_subst _ name x = none

-- The test of `verify_single_constraint` on two values that may be unknown.
unfoldable pub holds_if_known : ConstraintOp → Option ℕ → Option ℕ → Bool
holds_if_known op (some a) (some b) = constraint_holds op a b
holds_if_known op _ _ = true

-- `verify_single_constraint`.
unfoldable pub verify_single_constraint : String → ℕ → SymbolicValue → Bool
verify_single_constraint name x (constraint op l r) =
    holds_if_known op (eval_with_subst l name x) (eval_with_subst r name x)
verify_single_constraint name x _ = true

-- `verify_constraints`.
unfoldable pub verify_constraints : String → ℕ → List SymbolicValue → Bool
verify_constraints name x cs = all (verify_single_constraint name x) cs
