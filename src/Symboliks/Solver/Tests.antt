-- ===== src/Symboliks/Solver/Tests.antt =====
-- Runs of src/symboliks/solver.rs on the inputs of its unit tests.
use vivisect_rs.Base.{ℕ, ◌≤◌, ◌≡◌, refl, true, false, List, [], ◌∷◌, arith}
use vivisect_rs.Symboliks.Value.{Op, ConstraintOp, SymbolicValue, const, var, oper, constraint}
use vivisect_rs.Symboliks.Solver.{
  new_solver, is_var_named, op_bounds, try_var_op_const, try_const_op_var,
  try_var_plus_offset_op_const, adjust, extract_single_bound, narrow, extract_from, extract_bounds,
  eval_op, constraint_holds, both_known, eval_with_subst, holds_if_known, verify_single_constraint,
  verify_constraints, collect_from, collect_vars_recursive, insert_name,
}
use vivisect_rs.Symboliks.Solver.Enumerate.{
  done, out_of_fuel, admits, masked, direct_loop, enumerate_values, check_sat,
}
use vivisect_rs.Symboliks.Solver.Bounds.{extract_bounds_sound}
use vivisect_rs.Symboliks.Solver.Exact.{contains, enumerate_exact}
use vivisect_rs.Symboliks.Solver.Divergence.{enumerate_diverges}
use vivisect_rs.Symboliks.Solver.Sampling.{returns, enumerate_returns}

abbrev idx : SymbolicValue
idx = var "idx" 4

-- `idx <u 5`, `idx - 2 >= 0`
abbrev cases_of_switch : List SymbolicValue
cases_of_switch =
    constraint ConstraintOp.ult idx (const 5 4)
    ∷ constraint ConstraintOp.ge (oper Op.sub idx (const 2 4)) (const 0 4)
    ∷ []

switch_bounds : extract_bounds "idx" cases_of_switch ≡ record { lower = 2; upper = 4 }
unfolding extract_from narrow extract_single_bound try_var_op_const is_var_named op_bounds
    try_const_op_var try_var_plus_offset_op_const adjust
switch_bounds = refl

switch_values : enumerate_values "idx" 4 cases_of_switch 0 new_solver 10 ≡ done (2 ∷ 3 ∷ 4 ∷ [])
unfolding enumerate_values direct_loop masked verify_constraints verify_single_constraint
    holds_if_known constraint_holds eval_with_subst both_known eval_op extract_from narrow
    extract_single_bound try_var_op_const is_var_named op_bounds try_const_op_var
    try_var_plus_offset_op_const adjust
switch_values = refl

switch_sat : check_sat (λ s. 0) cases_of_switch ≡ true
unfolding check_sat collect_from collect_vars_recursive insert_name extract_from narrow
    extract_single_bound try_var_op_const is_var_named op_bounds try_const_op_var
    try_var_plus_offset_op_const adjust
switch_sat = refl

extract_bounds_sound_example :
    ((extract_bounds "idx" cases_of_switch).lower ≤ 3)
    × (3 ≤ (extract_bounds "idx" cases_of_switch).upper)
unfolding verify_constraints verify_single_constraint holds_if_known constraint_holds
    eval_with_subst both_known eval_op
extract_bounds_sound_example =
    extract_bounds_sound "idx" 3 cases_of_switch (omega arith) (omega arith) refl

enumerate_exact_example :
    (values : List ℕ) × (enumerate_values "idx" 4 cases_of_switch 0 new_solver 10 ≡ done values)
    × (contains 3 values ≡ verify_constraints "idx" 3 cases_of_switch)
unfolding eval_with_subst both_known eval_op extract_from narrow extract_single_bound
    try_var_op_const is_var_named op_bounds try_const_op_var try_var_plus_offset_op_const adjust
enumerate_exact_example =
    enumerate_exact "idx" 4 cases_of_switch 0 new_solver 10 3 (omega arith) (omega arith)
      (omega arith)

-- `idx <u 100000`, sampled at 10 values.
abbrev wide_range : List SymbolicValue
wide_range = constraint ConstraintOp.ult idx (const 100000 4) ∷ []

enumerate_returns_example :
    returns (enumerate_values "idx" 4 wide_range 100002 new_solver 10) ≡ true
unfolding extract_from narrow extract_single_bound try_var_op_const is_var_named op_bounds
enumerate_returns_example =
    enumerate_returns "idx" 4 wide_range 100002 new_solver 10 (omega arith) (omega arith)
      (omega arith) (omega arith)

-- `idx >u 7` together with the false `1 == 2`: no value passes, and the range reaches the end.
abbrev impossible : List SymbolicValue
impossible =
    constraint ConstraintOp.ugt idx (const 7 8)
    ∷ constraint ConstraintOp.eq (const 1 8) (const 2 8)
    ∷ []

impossible_at : (x : ℕ) → admits "idx" 8 impossible x ≡ false
unfolding verify_constraints verify_single_constraint holds_if_known constraint_holds
    eval_with_subst
impossible_at x = ground arith

enumerate_diverges_example : enumerate_values "idx" 8 impossible 1000 new_solver 10 ≡ out_of_fuel
unfolding extract_from narrow extract_single_bound try_var_op_const is_var_named op_bounds
    try_const_op_var try_var_plus_offset_op_const
enumerate_diverges_example =
    enumerate_diverges "idx" 8 impossible 1000 new_solver 10 refl (omega arith) (omega arith)
      (omega arith) (omega arith) impossible_at

-- `idx != 3` bounds nothing.
abbrev no_bound : List SymbolicValue
no_bound = constraint ConstraintOp.ne idx (const 3 4) ∷ []
