-- ===== src/Symboliks/Reducer/Tests.antt =====
-- Runs of src/symboliks/reducer.rs on the inputs of its unit tests.
use vivisect_rs.Base.{ℕ, ◌≡◌, ◌≢◌, refl, String, arith}
use vivisect_rs.Symboliks.Value.{
  Op, ConstraintOp, SymbolicValue, const, var, oper, constraint, width,
}
use vivisect_rs.Symboliks.Value.Solve.{solve, solve_op, varsolve, value_eq}
use vivisect_rs.Symboliks.Reducer.{
  reduce, reduce_oper, reduce_constraint, fold_step, fold_constants, fold_op, identity_step,
  strength_step, same_step, double_step, assoc_step, self_comparison,
}
use vivisect_rs.Word.{has_one_bit, count_trailing}
use vivisect_rs.Symboliks.Reducer.Wide.{IsWide}
use vivisect_rs.Symboliks.Reducer.Sound.{reduce_sound}

-- A hash that tells two registers apart.
abbrev sample_hash : String → ℕ
sample_hash s = 77

abbrev rax : SymbolicValue
rax = var "rax" 8

-- `(rax + 0) + (3 + 4)`
abbrev nested : SymbolicValue
nested = oper Op.add (oper Op.add rax (const 0 8)) (oper Op.add (const 3 8) (const 4 8))

-- `(rax * 8) == (rax << 3)`
abbrev scaled : SymbolicValue
scaled = constraint ConstraintOp.eq (oper Op.mul rax (const 8 8)) (oper Op.shl rax (const 3 8))

nested_runs : reduce sample_hash nested ≡ oper Op.add rax (const 7 8)
unfolding reduce reduce_oper fold_step fold_constants fold_op identity_step strength_step same_step
    double_step assoc_step value_eq solve solve_op varsolve width
nested_runs = refl

scaled_runs : reduce sample_hash scaled ≡ const 1 1
unfolding reduce reduce_oper fold_step fold_constants fold_op identity_step strength_step same_step
    double_step assoc_step value_eq solve solve_op varsolve width reduce_constraint has_one_bit
    count_trailing self_comparison
scaled_runs = refl

nested-IsWide : IsWide sample_hash nested
unfolding width
nested-IsWide = omega arith

scaled-IsWide : IsWide sample_hash scaled
unfolding width solve
scaled-IsWide = omega arith

reduce_sound_example : solve sample_hash (reduce sample_hash scaled) ≡ solve sample_hash scaled
reduce_sound_example = reduce_sound sample_hash scaled scaled-IsWide

abbrev closed : SymbolicValue
closed =
    constraint ConstraintOp.ult (oper Op.xor (const 9 4) (const 1 4))
      (oper Op.neg (const 5 4) (const 0 0))

-- On one byte folding wraps and `solve` does not.
narrow_differs :
    solve sample_hash (reduce sample_hash (oper Op.add (const 255 1) (const 1 1)))
    ≢ solve sample_hash (oper Op.add (const 255 1) (const 1 1))
unfolding reduce reduce_oper fold_step fold_constants fold_op solve solve_op
narrow_differs = omega arith

-- A shift by the width folds to 0, and `solve` takes the amount modulo 64.
wide_shift_differs :
    solve sample_hash (reduce sample_hash (oper Op.shl (const 1 8) (const 64 8)))
    ≢ solve sample_hash (oper Op.shl (const 1 8) (const 64 8))
unfolding reduce reduce_oper fold_step fold_constants fold_op solve solve_op
wide_shift_differs = omega arith
