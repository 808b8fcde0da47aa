-- ===== src/Symboliks/Value/Inverse.antt =====
-- src/symboliks/value.rs, `ConstraintOp::inverse`: a comparison and its opposite.
use vivisect_rs.Base.{ℕ, ◌+◌, ◌≡◌, Bool, true, false, ◌&&◌, ◌==◌, arith, if◌then◌else◌}
use vivisect_rs.Word.{IsU64}
use vivisect_rs.Symboliks.Value.{ConstraintOp, eq, ne, lt, le, gt, ge, ult, ugt, inverse}
use vivisect_rs.Symboliks.Value.Solve.{solve_constraint}

abbrev pub is_unsigned : ConstraintOp → Bool
is_unsigned ult = true
is_unsigned ugt = true
is_unsigned op = false

-- Of a comparison of `u64`s and its opposite exactly one holds, except for the unsigned comparisons
-- of a number with itself, where neither does.
pub inverse_lem :
    (op : ConstraintOp) (l r : ℕ)
    → IsU64 l
    → IsU64 r
    → solve_constraint op l r + solve_constraint (inverse op) l r
      ≡ (if is_unsigned op && l == r then 0 else 1)
unfolding solve_constraint inverse
inverse_lem eq l r p q = ground arith
inverse_lem ne l r p q = ground arith
inverse_lem lt l r p q = ground arith
inverse_lem le l r p q = ground arith
inverse_lem gt l r p q = ground arith
inverse_lem ge l r p q = ground arith
inverse_lem ult l r p q = ground arith
inverse_lem ugt l r p q = ground arith
