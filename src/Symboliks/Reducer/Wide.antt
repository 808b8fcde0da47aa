-- ===== src/Symboliks/Reducer/Wide.antt =====
-- Wide expressions: operands of 64 bits, and shifts by less than the width. On narrower operands
-- `solve` of src/symboliks/value.rs does not wrap where folding in src/symboliks/reducer.rs does.
use native.Mathlib.Nat.{pow-le-pow_right, one-le-pow, mod-lt}
use vivisect_rs.Base.{Bool-cases, inl, inr, ℕ, ◌*◌, ◌^◌, ◌≤◌, ◌<◌, String, arith, leb}
use vivisect_rs.Word.{IsU64, u64_mod, wrapping_pow}
use vivisect_rs.Word.Bits.{bit_and-lt, bit_or-lt, bit_xor-lt}
use vivisect_rs.Symboliks.Value.{
  Op, and, or, xor, shl, shr, sar, not, neg, ConstraintOp, eq, SymbolicValue, const, var, arg, mem,
  oper, call, constraint, Args, nil, cons, width,
}
use vivisect_rs.Symboliks.Value.Solve.{
  mask_to, solve_op, solve_constraint, varsolve, solve, solve_args,
}

-- A shift by less than the width, which folding and `solve` read alike.
abbrev pub ShiftFits : Op → ℕ → Type 0
ShiftFits shl n = n < 64
ShiftFits shr n = n < 64
ShiftFits sar n = n < 64
ShiftFits op n = Unit

-- The right operand has 8 bytes; the unary operations leave it out, and it is `Const(0, 0)`.
abbrev pub RightFits : Op → ℕ → Type 0
RightFits not w = Unit
RightFits neg w = Unit
RightFits op w = 8 ≤ w

module _ (hash : String → ℕ) where
  abbrev mutual
    pub IsWide : SymbolicValue → Type 0
    IsWide (const value w) = IsU64 value
    IsWide (var name w) = Unit
    IsWide (arg index w) = Unit
    IsWide (mem addr w) = IsWide addr
    IsWide (oper op l r) =
        IsWide l × IsWide r × (8 ≤ width l) × RightFits op (width r) × ShiftFits op (solve hash r)
    IsWide (call target args w) = IsWideArgs args
    IsWide (constraint op l r) = IsWide l × IsWide r

    pub IsWideArgs : Args → Type 0
    IsWideArgs nil = Unit
    IsWideArgs (cons a args) = IsWide a × IsWideArgs args

pub mask_to-lt : (w n : ℕ) → mask_to w n < u64_mod
mask_to-lt w n = elim (Bool-cases (leb 8 w)) [
  | inl full ↦ rw full (omega arith)
  | inr part ↦ rw part (
      omega (
        arith,
        pow-le-pow_right {n = 2} (omega arith) {i = w * 8} {j = 64} (ground arith),
        mod-lt n {m = 2 ^ (w * 8)} (omega (arith, one-le-pow (w * 8) 2 (omega arith))),
      ))
]

pub solve_op-lt : (op : Op) (l r : ℕ) → IsU64 l → IsU64 r → IsU64 (solve_op op l r)
unfolding solve_op wrapping_pow
solve_op-lt and l r h k = bit_and-lt 64 l r h k
solve_op-lt or l r h k = bit_or-lt 64 l r h k
solve_op-lt xor l r h k = bit_xor-lt 64 l r h k
solve_op-lt op l r h k = ground arith

pub solve_constraint-lt : (op : ConstraintOp) (l r : ℕ) → IsU64 (solve_constraint op l r)
unfolding solve_constraint
solve_constraint-lt eq l r = ground arith
solve_constraint-lt op l r = ground arith

-- Every expression with 64-bit constants stands for a `u64`.
module _ (hash : String → ℕ) where
  mutual
    unfolding solve varsolve

    pub solve-lt : (v : SymbolicValue) → IsWide hash v → IsU64 (solve hash v)
    solve-lt (const value w) h = h
    solve-lt (var name w) h = mask_to-lt w (hash name)
    solve-lt (arg index w) h = mask_to-lt w _
    solve-lt (mem addr w) h = omega arith
    solve-lt (oper op l r) h = solve_op-lt op _ _ (solve-lt l h.0) (solve-lt r h.1)
    solve-lt (call target args w) h = solve_args-lt args _ (mask_to-lt 8 (hash target))
    solve-lt (constraint op l r) h = solve_constraint-lt op _ _

    pub solve_args-lt : (args : Args) (n : ℕ) → IsU64 n → IsU64 (solve_args hash n args)
    solve_args-lt nil n h = h
    solve_args-lt (cons a args) n h = solve_args-lt args _ (omega arith)
