-- ===== src/Symboliks/Value/Solve.antt =====
-- src/symboliks/value.rs: `solve`, the deterministic number that an expression stands for, and the
-- equality of expressions that rests on it. The hash of a name is the parameter `hash`: the code
-- takes it from the standard library's `DefaultHasher`, whose function is not specified.
use vivisect_rs.Base.{
  ℕ, ◌*◌, ◌/◌, ◌%◌, ◌^◌, Bool, ◌&&◌, String, bit_and, bit_or, bit_xor, ltb, leb, ◌==◌,
  if◌then◌else◌, str_eq, decimal,
}
use Prim.Native.String.{◌++◌}
use vivisect_rs.Word.{
  u64_mod, wrapping_add, wrapping_sub, wrapping_mul, wrapping_shl, wrapping_shr, wrapping_sar,
  not_u64, neg_u64, wrapping_pow, signed_lt, signed_le,
}
use vivisect_rs.Symboliks.Value.{
  Op, add, sub, mul, div, modulo, and, or, xor, shl, shr, sar, not, neg, sign_extend, zero_extend,
  pow, ConstraintOp, eq, ne, lt, le, gt, ge, ult, ugt, SymbolicValue, const, var, arg, mem, oper,
  call, constraint, Args, nil, cons,
}

-- `raw & mask`, where the mask has `width` bytes of ones and at most 64 bits.
abbrev pub mask_to : ℕ → ℕ → ℕ
mask_to width n = if leb 8 width then n % u64_mod else n % 2 ^ (width * 8)

-- `solve_op`.
unfoldable pub solve_op : Op → ℕ → ℕ → ℕ
solve_op add l r = wrapping_add l r
solve_op sub l r = wrapping_sub l r
solve_op mul l r = wrapping_mul l r
solve_op div l r = if r == 0 then 0 else l / r
solve_op modulo l r = if r == 0 then 0 else l % r
solve_op and l r = bit_and l r
solve_op or l r = bit_or l r
solve_op xor l r = bit_xor l r
solve_op shl l r = wrapping_shl l r
solve_op shr l r = wrapping_shr l r
solve_op sar l r = wrapping_sar l r
solve_op not l r = not_u64 l
solve_op neg l r = neg_u64 l
solve_op sign_extend l r = l
solve_op zero_extend l r = l
solve_op pow l r = wrapping_pow l r

-- The comparison of a `Constraint` in `solve`; `true` is 1 and `false` is 0.
unfoldable pub solve_constraint : ConstraintOp → ℕ → ℕ → ℕ
solve_constraint eq l r = if l == r then 1 else 0
solve_constraint ne l r = if l == r then 0 else 1
solve_constraint lt l r = if signed_lt l r then 1 else 0
solve_constraint le l r = if signed_le l r then 1 else 0
solve_constraint gt l r = if signed_lt r l then 1 else 0
solve_constraint ge l r = if signed_le r l then 1 else 0
solve_constraint ult l r = if ltb l r then 1 else 0
solve_constraint ugt l r = if ltb r l then 1 else 0

-- The multiplier of `Mem`.
abbrev pub golden : ℕ
golden = 0x9e3779b97f4a7c15

module _ (hash : String → ℕ) where
  -- `varsolve`.
  unfoldable pub varsolve : String → ℕ → ℕ
  varsolve name width = mask_to width (hash name)

  unfoldable mutual
    -- `SymbolicValue::solve`.
    pub solve : SymbolicValue → ℕ
    solve (const value width) = value
    solve (var name width) = varsolve name width
    solve (arg index width) = varsolve ("arg" ++ decimal index) width
    solve (mem addr width) = wrapping_mul (solve addr) golden
    solve (oper op lhs rhs) = solve_op op (solve lhs) (solve rhs)
    solve (call target args width) = solve_args (varsolve target 8) args
    solve (constraint op lhs rhs) = solve_constraint op (solve lhs) (solve rhs)

    -- The loop over the arguments of a call, with the sum so far.
    pub solve_args : ℕ → Args → ℕ
    solve_args h nil = h
    solve_args h (cons a args) = solve_args (wrapping_add h (solve a)) args

  -- `PartialEq::eq`: two constants, variables or arguments by their fields, all else by `solve`.
  unfoldable pub value_eq : SymbolicValue → SymbolicValue → Bool
  value_eq (const v1 w1) (const v2 w2) = v1 == v2 && w1 == w2
  value_eq (var n1 w1) (var n2 w2) = str_eq n1 n2 && w1 == w2
  value_eq (arg i1 w1) (arg i2 w2) = i1 == i2 && w1 == w2
  value_eq a b = solve a == solve b
