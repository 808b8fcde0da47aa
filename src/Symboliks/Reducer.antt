-- ===== src/Symboliks/Reducer.antt =====
-- src/symboliks/reducer.rs: constant folding and algebraic simplification of expressions. Each
-- early return of `reduce` is an option, in the order of the code; the first that applies is taken.
pub mod Wide
pub mod Steps
pub mod Sound
pub mod Shape
mod Tests
use vivisect_rs.Base.{
  ℕ, ◌+◌, ◌-◌, ◌*◌, ◌/◌, ◌%◌, ◌^◌, Bool, true, false, ◌&&◌, Option, none, some, String, bit_and,
  bit_or, bit_xor, ltb, leb, ◌==◌, if◌then◌else◌, ◌or_else◌, unwrap_or,
}
use vivisect_rs.Word.{
  u64_mod, u64_max, wrapping_add, is_negative, arithmetic_shr, not_u64, neg_u64, signed_lt,
  signed_le, is_power_of_two, trailing_zeros,
}
use vivisect_rs.Symboliks.Value.{
  Op, add, sub, mul, div, modulo, and, or, xor, shl, shr, sar, not, neg, sign_extend, zero_extend,
  pow, ConstraintOp, eq, ne, lt, le, gt, ge, ult, ugt, SymbolicValue, const, var, arg, mem, oper,
  call, constraint, Args, nil, cons, width, is_value, as_const,
}
use vivisect_rs.Symboliks.Value.Solve.{mask_to, value_eq}

abbrev u128_mod : ℕ
u128_mod = 2 ^ 128

-- `fold_constants`: the `match op`, in `u128`; `none` is the division by zero.
unfoldable pub fold_op : Op → ℕ → ℕ → Option ℕ
fold_op add l r = some ((l + r) % u128_mod)
fold_op sub l r = some ((l + u128_mod - r) % u128_mod)
fold_op mul l r = some (l * r)
fold_op div l r = if r == 0 then none else some (l / r)
fold_op modulo l r = if r == 0 then none else some (l % r)
fold_op and l r = some (bit_and l r)
fold_op or l r = some (bit_or l r)
fold_op xor l r = some (bit_xor l r)
fold_op shl l r = some (if leb 128 r then 0 else (l * 2 ^ r) % u128_mod)
fold_op shr l r = some (if leb 64 r then 0 else l / 2 ^ r)
fold_op sar l r =
    some (if leb 64 r then (if is_negative l then u64_max else 0) else arithmetic_shr l r)
fold_op not l r = some (not_u64 l)
fold_op neg l r = some (neg_u64 l)
fold_op sign_extend l r = some l
fold_op zero_extend l r = some l
fold_op pow l r = some (l ^ (r % 2 ^ 32) % u128_mod)

-- `fold_constants`: the result under the mask of the width.
unfoldable pub fold_constants : Op → ℕ → ℕ → ℕ → Option ℕ
fold_constants op l r w = elim (fold_op op l r) [ none ↦ none | some n ↦ some (mask_to w n) ]

-- `fold_constraint`.
unfoldable pub fold_constraint : ConstraintOp → ℕ → ℕ → ℕ
fold_constraint eq l r = if l == r then 1 else 0
fold_constraint ne l r = if l == r then 0 else 1
fold_constraint lt l r = if signed_lt l r then 1 else 0
fold_constraint le l r = if signed_le l r then 1 else 0
fold_constraint gt l r = if signed_lt r l then 1 else 0
fold_constraint ge l r = if signed_le r l then 1 else 0
fold_constraint ult l r = if ltb l r then 1 else 0
fold_constraint ugt l r = if ltb r l then 1 else 0

-- Both operands are constants. A folded constant has the width of the left one.
unfoldable pub fold_step : Op → SymbolicValue → SymbolicValue → Option SymbolicValue
fold_step op (const l w) (const r w') = elim (fold_constants op l r w) [
  | none ↦ none
  | some n ↦ some (const n w)
]
fold_step op l r = none

-- The strength reduction of a product by a constant power of two.
unfoldable pub strength_step : SymbolicValue → SymbolicValue → Option SymbolicValue
strength_step l (const r w) =
    if ltb 0 r && is_power_of_two r then some (oper shl l (const (trailing_zeros r) w)) else none
strength_step l r = none

-- The `match op` of the algebraic identities.
unfoldable pub identity_step : Op → SymbolicValue → SymbolicValue → Option SymbolicValue
identity_step add l r = if is_value r 0 then some l else if is_value l 0 then some r else none
identity_step sub l r = if is_value r 0 then some l else none
identity_step mul l r =
    if is_value r 1
    then some l
    else if is_value l 1
    then some r
    else if is_value r 0
    then some (const 0 (width l))
    else if is_value l 0
    then some (const 0 (width r))
    else strength_step l r
identity_step and l r =
    if is_value r 0
    then some (const 0 (width l))
    else if is_value l 0
    then some (const 0 (width r))
    else none
identity_step or l r = if is_value r 0 then some l else if is_value l 0 then some r else none
identity_step xor l r = if is_value r 0 then some l else none
identity_step shl l r = if is_value r 0 then some l else none
identity_step shr l r = if is_value r 0 then some l else none
identity_step sar l r = if is_value r 0 then some l else none
identity_step div l r = if is_value r 1 then some l else none
identity_step modulo l r = if is_value r 1 then some (const 0 (width l)) else none
identity_step pow l r =
    if is_value r 0 then some (const 1 (width l)) else if is_value r 1 then some l else none
identity_step op l r = none

-- Double negation: `~~x` and `--x`.
unfoldable pub double_step : Op → SymbolicValue → Option SymbolicValue
double_step not (oper not inner unused) = some inner
double_step neg (oper neg inner unused) = some inner
double_step op l = none

-- `(x + c1) + c2` and `(x - c1) - c2`.
unfoldable pub assoc_step : Op → SymbolicValue → SymbolicValue → Option SymbolicValue
assoc_step add (oper add x (const c1 w1)) (const c2 w2) =
    let combined = mask_to w2 (wrapping_add c1 c2) in
    some (if combined == 0 then x else oper add x (const combined w2))
assoc_step sub (oper sub x (const c1 w1)) (const c2 w2) =
    some (oper sub x (const (mask_to w2 (wrapping_add c1 c2)) w2))
assoc_step op l r = none

-- What a comparison of a value with itself reduces to.
unfoldable pub self_comparison : ConstraintOp → ℕ
self_comparison eq = 1
self_comparison le = 1
self_comparison ge = 1
self_comparison op = 0

module _ (hash : String → ℕ) where
  -- `x - x`, `x ^ x`, `x & x` and `x | x`, by the equality of expressions.
  unfoldable pub same_step : Op → SymbolicValue → SymbolicValue → Option SymbolicValue
  same_step sub l r = if value_eq hash l r then some (const 0 (width l)) else none
  same_step xor l r = if value_eq hash l r then some (const 0 (width l)) else none
  same_step and l r = if value_eq hash l r then some l else none
  same_step or l r = if value_eq hash l r then some l else none
  same_step op l r = none

  -- The `Oper` arm of `reduce`, on reduced operands.
  unfoldable pub reduce_oper : Op → SymbolicValue → SymbolicValue → SymbolicValue
  reduce_oper op l r =
      unwrap_or
        (fold_step op l r
          or_else identity_step op l r
          or_else same_step op l r
          or_else double_step op l
          or_else assoc_step op l r)
        (oper op l r)

  -- The `Constraint` arm of `reduce`, on reduced operands.
  unfoldable pub reduce_constraint : ConstraintOp → SymbolicValue → SymbolicValue → SymbolicValue
  reduce_constraint op (const l w) (const r w') = const (fold_constraint op l r) 1
  reduce_constraint op l r =
      if value_eq hash l r then const (self_comparison op) 1 else constraint op l r

  unfoldable mutual
    -- `reduce`.
    pub reduce : SymbolicValue → SymbolicValue
    reduce (const value w) = const value w
    reduce (var name w) = var name w
    reduce (arg index w) = arg index w
    reduce (mem addr w) = mem (reduce addr) w
    reduce (oper op lhs rhs) = reduce_oper op (reduce lhs) (reduce rhs)
    reduce (call target args w) = call target (reduce_args args) w
    reduce (constraint op lhs rhs) = reduce_constraint op (reduce lhs) (reduce rhs)

    -- `args.iter().map(reduce).collect()`.
    pub reduce_args : Args → Args
    reduce_args nil = nil
    reduce_args (cons a args) = cons (reduce a) (reduce_args args)
