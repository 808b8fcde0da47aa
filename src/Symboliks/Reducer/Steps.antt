-- ===== src/Symboliks/Reducer/Steps.antt =====
-- src/symboliks/reducer.rs, the single steps of `reduce` against `solve`, on wide operands.
use vivisect_rs.Base.{
  ℕ, ◌≤◌, ◌≡◌, refl, Option, none, some, Option-cases, String, arith, str_eq_iff, true, Bool-cases,
  inl, inr, ◌or_else◌, unwrap_or,
}
use vivisect_rs.Word.{IsU64, wrapping_pow, is_power_of_two}
use vivisect_rs.Word.Bits.{
  bit_and_self, bit_or_self, bit_xor_self, bit_and-zero, bit_or-zero, bit_xor-zero, zero-bit_and,
  zero-bit_or, bit_and-lt, bit_or-lt, bit_xor-lt,
}
use vivisect_rs.Word.Laws.{mul-power-shl, count_trailing-lt, wrapping_pow-zero, wrapping_pow-one}
use vivisect_rs.Symboliks.Value.{
  Op, add, sub, mul, and, or, xor, not, neg, pow, ConstraintOp, eq, SymbolicValue, const, var, arg,
  oper, width, is_value,
}
use vivisect_rs.Symboliks.Value.Solve.{solve_op, solve_constraint, solve, value_eq}
use vivisect_rs.Symboliks.Reducer.{
  fold_op, fold_constants, fold_constraint, fold_step, strength_step, identity_step, double_step,
  assoc_step, same_step, reduce_oper, self_comparison, reduce_constraint,
}
use vivisect_rs.Symboliks.Reducer.Wide.{ShiftFits, IsWide, solve_op-lt, solve-lt}

-- On 64 bits folding computes what `solve` computes.
fold_constants_lem :
    (op : Op) (l r w n : ℕ)
    → 8 ≤ w
    → IsU64 l
    → IsU64 r
    → ShiftFits op r
    → fold_constants op l r w ≡ some n
    → n ≡ solve_op op l r
unfolding fold_constants fold_op solve_op wrapping_pow
fold_constants_lem and l r w n hw hl hr s e = ground (arith, bit_and-lt 64 l r)
fold_constants_lem or l r w n hw hl hr s e = ground (arith, bit_or-lt 64 l r)
fold_constants_lem xor l r w n hw hl hr s e = ground (arith, bit_xor-lt 64 l r)
fold_constants_lem op l r w n hw hl hr s e = ground arith

module _ (hash : String → ℕ) where
  -- `v` stands for the same number as `op l r`, and may take its place as an operand.
  abbrev pub Keeps : Op → SymbolicValue → SymbolicValue → SymbolicValue → Type 0
  Keeps op l r v =
      (solve hash v ≡ solve_op op (solve hash l) (solve hash r)) × IsWide hash v × (8 ≤ width v)

  is_value-solve : (v : SymbolicValue) (k : ℕ) → is_value v k ≡ true → solve hash v ≡ k
  unfolding solve
  is_value-solve (const value w) k e = ground arith
  is_value-solve _ k e = cc

  fold_step-Keeps :
      (op : Op) (l r v : SymbolicValue)
      → IsWide hash (oper op l r)
      → fold_step op l r ≡ some v
      → Keeps op l r v
  unfolding fold_step solve width
  fold_step-Keeps op (const l w) (const r w') v h e =
      elim (Option-cases (fold_constants op l r w)) [
        | inl nothing ↦ absurd (ground arith)
        | inr (n, folded) ↦ ground (
          arith,
          fold_constants_lem op l r w n h.2 h.0 h.1 h.4 folded,
          solve_op-lt op l r h.0 h.1,
        )
      ]
  fold_step-Keeps op _ _ v h e = cc

  -- The strength reduction turns a product into a shift of the same value.
  strength_step-Keeps :
      (l r v : SymbolicValue)
      → IsWide hash (oper mul l r)
      → strength_step l r ≡ some v
      → Keeps mul l r v
  unfolding strength_step solve solve_op width
  strength_step-Keeps l (const r w) v h e = elim (Bool-cases (is_power_of_two r)) [
    | inl power ↦ ground (arith, mul-power-shl (solve hash l) r power, count_trailing-lt 64 r power)
    | inr other ↦ absurd (ground arith)
  ]
  strength_step-Keeps l _ v h e = cc

  identity_step-Keeps :
      (op : Op) (l r v : SymbolicValue)
      → IsWide hash (oper op l r)
      → identity_step op l r ≡ some v
      → Keeps op l r v
  unfolding identity_step solve_op solve width
  identity_step-Keeps mul l r v h e = ground (
    arith,
    is_value-solve r 0,
    is_value-solve r 1,
    is_value-solve l 0,
    is_value-solve l 1,
    solve-lt hash l h.0,
    solve-lt hash r h.1,
    strength_step-Keeps l r v h,
  )
  identity_step-Keeps pow l r v h e = ground (
    arith,
    is_value-solve r 0,
    is_value-solve r 1,
    solve-lt hash l h.0,
    wrapping_pow-zero (solve hash l),
    wrapping_pow-one (solve hash l),
  )
  identity_step-Keeps op l r v h e = ground (
    arith,
    is_value-solve r 0,
    is_value-solve r 1,
    is_value-solve l 0,
    solve-lt hash l h.0,
    solve-lt hash r h.1,
    bit_and-zero (solve hash l),
    zero-bit_and (solve hash r),
    bit_or-zero (solve hash l),
    zero-bit_or (solve hash r),
    bit_xor-zero (solve hash l),
  )

  -- Equal expressions stand for the same number.
  pub value_eq-solve :
      (a b : SymbolicValue) → value_eq hash a b ≡ true → solve hash a ≡ solve hash b
  unfolding value_eq solve
  value_eq-solve (const v1 w1) (const v2 w2) h = ground arith
  value_eq-solve (var n1 w1) (var n2 w2) h = ground (arith, str_eq_iff n1 n2)
  value_eq-solve (arg i1 w1) (arg i2 w2) h = ground arith
  value_eq-solve _ _ h = ground arith

  same_step-Keeps :
      (op : Op) (l r v : SymbolicValue)
      → IsWide hash (oper op l r)
      → same_step hash op l r ≡ some v
      → Keeps op l r v
  unfolding same_step solve_op solve width
  same_step-Keeps op l r v h e = ground (
    arith,
    value_eq-solve l r,
    bit_and_self (solve hash l),
    bit_or_self (solve hash l),
    bit_xor_self (solve hash l),
    solve-lt hash l h.0,
  )

  double_step-Keeps :
      (op : Op) (l r v : SymbolicValue)
      → IsWide hash (oper op l r)
      → double_step op l ≡ some v
      → Keeps op l r v
  unfolding double_step solve_op solve width
  double_step-Keeps not (oper not x unused) r v h e = ground (arith, solve-lt hash x h.0.0)
  double_step-Keeps neg (oper neg x unused) r v h e = ground (arith, solve-lt hash x h.0.0)
  double_step-Keeps _ _ r v h e = cc

  assoc_step-Keeps :
      (op : Op) (l r v : SymbolicValue)
      → IsWide hash (oper op l r)
      → assoc_step op l r ≡ some v
      → Keeps op l r v
  unfolding assoc_step solve_op solve width
  assoc_step-Keeps add (oper add x (const c1 w1)) (const c2 w2) v h e =
      ground (arith, solve-lt hash x h.0.0)
  assoc_step-Keeps sub (oper sub x (const c1 w1)) (const c2 w2) v h e =
      ground (arith, solve-lt hash x h.0.0)
  assoc_step-Keeps _ _ _ v h e = cc

  -- An option that comes first is kept, or the next one is.
  or_else-Keeps :
      (op : Op) (l r : SymbolicValue) (a b : Option SymbolicValue)
      → ((v : SymbolicValue) → a ≡ some v → Keeps op l r v)
      → ((v : SymbolicValue) → b ≡ some v → Keeps op l r v)
      → (v : SymbolicValue) → (a or_else b) ≡ some v
      → Keeps op l r v
  or_else-Keeps op l r none b f g v e = g v e
  or_else-Keeps op l r (some a) b f g v e = f v e

  unwrap_or-Keeps :
      (op : Op) (l r d : SymbolicValue) (a : Option SymbolicValue)
      → ((v : SymbolicValue) → a ≡ some v → Keeps op l r v)
      → Keeps op l r d
      → Keeps op l r (unwrap_or a d)
  unwrap_or-Keeps op l r d none f h = h
  unwrap_or-Keeps op l r d (some a) f h = f a refl

  -- The reduction of an operation on reduced operands keeps its value.
  pub reduce_oper-Keeps :
      (op : Op) (l r : SymbolicValue)
      → IsWide hash (oper op l r)
      → Keeps op l r (reduce_oper hash op l r)
  unfolding reduce_oper
  reduce_oper-Keeps op l r h =
      unwrap_or-Keeps op l r _ _
        (or_else-Keeps op l r _ _ (λ v. fold_step-Keeps op l r v h)
          (or_else-Keeps op l r _ _ (λ v. identity_step-Keeps op l r v h)
            (or_else-Keeps op l r _ _ (λ v. same_step-Keeps op l r v h)
              (or_else-Keeps op l r _ _ (λ v. double_step-Keeps op l r v h)
                (λ v. assoc_step-Keeps op l r v h)))))
        (unfold solve width in (refl, h, h.2))

  self_comparison_lem : (op : ConstraintOp) (n : ℕ) → self_comparison op ≡ solve_constraint op n n
  unfolding self_comparison solve_constraint
  self_comparison_lem eq n = ground arith
  self_comparison_lem op n = ground arith

  fold_constraint_lem :
      (op : ConstraintOp) (l r : ℕ) → fold_constraint op l r ≡ solve_constraint op l r
  unfolding fold_constraint solve_constraint
  fold_constraint_lem eq l r = refl
  fold_constraint_lem op l r = refl

  -- The reduction of a comparison keeps its value.
  pub reduce_constraint-solve :
      (op : ConstraintOp) (l r : SymbolicValue)
      → solve hash (reduce_constraint hash op l r)
        ≡ solve_constraint op (solve hash l) (solve hash r)
  unfolding reduce_constraint solve
  reduce_constraint-solve op (const l w) (const r w') = fold_constraint_lem op l r
  reduce_constraint-solve op l r =
      ground (arith, value_eq-solve l r, self_comparison_lem op (solve hash l))

  pub reduce_constraint-IsWide :
      (op : ConstraintOp) (l r : SymbolicValue)
      → IsWide hash l
      → IsWide hash r
      → IsWide hash (reduce_constraint hash op l r)
  unfolding reduce_constraint self_comparison fold_constraint
  reduce_constraint-IsWide op (const l w) (const r w') h k = ground arith
  reduce_constraint-IsWide op l r h k = ground arith
