-- ===== src/Symboliks/Reducer/Shape.antt =====
-- src/symboliks/reducer.rs, the tree that `reduce` gives: its size, and constant expressions.
use vivisect_rs.Base.{
  ℕ, suc, ◌+◌, ◌≤◌, ◌<◌, ◌≡◌, refl, true, Bool, ◌&&◌, Option, none, some, String, arith, ◌or_else◌,
  unwrap_or,
}
use vivisect_rs.Symboliks.Value.{
  Op, add, sub, mul, div, modulo, not, neg, ConstraintOp, SymbolicValue, const, var, arg, mem, oper,
  call, constraint, Args, nil, cons, is_discrete, is_const,
}
use vivisect_rs.Symboliks.Reducer.{
  fold_op, fold_constants, fold_step, strength_step, identity_step, same_step, double_step,
  assoc_step, reduce_oper, reduce_constraint, reduce, reduce_args,
}

-- The number of nodes.
abbrev mutual
  pub size : SymbolicValue → ℕ
  size (const value w) = 1
  size (var name w) = 1
  size (arg index w) = 1
  size (mem addr w) = suc (size addr)
  size (oper op l r) = suc (size l + size r)
  size (call target args w) = suc (size_args args)
  size (constraint op l r) = suc (size l + size r)

  pub size_args : Args → ℕ
  size_args nil = 0
  size_args (cons a args) = size a + size_args args

size_pos : (v : SymbolicValue) → 0 < size v
size_pos (const value w) = omega arith
size_pos v = omega arith

-- The result is absent, or no larger than an operation on the two operands.
abbrev Fits : SymbolicValue → SymbolicValue → Option SymbolicValue → Type 0
Fits l r none = Unit
Fits l r (some v) = size v ≤ suc (size l + size r)

fold_step-Fits : (op : Op) (l r : SymbolicValue) → Fits l r (fold_step op l r)
unfolding fold_step
fold_step-Fits op (const l w) (const r w') = ground arith
fold_step-Fits op _ _ = tt

strength_step-Fits : (l r : SymbolicValue) → Fits l r (strength_step l r)
unfolding strength_step
strength_step-Fits l (const r w) = ground arith
strength_step-Fits l _ = tt

identity_step-Fits : (op : Op) (l r : SymbolicValue) → Fits l r (identity_step op l r)
unfolding identity_step
identity_step-Fits mul l r = ground (arith, strength_step-Fits l r, size_pos l, size_pos r)
identity_step-Fits op l r = ground (arith, size_pos l, size_pos r)

double_step-Fits : (op : Op) (l r : SymbolicValue) → Fits l r (double_step op l)
unfolding double_step
double_step-Fits not (oper not x unused) r = omega arith
double_step-Fits neg (oper neg x unused) r = omega arith
double_step-Fits _ _ r = tt

assoc_step-Fits : (op : Op) (l r : SymbolicValue) → Fits l r (assoc_step op l r)
unfolding assoc_step
assoc_step-Fits add (oper add x (const c1 w1)) (const c2 w2) = ground arith
assoc_step-Fits sub (oper sub x (const c1 w1)) (const c2 w2) = ground arith
assoc_step-Fits _ _ _ = tt

or_else-Fits :
    (l r : SymbolicValue) (a b : Option SymbolicValue)
    → Fits l r a
    → Fits l r b
    → Fits l r (a or_else b)
or_else-Fits l r none b h k = k
or_else-Fits l r (some a) b h k = h

unwrap_or-Fits :
    (op : Op) (l r : SymbolicValue) (a : Option SymbolicValue)
    → Fits l r a
    → size (unwrap_or a (oper op l r)) ≤ suc (size l + size r)
unwrap_or-Fits op l r none h = omega arith
unwrap_or-Fits op l r (some a) h = h

module _ (hash : String → ℕ) where
  same_step-Fits : (op : Op) (l r : SymbolicValue) → Fits l r (same_step hash op l r)
  unfolding same_step
  same_step-Fits sub l r = ground (arith, size_pos l, size_pos r)
  same_step-Fits op l r = ground (arith, size_pos l, size_pos r)

  size-reduce_oper :
      (op : Op) (l r : SymbolicValue) → size (reduce_oper hash op l r) ≤ suc (size l + size r)
  unfolding reduce_oper
  size-reduce_oper op l r = unwrap_or-Fits op l r _ (
      or_else-Fits l r _ _ (fold_step-Fits op l r) (
        or_else-Fits l r _ _ (identity_step-Fits op l r) (
          or_else-Fits l r _ _ (same_step-Fits op l r)
            (or_else-Fits l r _ _ (double_step-Fits op l r) (assoc_step-Fits op l r)))))

  size-reduce_constraint :
      (op : ConstraintOp) (l r : SymbolicValue)
      → size (reduce_constraint hash op l r) ≤ suc (size l + size r)
  unfolding reduce_constraint
  size-reduce_constraint op (const l w) (const r w') = omega arith
  size-reduce_constraint op l r = ground (arith, size_pos l, size_pos r)

  mutual
    unfolding reduce

    size_reduce : (v : SymbolicValue) → size (reduce hash v) ≤ size v
    size_reduce (const value w) = omega arith
    size_reduce (var name w) = omega arith
    size_reduce (arg index w) = omega arith
    size_reduce (mem addr w) = omega (arith, size_reduce addr)
    size_reduce (oper op l r) =
        omega
          (arith, size-reduce_oper op (reduce hash l) (reduce hash r), size_reduce l, size_reduce r)
    size_reduce (call target args w) = omega (arith, size_args_reduce args)
    size_reduce (constraint op l r) = omega (
      arith,
      size-reduce_constraint op (reduce hash l) (reduce hash r),
      size_reduce l,
      size_reduce r,
    )

    size_args_reduce : (args : Args) → size_args (reduce_args hash args) ≤ size_args args
    size_args_reduce nil = omega arith
    size_args_reduce (cons a args) = omega (arith, size_reduce a, size_args_reduce args)

  -- Reduction never makes an expression larger.
  pub size-reduce-le : (v : SymbolicValue) → size (reduce hash v) ≤ size v
  size-reduce-le v = size_reduce v

-- No division and no remainder, whose folding fails at 0.
abbrev AvoidsDivision : Op → Type 0
AvoidsDivision div = ⊥
AvoidsDivision modulo = ⊥
AvoidsDivision op = Unit

abbrev pub IsDivisionFree : SymbolicValue → Type 0
IsDivisionFree (oper op l r) = AvoidsDivision op × IsDivisionFree l × IsDivisionFree r
IsDivisionFree (constraint op l r) = IsDivisionFree l × IsDivisionFree r
IsDivisionFree v = Unit

abbrev IsLiteral : SymbolicValue → Type 0
IsLiteral v = is_const v ≡ true

fold-IsLiteral :
    (hash : String → ℕ) (op : Op) (l r : SymbolicValue)
    → AvoidsDivision op
    → IsLiteral l
    → IsLiteral r
    → IsLiteral (reduce_oper hash op l r)
unfolding reduce_oper fold_step fold_constants fold_op
fold-IsLiteral hash add (const l w) (const r w') d h k = refl
fold-IsLiteral hash div (const l w) (const r w') d h k = absurd d
fold-IsLiteral hash modulo (const l w) (const r w') d h k = absurd d
fold-IsLiteral hash op (const l w) (const r w') d h k = refl
fold-IsLiteral hash op l r d h k = cc

constraint-IsLiteral :
    (hash : String → ℕ) (op : ConstraintOp) (l r : SymbolicValue)
    → IsLiteral l
    → IsLiteral r
    → IsLiteral (reduce_constraint hash op l r)
unfolding reduce_constraint
constraint-IsLiteral hash op (const l w) (const r w') h k = refl
constraint-IsLiteral hash op l r h k = cc

both : (a b : Bool) → (a && b) ≡ true → (a ≡ true) × (b ≡ true)
both a b h = ground arith

-- A discrete expression with no division and no remainder reduces to a single constant.
pub reduce-discrete :
    (hash : String → ℕ) (v : SymbolicValue)
    → is_discrete v ≡ true
    → IsDivisionFree v
    → is_const (reduce hash v) ≡ true
unfolding is_discrete reduce
reduce-discrete hash (const value w) h d = refl
reduce-discrete hash (oper op l r) h d =
    let (hl, hr) = both (is_discrete l) (is_discrete r) h in
    fold-IsLiteral hash op _ _ d.0 (reduce-discrete hash l hl d.1) (reduce-discrete hash r hr d.2)
reduce-discrete hash (constraint op l r) h d =
    let (hl, hr) = both (is_discrete l) (is_discrete r) h in
    constraint-IsLiteral hash op _ _ (reduce-discrete hash l hl d.0) (reduce-discrete hash r hr d.1)
reduce-discrete hash _ h d = cc
