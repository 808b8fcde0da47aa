-- ===== src/Symboliks/Value/Rewrite/Equivalence.antt =====
-- src/symboliks/value.rs: structural equivalence.
use vivisect_rs.Base.{
  ℕ, ◌≡◌, refl, sym, ap, ap₂, ◌∙◌, Bool, true, false, ◌&&◌, arith, ◌==◌, str_eq, str_eq_iff,
  if◌then◌else◌, ◌↔◌,
}
use vivisect_rs.HashMap.Laws.{str_eq_refl}
use vivisect_rs.Symboliks.Value.{
  Op, ConstraintOp, SymbolicValue, const, var, arg, mem, oper, call, constraint, Args, nil, cons,
}
use vivisect_rs.Symboliks.Value.Rewrite.{
  op_index, constraint_index, structurally_equivalent, equivalent_args,
}

-- The expression with every constant set to 0 and every width of a call set to 0.
abbrev mutual
  pub shape : SymbolicValue → SymbolicValue
  shape (const value w) = const 0 w
  shape (var name w) = var name w
  shape (arg index w) = arg index w
  shape (mem addr w) = mem (shape addr) w
  shape (oper op lhs rhs) = oper op (shape lhs) (shape rhs)
  shape (call target args w) = call target (shape_args args) 0
  shape (constraint op lhs rhs) = constraint op (shape lhs) (shape rhs)

  pub shape_args : Args → Args
  shape_args nil = nil
  shape_args (cons a args) = cons (shape a) (shape_args args)

same_number : (a b : ℕ) → (a == b) ≡ true → a ≡ b
same_number a b h = ground arith

both_parts : (a b : Bool) → (a && b) ≡ true → (a ≡ true) × (b ≡ true)
both_parts true true h = (refl, refl)
both_parts true false h = absurd (ground (arith, h))
both_parts false b h = absurd (ground (arith, h))

-- The operator at an index.
op_at : ℕ → Op
op_at n =
    if n == 0
    then Op.add
    else if n == 1
    then Op.sub
    else if n == 2
    then Op.mul
    else if n == 3
    then Op.div
    else if n == 4
    then Op.modulo
    else if n == 5
    then Op.and
    else if n == 6
    then Op.or
    else if n == 7
    then Op.xor
    else if n == 8
    then Op.shl
    else if n == 9
    then Op.shr
    else if n == 10
    then Op.sar
    else if n == 11
    then Op.not
    else if n == 12
    then Op.neg
    else if n == 13
    then Op.sign_extend
    else if n == 14
    then Op.zero_extend
    else Op.pow

op_at-op_index : (o : Op) → op_at (op_index o) ≡ o
unfolding op_index op_at
op_at-op_index Op.add = refl
op_at-op_index Op.sub = refl
op_at-op_index Op.mul = refl
op_at-op_index Op.div = refl
op_at-op_index Op.modulo = refl
op_at-op_index Op.and = refl
op_at-op_index Op.or = refl
op_at-op_index Op.xor = refl
op_at-op_index Op.shl = refl
op_at-op_index Op.shr = refl
op_at-op_index Op.sar = refl
op_at-op_index Op.not = refl
op_at-op_index Op.neg = refl
op_at-op_index Op.sign_extend = refl
op_at-op_index Op.zero_extend = refl
op_at-op_index Op.pow = refl

constraint_at : ℕ → ConstraintOp
constraint_at n =
    if n == 0
    then ConstraintOp.eq
    else if n == 1
    then ConstraintOp.ne
    else if n == 2
    then ConstraintOp.lt
    else if n == 3
    then ConstraintOp.le
    else if n == 4
    then ConstraintOp.gt
    else if n == 5
    then ConstraintOp.ge
    else if n == 6
    then ConstraintOp.ult
    else ConstraintOp.ugt

constraint_at-constraint_index : (o : ConstraintOp) → constraint_at (constraint_index o) ≡ o
unfolding constraint_index constraint_at
constraint_at-constraint_index ConstraintOp.eq = refl
constraint_at-constraint_index ConstraintOp.ne = refl
constraint_at-constraint_index ConstraintOp.lt = refl
constraint_at-constraint_index ConstraintOp.le = refl
constraint_at-constraint_index ConstraintOp.gt = refl
constraint_at-constraint_index ConstraintOp.ge = refl
constraint_at-constraint_index ConstraintOp.ult = refl
constraint_at-constraint_index ConstraintOp.ugt = refl

same_op : (a b : Op) → (op_index a == op_index b) ≡ true → a ≡ b
same_op a b h =
    sym (op_at-op_index a) ∙ ap op_at (same_number (op_index a) (op_index b) h) ∙ op_at-op_index b

same_constraint : (a b : ConstraintOp) → (constraint_index a == constraint_index b) ≡ true → a ≡ b
same_constraint a b h =
    sym (constraint_at-constraint_index a)
    ∙ ap constraint_at (same_number (constraint_index a) (constraint_index b) h)
    ∙ constraint_at-constraint_index b

mutual
  unfolding structurally_equivalent

  equal_shapes : (v w : SymbolicValue) → structurally_equivalent v w ≡ true → shape v ≡ shape w
  equal_shapes (const v1 w1) (const v2 w2) h = ap (const 0) (same_number w1 w2 h)
  equal_shapes (var n1 w1) (var n2 w2) h =
      let (p, q) = both_parts (str_eq n1 n2) (w1 == w2) h in
      ap₂ var ((str_eq_iff n1 n2).0 p) (same_number w1 w2 q)
  equal_shapes (arg i1 w1) (arg i2 w2) h =
      let (p, q) = both_parts (i1 == i2) (w1 == w2) h in
      ap₂ arg (same_number i1 i2 p) (same_number w1 w2 q)
  equal_shapes (mem a1 w1) (mem a2 w2) h =
      let (p, q) = both_parts (w1 == w2) (structurally_equivalent a1 a2) h in
      ap₂ mem (equal_shapes a1 a2 q) (same_number w1 w2 p)
  equal_shapes (oper o1 l1 r1) (oper o2 l2 r2) h =
      let (pq, s) =
        both_parts (op_index o1 == op_index o2 && structurally_equivalent l1 l2)
          (structurally_equivalent r1 r2) h in
      let (p, q) = both_parts (op_index o1 == op_index o2) (structurally_equivalent l1 l2) pq in
      ap (λ t. oper t (shape l1) (shape r1)) (same_op o1 o2 p)
      ∙ ap₂ (oper o2) (equal_shapes l1 l2 q) (equal_shapes r1 r2 s)
  equal_shapes (call t1 a1 w1) (call t2 a2 w2) h =
      let (p, q) = both_parts (str_eq t1 t2) (equivalent_args a1 a2) h in
      ap₂ (λ t l. call t l 0) ((str_eq_iff t1 t2).0 p) (equal_args a1 a2 q)
  equal_shapes (constraint o1 l1 r1) (constraint o2 l2 r2) h =
      let (pq, s) =
        both_parts (constraint_index o1 == constraint_index o2 && structurally_equivalent l1 l2)
          (structurally_equivalent r1 r2) h in
      let (p, q) =
        both_parts (constraint_index o1 == constraint_index o2) (structurally_equivalent l1 l2)
          pq in
      ap (λ t. constraint t (shape l1) (shape r1)) (same_constraint o1 o2 p)
      ∙ ap₂ (constraint o2) (equal_shapes l1 l2 q) (equal_shapes r1 r2 s)
  equal_shapes v w h = absurd (ground (arith, h))

  equal_args : (xs ys : Args) → equivalent_args xs ys ≡ true → shape_args xs ≡ shape_args ys
  equal_args nil nil h = refl
  equal_args (cons a xs) (cons b ys) h =
      let (p, q) = both_parts (structurally_equivalent a b) (equivalent_args xs ys) h in
      ap₂ cons (equal_shapes a b p) (equal_args xs ys q)
  equal_args xs ys h = absurd (ground (arith, h))

same_refl : (n : ℕ) → (n == n) ≡ true
same_refl n = ground arith

mutual
  unfolding structurally_equivalent

  equivalent_itself : (v : SymbolicValue) → structurally_equivalent v v ≡ true
  equivalent_itself (const value w) = same_refl w
  equivalent_itself (var name w) = ap₂ (λ a b. a && b) (str_eq_refl name) (same_refl w)
  equivalent_itself (arg index w) = ap₂ (λ a b. a && b) (same_refl index) (same_refl w)
  equivalent_itself (mem addr w) = ap₂ (λ a b. a && b) (same_refl w) (equivalent_itself addr)
  equivalent_itself (oper op lhs rhs) =
      ap₂ (λ a b. a && b) (ap₂ (λ a b. a && b) (same_refl (op_index op)) (equivalent_itself lhs))
        (equivalent_itself rhs)
  equivalent_itself (call target args w) =
      ap₂ (λ a b. a && b) (str_eq_refl target) (equivalent_args_itself args)
  equivalent_itself (constraint op lhs rhs) =
      ap₂ (λ a b. a && b)
        (ap₂ (λ a b. a && b) (same_refl (constraint_index op)) (equivalent_itself lhs))
        (equivalent_itself rhs)

  equivalent_args_itself : (args : Args) → equivalent_args args args ≡ true
  equivalent_args_itself nil = refl
  equivalent_args_itself (cons a args) =
      ap₂ (λ a b. a && b) (equivalent_itself a) (equivalent_args_itself args)

mutual
  unfolding structurally_equivalent

  equivalent_shapes :
      (v w : SymbolicValue)
      → structurally_equivalent (shape v) (shape w) ≡ structurally_equivalent v w
  equivalent_shapes (const v1 w1) (const v2 w2) = refl
  equivalent_shapes (var n1 w1) (var n2 w2) = refl
  equivalent_shapes (arg i1 w1) (arg i2 w2) = refl
  equivalent_shapes (mem a1 w1) (mem a2 w2) = ap (λ t. w1 == w2 && t) (equivalent_shapes a1 a2)
  equivalent_shapes (oper o1 l1 r1) (oper o2 l2 r2) =
      ap₂ (λ a b. op_index o1 == op_index o2 && a && b) (equivalent_shapes l1 l2)
        (equivalent_shapes r1 r2)
  equivalent_shapes (call t1 a1 w1) (call t2 a2 w2) =
      ap (λ t. str_eq t1 t2 && t) (equivalent_arg_shapes a1 a2)
  equivalent_shapes (constraint o1 l1 r1) (constraint o2 l2 r2) =
      ap₂ (λ a b. constraint_index o1 == constraint_index o2 && a && b) (equivalent_shapes l1 l2)
        (equivalent_shapes r1 r2)
  equivalent_shapes v w = refl

  equivalent_arg_shapes :
      (xs ys : Args) → equivalent_args (shape_args xs) (shape_args ys) ≡ equivalent_args xs ys
  equivalent_arg_shapes nil nil = refl
  equivalent_arg_shapes (cons a xs) (cons b ys) =
      ap₂ (λ p q. p && q) (equivalent_shapes a b) (equivalent_arg_shapes xs ys)
  equivalent_arg_shapes xs ys = refl

-- Two expressions are structurally equivalent exactly if they are equal once every constant and every
-- width of a call is set to 0.
pub structurally_equivalent-shape :
    (v w : SymbolicValue) → (structurally_equivalent v w ≡ true) ↔ (shape v ≡ shape w)
structurally_equivalent-shape v w = (
  equal_shapes v w,
  λ e.
      sym (equivalent_shapes v w)
      ∙ ap (structurally_equivalent (shape v)) (sym e)
      ∙ equivalent_itself (shape v),
)
