-- ===== src/Symboliks/Value/Rewrite.antt =====
-- src/symboliks/value.rs: substitution, transformation, the variables of an expression, structural
-- equivalence, and the names that do not depend on an architecture.
pub mod Substitution
pub mod Equivalence
pub mod Renaming
mod Tests
use vivisect_rs.Base.{
  ℕ, zero, suc, ◌+◌, Bool, true, false, ◌&&◌, ◌||◌, Option, none, some, String, List, [], ◌∷◌, ◌==◌,
  if◌then◌else◌, str_eq, decimal,
}
use mathlib.Core.List.{◌++◌}
use Prim.Native.String.{◌++◌ as ◌◁◌}
use vivisect_rs.HashMap.{NameMap, find_name, put_name}
use vivisect_rs.Symboliks.Value.{
  Op, add, sub, mul, div, modulo, and, or, xor, shl, shr, sar, not, neg, sign_extend, zero_extend,
  pow, ConstraintOp, eq, ne, lt, le, gt, ge, ult, ugt, SymbolicValue, const, var, arg, mem, oper,
  call, constraint, Args, nil, cons,
}

-- `substitute`.
unfoldable mutual
  pub substitute : SymbolicValue → String → SymbolicValue → SymbolicValue
  substitute (const value w) name r = const value w
  substitute (var n w) name r = if str_eq n name then r else var n w
  substitute (arg index w) name r = arg index w
  substitute (mem addr w) name r = mem (substitute addr name r) w
  substitute (oper op lhs rhs) name r = oper op (substitute lhs name r) (substitute rhs name r)
  substitute (call target args w) name r = call target (substitute_args args name r) w
  substitute (constraint op lhs rhs) name r =
      constraint op (substitute lhs name r) (substitute rhs name r)

  pub substitute_args : Args → String → SymbolicValue → Args
  substitute_args nil name r = nil
  substitute_args (cons a args) name r = cons (substitute a name r) (substitute_args args name r)

-- `f(&node).unwrap_or(node)`.
abbrev pub replaced : (SymbolicValue → Option SymbolicValue) → SymbolicValue → SymbolicValue
replaced f node = elim (f node) [ none ↦ node | some other ↦ other ]

-- `transform`, from the leaves up.
unfoldable mutual
  pub transform : (SymbolicValue → Option SymbolicValue) → SymbolicValue → SymbolicValue
  transform f (const value w) = replaced f (const value w)
  transform f (var n w) = replaced f (var n w)
  transform f (arg index w) = replaced f (arg index w)
  transform f (mem addr w) = replaced f (mem (transform f addr) w)
  transform f (oper op lhs rhs) = replaced f (oper op (transform f lhs) (transform f rhs))
  transform f (call target args w) = replaced f (call target (transform_args f args) w)
  transform f (constraint op lhs rhs) =
      replaced f (constraint op (transform f lhs) (transform f rhs))

  pub transform_args : (SymbolicValue → Option SymbolicValue) → Args → Args
  transform_args f nil = nil
  transform_args f (cons a args) = cons (transform f a) (transform_args f args)

-- `walk_tree`: the nodes in the order of the callbacks.
unfoldable mutual
  pub walk_tree : SymbolicValue → List SymbolicValue
  walk_tree (mem addr w) = mem addr w ∷ walk_tree addr
  walk_tree (oper op lhs rhs) = oper op lhs rhs ∷ walk_tree lhs ++ walk_tree rhs
  walk_tree (call target args w) = call target args w ∷ walk_args args
  walk_tree (constraint op lhs rhs) = constraint op lhs rhs ∷ walk_tree lhs ++ walk_tree rhs
  walk_tree v = v ∷ []

  pub walk_args : Args → List SymbolicValue
  walk_args nil = []
  walk_args (cons a args) = walk_tree a ++ walk_args args

-- The node is a variable of that name.
abbrev pub names : String → SymbolicValue → Bool
names name (var n w) = str_eq n name
names name _ = false

-- The set of `collect_variables` has the name.
unfoldable pub has_variable : String → List SymbolicValue → Bool
has_variable name [] = false
has_variable name (v ∷ vs) = names name v || has_variable name vs

-- The places of the operators in their declaration, for their equality.
unfoldable pub op_index : Op → ℕ
op_index add = 0
op_index sub = 1
op_index mul = 2
op_index div = 3
op_index modulo = 4
op_index and = 5
op_index or = 6
op_index xor = 7
op_index shl = 8
op_index shr = 9
op_index sar = 10
op_index not = 11
op_index neg = 12
op_index sign_extend = 13
op_index zero_extend = 14
op_index pow = 15

unfoldable pub constraint_index : ConstraintOp → ℕ
constraint_index eq = 0
constraint_index ne = 1
constraint_index lt = 2
constraint_index le = 3
constraint_index gt = 4
constraint_index ge = 5
constraint_index ult = 6
constraint_index ugt = 7

-- `structurally_equivalent`. The lists of two calls have the same length and equivalent arguments.
unfoldable mutual
  pub structurally_equivalent : SymbolicValue → SymbolicValue → Bool
  structurally_equivalent (const v1 w1) (const v2 w2) = w1 == w2
  structurally_equivalent (var n1 w1) (var n2 w2) = str_eq n1 n2 && w1 == w2
  structurally_equivalent (arg i1 w1) (arg i2 w2) = i1 == i2 && w1 == w2
  structurally_equivalent (mem a1 w1) (mem a2 w2) = w1 == w2 && structurally_equivalent a1 a2
  structurally_equivalent (oper o1 l1 r1) (oper o2 l2 r2) =
      op_index o1 == op_index o2 && structurally_equivalent l1 l2 && structurally_equivalent r1 r2
  structurally_equivalent (call t1 a1 w1) (call t2 a2 w2) = str_eq t1 t2 && equivalent_args a1 a2
  structurally_equivalent (constraint o1 l1 r1) (constraint o2 l2 r2) =
      constraint_index o1 == constraint_index o2
      && structurally_equivalent l1 l2
      && structurally_equivalent r1 r2
  structurally_equivalent _ _ = false

  pub equivalent_args : Args → Args → Bool
  equivalent_args nil nil = true
  equivalent_args (cons a xs) (cons b ys) = structurally_equivalent a b && equivalent_args xs ys
  equivalent_args _ _ = false

-- The register map and the counter of `normalize_inner`.
abbrev pub RegMap : Type 0
RegMap = NameMap ℕ × ℕ

-- `reg_map.entry(name).or_insert_with(..)`.
unfoldable pub entry : String → RegMap → ℕ × RegMap
entry name (regs, counter) = elim (find_name name regs) [
  | some index ↦ (index, (regs, counter))
  | none ↦ (counter, (put_name name counter regs, counter + 1))
]

-- `normalize_inner`, with the map passed along.
unfoldable mutual
  pub normalize_inner : SymbolicValue → RegMap → SymbolicValue × RegMap
  normalize_inner (const value w) m = (const value w, m)
  normalize_inner (var name w) m =
      let (index, m') = entry name m in (var ("reg" ◁ decimal index) w, m')
  normalize_inner (arg index w) m = (arg index w, m)
  normalize_inner (mem addr w) m = let (a, m') = normalize_inner addr m in (mem a w, m')
  normalize_inner (oper op lhs rhs) m =
      let (l, m') = normalize_inner lhs m in
      let (r, m'') = normalize_inner rhs m' in (oper op l r, m'')
  normalize_inner (call target args w) m =
      let (xs, m') = normalize_args args m in (call target xs w, m')
  normalize_inner (constraint op lhs rhs) m =
      let (l, m') = normalize_inner lhs m in
      let (r, m'') = normalize_inner rhs m' in (constraint op l r, m'')

  pub normalize_args : Args → RegMap → Args × RegMap
  normalize_args nil m = (nil, m)
  normalize_args (cons a args) m =
      let (b, m') = normalize_inner a m in
      let (bs, m'') = normalize_args args m' in (cons b bs, m'')

-- `normalize_arch_independent`.
unfoldable pub normalize_arch_independent : SymbolicValue → SymbolicValue
normalize_arch_independent v = (normalize_inner v ([], 0)).0
