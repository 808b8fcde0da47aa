-- ===== src/Symboliks/Value/Rewrite/Substitution.antt =====
-- src/symboliks/value.rs: substitution and transformation.
use vivisect_rs.Base.{
  ℕ, ◌≡◌, refl, sym, ap, ap₂, ◌∙◌, Bool, true, false, ◌&&◌, ◌||◌, Option, none, some, String, List,
  [], ◌∷◌, ◌++◌, arith, if◌then◌else◌, str_eq, Bool-cases, inl, inr,
}
use vivisect_rs.Symboliks.Value.{
  SymbolicValue, const, var, arg, mem, oper, call, constraint, Args, nil, cons,
}
use vivisect_rs.Symboliks.Solver.{both_known, eval_op, constraint_holds, eval_with_subst}
use vivisect_rs.Symboliks.Value.Rewrite.{
  substitute, substitute_args, transform, transform_args, walk_tree, walk_args, has_variable,
}

-- What `transform` is given to substitute.
abbrev pub at_variable : String → SymbolicValue → SymbolicValue → Option SymbolicValue
at_variable name r (var n w) = if str_eq n name then some r else none
at_variable name r _ = none

mutual
  unfolding substitute transform

  transform_substitutes :
      (v : SymbolicValue) (name : String) (r : SymbolicValue)
      → transform (at_variable name r) v ≡ substitute v name r
  transform_substitutes (const value w) name r = refl
  transform_substitutes (var n w) name r = elim (Bool-cases (str_eq n name)) [
    | inl e ↦ ground (arith, e)
    | inr e ↦ ground (arith, e)
  ]
  transform_substitutes (arg index w) name r = refl
  transform_substitutes (mem addr w) name r = ap (λ t. mem t w) (transform_substitutes addr name r)
  transform_substitutes (oper op lhs rhs) name r =
      ap₂ (oper op) (transform_substitutes lhs name r) (transform_substitutes rhs name r)
  transform_substitutes (call target args w) name r =
      ap (λ t. call target t w) (transform_args_substitutes args name r)
  transform_substitutes (constraint op lhs rhs) name r =
      ap₂ (constraint op) (transform_substitutes lhs name r) (transform_substitutes rhs name r)

  transform_args_substitutes :
      (args : Args) (name : String) (r : SymbolicValue)
      → transform_args (at_variable name r) args ≡ substitute_args args name r
  transform_args_substitutes nil name r = refl
  transform_args_substitutes (cons a args) name r =
      ap₂ cons (transform_substitutes a name r) (transform_args_substitutes args name r)

-- `substitute` is `transform` with the function that replaces the variable and keeps every other node.
pub transform-substitute :
    (v : SymbolicValue) (name : String) (r : SymbolicValue)
    → transform (at_variable name r) v ≡ substitute v name r
transform-substitute v name r = transform_substitutes v name r

-- Substituting a constant for a variable and then evaluating, with whatever value for the variable, is
-- evaluating with the constant as its value.
pub eval_with_subst-substitute :
    (v : SymbolicValue) (name : String) (x w y : ℕ)
    → eval_with_subst (substitute v name (const x w)) name y ≡ eval_with_subst v name x
unfolding eval_with_subst substitute
eval_with_subst-substitute (const value w') name x w y = refl
eval_with_subst-substitute (var n w') name x w y = elim (Bool-cases (str_eq n name)) [
  | inl e ↦ rw e refl
  | inr e ↦ ground (arith, e)
]
eval_with_subst-substitute (arg index w') name x w y = refl
eval_with_subst-substitute (mem addr w') name x w y = refl
eval_with_subst-substitute (oper op lhs rhs) name x w y =
    ap₂ (λ a b. both_known a b (eval_op op)) (eval_with_subst-substitute lhs name x w y)
      (eval_with_subst-substitute rhs name x w y)
eval_with_subst-substitute (call target args w') name x w y = refl
eval_with_subst-substitute (constraint op lhs rhs) name x w y =
    ap₂ (λ a b. both_known a b (λ p q. if constraint_holds op p q then 1 else 0))
      (eval_with_subst-substitute lhs name x w y) (eval_with_subst-substitute rhs name x w y)

has_variable-append :
    (name : String) (vs ws : List SymbolicValue)
    → has_variable name (vs ++ ws) ≡ (has_variable name vs || has_variable name ws)
unfolding has_variable
has_variable-append name [] ws = refl
has_variable-append name (v ∷ vs) ws = ground (arith, has_variable-append name vs ws)

both_and : (a b r : Bool) → ((a && r) || (b && r)) ≡ ((a || b) && r)
both_and false false r = refl
both_and false true r = refl
both_and true b true = refl
both_and true false false = refl
both_and true true false = refl

has_variable-both :
    (name : String) (vs ws vs' ws' : List SymbolicValue) (r : Bool)
    → has_variable name vs' ≡ (has_variable name vs && r)
    → has_variable name ws' ≡ (has_variable name ws && r)
    → has_variable name (vs' ++ ws') ≡ (has_variable name (vs ++ ws) && r)
has_variable-both name vs ws vs' ws' r left right =
    has_variable-append name vs' ws'
    ∙ ap₂ (λ a b. a || b) left right
    ∙ both_and (has_variable name vs) (has_variable name ws) r
    ∙ ap (λ t. t && r) (sym (has_variable-append name vs ws))

-- The variable occurs in the expression.
unfoldable pub mentions : String → SymbolicValue → Bool
mentions name v = has_variable name (walk_tree v)

mutual
  unfolding substitute walk_tree has_variable mentions

  occurs_after :
      (v : SymbolicValue) (name : String) (r : SymbolicValue)
      → mentions name (substitute v name r) ≡ (mentions name v && mentions name r)
  occurs_after (const value w) name r = refl
  occurs_after (var n w) name r = ground arith
  occurs_after (arg index w) name r = refl
  occurs_after (mem addr w) name r = occurs_after addr name r
  occurs_after (oper op lhs rhs) name r =
      has_variable-both name (walk_tree lhs) (walk_tree rhs) (walk_tree (substitute lhs name r))
        (walk_tree (substitute rhs name r)) (mentions name r) (occurs_after lhs name r)
        (occurs_after rhs name r)
  occurs_after (call target args w) name r = occurs_after_args args name r
  occurs_after (constraint op lhs rhs) name r =
      has_variable-both name (walk_tree lhs) (walk_tree rhs) (walk_tree (substitute lhs name r))
        (walk_tree (substitute rhs name r)) (mentions name r) (occurs_after lhs name r)
        (occurs_after rhs name r)

  occurs_after_args :
      (args : Args) (name : String) (r : SymbolicValue)
      → has_variable name (walk_args (substitute_args args name r))
        ≡ (has_variable name (walk_args args) && mentions name r)
  occurs_after_args nil name r = refl
  occurs_after_args (cons a args) name r =
      has_variable-both name (walk_tree a) (walk_args args) (walk_tree (substitute a name r))
        (walk_args (substitute_args args name r)) (mentions name r) (occurs_after a name r)
        (occurs_after_args args name r)

-- After a substitution, `collect_variables` has the variable where it had it before and the new
-- expression has it.
pub mentions-substitute :
    (v : SymbolicValue) (name : String) (r : SymbolicValue)
    → mentions name (substitute v name r) ≡ (mentions name v && mentions name r)
mentions-substitute v name r = occurs_after v name r
