-- ===== src/Symboliks/Value/Rewrite/Tests.antt =====
-- src/symboliks/value.rs: rewriting, runs.
use vivisect_rs.Base.{
  ◌≡◌, refl, sym, ap, ◌∙◌, String, str_eq, str_eq_iff, if◌then◌else◌, arith, Bool-cases, inl, inr,
}
use mathlib.Core.Path.{subst}
use vivisect_rs.Symboliks.Value.{Op, SymbolicValue, const, var, oper}
use vivisect_rs.Symboliks.Solver.{eval_with_subst}
use vivisect_rs.Symboliks.Value.Rewrite.{substitute, normalize_arch_independent}
use vivisect_rs.Symboliks.Value.Rewrite.Substitution.{eval_with_subst-substitute}
use vivisect_rs.Symboliks.Value.Rewrite.Renaming.{rename, normalize_arch_independent-rename}

-- `rax + 4`.
abbrev moved : SymbolicValue
moved = oper Op.add (var "rax" 8) (const 4 8)

eval_with_subst-substitute_example :
    eval_with_subst (substitute moved "rax" (const 3 8)) "rax" 9 ≡ eval_with_subst moved "rax" 3
eval_with_subst-substitute_example = eval_with_subst-substitute moved "rax" 3 8 9

-- The names of the two accumulators, exchanged.
abbrev exchanged : String → String
exchanged name = if str_eq name "rax" then "r0" else if str_eq name "r0" then "rax" else name

exchanged_twice : (name : String) → exchanged (exchanged name) ≡ name
exchanged_twice name = elim (Bool-cases (str_eq name "rax")) [
  | inl e ↦
      let same : name ≡ "rax" = (str_eq_iff name "rax").0 e in
      subst (λ t. exchanged (exchanged t) ≡ t) (sym same) refl
  | inr e ↦ elim (Bool-cases (str_eq name "r0")) [
    | inl f ↦
        let same : name ≡ "r0" = (str_eq_iff name "r0").0 f in
        subst (λ t. exchanged (exchanged t) ≡ t) (sym same) refl
    | inr f ↦ let kept : exchanged name ≡ name = ground (arith, e, f) in ap exchanged kept ∙ kept
  ]
]

exchanged_distinct : (a b : String) → str_eq (exchanged a) (exchanged b) ≡ str_eq a b
exchanged_distinct a b = elim (Bool-cases (str_eq a b)) [
  | inl e ↦ (str_eq_iff (exchanged a) (exchanged b)).1 (ap exchanged ((str_eq_iff a b).0 e)) ∙ sym e
  | inr e ↦ elim (Bool-cases (str_eq (exchanged a) (exchanged b))) [
    | inr f ↦ f ∙ sym e
    | inl f ↦
        let moved_back : exchanged (exchanged a) ≡ exchanged (exchanged b) =
          ap exchanged ((str_eq_iff (exchanged a) (exchanged b)).0 f) in
        let same : a ≡ b = sym (exchanged_twice a) ∙ moved_back ∙ exchanged_twice b in
        let equal = (str_eq_iff a b).1 same in f ∙ sym equal
  ]
]

normalize_arch_independent-rename_example :
    normalize_arch_independent (rename exchanged moved) ≡ normalize_arch_independent moved
normalize_arch_independent-rename_example =
    normalize_arch_independent-rename exchanged exchanged_distinct moved
