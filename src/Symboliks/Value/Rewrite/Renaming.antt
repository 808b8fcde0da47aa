-- ===== src/Symboliks/Value/Rewrite/Renaming.antt =====
-- src/symboliks/value.rs: the names that do not depend on an architecture.
use vivisect_rs.Base.{
  ℕ, ◌≡◌, refl, ap, ◌∙◌, String, [], ◌∷◌, arith, str_eq, decimal, Option-cases, inl, inr,
}
use Prim.Native.String.{◌++◌}
use vivisect_rs.HashMap.{NameMap, find_name, drop_name}
use vivisect_rs.Symboliks.Value.{
  SymbolicValue, const, var, arg, mem, oper, call, constraint, Args, nil, cons,
}
use vivisect_rs.Symboliks.Value.Rewrite.{
  RegMap, entry, normalize_inner, normalize_args, normalize_arch_independent,
}

-- The expression with other names for its variables.
abbrev mutual
  pub rename : (String → String) → SymbolicValue → SymbolicValue
  rename f (const value w) = const value w
  rename f (var name w) = var (f name) w
  rename f (arg index w) = arg index w
  rename f (mem addr w) = mem (rename f addr) w
  rename f (oper op lhs rhs) = oper op (rename f lhs) (rename f rhs)
  rename f (call target args w) = call target (rename_args f args) w
  rename f (constraint op lhs rhs) = constraint op (rename f lhs) (rename f rhs)

  pub rename_args : (String → String) → Args → Args
  rename_args f nil = nil
  rename_args f (cons a args) = cons (rename f a) (rename_args f args)

module _ (f : String → String) (distinct : (a b : String) → str_eq (f a) (f b) ≡ str_eq a b) where
  -- The register map under the other names.
  abbrev moved_regs : NameMap ℕ → NameMap ℕ
  moved_regs [] = []
  moved_regs ((name, index) ∷ m) = (f name, index) ∷ moved_regs m

  abbrev moved : RegMap → RegMap
  moved (regs, counter) = (moved_regs regs, counter)

  find_name-moved_regs :
      (name : String) (m : NameMap ℕ) → find_name (f name) (moved_regs m) ≡ find_name name m
  unfolding find_name
  find_name-moved_regs name [] = refl
  find_name-moved_regs name ((k, index) ∷ m) =
      rw (distinct name k, find_name-moved_regs name m) refl

  drop_name-moved_regs :
      (name : String) (m : NameMap ℕ)
      → drop_name (f name) (moved_regs m) ≡ moved_regs (drop_name name m)
  unfolding drop_name
  drop_name-moved_regs name [] = refl
  drop_name-moved_regs name ((k, index) ∷ m) =
      ground (arith, distinct name k, drop_name-moved_regs name m)

  entry-moved :
      (name : String) (m : RegMap)
      → entry (f name) (moved m) ≡ ((entry name m).0, moved (entry name m).1)
  unfolding entry
  entry-moved name (regs, counter) = elim (Option-cases (find_name name regs)) [
    | inl e ↦ ground (arith, e, find_name-moved_regs name regs, drop_name-moved_regs name regs)
    | inr (i, e) ↦ ground (arith, e, find_name-moved_regs name regs)
  ]

  mutual
    unfolding normalize_inner

    moved_value :
        (v : SymbolicValue) (m : RegMap)
        → normalize_inner (rename f v) (moved m)
          ≡ ((normalize_inner v m).0, moved (normalize_inner v m).1)
    moved_value (const value w) m = refl
    moved_value (var name w) m = ap (λ e. (var ("reg" ++ decimal e.0) w, e.1)) (entry-moved name m)
    moved_value (arg index w) m = refl
    moved_value (mem addr w) m = ap (λ a. (mem a.0 w, a.1)) (moved_value addr m)
    moved_value (oper op lhs rhs) m =
        ap (λ l. let r = normalize_inner (rename f rhs) l.1 in (oper op l.0 r.0, r.1))
          (moved_value lhs m)
        ∙ ap (λ r. (oper op (normalize_inner lhs m).0 r.0, r.1))
            (moved_value rhs (normalize_inner lhs m).1)
    moved_value (call target args w) m = ap (λ l. (call target l.0 w, l.1)) (moved_args args m)
    moved_value (constraint op lhs rhs) m =
        ap (λ l. let r = normalize_inner (rename f rhs) l.1 in (constraint op l.0 r.0, r.1))
          (moved_value lhs m)
        ∙ ap (λ r. (constraint op (normalize_inner lhs m).0 r.0, r.1))
            (moved_value rhs (normalize_inner lhs m).1)

    moved_args :
        (args : Args) (m : RegMap)
        → normalize_args (rename_args f args) (moved m)
          ≡ ((normalize_args args m).0, moved (normalize_args args m).1)
    moved_args nil m = refl
    moved_args (cons a args) m =
        ap (λ l. let r = normalize_args (rename_args f args) l.1 in (cons l.0 r.0, r.1))
          (moved_value a m)
        ∙ ap (λ r. (cons (normalize_inner a m).0 r.0, r.1))
            (moved_args args (normalize_inner a m).1)

  -- Expressions that differ only in the names of their variables, different names for different ones,
  -- have the same normal form.
  pub normalize_arch_independent-rename :
      (v : SymbolicValue) → normalize_arch_independent (rename f v) ≡ normalize_arch_independent v
  unfolding normalize_arch_independent
  normalize_arch_independent-rename v = ap (λ r. r.0) (moved_value v ([], 0))
