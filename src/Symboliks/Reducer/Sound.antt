-- ===== src/Symboliks/Reducer/Sound.antt =====
-- src/symboliks/reducer.rs, `reduce` against `solve` on wide expressions.
use vivisect_rs.Base.{ℕ, ◌≤◌, ◌≡◌, refl, sym, String, arith, ap, ap₂, ◌∙◌}
use mathlib.Core.Path.{subst}
use vivisect_rs.Word.{wrapping_add, wrapping_mul}
use vivisect_rs.Symboliks.Value.{
  Op, not, neg, SymbolicValue, const, var, arg, mem, oper, call, constraint, Args, nil, cons, width,
}
use vivisect_rs.Symboliks.Value.Solve.{golden, solve, solve_args, solve_op, solve_constraint}
use vivisect_rs.Symboliks.Reducer.{reduce, reduce_args}
use vivisect_rs.Symboliks.Reducer.Wide.{ShiftFits, RightFits, IsWide, IsWideArgs}
use vivisect_rs.Symboliks.Reducer.Steps.{
  reduce_oper-Keeps, reduce_constraint-solve, reduce_constraint-IsWide,
}

RightFits-imp : (op : Op) (w w' : ℕ) → (8 ≤ w → 8 ≤ w') → RightFits op w → RightFits op w'
RightFits-imp not w w' f h = tt
RightFits-imp neg w w' f h = tt
RightFits-imp op w w' f h = f h

module _ (hash : String → ℕ) where
  -- What reduction keeps: the value, the shape, and the width of an operand.
  abbrev Sound : SymbolicValue → Type 0
  Sound v =
      (solve hash (reduce hash v) ≡ solve hash v)
      × IsWide hash (reduce hash v)
      × (8 ≤ width v → 8 ≤ width (reduce hash v))

  operands-IsWide :
      (op : Op) (l r : SymbolicValue)
      → IsWide hash (oper op l r)
      → Sound l
      → Sound r
      → IsWide hash (oper op (reduce hash l) (reduce hash r))
  operands-IsWide op l r h sl sr =
      (sl.1, sr.1, sl.2 h.2, RightFits-imp op _ _ sr.2 h.3, subst (ShiftFits op) (sym sr.0) h.4)

  reduce_oper-Sound :
      (op : Op) (l r : SymbolicValue)
      → IsWide hash (oper op l r)
      → Sound l
      → Sound r
      → Sound (oper op l r)
  unfolding reduce solve width
  reduce_oper-Sound op l r h sl sr =
      let (value, wide, operand) =
        reduce_oper-Keeps hash op (reduce hash l) (reduce hash r)
          (operands-IsWide op l r h sl sr) in
      (value ∙ ap₂ (solve_op op) sl.0 sr.0, wide, λ w. operand)

  mutual
    unfolding solve reduce width

    reduce-Sound : (v : SymbolicValue) → IsWide hash v → Sound v
    reduce-Sound (const value w) h = (refl, h, λ p. p)
    reduce-Sound (var name w) h = (refl, h, λ p. p)
    reduce-Sound (arg index w) h = (refl, h, λ p. p)
    reduce-Sound (mem addr w) h =
        let (value, wide, operand) = reduce-Sound addr h in
        (ap (λ n. wrapping_mul n golden) value, wide, λ p. p)
    reduce-Sound (oper op l r) h =
        reduce_oper-Sound op l r h (reduce-Sound l h.0) (reduce-Sound r h.1)
    reduce-Sound (call target args w) h =
        let (value, wide) = reduce_args-Sound args h in (value _, wide, λ p. p)
    reduce-Sound (constraint op l r) h =
        let (value_l, wide_l, operand_l) = reduce-Sound l h.0 in
        let (value_r, wide_r, operand_r) = reduce-Sound r h.1 in
        (
          reduce_constraint-solve hash op (reduce hash l) (reduce hash r)
              ∙ ap₂ (solve_constraint op) value_l value_r,
          reduce_constraint-IsWide hash op (reduce hash l) (reduce hash r) wide_l wide_r,
          λ p. absurd (omega arith),
        )

    reduce_args-Sound :
        (args : Args)
        → IsWideArgs hash args
        → ((n : ℕ) → solve_args hash n (reduce_args hash args) ≡ solve_args hash n args)
          × IsWideArgs hash (reduce_args hash args)
    reduce_args-Sound nil h = (λ n. refl, tt)
    reduce_args-Sound (cons a args) h =
        let (value, wide, operand) = reduce-Sound a h.0 in
        let (values, wides) = reduce_args-Sound args h.1 in
        (λ n. rw value (values (wrapping_add n (solve hash a))), (wide, wides))

  -- An expression whose constants are `u64`, whose operands have at least 8 bytes, and whose shifts
  -- are by less than 64 stands for the same number after reduction, for every hash of the names.
  pub reduce_sound : (v : SymbolicValue) → IsWide hash v → solve hash (reduce hash v) ≡ solve hash v
  reduce_sound v h = (reduce-Sound v h).0

  -- The reduced expression meets those conditions again.
  pub reduce-IsWide : (v : SymbolicValue) → IsWide hash v → IsWide hash (reduce hash v)
  reduce-IsWide v h = (reduce-Sound v h).1

  -- An expression of at least 8 bytes keeps at least 8 bytes.
  pub width-reduce-le :
      (v : SymbolicValue) → IsWide hash v → 8 ≤ width v → 8 ≤ width (reduce hash v)
  width-reduce-le v h = (reduce-Sound v h).2
