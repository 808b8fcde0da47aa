-- ===== src/Symboliks/Solver/Enumerate.antt =====
-- The entry points of src/symboliks/solver.rs: `check_sat`, `find_range` and `enumerate_values`.
use vivisect_rs.Base.{
  ℕ, zero, suc, ◌+◌, ◌-◌, ◌/◌, ◌%◌, ◌^◌, min, Bool, true, ◌&&◌, Option, none, some, String, List,
  [], ◌∷◌, ◌++◌, ltb, leb, ◌==◌, if◌then◌else◌, unwrap_or, length, all, not,
}
use vivisect_rs.Word.{u64_mod, saturating_add}
use vivisect_rs.Symboliks.Value.{SymbolicValue, is_discrete}
use vivisect_rs.Symboliks.Value.Solve.{solve}
use vivisect_rs.Symboliks.Solver.{
  SymbolicSolver, VarBounds, collect_variables, extract_bounds, verify_constraints,
}

-- The end of a call: a value, a panic, or no end within the fuel.
pub data Run {ℓ} (A : Type ℓ) : Type ℓ where
  done : A → Run A
  panicked : Run A
  out_of_fuel : Run A

-- `eval_concrete`.
unfoldable pub eval_concrete : (String → ℕ) → SymbolicValue → Option Bool
eval_concrete hash c = if is_discrete c then some (not (solve hash c == 0)) else none

-- `bounds.lower <= bounds.upper` of a variable.
abbrev pub has_range : List SymbolicValue → String → Bool
has_range cs name = let b = extract_bounds name cs in leb b.lower b.upper

-- `SymbolicSolver::check_sat`.
unfoldable pub check_sat : (String → ℕ) → List SymbolicValue → Bool
check_sat hash cs = elim (collect_variables cs) [
  | [] ↦ all (λ c. unwrap_or (eval_concrete hash c) true) cs
  | name ∷ names ↦ all (has_range cs) (name ∷ names)
]

-- `SymbolicSolver::find_range`.
unfoldable pub find_range : String → List SymbolicValue → Option (ℕ × ℕ)
find_range name cs =
    let b = extract_bounds name cs in if ltb b.upper b.lower then none else some (b.lower, b.upper)

-- `v & width_mask(width)`, with the masks of `width_mask`.
unfoldable pub masked : ℕ → ℕ → ℕ
masked width v =
    if width == 1
    then v % 2 ^ 8
    else if width == 2
    then v % 2 ^ 16
    else if width == 4
    then v % 2 ^ 32
    else v % u64_mod

module _ (name : String) (width : ℕ) (cs : List SymbolicValue) where
  abbrev pub admits : ℕ → Bool
  admits x = verify_constraints name x cs

  -- `for v in lower..=upper`, with the rounds that are left and the values so far.
  unfoldable pub direct_loop : ℕ → ℕ → ℕ → List ℕ → List ℕ
  direct_loop max_values zero v values = values
  direct_loop max_values (suc rounds) v values =
      let m = masked width v in
      let taken = values ++ m ∷ [] in
      let after_taken = direct_loop max_values rounds (v + 1) taken in
      let after_skipped = direct_loop max_values rounds (v + 1) values in
      if admits m
      then (if leb max_values (length taken) then taken else after_taken)
      else after_skipped

  -- One round of the sampling loop: the masked value is kept if it passes the check.
  unfoldable pub push_admitted : ℕ → List ℕ → List ℕ
  push_admitted v values = let m = masked width v in if admits m then values ++ m ∷ [] else values

  -- `while v <= upper && values.len() < cap`, on fuel.
  unfoldable pub sample_loop : ℕ → ℕ → ℕ → ℕ → ℕ → List ℕ → Run (List ℕ)
  sample_loop zero step cap upper v values = out_of_fuel
  sample_loop (suc fuel) step cap upper v values =
      let rest = sample_loop fuel step cap upper (saturating_add v step) (push_admitted v values) in
      if leb v upper && ltb (length values) cap then rest else done values

  -- The second half of `enumerate_values`; the division by a cap of 0 panics.
  unfoldable pub sample : ℕ → ℕ → VarBounds → ℕ → Run (List ℕ)
  sample fuel cap b range_size =
      if ltb cap range_size && cap == 0
      then panicked
      else (let step = if ltb cap range_size then range_size / cap else 1 in
          sample_loop fuel step cap b.upper b.lower [])

  -- `SymbolicSolver::enumerate_values`. The size of the range wraps, as `u64` does in a release
  -- build, and the `for` loop runs over the whole range.
  unfoldable pub enumerate_values : ℕ → SymbolicSolver → ℕ → Run (List ℕ)
  enumerate_values fuel solver max_values =
      let b = extract_bounds name cs in
      let range_size = (b.upper - b.lower + 1) % u64_mod in
      if ltb b.upper b.lower
      then done []
      else if leb range_size max_values && leb range_size solver.max_brute_force
      then done (direct_loop max_values (b.upper - b.lower + 1) b.lower [])
      else sample fuel (min max_values solver.max_brute_force) b range_size
