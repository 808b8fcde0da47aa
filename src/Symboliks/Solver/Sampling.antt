-- ===== src/Symboliks/Solver/Sampling.antt =====
-- src/symboliks/solver.rs, `enumerate_values` over any range: its values, and its end.
use vivisect_rs.Base.{
  ℕ, zero, suc, ◌+◌, ◌-◌, ◌/◌, ◌%◌, ◌≤◌, ◌<◌, min, ◌≡◌, Bool, true, false, ◌&&◌, String, List, [],
  ◌∷◌, ◌++◌, ltb, leb, ◌==◌, if◌then◌else◌, length, arith, Bool-cases, inl, inr, All,
}
use vivisect_rs.Word.{u64_mod, u64_max, saturating_add}
use vivisect_rs.Symboliks.Value.{SymbolicValue}
use vivisect_rs.Symboliks.Solver.{SymbolicSolver, VarBounds, extract_bounds}
use vivisect_rs.Symboliks.Solver.Enumerate.{
  Run, done, panicked, out_of_fuel, masked, admits, direct_loop, push_admitted, sample_loop, sample,
  enumerate_values,
}

All-snoc {κ} : (P : ℕ → Type κ) (xs : List ℕ) (x : ℕ) → All P xs → P x → All P (xs ++ x ∷ [])
All-snoc P [] x h p = (p, tt)
All-snoc P (y ∷ ys) x h p = (h.0, All-snoc P ys x h.1 p)

-- A property of the value that a call returns, if it returns one.
abbrev pub OnReturn {ℓ κ} : {A : Type ℓ} → (A → Type κ) → Run A → Type κ
OnReturn P (done a) = P a
OnReturn P panicked = Unit
OnReturn P out_of_fuel = Unit

abbrev pub returns {ℓ} : {A : Type ℓ} → Run A → Bool
returns (done a) = true
returns _ = false

module _ (name : String) (width : ℕ) (cs : List SymbolicValue) where
  abbrev AllAdmitted : List ℕ → Type 0
  AllAdmitted = All (λ x. admits name width cs x ≡ true)

  direct_loop-AllAdmitted :
      (max_values n v : ℕ) (values : List ℕ)
      → AllAdmitted values
      → AllAdmitted (direct_loop name width cs max_values n v values)
  unfolding direct_loop
  direct_loop-AllAdmitted max_values zero v values h = h
  direct_loop-AllAdmitted max_values (suc n) v values h =
      let m = masked width v in
      let taken = values ++ m ∷ [] in
      elim (Bool-cases (admits name width cs m)) [
        | inr skipped ↦ rw skipped (direct_loop-AllAdmitted max_values n (v + 1) values h)
        | inl admitted ↦
            let h' = All-snoc (λ x. admits name width cs x ≡ true) values m h admitted in
            rw admitted (elim (Bool-cases (leb max_values (length taken))) [
              | inl full ↦ rw full h'
              | inr room ↦ rw room (direct_loop-AllAdmitted max_values n (v + 1) taken h')
            ])
      ]

  push_admitted-AllAdmitted :
      (v : ℕ) (values : List ℕ)
      → AllAdmitted values
      → AllAdmitted (push_admitted name width cs v values)
  unfolding push_admitted
  push_admitted-AllAdmitted v values h = elim (Bool-cases (admits name width cs (masked width v))) [
    | inr skipped ↦ rw skipped h
    | inl admitted ↦
        rw admitted
          (All-snoc (λ x. admits name width cs x ≡ true) values (masked width v) h admitted)
  ]

  sample_loop-AllAdmitted :
      (fuel step cap upper v : ℕ) (values : List ℕ)
      → AllAdmitted values
      → OnReturn AllAdmitted (sample_loop name width cs fuel step cap upper v values)
  unfolding sample_loop
  sample_loop-AllAdmitted zero step cap upper v values h = tt
  sample_loop-AllAdmitted (suc fuel) step cap upper v values h =
      elim (Bool-cases (leb v upper && ltb (length values) cap)) [
        | inr over ↦ rw over h
        | inl more ↦ rw more (
            sample_loop-AllAdmitted fuel step cap upper (saturating_add v step)
              (push_admitted name width cs v values) (push_admitted-AllAdmitted v values h))
      ]

  -- With a step of at least 1 and an upper bound that a step cannot carry past `u64::MAX`, a
  -- fuel above the size of the range is enough for the sampling loop to return.
  sample_loop-returns :
      (fuel step cap upper v : ℕ) (values : List ℕ)
      → 0 < step
      → upper + step ≤ u64_max
      → upper + 1 - v < fuel
      → returns (sample_loop name width cs fuel step cap upper v values) ≡ true
  unfolding sample_loop
  sample_loop-returns zero step cap upper v values s u f = absurd (omega arith)
  sample_loop-returns (suc fuel) step cap upper v values s u f =
      elim (Bool-cases (leb v upper && ltb (length values) cap)) [
        | inr over ↦ rw over
        | inl more ↦ rw more (
            sample_loop-returns fuel step cap upper (saturating_add v step)
              (push_admitted name width cs v values) s u (ground arith))
      ]

  sample-AllAdmitted :
      (fuel k : ℕ) (b : VarBounds) (size : ℕ)
      → OnReturn AllAdmitted (sample name width cs fuel k b size)
  unfolding sample
  sample-AllAdmitted fuel k b size = elim (Bool-cases (ltb k size && k == 0)) [
    | inl no_cap ↦ rw no_cap tt
    | inr capped ↦
        rw capped (
          sample_loop-AllAdmitted fuel (if ltb k size then size / k else 1) k b.upper b.lower [] tt)
  ]

  -- The size of the range as `enumerate_values` computes it, the cap of the sampling loop and its
  -- step.
  abbrev pub range_size : ℕ
  range_size = (extract_bounds name cs).upper - (extract_bounds name cs).lower + 1

  abbrev pub cap : SymbolicSolver → ℕ → ℕ
  cap solver max_values = min max_values solver.max_brute_force

  -- Every value that `enumerate_values` returns passes the check of every constraint, on each of
  -- its branches and for every fuel.
  pub enumerate_admitted :
      (fuel : ℕ) (solver : SymbolicSolver) (max_values : ℕ)
      → OnReturn
          (All (λ x. admits name width cs x ≡ true))
          (enumerate_values name width cs fuel solver max_values)
  unfolding enumerate_values
  enumerate_admitted fuel solver max_values =
      let b = extract_bounds name cs in
      let size = range_size % u64_mod in
      elim (Bool-cases (ltb b.upper b.lower)) [
        | inl empty ↦ rw empty tt
        | inr range ↦
            rw range (elim (Bool-cases (leb size max_values && leb size solver.max_brute_force)) [
              | inl small ↦ rw small (direct_loop-AllAdmitted max_values range_size b.lower [] tt)
              | inr large ↦ rw large (sample-AllAdmitted fuel (cap solver max_values) b size)
            ])
      ]

  sample-returns :
      (fuel k : ℕ) (b : VarBounds) (size : ℕ)
      → 0 < k
      → b.upper + size / k + 1 ≤ u64_max
      → b.upper + 1 - b.lower < fuel
      → returns (sample name width cs fuel k b size) ≡ true
  unfolding sample
  sample-returns fuel k b size c u f =
      let capped : (ltb k size && k == 0) ≡ false = ground arith in
      let step = if ltb k size then size / k else 1 in
      rw capped (sample_loop-returns fuel step k b.upper b.lower [] (grind arith) (grind arith) f)

  -- A call returns within a fuel of two more than the size of the range, if the size is a `u64`, at
  -- least one value is asked for, and a step of the sampling loop cannot carry the greatest value
  -- past `u64::MAX`.
  pub enumerate_returns :
      (fuel : ℕ) (solver : SymbolicSolver) (max_values : ℕ)
      → range_size < u64_mod
      → 0 < cap solver max_values
      → (extract_bounds name cs).upper + range_size / cap solver max_values + 1 ≤ u64_max
      → range_size + 1 < fuel
      → returns (enumerate_values name width cs fuel solver max_values) ≡ true
  unfolding enumerate_values
  enumerate_returns fuel solver max_values r c u f =
      let b = extract_bounds name cs in
      let fits : range_size % u64_mod ≡ range_size = omega arith in
      rw fits (elim (Bool-cases (ltb b.upper b.lower)) [
        | inl empty ↦ rw empty
        | inr range ↦
            rw range
              (elim (Bool-cases
                (leb range_size max_values && leb range_size solver.max_brute_force)) [
                  | inl small ↦ rw small
                  | inr large ↦
                      rw large
                        (sample-returns fuel (cap solver max_values) b range_size c u (omega arith))
                ])
      ])
