-- ===== src/Symboliks/Solver/Divergence.antt =====
-- src/symboliks/solver.rs, `enumerate_values` over a range that reaches up to `u64::MAX`.
use vivisect_rs.Base.{
  ℕ, zero, suc, ◌/◌, ◌%◌, ◌≤◌, ◌<◌, ◌≡◌, refl, true, false, ◌&&◌, String, List, [], ltb, leb, ◌==◌,
  if◌then◌else◌, length, arith,
}
use vivisect_rs.Word.{u64_mod, u64_max, saturating_add}
use vivisect_rs.Symboliks.Value.{SymbolicValue}
use vivisect_rs.Symboliks.Solver.{SymbolicSolver, VarBounds, extract_bounds}
use vivisect_rs.Symboliks.Solver.Enumerate.{
  done, out_of_fuel, masked, admits, direct_loop, push_admitted, sample_loop, sample,
  enumerate_values,
}
use vivisect_rs.Symboliks.Solver.Sampling.{range_size as size_of, cap as cap_of}

module _ (name : String) (width : ℕ) (cs : List SymbolicValue) where
  abbrev range_size : ℕ
  range_size = size_of name width cs

  abbrev cap : SymbolicSolver → ℕ → ℕ
  cap = cap_of name width cs

  -- With the upper bound `u64::MAX`, a cap that is not reached and no value that passes the check,
  -- the loop does not end: the saturating addition stays at the bound.
  sample_loop_diverges :
      (fuel step cap v : ℕ) (values : List ℕ)
      → v ≤ u64_max
      → length values < cap
      → ((x : ℕ) → admits name width cs x ≡ false)
      → sample_loop name width cs fuel step cap u64_max v values ≡ out_of_fuel
  unfolding sample_loop
  sample_loop_diverges zero step cap v values h r none_pass = refl
  sample_loop_diverges (suc fuel) step cap v values h r none_pass =
      let more : (leb v u64_max && ltb (length values) cap) ≡ true = ground arith in
      let skipped : push_admitted name width cs v values ≡ values =
        unfold push_admitted in rw (none_pass (masked width v)) in
      rw (more, skipped)
        (sample_loop_diverges fuel step cap (saturating_add v step) values (ground arith) r
          none_pass)

  sample_diverges :
      (fuel k : ℕ) (b : VarBounds) (size : ℕ)
      → 0 < k
      → b.upper ≡ u64_max
      → b.lower ≤ u64_max
      → ((x : ℕ) → admits name width cs x ≡ false)
      → sample name width cs fuel k b size ≡ out_of_fuel
  unfolding sample
  sample_diverges fuel k b size c u l none_pass =
      let capped : (ltb k size && k == 0) ≡ false = ground arith in
      let step = if ltb k size then size / k else 1 in
      rw (capped, u) (sample_loop_diverges fuel step k b.lower [] l c none_pass)

  -- If the range of the variable starts above 0 and reaches up to `u64::MAX`, is larger than what
  -- the caller or the solver allow, and no number passes the check, then a call that asks for at
  -- least one value does not return, whatever the fuel.
  pub enumerate_diverges :
      (fuel : ℕ) (solver : SymbolicSolver) (max_values : ℕ)
      → (extract_bounds name cs).upper ≡ u64_max
      → 0 < (extract_bounds name cs).lower
      → (extract_bounds name cs).lower ≤ u64_max
      → cap solver max_values < range_size
      → 0 < cap solver max_values
      → ((x : ℕ) → admits name width cs x ≡ false)
      → enumerate_values name width cs fuel solver max_values ≡ out_of_fuel
  unfolding enumerate_values
  enumerate_diverges fuel solver max_values e l l' k c none_pass =
      let b = extract_bounds name cs in
      let fits : range_size % u64_mod ≡ range_size = omega arith in
      let range : ltb b.upper b.lower ≡ false = ground arith in
      let large : (leb range_size max_values && leb range_size solver.max_brute_force) ≡ false =
        ground arith in
      rw (fits, range, large)
        (sample_diverges fuel (cap solver max_values) b range_size c e l' none_pass)

  -- A variable without a bound: the size of its range wraps to 0, so that the call takes the loop
  -- over all `2 ^ 64` numbers, whatever the number of values asked for.
  pub enumerate_unbounded :
      (fuel : ℕ) (solver : SymbolicSolver) (max_values : ℕ)
      → (extract_bounds name cs).lower ≡ 0
      → (extract_bounds name cs).upper ≡ u64_max
      → enumerate_values name width cs fuel solver max_values
        ≡ done (direct_loop name width cs max_values u64_mod 0 [])
  unfolding enumerate_values
  enumerate_unbounded fuel solver max_values l u =
      let small : (leb 0 max_values && leb 0 solver.max_brute_force) ≡ true = ground arith in
      rw (l, u, small)
