-- ===== src/Symboliks/Solver/Exact.antt =====
-- src/symboliks/solver.rs, `enumerate_values` over a small range.
use mathlib.Core.List.{append-nil, append_assoc}
use vivisect_rs.Base.{
  ℕ, zero, suc, ◌+◌, ◌-◌, ◌^◌, ◌≤◌, ◌<◌, ◌≡◌, refl, sym, ap, ◌∙◌, Bool, ◌&&◌, String, List, [], ◌∷◌,
  ◌++◌, ltb, leb, ◌==◌, if◌then◌else◌, length, keep, arith, length-append, Bool-cases, inl, inr,
  All, any, ==_iff,
}
use vivisect_rs.Word.{u64_mod, u64_max, IsU64}
use vivisect_rs.Symboliks.Value.{SymbolicValue}
use vivisect_rs.Symboliks.Solver.{
  SymbolicSolver, VarBounds, extract_from, narrow, extract_bounds, verify_constraints,
}
use vivisect_rs.Symboliks.Solver.Bounds.{IsPlain, extract_bounds_sound}
use vivisect_rs.Symboliks.Solver.Enumerate.{done, masked, admits, direct_loop, enumerate_values}

-- `n` consecutive numbers from `v` on.
abbrev pub consecutive : ℕ → ℕ → List ℕ
consecutive zero v = []
consecutive (suc n) v = v ∷ consecutive n (v + 1)

-- The number of values of a width in bytes.
abbrev pub width_limit : ℕ → ℕ
width_limit width =
    if width == 1
    then 2 ^ 8
    else if width == 2
    then 2 ^ 16
    else if width == 4
    then 2 ^ 32
    else u64_mod

masked_small : (width v : ℕ) → v < width_limit width → masked width v ≡ v
unfolding masked
masked_small width v h = ground arith

module _ (name : String) (width : ℕ) (cs : List SymbolicValue) where
  abbrev admits_value : ℕ → Bool
  admits_value = admits name width cs

  -- One round of the loop, on the masked value `m`.
  direct_loop_step :
      (n max_values v m : ℕ) (values : List ℕ)
      → masked width v ≡ m
      → direct_loop name width cs max_values (suc n) v values ≡ (
          if admits_value m
          then (if leb max_values (length (values ++ m ∷ []))
              then values ++ m ∷ []
              else direct_loop name width cs max_values n (v + 1) (values ++ m ∷ []))
          else direct_loop name width cs max_values n (v + 1) values)
  unfolding direct_loop
  direct_loop_step n max_values v m values e = rw (← e)

  -- The loop over a range whose size is at most the number of values asked for: the early end comes
  -- only with the last value.
  direct_loop_lem :
      (n max_values v : ℕ) (values : List ℕ)
      → v + n ≤ width_limit width
      → length values + n ≤ max_values
      → direct_loop name width cs max_values n v values
        ≡ values ++ keep admits_value (consecutive n v)
  direct_loop_lem zero max_values v values h k = unfold direct_loop in sym (append-nil values)
  direct_loop_lem (suc n) max_values v values h k =
      rw (direct_loop_step n max_values v v values (masked_small width v (omega arith)))
        (elim (Bool-cases (admits_value v)) [
          | inl taken ↦ rw taken (elim (Bool-cases (leb max_values (length (values ++ v ∷ [])))) [
            | inl last ↦
                let none_left : n ≡ 0 = grind (arith, length-append values (v ∷ [])) in
                rw (last, none_left)
            | inr more ↦ rw more (
                direct_loop_lem n max_values (v + 1) (values ++ v ∷ []) (omega arith)
                  (omega (arith, length-append values (v ∷ [])))
                ∙ append_assoc values (v ∷ []) _)
          ])
          | inr skipped ↦
              rw skipped (direct_loop_lem n max_values (v + 1) values (omega arith) (omega arith))
        ])

abbrev pub contains : ℕ → List ℕ → Bool
contains x xs = any (λ y. y == x) xs

contains-keep :
    (p : ℕ → Bool) (x : ℕ) (xs : List ℕ) → contains x (keep p xs) ≡ (contains x xs && p x)
contains-keep p x [] = refl
contains-keep p x (y ∷ ys) = elim (Bool-cases (y == x)) [
  | inl same ↦ let e : y ≡ x = (==_iff y x).0 same in ground (arith, contains-keep p x ys, ap p e)
  | inr other ↦ ground (arith, contains-keep p x ys)
]

contains-consecutive : (n v x : ℕ) → contains x (consecutive n v) ≡ (leb v x && ltb x (v + n))
contains-consecutive zero v x = ground arith
contains-consecutive (suc n) v x = ground (arith, contains-consecutive n (v + 1) x)

extract_from-upper :
    (name : String) (cs : List SymbolicValue) (b : VarBounds)
    → b.upper ≤ u64_max
    → (extract_from name b cs).upper ≤ u64_max
unfolding extract_from narrow
extract_from-upper name [] b h = h
extract_from-upper name (c ∷ cs) b h = extract_from-upper name cs _ (ground arith)

module _ (name : String) (width : ℕ) (cs : List SymbolicValue) where
  -- The range of the variable is not empty, its values have the width, and there are no more of
  -- them than the caller and the solver allow.
  abbrev pub IsSmall : SymbolicSolver → ℕ → Type 0
  IsSmall solver max_values =
      let b = extract_bounds name cs in
      (b.lower ≤ b.upper)
      × (b.upper < width_limit width)
      × (b.upper - b.lower + 1 ≤ max_values)
      × (b.upper - b.lower + 1 ≤ solver.max_brute_force)
      × (solver.max_brute_force < u64_mod)

  -- Over a small range the call returns, in ascending order, exactly the numbers of the range that
  -- pass the check.
  pub enumerate_small :
      (fuel : ℕ) (solver : SymbolicSolver) (max_values : ℕ)
      → IsSmall solver max_values
      → enumerate_values name width cs fuel solver max_values
        ≡ done (
            keep (admits name width cs) (
              consecutive
                ((extract_bounds name cs).upper - (extract_bounds name cs).lower + 1)
                (extract_bounds name cs).lower))
  unfolding enumerate_values
  enumerate_small fuel solver max_values h =
      let b = extract_bounds name cs in
      let n : ℕ = b.upper - b.lower + 1 in
      let loop =
        direct_loop_lem name width cs n max_values b.lower [] (omega arith) (omega arith) in
      ground (arith, loop)

  -- Over a small range the returned values contain a number exactly if it passes the check, for
  -- every number at which the constraints are plain.
  pub enumerate_exact :
      (fuel : ℕ) (solver : SymbolicSolver) (max_values x : ℕ)
      → IsSmall solver max_values
      → IsU64 x
      → All (IsPlain name x) cs
      → (values : List ℕ) × (enumerate_values name width cs fuel solver max_values ≡ done values)
        × (contains x values ≡ verify_constraints name x cs)
  enumerate_exact fuel solver max_values x h u p =
      let b = extract_bounds name cs in
      let numbers = consecutive (b.upper - b.lower + 1) b.lower in
      (
        keep (admits name width cs) numbers,
        enumerate_small fuel solver max_values h,
        contains-keep (admits name width cs) x numbers
            ∙ ground (
              arith,
              contains-consecutive (b.upper - b.lower + 1) b.lower x,
              extract_bounds_sound name x cs u p,
            ),
      )
