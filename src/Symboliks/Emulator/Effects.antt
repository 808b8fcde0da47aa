-- ===== src/Symboliks/Emulator/Effects.antt =====
-- src/symboliks/emulator.rs: the effects that `apply_effects` gives back, and the path constraints.
use vivisect_rs.Base.{
  ℕ, ◌≡◌, refl, sym, ap, ◌∙◌, true, false, String, List, [], ◌∷◌, ◌++◌, map, arith, ltb, ◌==◌, All,
  any, all,
}
use mathlib.Core.List.{append_assoc, append-nil}
use vivisect_rs.Symboliks.Value.{SymbolicValue, const, is_const, is_discrete}
use vivisect_rs.Symboliks.Value.Solve.{solve}
use vivisect_rs.Symboliks.Reducer.Wide.{IsWide}
use vivisect_rs.Symboliks.Reducer.Sound.{reduce_sound}
use vivisect_rs.Symboliks.Reducer.Shape.{IsDivisionFree, reduce-discrete}
use vivisect_rs.Symboliks.Effect.{
  SymbolicEffect, set_variable, read_effect, write_effect, constrain_effect, call_effect, debug,
  reduced,
}
use vivisect_rs.Symboliks.Emulator.{
  SymbolicEmulator, apply_effect, apply_from, apply_effects, all_satisfiable, path_satisfiable,
}

module _ (hash : String → ℕ) where
  apply_effect-reduced :
      (emu : SymbolicEmulator) (e : SymbolicEffect) → (apply_effect hash emu e).1 ≡ reduced hash e
  unfolding apply_effect reduced
  apply_effect-reduced emu (set_variable va name value) = refl
  apply_effect-reduced emu (read_effect va addr size) = refl
  apply_effect-reduced emu (write_effect va addr size value) = refl
  apply_effect-reduced emu (constrain_effect va condition) = refl
  apply_effect-reduced emu (call_effect va target args) = refl
  apply_effect-reduced emu (debug va message) = refl

  apply_from-reduced :
      (emu : SymbolicEmulator) (applied es : List SymbolicEffect)
      → (apply_from hash emu applied es).1 ≡ applied ++ map (reduced hash) es
  unfolding apply_from
  apply_from-reduced emu applied [] = sym (append-nil applied)
  apply_from-reduced emu applied (e ∷ es) =
      apply_from-reduced (apply_effect hash emu e).0 (applied ++ ((apply_effect hash emu e).1 ∷ []))
        es
      ∙ append_assoc applied ((apply_effect hash emu e).1 ∷ []) (map (reduced hash) es)
      ∙ ap (λ x. applied ++ (x ∷ map (reduced hash) es)) (apply_effect-reduced emu e)

  -- The effects that `apply_effects` gives back are the given ones in order, each as `reduced` of
  -- src/symboliks/effect.rs gives it, whatever the state.
  pub apply_effects-reduced :
      (emu : SymbolicEmulator) (es : List SymbolicEffect)
      → (apply_effects hash emu es).1 ≡ map (reduced hash) es
  apply_effects-reduced emu es = apply_from-reduced emu [] es

  is_discrete_const : (v : SymbolicValue) → is_const v ≡ true → is_discrete v ≡ true
  unfolding is_discrete
  is_discrete_const (const value w) h = refl
  is_discrete_const v h = cc

  all_satisfiable_sound :
      (cs : List SymbolicValue)
      → All (IsWide hash) cs
      → all_satisfiable hash cs ≡ false
      → any (λ c. solve hash c == 0) cs ≡ true
  unfolding all_satisfiable
  all_satisfiable_sound [] w h = sym h
  all_satisfiable_sound (c ∷ cs) w h =
      ground (arith, reduce_sound hash c w.0, all_satisfiable_sound cs w.1)

  all_satisfiable_exact :
      (cs : List SymbolicValue)
      → All (λ c. IsWide hash c × (is_discrete c ≡ true) × IsDivisionFree c) cs
      → all_satisfiable hash cs ≡ all (λ c. ltb 0 (solve hash c)) cs
  unfolding all_satisfiable
  all_satisfiable_exact [] h = refl
  all_satisfiable_exact (c ∷ cs) h =
      let constant = is_discrete_const _ (reduce-discrete hash c h.0.1 h.0.2) in
      ground (arith, constant, reduce_sound hash c h.0.0, all_satisfiable_exact cs h.1)

  -- A path is found unsatisfiable only if one of its constraints, all of them wide, stands for 0.
  pub path_satisfiable_sound :
      (emu : SymbolicEmulator)
      → All (IsWide hash) emu.constraints
      → path_satisfiable hash emu ≡ false
      → any (λ c. solve hash c == 0) emu.constraints ≡ true
  path_satisfiable_sound emu = all_satisfiable_sound emu.constraints

  -- Where the constraints of a path are wide, constant and have no division, the path is satisfiable
  -- exactly when none of them stands for 0.
  pub path_satisfiable_exact :
      (emu : SymbolicEmulator)
      → All (λ c. IsWide hash c × (is_discrete c ≡ true) × IsDivisionFree c) emu.constraints
      → path_satisfiable hash emu ≡ all (λ c. ltb 0 (solve hash c)) emu.constraints
  path_satisfiable_exact emu = all_satisfiable_exact emu.constraints
