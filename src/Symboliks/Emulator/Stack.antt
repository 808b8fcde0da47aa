-- ===== src/Symboliks/Emulator/Stack.antt =====
-- src/symboliks/emulator.rs: pushes and pops, snapshots.
use vivisect_rs.Base.{
  ℕ, ◌≤◌, ◌<◌, ◌≡◌, refl, sym, ap, ◌∙◌, false, String, List, [], ◌∷◌, ◌++◌, arith, if◌then◌else◌,
  str_eq,
}
use vivisect_rs.Word.{u64_mod}
use vivisect_rs.HashMap.Laws.{find_name-put_name, str_eq_refl}
use vivisect_rs.Symboliks.Value.{add, sub, SymbolicValue, const, oper, width}
use vivisect_rs.Symboliks.Value.Solve.{solve, solve_op}
use vivisect_rs.Symboliks.Reducer.{reduce}
use vivisect_rs.Symboliks.Reducer.Wide.{IsWide, solve-lt}
use vivisect_rs.Symboliks.Reducer.Sound.{reduce_sound, reduce-IsWide, width-reduce-le}
use vivisect_rs.Symboliks.Effect.{
  SymbolicEffect, set_variable, read_effect, write_effect, constrain_effect, call_effect, debug,
}
use mathlib.Core.List.{append_assoc, append-nil}
use vivisect_rs.Symboliks.Emulator.{
  SymbolicEmulator, get_register, snapshot, restore, apply_effect, apply_effects, apply_from,
  read_symbolic, write_symbolic, set_register, process_push, process_pop,
}

module _ (hash : String → ℕ) where
  -- The lookup of a register after `set_register`.
  pub get_register-set_register :
      (emu : SymbolicEmulator) (va : ℕ) (name q : String) (value : SymbolicValue)
      → get_register (set_register hash emu va name value) q
        ≡ (if str_eq q name then reduce hash value else get_register emu q)
  unfolding get_register set_register
  get_register-set_register emu va name q value =
      ground (arith, find_name-put_name name q (reduce hash value) emu.registers)

  -- What is pushed is never found again: a push leaves the memory map as it was, and the value that the
  -- next pop gives is the same whichever value was pushed.
  pub process_pop-process_push :
      (emu : SymbolicEmulator) (va va' : ℕ) (v v' : SymbolicValue) (dst sp : String)
      → ((process_push hash emu va v sp).memory ≡ emu.memory)
        × ((process_pop hash (process_push hash emu va v sp) va' dst sp).1
            ≡ (process_pop hash (process_push hash emu va v' sp) va' dst sp).1)
  unfolding process_push process_pop write_symbolic set_register read_symbolic get_register
  process_pop-process_push emu va va' v v' dst sp = (refl, refl)

  -- The number of the stack pointer after a push, and after a pop that follows.
  pushed_pointer :
      (x : SymbolicValue) (p : ℕ)
      → IsWide hash x
      → 8 ≤ width x
      → 8 ≤ p
      → p < u64_mod
      → (IsWide hash (oper add (reduce hash (oper sub x (const p p))) (const p p)))
        × (solve hash (oper add (reduce hash (oper sub x (const p p))) (const p p)) ≡ solve hash x)
  unfolding solve solve_op width
  pushed_pointer x p w h k u =
      let down : IsWide hash (oper sub x (const p p)) = (w, u, h, k, tt) in
      let e = reduce_sound hash (oper sub x (const p p)) down in
      let lower = solve-lt hash x w in
      (
        (
          reduce-IsWide hash (oper sub x (const p p)) down,
          u,
          width-reduce-le hash (oper sub x (const p p)) down h,
          k,
          tt,
        ),
        omega (arith, e, lower),
      )

  after_push :
      (emu : SymbolicEmulator) (va : ℕ) (v : SymbolicValue) (sp : String)
      → get_register (process_push hash emu va v sp) sp
        ≡ reduce hash (oper sub (get_register emu sp) (const emu.pointer_size emu.pointer_size))
  unfolding process_push write_symbolic set_register get_register
  after_push emu va v sp =
      let p = emu.pointer_size in
      let new_sp = oper sub (get_register emu sp) (const p p) in
      let e = find_name-put_name sp sp (reduce hash new_sp) emu.registers in
      ground (arith, e, str_eq_refl sp)

  after_pop :
      (emu : SymbolicEmulator) (va : ℕ) (dst sp : String)
      → str_eq sp dst ≡ false
      → get_register (process_pop hash emu va dst sp).0 sp
        ≡ reduce hash (oper add (get_register emu sp) (const emu.pointer_size emu.pointer_size))
  unfolding process_pop read_symbolic
  after_pop emu va dst sp d =
      let p = emu.pointer_size in
      let sp_value = get_register emu sp in
      let read = (read_symbolic emu va sp_value p).0 in
      let moved = set_register hash read va sp (oper add sp_value (const p p)) in
      let value = (read_symbolic emu va sp_value p).1 in
      get_register-set_register moved va dst sp value
      ∙ ground (
        arith,
        get_register-set_register read va sp sp (oper add sp_value (const p p)),
        str_eq_refl sp,
      )

  same_size :
      (emu : SymbolicEmulator) (va : ℕ) (v : SymbolicValue) (sp : String)
      → (process_push hash emu va v sp).pointer_size ≡ emu.pointer_size
  unfolding process_push write_symbolic set_register
  same_size emu va v sp = refl

  -- A push and the pop that follows it leave the stack pointer with the number that it had, if it is
  -- a wide expression of at least 8 bytes, a pointer has at least 8 bytes, and the pop is into
  -- another register.
  pub process_pop-process_push_pointer :
      (emu : SymbolicEmulator) (va va' : ℕ) (v : SymbolicValue) (dst sp : String)
      → IsWide hash (get_register emu sp)
      → 8 ≤ width (get_register emu sp)
      → 8 ≤ emu.pointer_size
      → emu.pointer_size < u64_mod
      → str_eq sp dst ≡ false
      → solve hash (get_register (process_pop hash (process_push hash emu va v sp) va' dst sp).0 sp)
        ≡ solve hash (get_register emu sp)
  process_pop-process_push_pointer emu va va' v dst sp w h k u d =
      let p = emu.pointer_size in
      let x = get_register emu sp in
      let pushed = process_push hash emu va v sp in
      let below = reduce hash (oper sub x (const p p)) in
      let (wide, number) = pushed_pointer x p w h k u in
      ap (solve hash) (after_pop pushed va' dst sp d)
      ∙ ap (λ q. solve hash (reduce hash (oper add (get_register pushed sp) (const q q))))
          (same_size emu va v sp)
      ∙ ap (λ t. solve hash (reduce hash (oper add t (const p p)))) (after_push emu va v sp)
      ∙ reduce_sound hash (oper add below (const p p)) wide
      ∙ number

  -- The path constraints that effects add, reduced.
  abbrev pub conditions_of : List SymbolicEffect → List SymbolicValue
  conditions_of [] = []
  conditions_of (constrain_effect va condition ∷ es) = reduce hash condition ∷ conditions_of es
  conditions_of (set_variable va name value ∷ es) = conditions_of es
  conditions_of (read_effect va addr size ∷ es) = conditions_of es
  conditions_of (write_effect va addr size value ∷ es) = conditions_of es
  conditions_of (call_effect va target args ∷ es) = conditions_of es
  conditions_of (debug va message ∷ es) = conditions_of es

  restore_from :
      (emu later : SymbolicEmulator) (applied es : List SymbolicEffect)
      → restore later (snapshot emu) ≡ record emu { constraints = later.constraints }
      → restore (apply_from hash later applied es).0 (snapshot emu)
        ≡ record emu { constraints = later.constraints ++ conditions_of es }
  unfolding apply_from apply_effect snapshot restore
  restore_from emu later applied [] e =
      e ∙ ap (λ t. record emu { constraints = t }) (sym (append-nil later.constraints))
  restore_from emu later applied (constrain_effect va condition ∷ es) e =
      let met = later.constraints ++ (reduce hash condition ∷ []) in
      restore_from emu (record later { constraints = met }) _ es
        (ap (λ (t : SymbolicEmulator). record t { constraints = met }) e)
      ∙ ap (λ t. record emu { constraints = t })
          (append_assoc later.constraints (reduce hash condition ∷ []) (conditions_of es))
  restore_from emu later applied (set_variable va name value ∷ es) e =
      restore_from emu (apply_effect hash later (set_variable va name value)).0 _ es e
  restore_from emu later applied (read_effect va addr size ∷ es) e = restore_from emu later _ es e
  restore_from emu later applied (write_effect va addr size value ∷ es) e =
      restore_from emu (apply_effect hash later (write_effect va addr size value)).0 _ es e
  restore_from emu later applied (call_effect va target args ∷ es) e = restore_from emu later _ es e
  restore_from emu later applied (debug va message ∷ es) e = restore_from emu later _ es e

  -- A snapshot that is restored after any effects gives the emulator back, except that it keeps the
  -- path constraints that the effects have added.
  pub restore-apply_effects :
      (emu : SymbolicEmulator) (es : List SymbolicEffect)
      → restore (apply_effects hash emu es).0 (snapshot emu)
        ≡ record emu { constraints = emu.constraints ++ conditions_of es }
  unfolding restore snapshot
  restore-apply_effects emu es = restore_from emu emu [] es refl
