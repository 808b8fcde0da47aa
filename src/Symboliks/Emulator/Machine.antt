-- ===== src/Symboliks/Emulator/Machine.antt =====
-- src/symboliks/emulator.rs: the emulator against a machine of plain numbers. `apply_effect` reduces
-- each expression by itself and looks up no register and no entry of the memory map, so the machine
-- evaluates with one fixed number for each name, its hash, and not with its own registers.
use vivisect_rs.Base.{
  ℕ, ◌≡◌, refl, ap, ◌∙◌, true, Option, none, some, String, List, [], ◌∷◌, ◌++◌, map, arith, ◌==◌,
  if◌then◌else◌, All, Bool-cases, inl, inr, str_eq,
}
use vivisect_rs.BTreeMap.{BTreeMap, get, insert}
use vivisect_rs.BTreeMap.Laws.{get-insert}
use vivisect_rs.HashMap.{put_name}
use vivisect_rs.HashMap.Laws.{find_name-put_name}
use vivisect_rs.Symboliks.Value.{SymbolicValue, const, is_const, as_const, is_discrete}
use vivisect_rs.Symboliks.Value.Solve.{solve}
use vivisect_rs.Symboliks.Reducer.{reduce}
use vivisect_rs.Symboliks.Reducer.Wide.{IsWide}
use vivisect_rs.Symboliks.Reducer.Sound.{reduce_sound}
use vivisect_rs.Symboliks.Reducer.Shape.{IsDivisionFree, reduce-discrete}
use vivisect_rs.Symboliks.Effect.{
  SymbolicEffect, set_variable, read_effect, write_effect, constrain_effect, call_effect, debug,
}
use vivisect_rs.Symboliks.Emulator.{
  SymbolicEmulator, get_register, apply_effect, apply_from, apply_effects, track,
}

-- A machine of numbers: each register has one, each address one or none, and the conditions of the
-- path are those met so far.
pub record Machine : Type 0 where
  pub register : String → ℕ
  pub cell : ℕ → Option ℕ
  pub conditions : List ℕ

-- The value that an entry of the memory map stands for.
abbrev pub cell_of : (String → ℕ) → Option SymbolicValue → Option ℕ
cell_of hash none = none
cell_of hash (some v) = some (solve hash v)

-- What an effect does to the machine. Its expressions are evaluated with the hash of each name,
-- whatever the registers of the machine are.
abbrev pub execute : (String → ℕ) → Machine → SymbolicEffect → Machine
execute hash m (set_variable va name value) = record m {
  register = λ q. if str_eq q name then solve hash value else m.register q;
}
execute hash m (read_effect va addr size) = m
execute hash m (write_effect va addr size value) = record m {
  cell = λ a. if a == solve hash addr then some (solve hash value) else m.cell a;
}
execute hash m (constrain_effect va condition) = record m {
  conditions = m.conditions ++ (solve hash condition ∷ []);
}
execute hash m (call_effect va target args) = m
execute hash m (debug va message) = m

abbrev pub execute_all : (String → ℕ) → Machine → List SymbolicEffect → Machine
execute_all hash m [] = m
execute_all hash m (e ∷ es) = execute_all hash (execute hash m e) es

-- An effect of wide expressions; the address of a write is discrete, with no division and no remainder.
abbrev pub IsPlainEffect : (String → ℕ) → SymbolicEffect → Type 0
IsPlainEffect hash (set_variable va name value) = IsWide hash value
IsPlainEffect hash (read_effect va addr size) = Unit
IsPlainEffect hash (write_effect va addr size value) =
    IsWide hash addr × (is_discrete addr ≡ true) × IsDivisionFree addr × IsWide hash value
IsPlainEffect hash (constrain_effect va condition) = IsWide hash condition
IsPlainEffect hash (call_effect va target args) = Unit
IsPlainEffect hash (debug va message) = Unit

-- The emulator stands for the machine: so does each register, each entry of the memory map and each
-- path constraint.
pub record Denotes (hash : String → ℕ) (emu : SymbolicEmulator) (m : Machine) : Type 0 where
  pub registers_are : (name : String) → solve hash (get_register emu name) ≡ m.register name
  pub cells_are : (a : ℕ) → cell_of hash (get a emu.memory) ≡ m.cell a
  pub conditions_are : map (solve hash) emu.constraints ≡ m.conditions

as_const-solve :
    (hash : String → ℕ) (v : SymbolicValue) → is_const v ≡ true → as_const v ≡ some (solve hash v)
unfolding solve
as_const-solve hash (const value w) h = refl
as_const-solve hash v h = cc

track_const :
    (addr v : SymbolicValue) (m : BTreeMap SymbolicValue) (k : ℕ)
    → as_const addr ≡ some k
    → track addr v m ≡ insert k v m
track_const addr v m k e = ground (arith, e)

map-snoc :
    (f : SymbolicValue → ℕ) (xs : List SymbolicValue) (x : SymbolicValue)
    → map f (xs ++ (x ∷ [])) ≡ map f xs ++ (f x ∷ [])
map-snoc f [] x = refl
map-snoc f (y ∷ xs) x = ap (λ t. f y ∷ t) (map-snoc f xs x)

module _ (hash : String → ℕ) where
  get_register-put_name :
      (emu : SymbolicEmulator) (name q : String) (v : SymbolicValue)
      → solve hash (get_register (record emu { registers = put_name name v emu.registers }) q)
        ≡ (if str_eq q name then solve hash v else solve hash (get_register emu q))
  unfolding get_register
  get_register-put_name emu name q v =
      let e = find_name-put_name name q v emu.registers in
      elim (Bool-cases (str_eq q name)) [ inl same ↦ ground arith | inr apart ↦ ground arith ]

  -- A constant address without division is tracked under the number that it stands for.
  get-track :
      (addr v : SymbolicValue) (m : BTreeMap SymbolicValue) (a : ℕ)
      → IsWide hash addr
      → is_discrete addr ≡ true
      → IsDivisionFree addr
      → cell_of hash (get a (track (reduce hash addr) v m))
        ≡ (if a == solve hash addr then some (solve hash v) else cell_of hash (get a m))
  get-track addr v m a w d f =
      let constant = as_const-solve hash (reduce hash addr) (reduce-discrete hash addr d f) in
      let place = constant ∙ ap (λ t. some t) (reduce_sound hash addr w) in
      let entry = track_const (reduce hash addr) v m (solve hash addr) place in
      ap (λ t. cell_of hash (get a t)) entry ∙ ground (arith, get-insert (solve hash addr) a v m)

  apply_effect-Denotes :
      (emu : SymbolicEmulator) (m : Machine) (e : SymbolicEffect)
      → Denotes hash emu m
      → IsPlainEffect hash e
      → Denotes hash (apply_effect hash emu e).0 (execute hash m e)
  unfolding apply_effect
  apply_effect-Denotes emu m (set_variable va name value) d p = record {
    registers_are = λ q.
        get_register-put_name emu name q (reduce hash value)
        ∙ ground (arith, reduce_sound hash value p, d.registers_are q);
    cells_are = d.cells_are;
    conditions_are = d.conditions_are;
  }
  apply_effect-Denotes emu m (read_effect va addr size) d p = d
  apply_effect-Denotes emu m (write_effect va addr size value) d p = record {
    registers_are = unfold get_register in d.registers_are;
    cells_are = λ a.
        get-track addr (reduce hash value) emu.memory a p.0 p.1 p.2
        ∙ ground (arith, reduce_sound hash value p.3, d.cells_are a);
    conditions_are = d.conditions_are;
  }
  apply_effect-Denotes emu m (constrain_effect va condition) d p = record {
    registers_are = unfold get_register in d.registers_are;
    cells_are = d.cells_are;
    conditions_are =
        map-snoc (solve hash) emu.constraints (reduce hash condition)
        ∙ ground (arith, reduce_sound hash condition p, d.conditions_are);
  }
  apply_effect-Denotes emu m (call_effect va target args) d p = d
  apply_effect-Denotes emu m (debug va message) d p = d

  apply_from-Denotes :
      (emu : SymbolicEmulator) (m : Machine) (applied es : List SymbolicEffect)
      → Denotes hash emu m
      → All (IsPlainEffect hash) es
      → Denotes hash (apply_from hash emu applied es).0 (execute_all hash m es)
  unfolding apply_from
  apply_from-Denotes emu m applied [] d p = d
  apply_from-Denotes emu m applied (e ∷ es) d p =
      apply_from-Denotes (apply_effect hash emu e).0 (execute hash m e) _ es
        (apply_effect-Denotes emu m e d p.0) p.1

  -- The emulator refines the machine of numbers, which evaluates every expression with the hash of
  -- each name and never by its registers or memory, as the emulator resolves no name against its
  -- state. If the emulator stands for a machine, then after any effects it stands for the machine that
  -- has executed them, under two conditions. The values that are set and written, the addresses of the
  -- writes and the conditions that are added are wide: constants are `u64`, operands have at least 8
  -- bytes, and shifts are by less than 64. And the address of a write is discrete, with no division and
  -- no remainder.
  pub apply_effects-Denotes :
      (emu : SymbolicEmulator) (m : Machine) (es : List SymbolicEffect)
      → Denotes hash emu m
      → All (IsPlainEffect hash) es
      → Denotes hash (apply_effects hash emu es).0 (execute_all hash m es)
  apply_effects-Denotes emu m es = apply_from-Denotes emu m [] es
