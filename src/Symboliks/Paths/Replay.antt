-- ===== src/Symboliks/Paths/Replay.antt =====
-- src/symboliks/analysis.rs: the emulator at the end of a path, against one run over the effects of the
-- path's blocks.
use mathlib.Core.Path.{subst}
use mathlib.Core.List.{append_assoc, append-nil, map-append}
use vivisect_rs.Base.{
  ℕ, ◌≡◌, refl, sym, ap, ap₂, ◌∙◌, none, some, String, List, [], ◌∷◌, ◌++◌, if◌then◌else◌,
  unwrap_or, map, Bool, true, false,
}
use mathlib.Core.Option
use vivisect_rs.Symboliks.Value.{SymbolicValue}
use vivisect_rs.Symboliks.Emulator.Effects.{apply_effects-reduced}
use vivisect_rs.Symboliks.Effect.{
  SymbolicEffect, set_variable, read_effect, write_effect, constrain_effect, call_effect, debug,
  reduced,
}
use vivisect_rs.Symboliks.Emulator.{
  SymbolicEmulator, new_emulator, EmulatorSnapshot, snapshot, restore, constrain_path, apply_effect,
  apply_from, apply_effects, path_satisfiable,
}
use vivisect_rs.Symboliks.Paths.{
  PathResult, WorkItem, advance, enter, arrive, entry_path, start_emulator,
}
use vivisect_rs.Symboliks.Paths.Steps.{Completes, ends, goes_on, IsResult, entry_alone, completed}
use vivisect_rs.Symboliks.Paths.Edges.{advance_lem, enter_path}
use vivisect_rs.Symboliks.Graph.{
  Edge, SymbolikBlock, SymbolikGraph, SymbolikAnalysisContext, entry_block, get_block,
}

-- The same registers and memory.
abbrev pub Agrees : SymbolicEmulator → SymbolicEmulator → Type 0
Agrees emu emu' = snapshot emu ≡ snapshot emu'

module _ (hash : String → ℕ) where
  apply_effect-Agrees :
      (emu emu' : SymbolicEmulator) (e : SymbolicEffect)
      → Agrees emu emu'
      → Agrees (apply_effect hash emu e).0 (apply_effect hash emu' e).0
  unfolding apply_effect snapshot restore
  apply_effect-Agrees emu emu' (set_variable va name value) h =
      ap
        (λ s.
          snapshot (apply_effect hash (restore (new_emulator 0) s) (set_variable va name value)).0)
        h
  apply_effect-Agrees emu emu' (read_effect va addr size) h = h
  apply_effect-Agrees emu emu' (write_effect va addr size value) h =
      ap
        (λ s.
          snapshot
            (apply_effect hash (restore (new_emulator 0) s) (write_effect va addr size value)).0)
        h
  apply_effect-Agrees emu emu' (constrain_effect va condition) h = h
  apply_effect-Agrees emu emu' (call_effect va target args) h = h
  apply_effect-Agrees emu emu' (debug va message) h = h

  apply_from-Agrees :
      (emu emu' : SymbolicEmulator) (applied applied' es : List SymbolicEffect)
      → Agrees emu emu'
      → Agrees (apply_from hash emu applied es).0 (apply_from hash emu' applied' es).0
  unfolding apply_from
  apply_from-Agrees emu emu' applied applied' [] h = h
  apply_from-Agrees emu emu' applied applied' (e ∷ es) h =
      apply_from-Agrees (apply_effect hash emu e).0 (apply_effect hash emu' e).0 _ _ es
        (apply_effect-Agrees emu emu' e h)

  apply_from-append :
      (emu : SymbolicEmulator) (applied applied' es fs : List SymbolicEffect)
      → Agrees
          (apply_from hash (apply_from hash emu applied es).0 applied' fs).0
          (apply_from hash emu applied (es ++ fs)).0
  unfolding apply_from
  apply_from-append emu applied applied' [] fs = apply_from-Agrees emu emu applied' applied fs refl
  apply_from-append emu applied applied' (e ∷ es) fs =
      apply_from-append (apply_effect hash emu e).0 _ applied' es fs

module _ {O : Type 0} (hash : String → ℕ) (ctx : SymbolikAnalysisContext)
    (g : SymbolikGraph O) where
  if_some : {A : Type 0} (b : Bool) (a : A) {r : A} → (if b then some a else none) ≡ some r → r ≡ a
  if_some true a h = ap (λ o. unwrap_or o a) (sym h)
  if_some false a h = cc

  -- A path that came through the checks applied the effects of its block to the snapshot.
  enter-arrive :
      (item : WorkItem) (e : Edge) (b : SymbolikBlock O) {r : PathResult}
      → enter hash ctx item e b ≡ some r
      → (emu : SymbolicEmulator) × ((cs : List SymbolicValue) × ((r ≡ arrive hash item e.0 b emu cs)
            × (snapshot emu ≡ item.snap)))
  unfolding enter snapshot restore constrain_path
  enter-arrive item (target, none) b {r} taken = (
    restore (new_emulator ctx.pointer_size) item.snap,
    (item.acc_constraints, (ap (λ o. unwrap_or o r) (sym taken), refl)),
  )
  enter-arrive item (target, some c) b taken =
      let emu = constrain_path (restore (new_emulator ctx.pointer_size) item.snap) target c in
      (
        emu,
        (
          item.acc_constraints ++ (c ∷ []),
          (
            if_some (path_satisfiable hash emu)
                (arrive hash item target b emu (item.acc_constraints ++ (c ∷ []))) taken,
            refl,
          ),
        ),
      )

  -- The effects of the blocks at the addresses, one after the other.
  abbrev pub block_effects : List ℕ → List SymbolicEffect
  block_effects [] = []
  block_effects (va ∷ vas) =
      unwrap_or (Option.map (λ b. b.effects) (get_block g va)) [] ++ block_effects vas

  block_effects-append :
      (xs : List ℕ) (va : ℕ) (b : SymbolikBlock O)
      → get_block g va ≡ some b
      → block_effects (xs ++ (va ∷ [])) ≡ block_effects xs ++ b.effects
  block_effects-append [] va b found = rw found (append-nil b.effects)
  block_effects-append (x ∷ xs) va b found =
      rw (block_effects-append xs va b found) (sym (append_assoc _ (block_effects xs) b.effects))

  module _ (entry : SymbolikBlock O) where
    -- One run from before the entry over the effects of the entry and of the blocks at the addresses.
    abbrev pub straight_run : List ℕ → SymbolicEmulator
    straight_run vas =
        (apply_effects hash (start_emulator hash ctx) (entry.effects ++ block_effects vas)).0

    -- The registers and the memory are those of one run along the path, and the effects are those of the
    -- path, those after the entry in reduced form.
    abbrev pub IsReplay : List ℕ → EmulatorSnapshot → List SymbolicEffect → Type 0
    IsReplay path snap effects =
        (vas : List ℕ) × ((path ≡ entry.va ∷ vas)
          × ((snap ≡ snapshot (straight_run vas))
              × (effects ≡ entry.effects ++ map (reduced hash) (block_effects vas))))

    advance-IsReplay :
        (item : WorkItem) (e : Edge) {b : SymbolikBlock O} {r : PathResult}
        → advance hash ctx g item e ≡ some (b, r)
        → IsReplay item.path item.snap item.acc_effects
        → IsReplay r.path (snapshot r.emulator) r.effects
    unfolding arrive
    advance-IsReplay item e {b} taken (vas, (same, (run, eff))) =
        let steps = advance_lem hash ctx g item e taken in
        let (emu, (cs, (arrived, snapped))) = enter-arrive item e b steps.1.1 in
        let along = sym (block_effects-append vas e.0 b steps.1.0) in
        (
          vas ++ (e.0 ∷ []),
          (
            enter_path hash ctx g item e b steps.1.1 ∙ ap (λ p. p ++ (e.0 ∷ [])) same,
            (
              ap (λ (q : PathResult). snapshot q.emulator) arrived
                  ∙ apply_from-Agrees hash emu (straight_run vas) [] [] b.effects (snapped ∙ run)
                  ∙ apply_from-append hash (start_emulator hash ctx) [] []
                      (entry.effects ++ block_effects vas) b.effects
                  ∙ ap (λ es. snapshot (apply_effects hash (start_emulator hash ctx) es).0)
                      (append_assoc entry.effects (block_effects vas) b.effects
                        ∙ ap (λ es. entry.effects ++ es) along),
              ap (λ (q : PathResult). q.effects) arrived
                  ∙ ap₂ (λ es fs. es ++ fs) eff (apply_effects-reduced hash emu b.effects)
                  ∙ append_assoc entry.effects (map (reduced hash) (block_effects vas))
                      (map (reduced hash) b.effects)
                  ∙ ap (λ es. entry.effects ++ es)
                      (sym (map-append (reduced hash) (block_effects vas) b.effects)
                        ∙ ap (map (reduced hash)) along),
            ),
          ),
        )

    Completes-IsReplay :
        {r : PathResult} {item : WorkItem}
        → Completes hash ctx g r item
        → IsReplay item.path item.snap item.acc_effects
        → IsReplay r.path (snapshot r.emulator) r.effects
    Completes-IsReplay {item = item} (ends e b m taken last) h = advance-IsReplay item e taken h
    Completes-IsReplay {item = item} (goes_on e b q next m taken in_block c) h =
        Completes-IsReplay c (advance-IsReplay item e taken h)

    entry_path-IsReplay :
        IsReplay
          (entry_path hash ctx entry).path
          (snapshot (entry_path hash ctx entry).emulator)
          (entry_path hash ctx entry).effects
    unfolding entry_path
    entry_path-IsReplay = (
      [],
      (
        refl,
        (
          ap (λ es. snapshot (apply_effects hash (start_emulator hash ctx) es).0)
              (sym (append-nil entry.effects)),
          sym (append-nil entry.effects),
        ),
      ),
    )

  -- The emulator of a result has the registers and the memory of one run from before the entry over the effects of the path.
  pub IsResult-IsReplay :
      {r : PathResult}
      → IsResult hash ctx g r
      → (entry : SymbolikBlock O) × ((entry_block g ≡ some entry)
          × IsReplay entry r.path (snapshot r.emulator) r.effects)
  IsResult-IsReplay (entry_alone entry found out same) = (
    entry,
    (
      found,
      subst (λ (q : PathResult). IsReplay entry q.path (snapshot q.emulator) q.effects) (sym same)
          (entry_path-IsReplay entry),
    ),
  )
  IsResult-IsReplay (completed entry e found m c) =
      (entry, (found, Completes-IsReplay entry c (entry_path-IsReplay entry)))
