-- ===== src/Symboliks/Paths/Edges.antt =====
-- src/symboliks/analysis.rs: what it takes for an edge to be followed.
use mathlib.Core.Path.{subst}
use vivisect_rs.Base.{
  ℕ, ◌+◌, ◌<◌, ◌≡◌, refl, ap, Option, none, some, String, List, [], ◌∷◌, ◌++◌, leb, arith, Bool,
  if◌then◌else◌, true, false,
}
use vivisect_rs.Symboliks.Paths.{PathResult, WorkItem, advance, enter, arrive, visits}
use vivisect_rs.Symboliks.Graph.{
  Edge, SymbolikBlock, SymbolikGraph, SymbolikAnalysisContext, get_block,
}

pub visits-append :
    (target : ℕ) (xs ys : List ℕ) → visits target (xs ++ ys) ≡ visits target xs + visits target ys
unfolding visits
visits-append target [] ys = omega arith
visits-append target (x ∷ xs) ys = ground (arith, visits-append target xs ys)

below_lem : (a b : ℕ) → leb a b ≡ false → b < a
below_lem a b h = ground arith

-- A block and a path that came through all the checks of an edge.
module _ {B R : Type 0} where
  paired :
      (b : B) (o : Option R) {b' : B} {r : R}
      → elim o as (λ x. Option (B × R)) [ none ↦ none | some q ↦ some (b, q) ] ≡ some (b', r)
      → (b ≡ b') × (o ≡ some r)
  paired b none h = cc
  paired b (some q) h = (cc, cc)

  staged :
      (full : Bool) (o : Option B) (f : B → Option R) {b : B} {r : R}
      → (if full then none else elim o as (λ x. Option (B × R)) [
        | none ↦ none
        | some block ↦ elim (f block) as (λ x. Option (B × R)) [
          | none ↦ none
          | some q ↦ some (block, q)
        ]
      ])
        ≡ some (b, r)
      → (full ≡ false) × ((o ≡ some b) × (f b ≡ some r))
  staged true o f h = cc
  staged false none f h = cc
  staged false (some block) f {r = r} h =
      let both = paired block (f block) h in
      (refl, (ap some both.0, subst (λ x. f x ≡ some r) both.0 both.1))

module _ {O : Type 0} (hash : String → ℕ) (ctx : SymbolikAnalysisContext)
    (g : SymbolikGraph O) where
  pub enter_path :
      (item : WorkItem) (e : Edge) (block : SymbolikBlock O) {r : PathResult}
      → enter hash ctx item e block ≡ some r
      → r.path ≡ item.path ++ (e.0 ∷ [])
  unfolding enter arrive
  enter_path item (target, none) block taken = cc
  enter_path item (target, some c) block taken = ground arith

  pub advance_lem :
      (item : WorkItem) (e : Edge) {b : SymbolikBlock O} {r : PathResult}
      → advance hash ctx g item e ≡ some (b, r)
      → (visits e.0 item.path < ctx.max_loop_count)
        × ((get_block g e.0 ≡ some b) × (enter hash ctx item e b ≡ some r))
  unfolding advance
  advance_lem item (target, c) taken =
      let steps =
        staged (leb ctx.max_loop_count (visits target item.path)) (get_block g target)
          (enter hash ctx item (target, c)) taken in
      (below_lem ctx.max_loop_count (visits target item.path) steps.0, steps.1)
