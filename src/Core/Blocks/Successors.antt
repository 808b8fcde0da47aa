-- ===== src/Core/Blocks/Successors.antt =====
-- src/core/cfg.rs, `compute_block_successors`, against the code references of the last 15 bytes.
use vivisect_rs.Base.{
  ℕ, zero, suc, ◌+◌, ◌-◌, ◌≤◌, ◌<◌, min, ◌≡◌, refl, Bool, true, false, ◌&&◌, ◌||◌, List, [], ◌∷◌,
  ◌++◌, ◌==◌, ltb, leb, if◌then◌else◌, arith, Bool-cases, inl, inr,
}
use vivisect_rs.Word.{u64_mod, wrapping_add}
use vivisect_rs.Core.XRefs.{code, References, XRefManager, is_ref, get_xrefs_from}
use vivisect_rs.Core.XRefs.Tally.{tally}
use vivisect_rs.Core.Blocks.{
  CodeBlock, Blocks, block_end, occurs, push_new, is_block, is_code, targets_loop, check_start,
  offsets_loop, compute_block_successors,
}

-- How often an address stands in a list.
abbrev pub times : ℕ → List ℕ → ℕ
times a [] = 0
times a (x ∷ xs) = if x == a then suc (times a xs) else times a xs

times-append :
    (a b : ℕ) (xs : List ℕ)
    → times a (xs ++ (b ∷ [])) ≡ (if b == a then suc (times a xs) else times a xs)
times-append a b [] = refl
times-append a b (x ∷ xs) = ground (arith, times-append a b xs)

pub occurs-times : (a : ℕ) (xs : List ℕ) → occurs a xs ≡ ltb 0 (times a xs)
unfolding occurs
occurs-times a [] = refl
occurs-times a (x ∷ xs) = ground (arith, occurs-times a xs)

-- A list without repetitions stays one, and gets one address.
pub times-push_new :
    (a b : ℕ) (xs : List ℕ)
    → times a xs ≤ 1
    → times a (push_new b xs) ≡ (if b == a then 1 else times a xs)
times-push_new a b xs h = ground (arith, occurs-times b xs, times-append a b xs, same a b xs)
  where
    same : (a b : ℕ) (xs : List ℕ) → (b == a) ≡ true → times b xs ≡ times a xs
    same a b [] e = refl
    same a b (x ∷ xs) e = ground (arith, same a b xs e)

-- Whether the references of an address hold a code reference to a block `t`.
abbrev pub leads : Blocks → References → ℕ → Bool
leads blocks refs t = is_block blocks t && ltb 0 (tally t code refs)

times-targets_loop :
    (blocks : Blocks) (refs : References) (successors : List ℕ) (t : ℕ)
    → times t successors ≤ 1
    → times t (targets_loop blocks refs successors)
      ≡ (if leads blocks refs t then 1 else times t successors)
unfolding targets_loop is_ref
times-targets_loop blocks [] successors t h = ground arith
times-targets_loop blocks ((target, r) ∷ refs) successors t h =
    elim (Bool-cases (is_code r && is_block blocks target)) [
      | inr skipped ↦
          rw skipped
            (ground (arith, times-targets_loop blocks refs successors t h, other blocks target t))
      | inl taken ↦
          let once = times-push_new t target successors h in
          rw taken (
            ground (
              arith,
              once,
              times-targets_loop blocks refs (push_new target successors) t,
              other blocks target t,
            ))
    ]
  where
    other : (blocks : Blocks) (a b : ℕ) → (a == b) ≡ true → is_block blocks a ≡ is_block blocks b
    other blocks a b e = let same : a ≡ b = ground arith in rw same refl

-- Whether one of the addresses from `a` on, `count` of them, has a code reference to a block `t`.
abbrev pub reaches : XRefManager → Blocks → ℕ → ℕ → ℕ → Bool
reaches xrefs blocks t a zero = false
reaches xrefs blocks t a (suc count) =
    leads blocks (get_xrefs_from xrefs a) t || reaches xrefs blocks t (a + 1) count

times-offsets_loop :
    (xrefs : XRefManager) (blocks : Blocks) (b : CodeBlock) (rounds offset : ℕ)
    (successors : List ℕ) (t start : ℕ)
    → start + offset + rounds ≤ block_end b
    → check_start b ≡ start
    → ((s : ℕ) → times s successors ≤ 1)
    → times t (offsets_loop xrefs blocks b rounds offset successors)
      ≡ (if reaches xrefs blocks t (start + offset) rounds then 1 else times t successors)
unfolding offsets_loop
times-offsets_loop xrefs blocks b zero offset successors t start p e once = refl
times-offsets_loop xrefs blocks b (suc rounds) offset successors t start p e once =
    let addr : wrapping_add (check_start b) offset ≡ start + offset = rw e (omega arith) in
    let inside : leb (block_end b) (start + offset) ≡ false = ground arith in
    let refs = get_xrefs_from xrefs (start + offset) in
    let later = targets_loop blocks refs successors in
    let step : (s : ℕ) → times s later ≡ (if leads blocks refs s then 1 else times s successors) =
      λ s. times-targets_loop blocks refs successors s (once s) in
    let rest =
      times-offsets_loop xrefs blocks b rounds (offset + 1) later t start (omega arith) e
        (λ s. ground (arith, step s, once s)) in
    let shift : start + (offset + 1) ≡ start + offset + 1 = omega arith in
    rw (addr, inside) (ground (arith, rest, step t, shift))

-- A block that ends below 2 ^ 64 has an address as a successor once or not at all. It has it exactly if
-- a block starts there, and either one of the last 15 bytes of the block, or of all its bytes if they
-- are fewer, has a code reference to it, or the block falls through and ends there.
pub times-compute_block_successors :
    (b : CodeBlock) (xrefs : XRefManager) (blocks : Blocks) (falls_through : Bool) (t : ℕ)
    → b.va + b.size < u64_mod
    → times t (compute_block_successors b xrefs blocks falls_through) ≡ (
        if reaches xrefs blocks t (b.va + b.size - min b.size 15) (min b.size 15)
          || (falls_through && is_block blocks t && t == b.va + b.size)
        then 1
        else 0)
unfolding compute_block_successors
times-compute_block_successors b xrefs blocks falls_through t p =
    let count = min b.size 15 in
    let start = b.va + b.size - count in
    let e : check_start b ≡ start = ground arith in
    let last : block_end b ≡ b.va + b.size = omega arith in
    let loop =
      times-offsets_loop xrefs blocks b count 0 [] t start (omega arith) e (λ s. omega arith) in
    let zero_offset : start + 0 ≡ start = omega arith in
    let found : List ℕ = offsets_loop xrefs blocks b count 0 [] in
    let times_found : times t found ≡ (if reaches xrefs blocks t start count then 1 else 0) =
      ground (arith, loop, zero_offset) in
    let same = alike blocks (b.va + b.size) t in
    rw last (elim (Bool-cases (falls_through && is_block blocks (b.va + b.size))) [
      | inl falls ↦
          rw falls (
            ground
              (arith, times_found, times-push_new t (b.va + b.size) found (ground arith), same))
      | inr stops ↦ rw stops (ground (arith, times_found, same))
    ])
  where
    alike : (blocks : Blocks) (a c : ℕ) → (c == a) ≡ true → is_block blocks c ≡ is_block blocks a
    alike blocks a c e = let same : c ≡ a = ground arith in rw same refl
