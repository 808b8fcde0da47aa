-- ===== src/Symboliks/Solver/Bounds.antt =====
-- src/symboliks/solver.rs, `extract_bounds` against the check of a value: the constraints at which
-- the two are comparable, and the bounds there.
use vivisect_rs.Base.{
  ℕ, ◌+◌, ◌^◌, ◌≤◌, ◌<◌, ◌≡◌, refl, true, Option, none, some, String, List, [], ◌∷◌, arith,
  Option-cases, Bool-cases, inl, inr, ◌∙◌, All,
}
use vivisect_rs.Word.{wrapping_add, wrapping_sub, u64_mod, IsU64}
use vivisect_rs.Symboliks.Value.{
  Op, add, sub, ConstraintOp, eq, ne, lt, le, gt, ge, SymbolicValue, const, var, oper, constraint,
  as_const,
}
use vivisect_rs.Symboliks.Solver.{
  VarBounds, is_var_named, op_bounds, try_var_op_const, flip, try_const_op_var, adjust,
  try_var_plus_offset_op_const, extract_single_bound, narrow, extract_from, extract_bounds, eval_op,
  constraint_holds, both_known, eval_with_subst, holds_if_known, verify_single_constraint,
  verify_constraints,
}

abbrev InRange : ℕ → VarBounds → Type 0
InRange x b = (b.lower ≤ x) × (x ≤ b.upper)

abbrev IsBelow : ℕ → Option ℕ → Type 0
IsBelow n none = Unit
IsBelow n (some a) = a < n

-- A comparison that is signed in the check and unsigned in the bounds: on numbers below `2 ^ 63`
-- the two agree.
abbrev ReadsUnsigned : ConstraintOp → Option ℕ → Option ℕ → Type 0
ReadsUnsigned lt a b = IsBelow (2 ^ 63) a × IsBelow (2 ^ 63) b
ReadsUnsigned le a b = IsBelow (2 ^ 63) a × IsBelow (2 ^ 63) b
ReadsUnsigned gt a b = IsBelow (2 ^ 63) a × IsBelow (2 ^ 63) b
ReadsUnsigned ge a b = IsBelow (2 ^ 63) a × IsBelow (2 ^ 63) b
ReadsUnsigned op a b = IsBelow u64_mod a × IsBelow u64_mod b

-- Neither `x` with the offset nor the adjusted constant wraps.
abbrev NoWrap : SymbolicValue → SymbolicValue → ℕ → Type 0
NoWrap (oper add y (const k w)) (const c w') x = (x + k < u64_mod) × (k ≤ c)
NoWrap (oper sub y (const k w)) (const c w') x = (k ≤ x) × (c + k < u64_mod)
NoWrap l r x = Unit

-- The constraints that the extraction reads as the check does, at `x`.
abbrev pub IsPlain : String → ℕ → SymbolicValue → Type 0
IsPlain name x (constraint op l r) =
    ReadsUnsigned op (eval_with_subst l name x) (eval_with_subst r name x) × NoWrap l r x
IsPlain name x c = Unit

op_bounds_sound :
    (op : ConstraintOp) (c x : ℕ) (b : VarBounds)
    → IsU64 x
    → ReadsUnsigned op (some x) (some c)
    → constraint_holds op x c ≡ true
    → op_bounds op c ≡ some b
    → InRange x b
unfolding op_bounds constraint_holds
op_bounds_sound eq c x b u s h e = ground arith
op_bounds_sound op c x b u s h e = ground arith

eval-is_var_named :
    (l : SymbolicValue) (name : String) (x : ℕ)
    → is_var_named l name ≡ true
    → eval_with_subst l name x ≡ some x
unfolding is_var_named eval_with_subst
eval-is_var_named (var n w) name x h = ground arith
eval-is_var_named _ name x h = cc

eval-as_const :
    (r : SymbolicValue) (name : String) (x c : ℕ)
    → as_const r ≡ some c
    → eval_with_subst r name x ≡ some c
unfolding eval_with_subst
eval-as_const (const value w) name x c h = h
eval-as_const _ name x c h = cc

flip_holds :
    (op : ConstraintOp) (a b : ℕ) → constraint_holds (flip op) b a ≡ constraint_holds op a b
unfolding flip constraint_holds
flip_holds eq a b = ground arith
flip_holds ne a b = ground arith
flip_holds op a b = refl

ReadsUnsigned-flip :
    (op : ConstraintOp) (a b : Option ℕ) → ReadsUnsigned op a b → ReadsUnsigned (flip op) b a
unfolding flip
ReadsUnsigned-flip eq a b h = (h.1, h.0)
ReadsUnsigned-flip op a b h = (h.1, h.0)

module _ (name : String) (x : ℕ) (u : IsU64 x) where
  -- `var OP const`, whatever the value of the right side was computed from.
  var_const_sound :
      (op : ConstraintOp) (l r : SymbolicValue) (b : VarBounds) (c : ℕ)
      → as_const r ≡ some c
      → ReadsUnsigned op (some x) (some c)
      → constraint_holds op x c ≡ true
      → try_var_op_const name op l r ≡ some b
      → InRange x b
  unfolding try_var_op_const
  var_const_sound op l r b c rc s h e = ground (arith, op_bounds_sound op c x b u s h)

  plain_var_sound :
      (op : ConstraintOp) (l r : SymbolicValue) (b : VarBounds)
      → IsPlain name x (constraint op l r)
      → verify_single_constraint name x (constraint op l r) ≡ true
      → try_var_op_const name op l r ≡ some b
      → InRange x b
  unfolding verify_single_constraint holds_if_known eval_with_subst
  plain_var_sound op l (const c w) b p h e = elim (Bool-cases (is_var_named l name)) [
    | inl named ↦
        let v = eval-is_var_named l name x named in
        var_const_sound op l (const c w) b c refl (rw v at (p.0)) (rw v at h) e
    | inr other ↦ absurd (unfold try_var_op_const in ground arith)
  ]
  plain_var_sound op l _ b p h e = absurd (unfold try_var_op_const in ground arith)

  plain_flip_sound :
      (op : ConstraintOp) (l r : SymbolicValue) (b : VarBounds)
      → IsPlain name x (constraint op l r)
      → verify_single_constraint name x (constraint op l r) ≡ true
      → try_const_op_var name op l r ≡ some b
      → InRange x b
  unfolding verify_single_constraint holds_if_known eval_with_subst try_const_op_var
  plain_flip_sound op (const c w) r b p h e = elim (Bool-cases (is_var_named r name)) [
    | inl named ↦
        let v = eval-is_var_named r name x named in
        var_const_sound (flip op) r (const c 4) b c refl
          (ReadsUnsigned-flip op (some c) (some x) (rw v at (p.0)))
          (flip_holds op c x ∙ (rw v at h)) (rw named at e)
    | inr other ↦ absurd (ground arith)
  ]
  plain_flip_sound op _ r b p h e = absurd (ground arith)

  add_offset_sound :
      (op : ConstraintOp) (k c : ℕ) (b : VarBounds)
      → x + k < u64_mod
      → k ≤ c
      → ReadsUnsigned op (some (eval_op add x k)) (some c)
      → constraint_holds op (eval_op add x k) c ≡ true
      → op_bounds op (wrapping_sub c k) ≡ some b
      → InRange x b
  unfolding eval_op constraint_holds op_bounds
  add_offset_sound eq k c b n m s h e = ground arith
  add_offset_sound op k c b n m s h e = ground arith

  sub_offset_sound :
      (op : ConstraintOp) (k c : ℕ) (b : VarBounds)
      → k ≤ x
      → c + k < u64_mod
      → ReadsUnsigned op (some (eval_op sub x k)) (some c)
      → constraint_holds op (eval_op sub x k) c ≡ true
      → op_bounds op (wrapping_add c k) ≡ some b
      → InRange x b
  unfolding eval_op constraint_holds op_bounds
  sub_offset_sound eq k c b n m s h e = ground arith
  sub_offset_sound op k c b n m s h e = ground arith

  -- `(var + k) OP c` and `(var - k) OP c`, with the name of the variable known.
  offset_bounds :
      (op : ConstraintOp) (d : ℕ) (b : VarBounds)
      → try_var_op_const name op (var name 4) (const d 4) ≡ some b
      → op_bounds op d ≡ some b
  unfolding try_var_op_const
  offset_bounds op d b e = ground arith

  plain_offset_sound :
      (op : ConstraintOp) (arith_op : Op) (y : SymbolicValue) (k w c w' : ℕ) (b : VarBounds)
      → is_var_named y name ≡ true
      → IsPlain name x (constraint op (oper arith_op y (const k w)) (const c w'))
      → verify_single_constraint name x (constraint op (oper arith_op y (const k w)) (const c w'))
        ≡ true
      → try_var_plus_offset_op_const name op (oper arith_op y (const k w)) (const c w') ≡ some b
      → InRange x b
  unfolding verify_single_constraint holds_if_known eval_with_subst both_known
      try_var_plus_offset_op_const adjust
  plain_offset_sound op add y k w c w' b named p h e =
      let v = eval-is_var_named y name x named in
      add_offset_sound op k c b p.1.0 p.1.1 (rw v at (p.0)) (rw v at h)
        (offset_bounds op _ b (rw named at e))
  plain_offset_sound op sub y k w c w' b named p h e =
      let v = eval-is_var_named y name x named in
      sub_offset_sound op k c b p.1.0 p.1.1 (rw v at (p.0)) (rw v at h)
        (offset_bounds op _ b (rw named at e))
  plain_offset_sound op _ y k w c w' b named p h e = absurd (ground arith)

  plain_plus_sound :
      (op : ConstraintOp) (l r : SymbolicValue) (b : VarBounds)
      → IsPlain name x (constraint op l r)
      → verify_single_constraint name x (constraint op l r) ≡ true
      → try_var_plus_offset_op_const name op l r ≡ some b
      → InRange x b
  plain_plus_sound op (oper arith_op y (const k w)) (const c w') b p h e =
      elim (Bool-cases (is_var_named y name)) [
        | inl named ↦ plain_offset_sound op arith_op y k w c w' b named p h e
        | inr other ↦ absurd (unfold try_var_plus_offset_op_const in ground arith)
      ]
  plain_plus_sound op _ _ b p h e = absurd (unfold try_var_plus_offset_op_const in cc)

  extract_single_bound_sound :
      (c : SymbolicValue) (b : VarBounds)
      → IsPlain name x c
      → verify_single_constraint name x c ≡ true
      → extract_single_bound name c ≡ some b
      → InRange x b
  unfolding extract_single_bound
  extract_single_bound_sound (constraint op l r) b p h e =
      elim (Option-cases (try_var_op_const name op l r)) [
        | inr (b', first) ↦ plain_var_sound op l r b p h (ground arith)
        | inl nothing ↦ elim (Option-cases (try_const_op_var name op l r)) [
          | inr (b', second) ↦ plain_flip_sound op l r b p h (ground arith)
          | inl nothing' ↦ plain_plus_sound op l r b p h (ground arith)
        ]
      ]
  extract_single_bound_sound _ b p h e = cc

  narrow_sound :
      (b : VarBounds) (o : Option VarBounds)
      → InRange x b
      → ((c : VarBounds) → o ≡ some c → InRange x c)
      → InRange x (narrow b o)
  unfolding narrow
  narrow_sound b none h f = h
  narrow_sound b (some c) h f = let k = f c refl in omega arith

  extract_from_sound :
      (cs : List SymbolicValue) (b : VarBounds)
      → InRange x b
      → All (IsPlain name x) cs
      → verify_constraints name x cs ≡ true
      → InRange x (extract_from name b cs)
  unfolding extract_from verify_constraints
  extract_from_sound [] b h p v = h
  extract_from_sound (c ∷ cs) b h p v =
      extract_from_sound cs _
        (narrow_sound b _ h (λ b'. extract_single_bound_sound c b' p.0 (ground arith))) p.1
        (ground arith)

-- A value that passes the check of every constraint lies within the extracted bounds, if each
-- constraint is plain at that value: its comparison reads alike as signed and unsigned, and its
-- offset wraps neither the variable nor the constant.
pub extract_bounds_sound :
    (name : String) (x : ℕ) (cs : List SymbolicValue)
    → IsU64 x
    → All (IsPlain name x) cs
    → verify_constraints name x cs ≡ true
    → ((extract_bounds name cs).lower ≤ x) × (x ≤ (extract_bounds name cs).upper)
extract_bounds_sound name x cs u p v = extract_from_sound name x u cs _ (omega arith) p v
