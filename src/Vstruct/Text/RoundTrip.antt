-- ===== src/Vstruct/Text/RoundTrip.antt =====
-- src/vstruct/primitives.rs: strings that are set, emitted and parsed.
use vivisect_rs.Base.{
  ℕ, zero, suc, ◌+◌, ◌-◌, ◌<◌, ◌≡◌, refl, sym, ap, ◌∙◌, Bool, true, none, some, List, [], ◌∷◌, ◌++◌,
  arith, ◌==◌, not, length, take, drop, replicate, all, length-append, append-nil, append_assoc,
  length-replicate, length-take, take-append, drop-append, take_all, Bool-cases, inl, inr,
}
use native.Mathlib.Nat.{mod-lt}
use mathlib.Core.Path.{subst}
use vivisect_rs.Error.{ok}
use vivisect_rs.Vstruct.Text.{
  VBytes, set_string, null_position, string_bytes, VzStr, padding, set_zstring, parse_aligned,
  parse_zstring,
}

-- No byte is zero.
abbrev pub has_no_null : List ℕ → Bool
has_no_null = all (λ b. not (b == 0))

null_position-text :
    (s : List ℕ) (n : ℕ) (after : List ℕ)
    → has_no_null s ≡ true
    → null_position (s ++ (replicate (suc n) 0 ++ after)) ≡ some (length s)
unfolding null_position
null_position-text [] n after h = refl
null_position-text (b ∷ s) n after h = ground (arith, null_position-text s n after)

null_position-none : (s : List ℕ) → has_no_null s ≡ true → null_position s ≡ none
unfolding null_position
null_position-none [] h = refl
null_position-none (b ∷ s) h = ground (arith, null_position-none s)

string_bytes-padded :
    (s : List ℕ) (n : ℕ) → has_no_null s ≡ true → string_bytes (s ++ replicate n 0) ≡ s
unfolding string_bytes
string_bytes-padded s zero h = let e = append-nil s in rw e (ground (arith, null_position-none s h))
string_bytes-padded s (suc n) h =
    let e =
      ap (λ t. null_position (s ++ t)) (sym (append-nil (replicate (suc n) 0)))
      ∙ null_position-text s n [] h in
    ap
      (λ t. elim t [ none ↦ s ++ replicate (suc n) 0 | some i ↦ take i (s ++ replicate (suc n) 0) ])
      e
    ∙ take-append s (replicate (suc n) 0)

has_no_null-take : (n : ℕ) (s : List ℕ) → has_no_null s ≡ true → has_no_null (take n s) ≡ true
has_no_null-take zero s h = refl
has_no_null-take (suc n) [] h = refl
has_no_null-take (suc n) (b ∷ s) h = ground (arith, has_no_null-take n s)

-- A text with no zero byte that is set in a string of fixed size is read back, cut to that size.
pub string_bytes-set_string :
    (v : VBytes) (s : List ℕ)
    → has_no_null s ≡ true
    → string_bytes (set_string v s).value ≡ take v.size s
unfolding set_string
string_bytes-set_string v s h =
    let text = take v.size s in
    let e = take_all v.size text (omega (arith, length-take v.size s)) in
    ap (λ t. string_bytes (t ++ replicate (v.size - length text) 0)) e
    ∙ string_bytes-padded text (v.size - length text) (has_no_null-take v.size s h)

padding_positive : (align n : ℕ) → 0 < align → 0 < padding align n
padding_positive align n h = omega (arith, mod-lt n {m = align} h)

-- `parse` at the start of a text that a terminator and its padding follow.
parse_padded :
    (z : VzStr) (s before after : List ℕ)
    → has_no_null s ≡ true
    → 0 < z.align
    → (let padded = s ++ replicate (padding z.align (length s)) 0 in
        parse_zstring z (before ++ (padded ++ after)) (length before)
        ≡ some (ok (record z { value = padded }, length before + length padded)))
unfolding parse_zstring parse_aligned
parse_padded z s before after h positive =
    let n = padding z.align (length s) in
    let padded = s ++ replicate n 0 in
    let bytes = before ++ (padded ++ after) in
    let l : length padded ≡ length s + n =
      omega (arith, length-append s (replicate n 0), length-replicate {A = ℕ} n 0) in
    let total : length bytes ≡ length before + (length s + n + length after) =
      omega (arith, length-append before (padded ++ after), length-append padded after, l) in
    let rest : drop (length before) bytes ≡ padded ++ after =
      drop-append before (padded ++ after) in
    let found : null_position (drop (length before) bytes) ≡ some (length s) =
      ap null_position (rest ∙ append_assoc s (replicate n 0) after)
      ∙ null_after s n after h (padding_positive z.align (length s) positive) in
    let cut : take (length s + n) (drop (length before) bytes) ≡ padded =
      ap (take (length s + n)) rest
      ∙ ap (λ t. take t (padded ++ after)) (sym l)
      ∙ take-append padded after in
    ground (arith, found, cut, total, l)
  where
    null_after :
        (s : List ℕ) (n : ℕ) (after : List ℕ)
        → has_no_null s ≡ true
        → 0 < n
        → null_position (s ++ (replicate n 0 ++ after)) ≡ some (length s)
    null_after s zero after h positive = absurd (omega arith)
    null_after s (suc n) after h positive = null_position-text s n after h

-- A text with no zero byte that is set in a null-terminated string is what `parse` makes of the bytes
-- of that string, wherever they stand and at every alignment but 0; the offset that it returns is
-- their end.
pub parse_zstring-set_zstring :
    (z : VzStr) {z' : VzStr} (s before after : List ℕ)
    → has_no_null s ≡ true
    → set_zstring z s ≡ some z'
    → parse_zstring z (before ++ (z'.value ++ after)) (length before)
      ≡ some (ok (z', length before + length z'.value))
unfolding set_zstring
parse_zstring-set_zstring z {z'} s before after h set = elim (Bool-cases (z.align == 0)) [
  | inl e ↦ absurd (ground arith)
  | inr e ↦
      let same : record z { value = s ++ replicate (padding z.align (length s)) 0 } ≡ z' =
        ground arith in
      subst
        (λ t.
          parse_zstring z (before ++ (t.value ++ after)) (length before)
          ≡ some (ok (t, length before + length t.value)))
        same (parse_padded z s before after h (ground arith))
]
