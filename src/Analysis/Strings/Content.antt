-- ===== src/Analysis/Strings/Content.antt =====
-- src/analysis/strings.rs: what the strings of a slice hold.
use vivisect_rs.Base.{
  ℕ, zero, suc, ◌+◌, ◌*◌, ◌≤◌, ◌<◌, ◌≡◌, refl, sym, ap, ◌∙◌, true, not, some, List, [], ◌∷◌, ◌++◌,
  arith, ltb, if◌then◌else◌, length, take, drop, all, All, length-append, length-take, take-append,
  drop-append, Option-cases, Bool-cases, inl, inr, ◌⊎◌,
}
use mathlib.Core.Path.{subst}
use vivisect_rs.Analysis.Strings.{
  StringEncoding, ascii, utf16_le, utf16_be, DetectedString, StringAnalysisConfig,
  max_string_length, is_printable_ascii, null_at, ascii_run, detect_ascii_string, code_unit,
  is_refused, unit_run, detect_utf16_string, detect_at, find_from, find_strings,
}
use vivisect_rs.Analysis.Strings.Runs.{ascii_run-bounds, ascii_run-printable, ascii_run-text}

-- The code units of pairs of bytes.
unfoldable pub units_of : StringEncoding → List ℕ → List ℕ
units_of e [] = []
units_of e (a ∷ []) = []
units_of e (a ∷ b ∷ bs) = code_unit e a b ∷ units_of e bs

-- A string that stands in the bytes at its address, with no character that its encoding refuses, of
-- at least so many characters.
abbrev pub IsTextOf : StringEncoding → ℕ → List ℕ → ℕ → List ℕ → Type 0
IsTextOf ascii min_len bytes va content =
    (min_len ≤ length content)
    × (content ≡ take (length content) (drop va bytes))
    × (all is_printable_ascii content ≡ true)
IsTextOf e min_len bytes va content =
    (min_len ≤ length content)
    × (content ≡ units_of e (take (2 * length content) (drop va bytes)))
    × (all (λ u. not (is_refused u)) content ≡ true)

abbrev pub IsText : ℕ → List ℕ → DetectedString → Type 0
IsText min_len bytes s = IsTextOf s.encoding min_len bytes s.va s.content

-- Accepted code units at the start of bytes.
abbrev AreUnits : StringEncoding → List ℕ → List ℕ → Type 0
AreUnits e bs us =
    (us ≡ units_of e (take (2 * length us) bs)) × (all (λ u. not (is_refused u)) us ≡ true)

unit_run-AreUnits :
    (e : StringEncoding) (k : ℕ) (bs us : List ℕ) → unit_run e k bs ≡ some us → AreUnits e bs us
unfolding unit_run units_of
unit_run-AreUnits e zero bs us h =
    let none_left : [] ≡ us = ground arith in subst (AreUnits e bs) none_left (refl, refl)
unit_run-AreUnits e (suc k) [] us h =
    let none_left : [] ≡ us = ground arith in subst (AreUnits e []) none_left (refl, refl)
unit_run-AreUnits e (suc k) (a ∷ []) us h =
    let none_left : [] ≡ us = ground arith in subst (AreUnits e (a ∷ [])) none_left (refl, refl)
unit_run-AreUnits e (suc k) (a ∷ b ∷ bs) [] h = (refl, refl)
unit_run-AreUnits e (suc k) (a ∷ b ∷ bs) (u ∷ us) h = elim (Option-cases (unit_run e k bs)) [
  | inl r ↦ absurd (ground arith)
  | inr (vs, r) ↦
      let same : vs ≡ us = ground arith in
      let rest = unit_run-AreUnits e k bs us (r ∙ ap some same) in
      let two : 2 * suc (length us) ≡ suc (suc (2 * length us)) = omega arith in
      rw two (ground (arith, rest))
]

detect_ascii_string-IsText :
    (bytes : List ℕ) (offset min_len : ℕ) (s : DetectedString)
    → detect_ascii_string bytes offset min_len ≡ some s
    → IsText min_len bytes s
unfolding detect_ascii_string
detect_ascii_string-IsText bytes offset min_len s h =
    elim (Option-cases (ascii_run max_string_length (drop offset bytes))) [
      | inl e ↦ absurd (ground arith)
      | inr (len, e) ↦
          let rest = drop offset bytes in
          let (bound, within) = ascii_run-bounds max_string_length len rest e in
          let whole : length (take len rest) ≡ len = omega (arith, length-take len rest) in
          let found : record {
            va = offset;
            content = take len rest;
            encoding = ascii;
            size = if null_at bytes (offset + len) then suc len else len;
          }
              ≡ s =
            ground arith in
          let enough : min_len ≤ len = ground arith in
          subst (IsText min_len bytes) found (
            omega arith,
            sym (ap (λ t. take t rest) whole),
            ascii_run-printable max_string_length len rest e,
          )
    ]

detect_utf16_string-IsTextOf :
    (e : StringEncoding) (bytes : List ℕ) (offset min_len : ℕ) (s : DetectedString)
    → detect_utf16_string e bytes offset min_len ≡ some s
    → (s.encoding ≡ e)
      × (s.va ≡ offset)
      × (min_len ≤ length s.content)
      × AreUnits e (drop offset bytes) s.content
unfolding detect_utf16_string
detect_utf16_string-IsTextOf e bytes offset min_len s h =
    elim (Option-cases (unit_run e max_string_length (drop offset bytes))) [
      | inl r ↦ absurd (ground arith)
      | inr (us, r) ↦
          let units = unit_run-AreUnits e max_string_length (drop offset bytes) us r in
          let same : us ≡ s.content = ground arith in
          (
            ground arith,
            ground arith,
            ground arith,
            subst (AreUnits e (drop offset bytes)) same units,
          )
    ]

null_at-next : (b : ℕ) (bs : List ℕ) (i : ℕ) → null_at (b ∷ bs) (suc i) ≡ null_at bs i
unfolding null_at
null_at-next b bs i = refl

-- A text of printable bytes that a null byte follows is detected where it begins, whole, if it is
-- shorter than the longest string and long enough; its size counts the null byte.
pub detect_ascii_string-text :
    (before s after : List ℕ) (min_len : ℕ)
    → all is_printable_ascii s ≡ true
    → length s < max_string_length
    → min_len ≤ length s
    → detect_ascii_string (before ++ (s ++ (0 ∷ after))) (length before) min_len
      ≡ some (record { va = length before; content = s; encoding = ascii; size = suc (length s) })
unfolding detect_ascii_string
detect_ascii_string-text before s after min_len p short long =
    let bytes = before ++ (s ++ (0 ∷ after)) in
    let rest : drop (length before) bytes ≡ s ++ (0 ∷ after) =
      drop-append before (s ++ (0 ∷ after)) in
    let run : ascii_run max_string_length (drop (length before) bytes) ≡ some (length s) =
      ap (ascii_run max_string_length) rest ∙ ascii_run-text max_string_length s after p short in
    let cut : take (length s) (drop (length before) bytes) ≡ s =
      ap (take (length s)) rest ∙ take-append s (0 ∷ after) in
    let total : length bytes ≡ length before + (length s + suc (length after)) =
      omega (arith, length-append before (s ++ (0 ∷ after)), length-append s (0 ∷ after)) in
    ground (arith, run, cut, total, null_at-text before s after)
  where
    null_at-end : (s after : List ℕ) → null_at (s ++ (0 ∷ after)) (length s) ≡ true
    null_at-end [] after = unfold null_at in refl
    null_at-end (b ∷ s) after = null_at-next b (s ++ (0 ∷ after)) (length s) ∙ null_at-end s after

    null_at-text :
        (before s after : List ℕ)
        → null_at (before ++ (s ++ (0 ∷ after))) (length before + length s) ≡ true
    null_at-text [] s after =
        ap (null_at (s ++ (0 ∷ after))) {x = 0 + length s} {y = length s} (omega arith)
        ∙ null_at-end s after
    null_at-text (b ∷ before) s after =
        ap (null_at (b ∷ (before ++ (s ++ (0 ∷ after))))) {x = suc (length before) + length s}
          {y = suc (length before + length s)} (omega arith)
        ∙ null_at-next b (before ++ (s ++ (0 ∷ after))) (length before + length s)
        ∙ null_at-text before s after

detect_utf16_le-IsText :
    (bytes : List ℕ) (offset min_len : ℕ) (s : DetectedString)
    → detect_utf16_string utf16_le bytes offset min_len ≡ some s
    → IsText min_len bytes s
detect_utf16_le-IsText bytes offset min_len s h =
    let (e, start, long, units) = detect_utf16_string-IsTextOf utf16_le bytes offset min_len s h in
    let here = subst (λ t. AreUnits utf16_le (drop t bytes) s.content) (sym start) units in
    subst (λ t. IsTextOf t min_len bytes s.va s.content) (sym e) (long, here.0, here.1)

detect_utf16_be-IsText :
    (bytes : List ℕ) (offset min_len : ℕ) (s : DetectedString)
    → detect_utf16_string utf16_be bytes offset min_len ≡ some s
    → IsText min_len bytes s
detect_utf16_be-IsText bytes offset min_len s h =
    let (e, start, long, units) = detect_utf16_string-IsTextOf utf16_be bytes offset min_len s h in
    let here = subst (λ t. AreUnits utf16_be (drop t bytes) s.content) (sym start) units in
    subst (λ t. IsTextOf t min_len bytes s.va s.content) (sym e) (long, here.0, here.1)

-- A result of a round comes from one of the three detections.
detect_at-source :
    (config : StringAnalysisConfig) (bytes : List ℕ) (offset : ℕ) (s : DetectedString)
    → detect_at config bytes offset ≡ some s
    → (detect_ascii_string bytes offset config.min_length ≡ some s)
      ⊎ (detect_utf16_string utf16_le bytes offset config.min_length ≡ some s)
      ⊎ (detect_utf16_string utf16_be bytes offset config.min_length ≡ some s)
unfolding detect_at
detect_at-source config bytes offset s h = ground (
  arith,
  Option-cases (detect_ascii_string bytes offset config.min_length),
  Option-cases (detect_utf16_string utf16_le bytes offset config.min_length),
)

detect_at-IsText :
    (config : StringAnalysisConfig) (bytes : List ℕ) (offset : ℕ) (s : DetectedString)
    → detect_at config bytes offset ≡ some s
    → IsText config.min_length bytes s
detect_at-IsText config bytes offset s h = elim (detect_at-source config bytes offset s h) [
  | inl e ↦ detect_ascii_string-IsText bytes offset config.min_length s e
  | inr (inl e) ↦ detect_utf16_le-IsText bytes offset config.min_length s e
  | inr (inr e) ↦ detect_utf16_be-IsText bytes offset config.min_length s e
]

find_from-IsText :
    (k : ℕ) (config : StringAnalysisConfig) (bytes : List ℕ) (offset : ℕ)
    → All (IsText config.min_length bytes) (find_from k config bytes offset)
unfolding find_from
find_from-IsText zero config bytes offset = tt
find_from-IsText (suc k) config bytes offset = elim (Bool-cases (ltb offset (length bytes))) [
  | inr past ↦ rw past tt
  | inl inside ↦ elim (Option-cases (detect_at config bytes offset)) [
    | inl e ↦ rw (inside, e) (find_from-IsText k config bytes (offset + 1))
    | inr (s, e) ↦
        rw (inside, e)
          (
            detect_at-IsText config bytes offset s e,
            find_from-IsText k config bytes (offset + s.size),
          )
  ]
]

-- Every string that `find_strings` returns stands in the bytes at its address, in its encoding, has
-- only characters that the detection of that encoding accepts, and is long enough.
pub find_strings-IsText :
    (bytes : List ℕ) (config : StringAnalysisConfig)
    → All (IsText config.min_length bytes) (find_strings bytes config)
find_strings-IsText bytes config = find_from-IsText (length bytes) config bytes 0
