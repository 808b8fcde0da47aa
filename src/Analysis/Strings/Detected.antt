-- ===== src/Analysis/Strings/Detected.antt =====
-- src/analysis/strings.rs: the strings of a slice.
use vivisect_rs.Base.{
  ℕ, zero, suc, ◌+◌, ◌*◌, ◌≤◌, ◌<◌, ◌≡◌, refl, sym, ap, ◌∙◌, true, ◌||◌, some, List, [], ◌∷◌, arith,
  length, drop, length-drop, Option-cases, inl, inr,
}
use mathlib.Core.Path.{subst}
use vivisect_rs.Analysis.Strings.{
  StringEncoding, utf16_le, utf16_be, DetectedString, StringAnalysisConfig, max_string_length,
  null_at, printable_at, ascii_run, detect_ascii_string, unit_run, detect_utf16_string, detect_at,
  find_from, find_strings,
}
use vivisect_rs.Analysis.Strings.Runs.{
  ascii_run-bounds, ascii_run-null_at, unit_run-bounds, unit_run-positive, null_at-bound,
}

-- A string that is found at an offset: it starts there, is not empty, and lies in the bytes.
abbrev IsPlaced : List ℕ → ℕ → DetectedString → Type 0
IsPlaced bytes offset s = (s.va ≡ offset) × (0 < s.size) × (offset + s.size ≤ length bytes)

detect_ascii_string-IsPlaced :
    (bytes : List ℕ) (offset min_len : ℕ) (s : DetectedString)
    → detect_ascii_string bytes offset min_len ≡ some s
    → IsPlaced bytes offset s
unfolding detect_ascii_string
detect_ascii_string-IsPlaced bytes offset min_len s h =
    elim (Option-cases (ascii_run max_string_length (drop offset bytes))) [
      | inl e ↦ absurd (ground arith)
      | inr (len, e) ↦
          let run = ascii_run-bounds max_string_length len (drop offset bytes) e in
          let start : len ≡ 0 → offset < length bytes → null_at bytes offset ≡ true =
            λ z inside. ascii_run-null_at 4095 bytes offset (e ∙ ap some z) inside in
          let here : len ≡ 0 → offset + len ≡ offset = λ z. omega arith in
          ground (arith, run, start, length-drop offset bytes, null_at-bound bytes (offset + len))
    ]

detect_utf16_string-IsPlaced :
    (e : StringEncoding) (bytes : List ℕ) (offset min_len : ℕ) (s : DetectedString)
    → detect_utf16_string e bytes offset min_len ≡ some s
    → (printable_at bytes offset || printable_at bytes (offset + 1)) ≡ true
    → IsPlaced bytes offset s
unfolding detect_utf16_string
detect_utf16_string-IsPlaced e bytes offset min_len s h p =
    elim (Option-cases (unit_run e max_string_length (drop offset bytes))) [
      | inl r ↦ absurd (ground arith)
      | inr (us, r) ↦
          let run = unit_run-bounds e max_string_length (drop offset bytes) us r in
          let start = unit_run-positive e 4095 bytes us offset r p in
          let pos = offset + 2 * length us in
          ground (arith, run, start, length-drop offset bytes, null_at-bound bytes (pos + 1))
    ]

detect_at-IsPlaced :
    (config : StringAnalysisConfig) (bytes : List ℕ) (offset : ℕ) (s : DetectedString)
    → detect_at config bytes offset ≡ some s
    → IsPlaced bytes offset s
unfolding detect_at
detect_at-IsPlaced config bytes offset s h =
    let min_len = config.min_length in
    ground (
      arith,
      Option-cases (detect_ascii_string bytes offset min_len),
      Option-cases (detect_utf16_string utf16_le bytes offset min_len),
      detect_ascii_string-IsPlaced bytes offset min_len s,
      detect_utf16_string-IsPlaced utf16_le bytes offset min_len s,
      detect_utf16_string-IsPlaced utf16_be bytes offset min_len s,
    )

-- Strings in order, each of at least one byte, that begin at or past `from`, share no byte and end by
-- `to`.
abbrev pub AreApart : ℕ → ℕ → List DetectedString → Type 0
AreApart from to [] = Unit
AreApart from to (s ∷ ss) =
    (from ≤ s.va) × (0 < s.size) × (s.va + s.size ≤ to) × AreApart (s.va + s.size) to ss

AreApart-earlier :
    (early late to : ℕ) (ss : List DetectedString)
    → early ≤ late
    → AreApart late to ss
    → AreApart early to ss
AreApart-earlier early late to [] h apart = tt
AreApart-earlier early late to (s ∷ ss) h apart = ground (arith, apart)

find_from-AreApart :
    (k : ℕ) (config : StringAnalysisConfig) (bytes : List ℕ) (offset : ℕ)
    → AreApart offset (length bytes) (find_from k config bytes offset)
unfolding find_from
find_from-AreApart zero config bytes offset = tt
find_from-AreApart (suc k) config bytes offset =
    elim (Option-cases (detect_at config bytes offset)) [
      | inl e ↦
          let rest = find_from-AreApart k config bytes (offset + 1) in
          let later =
            AreApart-earlier offset (offset + 1) (length bytes)
              (find_from k config bytes (offset + 1)) (omega arith) rest in
          ground (arith, later, e)
      | inr (s, e) ↦
          let (start, size, inside) = detect_at-IsPlaced config bytes offset s e in
          let rest = find_from-AreApart k config bytes (offset + s.size) in
          let later =
            subst
              (λ t.
                AreApart (t + s.size) (length bytes) (find_from k config bytes (offset + s.size)))
              (sym start) rest in
          ground (arith, start, size, inside, later, e)
    ]

-- The strings that `find_strings` returns come in the order of their addresses, are not empty, share
-- no byte with each other, and lie in the bytes.
pub find_strings-AreApart :
    (bytes : List ℕ) (config : StringAnalysisConfig)
    → AreApart 0 (length bytes) (find_strings bytes config)
find_strings-AreApart bytes config = find_from-AreApart (length bytes) config bytes 0

-- The loop stops at the end of the bytes within as many rounds as there are bytes left.
find_from-enough :
    (k more : ℕ) (config : StringAnalysisConfig) (bytes : List ℕ) (offset : ℕ)
    → length bytes ≤ offset + k
    → find_from (k + more) config bytes offset ≡ find_from k config bytes offset
unfolding find_from
find_from-enough zero zero config bytes offset h = refl
find_from-enough zero (suc more) config bytes offset h = ground arith
find_from-enough (suc k) more config bytes offset h =
    ap (λ t. find_from t config bytes offset) {x = suc k + more} {y = suc (k + more)} (omega arith)
    ∙ elim (Option-cases (detect_at config bytes offset)) [
      | inl e ↦ ground (arith, find_from-enough k more config bytes (offset + 1) (omega arith), e)
      | inr (s, e) ↦
          let placed = detect_at-IsPlaced config bytes offset s e in
          let rest =
            find_from-enough k more config bytes (offset + s.size) (omega (arith, placed.1)) in
          ground (arith, rest, e)
    ]

-- The loop of `find_strings` ends: with more rounds than one for each byte, the result is the same.
pub find_strings_enough :
    (bytes : List ℕ) (config : StringAnalysisConfig) (more : ℕ)
    → find_from (length bytes + more) config bytes 0 ≡ find_strings bytes config
find_strings_enough bytes config more =
    find_from-enough (length bytes) more config bytes 0 (omega arith)
