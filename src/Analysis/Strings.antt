-- ===== src/Analysis/Strings.antt =====
-- src/analysis/strings.rs: strings in a slice of bytes. The content of a string is its bytes or its
-- UTF-16 code units, before they are converted to text.
pub mod Content
pub mod Detected
pub mod Runs
mod Tests
use vivisect_rs.Base.{
  ℕ, zero, suc, ◌+◌, ◌*◌, Bool, true, false, not, ◌&&◌, ◌||◌, Option, none, some, List, [], ◌∷◌,
  ltb, leb, ◌==◌, if◌then◌else◌, length, take, drop, get_elem?,
}

-- `MIN_STRING_LENGTH` and `MAX_STRING_LENGTH`.
abbrev pub min_string_length : ℕ
min_string_length = 4

abbrev pub max_string_length : ℕ
max_string_length = 4096

-- `enum StringEncoding`.
pub data StringEncoding : Type 0 where
  ascii : StringEncoding
  utf16_le : StringEncoding
  utf16_be : StringEncoding

-- `struct DetectedString`.
pub record DetectedString : Type 0 where
  pub va : ℕ
  pub content : List ℕ
  pub encoding : StringEncoding
  pub size : ℕ

-- `is_printable_ascii` and `is_string_char`.
unfoldable pub is_printable_ascii : ℕ → Bool
is_printable_ascii b = (leb 32 b && leb b 126) || b == 9 || b == 10 || b == 13

-- `data[i] == 0`, false past the end.
unfoldable pub null_at : List ℕ → ℕ → Bool
null_at bytes i = elim (get_elem? bytes i) [ none ↦ false | some b ↦ b == 0 ]

-- The loop of `detect_ascii_string` on the bytes from its offset, at most so many: how many it passes,
-- or none at a byte that is not of a string.
unfoldable pub ascii_run : ℕ → List ℕ → Option ℕ
ascii_run zero bs = some 0
ascii_run (suc k) [] = some 0
ascii_run (suc k) (b ∷ bs) =
    let rest = ascii_run k bs in
    if b == 0
    then some 0
    else if not (is_printable_ascii b)
    then none
    else elim rest [ none ↦ none | some n ↦ some (suc n) ]

-- `detect_ascii_string`.
unfoldable pub detect_ascii_string : List ℕ → ℕ → ℕ → Option DetectedString
detect_ascii_string bytes offset min_len =
    if ltb offset (length bytes)
    then elim (ascii_run max_string_length (drop offset bytes)) [
      | none ↦ none
      | some len ↦
          if ltb len min_len
          then none
          else some (record {
            va = offset;
            content = take len (drop offset bytes);
            encoding = ascii;
            size = if null_at bytes (offset + len) then suc len else len;
          })
    ]
    else none

-- A code unit from two bytes.
abbrev pub code_unit : StringEncoding → ℕ → ℕ → ℕ
code_unit utf16_be high low = 256 * high + low
code_unit _ low high = low + 256 * high

-- The units that both loops over code units refuse.
unfoldable pub is_refused : ℕ → Bool
is_refused unit =
    (ltb unit 32 || (ltb 126 unit && ltb unit 256))
    && not (unit == 9)
    && not (unit == 10)
    && not (unit == 13)

-- The loop of `detect_utf16le_string` and `detect_utf16be_string`: the units that it passes.
unfoldable pub unit_run : StringEncoding → ℕ → List ℕ → Option (List ℕ)
unit_run e zero bs = some []
unit_run e (suc k) [] = some []
unit_run e (suc k) (a ∷ []) = some []
unit_run e (suc k) (a ∷ b ∷ bs) =
    let rest = unit_run e k bs in
    if a == 0 && b == 0
    then some []
    else if is_refused (code_unit e a b)
    then none
    else elim rest [ none ↦ none | some us ↦ some (code_unit e a b ∷ us) ]

-- `detect_utf16le_string` and `detect_utf16be_string`.
unfoldable pub detect_utf16_string : StringEncoding → List ℕ → ℕ → ℕ → Option DetectedString
detect_utf16_string e bytes offset min_len =
    if ltb (offset + 1) (length bytes)
    then elim (unit_run e max_string_length (drop offset bytes)) [
      | none ↦ none
      | some units ↦
          let pos = offset + 2 * length units in
          if ltb (length units) min_len
          then none
          else some (record {
            va = offset;
            content = units;
            encoding = e;
            size =
                if null_at bytes pos && null_at bytes (pos + 1)
                then 2 * length units + 2
                else 2 * length units;
          })
    ]
    else none

-- `struct StringAnalysisConfig`, and its default.
pub record StringAnalysisConfig : Type 0 where
  pub min_length : ℕ
  pub detect_ascii : Bool
  pub detect_utf16 : Bool
  pub detect_utf16be : Bool

abbrev pub default_config : StringAnalysisConfig
default_config = record {
  min_length = min_string_length;
  detect_ascii = true;
  detect_utf16 = true;
  detect_utf16be = true;
}

-- `is_printable_ascii(data[i])`, false past the end.
unfoldable pub printable_at : List ℕ → ℕ → Bool
printable_at bytes i = elim (get_elem? bytes i) [ none ↦ false | some b ↦ is_printable_ascii b ]

-- What a round of `find_strings` finds: the first of the three that it tries.
abbrev pub or_else : Option DetectedString → Option DetectedString → Option DetectedString
or_else none other = other
or_else (some s) other = some s

unfoldable pub detect_at : StringAnalysisConfig → List ℕ → ℕ → Option DetectedString
detect_at config bytes offset =
    or_else
      (if config.detect_ascii then detect_ascii_string bytes offset config.min_length else none)
      (or_else
        (if config.detect_utf16 && null_at bytes (offset + 1) && printable_at bytes offset
          then detect_utf16_string utf16_le bytes offset config.min_length
          else none)
        (if config.detect_utf16be && null_at bytes offset && printable_at bytes (offset + 1)
          then detect_utf16_string utf16_be bytes offset config.min_length
          else none))

-- The loop of `find_strings` from an offset, on so many rounds of fuel.
unfoldable pub find_from : ℕ → StringAnalysisConfig → List ℕ → ℕ → List DetectedString
find_from zero config bytes offset = []
find_from (suc k) config bytes offset =
    if ltb offset (length bytes)
    then elim (detect_at config bytes offset) [
      | none ↦ find_from k config bytes (offset + 1)
      | some s ↦ s ∷ find_from k config bytes (offset + s.size)
    ]
    else []

-- `find_strings`. A round passes at least one byte.
abbrev pub find_strings : List ℕ → StringAnalysisConfig → List DetectedString
find_strings bytes config = find_from (length bytes) config bytes 0
