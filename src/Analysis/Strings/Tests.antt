-- ===== src/Analysis/Strings/Tests.antt =====
-- src/analysis/strings.rs: runs.
use vivisect_rs.Base.{ℕ, ◌+◌, ◌≡◌, refl, List, [], ◌∷◌, length, All}
use vivisect_rs.Analysis.Strings.{
  ascii, utf16_le, default_config, is_printable_ascii, null_at, ascii_run, detect_ascii_string,
  is_refused, unit_run, detect_utf16_string, printable_at, detect_at, find_from, find_strings,
}
use vivisect_rs.Analysis.Strings.Detected.{AreApart, find_strings-AreApart, find_strings_enough}
use vivisect_rs.Analysis.Strings.Content.{IsText, find_strings-IsText}

-- A byte that is of no string, "test", and "code" in UTF-16.
abbrev sample : List ℕ
sample = 1 ∷ 116 ∷ 101 ∷ 115 ∷ 116 ∷ 0 ∷ 99 ∷ 0 ∷ 111 ∷ 0 ∷ 100 ∷ 0 ∷ 101 ∷ 0 ∷ 0 ∷ 0 ∷ []

sample_strings :
    find_strings sample default_config
    ≡ record { va = 1; content = 116 ∷ 101 ∷ 115 ∷ 116 ∷ []; encoding = ascii; size = 5 }
      ∷ record { va = 6; content = 99 ∷ 111 ∷ 100 ∷ 101 ∷ []; encoding = utf16_le; size = 10 }
      ∷ []
unfolding find_from detect_at detect_ascii_string ascii_run is_printable_ascii null_at printable_at
    detect_utf16_string unit_run is_refused
sample_strings = refl

find_strings-AreApart_example : AreApart 0 (length sample) (find_strings sample default_config)
find_strings-AreApart_example = find_strings-AreApart sample default_config

find_strings-IsText_example : All (IsText 4 sample) (find_strings sample default_config)
find_strings-IsText_example = find_strings-IsText sample default_config

find_strings_enough_example :
    find_from (length sample + 5) default_config sample 0 ≡ find_strings sample default_config
find_strings_enough_example = find_strings_enough sample default_config 5
