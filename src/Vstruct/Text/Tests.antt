-- ===== src/Vstruct/Text/Tests.antt =====
-- src/vstruct/primitives.rs: runs.
use vivisect_rs.Base.{ℕ, ◌+◌, ◌≡◌, refl, some, List, [], ◌∷◌, ◌++◌, length}
use vivisect_rs.Error.{ok}
use vivisect_rs.Vstruct.Text.{VzStr, with_align, set_zstring, parse_zstring}
use vivisect_rs.Vstruct.Text.RoundTrip.{parse_zstring-set_zstring}

-- "hello" in a string aligned to 4 bytes.
abbrev hello : List ℕ
hello = 104 ∷ 101 ∷ 108 ∷ 108 ∷ 111 ∷ []

abbrev aligned : VzStr
aligned = record { value = hello ++ (0 ∷ 0 ∷ 0 ∷ []); align = 4 }

hello_set : set_zstring (with_align 4) hello ≡ some aligned
unfolding set_zstring
hello_set = refl

parse_zstring-set_zstring_example :
    parse_zstring (with_align 4) ((7 ∷ []) ++ (aligned.value ++ (1 ∷ []))) (1)
    ≡ some (ok (aligned, 1 + length aligned.value))
parse_zstring-set_zstring_example =
    parse_zstring-set_zstring (with_align 4) hello (7 ∷ []) (1 ∷ []) refl hello_set
