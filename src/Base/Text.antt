-- ===== src/Base/Text.antt =====
-- Names: equality of native strings, and the decimal print of a number.
use Prim.Native.Nat.{ℕ, zero, suc, ◌/◌, ◌%◌}
use Prim.Native.String.{String, ◌++◌}
use mathlib.Core.Path.{◌≡◌, refl}
use mathlib.Core.Logic.{◌↔◌}
use mathlib.Core.Bool.{Bool, true}
use text.Mathlib.Text.{◌==◌ as text_eq}
use text.Mathlib.TextEquality.{eq_iff}
use vivisect_rs.Base.Tests.{◌==◌, ltb, if◌then◌else◌}

-- `String == String`.
abbrev pub str_eq : String → String → Bool
str_eq = text_eq

-- The concatenation of two strings.
abbrev pub text_append : String → String → String
text_append s t = s ++ t

pub str_eq_iff : (s t : String) → (str_eq s t ≡ true) ↔ (s ≡ t)
str_eq_iff = eq_iff

abbrev digit : ℕ → String
digit d =
    if d == 0
    then "0"
    else if d == 1
    then "1"
    else if d == 2
    then "2"
    else if d == 3
    then "3"
    else if d == 4
    then "4"
    else if d == 5
    then "5"
    else if d == 6
    then "6"
    else if d == 7
    then "7"
    else if d == 8
    then "8"
    else "9"

-- At most the given count of decimal digits; 20 hold every `u64`.
decimal_digits : ℕ → ℕ → String
decimal_digits zero n = ""
decimal_digits (suc k) n =
    let high = decimal_digits k (n / 10) in if ltb n 10 then digit n else high ++ digit (n % 10)

-- `format!("{}", n)` of a `u64`.
unfoldable pub decimal : ℕ → String
unfolding decimal_digits
decimal n = decimal_digits 20 n

decimal-4096 : decimal 4096 ≡ "4096"
unfolding decimal
decimal-4096 = refl
