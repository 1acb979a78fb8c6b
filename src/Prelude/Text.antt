-- ===== src/Prelude/Text.antt =====
-- Texts: f-strings, decimal printing of naturals, and equality.
use Prim.Native.Nat.{ℕ, zero, suc, ◌/◌, ◌%◌}
use Prim.Native.String.{String, ◌++◌ as ◌<>◌}
use mathlib.Core.List.{List, [], ◌∷◌}
use apna_mandla.Prelude.Tests.{◌==◌, if◌then◌else◌}
pub use text.Mathlib.Text.{◌==◌ as str_eq}
pub use text.Mathlib.TextEquality.{eq_iff}
pub use text.Mathlib.TextPositions.{eq_refl}

-- An f-string is the concatenation of its parts.
unfoldable pub f_string : List String → String
f_string [] = ""
f_string (s ∷ rest) = s <> f_string rest

digit : ℕ → String
digit n =
    if n == 0
    then "0"
    else if n == 1
    then "1"
    else if n == 2
    then "2"
    else if n == 3
    then "3"
    else if n == 4
    then "4"
    else if n == 5
    then "5"
    else if n == 6
    then "6"
    else if n == 7
    then "7"
    else if n == 8
    then "8"
    else "9"

str_loop : ℕ → ℕ → String → String
str_loop zero n acc = acc
str_loop (suc f) n acc =
    let more = str_loop f (n / 10) (digit (n % 10) <> acc) in if n == 0 then acc else more

-- `str(n)`: the fuel `n` is at least the number of digits.
unfoldable pub str : ℕ → String
unfolding digit str_loop
str n = if n == 0 then "0" else str_loop n n ""
