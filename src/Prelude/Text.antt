-- ===== src/Prelude/Text.antt =====
-- Texts: the empty test, `+`, the equality test and the decimal print of `%d`.
use Prim.Native.Nat.{ℕ, zero, suc, ◌/◌, ◌%◌}
use Prim.Native.String.{String}
use Prim.Native.String
use mathlib.Core.Path.{◌≡◌, refl}
use mathlib.Core.Bool.{Bool, true, false, ◌&&◌, ◌||◌}
use mathlib.Core.List.{List, [], ◌∷◌}
use Prim.Native.Char.{code}
pub use text.Mathlib.Text.{◌==◌ as str_eq}
use agentwrap.Prelude.Tests.{ltb, ◌==◌, if◌then◌else◌}

abbrev pub is_empty : String → Bool
is_empty String.[] = true
is_empty (String.◌∷◌ c s) = false

abbrev pub str_append : String → String → String
str_append = String.◌++◌

unfoldable pub digit : ℕ → String
digit zero = "0"
digit (suc zero) = "1"
digit (suc (suc zero)) = "2"
digit (suc (suc (suc zero))) = "3"
digit (suc (suc (suc (suc zero)))) = "4"
digit (suc (suc (suc (suc (suc zero))))) = "5"
digit (suc (suc (suc (suc (suc (suc zero)))))) = "6"
digit (suc (suc (suc (suc (suc (suc (suc zero))))))) = "7"
digit (suc (suc (suc (suc (suc (suc (suc (suc zero)))))))) = "8"
digit _ = "9"

digits_onto : ℕ → ℕ → String → String
digits_onto zero n rest = rest
digits_onto (suc fuel) n rest =
    let more = digits_onto fuel (n / 10) (str_append (digit (n % 10)) rest) in
    if ltb n 10 then str_append (digit (n % 10)) rest else more

-- `%d` of a number that is not negative: `n + 1` rounds are more than its digits.
unfoldable pub decimal : ℕ → String
unfolding digits_onto digit
decimal n = digits_onto (suc n) n ""

decimal_test : str_eq (decimal 1073) "1073" ≡ true
unfolding decimal
decimal_test = refl

-- The value unless it is empty, and else the fallback.
pub non_empty_or : String → String → String
non_empty_or String.[] fallback = fallback
non_empty_or (String.◌∷◌ c s) fallback = String.◌∷◌ c s

-- strings.HasPrefix
unfoldable pub has_prefix : String → String → Bool
has_prefix s String.[] = true
has_prefix String.[] (String.◌∷◌ c p) = false
has_prefix (String.◌∷◌ d s) (String.◌∷◌ c p) = code d == code c && has_prefix s p

-- strings.Contains
unfoldable pub contains : String → String → Bool
unfolding has_prefix
contains String.[] sub = is_empty sub
contains (String.◌∷◌ c s) sub = has_prefix (String.◌∷◌ c s) sub || contains s sub

-- strings.Join
unfoldable pub join_texts : String → List String → String
join_texts sep [] = ""
join_texts sep (s ∷ []) = s
join_texts sep (s ∷ t ∷ ss) = str_append s (str_append sep (join_texts sep (t ∷ ss)))

-- strings.Split at a character.
unfoldable pub split_at_char : ℕ → String → List String
split_at_char sep String.[] = "" ∷ []
split_at_char sep (String.◌∷◌ c s) =
    let rest = split_at_char sep s in
    if code c == sep
    then "" ∷ rest
    else elim rest [ [] ↦ String.◌∷◌ c "" ∷ [] | first ∷ others ↦ String.◌∷◌ c first ∷ others ]
