-- ===== src/Prelude/Text.antt =====
-- Template literals, and the methods of JavaScript texts. Letters and spaces are those of ASCII.
use Prim.Native.Nat.{ℕ, zero, suc, ◌-◌}
use Prim.Native.Char.{Char, code}
use Prim.Native.String.{String, ◌++◌}
use mathlib.Core.Path.{◌≡◌, refl}
use mathlib.Core.Bool.{Bool, ◌&&◌, ◌||◌}
use mathlib.Core.List.{List, [], ◌∷◌}
use text.Mathlib.Text.{◌==◌ as str_eq}
use stellar_portfolio_rebala.Prelude.Tests.{if◌then◌else◌, leb, ◌==◌}

-- The pieces of a template literal, joined.
unfoldable pub template : List String → String
template [] = ""
template (s ∷ pieces) = ◌++◌ s (template pieces)

-- `fields.join(separator)`
unfoldable pub join : String → List String → String
join separator [] = ""
join separator (s ∷ fields) = template (s ∷ join_after separator fields)
  where
    join_after : String → List String → List String
    join_after separator [] = []
    join_after separator (s ∷ fields) = separator ∷ s ∷ join_after separator fields

-- `s.length`
unfoldable pub text_length : String → ℕ
text_length String.[] = 0
text_length (String.◌∷◌ c s) = suc (text_length s)

-- The first characters of a text: `s.slice(0, k)`.
unfoldable pub take_text : ℕ → String → String
take_text zero s = ""
take_text (suc k) String.[] = ""
take_text (suc k) (String.◌∷◌ c s) = String.◌∷◌ c (take_text k s)

abbrev char_or : Char → ℕ → String → Char
char_or d k String.[] = d
char_or d zero (String.◌∷◌ c s) = c
char_or d (suc k) (String.◌∷◌ c s) = char_or d k s

abbrev is_between : ℕ → ℕ → Char → Bool
is_between low high c = leb low (code c) && leb (code c) high

abbrev upper_char : Char → Char
upper_char c =
    if is_between 97 122 c then char_or c (code c - 97) "ABCDEFGHIJKLMNOPQRSTUVWXYZ" else c

abbrev lower_char : Char → Char
lower_char c =
    if is_between 65 90 c then char_or c (code c - 65) "abcdefghijklmnopqrstuvwxyz" else c

unfoldable pub to_upper_case : String → String
to_upper_case String.[] = ""
to_upper_case (String.◌∷◌ c s) = String.◌∷◌ (upper_char c) (to_upper_case s)

unfoldable pub to_lower_case : String → String
to_lower_case String.[] = ""
to_lower_case (String.◌∷◌ c s) = String.◌∷◌ (lower_char c) (to_lower_case s)

abbrev is_space : Char → Bool
is_space c = is_between 9 13 c || code c == 32

unfoldable pub trim_start : String → String
trim_start String.[] = ""
trim_start (String.◌∷◌ c s) = let rest = trim_start s in if is_space c then rest else String.◌∷◌ c s

unfoldable pub trim_end : String → String
trim_end String.[] = ""
trim_end (String.◌∷◌ c s) =
    let rest = trim_end s in if is_space c && str_eq rest "" then "" else String.◌∷◌ c rest

unfoldable pub trim : String → String
trim s = trim_end (trim_start s)

trimmed : trim (to_upper_case (take_text 5 " usd  x")) ≡ "USD"
unfolding trim trim_start trim_end to_upper_case take_text
trimmed = refl
