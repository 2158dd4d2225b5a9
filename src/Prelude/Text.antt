-- ===== src/Prelude/Text.antt =====
-- What the program uses of Go's `strings`, `strconv`, `regexp` and `fmt` on texts. A text is a list
-- of characters; indices into it occur only where the characters before them are ASCII.
use Prim.Native.Char.{Char, code}
use Prim.Native.String.{String, compare, ◌++◌ as cat}
use Prim.Native.Nat.{ℕ, Ordering}
use mathlib.Core.Bool.{Bool, true, false, ◌&&◌, ◌||◌}
use mathlib.Core.List.{List, [], ◌∷◌}
use text.Mathlib.Text.{find?}
use cosmwasm_etl.Prelude.Tests.{is_some, if◌then◌else◌, leb, eqb}

abbrev pub append : String → String → String
append s t = cat s t

-- `s < t` and `s <= t` on Go strings. The order by code points is that of the bytes of UTF-8.
abbrev pub str_ltb : String → String → Bool
str_ltb s t = elim (compare s t) [ Ordering.lt ↦ true | _ ↦ false ]

abbrev pub str_leb : String → String → Bool
str_leb s t = elim (compare s t) [ Ordering.gt ↦ false | _ ↦ true ]

-- `strings.Join(parts, sep)`
unfoldable pub join : String → List String → String
join sep [] = ""
join sep (s ∷ []) = s
join sep (s ∷ t ∷ parts) = append s (append sep (join sep (t ∷ parts)))

-- `strings.Split(s, sep)` at a separator of one character: always at least one part.
abbrev push_first : Char → List String → List String
push_first c [] = (String.◌∷◌ c "") ∷ []
push_first c (s ∷ parts) = (String.◌∷◌ c s) ∷ parts

unfoldable pub split : ℕ → String → List String
split sep String.[] = "" ∷ []
split sep (String.◌∷◌ c s) =
    let rest = split sep s in if eqb (code c) sep then "" ∷ rest else push_first c rest

-- `unicode.IsSpace`
unfoldable pub is_space : ℕ → Bool
is_space c =
    (leb 9 c && leb c 13)
    || eqb c 32
    || eqb c 0x85
    || eqb c 0xa0
    || eqb c 0x1680
    || (leb 0x2000 c && leb c 0x200a)
    || eqb c 0x2028
    || eqb c 0x2029
    || eqb c 0x202f
    || eqb c 0x205f
    || eqb c 0x3000

unfoldable pub trim_left : String → String
unfolding is_space
trim_left String.[] = ""
trim_left (String.◌∷◌ c s) =
    let rest = trim_left s in if is_space (code c) then rest else String.◌∷◌ c s

keep_unless : Bool → Char → String → String
keep_unless true c String.[] = ""
keep_unless true c (String.◌∷◌ d t) = String.◌∷◌ c (String.◌∷◌ d t)
keep_unless false c t = String.◌∷◌ c t

unfoldable pub trim_right : String → String
unfolding is_space keep_unless
trim_right String.[] = ""
trim_right (String.◌∷◌ c s) = keep_unless (is_space (code c)) c (trim_right s)

-- `strings.TrimSpace`
unfoldable pub trim_space : String → String
unfolding trim_left trim_right
trim_space s = trim_right (trim_left s)

unfoldable pub is_digit : ℕ → Bool
is_digit c = leb 48 c && leb c 57

-- The digits at the start.
unfoldable pub leading_digits : String → String
unfolding is_digit
leading_digits String.[] = ""
leading_digits (String.◌∷◌ c s) =
    let rest = leading_digits s in if is_digit (code c) then String.◌∷◌ c rest else ""

-- `regexp.MustCompile("\\d+").FindString(s)`: the first run of digits anywhere, "" if there is
-- none.
unfoldable pub find_digits : String → String
unfolding leading_digits is_digit
find_digits String.[] = ""
find_digits (String.◌∷◌ c s) =
    let later = find_digits s in
    if is_digit (code c) then leading_digits (String.◌∷◌ c s) else later

-- `s[len(prefix):]`, counted in characters.
unfoldable pub drop_like : String → String → String
drop_like String.[] s = s
drop_like (String.◌∷◌ c p) String.[] = ""
drop_like (String.◌∷◌ c p) (String.◌∷◌ d s) = drop_like p s

-- `strings.Contains(s, t)`
abbrev pub contains_text : String → String → Bool
contains_text s t = is_some (find? s t)
