-- ===== src/Strings.antt =====
-- What the code uses of packages strings and strconv that only looks at single characters.
pub mod Splitting
use Prim.Native.Char.{Char, code}
use travel_mcp.Prelude.{
  ℕ, zero, suc, ◌+◌, ◌-◌, ◌*◌, ◌/◌, ◌%◌, String, Bool, true, false, not, ◌&&◌, ◌||◌, List, [], ◌∷◌,
  Option, none, some, ltb, leb, ◌==◌, str_eq, if◌then◌else◌, ℤ, pos, negsuc,
}

infixr 60 ◌<>◌
unfoldable pub ◌<>◌ : String → String → String
String.[] <> t = t
(String.◌∷◌ c s) <> t = String.◌∷◌ c (s <> t)

-- `unicode.IsSpace`.
unfoldable pub is_space : Char → Bool
is_space c =
    (leb 9 (code c) && leb (code c) 13)
    || code c == 32
    || code c == 133
    || code c == 160
    || code c == 5760
    || (leb 8192 (code c) && leb (code c) 8202)
    || code c == 8232
    || code c == 8233
    || code c == 8239
    || code c == 8287
    || code c == 12288

unfoldable pub is_digit : Char → Bool
is_digit c = leb 48 (code c) && leb (code c) 57

unfoldable pub trim_left : String → String
trim_left String.[] = String.[]
trim_left (String.◌∷◌ c s) = let rest = trim_left s in if is_space c then rest else String.◌∷◌ c s

-- Without the spaces at the end.
unfoldable pub trim_right : String → String
trim_right String.[] = String.[]
trim_right (String.◌∷◌ c s) =
    let rest = trim_right s in if is_space c && str_eq rest "" then String.[] else String.◌∷◌ c rest

unfoldable pub trim_space : String → String
trim_space s = trim_left (trim_right s)

unfoldable pub add_char : Char → List String → List String
add_char c [] = (String.◌∷◌ c String.[]) ∷ []
add_char c (w ∷ ws) = (String.◌∷◌ c w) ∷ ws

-- `strings.Split(s, sep)` with a separator of one character, given by its code.
unfoldable pub split_on : ℕ → String → List String
split_on sep String.[] = String.[] ∷ []
split_on sep (String.◌∷◌ c s) =
    let rest = split_on sep s in if code c == sep then String.[] ∷ rest else add_char c rest

-- `strings.Join(parts, ",")`
unfoldable pub join_comma : List String → String
join_comma [] = ""
join_comma (p ∷ []) = p
join_comma (p ∷ q ∷ ps) = p <> ("," <> join_comma (q ∷ ps))

unfoldable pub non_empty : List String → List String
non_empty [] = []
non_empty (w ∷ ws) = let rest = non_empty ws in if str_eq w "" then rest else w ∷ rest

unfoldable pub words_of : String → List String
words_of String.[] = String.[] ∷ []
words_of (String.◌∷◌ c s) =
    let rest = words_of s in if is_space c then String.[] ∷ rest else add_char c rest

-- `strings.Fields`
unfoldable pub fields : String → List String
fields s = non_empty (words_of s)

unfoldable pub has_prefix : String → String → Bool
has_prefix s String.[] = true
has_prefix String.[] (String.◌∷◌ d p) = false
has_prefix (String.◌∷◌ c s) (String.◌∷◌ d p) = code c == code d && has_prefix s p

-- `strings.Contains`
unfoldable pub has : String → String → Bool
has String.[] p = has_prefix String.[] p
has (String.◌∷◌ c s) p = has_prefix (String.◌∷◌ c s) p || has s p

-- The digits of a number in front of nothing else.
unfoldable pub digits_from : ℕ → String → Option ℕ
digits_from n String.[] = some n
digits_from n (String.◌∷◌ c s) =
    let rest = digits_from (n * 10 + (code c - 48)) s in if is_digit c then rest else none

unfoldable pub unsigned : String → Option ℕ
unsigned String.[] = none
unsigned (String.◌∷◌ c s) = digits_from 0 (String.◌∷◌ c s)

unfoldable pub negated : Option ℕ → Option ℤ
negated none = none
negated (some zero) = some (pos zero)
negated (some (suc n)) = some (negsuc n)

-- `strconv.Atoi`, with the sign; numbers beyond 64 bits are read too.
unfoldable pub atoi : String → Option ℤ
atoi String.[] = none
atoi (String.◌∷◌ c s) =
    if code c == 45
    then negated (unsigned s)
    else if code c == 43
    then (elim (unsigned s) [ none ↦ none | some n ↦ some (pos n) ])
    else (elim (unsigned (String.◌∷◌ c s)) [ none ↦ none | some n ↦ some (pos n) ])

unfoldable pub digit_of : ℕ → String
digit_of zero = "0"
digit_of (suc zero) = "1"
digit_of (suc (suc zero)) = "2"
digit_of (suc (suc (suc zero))) = "3"
digit_of (suc (suc (suc (suc zero)))) = "4"
digit_of (suc (suc (suc (suc (suc zero))))) = "5"
digit_of (suc (suc (suc (suc (suc (suc zero)))))) = "6"
digit_of (suc (suc (suc (suc (suc (suc (suc zero))))))) = "7"
digit_of (suc (suc (suc (suc (suc (suc (suc (suc zero)))))))) = "8"
digit_of (suc (suc (suc (suc (suc (suc (suc (suc (suc n))))))))) = "9"

-- The digits of a number in front of a text, on fuel; the number itself is enough fuel.
unfoldable pub itoa_from : ℕ → ℕ → String → String
itoa_from zero n tail = digit_of n <> tail
itoa_from (suc fuel) n tail =
    let rest = itoa_from fuel (n / 10) (digit_of (n % 10) <> tail) in
    if ltb n 10 then digit_of n <> tail else rest

-- `strconv.Itoa` of a number that is not negative.
unfoldable pub itoa : ℕ → String
itoa n = itoa_from n n ""
