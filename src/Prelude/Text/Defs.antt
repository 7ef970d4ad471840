-- ===== src/Prelude/Text/Defs.antt =====
-- What the program takes from Go's `strings` and `strconv` packages, on ASCII text.
use Prim.Native.Char.{code}
use Prim.Native.String.{String}
use Prim.Native.Nat.{ℕ, ◌+◌, ◌-◌, ◌/◌, ◌%◌}
use mathlib.Core.Bool.{Bool, true, false, ◌&&◌, ◌||◌}
use mathlib.Core.List.{List, [], ◌∷◌, ◌++◌}
use mathlib.Core.Option.{Option, none, some}
use sandcastle_incus.Prelude.Lists.{length, take, drop}
use sandcastle_incus.Prelude.Tests.{ltb, leb, ◌==◌, if◌then◌else◌}

abbrev pub Text : Type 0
Text = List ℕ

-- A literal's code points, which are its bytes when it is ASCII.
abbrev pub codes : String → Text
codes String.[] = []
codes (String.◌∷◌ c s) = code c ∷ codes s

-- `a == b` on strings.
unfoldable pub teq : Text → Text → Bool
teq [] [] = true
teq [] (b ∷ t) = false
teq (a ∷ s) [] = false
teq (a ∷ s) (b ∷ t) = a == b && teq s t

-- `a < b` on strings: byte by byte.
unfoldable pub text_lt : Text → Text → Bool
text_lt s [] = false
text_lt [] (b ∷ t) = true
text_lt (a ∷ s) (b ∷ t) = ltb a b || (a == b && text_lt s t)

-- `strings.HasPrefix(s, prefix)`
unfoldable pub has_prefix : Text → Text → Bool
has_prefix s [] = true
has_prefix [] (p ∷ ps) = false
has_prefix (c ∷ s) (p ∷ ps) = c == p && has_prefix s ps

-- `strings.HasSuffix(s, suffix)`: the last bytes are compared.
unfoldable pub has_suffix : Text → Text → Bool
unfolding teq
has_suffix s suffix =
    leb (length suffix) (length s) && teq (drop (length s - length suffix) s) suffix

unfoldable pub trim_prefix : Text → Text → Text
unfolding has_prefix
trim_prefix s prefix = if has_prefix s prefix then drop (length prefix) s else s

unfoldable pub trim_suffix : Text → Text → Text
unfolding has_suffix
trim_suffix s suffix = if has_suffix s suffix then take (length s - length suffix) s else s

abbrev pub lower_char : ℕ → ℕ
lower_char c = if leb b'A' c && leb c b'Z' then c + 32 else c

unfoldable pub to_lower : Text → Text
to_lower [] = []
to_lower (c ∷ s) = lower_char c ∷ to_lower s

-- tab, newline, vertical tab, form feed, carriage return, space
abbrev pub is_space : ℕ → Bool
is_space c = c == 32 || (leb 9 c && leb c 13)

unfoldable pub trim_left : (ℕ → Bool) → Text → Text
trim_left p [] = []
trim_left p (c ∷ s) = if p c then trim_left p s else c ∷ s

unfoldable pub trim_right : (ℕ → Bool) → Text → Text
trim_right p [] = []
trim_right p (c ∷ s) = elim (trim_right p s) [ [] ↦ if p c then [] else c ∷ [] | d ∷ r ↦ c ∷ d ∷ r ]

-- `strings.TrimSpace(s)`
unfoldable pub trim_space : Text → Text
unfolding trim_left trim_right
trim_space s = trim_right is_space (trim_left is_space s)

-- `strings.Trim(s, ".")`
unfoldable pub trim_dots : Text → Text
unfolding trim_left trim_right
trim_dots s = trim_right (λ c. c == b'.') (trim_left (λ c. c == b'.') s)

unfoldable pub has_char : ℕ → Text → Bool
has_char c [] = false
has_char c (d ∷ s) = c == d || has_char c s

-- `strings.ContainsAny(s, chars)`
unfoldable pub contains_any : Text → Text → Bool
unfolding has_char
contains_any [] chars = false
contains_any (c ∷ s) chars = has_char c chars || contains_any s chars

abbrev pub push_head : ℕ → List Text → List Text
push_head c [] = (c ∷ []) ∷ []
push_head c (l ∷ ls) = (c ∷ l) ∷ ls

-- `strings.Split(s, sep)` for a separator of one byte: always at least one part.
unfoldable pub split : ℕ → Text → List Text
split sep [] = [] ∷ []
split sep (c ∷ s) = if c == sep then [] ∷ split sep s else push_head c (split sep s)

-- `strings.Cut(s, sep)` for a separator of one byte; `none` if it does not occur.
unfoldable pub cut : ℕ → Text → Option (Text × Text)
cut sep [] = none
cut sep (c ∷ s) =
    if c == sep
    then some ([], s)
    else elim (cut sep s) [ none ↦ none | some (a, b) ↦ some (c ∷ a, b) ]

abbrev hex_digit : ℕ → ℕ
hex_digit n = if ltb n 10 then n + b'0' else n - 10 + b'a'

-- How `%q` writes one ASCII byte.
abbrev quote_char : ℕ → Text
quote_char c =
    if c == b'"'
    then codes "\\\""
    else if c == b'\\'
    then codes "\\\\"
    else if c == 7
    then codes "\\a"
    else if c == 8
    then codes "\\b"
    else if c == 9
    then codes "\\t"
    else if c == 10
    then codes "\\n"
    else if c == 11
    then codes "\\v"
    else if c == 12
    then codes "\\f"
    else if c == 13
    then codes "\\r"
    else if ltb c 32 || c == 127
    then codes "\\x" ++ hex_digit (c / 16) ∷ hex_digit (c % 16) ∷ []
    else c ∷ []

quote_all : Text → Text
quote_all [] = b'"' ∷ []
quote_all (c ∷ s) = quote_char c ++ quote_all s

-- `fmt.Sprintf("%q", s)`
unfoldable pub quote : Text → Text
unfolding quote_all
quote s = b'"' ∷ quote_all s
