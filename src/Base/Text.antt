-- ===== src/Base/Text.antt =====
-- Python's `str` methods that the program uses, on the characters of a text.
use Prim.Native.Nat.{ℕ}
use Prim.Native.Char.{code}
use Prim.Native.String.{String, ◌++◌}
use mathlib.Core.Bool.{Bool, true, false, ◌&&◌, ◌||◌}
use mathlib.Core.List.{List, [], ◌∷◌}
use argus_agent.Base.Tests.{◌==◌, nat_eq, string_eq, leb, if◌then◌else◌}

-- `str.isspace` of one character.
unfoldable pub is_space : ℕ → Bool
is_space c =
    (leb 9 c && leb c 13)
    || (leb 28 c && leb c 32)
    || c == 0x85
    || c == 0xa0
    || c == 0x1680
    || (leb 0x2000 c && leb c 0x200a)
    || c == 0x2028
    || c == 0x2029
    || c == 0x202f
    || c == 0x205f
    || c == 0x3000

-- `not s.strip()`
unfoldable pub is_blank : String → Bool
unfolding is_space
is_blank String.[] = true
is_blank (String.◌∷◌ c s) = is_space (code c) && is_blank s

-- `s.rstrip()`
unfoldable pub rstrip : String → String
unfolding is_space is_blank
rstrip String.[] = String.[]
rstrip (String.◌∷◌ c s) =
    if is_space (code c) && is_blank s then String.[] else String.◌∷◌ c (rstrip s)

unfoldable pub lstrip : String → String
unfolding is_space
lstrip String.[] = String.[]
lstrip (String.◌∷◌ c s) = if is_space (code c) then lstrip s else String.◌∷◌ c s

-- `s.strip()`
unfoldable pub strip : String → String
unfolding rstrip lstrip
strip s = rstrip (lstrip s)

abbrev pub length : String → ℕ
length String.[] = 0
length (String.◌∷◌ c s) = Prim.Native.Nat.suc (length s)

-- `sep.join(ss)`
unfoldable pub join : String → List String → String
join sep [] = ""
join sep (s ∷ []) = s
join sep (s ∷ t ∷ ss) = s ++ (sep ++ join sep (t ∷ ss))

-- `s.split()`, with the word that is being read.
unfoldable pub split_from : String → String → List String
unfolding is_space
split_from word String.[] = if word == "" then [] else word ∷ []
split_from word (String.◌∷◌ c s) =
    let longer = split_from (word ++ String.◌∷◌ c String.[]) s in
    let ended = split_from "" s in
    if is_space (code c) then (if word == "" then ended else word ∷ ended) else longer

unfoldable pub split : String → List String
unfolding split_from
split s = split_from "" s

-- A character at which `str.splitlines` ends a line; "\r\n" ends one line.
is_break : ℕ → Bool
is_break c =
    (leb 10 c && leb c 13) || (leb 28 c && leb c 30) || c == 0x85 || c == 0x2028 || c == 0x2029

is_newline : String → Bool
is_newline String.[] = false
is_newline (String.◌∷◌ c s) = code c == 10

push_char : String → List String → List String
push_char c [] = c ∷ []
push_char c (l ∷ ls) = (c ++ l) ∷ ls

-- `s.splitlines()`
unfoldable pub splitlines : String → List String
unfolding is_break is_newline push_char
splitlines String.[] = []
splitlines (String.◌∷◌ c s) =
    let rest = splitlines s in
    if code c == 13 && is_newline s
    then rest
    else if is_break (code c)
    then "" ∷ rest
    else push_char (String.◌∷◌ c String.[]) rest
