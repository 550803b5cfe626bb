-- ===== src/Modes/Markup.antt =====
-- engine/modes/native.py: `looks_like_dropped_tool_call` and its regular expressions.
use argus_agent.Base.{
  ℕ, ◌+◌, String, Bool, true, false, not, ◌&&◌, ◌||◌, Option, none, some, List, [], ◌∷◌, ◌==◌,
  nat_eq, string_eq, keep, some_of, leb, if◌then◌else◌,
}
use argus_agent.Base.Text
use argus_agent.Loop.Echo.{starts_with, contains, text_drop}
use argus_agent.Modes.{Library}
use Prim.Native.Char.{code}

-- The alternatives of `_MARKUP_RE` that end in `\b`, and the others.
abbrev pub tags : List String
tags =
    "<tool_call" ∷ "</tool_call" ∷ "<tool_code" ∷ "</tool_code" ∷ "<invoke" ∷ "</invoke"
    ∷ "<model_thinking" ∷ []

abbrev pub marks : List String
marks = "[TOOL_CALLS]" ∷ "<|python_tag|>" ∷ "<|tool_call" ∷ "<｜tool▁call" ∷ "```tool_code" ∷ []

-- `\b` after a letter: no letter, digit or underscore follows.
unfoldable pub ends_word : Library → String → Bool
ends_word lib String.[] = true
ends_word lib (String.◌∷◌ c s) = not (lib.is_alnum (code c) || code c == b'_')

unfoldable pub opens_tag : Library → String → String → Bool
unfolding starts_with ends_word text_drop
opens_tag lib s tag = starts_with s tag && ends_word lib (text_drop (Text.length tag) s)

unfoldable pub has_tag : Library → String → String → Bool
unfolding opens_tag
has_tag lib String.[] tag = opens_tag lib String.[] tag
has_tag lib (String.◌∷◌ c s) tag = opens_tag lib (String.◌∷◌ c s) tag || has_tag lib s tag

-- `_MARKUP_RE.search(text)`
unfoldable pub has_markup : Library → String → Bool
unfolding has_tag contains
has_markup lib text = some_of (has_tag lib text) tags || some_of (contains text) marks

-- What `re.IGNORECASE` takes for the letters of `think`.
abbrev fold : ℕ → ℕ
fold c =
    if leb b'A' c && leb c b'Z'
    then c + 32
    else if c == 0x212a
    then b'k'
    else if c == 0x130 || c == 0x131
    then b'i'
    else c

unfoldable pub starts_folded : String → String → Bool
starts_folded s String.[] = true
starts_folded String.[] (String.◌∷◌ d t) = false
starts_folded (String.◌∷◌ c s) (String.◌∷◌ d t) = fold (code c) == code d && starts_folded s t

-- `\s*>`
unfoldable pub closes : String → Bool
unfolding Text.is_space
closes String.[] = false
closes (String.◌∷◌ c s) = let rest = closes s in code c == b'>' || (Text.is_space (code c) && rest)

unfoldable pub is_think_close : String → Bool
unfolding starts_folded text_drop closes
is_think_close s = starts_folded s "</think" && closes (text_drop 7 s)

-- `len(_THINK_CLOSE_RE.findall(text))`: two matches share no character, as each has one `<`.
unfoldable pub think_closes : String → ℕ
unfolding is_think_close
think_closes String.[] = 0
think_closes (String.◌∷◌ c s) =
    let rest = think_closes s in
    if is_think_close (String.◌∷◌ c s) then Prim.Native.Nat.suc rest else rest

abbrev is_letter : ℕ → Bool
is_letter c = (leb b'A' c && leb c b'Z') || (leb b'a' c && leb c b'z') || c == b'_'

-- `[A-Za-z_][A-Za-z0-9_]*`: what follows the longest name in front.
after_letters : String → String
after_letters String.[] = String.[]
after_letters (String.◌∷◌ c s) =
    if is_letter (code c) || (leb b'0' (code c) && leb (code c) b'9')
    then after_letters s
    else String.◌∷◌ c s

after_name : String → Option String
unfolding after_letters
after_name String.[] = none
after_name (String.◌∷◌ c s) = if is_letter (code c) then some (after_letters s) else none

unfoldable pub after_blanks : String → String
after_blanks String.[] = String.[]
after_blanks (String.◌∷◌ c s) =
    if code c == 32 || code c == 9 then after_blanks s else String.◌∷◌ c s

-- `\s*=` after the name of the argument.
has_argument : String → Bool
unfolding after_name Text.lstrip starts_with
has_argument s = elim (after_name (Text.lstrip s)) [
  | none ↦ false
  | some rest ↦ starts_with (Text.lstrip rest) "="
]

-- `_BARE_CALL_RE.search(line)`: `^` stands only at the start of a single line.
pub is_bare_call : String → Bool
unfolding after_name after_blanks has_argument starts_with
is_bare_call line = elim (after_name (after_blanks line)) [
  | none ↦ false
  | some rest ↦ starts_with rest "(" && has_argument (text_drop 1 rest)
]

last_of : String → List String → String
last_of l [] = l
last_of l (m ∷ ms) = last_of m ms

ends_in_call : List String → Bool
unfolding is_bare_call last_of
ends_in_call [] = false
ends_in_call (l ∷ ls) = is_bare_call (last_of l ls)

unfoldable pub looks_like_dropped_tool_call : Library → String → Bool
unfolding has_markup think_closes ends_in_call Text.splitlines Text.is_blank
looks_like_dropped_tool_call lib text =
    has_markup lib text
    || leb 3 (think_closes text)
    || (leb 1 (think_closes text)
        && ends_in_call (keep (λ l. not (Text.is_blank l)) (Text.splitlines text)))
