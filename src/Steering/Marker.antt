-- ===== src/Steering/Marker.antt =====
-- engine/steering.py: `_MARKER_RE` and `SteerChannel.inspect`. Of the library only `isalnum` is used.
use argus_agent.Base.{
  String, Bool, ◌&&◌, ◌||◌, Option, none, some, List, [], ◌∷◌, ◌++◌, ◌==◌, nat_eq, string_eq, leb,
  elem, if◌then◌else◌,
}
use argus_agent.Base.Text
use argus_agent.Loop.Echo.{starts_with, text_drop}
use argus_agent.Modes.{Library}
use argus_agent.Modes.Markup.{ends_word, after_blanks}
use argus_agent.Steering.{Channel}
use Prim.Native.Char.{Char, code}

-- `[A-Za-z0-9_-]`
abbrev pub is_id_char : Char → Bool
is_id_char c =
    (leb b'A' (code c) && leb (code c) b'Z')
    || (leb b'a' (code c) && leb (code c) b'z')
    || (leb b'0' (code c) && leb (code c) b'9')
    || code c == b'_'
    || code c == b'-'

-- The characters of an id in front, and what follows them.
unfoldable pub id_in : String → String
id_in String.[] = String.[]
id_in (String.◌∷◌ c s) = let rest = id_in s in if is_id_char c then String.◌∷◌ c rest else String.[]

unfoldable pub after_id : String → String
after_id String.[] = String.[]
after_id (String.◌∷◌ c s) = if is_id_char c then after_id s else String.◌∷◌ c s

unfoldable pub closed_id : String → Option String
unfolding id_in after_id after_blanks starts_with
closed_id s =
    if leb 1 (Text.length (id_in s))
      && leb (Text.length (id_in s)) 64
      && starts_with (after_blanks (after_id s)) ">>>"
    then some (id_in s)
    else none

-- After the blanks behind the name: an id, or the end of a marker without one.
unfoldable pub id_at : String → Option String
unfolding closed_id starts_with text_drop
id_at s =
    if starts_with s "id="
    then closed_id (text_drop 3 s)
    else if starts_with s ">>>"
    then some ""
    else none

unfoldable pub without_end : String → String
unfolding starts_with text_drop
without_end s = if starts_with s "END_" then text_drop 4 s else s

unfoldable pub named_at : Library → String → Option String
unfolding id_at ends_word after_blanks starts_with text_drop
named_at lib s =
    if starts_with s "USER_STEER" && ends_word lib (text_drop 10 s)
    then id_at (after_blanks (text_drop 10 s))
    else none

-- The id of the marker at the front of a text.
unfoldable pub marker_at : Library → String → Option String
unfolding named_at without_end Text.lstrip starts_with text_drop
marker_at lib s =
    if starts_with s "<<<" then named_at lib (without_end (Text.lstrip (text_drop 3 s))) else none

unfoldable pub with_id : Option String → List String → List String
with_id none ids = ids
with_id (some id) ids = id ∷ ids

-- `_MARKER_RE.finditer(text)`: two matches share no character, as `<` stands only at their fronts.
unfoldable pub ids_of : Library → String → List String
unfolding marker_at with_id
ids_of lib String.[] = []
ids_of lib (String.◌∷◌ c s) =
    let rest = ids_of lib s in with_id (marker_at lib (String.◌∷◌ c s)) rest

unfoldable pub unissued : List String → List String → List String → List String
unissued slots [] found = found
unissued slots (id ∷ ids) found =
    unissued slots ids (if elem id slots || elem id found then found else found ++ (id ∷ []))

unfoldable pub inspect : Library → Channel → String → List String
unfolding ids_of unissued
inspect lib c text = unissued c.slots (ids_of lib text) []
