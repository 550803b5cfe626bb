-- ===== src/Modes/Extract.antt =====
-- engine/modes/manual.py: `_strip_fences` and `_extract_first_json_object`.
use argus_agent.Base.{
  ℕ, suc, ◌-◌, String, Bool, false, ◌&&◌, Option, none, some, List, [], ◌∷◌, ◌==◌, nat_eq,
  if◌then◌else◌,
}
use argus_agent.Base.Text
use argus_agent.Loop.Echo.{starts_with}
use Prim.Native.Char.{Char, code}

unfoldable pub drop_opening : List String → List String
unfolding starts_with
drop_opening [] = []
drop_opening (l ∷ ls) = if starts_with l "```" then ls else l ∷ ls

-- The last line is left out if it is a fence.
unfoldable pub drop_closing : List String → List String
unfolding Text.strip starts_with
drop_closing [] = []
drop_closing (l ∷ []) = if starts_with (Text.strip l) "```" then [] else l ∷ []
drop_closing (l ∷ m ∷ ls) = l ∷ drop_closing (m ∷ ls)

unfoldable pub unfenced : String → String
unfolding starts_with Text.splitlines drop_opening drop_closing Text.join
unfenced t =
    if starts_with t "```"
    then Text.join "\n" (drop_closing (drop_opening (Text.splitlines t)))
    else t

unfoldable pub strip_fences : String → String
unfolding Text.strip unfenced
strip_fences text = Text.strip (unfenced (Text.strip text))

-- `in_str` and `esc`
pub data Place : Type 0 where
  plain quoted escaped : Place

unfoldable pub next_place : Place → ℕ → Place
next_place plain c = if c == b'"' then quoted else plain
next_place quoted c = if c == b'\\' then escaped else if c == b'"' then plain else quoted
next_place escaped c = quoted

unfoldable pub next_depth : Place → ℕ → ℕ → ℕ
next_depth plain c d = if c == b'{' then suc d else if c == b'}' then d - 1 else d
next_depth _ c d = d

-- A brace outside strings that brings the depth to 0 ends the object.
unfoldable pub is_end : Place → ℕ → ℕ → Bool
is_end plain c d = c == b'}' && d == 1
is_end _ c d = false

unfoldable pub in_front : Char → Option String → Option String
in_front c none = none
in_front c (some s) = some (String.◌∷◌ c s)

-- The text up to the brace that closes the object.
unfoldable pub scan : Place → ℕ → String → Option String
unfolding next_place next_depth is_end in_front
scan p d String.[] = none
scan p d (String.◌∷◌ c s) =
    let rest = scan (next_place p (code c)) (next_depth p (code c) d) s in
    if is_end p (code c) d then some (String.◌∷◌ c String.[]) else in_front c rest

-- The first balanced object: a brace that nothing closes is passed over.
unfoldable pub extract : String → Option String
unfolding scan
extract String.[] = none
extract (String.◌∷◌ c s) =
    let later = extract s in
    if code c == b'{'
    then elim (scan plain 0 (String.◌∷◌ c s)) [ none ↦ later | some found ↦ some found ]
    else later
