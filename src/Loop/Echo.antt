-- ===== src/Loop/Echo.antt =====
-- engine/loop.py: `_with_unechoed`, `_last_user_text`, and the messages that the loop appends.
use argus_agent.Base.{
  ℕ, zero, suc, ◌/◌, ◌%◌, String, Bool, true, false, not, ◌&&◌, ◌||◌, Option, none, some, List, [],
  ◌∷◌, map, ◌==◌, nat_eq, string_eq, pair_eq, keep, some_of, if◌then◌else◌, ltb,
}
use argus_agent.Base.Json.{Json, Items, Fields}
use argus_agent.Base.Text
use Prim.Native.Char.{code}
use Prim.Native.String.{◌++◌ as text_append, char_at}

unfoldable pub append : String → String → String
append s t = text_append s t

unfoldable pub joined : List String → String
unfolding append
joined [] = ""
joined (s ∷ ss) = append s (joined ss)

unfoldable pub starts_with : String → String → Bool
starts_with s String.[] = true
starts_with String.[] (String.◌∷◌ d t) = false
starts_with (String.◌∷◌ c s) (String.◌∷◌ d t) = code c == code d && starts_with s t

-- `part in s`
unfoldable pub contains : String → String → Bool
unfolding starts_with
contains String.[] part = starts_with String.[] part
contains (String.◌∷◌ c s) part = starts_with (String.◌∷◌ c s) part || contains s part

unfoldable pub text_drop : ℕ → String → String
text_drop zero s = s
text_drop (suc n) String.[] = String.[]
text_drop (suc n) (String.◌∷◌ c s) = text_drop n s

unfoldable pub text_take : ℕ → String → String
text_take zero s = String.[]
text_take (suc n) String.[] = String.[]
text_take (suc n) (String.◌∷◌ c s) = String.◌∷◌ c (text_take n s)

-- `str(result)[:400]`
unfoldable pub shortened : String → String
unfolding text_take
shortened s = text_take 400 s

-- The text before the first separator and the text after it.
cut : String → String → Option (String × String)
unfolding starts_with text_drop
cut sep String.[] = none
cut sep (String.◌∷◌ c s) =
    let later = cut sep s in
    if starts_with (String.◌∷◌ c s) sep
    then some (String.[], text_drop (Text.length sep) (String.◌∷◌ c s))
    else elim later [ none ↦ none | some p ↦ some (String.◌∷◌ c p.0, p.1) ]

-- `out.split("```")[1] if out.count("```") >= 2 else out`
fenced_body : String → String
unfolding cut
fenced_body out = elim (cut "```" out) [
  | none ↦ out
  | some p ↦ elim (cut "```" p.1) [ none ↦ out | some q ↦ q.0 ]
]

-- `max(ls, key=len)`: the first of the longest.
longest : String → List String → String
longest l [] = l
longest l (m ∷ ms) =
    let ahead = longest m ms in
    let stay = longest l ms in if ltb (Text.length l) (Text.length m) then ahead else stay

-- The most distinctive line of an output.
pub probe_of : String → Option String
unfolding Text.splitlines fenced_body longest
probe_of out = elim (keep (λ l. not (Text.is_blank l)) (Text.splitlines (fenced_body out))) [
  | [] ↦ none
  | l ∷ ls ↦ some (Text.strip (longest l ls))
]

missing_from : String → String → Bool
unfolding contains
missing_from answer out = elim (probe_of out) [
  | none ↦ false
  | some probe ↦ not (probe == "") && not (contains answer probe)
]

-- `"\n\n".join(ss)`
paragraphs : List String → String
paragraphs [] = ""
paragraphs (s ∷ []) = s
paragraphs (s ∷ t ∷ ss) = text_append s (text_append "\n\n" (paragraphs (t ∷ ss)))

pub with_unechoed : String → List String → String
unfolding missing_from paragraphs
with_unechoed answer echoed = elim (map Text.strip (keep (missing_from answer) echoed)) [
  | [] ↦ answer
  | s ∷ ss ↦
      Text.strip (text_append (Text.rstrip answer) (text_append "\n\n" (paragraphs (s ∷ ss))))
]

-- `{"role": role, "content": content}`
unfoldable pub message : String → Json → Json
message role content =
    Json.object (Fields.field "role" (Json.text role) (Fields.field "content" content Fields.end))

unfoldable pub lookup : String → Fields → Option Json
lookup k Fields.end = none
lookup k (Fields.field j x xs) = let rest = lookup k xs in if j == k then some x else rest

abbrev text_or_empty : Option Json → String
text_or_empty (some (Json.text s)) = s
text_or_empty _ = ""

is_user : Option Json → Bool
is_user (some (Json.text role)) = role == "user"
is_user _ = false

-- The content of the last message of the user, with the answer for the messages before.
last_user_from : String → List Json → String
unfolding is_user lookup
last_user_from found [] = found
last_user_from found (Json.object m ∷ ms) =
    let newer = last_user_from (text_or_empty (lookup "content" m)) ms in
    let same = last_user_from found ms in if is_user (lookup "role" m) then newer else same
last_user_from found (m ∷ ms) = last_user_from found ms

pub last_user_text : List Json → String
unfolding last_user_from
last_user_text conversation = last_user_from "" conversation

-- `_strip_old_images`: the parts that are images, and the text that is put in their place.
is_image : Json → Bool
unfolding lookup
is_image (Json.object m) = elim (lookup "type" m) [
  | some (Json.text kind) ↦ kind == "image_url"
  | _ ↦ false
]
is_image _ = false

has_image : Items → Bool
unfolding is_image
has_image Items.nil = false
has_image (Items.cons p ps) = is_image p || has_image ps

abbrev placeholder : Json
placeholder = Json.object (
    Fields.field "type" (Json.text "text")
      (Fields.field "text" (Json.text "[image omitted from history]") Fields.end))

without_images : Items → Items
unfolding is_image
without_images Items.nil = Items.cons placeholder Items.nil
without_images (Items.cons p ps) =
    let rest = without_images ps in if is_image p then rest else Items.cons p rest

-- `{**m, "content": kept}`
with_content : Json → Fields → Fields
with_content kept Fields.end = Fields.end
with_content kept (Fields.field k x xs) =
    if k == "content" then Fields.field k kept xs else Fields.field k x (with_content kept xs)

strip_message : Json → Json
unfolding has_image without_images with_content lookup
strip_message (Json.object m) = elim (lookup "content" m) [
  | some (Json.array parts) ↦
      if has_image parts
      then Json.object (with_content (Json.array (without_images parts)) m)
      else Json.object m
  | _ ↦ Json.object m
]
strip_message m = m

is_user_message : Json → Bool
unfolding is_user lookup
is_user_message (Json.object m) = is_user (lookup "role" m)
is_user_message _ = false

-- Every message but the last one of the user.
pub strip_old_images : List Json → List Json
unfolding strip_message is_user_message
strip_old_images [] = []
strip_old_images (m ∷ ms) =
    let rest = strip_old_images ms in
    if is_user_message m && not (some_of is_user_message ms)
    then m ∷ rest
    else strip_message m ∷ rest

-- `str(n)`
digit : ℕ → String
digit d = String.◌∷◌ (char_at "0123456789" d) String.[]

decimal_from : ℕ → ℕ → String → String
unfolding digit
decimal_from zero n after = after
decimal_from (suc fuel) n after =
    let here = text_append (digit (n % 10)) after in
    let more = decimal_from fuel (n / 10) here in if ltb n 10 then here else more

pub decimal : ℕ → String
unfolding decimal_from
decimal n = decimal_from (suc n) n ""
