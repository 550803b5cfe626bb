-- ===== src/Steering/Spliced.antt =====
-- engine/steering.py: what `apply` leaves as it was.
use argus_agent.Base.{
  zero, String, Bool, true, false, not, Option, none, some, List, [], ◌∷◌, ◌++◌, ◌==◌, nat_eq,
  string_eq, ◌≡◌, arith, refl, ap, some_eq, each_of, Bool-cases, inl, inr, if◌then◌else◌,
}
use argus_agent.Base.Dict.{map_option}
use argus_agent.Base.Json.{Json, Fields}
use argus_agent.Loop.Echo.{lookup, starts_with, contains}
use argus_agent.Modes.{Request}
use argus_agent.Steering.{Channel}
use argus_agent.Steering.Secret.{
  replaced, replace, with_value, on_text, id_text, spliced, content_for, message_for, messages_for,
  apply,
}

replaced-absent : (old new s : String) → contains s old ≡ false → replaced old new zero s ≡ s
unfolding replaced contains
replaced-absent old new String.[] h = refl
replaced-absent old new (String.◌∷◌ c s) h = elim (Bool-cases (starts_with (String.◌∷◌ c s) old)) [
  | inl e ↦ cc
  | inr e ↦ rw e (ap (λ t. String.◌∷◌ c t) (replaced-absent old new s (ground (arith, h))))
]

-- No sentinel of the channel stands behind `id=` in the text.
unfoldable pub is_unissued : List String → String → Bool
unfolding id_text contains
is_unissued slots text = each_of (λ s. not (contains text (id_text s))) slots

spliced-is_unissued :
    (nonce : String) (slots : List String) (text : String)
    → is_unissued slots text ≡ true
    → spliced nonce slots text ≡ text
unfolding spliced is_unissued replace
spliced-is_unissued nonce [] text h = refl
spliced-is_unissued nonce (s ∷ slots) text h =
    rw (replaced-absent (id_text s) (id_text nonce) text (ground (arith, h)))
      (spliced-is_unissued nonce slots text (ground (arith, h)))

content_for-is_unissued :
    (c : Channel) (text : String)
    → is_unissued c.slots text ≡ true
    → content_for c false text ≡ text
unfolding content_for
content_for-is_unissued c text h = ground (arith, spliced-is_unissued c.nonce c.slots text h)

picked :
    (f : Json → Json) (k : String) (b : Bool) (j : String) (x : Json) (m : Fields)
    → map_option f (if b then some x else lookup k m) ≡ (if b then some x else lookup k m)
    → (map_option f (lookup k m) ≡ lookup k m → with_value f k m ≡ m)
    → (if b then Fields.field j (f x) m else Fields.field j x (with_value f k m))
      ≡ Fields.field j x m
picked f k true j x m h rest = ap (λ y. Fields.field j y m) (some_eq h)
picked f k false j x m h rest = ap (Fields.field j x) (rest h)

with_value-same :
    (f : Json → Json) (k : String) (m : Fields)
    → map_option f (lookup k m) ≡ lookup k m
    → with_value f k m ≡ m
unfolding with_value lookup
with_value-same f k Fields.end h = refl
with_value-same f k (Fields.field j x m) h = picked f k (j == k) j x m h (with_value-same f k m)

-- The content of a message, if it is a text, is unissued.
unfoldable pub has_unissued : List String → Option Json → Bool
unfolding is_unissued
has_unissued slots (some (Json.text s)) = is_unissued slots s
has_unissued slots _ = true

unfoldable pub is_foreign : List String → Json → Bool
unfolding has_unissued lookup
is_foreign slots (Json.object m) = has_unissued slots (lookup "content" m)
is_foreign slots _ = true

on_text-same :
    (c : Channel) (o : Option Json)
    → has_unissued c.slots o ≡ true
    → map_option (on_text (content_for c false)) o ≡ o
unfolding on_text has_unissued
on_text-same c none h = refl
on_text-same c (some (Json.text s)) h = rw (content_for-is_unissued c s h) refl
on_text-same c (some Json.null) h = refl
on_text-same c (some (Json.bool b)) h = refl
on_text-same c (some (Json.number n)) h = refl
on_text-same c (some (Json.array xs)) h = refl
on_text-same c (some (Json.object m)) h = refl

message_for-is_foreign :
    (c : Channel) (m : Json) → is_foreign c.slots m ≡ true → message_for c false m ≡ m
unfolding message_for is_foreign
message_for-is_foreign c (Json.object m) h = ap Json.object (
    with_value-same (on_text (content_for c false)) "content" m
      (on_text-same c (lookup "content" m) h))
message_for-is_foreign c Json.null h = refl
message_for-is_foreign c (Json.bool b) h = refl
message_for-is_foreign c (Json.number n) h = refl
message_for-is_foreign c (Json.text s) h = refl
message_for-is_foreign c (Json.array xs) h = refl

messages_for-append :
    (c : Channel) (before after : List Json)
    → messages_for c false (before ++ after)
      ≡ messages_for c false before ++ messages_for c false after
unfolding messages_for
messages_for-append c [] after = refl
messages_for-append c (m ∷ before) after =
    ap (λ ms. message_for c false m ∷ ms) (messages_for-append c before after)

-- Behind the first message, `apply` leaves a message as it was, and in its place, if no sentinel that
-- the channel issued stands behind `id=` in its content, whatever the other messages hold.
pub apply-is_foreign :
    (c : Channel) (req : Request) (first m : Json) (before after : List Json)
    → req.messages ≡ first ∷ (before ++ (m ∷ after))
    → is_foreign c.slots m ≡ true
    → (apply c req).messages
      ≡ message_for c true first ∷ (messages_for c false before ++ (m ∷ messages_for c false after))
unfolding apply messages_for
apply-is_foreign c req first m before after e h =
    rw e (rw (messages_for-append c before (m ∷ after)) (rw (message_for-is_foreign c m h) refl))
