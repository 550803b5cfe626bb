-- ===== src/Steering/Hidden.antt =====
-- engine/steering.py: no reply that was scrubbed holds the nonce of its run.
use argus_agent.Base.{
  zero, ◌≤◌, String, Bool, true, false, not, Option, none, some, List, [], ◌∷◌, map, ◌==◌, nat_eq,
  string_eq, ◌≡◌, refl, Bool-cases, inl, inr, All,
}
use argus_agent.Base.Json.{Json, Fields}
use argus_agent.Base.Dict.{map_option}
use argus_agent.Base.Text
use argus_agent.Loop.Echo.{lookup, contains}
use argus_agent.Modes.{ModelResponse}
use argus_agent.Steering.{Channel}
use argus_agent.Steering.Replaced.{all_hex, contains-replaced}
use argus_agent.Steering.Secret.{
  replace, scrub, with_value, on_text, scrub_function, scrub_call, scrub_option, scrub_response,
}

-- No text that `scrub` returns holds the nonce.
scrub-hides :
    (c : Channel) (text : String)
    → all_hex c.nonce ≡ true
    → 5 ≤ Text.length c.nonce
    → contains (scrub c text) c.nonce ≡ false
unfolding scrub replace
scrub-hides c text h long = contains-replaced c.nonce zero text h long

-- A text that is present does not hold `nonce`.
unfoldable pub hides : String → Option String → Bool
hides nonce none = true
hides nonce (some s) = not (contains s nonce)

-- The arguments of a raw call, if it has any.
unfoldable pub arguments_in : Option Json → Option Json
unfolding lookup
arguments_in (some (Json.object fn)) = lookup "arguments" fn
arguments_in _ = none

unfoldable pub arguments_of : Fields → Option Json
unfolding arguments_in lookup
arguments_of tc = arguments_in (lookup "function" tc)

unfoldable pub is_text : Option Json → Bool
is_text none = true
is_text (some (Json.text s)) = true
is_text (some _) = false

-- Arguments that are no text are not taken for hidden.
unfoldable pub hides_json : String → Option Json → Bool
hides_json nonce none = true
hides_json nonce (some (Json.text s)) = not (contains s nonce)
hides_json nonce (some _) = false

-- The nonce is nowhere in the content, the reasoning and the arguments of the calls.
pub record IsHidden (nonce : String) (resp : ModelResponse) : Type 0 where
  pub in_content : hides nonce resp.content ≡ true
  pub in_reasoning : hides nonce resp.reasoning ≡ true
  pub in_arguments : All (λ tc. hides_json nonce (arguments_of tc) ≡ true) resp.tool_calls

lookup-with_value :
    (f : Json → Json) (k : String) (m : Fields)
    → lookup k (with_value f k m) ≡ map_option f (lookup k m)
unfolding lookup with_value
lookup-with_value f k Fields.end = refl
lookup-with_value f k (Fields.field j x m) = elim (Bool-cases (j == k)) [
  | inl e ↦ rw e (rw e refl)
  | inr e ↦ rw e (rw e (lookup-with_value f k m))
]

module _ (c : Channel) (h : all_hex c.nonce ≡ true) (long : 5 ≤ Text.length c.nonce) where
  hides-scrub_option : (o : Option String) → hides c.nonce (scrub_option c o) ≡ true
  unfolding scrub_option hides
  hides-scrub_option none = refl
  hides-scrub_option (some s) = rw (scrub-hides c s h long) refl

  hides-on_text :
      (o : Option Json)
      → is_text o ≡ true
      → hides_json c.nonce (map_option (on_text (scrub c)) o) ≡ true
  unfolding is_text on_text hides_json
  hides-on_text (some (Json.text s)) e = rw (scrub-hides c s h long) refl
  hides-on_text none e = refl
  hides-on_text (some Json.null) e = e
  hides-on_text (some (Json.bool b)) e = e
  hides-on_text (some (Json.number n)) e = e
  hides-on_text (some (Json.array xs)) e = e
  hides-on_text (some (Json.object m)) e = e

  hides-scrub_function :
      (o : Option Json)
      → is_text (arguments_in o) ≡ true
      → hides_json c.nonce (arguments_in (map_option (scrub_function c) o)) ≡ true
  unfolding arguments_in scrub_function hides_json
  hides-scrub_function (some (Json.object fn)) e =
      rw (lookup-with_value (on_text (scrub c)) "arguments" fn)
        (hides-on_text (lookup "arguments" fn) e)
  hides-scrub_function none e = refl
  hides-scrub_function (some Json.null) e = refl
  hides-scrub_function (some (Json.bool b)) e = refl
  hides-scrub_function (some (Json.number n)) e = refl
  hides-scrub_function (some (Json.text s)) e = refl
  hides-scrub_function (some (Json.array xs)) e = refl

  hides-scrub_call :
      (calls : List Fields)
      → All (λ tc. is_text (arguments_of tc) ≡ true) calls
      → All (λ tc. hides_json c.nonce (arguments_of tc) ≡ true) (map (scrub_call c) calls)
  unfolding arguments_of scrub_call
  hides-scrub_call [] e = tt
  hides-scrub_call (tc ∷ calls) e = (
    rw (lookup-with_value (scrub_function c) "function" tc)
        (hides-scrub_function (lookup "function" tc) e.0),
    hides-scrub_call calls e.1,
  )

  -- If the nonce is made of hexadecimal digits, five at least, and the arguments of every call of a
  -- reply are a text or missing, the scrubbed reply holds the nonce nowhere in its content, its
  -- reasoning and the arguments of its calls.
  pub scrub_response-IsHidden :
      (resp : ModelResponse)
      → All (λ tc. is_text (arguments_of tc) ≡ true) resp.tool_calls
      → IsHidden c.nonce (scrub_response c resp)
  unfolding scrub_response
  scrub_response-IsHidden resp texts = record {
    in_content = hides-scrub_option resp.content;
    in_reasoning = hides-scrub_option resp.reasoning;
    in_arguments = hides-scrub_call resp.tool_calls texts;
  }
