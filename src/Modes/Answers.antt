-- ===== src/Modes/Answers.antt =====
-- engine/modes/native.py: what an answer of the mode is.
use argus_agent.Base.{
  String, Bool, true, false, Option, none, some, List, [], ◌∷◌, ◌==◌, string_eq, ◌≡◌, ◌≢◌, arith,
  refl, sym, if◌then◌else◌,
}
use argus_agent.Base.Json.{Json, Fields}
use argus_agent.Base.Result.{Result, ok, err, ok_eq}
use argus_agent.Base.Text
use argus_agent.Loop.Echo.{lookup}
use argus_agent.Modes.{
  LoadError, malformed, other_error, ParseResult, tool_call, final_answer, parse_failure,
  ModelResponse, Library, content_or_empty,
}
use argus_agent.Modes.Native.{
  acted, act_on, first_call, answer_of, from_calls, decoded, raw_arguments, get_or,
}
use argus_agent.Modes.Markup.{looks_like_dropped_tool_call}
use argus_agent.Modes.Native
use argus_agent.Modes.Debris.{Debris, Debris-looks_like_dropped_tool_call}

-- What a mode may hand on as the answer `t`.
pub record IsAnswer (lib : Library) (resp : ModelResponse) (t : String) : Type 0 where
  pub no_calls : resp.tool_calls ≡ []
  pub is_content : t ≡ Text.strip (content_or_empty resp)
  pub not_blank : t ≢ ""
  pub no_debris : ¬ (Debris lib t)

unfoldable is_answer : ParseResult → Bool
is_answer (final_answer t) = true
is_answer (tool_call c) = false
is_answer (parse_failure reason raw) = false

answers : Result String ParseResult → Bool
unfolding is_answer
answers (ok p) = is_answer p
answers (err e) = false

acted-answers :
    (lib : Library) (tc : Fields) (name raw : Json) (r : Result LoadError Json)
    → answers (acted lib tc name raw r) ≡ false
unfolding acted is_answer answers
acted-answers lib tc name raw (err (malformed e)) = refl
acted-answers lib tc name raw (err (other_error e)) = refl
acted-answers lib tc name raw (ok (Json.object o)) = refl
acted-answers lib tc name raw (ok Json.null) = refl
acted-answers lib tc name raw (ok (Json.bool b)) = refl
acted-answers lib tc name raw (ok (Json.number n)) = refl
acted-answers lib tc name raw (ok (Json.text s)) = refl
acted-answers lib tc name raw (ok (Json.array xs)) = refl

act_on-answers :
    (lib : Library) (tc : Fields) (fn : Option Json) → answers (act_on lib tc fn) ≡ false
unfolding act_on answers
act_on-answers lib tc none = acted-answers lib tc _ _ _
act_on-answers lib tc (some (Json.object fn)) = acted-answers lib tc _ _ _
act_on-answers lib tc (some Json.null) = refl
act_on-answers lib tc (some (Json.bool b)) = refl
act_on-answers lib tc (some (Json.number n)) = refl
act_on-answers lib tc (some (Json.text s)) = refl
act_on-answers lib tc (some (Json.array xs)) = refl

chosen :
    (blank dropped : Bool) (s t a b c d : String)
    → (if blank then parse_failure a b else if dropped then parse_failure c d else final_answer s)
      ≡ final_answer t
    → (blank ≡ false) × (dropped ≡ false) × (t ≡ s)
chosen true dropped s t a b c d h = cc
chosen false true s t a b c d h = cc
chosen false false s t a b c d h = (refl, refl, sym (final_eq h))
  where
    final_eq : final_answer s ≡ final_answer t → s ≡ t
    final_eq g = cc

not_empty : (s : String) → (s == "") ≡ false → s ≢ ""
not_empty s h = ground (arith, string_eq.same_iff s "")

answer_of-final :
    (lib : Library) (content t : String)
    → answer_of lib content ≡ final_answer t
    → (t ≡ Text.strip content) × (t ≢ "") × (looks_like_dropped_tool_call lib t ≡ false)
unfolding answer_of
answer_of-final lib content t h =
    let (blank, dropped, e) =
      chosen (Text.strip content == "") (looks_like_dropped_tool_call lib (Text.strip content))
        (Text.strip content) t _ _ _ _ h in
    (e, rw e (not_empty _ blank), rw e dropped)

from_calls-IsAnswer :
    (lib : Library) (resp : ModelResponse) (calls : List Fields) (t : String)
    → resp.tool_calls ≡ calls
    → from_calls lib resp calls ≡ ok (final_answer t)
    → IsAnswer lib resp t
unfolding from_calls first_call answers is_answer
from_calls-IsAnswer lib resp [] t e h =
    let (stripped, filled, kept) = answer_of-final lib (content_or_empty resp) t (ok_eq h) in
    record {
      no_calls = e;
      is_content = stripped;
      not_blank = filled;
      no_debris = λ d. cc (Debris-looks_like_dropped_tool_call lib t d, kept);
    }
from_calls-IsAnswer lib resp (tc ∷ tcs) t e h = cc (act_on-answers lib tc (lookup "function" tc), h)

-- An answer of the native mode is the stripped content of a reply without tool calls; it is not
-- empty, and it holds no markup of a call: no delimiter, no tag with its name ended, and no three
-- `</think>`.
pub native-IsAnswer :
    (lib : Library) (resp : ModelResponse) (t : String)
    → Native.parse_response lib resp ≡ ok (final_answer t)
    → IsAnswer lib resp t
unfolding Native.parse_response
native-IsAnswer lib resp t h = from_calls-IsAnswer lib resp resp.tool_calls t refl h
