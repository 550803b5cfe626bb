-- ===== src/Modes/Finished.antt =====
-- engine/modes/native_finish.py: which calls reach the loop, and where an answer comes from.
use argus_agent.Base.{
  String, Bool, true, false, Option, none, some, string_eq, ◌≡◌, ◌≢◌, refl, ap, subst, ◌↔◌, ◌⊎◌,
  inl, inr, if◌then◌else◌,
}
use argus_agent.Base.Json.{Json}
use argus_agent.Base.Result.{ok, ok_eq, bind_ok}
use argus_agent.Loop.Echo.{lookup}
use argus_agent.Modes.{
  ToolCall, ParseResult, tool_call, final_answer, parse_failure, ModelResponse, Library,
}
use argus_agent.Modes.Native.{
  acted, act_on, first_call, answer_of, from_calls, decoded, raw_arguments, get_or,
}
use argus_agent.Modes.Native
use argus_agent.Modes.Finish.{answered, unwrap, is_final_name, is_final_call, finished}
use argus_agent.Modes.Finish
use argus_agent.Modes.Answers.{IsAnswer, native-IsAnswer}

text_eq : {s t : String} → Json.text s ≡ Json.text t → s ≡ t
text_eq h = cc

call_eq : {c d : ToolCall} → tool_call c ≡ tool_call d → c ≡ d
call_eq h = cc

final_eq : {s t : String} → final_answer s ≡ final_answer t → s ≡ t
final_eq h = cc

-- What the unwrapped call gives: an answer that is the text among its arguments, or a failure.
answered-call :
    (lib : Library) (raw found : Option Json) (c : ToolCall) → answered lib raw found ≢ tool_call c
unfolding answered
answered-call lib raw none c h = cc
answered-call lib raw (some (Json.text s)) c h = cc
answered-call lib raw (some Json.null) c h = cc
answered-call lib raw (some (Json.bool b)) c h = cc
answered-call lib raw (some (Json.number n)) c h = cc
answered-call lib raw (some (Json.array xs)) c h = cc
answered-call lib raw (some (Json.object m)) c h = cc

answered-final :
    (lib : Library) (raw found : Option Json) (t : String)
    → answered lib raw found ≡ final_answer t
    → found ≡ some (Json.text t)
unfolding answered
answered-final lib raw none t h = cc
answered-final lib raw (some (Json.text s)) t h = rw (final_eq h) refl
answered-final lib raw (some Json.null) t h = cc
answered-final lib raw (some (Json.bool b)) t h = cc
answered-final lib raw (some (Json.number n)) t h = cc
answered-final lib raw (some (Json.array xs)) t h = cc
answered-final lib raw (some (Json.object m)) t h = cc

is_final_name_iff : (j : Json) → (is_final_name j ≡ true) ↔ (j ≡ Json.text "final_answer")
unfolding is_final_name
is_final_name_iff (Json.text s) = (
  λ h. ap Json.text ((string_eq.same_iff s "final_answer").0 h),
  λ h. (string_eq.same_iff s "final_answer").1 (text_eq h),
)
is_final_name_iff Json.null = (λ h. cc, λ h. cc)
is_final_name_iff (Json.bool b) = (λ h. cc, λ h. cc)
is_final_name_iff (Json.number n) = (λ h. cc, λ h. cc)
is_final_name_iff (Json.array xs) = (λ h. cc, λ h. cc)
is_final_name_iff (Json.object m) = (λ h. cc, λ h. cc)

unwrap-call :
    (lib : Library) (c d : ToolCall) (b : Bool)
    → (if b then unwrap lib c else tool_call c) ≡ tool_call d
    → (b ≡ false) × (c ≡ d)
unfolding unwrap
unwrap-call lib c d true h = absurd (answered-call lib c.raw (lookup "answer" c.args) d h)
unwrap-call lib c d false h = (refl, call_eq h)

finished-call :
    (lib : Library) (p : ParseResult) (c : ToolCall)
    → finished lib p ≡ tool_call c
    → (p ≡ tool_call c) × (is_final_name c.tool ≡ false)
unfolding finished is_final_call
finished-call lib (tool_call d) c h =
    let (e, g) = unwrap-call lib d c (is_final_name d.tool) h in
    (ap tool_call g, subst (λ u. is_final_name u.tool ≡ false) g e)
finished-call lib (final_answer t) c h = cc
finished-call lib (parse_failure x y) c h = cc

-- A call that the native finish mode hands on is the call of the native mode, and never one of the
-- tool `final_answer`.
pub finish-tool_call :
    (lib : Library) (resp : ModelResponse) (c : ToolCall)
    → Finish.parse_response lib resp ≡ ok (tool_call c)
    → (Native.parse_response lib resp ≡ ok (tool_call c)) × (c.tool ≢ Json.text "final_answer")
unfolding Finish.parse_response
finish-tool_call lib resp c h =
    let (p, (e, g)) =
      bind_ok (Native.parse_response lib resp) (λ q. ok (finished lib q)) (tool_call c) h in
    let (same, other) = finished-call lib p c (ok_eq g) in
    (rw e (ap ok same), λ final. cc ((is_final_name_iff c.tool).1 final, other))

unwrap-final :
    (lib : Library) (c : ToolCall) (t : String) (b : Bool)
    → (if b then unwrap lib c else tool_call c) ≡ final_answer t
    → (b ≡ true) × (lookup "answer" c.args ≡ some (Json.text t))
unfolding unwrap
unwrap-final lib c t true h = (refl, answered-final lib c.raw (lookup "answer" c.args) t h)
unwrap-final lib c t false h = cc

finished-final :
    (lib : Library) (p : ParseResult) (t : String)
    → finished lib p ≡ final_answer t
    → (p ≡ final_answer t)
      ⊎ ((c : ToolCall) × (p ≡ tool_call c)
          × (c.tool ≡ Json.text "final_answer")
          × (lookup "answer" c.args ≡ some (Json.text t)))
unfolding finished is_final_call unwrap
finished-final lib (tool_call c) t h =
    let (e, g) = unwrap-final lib c t (is_final_name c.tool) h in
    inr (c, refl, (is_final_name_iff c.tool).0 e, g)
finished-final lib (final_answer s) t h = inl h
finished-final lib (parse_failure x y) t h = cc

-- An answer of the native finish mode is one of the native mode, or the text that a call of
-- `final_answer` has for its `answer`.
finish-final_answer :
    (lib : Library) (resp : ModelResponse) (t : String)
    → Finish.parse_response lib resp ≡ ok (final_answer t)
    → IsAnswer lib resp t
      ⊎ ((c : ToolCall) × (Native.parse_response lib resp ≡ ok (tool_call c))
          × (c.tool ≡ Json.text "final_answer")
          × (lookup "answer" c.args ≡ some (Json.text t)))
unfolding Finish.parse_response
finish-final_answer lib resp t h =
    let (p, (e, g)) =
      bind_ok (Native.parse_response lib resp) (λ q. ok (finished lib q)) (final_answer t) h in
    elim (finished-final lib p t (ok_eq g)) [
      | inl same ↦ inl (native-IsAnswer lib resp t (rw e (ap ok same)))
      | inr (c, call, name, found) ↦ inr (c, rw e (ap ok call), name, found)
    ]
