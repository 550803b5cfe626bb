-- ===== src/Modes/Protocol.antt =====
-- engine/modes/native.py: the messages that follow a call of the model.
use argus_agent.Base.{String, true, Option, none, some, List, [], ◌∷◌, ◌≡◌, refl, subst, sym}
use argus_agent.Base.Json.{Json, Fields, Items}
use argus_agent.Base.Result.{Result, ok, err, ok_eq}
use argus_agent.Loop.Echo.{lookup}
use argus_agent.Modes.{
  LoadError, malformed, other_error, ToolCall, tool_call, ModelResponse, Library,
}
use argus_agent.Modes.Native.{
  acted, act_on, first_call, from_calls, matching, first_of, content_or_null, get_or,
  tool_result_messages,
}
use argus_agent.Modes.Native

-- The assistant's message with the one call `tc`, and the tool's message for that call.
abbrev exchange : ModelResponse → Fields → String → List Json
exchange resp tc result =
    Json.object (
      Fields.field "role" (Json.text "assistant") (
        Fields.field "content" (content_or_null resp) (
          Fields.field "tool_calls" (Json.array (Items.cons (Json.object tc) Items.nil))
            Fields.end)))
    ∷ Json.object (
        Fields.field "role" (Json.text "tool") (
          Fields.field "tool_call_id" (get_or Json.null "id" tc)
            (Fields.field "content" (Json.text result) Fields.end)))
    ∷ []

call_id_eq : {c d : ToolCall} → tool_call c ≡ tool_call d → c.call_id ≡ d.call_id
call_id_eq h = cc

acted-call_id :
    (lib : Library) (tc : Fields) (name raw : Json) (r : Result LoadError Json) (c : ToolCall)
    → acted lib tc name raw r ≡ ok (tool_call c)
    → c.call_id ≡ get_or Json.null "id" tc
unfolding acted
acted-call_id lib tc name raw (err (malformed e)) c h = cc
acted-call_id lib tc name raw (err (other_error e)) c h = cc
acted-call_id lib tc name raw (ok (Json.object o)) c h = sym (call_id_eq (ok_eq h))
acted-call_id lib tc name raw (ok Json.null) c h = cc
acted-call_id lib tc name raw (ok (Json.bool b)) c h = cc
acted-call_id lib tc name raw (ok (Json.number n)) c h = cc
acted-call_id lib tc name raw (ok (Json.text s)) c h = cc
acted-call_id lib tc name raw (ok (Json.array xs)) c h = cc

act_on-call_id :
    (lib : Library) (tc : Fields) (fn : Option Json) (c : ToolCall)
    → act_on lib tc fn ≡ ok (tool_call c)
    → c.call_id ≡ get_or Json.null "id" tc
unfolding act_on
act_on-call_id lib tc none c h = acted-call_id lib tc _ _ _ c h
act_on-call_id lib tc (some (Json.object fn)) c h = acted-call_id lib tc _ _ _ c h
act_on-call_id lib tc (some Json.null) c h = cc
act_on-call_id lib tc (some (Json.bool b)) c h = cc
act_on-call_id lib tc (some (Json.number n)) c h = cc
act_on-call_id lib tc (some (Json.text s)) c h = cc
act_on-call_id lib tc (some (Json.array xs)) c h = cc

-- Where equality is reflexive, the call that is echoed after a result is the one that the mode acted
-- on, the first of the reply; it stands alone, and the result carries its id.
tool_result_messages-parse_response :
    (lib : Library) (resp : ModelResponse) (c : ToolCall) (tc : Fields) (tcs : List Fields)
    (result : String)
    → ((j : Json) → lib.equal j j ≡ true)
    → resp.tool_calls ≡ tc ∷ tcs
    → Native.parse_response lib resp ≡ ok (tool_call c)
    → tool_result_messages lib resp c result ≡ exchange resp tc result
unfolding Native.parse_response from_calls first_call tool_result_messages matching first_of
tool_result_messages-parse_response lib resp c tc tcs result same calls h =
    let id =
      act_on-call_id lib tc (lookup "function" tc) c
        (subst (λ l. from_calls lib resp l ≡ ok (tool_call c)) calls h) in
    rw (calls, id, same (get_or Json.null "id" tc)) refl
