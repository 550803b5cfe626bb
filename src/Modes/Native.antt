-- ===== src/Modes/Native.antt =====
-- engine/modes/native.py: `NativeMode`.
use argus_agent.Base.{
  String, false, Option, none, some, List, [], ◌∷◌, ◌==◌, nat_eq, string_eq, if◌then◌else◌,
}
use argus_agent.Base.Json.{Json, Items, Fields, is_truthy}
use argus_agent.Base.Result.{Result, ok, err}
use argus_agent.Base.Text
use argus_agent.Loop.Echo.{joined, lookup, message}
use argus_agent.Tools.{Registry, openai_schema}
use argus_agent.Modes.Markup.{looks_like_dropped_tool_call}
use argus_agent.Modes.{
  LoadError, malformed, other_error, ToolCall, ParseResult, tool_call, final_answer, parse_failure,
  ModelResponse, Request, Library, content_or_empty,
}

abbrev pub native_system : String
native_system =
    "You are a helpful assistant with access to tools. Use a tool when it helps answer the user's request; otherwise answer directly. When you have the final answer, reply normally with that answer."

abbrev pub dropped_reason : String
dropped_reason =
    "the provider returned no tool calls, but the reply is raw tool-call markup — the tool call was not understood"

module _ {V : Type 0} where
  pub build_request : String → List Json → Registry V → Request
  unfolding Text.strip openai_schema
  build_request system_prompt conversation registry = record {
    messages =
        message "system" (
          Json.text
            (if Text.strip system_prompt == "" then native_system else Text.strip system_prompt))
        ∷ conversation;
    tools = some (openai_schema registry);
    tool_choice = none;
  }

-- `tc.get(k, default)`
abbrev pub get_or : Json → String → Fields → Json
get_or default k m = elim (lookup k m) [ none ↦ default | some x ↦ x ]

-- `fn.get("arguments", "") or "{}"`
unfoldable pub raw_arguments : Fields → Json
unfolding lookup is_truthy
raw_arguments fn =
    if is_truthy (get_or (Json.text "") "arguments" fn)
    then get_or (Json.text "") "arguments" fn
    else Json.text "{}"

-- A text is decoded; another value is taken as it is.
unfoldable pub decoded : Library → Json → Result LoadError Json
decoded lib (Json.text s) = lib.loads s
decoded lib other = ok other

unfoldable pub acted :
    Library → Fields → Json → Json → Result LoadError Json → Result String ParseResult
unfolding lookup
acted lib tc name raw (ok (Json.object args)) = ok (
    tool_call (record {
      tool = name;
      args = args;
      call_id = get_or Json.null "id" tc;
      raw = some raw;
      repaired = false;
    }))
acted lib tc name raw (ok _) =
    ok (parse_failure "tool arguments must be a JSON object" (lib.str_of raw))
acted lib tc name raw (err (malformed e)) =
    ok (parse_failure (joined ("tool arguments were not valid JSON: " ∷ e ∷ [])) (lib.str_of raw))
acted lib tc name raw (err (other_error e)) = err e

-- `fn.get` raises where the function of the call is no object.
unfoldable pub act_on : Library → Fields → Option Json → Result String ParseResult
unfolding raw_arguments decoded acted
act_on lib tc none =
    acted lib tc (Json.text "") (raw_arguments Fields.end) (decoded lib (raw_arguments Fields.end))
act_on lib tc (some (Json.object fn)) =
    acted lib tc (get_or (Json.text "") "name" fn) (raw_arguments fn)
      (decoded lib (raw_arguments fn))
act_on lib tc (some _) = err "object has no attribute 'get'"

unfoldable pub first_call : Library → Fields → Result String ParseResult
unfolding lookup act_on
first_call lib tc = act_on lib tc (lookup "function" tc)

unfoldable pub answer_of : Library → String → ParseResult
unfolding Text.strip looks_like_dropped_tool_call
answer_of lib content =
    if Text.strip content == ""
    then parse_failure "model returned neither content nor a tool call" ""
    else if looks_like_dropped_tool_call lib (Text.strip content)
    then parse_failure dropped_reason (Text.strip content)
    else final_answer (Text.strip content)

unfoldable pub from_calls : Library → ModelResponse → List Fields → Result String ParseResult
unfolding content_or_empty first_call answer_of
from_calls lib resp [] = ok (answer_of lib (content_or_empty resp))
from_calls lib resp (tc ∷ tcs) = first_call lib tc

unfoldable pub parse_response : Library → ModelResponse → Result String ParseResult
unfolding from_calls
parse_response lib resp = from_calls lib resp resp.tool_calls

-- The raw call with the id, or else `first`.
unfoldable pub matching : Library → Json → Option Fields → List Fields → Option Fields
unfolding lookup
matching lib call_id first [] = first
matching lib call_id first (tc ∷ tcs) =
    let later = matching lib call_id first tcs in
    if lib.equal (get_or Json.null "id" tc) call_id then some tc else later

unfoldable pub first_of : List Fields → Option Fields
first_of [] = none
first_of (tc ∷ tcs) = some tc

-- `resp.content or None`
unfoldable pub content_or_null : ModelResponse → Json
unfolding content_or_empty
content_or_null resp =
    if content_or_empty resp == "" then Json.null else Json.text (content_or_empty resp)

unfoldable pub tool_result_messages : Library → ModelResponse → ToolCall → String → List Json
unfolding matching first_of content_or_null
tool_result_messages lib resp call result =
    Json.object (
      Fields.field "role" (Json.text "assistant") (
        Fields.field "content" (content_or_null resp)
          (elim (matching lib call.call_id (first_of resp.tool_calls) resp.tool_calls) [
            | none ↦ Fields.end
            | some tc ↦
                Fields.field "tool_calls" (Json.array (Items.cons (Json.object tc) Items.nil))
                  Fields.end
          ])))
    ∷ Json.object (
        Fields.field "role" (Json.text "tool") (
          Fields.field "tool_call_id" call.call_id
            (Fields.field "content" (Json.text result) Fields.end)))
    ∷ []

pub reprompt_messages : ModelResponse → String → List Json
unfolding content_or_empty
reprompt_messages resp reason =
    if reason == dropped_reason
    then message "user" (
        Json.text
          "[note] Your last message contained tool-call markup as plain text, so no tool ran and nothing was shown to the user. Do not write tool syntax in your message. Either issue a real tool call through the tool-calling interface, or reply with the answer in plain prose.")
      ∷ []
    else message "assistant" (Json.text (content_or_empty resp))
      ∷ message "user"
          (Json.text (joined ("That didn't work: " ∷ reason ∷ ". Please try again." ∷ [])))
      ∷ []
