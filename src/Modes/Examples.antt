-- ===== src/Modes/Examples.antt =====
-- Replies of a model on which the theorems about the modes apply.
use argus_agent.Base.{
  String, Bool, true, false, ◌&&◌, none, some, List, [], ◌∷◌, ◌==◌, nat_eq, string_eq, leb, ◌≡◌,
  ◌≢◌, refl, if◌then◌else◌, ◌↔◌, ◌⊎◌,
}
use argus_agent.Base.Json.{Json, Fields, Items}
use argus_agent.Base.Result.{Result, ok, err}
use argus_agent.Base.Text
use argus_agent.Loop.Echo.{contains}
use argus_agent.Modes.{
  LoadError, malformed, ToolCall, tool_call, ModelResponse, Library, content_or_empty,
}
use argus_agent.Modes.Balanced.{Body, finish, quote, close, raw, object_text}
use argus_agent.Modes.Manual
use argus_agent.Modes.Manual.{interpret, by_field, by_action, of_candidate, decoded}
use argus_agent.Modes.Native
use argus_agent.Modes.Native.{
  answer_of, from_calls, first_call, act_on, acted, raw_arguments, tool_result_messages,
}
use argus_agent.Modes.Markup.{looks_like_dropped_tool_call, has_markup}
use argus_agent.Modes.Finish
use argus_agent.Modes.Finish.{finished, unwrap, answered, is_final_call, is_final_name}
use argus_agent.Modes.Answers.{IsAnswer, native-IsAnswer}
use argus_agent.Modes.Finished.{finish-tool_call}
use argus_agent.Modes.Raised.{IsUnhashable, IsUnloadable, parse_response-raises_iff}
use argus_agent.Modes.Envelope.{parse_response-object_text}

abbrev answer_args : Fields
answer_args = Fields.field "answer" (Json.text "42") Fields.end

abbrev loads : String → Result LoadError Json
loads s =
    if s == "{\"answer\":\"42\"}"
    then ok (Json.object answer_args)
    else if s == "{\"a\"}"
    then ok (Json.object (Fields.field "action" (Json.array Items.nil) Fields.end))
    else err (malformed "Expecting value")

abbrev str_of : Json → String
str_of (Json.text s) = s
str_of _ = "?"

abbrev equal : Json → Json → Bool
equal (Json.text a) (Json.text b) = a == b
equal _ _ = true

abbrev lib : Library
lib = record {
  loads = loads;
  str_of = str_of;
  repr_of = str_of;
  is_alnum = λ c. leb b'a' c && leb c b'z';
  equal = equal;
}

abbrev reply : String → List Fields → ModelResponse
reply content calls = record {
  content = some content;
  tool_calls = calls;
  finish_reason = some "stop";
  usage = Fields.end;
  reasoning = none;
}

abbrev call_of : String → Fields
call_of name = Fields.field "id" (Json.text "c1") (
    Fields.field "function"
      (Json.object (
        Fields.field "name" (Json.text name)
          (Fields.field "arguments" (Json.text "{\"answer\":\"42\"}") Fields.end)))
      Fields.end)

abbrev call : String → ToolCall
call name = record {
  tool = Json.text name;
  args = answer_args;
  call_id = Json.text "c1";
  raw = some (Json.text "{\"answer\":\"42\"}");
  repaired = false;
}

native-IsAnswer_example : IsAnswer lib (reply " It is 42.\n" []) "It is 42."
unfolding Native.parse_response from_calls answer_of content_or_empty looks_like_dropped_tool_call
    has_markup
native-IsAnswer_example = native-IsAnswer lib (reply " It is 42.\n" []) "It is 42." refl

finish-tool_call_example :
    (Native.parse_response lib (reply "" (call_of "search" ∷ [])) ≡ ok (tool_call (call "search")))
    × ((call "search").tool ≢ Json.text "final_answer")
unfolding Native.parse_response Finish.parse_response from_calls first_call act_on finished
    is_final_call
finish-tool_call_example =
    finish-tool_call lib (reply "" (call_of "search" ∷ [])) (call "search") refl

parse_response-raises_iff_example :
    ((e : String) × (Manual.parse_response lib [] (reply "so {\"a\"}" []) ≡ err e))
    ↔ (IsUnhashable lib (reply "so {\"a\"}" []) ⊎ IsUnloadable lib (reply "so {\"a\"}" []))
parse_response-raises_iff_example = parse_response-raises_iff lib [] (reply "so {\"a\"}" [])

abbrev letter : Body
letter = quote (raw "a" refl close) finish

parse_response-object_text_example :
    Manual.parse_response lib [] (reply "so {\"a\"} and {b" [])
    ≡ interpret lib [] "so {\"a\"} and {b" "{\"a\"}"
        (Json.object (Fields.field "action" (Json.array Items.nil) Fields.end))
unfolding content_or_empty object_text contains Text.strip
parse_response-object_text_example =
    parse_response-object_text lib [] (reply "so {\"a\"} and {b" []) "so " letter " and {b"
      (Json.object (Fields.field "action" (Json.array Items.nil) Fields.end)) refl refl refl refl
