-- ===== src/Modes/Finish.antt =====
-- engine/modes/native_finish.py: `NativeFinishMode`.
use argus_agent.Base.{
  String, Bool, Option, none, some, List, [], ◌∷◌, ◌++◌, ◌==◌, string_eq, if◌then◌else◌,
}
use argus_agent.Base.Json.{Json}
use argus_agent.Base.Result.{Result, ok, ◌>>=◌}
use argus_agent.Loop.Echo.{lookup, message}
use argus_agent.Tools.{Registry, Offer, openai_schema}
use argus_agent.Modes.{
  ToolCall, ParseResult, tool_call, final_answer, parse_failure, ModelResponse, Request, Library,
}
use argus_agent.Modes.Manual.{after_prompt}
use argus_agent.Modes.Native

abbrev pub final_answer_tool : Offer
final_answer_tool = record {
  name = "final_answer";
  description =
      "Give your final answer to the user. Call this when you are done — it ends the turn.";
  parameters = record {
    properties =
        (
          "answer",
          record {
            type = some "string";
            default = none;
            description = some "your complete answer to the user";
          },
        )
        ∷ [];
    required = "answer" ∷ [];
  };
}

abbrev pub native_finish_system : String
native_finish_system =
    "You are an agent with tools. On EVERY turn you MUST call exactly one tool. Use a tool to take an action or gather information; when you are finished and ready to reply to the user, call `final_answer` with your complete answer. Never reply in plain text — always via a tool call."

module _ {V : Type 0} where
  pub build_request : String → List Json → Registry V → Request
  unfolding after_prompt openai_schema
  build_request system_prompt conversation registry = record {
    messages =
        message "system" (Json.text (after_prompt system_prompt native_finish_system))
        ∷ conversation;
    tools = some (openai_schema registry ++ (final_answer_tool ∷ []));
    tool_choice = some "required";
  }

-- `parsed.raw or ""`, which of an object of arguments is the object itself.
abbrev pub raw_or_empty : Library → Option Json → String
raw_or_empty lib none = ""
raw_or_empty lib (some (Json.text s)) = s
raw_or_empty lib (some raw) = lib.str_of raw

unfoldable pub answered : Library → Option Json → Option Json → ParseResult
answered lib raw (some (Json.text answer)) = final_answer answer
answered lib raw _ =
    parse_failure "final_answer requires a string \"answer\" field" (raw_or_empty lib raw)

unfoldable pub unwrap : Library → ToolCall → ParseResult
unfolding lookup answered
unwrap lib call = answered lib call.raw (lookup "answer" call.args)

unfoldable pub is_final_name : Json → Bool
is_final_name (Json.text name) = name == "final_answer"
is_final_name _ = Bool.false

unfoldable pub is_final_call : ToolCall → Bool
unfolding is_final_name
is_final_call call = is_final_name call.tool

unfoldable pub finished : Library → ParseResult → ParseResult
unfolding unwrap is_final_call
finished lib (tool_call call) = if is_final_call call then unwrap lib call else tool_call call
finished lib other = other

unfoldable pub parse_response : Library → ModelResponse → Result String ParseResult
unfolding finished ◌>>=◌
parse_response lib resp = Native.parse_response lib resp >>= λ parsed. ok (finished lib parsed)
