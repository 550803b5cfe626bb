-- ===== src/Modes/Manual.antt =====
-- engine/modes/manual.py: `ManualMode`. The names of the tools are an argument where the class keeps
-- them in `_known_tools`.
use argus_agent.Base.{
  String, Bool, true, false, Option, none, some, List, [], ◌∷◌, ◌==◌, string_eq, elem,
  if◌then◌else◌,
}
use argus_agent.Base.Json.{Json, Fields, is_truthy}
use argus_agent.Base.Result.{Result, ok, err}
use argus_agent.Base.Text
use argus_agent.Loop.Echo.{joined, lookup, message}
use argus_agent.Tools.{Registry, names, text_schema}
use argus_agent.Modes.{
  LoadError, malformed, other_error, ToolCall, ParseResult, tool_call, final_answer, parse_failure,
  ModelResponse, Request, Library, content_or_empty,
}
use argus_agent.Modes.Extract.{strip_fences, extract}

-- `MANUAL_INSTRUCTIONS.format(tools=…)`
abbrev pub manual_instructions : String → String
manual_instructions tools = joined (
    "You are a tool-using agent. You have access to these tools:\n\n" ∷ tools
    ∷ "\n\nRespond with EXACTLY ONE JSON object and nothing else. It must have this shape.\n\nTo use a tool:\n{\"action\": \"tool\", \"tool\": \"<tool_name>\", \"args\": { ...arguments... }}\n\nTo give your final answer to the user:\n{\"action\": \"final\", \"answer\": \"<your answer>\"}\n\nIMPORTANT: the \"action\" field is ALWAYS the literal word \"tool\" or \"final\" — never\na tool name. The tool name goes in the separate \"tool\" field.\n\nExamples:\n- Multiply two numbers:\n  {\"action\": \"tool\", \"tool\": \"calculator\", \"args\": {\"expression\": \"6 * 7\"}}\n- Give the final answer:\n  {\"action\": \"final\", \"answer\": \"The result is 42.\"}\n\nRules:\n- Output ONLY the single JSON object. No prose before or after. No markdown code fences.\n- Use one tool at a time. You will receive the tool's result, then decide the next step.\n- Use only the tools listed above, with the exact argument names shown.\n- When you have enough information, respond with the \"final\" action."
    ∷ [])

-- `system_prompt.strip() + "\n\n" + instructions`, or the instructions alone.
unfoldable pub after_prompt : String → String → String
unfolding Text.strip
after_prompt system_prompt instructions =
    if Text.strip system_prompt == ""
    then instructions
    else joined (Text.strip system_prompt ∷ "\n\n" ∷ instructions ∷ [])

-- The request, and the names that the mode knows from then on.
pub build_request : {V : Type 0} → String → List Json → Registry V → Request × List String
unfolding after_prompt names text_schema
build_request system_prompt conversation registry = (
  record {
    messages =
        message "system"
          (Json.text (after_prompt system_prompt (manual_instructions (text_schema registry))))
        ∷ conversation;
    tools = none;
    tool_choice = none;
  },
  names registry,
)

-- The arguments of a call, `{}` where there are none, or the failure.
unfoldable pub with_args : String → Fields → (Fields → ParseResult) → ParseResult
unfolding lookup
with_args raw obj call = elim (lookup "args" obj) [
  | none ↦ call Fields.end
  | some (Json.object args) ↦ call args
  | some _ ↦ parse_failure "\"args\" must be a JSON object" raw
]

abbrev pub called : String → Bool → Json → Fields → ParseResult
called candidate repaired tool args = tool_call (record {
  tool = tool;
  args = args;
  call_id = Json.null;
  raw = some (Json.text candidate);
  repaired = repaired;
})

unfoldable pub tool_action : String → String → Fields → ParseResult
unfolding is_truthy lookup with_args
tool_action raw candidate obj = elim (lookup "tool" obj) [
  | none ↦ parse_failure "tool action requires a \"tool\" name" raw
  | some tool ↦
      if is_truthy tool
      then with_args raw obj (called candidate false tool)
      else parse_failure "tool action requires a \"tool\" name" raw
]

unfoldable pub final_action : Library → String → Fields → ParseResult
unfolding lookup
final_action lib raw obj = elim (lookup "answer" obj) [
  | none ↦ parse_failure "final action requires an \"answer\" field" raw
  | some answer ↦ final_answer (lib.str_of answer)
]

unfoldable pub unknown_action : Library → String → Json → ParseResult
unknown_action lib raw action =
    parse_failure
      (joined ("unknown action " ∷ lib.repr_of action ∷ " (expected \"tool\" or \"final\")" ∷ []))
      raw

-- `action in self._known_tools` raises for a value that has no hash.
unfoldable pub by_action :
    Library → List String → String → String → Fields → Json → Result String ParseResult
unfolding tool_action final_action with_args unknown_action
by_action lib known raw candidate obj (Json.text action) = ok (
    if action == "tool"
    then tool_action raw candidate obj
    else if action == "final"
    then final_action lib raw obj
    else if elem action known
    then with_args raw obj (called candidate true (Json.text action))
    else unknown_action lib raw (Json.text action))
by_action lib known raw candidate obj (Json.array xs) = err "unhashable type: 'list'"
by_action lib known raw candidate obj (Json.object xs) = err "unhashable type: 'dict'"
by_action lib known raw candidate obj Json.null = ok (unknown_action lib raw Json.null)
by_action lib known raw candidate obj (Json.bool b) = ok (unknown_action lib raw (Json.bool b))
by_action lib known raw candidate obj (Json.number n) = ok (unknown_action lib raw (Json.number n))

abbrev pub no_action : String → ParseResult
no_action raw = parse_failure "JSON must include an \"action\" field (\"tool\" or \"final\")" raw

unfoldable pub by_field :
    Library → List String → String → String → Fields → Option Json → Result String ParseResult
unfolding by_action
by_field lib known raw candidate obj none = ok (no_action raw)
by_field lib known raw candidate obj (some action) = by_action lib known raw candidate obj action

-- What the parsed value says.
unfoldable pub interpret :
    Library → List String → String → String → Json → Result String ParseResult
unfolding lookup by_field
interpret lib known raw candidate (Json.object obj) =
    by_field lib known raw candidate obj (lookup "action" obj)
interpret lib known raw candidate _ = ok (no_action raw)

unfoldable pub decoded :
    Library → List String → String → String → Result LoadError Json → Result String ParseResult
unfolding interpret
decoded lib known raw candidate (err (other_error e)) = err e
decoded lib known raw candidate (err (malformed e)) =
    ok (parse_failure (joined ("JSON object could not be parsed: " ∷ e ∷ [])) raw)
decoded lib known raw candidate (ok value) = interpret lib known raw candidate value

unfoldable pub of_candidate :
    Library → List String → String → Option String → Result String ParseResult
unfolding decoded
of_candidate lib known raw none = ok (parse_failure "no JSON object found in the response" raw)
of_candidate lib known raw (some candidate) = decoded lib known raw candidate (lib.loads candidate)

unfoldable pub parse_response : Library → List String → ModelResponse → Result String ParseResult
unfolding content_or_empty extract strip_fences of_candidate
parse_response lib known resp =
    of_candidate lib known (content_or_empty resp) (extract (strip_fences (content_or_empty resp)))

-- `resp.content or call.raw or ""`
echo_of : Library → ModelResponse → Option Json → Json
unfolding content_or_empty is_truthy
echo_of lib resp raw =
    if content_or_empty resp == ""
    then elim raw [ none ↦ Json.text "" | some r ↦ if is_truthy r then r else Json.text "" ]
    else Json.text (content_or_empty resp)

pub tool_result_messages : Library → ModelResponse → ToolCall → String → List Json
unfolding echo_of
tool_result_messages lib resp call result =
    message "assistant" (echo_of lib resp call.raw)
    ∷ message "user" (
        Json.text (
          joined (
            "TOOL RESULT ("
            ∷ lib.str_of call.tool
            ∷ "): "
            ∷ result
            ∷ "\n\nNow respond with the next JSON object (another \"tool\" action, or \"final\")."
            ∷ [])))
    ∷ []

pub reprompt_messages : ModelResponse → String → List Json
unfolding content_or_empty
reprompt_messages resp reason =
    message "assistant" (Json.text (content_or_empty resp))
    ∷ message "user" (
        Json.text (
          joined (
            "Your previous message was not valid: " ∷ reason
            ∷ ". Respond with ONLY one JSON object: either {\"action\":\"tool\",\"tool\":\"<name>\",\"args\":{...}} or {\"action\":\"final\",\"answer\":\"<text>\"}. No other text."
            ∷ [])))
    ∷ []
