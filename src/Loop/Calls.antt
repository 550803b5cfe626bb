-- ===== src/Loop/Calls.antt =====
-- engine/loop.py: `run_loop`, from the validation of a call on, and the loop itself.
use argus_agent.Base.{
  ℕ, suc, String, Bool, true, false, not, ◌&&◌, Option, none, some, List, [], ◌∷◌, ◌++◌, ◌==◌,
  nat_eq, string_eq, pair_eq, if◌then◌else◌, leb,
}
use argus_agent.Base.Dict
use argus_agent.Base.Dict.{Dict}
use argus_agent.Base.Json.{Json, Items, Fields}
use argus_agent.Approvals.Requests.{Ask}
use argus_agent.Loop.Echo.{joined, append, message, lookup, last_user_text, shortened}
use argus_agent.Loop.Turn.{
  say, finish, for_model, observer_repeat_check, is_create, create_verify_note,
}
use argus_agent.Loop.Types.{
  Deps, Turn, Event, Next, goes_on, returns, emit, ToolCall, Tool, Ran, returned, run_held,
  run_raised, Gated, passed, blocked, held, gate_raised,
}

abbrev pub is_terminal : Option Tool → Bool
is_terminal none = false
is_terminal (some tool) = tool.terminal

-- `isinstance(result, str)`, for the output of a tool that is echoed.
pub echoed : Option Tool → Json → List String
echoed (some tool) (Json.text s) = if tool.echo_result then s ∷ [] else []
echoed _ _ = []

-- The fields `"options"` of a question, as texts.
items_texts : (Json → String) → Items → List String
items_texts str_of Items.nil = []
items_texts str_of (Items.cons (Json.text s) xs) = s ∷ items_texts str_of xs
items_texts str_of (Items.cons x xs) = str_of x ∷ items_texts str_of xs

pub options_of : (Json → String) → ToolCall → List String
unfolding items_texts
options_of str_of call = elim (lookup "options" call.args) [
  | some (Json.array items) ↦ if call.tool == "ask_user" then items_texts str_of items else []
  | _ ↦ []
]

pub text_form : (Json → String) → Json → String
text_form str_of (Json.text s) = s
text_form str_of x = str_of x

abbrev pub creates_after : ToolCall → ℕ → ℕ
creates_after call n = if is_create call.tool then suc n else 0

module _ {W R V : Type 0} (deps : Deps W R V) where
  -- The result goes to the model, and is kept for the friction log.
  unfoldable pub tell : ℕ → R → ToolCall → String → Turn W R → Turn W R
  tell step resp call result t =
      let told = for_model deps step call.tool (Json.text result) t in
      say (deps.mode.tool_result_messages resp call told.0) told.1

  -- A call whose arguments are not valid.
  unfoldable pub refuse_call : ℕ → R → ToolCall → String → String → Turn W R → Turn W R
  unfolding tell
  refuse_call step resp call sig error t =
      let result = append "validation error: " error in
      let shown =
        emit step (Event.tool_result call.tool false (Json.text result))
          (tell step resp call result t) in
      observer_repeat_check deps step call sig
        (record shown { last_result = Dict.put sig (shortened result) shown.last_result })

  -- A call that the policy denies.
  unfoldable pub block_call : ℕ → R → ToolCall → Turn W R → Turn W R
  unfolding tell
  block_call step resp call t =
      let result =
        joined ("Blocked by your policy: you declined running '" ∷ call.tool ∷ "'." ∷ []) in
      emit step (Event.tool_result call.tool false (Json.text result))
        (tell step resp call result t)

  -- Tools are created in a row and none is run.
  unfoldable pub create_check : ℕ → ToolCall → Turn W R → Turn W R
  create_check step call t =
      let n = creates_after call t.consecutive_creates in
      let counted = record t { consecutive_creates = n } in
      if deps.enable_observer && leb 3 n && not t.create_verify_nudged
      then emit step (Event.create_without_verify n) (
          say (message "user" (Json.text create_verify_note) ∷ [])
            (record counted { create_verify_nudged = true }))
      else counted

  -- What follows a call that ran, whether it returned or raised.
  unfoldable pub conclude : ℕ → R → ToolCall → String → Option Tool → Json → Turn W R → Next W R
  conclude step resp call sig tool result t =
      let told = for_model deps step call.tool result t in
      let shown = say (deps.mode.tool_result_messages resp call told.0) told.1 in
      let kept = record shown {
        last_result = Dict.put sig (shortened (text_form deps.str_of result)) shown.last_result;
      } in
      if is_terminal tool
      then finish step result (options_of deps.str_of call) t
      else goes_on (create_check step call (observer_repeat_check deps step call sig kept))

  unfoldable pub failed : ℕ → R → ToolCall → String → Option Tool → String → Turn W R → Next W R
  unfolding conclude
  failed step resp call sig tool error t =
      let result = Json.text (joined ("tool " ∷ call.tool ∷ " failed: " ∷ error ∷ [])) in
      conclude step resp call sig tool result
        (emit step (Event.tool_result call.tool false result) t)

  -- The turn ends until the owner answers.
  unfoldable pub pause : ℕ → String → String → String → Turn W R → Next W R
  pause step note req_id kind t =
      returns (Json.text note)
        (emit step (Event.paused req_id kind) (say (message "assistant" (Json.text note) ∷ []) t))

  unfoldable pub ran : ℕ → R → ToolCall → String → Option Tool → Ran → Turn W R → Next W R
  unfolding conclude failed pause
  ran step resp call sig tool (returned result) t =
      let shown = emit step (Event.tool_result call.tool true result) t in
      conclude step resp call sig tool result
        (record shown { pending_echo = shown.pending_echo ++ echoed tool result })
  ran step resp call sig tool (run_held note req_id kind) t = pause step note req_id kind t
  ran step resp call sig tool (run_raised error) t = failed step resp call sig tool error t

  unfoldable pub execute : ℕ → R → ToolCall → String → Option Tool → V → Turn W R → Next W R
  unfolding ran
  execute step resp call sig none args t =
      ran step resp call sig none (run_raised "'NoneType' object has no attribute 'run'") t
  execute step resp call sig (some tool) args t =
      let done = deps.run_tool t.world call.tool args in
      ran step resp call sig (some tool) done.0 (record t { world = done.1 })

  -- What the gate is asked.
  unfoldable pub question : ℕ → ToolCall → V → Turn W R → Ask
  question step call args t = record {
    kind = call.tool;
    target = deps.args_digest args;
    session_id = deps.session_id;
    prompt = append "Run tool: " call.tool;
    origin = deps.origin;
    payload = some (
        Json.object (
          Fields.field "tool" (Json.text call.tool) (
            Fields.field "args" (deps.jsonable args)
              (Fields.field "prompt" (Json.text (last_user_text t.conversation)) Fields.end))));
    run_id = deps.run_id;
    step = step;
  }

  unfoldable pub gated : ℕ → R → ToolCall → String → Option Tool → V → Gated → Turn W R → Next W R
  unfolding execute block_call pause failed
  gated step resp call sig tool args passed t = execute step resp call sig tool args t
  gated step resp call sig tool args blocked t = goes_on (block_call step resp call t)
  gated step resp call sig tool args (held note req_id kind) t = pause step note req_id kind t
  gated step resp call sig tool args (gate_raised error) t = failed step resp call sig tool error t

  unfoldable pub through :
      Option (W → Ask → Gated × W)
      → ℕ
      → R
      → ToolCall
      → String
      → Option Tool
      → V
      → Turn W R
      → Next W R
  unfolding gated question
  through none step resp call sig tool args t = execute step resp call sig tool args t
  through (some gate) step resp call sig tool args t =
      let answer = gate t.world (question step call args t) in
      gated step resp call sig tool args answer.0 (record t { world = answer.1 })

  unfoldable pub ask_gate : ℕ → R → ToolCall → String → V → Turn W R → Next W R
  unfolding through
  ask_gate step resp call sig args t =
      through deps.approvals step resp call sig (deps.registry.get t.world call.tool) args t
