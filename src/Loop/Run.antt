-- ===== src/Loop/Run.antt =====
-- engine/loop.py: `run_loop`, from a response of the model to a validated call, and the loop.
use argus_agent.Base.{
  ℕ, zero, suc, String, Bool, true, false, ◌&&◌, Option, none, some, List, [], ◌∷◌, ◌++◌, nat_eq,
  string_eq, pair_eq, if◌then◌else◌, leb,
}
use argus_agent.Base.Json.{Json, Fields}
use argus_agent.Base.Result.{Result, ok, err}
use argus_agent.Loop.Echo.{joined, message, with_unechoed, starts_with, strip_old_images, decimal}
use argus_agent.Loop.Turn.{
  say, then_on, finish, recreate_check, repeat_check, fuzzy_check, cut_off_note,
}
use argus_agent.Loop.Calls.{refuse_call, ask_gate}
use argus_agent.Loop.Types.{
  Deps, Turn, Event, Next, goes_on, returns, raises, emit, ToolCall, Validation, valid, invalid,
  Steering, Parsed, tool_call, unnamed_call, final_answer, parse_failure,
}

abbrev error_of : {V : Type 0} → Validation V → Option String
error_of (valid v) = none
error_of (invalid e) = some e

abbrev pub ended_or :
    {W R : Type 0}
    → Next W R
    → (Turn W R → Result String Json × Turn W R)
    → Result String Json × Turn W R
ended_or (goes_on t) f = f t
ended_or (returns answer t) f = (ok answer, t)
ended_or (raises e t) f = (err e, t)

module _ {W R V : Type 0} (deps : Deps W R V) where
  abbrev pub signature : ToolCall → String
  signature call = joined (call.tool ∷ ":" ∷ deps.dumps call.args ∷ [])

  unfoldable pub reveal_event : ℕ → List String → Turn W R → Turn W R
  reveal_event step [] t = t
  reveal_event step (n ∷ ns) t = emit step (Event.disclosure_reveal (n ∷ ns)) t

  -- A tool that was not offered in this turn is revealed, and the call validated again.
  unfoldable pub reveal_tool :
      ℕ
      → ToolCall
      → Validation V
      → Option (W → List String → List String × W)
      → Turn W R
      → Validation V × Turn W R
  unfolding reveal_event
  reveal_tool step call v none t = (v, t)
  reveal_tool step call v (some reveal) t =
      let shown = reveal t.world (call.tool ∷ []) in
      (
        deps.registry.validate shown.1 call.tool call.args,
        reveal_event step shown.0 (record t { world = shown.1 }),
      )

  unfoldable pub is_known : String → Turn W R → Bool
  is_known tool t = elim (deps.registry.get t.world tool) [ none ↦ false | some _ ↦ true ]

  unfoldable pub validate_again : ℕ → ToolCall → Validation V → Turn W R → Validation V × Turn W R
  unfolding reveal_tool is_known
  validate_again step call (valid v) t = (valid v, t)
  validate_again step call (invalid e) t =
      if starts_with e "unknown tool" && is_known call.tool t
      then reveal_tool step call (invalid e) deps.registry.reveal t
      else (invalid e, t)

  abbrev with_validation : ℕ → ToolCall → Validation V × Turn W R → Validation V × Turn W R
  with_validation step call (v, t) = (v, emit step (Event.validation call.tool (error_of v)) t)

  unfoldable pub validated : ℕ → ToolCall → Turn W R → Validation V × Turn W R
  unfolding validate_again
  validated step call t =
      with_validation step call
        (validate_again step call (deps.registry.validate t.world call.tool call.args) t)

  unfoldable pub carry_out : ℕ → R → ToolCall → Validation V × Turn W R → Next W R
  carry_out step resp call (valid args, t) = ask_gate deps step resp call (signature call) args t
  carry_out step resp call (invalid error, t) =
      goes_on (refuse_call deps step resp call (signature call) error t)

  unfoldable pub on_call : ℕ → R → ToolCall → Turn W R → Next W R
  unfolding validated carry_out
  on_call step resp call t =
      then_on
        (recreate_check deps step call
          (emit step (Event.called call) (record t { parse_failures = 0 })))
        (λ named. then_on (repeat_check deps step call (signature call) named) (λ counted.
          carry_out step resp call (validated step call (fuzzy_check deps step call counted))))

  unfoldable pub apology : Bool → String → Json
  apology true reason =
      Json.text
        "Sorry — my reply ran past the model's output limit and got cut off mid-way. Ask me to write it more concisely, or in parts."
  apology false reason = Json.text (
      joined
        ("Sorry — I couldn't produce a valid response. (last parser error: " ∷ reason ∷ ")" ∷ []))

  abbrev pub ask_again : R → String → String → Bool → List Json
  ask_again resp reason raw true = message "user" (Json.text cut_off_note) ∷ []
  ask_again resp reason raw false = deps.mode.reprompt_messages resp reason raw

  -- The first failure in a row is answered with another prompt, the second ends the turn.
  unfoldable pub on_failure : ℕ → R → String → String → Turn W R → Next W R
  unfolding apology
  on_failure step resp reason raw t =
      let truncated = deps.mode.is_truncated resp in
      let shown = emit step (Event.parse_failed reason raw truncated) t in
      if leb 1 t.parse_failures
      then returns (apology truncated reason) (record (emit step (Event.gave_up reason) shown) {
        world = deps.record_friction t.world "parse_failure" none (suc t.parse_failures) reason;
      })
      else goes_on (
          emit step (Event.reprompt reason) (
            say (ask_again resp reason raw truncated)
              (record shown { parse_failures = suc t.parse_failures })))

  -- `call.tool + ":"` raises for a name that is no text.
  unfoldable pub on_unnamed : ℕ → Json → Fields → Turn W R → Next W R
  on_unnamed step tool args t =
      raises "unsupported operand type(s) for +"
        (emit step (Event.called_unnamed tool args) (record t { parse_failures = 0 }))

  unfoldable pub respond : ℕ → R → Parsed → Turn W R → Next W R
  unfolding on_call on_failure on_unnamed
  respond step resp (final_answer answer) t =
      finish step (Json.text (with_unechoed answer t.pending_echo)) [] t
  respond step resp (parse_failure reason raw) t = on_failure step resp reason raw t
  respond step resp (tool_call call) t = on_call step resp call t
  respond step resp (unnamed_call tool args) t = on_unnamed step tool args t

  -- What `parse_response` raises goes through the loop.
  unfoldable pub after_parse : ℕ → R → Result String Parsed → Turn W R → Next W R
  unfolding respond
  after_parse step resp (ok parsed) t = respond step resp parsed t
  after_parse step resp (err e) t = raises e t

  unfoldable pub applied : Option (Steering W R) → W → Json → Json
  applied none w req = req
  applied (some s) w req = s.apply w req

  unfoldable pub scrubbed : Option (Steering W R) → W → R → R
  scrubbed none w resp = resp
  scrubbed (some s) w resp = s.scrub_response w resp

  unfoldable pub heard : ℕ → Result String R × W → Turn W R → Next W R
  unfolding scrubbed after_parse
  heard step (err e, w) t =
      returns (Json.text (joined ("Sorry — I couldn't reach the model (" ∷ e ∷ ")." ∷ [])))
        (emit step (Event.model_error e) (record t { world = w }))
  heard step (ok raw, w) t =
      let resp = scrubbed deps.steering w raw in
      after_parse step resp (deps.mode.parse_response resp)
        (emit step (Event.model_response resp) (record t { world = w }))

  -- One pass of the loop.
  unfoldable pub pass : ℕ → Turn W R → Next W R
  unfolding heard applied
  pass step t =
      let req = deps.mode.build_request t.world (strip_old_images t.conversation) in
      heard step (deps.chat t.world (applied deps.steering t.world req))
        (emit step (Event.model_request req) t)

  content_of : String → Option Json → Json
  content_of user_text none = Json.text user_text
  content_of user_text (some content) = content

  unfoldable pub started : String → Option Json → W → List Json → Turn W R
  unfolding content_of
  started user_text user_content world conversation = record {
    world = world;
    conversation = conversation ++ message "user" (content_of user_text user_content) ∷ [];
    trace = (0, Event.info user_text) ∷ [];
    parse_failures = 0;
    pending_echo = [];
    call_counts = [];
    create_names = [];
    consecutive_creates = 0;
    create_verify_nudged = false;
    recent_calls = [];
    fuzzy_repeat_nudged = false;
    last_result = [];
  }

  -- The steps from `step` on, `left` of them.
  unfoldable pub passes : ℕ → ℕ → Turn W R → Result String Json × Turn W R
  passes zero step t = (
    ok (
        Json.text (
          joined (
            "Sorry — I couldn't complete this within "
            ∷ decimal deps.max_steps
            ∷ " steps. Try rephrasing or breaking the request into smaller parts."
            ∷ []))),
    emit deps.max_steps (Event.max_steps_exceeded deps.max_steps) t,
  )
  passes (suc left) step t = ended_or (pass step t) (λ next. passes left (suc step) next)

  -- The turn: the message of the user, as text or as parts, and the passes; the result is the answer
  -- or what was raised.
  unfoldable pub run_loop : String → Option Json → W → List Json → Result String Json × Turn W R
  unfolding started
  run_loop user_text user_content world conversation =
      passes deps.max_steps 1 (started user_text user_content world conversation)
