-- ===== src/Loop/Gating.antt =====
-- engine/loop.py: no tool runs without the word of the gate.
use argus_agent.Base.{
  ℕ, zero, suc, String, ◌≡◌, ◌≢◌, refl, sym, ap, subst, ◌∙◌, Option, none, some, List, arith,
  nat_eq, string_eq, pair_eq, some_eq,
}
use argus_agent.Base.Json.{Json}
use argus_agent.Base.Result.{Result, ok, err}
use argus_agent.Approvals.Requests.{Ask}
use argus_agent.Loop.Types.{
  Deps, Turn, Event, Next, goes_on, returns, raises, emit, ToolCall, Tool, Validation, valid,
  invalid, Parsed, tool_call, unnamed_call, final_answer, parse_failure, Ran, Gated, passed,
  blocked, held, gate_raised,
}
use argus_agent.Loop.Turn.{
  then_on, for_model, recreate_check, recreated, created_name, is_refining, repeat_check,
  stop_recreating, stop_repeating, fuzzy_check, is_fuzzy_repeat, observer_repeat_check,
}
use argus_agent.Loop.Calls.{
  refuse_call, block_call, create_check, conclude, failed, pause, gated, through, question,
  ask_gate, tell,
}
use argus_agent.Loop.Run.{
  signature, carry_out, validated, validate_again, reveal_tool, reveal_event, is_known, apology,
  applied, scrubbed, on_call, on_failure, on_unnamed, respond, after_parse, heard, pass, passes,
  run_loop, started, ended_or,
}

module _ {W R V : Type 0} (deps : Deps W R V) (other : W → String → V → Ran × W) where
  -- The same turn with tools that do something else.
  abbrev pub with_tools : Deps W R V
  with_tools = record deps { run_tool = other }

  gated-with_tools :
      (step : ℕ) (resp : R) (call : ToolCall) (sig : String) (tool : Option Tool) (args : V)
      (g : Gated) (t : Turn W R)
      → g ≢ passed
      → gated with_tools step resp call sig tool args g t
        ≡ gated deps step resp call sig tool args g t
  unfolding gated block_call tell for_model failed conclude observer_repeat_check create_check pause
  gated-with_tools step resp call sig tool args passed t refused = elim (refused refl) [ ]
  gated-with_tools step resp call sig tool args blocked t refused = refl
  gated-with_tools step resp call sig tool args (held note req_id kind) t refused = refl
  gated-with_tools step resp call sig tool args (gate_raised error) t refused = refl

  refuse_call-with_tools :
      (step : ℕ) (resp : R) (call : ToolCall) (sig error : String) (t : Turn W R)
      → refuse_call with_tools step resp call sig error t
        ≡ refuse_call deps step resp call sig error t
  unfolding refuse_call tell for_model observer_repeat_check
  refuse_call-with_tools step resp call sig error t = refl

  recreate_check-with_tools :
      (step : ℕ) (call : ToolCall) (t : Turn W R)
      → recreate_check with_tools step call t ≡ recreate_check deps step call t
  unfolding recreate_check recreated stop_recreating created_name
  recreate_check-with_tools step call t = refl

  repeat_check-with_tools :
      (step : ℕ) (call : ToolCall) (sig : String) (t : Turn W R)
      → repeat_check with_tools step call sig t ≡ repeat_check deps step call sig t
  unfolding repeat_check stop_repeating
  repeat_check-with_tools step call sig t = refl

  validated-with_tools :
      (step : ℕ) (call : ToolCall) (t : Turn W R)
      → validated with_tools step call (fuzzy_check with_tools step call t)
        ≡ validated deps step call (fuzzy_check deps step call t)
  unfolding validated validate_again reveal_tool reveal_event is_known fuzzy_check is_fuzzy_repeat
      is_refining
  validated-with_tools step call t = refl

  on_failure-with_tools :
      (step : ℕ) (resp : R) (reason raw : String) (t : Turn W R)
      → on_failure with_tools step resp reason raw t ≡ on_failure deps step resp reason raw t
  unfolding on_failure apology
  on_failure-with_tools step resp reason raw t = refl

  then_on-same :
      (m : Next W R) (f g : Turn W R → Next W R)
      → ((t : Turn W R) → f t ≡ g t)
      → then_on m f ≡ then_on m g
  then_on-same (goes_on t) f g h = h t
  then_on-same (returns a t) f g h = refl
  then_on-same (raises e t) f g h = refl

  then_on-cong :
      {m k : Next W R} {f g : Turn W R → Next W R}
      → m ≡ k
      → ((t : Turn W R) → f t ≡ g t)
      → then_on m f ≡ then_on k g
  then_on-cong {k = k} {f} {g} e h = ap (λ n. then_on n f) e ∙ then_on-same k f g h

  ended_or-same :
      (m : Next W R) (f g : Turn W R → Result String Json × Turn W R)
      → ((t : Turn W R) → f t ≡ g t)
      → ended_or m f ≡ ended_or m g
  ended_or-same (goes_on t) f g h = h t
  ended_or-same (returns a t) f g h = refl
  ended_or-same (raises e t) f g h = refl

  module _ (gate : W → Ask → Gated × W) (gates : deps.approvals ≡ some gate)
      (never : (w : W) (a : Ask) → (gate w a).0 ≢ passed) where
    through-with_tools :
        (o : Option (W → Ask → Gated × W))
        → o ≡ some gate
        → (step : ℕ) (resp : R) (call : ToolCall) (sig : String) (tool : Option Tool) (args : V)
          (t : Turn W R)
        → through with_tools o step resp call sig tool args t
          ≡ through deps o step resp call sig tool args t
    unfolding through question
    through-with_tools none e step resp call sig tool args t = ground arith
    through-with_tools (some g) e step resp call sig tool args t =
        gated-with_tools step resp call sig tool args _ _ (
          subst (λ f. (f t.world (question deps step call args t)).0 ≢ passed) (sym (some_eq e))
            (never t.world (question deps step call args t)))

    carry_out-with_tools :
        (step : ℕ) (resp : R) (call : ToolCall) (p : Validation V × Turn W R)
        → carry_out with_tools step resp call p ≡ carry_out deps step resp call p
    unfolding carry_out ask_gate
    carry_out-with_tools step resp call (invalid error, t) =
        ap goes_on (refuse_call-with_tools step resp call (signature deps call) error t)
    carry_out-with_tools step resp call (valid args, t) =
        through-with_tools deps.approvals gates step resp call (signature deps call) _ args t

    on_call-with_tools :
        (step : ℕ) (resp : R) (call : ToolCall) (t : Turn W R)
        → on_call with_tools step resp call t ≡ on_call deps step resp call t
    unfolding on_call
    on_call-with_tools step resp call t =
        then_on-cong (recreate_check-with_tools step call _) (λ named.
          then_on-cong (repeat_check-with_tools step call (signature deps call) named) (λ counted.
            ap (carry_out with_tools step resp call) (validated-with_tools step call counted)
            ∙ carry_out-with_tools step resp call _))

    respond-with_tools :
        (step : ℕ) (resp : R) (p : Parsed) (t : Turn W R)
        → respond with_tools step resp p t ≡ respond deps step resp p t
    unfolding respond on_unnamed
    respond-with_tools step resp (final_answer answer) t = refl
    respond-with_tools step resp (parse_failure reason raw) t =
        on_failure-with_tools step resp reason raw t
    respond-with_tools step resp (tool_call call) t = on_call-with_tools step resp call t
    respond-with_tools step resp (unnamed_call tool args) t = refl

    after_parse-with_tools :
        (step : ℕ) (resp : R) (p : Result String Parsed) (t : Turn W R)
        → after_parse with_tools step resp p t ≡ after_parse deps step resp p t
    unfolding after_parse
    after_parse-with_tools step resp (ok p) t = respond-with_tools step resp p t
    after_parse-with_tools step resp (err e) t = refl

    heard-with_tools :
        (step : ℕ) (r : Result String R × W) (t : Turn W R)
        → heard with_tools step r t ≡ heard deps step r t
    unfolding heard scrubbed
    heard-with_tools step (err e, w) t = refl
    heard-with_tools step (ok raw, w) t =
        let resp = scrubbed deps deps.steering w raw in
        after_parse-with_tools step resp (deps.mode.parse_response resp)
          (emit step (Event.model_response resp) (record t { world = w }))

    passes-with_tools :
        (left step : ℕ) (t : Turn W R) → passes with_tools left step t ≡ passes deps left step t
    unfolding passes pass applied
    passes-with_tools zero step t = refl
    passes-with_tools (suc left) step t =
        ap (λ m. ended_or m (λ u. passes with_tools left (suc step) u))
          (heard-with_tools step (deps.chat t.world _) _)
        ∙ ended_or-same (pass deps step t) _ _ (λ u. passes-with_tools left (suc step) u)

    -- If the gate lets no call pass, the whole turn is the same whatever the tools do: none of them
    -- is run.
    pub run_loop-with_tools :
        (user_text : String) (user_content : Option Json) (world : W) (conversation : List Json)
        → run_loop with_tools user_text user_content world conversation
          ≡ run_loop deps user_text user_content world conversation
    unfolding run_loop started
    run_loop-with_tools user_text user_content world conversation =
        passes-with_tools deps.max_steps 1 (started deps user_text user_content world conversation)
