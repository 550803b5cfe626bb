-- ===== src/Loop/Parts.antt =====
-- engine/loop.py: what the parts of a pass before the gate add to the turn.
use argus_agent.Base.{
  ℕ, String, refl, not, ◌&&◌, Option, none, some, List, [], ◌∷◌, ◌==◌, nat_eq, string_eq, pair_eq,
  leb,
}
use argus_agent.Base.Json.{Json}
use argus_agent.Loop.Types.{Deps, Turn, Event, goes_on, emit, ToolCall, Validation, valid, invalid}
use argus_agent.Loop.Echo.{starts_with, message}
use argus_agent.Loop.Turn.{
  say, finish, recreate_check, recreated, created_name, stop_recreating, with_name, stop_repeating,
  with_call, count_of, no_progress, is_create,
}
use argus_agent.Loop.Run.{
  signature, carry_out, validated, validate_again, reveal_tool, reveal_event, is_known, ask_again,
  on_failure,
}
use argus_agent.Loop.Stages.{
  finish-Closes, Carried-after, Carried-if, ask_gate-Carried, refuse_call-Kept, world-Kept,
}
use argus_agent.Loop.Kept.{
  Kept, Kept-same, Kept-refl, Kept-if1, Kept-trans, emit-Kept, say-Kept, Carried,
}

module _ {W R V : Type 0} (deps : Deps W R V) where
  stop_recreating-Carried :
      (step : ℕ) (call : ToolCall) (name : String) (t : Turn W R)
      → Carried t (stop_recreating deps step call name (with_name deps call name t))
  unfolding stop_recreating
  stop_recreating-Carried step call name t =
      Carried-after _
        (Kept-trans (Kept-same {t' = with_name deps call name t} refl refl refl refl)
          (emit-Kept step _ (with_name deps call name t) refl))
        (finish-Closes step _ [] _)

  recreated-Carried :
      (step : ℕ) (call : ToolCall) (name : String) (t : Turn W R)
      → Carried t (recreated deps step call name t)
  unfolding recreated Carried
  recreated-Carried step call name t =
      Carried-if t (stop_recreating deps step call name (with_name deps call name t))
        (goes_on (with_name deps call name t)) _ (stop_recreating-Carried step call name t)
        (Kept-same refl refl refl refl)

  pub recreate_check-Carried :
      (step : ℕ) (call : ToolCall) (t : Turn W R) → Carried t (recreate_check deps step call t)
  unfolding recreate_check Carried
  recreate_check-Carried step call t =
      Carried-if t (recreated deps step call (created_name deps call) t) (goes_on t)
        (deps.enable_observer && is_create call.tool && not (created_name deps call == ""))
        (recreated-Carried step call (created_name deps call) t) (Kept-refl t)

  reveal_event-Kept :
      (step : ℕ) (names : List String) (t : Turn W R) → Kept t (reveal_event deps step names t)
  unfolding reveal_event
  reveal_event-Kept step [] t = Kept-refl t
  reveal_event-Kept step (n ∷ ns) t = emit-Kept step (Event.disclosure_reveal (n ∷ ns)) t refl

  reveal_tool-Kept :
      (step : ℕ) (call : ToolCall) (v : Validation V)
      (o : Option (W → List String → List String × W)) (t : Turn W R)
      → Kept t (reveal_tool deps step call v o t).1
  unfolding reveal_tool
  reveal_tool-Kept step call v none t = Kept-refl t
  reveal_tool-Kept step call v (some reveal) t =
      Kept-trans (world-Kept (reveal t.world (call.tool ∷ [])).1 t)
        (reveal_event-Kept step (reveal t.world (call.tool ∷ [])).0 _)

  validate_again-Kept :
      (step : ℕ) (call : ToolCall) (v : Validation V) (t : Turn W R)
      → Kept t (validate_again deps step call v t).1
  unfolding validate_again
  validate_again-Kept step call (valid v) t = Kept-refl t
  validate_again-Kept step call (invalid e) t =
      Kept-if1 (starts_with e "unknown tool" && is_known deps call.tool t)
        (reveal_tool deps step call (invalid e) deps.registry.reveal t) (invalid e, t)
        (reveal_tool-Kept step call (invalid e) deps.registry.reveal t) (Kept-refl t)

  pub validated-Kept :
      (step : ℕ) (call : ToolCall) (t : Turn W R) → Kept t (validated deps step call t).1
  unfolding validated
  validated-Kept step call t =
      Kept-trans
        (validate_again-Kept step call (deps.registry.validate t.world call.tool call.args) t)
        (emit-Kept step _ _ refl)

  pub carry_out-Carried :
      (step : ℕ) (resp : R) (call : ToolCall) (p : Validation V × Turn W R)
      → Carried p.1 (carry_out deps step resp call p)
  unfolding carry_out Carried
  carry_out-Carried step resp call (valid args, t) = ask_gate-Carried deps step resp call _ args t
  carry_out-Carried step resp call (invalid error, t) =
      refuse_call-Kept deps step resp call _ error t

  pub on_failure-Carried :
      (step : ℕ) (resp : R) (reason raw : String) (t : Turn W R)
      → Carried t (on_failure deps step resp reason raw t)
  unfolding on_failure Carried
  on_failure-Carried step resp reason raw t =
      Carried-if t _ _ (leb 1 t.parse_failures)
        (record {
          before = emit step (Event.parse_failed reason raw (deps.mode.is_truncated resp)) t;
          kept =
              emit-Kept step (Event.parse_failed reason raw (deps.mode.is_truncated resp)) t refl;
          last = (step, Event.gave_up reason);
          closing = refl;
          trace = refl;
          conversation = refl;
        })
        (Kept-trans
          (emit-Kept step (Event.parse_failed reason raw (deps.mode.is_truncated resp)) t refl)
          (Kept-trans (Kept-same refl refl refl refl) (
            Kept-trans (say-Kept (ask_again deps resp reason raw (deps.mode.is_truncated resp)) _)
              (emit-Kept step (Event.reprompt reason) _ refl))))

  pub stop_repeating-Closes :
      (step : ℕ) (call : ToolCall) (t : Turn W R)
      → Carried t (
          stop_repeating deps step call
            (signature deps call)
            (with_call deps (signature deps call) t))
  unfolding stop_repeating finish Carried
  stop_repeating-Closes step call t =
      let seen =
        count_of (signature deps call) (with_call deps (signature deps call) t).call_counts in
      let note = message "assistant" (Json.text no_progress) ∷ [] in
      record {
        before = say note (emit step (Event.stuck_repeating call.tool seen) t);
        kept =
            Kept-trans (emit-Kept step (Event.stuck_repeating call.tool seen) t refl)
              (say-Kept note _);
        last = (step, Event.final (Json.text no_progress) []);
        closing = refl;
        trace = refl;
        conversation = refl;
      }
