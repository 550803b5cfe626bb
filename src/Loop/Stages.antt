-- ===== src/Loop/Stages.antt =====
-- engine/loop.py: what each part of a pass adds to the turn.
use argus_agent.Base.{
  ℕ, String, refl, Bool, true, false, not, ◌&&◌, Option, none, some, List, [], ◌∷◌, nat_eq,
  string_eq, pair_eq, if◌then◌else◌, leb,
}
use argus_agent.Base.Json.{Json}
use argus_agent.Approvals.Requests.{Ask}
use argus_agent.Loop.Types.{
  Deps, Turn, Event, Next, goes_on, returns, raises, ToolCall, Tool, Ran, returned, run_held,
  run_raised, Gated, passed, blocked, held, gate_raised, Steering,
}
use argus_agent.Loop.Turn.{
  say, finish, steered, for_model, observer_repeat_check, attached, landed_event, flag_markers,
  create_verify_note,
}
use argus_agent.Loop.Echo.{message}
use argus_agent.Loop.Calls.{
  refuse_call, block_call, create_check, conclude, failed, pause, ran, execute, gated, question,
  through, ask_gate, tell, is_terminal, creates_after, options_of,
}
use argus_agent.Loop.Kept.{
  Kept, Kept-same, Kept-refl, Kept-trans, emit-Kept, say-Kept, Kept-if, Carried,
}

module _ {W R : Type 0} where
  pub finish-Closes :
      (step : ℕ) (answer : Json) (options : List String) (t : Turn W R)
      → Carried t (finish step answer options t)
  unfolding finish Carried
  finish-Closes step answer options t = record {
    before = say (message "assistant" answer ∷ []) t;
    kept = say-Kept (message "assistant" answer ∷ []) t;
    last = (step, Event.final answer options);
    closing = refl;
    trace = refl;
    conversation = refl;
  }

  pub Carried-after : {t u : Turn W R} (n : Next W R) → Kept t u → Carried u n → Carried t n
  unfolding Carried
  Carried-after (goes_on v) g h = Kept-trans g h
  Carried-after (raises e v) g h = Kept-trans g h
  Carried-after (returns a v) g h = record {
    before = h.before;
    kept = Kept-trans g h.kept;
    last = h.last;
    closing = h.closing;
    trace = h.trace;
    conversation = h.conversation;
  }

  pub Carried-if :
      (t : Turn W R) (m n : Next W R) (b : Bool)
      → Carried t m
      → Carried t n
      → Carried t (if b then m else n)
  Carried-if t m n true g h = g
  Carried-if t m n false g h = h

  flag_markers-Kept :
      (step : ℕ) (tool text : String) (ms : List String) (t : Turn W R)
      → Kept t (flag_markers step tool text ms t).1
  unfolding flag_markers
  flag_markers-Kept step tool text [] t = Kept-refl t
  flag_markers-Kept step tool text (m ∷ ms) t =
      emit-Kept step (Event.steer_rejected (m ∷ ms) tool) t refl

  landed_event-Kept : (step : ℕ) (ms : List String) (t : Turn W R) → Kept t (landed_event step ms t)
  unfolding landed_event
  landed_event-Kept step [] t = Kept-refl t
  landed_event-Kept step (m ∷ ms) t = emit-Kept step (Event.steer (m ∷ ms)) t refl

  pub world-Kept : (w : W) (t : Turn W R) → Kept t (record t { world = w })
  world-Kept w t = Kept-same refl refl refl refl

  attached-Kept :
      (step : ℕ) (p : String × Turn W R) (attach : String → Turn W R → (String × List String) × W)
      → Kept p.1 (attached step p attach).1
  unfolding attached
  attached-Kept step p attach =
      Kept-trans (world-Kept (attach p.0 p.1).1 p.1) (landed_event-Kept step (attach p.0 p.1).0.1 _)

  steered-Kept :
      (o : Option (Steering W R)) (step : ℕ) (tool result : String) (t : Turn W R)
      → Kept t (steered o step tool result t).1
  unfolding steered
  steered-Kept none step tool result t = Kept-refl t
  steered-Kept (some s) step tool result t =
      Kept-trans (flag_markers-Kept step tool result (s.inspect t.world result) t) (
        attached-Kept step (flag_markers step tool result (s.inspect t.world result) t)
          (λ text u. s.attach u.world text))

module _ {W R V : Type 0} (deps : Deps W R V) where
  pub for_model-Kept :
      (step : ℕ) (tool : String) (result : Json) (t : Turn W R)
      → Kept t (for_model deps step tool result t).1
  unfolding for_model
  for_model-Kept step tool (Json.text result) t = steered-Kept deps.steering step tool result t
  for_model-Kept step tool Json.null t = Kept-refl t
  for_model-Kept step tool (Json.bool b) t = Kept-refl t
  for_model-Kept step tool (Json.number b) t = Kept-refl t
  for_model-Kept step tool (Json.array b) t = Kept-refl t
  for_model-Kept step tool (Json.object b) t = Kept-refl t

  observer_repeat_check-Kept :
      (step : ℕ) (call : ToolCall) (sig : String) (t : Turn W R)
      → Kept t (observer_repeat_check deps step call sig t)
  unfolding observer_repeat_check
  observer_repeat_check-Kept step call sig t =
      Kept-if _ (Kept-trans (say-Kept _ t) (emit-Kept step _ _ refl)) (Kept-refl t)

  tell-Kept :
      (step : ℕ) (resp : R) (call : ToolCall) (result : String) (t : Turn W R)
      → Kept t (tell deps step resp call result t)
  unfolding tell
  tell-Kept step resp call result t =
      Kept-trans (for_model-Kept step call.tool (Json.text result) t) (say-Kept _ _)

  pub refuse_call-Kept :
      (step : ℕ) (resp : R) (call : ToolCall) (sig error : String) (t : Turn W R)
      → Kept t (refuse_call deps step resp call sig error t)
  unfolding refuse_call
  refuse_call-Kept step resp call sig error t = Kept-trans (tell-Kept step resp call _ t) (
      Kept-trans (emit-Kept step _ _ refl)
        (Kept-trans (Kept-same refl refl refl refl) (observer_repeat_check-Kept step call sig _)))

  pub block_call-Kept :
      (step : ℕ) (resp : R) (call : ToolCall) (t : Turn W R)
      → Kept t (block_call deps step resp call t)
  unfolding block_call
  block_call-Kept step resp call t =
      Kept-trans (tell-Kept step resp call _ t) (emit-Kept step _ _ refl)

  create_check-Kept :
      (step : ℕ) (call : ToolCall) (t : Turn W R) → Kept t (create_check deps step call t)
  unfolding create_check
  create_check-Kept step call t =
      let n = creates_after call t.consecutive_creates in
      let spoken = say (message "user" (Json.text create_verify_note) ∷ []) t in
      let nudged = record spoken { consecutive_creates = n; create_verify_nudged = true } in
      Kept-if (deps.enable_observer && leb 3 n && not t.create_verify_nudged)
        (Kept-trans (say-Kept (message "user" (Json.text create_verify_note) ∷ []) t) (
          Kept-trans (Kept-same {t' = nudged} refl refl refl refl)
            (emit-Kept step (Event.create_without_verify n) nudged refl)))
        (Kept-same {t' = record t { consecutive_creates = n }} refl refl refl refl)

  pub conclude-Carried :
      (step : ℕ) (resp : R) (call : ToolCall) (sig : String) (tool : Option Tool) (result : Json)
      (t : Turn W R)
      → Carried t (conclude deps step resp call sig tool result t)
  unfolding conclude Carried
  conclude-Carried step resp call sig tool result t =
      Carried-if t _ _ (is_terminal tool)
        (finish-Closes step result (options_of deps.str_of call) t)
        (Kept-trans (for_model-Kept step call.tool result t) (
          Kept-trans (say-Kept _ _) (
            Kept-trans (Kept-same refl refl refl refl) (
              Kept-trans (observer_repeat_check-Kept step call sig _)
                (create_check-Kept step call _)))))

  failed-Carried :
      (step : ℕ) (resp : R) (call : ToolCall) (sig : String) (tool : Option Tool) (error : String)
      (t : Turn W R)
      → Carried t (failed deps step resp call sig tool error t)
  unfolding failed
  failed-Carried step resp call sig tool error t =
      Carried-after _ (emit-Kept step _ t refl) (conclude-Carried step resp call sig tool _ _)

  pause-Carried :
      (step : ℕ) (note req_id kind : String) (t : Turn W R)
      → Carried t (pause deps step note req_id kind t)
  unfolding pause Carried
  pause-Carried step note req_id kind t = record {
    before = say (message "assistant" (Json.text note) ∷ []) t;
    kept = say-Kept _ t;
    last = (step, Event.paused req_id kind);
    closing = refl;
    trace = refl;
    conversation = refl;
  }

  ran-Carried :
      (step : ℕ) (resp : R) (call : ToolCall) (sig : String) (tool : Option Tool) (r : Ran)
      (t : Turn W R)
      → Carried t (ran deps step resp call sig tool r t)
  unfolding ran
  ran-Carried step resp call sig tool (returned result) t =
      Carried-after _
        (Kept-trans (emit-Kept step (Event.tool_result call.tool true result) t refl)
          (Kept-same refl refl refl refl))
        (conclude-Carried step resp call sig tool result _)
  ran-Carried step resp call sig tool (run_held note req_id kind) t =
      pause-Carried step note req_id kind t
  ran-Carried step resp call sig tool (run_raised error) t =
      failed-Carried step resp call sig tool error t

  execute-Carried :
      (step : ℕ) (resp : R) (call : ToolCall) (sig : String) (tool : Option Tool) (args : V)
      (t : Turn W R)
      → Carried t (execute deps step resp call sig tool args t)
  unfolding execute
  execute-Carried step resp call sig none args t =
      ran-Carried step resp call sig none (run_raised "'NoneType' object has no attribute 'run'") t
  execute-Carried step resp call sig (some tool) args t =
      Carried-after _ (world-Kept (deps.run_tool t.world call.tool args).1 t)
        (ran-Carried step resp call sig (some tool) _ _)

  gated-Carried :
      (step : ℕ) (resp : R) (call : ToolCall) (sig : String) (tool : Option Tool) (args : V)
      (g : Gated) (t : Turn W R)
      → Carried t (gated deps step resp call sig tool args g t)
  unfolding gated Carried
  gated-Carried step resp call sig tool args passed t =
      execute-Carried step resp call sig tool args t
  gated-Carried step resp call sig tool args blocked t = block_call-Kept step resp call t
  gated-Carried step resp call sig tool args (held note req_id kind) t =
      pause-Carried step note req_id kind t
  gated-Carried step resp call sig tool args (gate_raised error) t =
      failed-Carried step resp call sig tool error t

  through-Carried :
      (o : Option (W → Ask → Gated × W)) (step : ℕ) (resp : R) (call : ToolCall) (sig : String)
      (tool : Option Tool) (args : V) (t : Turn W R)
      → Carried t (through deps o step resp call sig tool args t)
  unfolding through
  through-Carried none step resp call sig tool args t =
      execute-Carried step resp call sig tool args t
  through-Carried (some gate) step resp call sig tool args t =
      Carried-after _ (world-Kept (gate t.world (question deps step call args t)).1 t)
        (gated-Carried step resp call sig tool args _ _)

  pub ask_gate-Carried :
      (step : ℕ) (resp : R) (call : ToolCall) (sig : String) (args : V) (t : Turn W R)
      → Carried t (ask_gate deps step resp call sig args t)
  unfolding ask_gate
  ask_gate-Carried step resp call sig args t =
      through-Carried deps.approvals step resp call sig _ args t
