-- ===== src/Routines/Executor.antt =====
-- engine/routines/executor.py: `RoutineExecutor.run`. Tools, the model, the notifier, the clock and the
-- callbacks are operations on a world `W`; a call that raises gives the text of its exception. The
-- steps are those of a routine that was validated.
use argus_agent.Base.{
  ℕ, ◌-◌, ◌/◌, String, Bool, true, false, not, ◌&&◌, ◌||◌, Option, none, some, List, [], ◌∷◌, ◌++◌,
  ◌==◌, string_eq, keep, length, if◌then◌else◌, ltb,
}
use argus_agent.Base.Dict
use argus_agent.Base.Dict.{Dict, is_some}
use argus_agent.Base.Json.{Json, Items, Fields, is_zero}
use argus_agent.Base.Result.{Result, ok, err}
use argus_agent.Base.Text
use argus_agent.Loop.Echo.{joined, text_take}
use argus_agent.Routines.{Step, Delivery, shown, has_text, is_type}
use argus_agent.Routines.Template.{substitute, render_args}

pub record StepResult : Type 0 where
  pub id : String
  pub type : String
  pub ok : Bool
  pub output : String
  pub error : Option String
  pub ms : ℕ

pub record RoutineResult : Type 0 where
  pub name : String
  pub ok : Bool
  pub output : String
  pub steps : List StepResult
  pub error : Option String
  pub delivered : Bool
  pub delivery_error : Option String

-- What `on_result` is given.
pub record Summary : Type 0 where
  pub name : String
  pub ok : Bool
  pub delivered : Bool
  pub delivery_error : Option String
  pub ms : ℕ
  pub steps_ok : ℕ
  pub steps_total : ℕ

pub data Sent : Type 0 where
  accepted : Sent
  refused : String → Sent
  send_raised : String → Sent

-- `builtins` are the variables of the day and the time; the clock counts microseconds.
pub record Ops (W : Type 0) : Type 0 where
  pub lower : String → String
  pub loads : String → Option Json
  pub builtins : W → Dict String String
  pub time : W → ℕ
  pub run_tool : String → String → Json → W → Result String String × W
  pub run_model : String → String → Option String → W → Result String String × W
  pub emit : String → String → Bool → ℕ → String → W → W
  pub on_result : Summary → W → W
  pub send : Option (String → String → String → String → W → Sent × W)
  pub timeout : ℕ
  pub shown_timeout : String

-- The steps of a validated routine, and the rest of it.
pub record Plan : Type 0 where
  pub name : String
  pub steps : List Step
  pub output : String
  pub deliver : Delivery

-- A run of the steps came to their end, or was stopped with an error.
pub data Ended (W : Type 0) : Type 0 where
  finished : Dict String String → List StepResult → W → Ended W
  stopped : String → List StepResult → W → Ended W

-- `d.update(e)`
updated : Dict String String → Dict String String → Dict String String
updated [] d = d
updated ((k, v) ∷ e) d = updated e (Dict.put k v d)

-- `args or {}`
args_of : Option Json → Json
unfolding is_zero
args_of none = Json.object Fields.end
args_of (some Json.null) = Json.object Fields.end
args_of (some (Json.bool b)) = if b then Json.bool b else Json.object Fields.end
args_of (some (Json.number n)) = if is_zero n then Json.object Fields.end else Json.number n
args_of (some (Json.text s)) = if s == "" then Json.object Fields.end else Json.text s
args_of (some (Json.array Items.nil)) = Json.object Fields.end
args_of (some (Json.array (Items.cons x xs))) = Json.array (Items.cons x xs)
args_of (some (Json.object m)) = Json.object m

abbrev text_of : Result String String → String
text_of (ok out) = out
text_of (err out) = out

abbrev pub succeeded : Result String String → Bool
succeeded (ok out) = true
succeeded (err out) = false

abbrev pub step_result : String → String → ℕ → Result String String → StepResult
step_result sid type ms (ok out) = record {
  id = sid;
  type = type;
  ok = true;
  output = out;
  error = none;
  ms = ms;
}
step_result sid type ms (err out) = record {
  id = sid;
  type = type;
  ok = false;
  output = "";
  error = some out;
  ms = ms;
}

-- `self.output or steps[-1]["id"]`, with the id of the last step.
last_id : List Step → String
unfolding shown
last_id [] = ""
last_id (s ∷ []) = shown s.id
last_id (s ∷ t ∷ ss) = last_id (t ∷ ss)

output_id : Plan → String
unfolding last_id
output_id plan = if plan.output == "" then last_id plan.steps else plan.output

or_default : Option String → String → String
or_default none other = other
or_default (some s) other = s

-- After a step: a failure that counts ends the run, and so does the time; else the rest is run.
abbrev pub step_end :
    {W : Type 0} → Bool → String → Bool → String → List StepResult → W → Ended W → Ended W
step_end true why over late done w rest = stopped why done w
step_end false why true late done w rest = stopped late done w
step_end false why false late done w rest = rest

module _ {W : Type 0} (ops : Ops W) where
  call_tool : String → Option String → Json → W → Result String String × W
  call_tool session_id none args w = (err "KeyError: 'tool'", w)
  call_tool session_id (some tool) args w = ops.run_tool session_id tool args w

  call_model :
      String → Option String → Option String → Dict String String → W → Result String String × W
  call_model session_id none skill ctx w = (err "KeyError: 'prompt'", w)
  call_model session_id (some prompt) skill ctx w =
      ops.run_model session_id (substitute ops.lower ops.loads prompt ctx) skill w

  call_step : String → Step → Dict String String → W → Result String String × W
  unfolding call_tool call_model args_of
  call_step session_id s ctx w =
      if is_type "tool" s.type
      then call_tool session_id s.tool (render_args ops.lower ops.loads ctx (args_of s.args)) w
      else call_model session_id s.prompt s.skill ctx w

  unfoldable pub run_steps :
      String → String → ℕ → List Step → Dict String String → List StepResult → W → Ended W
  unfolding call_step shown text_take
  run_steps name session_id start [] ctx results w = finished ctx results w
  run_steps name session_id start (s ∷ steps) ctx results w =
      let called = call_step session_id s ctx w in
      let out = text_of called.0 in
      let ms = (ops.time called.1 - ops.time w) / 1000 in
      let sid = shown s.id in
      let done = results ++ step_result sid (shown s.type) ms called.0 ∷ [] in
      let next = ops.emit sid (shown s.type) (succeeded called.0) ms (text_take 120 out) called.1 in
      let rest = run_steps name session_id start steps (Dict.put sid out ctx) done next in
      step_end (not (succeeded called.0) && not s.optional)
        (joined ("Routine '" ∷ name ∷ "' stopped at step '" ∷ sid ∷ "': " ∷ text_take 200 out ∷ []))
        (ltb ops.timeout (ops.time next - start))
        (joined ("Routine '" ∷ name ∷ "' exceeded its " ∷ ops.shown_timeout ∷ "s time budget" ∷ []))
        done next rest

  summary : RoutineResult → ℕ → W → Summary
  summary r start w = record {
    name = r.name;
    ok = r.ok;
    delivered = r.delivered;
    delivery_error = r.delivery_error;
    ms = (ops.time w - start) / 1000;
    steps_ok = length (keep (λ s. s.ok) r.steps);
    steps_total = length r.steps;
  }

  unfoldable pub finish_run : RoutineResult → ℕ → W → RoutineResult × W
  unfolding summary
  finish_run r start w = (r, ops.on_result (summary r start w) w)

  unfoldable pub told : Sent × W → (Bool × Option String) × W
  told (accepted, w) = ((true, none), w)
  told (refused detail, w) = ((false, some detail), w)
  told (send_raised e, w) = ((false, some e), w)

  unfoldable pub sent_by :
      Option (String → String → String → String → W → Sent × W)
      → Plan
      → String
      → String
      → W
      → (Bool × Option String) × W
  unfolding told shown or_default Text.is_blank
  sent_by none plan session_id output w = ((false, none), w)
  sent_by (some send) plan session_id output w =
      if not (has_text plan.deliver.channel) || shown plan.deliver.channel == "none"
      then ((false, none), w)
      else if Text.is_blank output
      then ((false, some "routine produced no output to deliver"), w)
      else told (
          send (shown plan.deliver.channel) output (or_default plan.deliver.subject plan.name)
            session_id w)

  -- Whether the output was delivered, and why not.
  unfoldable pub deliver_output : Bool → Plan → String → String → W → (Bool × Option String) × W
  unfolding sent_by
  deliver_output wanted plan session_id output w =
      if wanted then sent_by ops.send plan session_id output w else ((false, none), w)

  unfoldable pub conclude : Bool → Plan → String → ℕ → Ended W → RoutineResult × W
  unfolding finish_run deliver_output output_id or_default
  conclude wanted plan session_id start (stopped e results w) =
      finish_run
        (record {
          name = plan.name;
          ok = false;
          output = e;
          steps = results;
          error = some e;
          delivered = false;
          delivery_error = none;
        })
        start w
  conclude wanted plan session_id start (finished ctx results w) =
      let output = or_default (Dict.get (output_id plan) ctx) "" in
      let ((delivered, delivery_error), after) = deliver_output wanted plan session_id output w in
      finish_run
        (record {
          name = plan.name;
          ok = true;
          output = output;
          steps = results;
          error = none;
          delivered = delivered;
          delivery_error = delivery_error;
        })
        start after

  unfoldable pub run : Plan → String → Bool → Dict String String → W → RoutineResult × W
  unfolding conclude run_steps updated
  run plan session_id wanted seed w =
      let ctx = updated seed (Dict.put "routine" plan.name (ops.builtins w)) in
      conclude wanted plan session_id (ops.time w)
        (run_steps plan.name session_id (ops.time w) plan.steps ctx [] w)
