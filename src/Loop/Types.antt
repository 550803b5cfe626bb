-- ===== src/Loop/Types.antt =====
-- engine/loop.py, engine/protocol.py and engine/tools/base.py: what the loop works on. The mode, the
-- registry, the model client, the gate and the steering channel are operations on a world `W`; `R`
-- is the type of the model's responses and `V` that of validated arguments.
use argus_agent.Base.{ℕ, String, Bool, Option, List, ◌∷◌}
use argus_agent.Base.Dict.{Dict}
use argus_agent.Base.Json.{Json, Fields}
use argus_agent.Base.Result.{Result}
use argus_agent.Approvals.Requests.{Ask}
use argus_agent.Loop.Words.{Word, Fraction}

pub record ToolCall : Type 0 where
  pub tool : String
  pub args : Fields
  pub call_id : Option String
  pub repaired : Bool

pub data Parsed : Type 0 where
  tool_call : ToolCall → Parsed
  unnamed_call : Json → Fields → Parsed  -- the name of the tool is no text
  final_answer : String → Parsed
  parse_failure : String → String → Parsed

pub data Validation (V : Type 0) : Type 0 where
  valid : V → Validation V
  invalid : String → Validation V

pub record Tool : Type 0 where
  pub terminal : Bool
  pub echo_result : Bool

-- The gate lets the call pass or blocks it, ends the turn, or raises.
pub data Gated : Type 0 where
  passed blocked : Gated
  held : String → String → String → Gated  -- message, request and kind of a TurnPaused
  gate_raised : String → Gated

pub data Ran : Type 0 where
  returned : Json → Ran
  run_held : String → String → String → Ran
  run_raised : String → Ran

pub record Registry (W V : Type 0) : Type 0 where
  pub validate : W → String → Fields → Validation V
  pub get : W → String → Option Tool
  pub reveal : Option (W → List String → List String × W)

pub record Steering (W R : Type 0) : Type 0 where
  pub apply : W → Json → Json
  pub scrub_response : W → R → R
  pub inspect : W → String → List String
  pub attach : W → String → (String × List String) × W

pub record Mode (W R : Type 0) : Type 0 where
  pub build_request : W → List Json → Json
  pub parse_response : R → Result String Parsed
  pub is_truncated : R → Bool
  pub reprompt_messages : R → String → String → List Json
  pub tool_result_messages : R → ToolCall → Json → List Json

-- `LoopDeps`, with the session's and the turn's ids, and the two functions of the standard library
-- and the hash that depend on a value's text.
pub record Deps (W R V : Type 0) : Type 0 where
  pub mode : Mode W R
  pub registry : Registry W V
  pub chat : W → Json → Result String R × W
  pub max_steps : ℕ
  pub enable_observer : Bool
  pub observer_threshold : ℕ
  pub fuzzy_repeat_window : ℕ
  pub fuzzy_repeat_jaccard : Fraction
  pub approvals : Option (W → Ask → Gated × W)
  pub run_tool : W → String → V → Ran × W
  pub record_friction : W → String → Option String → ℕ → String → W
  pub steering : Option (Steering W R)
  pub run_id : String
  pub session_id : String
  pub origin : String
  pub dumps : Fields → String
  pub str_of : Json → String
  pub args_digest : V → String
  pub jsonable : V → Json

pub data Event (R : Type 0) : Type 0 where
  info : String → Event R
  model_request : Json → Event R
  model_response : R → Event R
  model_error : String → Event R
  parse_failed : String → String → Bool → Event R
  gave_up : String → Event R
  reprompt : String → Event R
  called : ToolCall → Event R
  called_unnamed : Json → Fields → Event R
  stuck_recreating : String → String → ℕ → Event R
  stuck_repeating : String → ℕ → Event R
  repeat_nudge : String → ℕ → Event R
  fuzzy_repeat_nudge : String → ℕ → Event R
  create_without_verify : ℕ → Event R
  disclosure_reveal : List String → Event R
  validation : String → Option String → Event R
  steer_rejected : List String → String → Event R
  steer : List String → Event R
  tool_result : String → Bool → Json → Event R
  paused : String → String → Event R
  final : Json → List String → Event R
  max_steps_exceeded : ℕ → Event R

-- The local variables of `run_loop`, the conversation and the trace, newest event first.
pub record Turn (W R : Type 0) : Type 0 where
  pub world : W
  pub conversation : List Json
  pub trace : List (ℕ × Event R)
  pub parse_failures : ℕ
  pub pending_echo : List String
  pub call_counts : Dict String ℕ
  pub create_names : Dict String ℕ
  pub consecutive_creates : ℕ
  pub create_verify_nudged : Bool
  pub recent_calls : List (String × List Word)
  pub fuzzy_repeat_nudged : Bool
  pub last_result : Dict String String

-- One pass of the loop goes on to the next, returns, or raises what nothing in the loop catches.
pub data Next (W R : Type 0) : Type 0 where
  goes_on : Turn W R → Next W R
  returns : Json → Turn W R → Next W R
  raises : String → Turn W R → Next W R

module _ {W R : Type 0} where
  abbrev pub emit : ℕ → Event R → Turn W R → Turn W R
  emit step e t = record t { trace = (step, e) ∷ t.trace }
