-- ===== src/Modes.antt =====
-- engine/protocol.py and engine/modes/base.py: what the modes of tool calling read and return. A raw
-- tool call of the model is the JSON object that the provider sent, and the functions of the standard
-- library that a mode calls are the fields of `Library`.
pub mod Extract
pub mod Manual
pub mod Markup
pub mod Native
pub mod Finish
pub mod Balanced
pub mod Debris
pub mod Answers
pub mod Finished
pub mod Protocol
pub mod Raised
pub mod Envelope
mod Examples
use argus_agent.Base.{
  ℕ, String, Bool, true, Option, none, some, List, ◌==◌, string_eq, if◌then◌else◌,
}
use argus_agent.Base.Json.{Json, Fields}
use argus_agent.Base.Result.{Result, ok, err}
use argus_agent.Base.Text
use argus_agent.Loop.Echo.{joined}
use argus_agent.Tools.{Offer}
use mathlib.Core.List.{[], ◌∷◌}

pub record ToolCall : Type 0 where
  pub tool : Json
  pub args : Fields
  pub call_id : Json
  pub raw : Option Json
  pub repaired : Bool

pub data ParseResult : Type 0 where
  tool_call : ToolCall → ParseResult
  final_answer : String → ParseResult
  parse_failure : String → String → ParseResult  -- the reason and the raw text

pub record ModelResponse : Type 0 where
  pub content : Option String
  pub tool_calls : List Fields
  pub finish_reason : Option String
  pub usage : Fields
  pub reasoning : Option String

-- `messages`, and what a native mode sends beside them.
pub record Request : Type 0 where
  pub messages : List Json
  pub tools : Option (List Offer)
  pub tool_choice : Option String

-- What `json.loads` raises: a JSONDecodeError, or another error, as for a number of too many digits
-- (ValueError) or a value that is nested too deep (RecursionError).
pub data LoadError : Type 0 where
  malformed other_error : String → LoadError

pub record Library : Type 0 where
  pub loads : String → Result LoadError Json
  pub str_of : Json → String
  pub repr_of : Json → String
  pub is_alnum : ℕ → Bool
  pub equal : Json → Json → Bool

pub data Mode : Type 0 where
  native : Mode
  native_finish : Mode
  manual : List String → Mode  -- the names that the registry knew

abbrev pub value_error : String → String
value_error name = joined (
    "unknown tool_calling_mode: " ∷ name ∷ " (expected 'native', 'native_finish', or 'manual')"
    ∷ [])

-- The modes by name; `known` holds the names of the registry, if there is one.
pub get_mode : Library → String → Option (List String) → Result String Mode
get_mode lib name known =
    if name == "native"
    then ok Mode.native
    else if name == "native_finish"
    then ok Mode.native_finish
    else if name == "manual"
    then ok (Mode.manual (elim known [ none ↦ [] | some names ↦ names ]))
    else err (value_error (lib.repr_of (Json.text name)))

-- `resp.content or ""`
unfoldable pub content_or_empty : ModelResponse → String
content_or_empty r = elim r.content [ none ↦ "" | some s ↦ s ]
