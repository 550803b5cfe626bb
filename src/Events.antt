-- ===== src/Events.antt =====
-- engine/events.py: `EventBus`. The sinks are operations on a world `W`, and what one raises is ignored;
-- a subscriber is its filter and the events that wait in its queue.
pub mod Recent
mod Examples
use argus_agent.Base.{
  ℕ, ◌-◌, String, Bool, true, false, not, ◌&&◌, ◌||◌, Option, none, some, List, [], ◌∷◌, ◌++◌, map,
  ◌==◌, string_eq, drop, length, if◌then◌else◌,
}
use argus_agent.Base.Dict
use argus_agent.Base.Dict.{Dict}
use argus_agent.Base.Json.{Fields}

pub record StepEvent : Type 0 where
  pub run_id : String
  pub session_id : String
  pub step : ℕ
  pub kind : String
  pub payload : Fields
  pub ts : ℕ

pub record Subscriber : Type 0 where
  pub session_filter : Option String
  pub queue : List StepEvent

pub record EventBus (W : Type 0) : Type 0 where
  pub maxlen : ℕ
  pub history : Dict String (List StepEvent)
  pub subscribers : List Subscriber
  pub sinks : List (StepEvent → W → W)

-- What a deque of a maximal length keeps: the items from the end.
unfoldable pub newest : ℕ → List StepEvent → List StepEvent
newest n events = drop (length events - n) events

unfoldable pub or_no_events : Option (List StepEvent) → List StepEvent
or_no_events none = []
or_no_events (some events) = events

is_wanted : Option String → String → Bool
is_wanted none session_id = true
is_wanted (some wanted) session_id = wanted == session_id

unfoldable pub queued : StepEvent → Subscriber → Subscriber
unfolding is_wanted
queued ev s =
    if is_wanted s.session_filter ev.session_id then record s { queue = s.queue ++ ev ∷ [] } else s

sunk : {W : Type 0} → StepEvent → List (StepEvent → W → W) → W → W
sunk ev [] w = w
sunk ev (sink ∷ sinks) w = sunk ev sinks (sink ev w)

module _ {W : Type 0} where
  pub new_bus : ℕ → EventBus W
  new_bus maxlen = record { maxlen = maxlen; history = []; subscribers = []; sinks = [] }

  pub add_sink : (StepEvent → W → W) → EventBus W → EventBus W
  add_sink fn bus = record bus { sinks = bus.sinks ++ fn ∷ [] }

  pub recent : String → EventBus W → List StepEvent
  unfolding or_no_events
  recent session_id bus = or_no_events (Dict.get session_id bus.history)

  abbrev pub noted : StepEvent → EventBus W → EventBus W
  noted ev bus = record bus {
    history =
        Dict.put ev.session_id (newest bus.maxlen (recent ev.session_id bus ++ ev ∷ []))
          bus.history;
    subscribers = map (queued ev) bus.subscribers;
  }

  pub publish : StepEvent → EventBus W → W → EventBus W × W
  unfolding recent newest queued sunk
  publish ev bus w = (noted ev bus, sunk ev bus.sinks w)

  pub clear : String → EventBus W → EventBus W
  clear session_id bus = record bus { history = Dict.remove session_id bus.history }

  pub subscribe : Option String → EventBus W → EventBus W
  subscribe session_filter bus = record bus {
    subscribers = bus.subscribers ++ record { session_filter = session_filter; queue = [] } ∷ [];
  }
