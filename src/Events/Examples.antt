-- ===== src/Events/Examples.antt =====
-- engine/events.py: a bus that keeps two events of every session.
use argus_agent.Base.{ℕ, suc, String, ◌≡◌, some, List, [], ◌∷◌}
use argus_agent.Base.Json.{Fields}
use argus_agent.Events.{StepEvent, newest, new_bus, recent}
use argus_agent.Events.Recent.{
  Act, publishes, clears, subscribes, adds_sink, since, run, recent-run,
}

abbrev event : String → ℕ → StepEvent
event session_id step = record {
  run_id = "r1";
  session_id = session_id;
  step = step;
  kind = "info";
  payload = Fields.end;
  ts = step;
}

-- The world counts what a sink was given.
abbrev acts : List (Act ℕ)
acts =
    subscribes (some "s1")
    ∷ adds_sink (λ ev n. suc n)
    ∷ publishes (event "s1" 1)
    ∷ clears "s1"
    ∷ publishes (event "s1" 2)
    ∷ publishes (event "s2" 3)
    ∷ publishes (event "s1" 4)
    ∷ publishes (event "s1" 5)
    ∷ []

recent-run_example : recent "s1" (run acts (new_bus 2) 0).0 ≡ newest 2 (since "s1" [] acts)
recent-run_example = recent-run acts 2 0 "s1"
