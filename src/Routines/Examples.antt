-- ===== src/Routines/Examples.antt =====
-- engine/routines: a routine that is saved, loaded and run.
use argus_agent.Base.{
  ℕ, ◌+◌, String, ◌≡◌, refl, Bool, true, false, Option, none, some, List, [], ◌∷◌, ◌==◌, string_eq,
  if◌then◌else◌,
}
use argus_agent.Base.Dict
use argus_agent.Base.Dict.{Dict}
use argus_agent.Base.Json.{Json}
use argus_agent.Base.Result.{ok, err}
use argus_agent.Routines.{Step, Routine, Delivery, validate_routine, load_dir}
use argus_agent.Routines.Valid.{IsValid, validate_routine-IsValid}
use argus_agent.Routines.Reload.{Act, saves, deletes, removes, run, load_dir-run}
use argus_agent.Routines.Executor.{Ops, Plan, accepted}
use argus_agent.Routines.Stopped.{Follows, run-Follows}

abbrev tool_step : Option String → String → Bool → Step
tool_step id tool optional = record {
  type = some "tool";
  id = id;
  tool = some tool;
  args = none;
  prompt = none;
  skill = none;
  optional = optional;
}

abbrev nowhere : Delivery
nowhere = record { channel = none; subject = none }

abbrev morning : Routine
morning = record {
  name = "morning";
  steps = some (tool_step none "weather" true) ∷ some (tool_step (some "news") "search" false) ∷ [];
  output = "news";
  deliver = nowhere;
  about = Json.null;
}

abbrev checked_steps : List Step
checked_steps =
    tool_step (some "weather") "weather" true ∷ tool_step (some "news") "search" false ∷ []

abbrev checked_morning : Routine
checked_morning = record morning {
  steps =
      some (tool_step (some "weather") "weather" true)
      ∷ some (tool_step (some "news") "search" false)
      ∷ [];
}

validate_routine-IsValid_example : IsValid (some ("weather" ∷ "search" ∷ [])) none checked_morning
unfolding validate_routine
validate_routine-IsValid_example =
    validate_routine-IsValid (some ("weather" ∷ "search" ∷ [])) none morning checked_morning refl

abbrev same : Routine → Routine
same r = r

abbrev acts : List Act
acts = saves none none morning ∷ deletes false "evening" ∷ []

load_dir-run_example :
    Dict.get "morning" (load_dir some (("morning", checked_morning) ∷ []) [])
    ≡ Dict.get "morning" (run same acts (record { routines = []; files = [] })).routines
unfolding run Dict.get Dict.put argus_agent.Routines.delete argus_agent.Routines.save removes
load_dir-run_example =
    load_dir-run same some (λ r. refl) acts (("morning", checked_morning) ∷ []) "morning" refl
      (record { each = (refl, tt); all = λ k. refl })

-- A weather service that is down, and a search that works; the world is the number of calls.
abbrev ops : Ops ℕ
ops = record {
  lower = λ s. s;
  loads = λ s. none;
  builtins = λ w. [];
  time = λ w. w;
  run_tool =
      λ session tool args w. (if tool == "search" then ok "headlines" else err "down", w + 1);
  run_model = λ session prompt skill w. (ok "", w + 1);
  emit = λ sid type good ms out w. w;
  on_result = λ summary w. w;
  send = some (λ channel output subject session w. (accepted, w));
  timeout = 300000000;
  shown_timeout = "300";
}

abbrev plan : Plan
plan = record { name = "morning"; steps = checked_steps; output = "news"; deliver = nowhere }

run-Follows_example :
    Follows plan.steps (argus_agent.Routines.Executor.run ops plan "s" true [] 0).0.steps
run-Follows_example = run-Follows ops plan "s" true [] 0
