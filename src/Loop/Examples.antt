-- ===== src/Loop/Examples.antt =====
-- engine/loop.py: turns on concrete models.
use argus_agent.Base.{
  ℕ, suc, ◌≤◌, String, ◌≡◌, ◌≢◌, ◌⊎◌, refl, true, false, Option, none, some, List, [], ◌∷◌, arith,
  nat_eq, string_eq, pair_eq,
}
use argus_agent.Base.Json.{Json, Fields}
use argus_agent.Base.Result.{Result, ok, err}
use argus_agent.Approvals.Requests.{Ask}
use argus_agent.Loop.Types.{
  Deps, Turn, Event, ToolCall, valid, Parsed, tool_call, Ran, returned, run_raised, Gated, passed,
  blocked,
}
use argus_agent.Loop.Run.{signature, run_loop}
use argus_agent.Loop.Kept.{tally, is_request, is_closing, is_call_of}
use argus_agent.Loop.Bounds.{run_loop-max_steps, run_loop-is_closing, run_loop-observer_threshold}
use argus_agent.Loop.Gating.{with_tools, run_loop-with_tools}

-- A search for cats.
abbrev search_call : ToolCall
search_call = record {
  tool = "web_search";
  args = Fields.field "query" (Json.text "Cats") Fields.end;
  call_id = none;
  repaired = false;
}

abbrev blocks : ℕ → Ask → Gated × ℕ
blocks w a = (blocked, w)

-- A model that searches for cats again and again; the world counts its answers.
abbrev searching : Option (ℕ → Ask → Gated × ℕ) → Deps ℕ Parsed (Unit {0})
searching gate = record {
  mode = record {
    build_request = λ w ms. Json.null;
    parse_response = λ r. ok r;
    is_truncated = λ r. false;
    reprompt_messages = λ r reason raw. [];
    tool_result_messages = λ r call result. result ∷ [];
  };
  registry = record {
    validate = λ w tool args. valid tt;
    get = λ w tool. some (record { terminal = false; echo_result = false });
    reveal = none;
  };
  chat = λ w req. (ok (tool_call search_call), suc w);
  max_steps = 6;
  enable_observer = true;
  observer_threshold = 2;
  fuzzy_repeat_window = 3;
  fuzzy_repeat_jaccard = record { num = 2; den = 5 };
  approvals = gate;
  run_tool = λ w tool args. (returned (Json.text "many cats"), w);
  record_friction = λ w kind tool n detail. w;
  steering = none;
  run_id = "r1";
  session_id = "s1";
  origin = "api";
  dumps = λ args. "{}";
  str_of = λ x. "";
  args_digest = λ args. "0";
  jsonable = λ args. Json.null;
}

abbrev cats : Result String Json × Turn ℕ Parsed
cats = run_loop (searching none) "cats?" none 0 []

run_loop-max_steps_example : tally is_request cats.1.trace ≤ 6
run_loop-max_steps_example = run_loop-max_steps (searching none) "cats?" none 0 []

run_loop-is_closing_example :
    ((answer : Json) × (cats.0 ≡ ok answer)
      × (last : ℕ × Event Parsed) × (older : List (ℕ × Event Parsed)) × (cats.1.trace
          ≡ last ∷ older)
      × (is_closing last.1 ≡ true)
      × (tally is_closing older ≡ 0))
    ⊎ ((e : String) × (cats.0 ≡ err e) × (tally is_closing cats.1.trace ≡ 0))
run_loop-is_closing_example = run_loop-is_closing (searching none) "cats?" none 0 []

run_loop-observer_threshold_example :
    tally (is_call_of (signature (searching none)) "web_search:{}") cats.1.trace ≤ 3
run_loop-observer_threshold_example =
    run_loop-observer_threshold (searching none) "cats?" none 0 [] "web_search:{}" refl

raises : ℕ → String → Unit {0} → Ran × ℕ
raises w tool args = (run_raised "no network", w)

blocks-passed : (w : ℕ) (a : Ask) → (blocks w a).0 ≢ passed
blocks-passed w a e = ground (arith, e)

run_loop-with_tools_example :
    run_loop (with_tools (searching (some blocks)) raises) "cats?" none 0 []
    ≡ run_loop (searching (some blocks)) "cats?" none 0 []
run_loop-with_tools_example =
    run_loop-with_tools (searching (some blocks)) raises blocks refl blocks-passed "cats?" none 0 []
