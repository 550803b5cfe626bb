-- ===== src/Sessions/Examples.antt =====
-- engine/state.py: a session that is used, compacted and opened again.
use argus_agent.Base.{String, ◌≡◌, refl, none, some, List, [], ◌∷◌, ◌++◌, map, arith}
use argus_agent.Base.Dict
use argus_agent.Base.Json.{Json}
use argus_agent.Loop.Echo.{message}
use argus_agent.Sessions.{Store, Codec, is_ephemeral, conversation}
use argus_agent.Sessions.Restart.{IsFaithful, IsSynced, reopened}
use argus_agent.Sessions.Runs.{
  Op, appends, compacts, creates, titles, restarts, run, conversation-reopened,
}
use argus_agent.Sessions.Log.{texts, said}
use argus_agent.Sessions.Transcript.{all_added, run-there, run-texts}

-- Stored texts that keep what they stand for.
data Stored : Type 0 where
  working_set : List Json → Stored
  run_ids : List String → Stored

set_in : Stored → List Json
set_in (working_set ms) = ms
set_in (run_ids rs) = []

runs_in : Stored → List String
runs_in (run_ids rs) = rs
runs_in (working_set ms) = []

abbrev kept : Codec Stored
kept = record {
  dumps = working_set;
  loads = set_in;
  dumps_runs = run_ids;
  loads_runs = runs_in;
  dump_content = λ x. "";
}

kept-IsFaithful : IsFaithful kept
unfolding set_in runs_in
kept-IsFaithful = record { loads-dumps = λ ms. refl; loads_runs-dumps_runs = λ rs. refl }

abbrev fresh : Store Stored
fresh = record { cache = []; db = some (record { sessions = []; messages = [] }) }

fresh-IsSynced : IsSynced kept fresh
unfolding Dict.get
fresh-IsSynced = record { synced = λ id s at k there. ground (arith, at) }

abbrev ops : List Op
ops =
    creates 1 "ses_1" none
    ∷ appends 2 "ses_1" (message "user" (Json.text "hi") ∷ [])
    ∷ compacts 3 "ses_1" []
    ∷ restarts
    ∷ appends 4 "ses_1" (message "assistant" (Json.text "hello") ∷ [])
    ∷ titles 5 "ses_1" "Greeting"
    ∷ []

conversation-reopened_example :
    (conversation kept "ses_1" (reopened (run kept ops fresh))).0
    ≡ (conversation kept "ses_1" (run kept ops fresh)).0
unfolding is_ephemeral run
conversation-reopened_example =
    conversation-reopened kept kept-IsFaithful ops fresh fresh-IsSynced "ses_1" refl
      (run-there kept ops fresh)

run-texts_example :
    texts "ses_1" (run kept ops fresh).db
    ≡ texts "ses_1" fresh.db ++ map (said kept) (all_added "ses_1" ops)
unfolding is_ephemeral
run-texts_example = run-texts kept "ses_1" ops fresh refl refl refl
