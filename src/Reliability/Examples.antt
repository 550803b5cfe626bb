-- ===== src/Reliability/Examples.antt =====
-- engine/reliability/collector.py: a search that fails four times.
use argus_agent.Base.{◌≡◌, refl, [], ◌∷◌, string_eq, arith}
use argus_agent.Base.Dict
use argus_agent.Reliability.{Collector, stuck_row}
use argus_agent.Reliability.Streaks.{fails, fails-stuck_once}

abbrev failing : Collector
failing = record {
  max_pending = 512;
  rows = [];
  pending = [];
  streak = ("read_file", ("no such file", 2)) ∷ [];
}

fails-stuck_once_example :
    (fails "web_search" "no network" (5 ∷ 6 ∷ 9 ∷ 12 ∷ []) failing).rows
    ≡ stuck_row "web_search" "no network" 9 ∷ []
unfolding Dict.get
fails-stuck_once_example =
    fails-stuck_once "web_search" "no network" (5 ∷ 6 ∷ 9 ∷ 12 ∷ []) failing refl (omega arith) refl
