-- ===== src/Reliability.antt =====
-- engine/reliability/collector.py: `ReliabilityCollector`. Times are milliseconds and do not fall;
-- the rows that the store is given are a list, and the lower case of a text is a parameter.
pub mod Streaks
mod Examples
use argus_agent.Base.{
  ℕ, suc, ◌-◌, String, Bool, true, false, not, ◌&&◌, ◌||◌, Option, none, some, List, [], ◌∷◌, ◌++◌,
  ◌==◌, nat_eq, string_eq, pair_eq, some_of, length, if◌then◌else◌, leb,
}
use argus_agent.Base.Dict
use argus_agent.Base.Dict.{Dict}
use argus_agent.Base.Text
use argus_agent.Loop.Echo.{contains, starts_with}

abbrev error_markers : List String
error_markers =
    " error:" ∷ "traceback (most recent call last)" ∷ "looks wrong" ∷ "error fetching"
    ∷ "unable to fetch" ∷ "could not fetch" ∷ "failed to fetch" ∷ "unable to parse"
    ∷ "could not parse" ∷ "failed to parse" ∷ "couldn't parse" ∷ []

looks_like_error : (String → String) → String → Bool
looks_like_error lower text =
    let t = lower (Text.strip text) in starts_with t "error:" || some_of (contains t) error_markers

pub record Row : Type 0 where
  pub kind : String
  pub tool : String
  pub ok : Option Bool
  pub ms : Option ℕ
  pub detail : String
  pub ts : ℕ

pub record Collector : Type 0 where
  pub max_pending : ℕ
  pub rows : List Row
  pub pending : Dict (String × ℕ) ℕ
  pub streak : Dict String (String × ℕ)

-- The cases of a step's event that the collector tells apart.
pub data Observed : Type 0 where
  tool_call : Observed
  tool_result : String → Bool → String → Observed
  invalid : String → String → Observed
  reprompt : String → Observed
  parse_failure : String → Observed
  routine_result : String → Bool → Option ℕ → String → Observed
  final : Observed
  other : Observed

pub row : Row → Collector → Collector
row r c = record c { rows = c.rows ++ r ∷ [] }

-- `if len(d) >= self.max_pending: d.clear()`
pub capped {ℓ κ} : {K : Type ℓ} {V : Type κ} → ℕ → Dict K V → Dict K V
capped most d = if leb most (length d) then [] else d

pub next_count : String → Option (String × ℕ) → ℕ
next_count detail none = 1
next_count detail (some (last, n)) = if last == detail then suc n else 1

abbrev stuck_row : String → String → ℕ → Row
stuck_row tool detail ts = record {
  kind = "stuck_tool";
  tool = tool;
  ok = some false;
  ms = none;
  detail = detail;
  ts = ts;
}

pub counted : String → String → ℕ → ℕ → Collector → Collector
unfolding row
counted tool detail ts count c =
    let kept = record c { streak = Dict.put tool (detail, count) c.streak } in
    if count == 3 then row (stuck_row tool detail ts) kept else kept

pub track_streak : String → Bool → String → ℕ → Collector → Collector
unfolding counted capped next_count
track_streak tool ok detail ts c =
    let room = record c { streak = capped c.max_pending c.streak } in
    if not ok && not (detail == "")
    then counted tool detail ts (next_count detail (Dict.get tool room.streak)) room
    else record c { streak = Dict.remove tool c.streak }

latency : ℕ → Option ℕ → Option ℕ
latency ts none = none
latency ts (some called) = some (ts - called)

module _ (lower : String → String) where
  pub on_result : (String × ℕ) → ℕ → String → Bool → String → Collector → Collector
  unfolding row track_streak latency looks_like_error
  on_result key ts tool ok result c =
      let worked = ok && not (looks_like_error lower result) in
      let detail = if worked then "" else result in
      track_streak tool worked detail ts (
        row
          (record {
            kind = "tool";
            tool = tool;
            ok = some worked;
            ms = latency ts (Dict.get key c.pending);
            detail = detail;
            ts = ts;
          })
          (record c { pending = Dict.remove key c.pending }))

  pub observe : (String × ℕ) → ℕ → Observed → Collector → Collector
  unfolding on_result row capped
  observe key ts tool_call c = record c {
    pending = Dict.put key ts (capped c.max_pending c.pending);
  }
  observe key ts (tool_result tool ok result) c = on_result key ts tool ok result c
  observe key ts (invalid tool error) c =
      row
        (record {
          kind = "validation_fail";
          tool = tool;
          ok = some false;
          ms = none;
          detail = error;
          ts = ts;
        })
        c
  observe key ts (reprompt reason) c =
      row (record { kind = "reprompt"; tool = ""; ok = none; ms = none; detail = reason; ts = ts })
        c
  observe key ts (parse_failure reason) c =
      row
        (record { kind = "parse_fail"; tool = ""; ok = none; ms = none; detail = reason; ts = ts })
        c
  observe key ts (routine_result name ok ms detail) c =
      row
        (record { kind = "routine"; tool = name; ok = some ok; ms = ms; detail = detail; ts = ts })
        c
  observe key ts final c = record c { pending = Dict.remove key c.pending }
  observe key ts other c = c
