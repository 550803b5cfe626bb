-- ===== src/Scheduler.antt =====
-- engine/scheduler.py: when a job runs next, and the firing of due jobs. A time is the number of
-- microseconds on the local clock since the first day of year 1, a Monday. Running a job, the clock
-- and the delivery are operations on a world `W`.
pub mod Due
pub mod Parse
pub mod Planned
mod Examples
use argus_agent.Base.{
  ℕ, suc, ◌+◌, ◌-◌, ◌*◌, ◌/◌, ◌%◌, String, Bool, true, false, not, ◌&&◌, ◌||◌, Option, none, some,
  List, [], ◌∷◌, ◌++◌, map, ◌==◌, string_eq, if◌then◌else◌, ltb, leb,
}
use argus_agent.Base.Dict
use argus_agent.Base.Dict.{Dict}
use argus_agent.Base.Result.{Result, ok, err}
use argus_agent.Loop.Echo.{joined, text_take}

pub data Schedule : Type 0 where
  once : ℕ → Schedule
  interval : ℕ → Schedule
  daily : ℕ → ℕ → Schedule
  weekly : ℕ → ℕ → ℕ → Schedule
  unknown : Schedule

abbrev pub is_once : Schedule → Bool
is_once (once at) = true
is_once _ = false

abbrev pub second : ℕ
second = 1000000

abbrev pub day : ℕ
day = 86400000000

pub weekday : ℕ → ℕ
weekday t = (t / 86400000000) % 7

-- `now.replace(hour=hour, minute=minute, second=0, microsecond=0)`
pub at_time : ℕ → ℕ → ℕ → ℕ
at_time now hour minute = (now / 86400000000) * 86400000000 + hour * 3600000000 + minute * 60000000

pub compute_next_run : Schedule → ℕ → ℕ
unfolding at_time weekday
compute_next_run (once at) now = at
compute_next_run (interval seconds) now = now + seconds * 1000000
compute_next_run (daily hour minute) now =
    let t = at_time now hour minute in if ltb now t then t else t + 86400000000
compute_next_run (weekly wanted hour minute) now =
    let t = at_time now hour minute + ((wanted + 7 - weekday now) % 7) * 86400000000 in
    if ltb now t then t else t + 7 * 86400000000
compute_next_run unknown now = now + 3650 * 86400000000

pub record Job : Type 0 where
  pub id : String
  pub instruction : String
  pub schedule : Schedule
  pub session_id : String
  pub next_run : ℕ
  pub active : Bool
  pub created_at : ℕ
  pub last_run : Option ℕ
  pub last_result : String
  pub runs : ℕ
  pub kind : String

pub add : String → Schedule → String → String → String → ℕ → Dict String Job → Job × Dict String Job
unfolding compute_next_run
add instruction schedule session_id kind fresh now jobs =
    let job : Job = record {
      id = fresh;
      instruction = instruction;
      schedule = schedule;
      session_id = session_id;
      next_run = compute_next_run schedule now;
      active = true;
      created_at = now;
      last_run = none;
      last_result = "";
      runs = 0;
      kind = kind;
    } in
    (job, Dict.put fresh job jobs)

-- `session_id is not None and j.session_id != session_id`
foreign : Option String → Job → Bool
foreign none j = false
foreign (some session) j = not (j.session_id == session)

pub cancel : String → Option String → Dict String Job → Bool × Dict String Job
unfolding foreign
cancel job_id session_id jobs = elim (Dict.get job_id jobs) [
  | none ↦ (false, jobs)
  | some j ↦
      if foreign session_id j
      then (false, jobs)
      else (true, Dict.put job_id (record j { active = false }) jobs)
]

instructed : Option String → Job → Job
instructed none j = j
instructed (some instruction) j = record j { instruction = instruction }

scheduled : Option Schedule → ℕ → Job → Job
unfolding compute_next_run
scheduled none now j = j
scheduled (some schedule) now j = record j {
  schedule = schedule;
  next_run = compute_next_run schedule now;
}

pub update :
    String
    → Option String
    → Option String
    → Option Schedule
    → ℕ
    → Dict String Job
    → Option Job × Dict String Job
unfolding foreign instructed scheduled
update job_id session_id instruction schedule now jobs = elim (Dict.get job_id jobs) [
  | none ↦ (none, jobs)
  | some j ↦
      let j' = record (scheduled schedule now (instructed instruction j)) { active = true } in
      if foreign session_id j then (none, jobs) else (some j', Dict.put job_id j' jobs)
]

unfoldable pub is_due : ℕ → Job → Bool
is_due now j = j.active && leb j.next_run now

-- A job that ran: a job for one time is over, any other gets its next time. The clock is read once.
unfoldable pub after_run : ℕ → String → Job → Job
unfolding compute_next_run text_take
after_run now result j = record j {
  last_run = some now;
  last_result = text_take 2000 result;
  runs = suc j.runs;
  active = if is_once j.schedule then false else j.active;
  next_run = if is_once j.schedule then j.next_run else compute_next_run j.schedule now;
}

-- What was run: a result or an error, the jobs, which the run may change through its tools, and the
-- world after it.
abbrev pub Done : Type 0 → Type 0
Done W = Result String String × (Dict String Job × W)

-- What a job needs: the run of a prompt or a routine, the clock, and the delivery of a result.
pub record World (W : Type 0) : Type 0 where
  pub run_task : W → Dict String Job → Job → Done W
  pub run_routine : Option (W → Dict String Job → Job → Done W)
  pub clock : W → ℕ
  pub deliver : W → Job → String → W

module _ {W : Type 0} (world : World W) where
  unfoldable pub result_text : Job → Result String String → String
  result_text j (ok result) = result
  result_text j (err e) = joined ("(scheduled " ∷ j.kind ∷ " failed: " ∷ e ∷ ")" ∷ [])

  -- The text of what was run.
  abbrev pub told : Job → Done W → String × (Dict String Job × W)
  told j done = (result_text j done.0, done.1)

  -- Whether the job is run as a routine, the text of the result, the jobs and the world.
  unfoldable pub run_by :
      Option (W → Dict String Job → Job → Done W)
      → W
      → Dict String Job
      → Job
      → Bool × (String × (Dict String Job × W))
  unfolding result_text
  run_by none w jobs j = (false, told j (world.run_task w jobs j))
  run_by (some routine) w jobs j =
      let own = told j (routine w jobs j) in
      let task = told j (world.run_task w jobs j) in
      if j.kind == "routine" then (true, own) else (false, task)

  -- A routine delivers its result itself. The job is noted as it stands after the run, which may have
  -- changed it.
  unfoldable pub noted :
      String → Bool × (String × (Dict String Job × W)) → Option Job → Dict String Job × W
  unfolding after_run
  noted id (is_routine, (text, (jobs, w))) none = (jobs, w)
  noted id (is_routine, (text, (jobs, w))) (some j) =
      let v = if is_routine then w else world.deliver w j text in
      (Dict.put id (after_run (world.clock v) text j) jobs, v)

  unfoldable pub run_job : String → Job → Dict String Job × W → Dict String Job × W
  unfolding run_by noted
  run_job id j (jobs, w) =
      let done = run_by world.run_routine w jobs j in noted id done (Dict.get id done.1.1.0)

  -- The job `id`, if it is due when its turn comes.
  unfoldable pub fire : ℕ → String → Option Job → Dict String Job × W → Dict String Job × W
  unfolding is_due run_job
  fire now id none s = s
  fire now id (some j) s = if is_due now j then run_job id j s else s

  unfoldable pub fire_each : ℕ → List String → Dict String Job × W → Dict String Job × W
  unfolding fire
  fire_each now [] s = s
  fire_each now (id ∷ ids) s = fire_each now ids (fire now id (Dict.get id s.0) s)

  -- The jobs that there are when it begins come up in order; none is taken out of the dictionary.
  unfoldable pub fire_due : ℕ → Dict String Job × W → Dict String Job × W
  unfolding fire_each
  fire_due now s = fire_each now (map (λ e. e.0) s.0) s
