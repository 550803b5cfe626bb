-- ===== src/Scheduler/Examples.antt =====
-- engine/scheduler.py: a job that is due each day at 8, and one that is over.
use argus_agent.Base.{
  ℕ, ◌-◌, ◌&&◌, Option, some, leb, string_eq, if◌then◌else◌, ◌+◌, ◌<◌, String, ◌≡◌, refl, true,
  false, none, [], ◌∷◌, arith,
}
use argus_agent.Base.Dict
use argus_agent.Base.Dict.{Dict}
use argus_agent.Base.Result.{ok}
use argus_agent.Scheduler.{Schedule, once, daily, weekly, Job, World, is_due, fire_due}
use argus_agent.Scheduler.Parse.{parse_schedule}
use argus_agent.Scheduler.Planned.{Planned, parse_schedule-Planned}
use argus_agent.Scheduler.Due.{daily_repeats, is_repeated, IsMild, fire_due-is_due}

abbrev job_of : String → Schedule → Job
job_of id schedule = record {
  id = id;
  instruction = "report";
  schedule = schedule;
  session_id = "s1";
  next_run = 3;
  active = true;
  created_at = 0;
  last_run = none;
  last_result = "";
  runs = 0;
  kind = "prompt";
}

abbrev jobs : Dict String Job
jobs = ("j1", job_of "j1" (daily 8 30)) ∷ ("j2", job_of "j2" (once 3)) ∷ []

abbrev office : World ℕ
office = record {
  run_task = λ w jobs j. (ok "done", (jobs, w));
  run_routine = none;
  clock = λ w. w + 9;
  deliver = λ w j result. w;
}

office-IsMild : IsMild office 9
office-IsMild = record {
  later = λ w. omega arith;
  task = λ w jobs j k i h p. (i, (h, (p, λ q. q)));
  routine = λ run h. cc;
}

fire_due-is_due_example :
    (i : Job) × ((Dict.get "j1" (fire_due office 9 (jobs, 0)).0 ≡ some i) × (is_due 9 i ≡ false))
unfolding Dict.get
fire_due-is_due_example =
    fire_due-is_due office 9 office-IsMild 0 jobs "j1" (job_of "j1" (daily 8 30)) refl
      (is_repeated (daily_repeats 8 30 (omega arith) (omega arith)))

-- Texts in lower case, with the digits of ASCII.
abbrev lowered : String → String
lowered s = s

abbrev digit_of : ℕ → Option ℕ
digit_of c = if leb 48 c && leb c 57 then some (c - 48) else none

parse_schedule-Planned_example : Planned 5 (weekly 0 21 30)
unfolding parse_schedule Dict.get argus_agent.Base.Text.join
parse_schedule-Planned_example =
    parse_schedule-Planned lowered digit_of " every monday  at 9:30 p.m. " 5 (weekly 0 21 30) refl
