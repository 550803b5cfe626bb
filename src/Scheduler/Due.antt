-- ===== src/Scheduler/Due.antt =====
-- engine/scheduler.py: the next run of a job lies ahead, and no job stays due once it was fired.
use argus_agent.Base.{
  ℕ, ◌≤◌, ◌<◌, String, ◌≡◌, Bool, true, false, [], ◌∷◌, arith, Bool-cases, inl, inr, Option, none,
  some, List, elem, ◌==◌, string_eq, refl, sym, subst, ◌∙◌, some_eq, if◌then◌else◌, map,
}
use argus_agent.Base.Dict
use argus_agent.Base.Dict.{Dict, get-put}
use argus_agent.Scheduler.{
  Schedule, interval, daily, weekly, is_once, weekday, at_time, compute_next_run, Job, is_due, Done,
  World, after_run, run_by, noted, run_job, fire, fire_each, fire_due,
}

-- The schedules that `parse_schedule` gives for jobs that repeat.
pub data Repeats : Schedule → Type 0 where
  interval_repeats : (seconds : ℕ) → 1 ≤ seconds → Repeats (interval seconds)
  daily_repeats : (hour minute : ℕ) → hour < 24 → minute < 60 → Repeats (daily hour minute)
  weekly_repeats :
      (wanted hour minute : ℕ)
      → wanted < 7
      → hour < 24
      → minute < 60
      → Repeats (weekly wanted hour minute)

-- The next run of a job that repeats lies ahead.
compute_next_run-Repeats :
    (schedule : Schedule) (now : ℕ) → Repeats schedule → now < compute_next_run schedule now
unfolding compute_next_run at_time weekday
compute_next_run-Repeats _ now (interval_repeats s h) = omega arith
compute_next_run-Repeats _ now (daily_repeats hour minute h m) = ground arith
compute_next_run-Repeats _ now (weekly_repeats wanted hour minute w h m) = ground arith

-- A job for one time, or one that repeats.
pub data Sound (j : Job) : Type 0 where
  is_single : is_once j.schedule ≡ true → Sound j
  is_repeated : Repeats j.schedule → Sound j

after_run-is_due :
    (now c : ℕ) (result : String) (j : Job)
    → Sound j
    → now ≤ c
    → is_due now (after_run c result j) ≡ false
unfolding after_run is_due
after_run-is_due now c result j (is_single h) later = ground arith
after_run-is_due now c result j (is_repeated h) later =
    ground (arith, compute_next_run-Repeats j.schedule c h)

-- The job under the key `k` is there, and it is for one time or repeats.
abbrev Held : String → Dict String Job → Type 0
Held k jobs = (j : Job) × ((Dict.get k jobs ≡ some j) × Sound j)

-- The job under the key `k` is there, and it is not due at `now`.
abbrev pub Idle : ℕ → String → Dict String Job → Type 0
Idle now k jobs = (j : Job) × ((Dict.get k jobs ≡ some j) × (Sound j × (is_due now j ≡ false)))

-- No job is lost or gets due at `now`, and each one that is for one time or repeats stays so.
abbrev pub Onward : ℕ → Dict String Job → Dict String Job → Type 0
Onward now a b =
    (k : String) (i : Job)
    → Dict.get k a ≡ some i
    → Sound i
    → (j : Job) × ((Dict.get k b ≡ some j)
        × (Sound j × (is_due now i ≡ false → is_due now j ≡ false)))

-- What the runs of jobs do to the jobs, and the clock after them.
pub record IsMild {W : Type 0} (world : World W) (now : ℕ) : Type 0 where
  pub later : (w : W) → now ≤ world.clock w
  pub task :
      (w : W) (jobs : Dict String Job) (j : Job) → Onward now jobs (world.run_task w jobs j).1.0
  pub routine :
      (run : W → Dict String Job → Job → Done W)
      → world.run_routine ≡ some run
      → (w : W) (jobs : Dict String Job) (j : Job) → Onward now jobs (run w jobs j).1.0

same-Onward : (now : ℕ) (a : Dict String Job) → Onward now a a
same-Onward now a k i h p = (i, (h, (p, λ q. q)))

then-Onward : (now : ℕ) (a b c : Dict String Job) → Onward now a b → Onward now b c → Onward now a c
then-Onward now a b c f g k i h p =
    let m = f k i h p in
    let n = g k m.0 m.1.0 m.1.1.0 in (n.0, (n.1.0, (n.1.1.0, λ q. n.1.1.1 (m.1.1.1 q))))

Onward-Held : (now : ℕ) (k : String) (a b : Dict String Job) → Onward now a b → Held k a → Held k b
Onward-Held now k a b f (i, (h, p)) = let m = f k i h p in (m.0, (m.1.0, m.1.1.0))

Onward-Idle :
    (now : ℕ) (k : String) (a b : Dict String Job) → Onward now a b → Idle now k a → Idle now k b
Onward-Idle now k a b f (i, (h, (p, q))) = let m = f k i h p in (m.0, (m.1.0, (m.1.1.0, m.1.1.1 q)))

after_run-Sound : (c : ℕ) (result : String) (j : Job) → Sound j → Sound (after_run c result j)
unfolding after_run
after_run-Sound c result j (is_single h) = is_single h
after_run-Sound c result j (is_repeated h) = is_repeated h

module _ {W : Type 0} (world : World W) (now : ℕ) (mild : IsMild world now) where
  run_by-Onward :
      (run : Option (W → Dict String Job → Job → Done W))
      → world.run_routine ≡ run
      → (w : W) (jobs : Dict String Job) (j : Job)
      → Onward now jobs (run_by world run w jobs j).1.1.0
  unfolding run_by
  run_by-Onward none h w jobs j = mild.task w jobs j
  run_by-Onward (some run) h w jobs j = elim (Bool-cases (j.kind == "routine")) [
    | inl own ↦ rw own (mild.routine run h w jobs j)
    | inr other ↦ rw other (mild.task w jobs j)
  ]

  -- Noting a run changes the job that ran only, which is not due after it.
  noted-Onward :
      (id : String) (own : Bool) (text : String) (jobs : Dict String Job) (w : W)
      (found : Option Job)
      → Dict.get id jobs ≡ found
      → Onward now jobs (noted world id (own, (text, (jobs, w))) found).0
  unfolding noted
  noted-Onward id own text jobs w none h k i g p = (i, (g, (p, λ q. q)))
  noted-Onward id own text jobs w (some j) h k i g p =
      let v = if own then w else world.deliver w j text in
      let c = world.clock v in
      elim (Bool-cases (id == k)) [
        | inl same ↦
            let eq : i ≡ j = some_eq (
              sym g
              ∙ (subst (λ x. Dict.get x jobs ≡ some j) ((string_eq.same_iff id k).0 same) h)) in
            let q : Sound j = subst Sound eq p in
            (
              after_run c text j,
              (
                rw (get-put id k (after_run c text j) jobs, same) refl,
                (after_run-Sound c text j q, λ _. after_run-is_due now c text j q (mild.later v)),
              ),
            )
        | inr other ↦ (i, (rw (get-put id k (after_run c text j) jobs, other) g, (p, λ q. q)))
      ]

  noted-Idle :
      (id : String) (own : Bool) (text : String) (jobs : Dict String Job) (w : W)
      (found : Option Job)
      → Dict.get id jobs ≡ found
      → Held id jobs
      → Idle now id (noted world id (own, (text, (jobs, w))) found).0
  unfolding noted
  noted-Idle id own text jobs w none h (j, (g, p)) = cc
  noted-Idle id own text jobs w (some j) h (i, (g, p)) =
      let v = if own then w else world.deliver w j text in
      let c = world.clock v in
      let q : Sound j = subst Sound (some_eq (sym g ∙ h)) p in
      (
        after_run c text j,
        (
          rw (get-put id id (after_run c text j) jobs, (string_eq.same_iff id id).1 refl) refl,
          (after_run-Sound c text j q, after_run-is_due now c text j q (mild.later v)),
        ),
      )

  run_job-Onward :
      (id : String) (j : Job) (jobs : Dict String Job) (w : W)
      → Onward now jobs (run_job world id j (jobs, w)).0
  unfolding run_job
  run_job-Onward id j jobs w =
      let done = run_by world world.run_routine w jobs j in
      then-Onward now jobs done.1.1.0 _ (run_by-Onward world.run_routine refl w jobs j)
        (noted-Onward id done.0 done.1.0 done.1.1.0 done.1.1.1 _ refl)

  run_job-Idle :
      (id : String) (j : Job) (jobs : Dict String Job) (w : W)
      → Held id jobs
      → Idle now id (run_job world id j (jobs, w)).0
  unfolding run_job
  run_job-Idle id j jobs w h =
      let done = run_by world world.run_routine w jobs j in
      noted-Idle id done.0 done.1.0 done.1.1.0 done.1.1.1 _ refl
        (Onward-Held now id jobs done.1.1.0 (run_by-Onward world.run_routine refl w jobs j) h)

  fire-Onward :
      (id : String) (found : Option Job) (jobs : Dict String Job) (w : W)
      → Onward now jobs (fire world now id found (jobs, w)).0
  unfolding fire
  fire-Onward id none jobs w = same-Onward now jobs
  fire-Onward id (some j) jobs w = elim (Bool-cases (is_due now j)) [
    | inl due ↦ rw due (run_job-Onward id j jobs w)
    | inr idle ↦ rw idle (same-Onward now jobs)
  ]

  fire-Idle :
      (id : String) (found : Option Job) (jobs : Dict String Job) (w : W)
      → Dict.get id jobs ≡ found
      → Held id jobs
      → Idle now id (fire world now id found (jobs, w)).0
  unfolding fire
  fire-Idle id none jobs w h (i, (g, p)) = cc
  fire-Idle id (some j) jobs w h (i, (g, p)) = elim (Bool-cases (is_due now j)) [
    | inl due ↦ rw due (run_job-Idle id j jobs w (i, (g, p)))
    | inr idle ↦ rw idle (j, (h, (subst Sound (some_eq (sym g ∙ h)) p, idle)))
  ]

  fire_each-Onward :
      (ids : List String) (jobs : Dict String Job) (w : W)
      → Onward now jobs (fire_each world now ids (jobs, w)).0
  unfolding fire_each
  fire_each-Onward [] jobs w = same-Onward now jobs
  fire_each-Onward (id ∷ ids) jobs w =
      let s = fire world now id (Dict.get id jobs) (jobs, w) in
      then-Onward now jobs s.0 _ (fire-Onward id (Dict.get id jobs) jobs w)
        (fire_each-Onward ids s.0 s.1)

  fire_each-Idle :
      (ids : List String) (jobs : Dict String Job) (w : W) (k : String)
      → elem k ids ≡ true
      → Held k jobs
      → Idle now k (fire_each world now ids (jobs, w)).0
  unfolding fire_each
  fire_each-Idle [] jobs w k h p = cc
  fire_each-Idle (id ∷ ids) jobs w k h p =
      let s = fire world now id (Dict.get id jobs) (jobs, w) in
      elim (Bool-cases (id == k)) [
        | inl same ↦
            subst (λ x. Idle now x (fire_each world now ids s).0) ((string_eq.same_iff id k).0 same)
              (Onward-Idle now id s.0 _ (fire_each-Onward ids s.0 s.1) (
                fire-Idle id (Dict.get id jobs) jobs w refl
                  (subst (λ x. Held x jobs) (sym ((string_eq.same_iff id k).0 same)) p)))
        | inr other ↦
            fire_each-Idle ids s.0 s.1 k (rw other at h)
              (Onward-Held now k jobs s.0 (fire-Onward id (Dict.get id jobs) jobs w) p)
      ]

  keys-elem :
      (k : String) (j : Job) (jobs : Dict String Job)
      → Dict.get k jobs ≡ some j
      → elem k (map (λ e. e.0) jobs) ≡ true
  unfolding Dict.get
  keys-elem k j [] h = cc
  keys-elem k j ((i, v) ∷ jobs) h = elim (Bool-cases (i == k)) [
    | inl same ↦ rw same refl
    | inr other ↦ rw other (keys-elem k j jobs (rw other at h))
  ]

  -- If the clock does not fall behind `now`, and no run loses a job, makes one due at `now` that was
  -- not, or leaves one that is neither for one time nor repeats where it was, then each such job that
  -- there was when the due jobs were fired is still there after, and it is not due at `now`.
  pub fire_due-is_due :
      (w : W) (jobs : Dict String Job) (k : String) (j : Job)
      → Dict.get k jobs ≡ some j
      → Sound j
      → (i : Job) × ((Dict.get k (fire_due world now (jobs, w)).0 ≡ some i)
          × (is_due now i ≡ false))
  unfolding fire_due
  fire_due-is_due w jobs k j h p =
      let m = fire_each-Idle (map (λ e. e.0) jobs) jobs w k (keys-elem k j jobs h) (j, (h, p)) in
      (m.0, (m.1.0, m.1.1.1))
