-- ===== src/Scheduler/Planned.antt =====
-- engine/scheduler.py: the schedules that `parse_schedule` gives.
use argus_agent.Base.{
  ℕ, ◌+◌, ◌*◌, ◌≤◌, ◌<◌, String, ◌≡◌, refl, sym, Bool, true, false, not, ◌&&◌, ◌||◌, Option, none,
  some, List, [], ◌∷◌, All, arith, ◌==◌, nat_eq, string_eq, if◌then◌else◌, Bool-cases, inl, inr,
  ltb,
}
use argus_agent.Base.Dict
use argus_agent.Base.Dict.{Dict, Each, Each-get}
use argus_agent.Base.Result.{Result, ok, err, ok_eq}
use argus_agent.Base.Text
use argus_agent.Scheduler.{Schedule, once, interval, daily, weekly, at_time}
use argus_agent.Scheduler.Due.{Repeats, interval_repeats, daily_repeats, weekly_repeats}
use argus_agent.Scheduler.Parse.{
  weekdays, units, amount_after, after_prefix, is_half, hour_of, clocked, minutes_of, after_hour,
  second_of, hour_from, time_from, parse_time, timed, at_words, planned_at, in_seconds,
  every_seconds, on_weekday, weekly_words, exactly, later_today, tomorrow_at, each_day, chosen,
  forms, parse_schedule,
}
use Prim.Native.Char.{code}

-- A schedule that does not lie in the past: one time, or one that repeats.
pub data Planned (now : ℕ) : Schedule → Type 0 where
  single : (at : ℕ) → now ≤ at → Planned now (once at)
  repeated : (s : Schedule) → Repeats s → Planned now s

-- A time of the day, if there is one.
abbrev InDay : Option (ℕ × ℕ) → Type 0
InDay none = Unit
InDay (some (h, m)) = (h < 24) × (m < 60)

InDay-if : (b : Bool) (x y : Option (ℕ × ℕ)) → InDay x → InDay y → InDay (if b then x else y)
InDay-if true x y h k = h
InDay-if false x y h k = k

InDay-guard : (p : Bool) (h m : ℕ) → InDay (if p || ltb 23 h || ltb 59 m then none else some (h, m))
InDay-guard p h m = elim (Bool-cases (p || ltb 23 h || ltb 59 m)) [
  | inl out ↦ rw out tt
  | inr within ↦ rw within (ground (arith, within), ground (arith, within))
]

clocked-InDay : (h m : ℕ) (half : String) → InDay (clocked h m half)
unfolding clocked
clocked-InDay h m half = InDay-guard (not (is_half half)) (hour_of h half) m

module _ (lower : String → String) (digit : ℕ → Option ℕ) where
  minutes_of-InDay : (h : ℕ) (a b : Option ℕ) (s : String) → InDay (minutes_of lower digit h a b s)
  unfolding minutes_of
  minutes_of-InDay h (some a) (some b) s = clocked-InDay h (a * 10 + b) (Text.lstrip s)
  minutes_of-InDay h (some a) none s = tt
  minutes_of-InDay h none b s = tt

  after_hour-InDay : (h : ℕ) (s : String) → InDay (after_hour lower digit h s)
  unfolding after_hour
  after_hour-InDay h String.[] = clocked-InDay h 0 ""
  after_hour-InDay h (String.◌∷◌ c String.[]) =
      InDay-if (code c == 58) none _ tt (clocked-InDay h 0 (Text.lstrip (String.◌∷◌ c String.[])))
  after_hour-InDay h (String.◌∷◌ c (String.◌∷◌ d String.[])) =
      InDay-if (code c == 58) none _ tt
        (clocked-InDay h 0 (Text.lstrip (String.◌∷◌ c (String.◌∷◌ d String.[]))))
  after_hour-InDay h (String.◌∷◌ c (String.◌∷◌ d (String.◌∷◌ e s))) =
      InDay-if (code c == 58) _ _ (minutes_of-InDay h _ _ s)
        (clocked-InDay h 0 (Text.lstrip (String.◌∷◌ c (String.◌∷◌ d (String.◌∷◌ e s)))))

  second_of-InDay :
      (a : ℕ) (b : Option ℕ) (whole s : String) → InDay (second_of lower digit a b whole s)
  unfolding second_of
  second_of-InDay a none whole s = after_hour-InDay a whole
  second_of-InDay a (some b) whole s = after_hour-InDay (a * 10 + b) s

  hour_from-InDay : (a : Option ℕ) (s : String) → InDay (hour_from lower digit a s)
  unfolding hour_from
  hour_from-InDay none s = tt
  hour_from-InDay (some a) String.[] = after_hour-InDay a ""
  hour_from-InDay (some a) (String.◌∷◌ c s) = second_of-InDay a _ (String.◌∷◌ c s) s

  time_from-InDay : (s : String) → InDay (time_from lower digit s)
  unfolding time_from
  time_from-InDay String.[] = tt
  time_from-InDay (String.◌∷◌ c s) = hour_from-InDay _ s

  -- A form, if it gives a schedule, gives a planned one.
  abbrev Fine : ℕ → Option (Result String Schedule) → Type 0
  Fine now none = Unit
  Fine now (some (err e)) = Unit
  Fine now (some (ok s)) = Planned now s

  chosen-Planned :
      (now : ℕ) (fs : List (Option (Result String Schedule))) (s : Schedule)
      → All (Fine now) fs
      → chosen lower digit fs ≡ ok s
      → Planned now s
  unfolding chosen
  chosen-Planned now [] s h e = cc
  chosen-Planned now (none ∷ fs) s h e = chosen-Planned now fs s h.1 e
  chosen-Planned now (some (err m) ∷ fs) s h e = cc
  chosen-Planned now (some (ok t) ∷ fs) s h e = rw (← ok_eq e) h.0

  timed-Fine :
      (now : ℕ) (plan : ℕ × ℕ → Schedule) (raw : String) (o : Option (ℕ × ℕ))
      → InDay o
      → ((h m : ℕ) → h < 24 → m < 60 → Planned now (plan (h, m)))
      → Fine now (some (timed lower digit plan raw o))
  unfolding timed
  timed-Fine now plan raw none i f = tt
  timed-Fine now plan raw (some (h, m)) i f = f h m i.0 i.1

  planned_at-Fine :
      (now : ℕ) (plan : ℕ × ℕ → Schedule) (o : Option (List String))
      → ((h m : ℕ) → h < 24 → m < 60 → Planned now (plan (h, m)))
      → Fine now (planned_at lower digit plan o)
  unfolding planned_at at_words parse_time
  planned_at-Fine now plan none f = tt
  planned_at-Fine now plan (some words) f = timed-Fine now plan _ _ (time_from-InDay _) f

  in_seconds-Fine : (now : ℕ) (o : Option ℕ) → Fine now (in_seconds lower digit now o)
  unfolding in_seconds
  in_seconds-Fine now none = tt
  in_seconds-Fine now (some n) = single _ (omega arith)

  every_seconds-Fine : (now : ℕ) (o : Option ℕ) → Fine now (every_seconds lower digit o)
  unfolding every_seconds
  every_seconds-Fine now none = tt
  every_seconds-Fine now (some n) = elim (Bool-cases (ltb n 30)) [
    | inl few ↦ rw few tt
    | inr enough ↦ rw enough (repeated (interval n) (interval_repeats n (ground arith)))
  ]

  exactly-Fine : (now : ℕ) (b : Bool) (n : ℕ) → 1 ≤ n → Fine now (exactly lower digit b n)
  unfolding exactly
  exactly-Fine now true n h = repeated (interval n) (interval_repeats n h)
  exactly-Fine now false n h = tt

  weekdays-small : Each (λ day n. n < 7) weekdays
  weekdays-small = (
    omega arith,
    (
      omega arith,
      (
        omega arith,
        (
          omega arith,
          (
            omega arith,
            (
              omega arith,
              (
                omega arith,
                (
                  omega arith,
                  (
                    omega arith,
                    (
                      omega arith,
                      (
                        omega arith,
                        (
                          omega arith,
                          (
                            omega arith,
                            (omega arith, (omega arith, (omega arith, (omega arith, tt)))),
                          ),
                        ),
                      ),
                    ),
                  ),
                ),
              ),
            ),
          ),
        ),
      ),
    ),
  )

  on_weekday-Fine :
      (now : ℕ) (day : String) (o : Option ℕ) (words : List String)
      → o ≡ Dict.get day weekdays
      → Fine now (on_weekday lower digit o words)
  unfolding on_weekday at_words parse_time
  on_weekday-Fine now day none words e = tt
  on_weekday-Fine now day (some n) words e =
      timed-Fine now (λ time. weekly n time.0 time.1) _ _ (time_from-InDay _)
        (λ h m a b. repeated (weekly n h m) (
          weekly_repeats n h m (Each-get (λ k d. d < 7) day n weekdays weekdays-small (sym e)) a b))

  Fine-if :
      (now : ℕ) (b : Bool) (x : Option (Result String Schedule))
      → Fine now x
      → Fine now (if b then x else none)
  Fine-if now true x h = h
  Fine-if now false x h = tt

  weekly_words-Fine : (now : ℕ) (words : List String) → Fine now (weekly_words lower digit words)
  unfolding weekly_words
  weekly_words-Fine now [] = tt
  weekly_words-Fine now (e ∷ []) = tt
  weekly_words-Fine now (e ∷ day ∷ []) = tt
  weekly_words-Fine now (e ∷ day ∷ a ∷ []) = tt
  weekly_words-Fine now (e ∷ day ∷ a ∷ w ∷ ws) =
      Fine-if now (e == "every" && a == "at") _ (on_weekday-Fine now day _ (w ∷ ws) refl)

  each_day-Planned : (now h m : ℕ) → h < 24 → m < 60 → Planned now (each_day lower digit (h, m))
  each_day-Planned now h m a b = repeated (daily h m) (daily_repeats h m a b)

  tomorrow-Planned :
      (now h m : ℕ) → h < 24 → m < 60 → Planned now (tomorrow_at lower digit now (h, m))
  unfolding at_time
  tomorrow-Planned now h m a b = single _ (omega arith)

  today-Planned : (now h m : ℕ) → h < 24 → m < 60 → Planned now (later_today lower digit now (h, m))
  unfolding at_time
  today-Planned now h m a b = single _ (ground arith)

  -- Whatever the text is: if it is read as a schedule, then it is one for a time that is not in the past,
  -- or one that repeats, with an hour, a minute and a day of the week that there are.
  pub parse_schedule-Planned :
      (text : String) (now : ℕ) (s : Schedule)
      → parse_schedule lower digit text now ≡ ok s
      → Planned now s
  unfolding parse_schedule forms
  parse_schedule-Planned text now s e =
      let words = Text.split (lower (Text.strip text)) in
      chosen-Planned now (forms lower digit now words) s
        (
          in_seconds-Fine now _,
          (
            every_seconds-Fine now
                (amount_after lower digit units (after_prefix lower digit ("every" ∷ []) words)),
            (
              exactly-Fine now _ 3600 (omega arith),
              (
                exactly-Fine now _ 60 (omega arith),
                (
                  planned_at-Fine now _ _ (each_day-Planned now),
                  (
                    planned_at-Fine now _ _ (each_day-Planned now),
                    (
                      planned_at-Fine now _ _ (each_day-Planned now),
                      (
                        weekly_words-Fine now words,
                        (
                          planned_at-Fine now _ _ (tomorrow-Planned now),
                          (
                            planned_at-Fine now _ _ (today-Planned now),
                            (planned_at-Fine now _ _ (today-Planned now), tt),
                          ),
                        ),
                      ),
                    ),
                  ),
                ),
              ),
            ),
          ),
        )
        e
