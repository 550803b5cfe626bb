-- ===== src/Scheduler/Parse.antt =====
-- engine/scheduler.py: `parse_schedule` and `parse_time`. `str.lower` and the decimal value of a character
-- are parameters; times are within the range of `datetime`.
use argus_agent.Base.{
  ℕ, ◌+◌, ◌*◌, String, Bool, true, false, not, ◌&&◌, ◌||◌, Option, none, some, List, [], ◌∷◌, ◌==◌,
  nat_eq, string_eq, if◌then◌else◌, ltb, leb,
}
use argus_agent.Base.Dict
use argus_agent.Base.Dict.{Dict}
use argus_agent.Base.Result.{Result, ok, err}
use argus_agent.Base.Text
use argus_agent.Loop.Echo.{joined}
use argus_agent.Scheduler.{Schedule, once, interval, daily, weekly, at_time}
use Prim.Native.Char.{code}

-- `s.replace(".", "")`
without_stops : String → String
without_stops String.[] = String.[]
without_stops (String.◌∷◌ c s) =
    let rest = without_stops s in if code c == 46 then rest else String.◌∷◌ c rest

abbrev pub weekdays : Dict String ℕ
weekdays =
    ("monday", 0)
    ∷ ("tuesday", 1)
    ∷ ("wednesday", 2)
    ∷ ("thursday", 3)
    ∷ ("friday", 4)
    ∷ ("saturday", 5)
    ∷ ("sunday", 6)
    ∷ ("mon", 0)
    ∷ ("tue", 1)
    ∷ ("tues", 1)
    ∷ ("wed", 2)
    ∷ ("thu", 3)
    ∷ ("thur", 3)
    ∷ ("thurs", 3)
    ∷ ("fri", 4)
    ∷ ("sat", 5)
    ∷ ("sun", 6)
    ∷ []

-- The seconds of a unit that may have an `s` behind it.
abbrev pub units : Dict String ℕ
units =
    ("second", 1)
    ∷ ("seconds", 1)
    ∷ ("sec", 1)
    ∷ ("secs", 1)
    ∷ ("minute", 60)
    ∷ ("minutes", 60)
    ∷ ("min", 60)
    ∷ ("mins", 60)
    ∷ ("hour", 3600)
    ∷ ("hours", 3600)
    ∷ ("hr", 3600)
    ∷ ("hrs", 3600)
    ∷ []

abbrev units_and_days : Dict String ℕ
units_and_days = ("day", 86400) ∷ ("days", 86400) ∷ units

-- The hour of the day, from that of the clock.
abbrev pub hour_of : ℕ → String → ℕ
hour_of h half =
    if half == "pm" && not (h == 12) then h + 12 else if half == "am" && h == 12 then 0 else h

pub is_half : String → Bool
is_half half = half == "" || half == "am" || half == "pm"

-- A time of the day, if it is one.
unfoldable pub clocked : ℕ → ℕ → String → Option (ℕ × ℕ)
unfolding is_half
clocked h minute half =
    if not (is_half half) || ltb 23 (hour_of h half) || ltb 59 minute
    then none
    else some (hour_of h half, minute)

module _ (lower : String → String) (digit : ℕ → Option ℕ) where
  -- The minutes behind the colon: two digits.
  unfoldable pub minutes_of : ℕ → Option ℕ → Option ℕ → String → Option (ℕ × ℕ)
  unfolding clocked Text.lstrip
  minutes_of h (some a) (some b) s = clocked h (a * 10 + b) (Text.lstrip s)
  minutes_of h (some a) none s = none
  minutes_of h none b s = none

  -- What follows the hour.
  unfoldable pub after_hour : ℕ → String → Option (ℕ × ℕ)
  unfolding minutes_of clocked Text.lstrip
  after_hour h String.[] = clocked h 0 ""
  after_hour h (String.◌∷◌ c String.[]) =
      if code c == 58 then none else clocked h 0 (Text.lstrip (String.◌∷◌ c String.[]))
  after_hour h (String.◌∷◌ c (String.◌∷◌ d String.[])) =
      if code c == 58
      then none
      else clocked h 0 (Text.lstrip (String.◌∷◌ c (String.◌∷◌ d String.[])))
  after_hour h (String.◌∷◌ c (String.◌∷◌ d (String.◌∷◌ e s))) =
      if code c == 58
      then minutes_of h (digit (code d)) (digit (code e)) s
      else clocked h 0 (Text.lstrip (String.◌∷◌ c (String.◌∷◌ d (String.◌∷◌ e s))))

  -- An hour of one digit, or of two.
  unfoldable pub second_of : ℕ → Option ℕ → String → String → Option (ℕ × ℕ)
  unfolding after_hour
  second_of a none whole s = after_hour a whole
  second_of a (some b) whole s = after_hour (a * 10 + b) s

  unfoldable pub hour_from : Option ℕ → String → Option (ℕ × ℕ)
  unfolding second_of after_hour
  hour_from none s = none
  hour_from (some a) String.[] = after_hour a ""
  hour_from (some a) (String.◌∷◌ c s) = second_of a (digit (code c)) (String.◌∷◌ c s) s

  unfoldable pub time_from : String → Option (ℕ × ℕ)
  unfolding hour_from
  time_from String.[] = none
  time_from (String.◌∷◌ c s) = hour_from (digit (code c)) s

  unfoldable pub parse_time : String → Option (ℕ × ℕ)
  unfolding time_from without_stops Text.strip
  parse_time s = time_from (without_stops (lower (Text.strip s)))

  -- The number at the start of a text, after the digits that were read, and the rest of it.
  number_from : Option ℕ → String → Option (ℕ × String)
  number_from none String.[] = none
  number_from (some n) String.[] = some (n, String.[])
  number_from read (String.◌∷◌ c s) = elim (digit (code c)) [
    | none ↦ elim read [ none ↦ none | some n ↦ some (n, String.◌∷◌ c s) ]
    | some d ↦ elim read [
      | none ↦ number_from (some d) s
      | some n ↦ number_from (some (n * 10 + d)) s
    ]
  ]

  scaled : ℕ → Option ℕ → Option ℕ
  scaled n none = none
  scaled n (some seconds) = some (n * seconds)

  amount_in : Dict String ℕ → String → Option (ℕ × String) → Option ℕ
  unfolding scaled
  amount_in table unit none = none
  amount_in table unit (some (n, rest)) =
      if rest == ""
      then scaled n (Dict.get unit table)
      else if unit == ""
      then scaled n (Dict.get rest table)
      else none

  -- `(\d+)\s*(unit)s?` of one word, or of two of which the first is the number.
  pub seconds_of : Dict String ℕ → List String → Option ℕ
  unfolding amount_in number_from
  seconds_of table (word ∷ []) = amount_in table "" (number_from none word)
  seconds_of table (number ∷ unit ∷ []) = amount_in table unit (number_from none number)
  seconds_of table _ = none

  bad_time : String → String
  bad_time raw = joined (
      "couldn't read the time '" ∷ raw
      ∷ "' — a schedule holds ONE time, written as '8am', '8:30am', '20:15' or '14:00'. "
      ∷ "For several times a day, call it once per time." ∷ [])

  unfoldable pub timed : (ℕ × ℕ → Schedule) → String → Option (ℕ × ℕ) → Result String Schedule
  unfolding bad_time
  timed plan raw none = err (bad_time raw)
  timed plan raw (some time) = ok (plan time)

  -- A time that is written as the words after `at`.
  unfoldable pub at_words : (ℕ × ℕ → Schedule) → List String → Result String Schedule
  unfolding timed parse_time
  at_words plan words = let raw = Text.join " " words in timed plan raw (parse_time raw)

  -- The words after a prefix, if there are any.
  unfoldable pub after_prefix : List String → List String → Option (List String)
  after_prefix [] [] = none
  after_prefix [] (w ∷ ws) = some (w ∷ ws)
  after_prefix (p ∷ ps) [] = none
  after_prefix (p ∷ ps) (w ∷ ws) = if p == w then after_prefix ps ws else none

  unfoldable pub planned_at :
      (ℕ × ℕ → Schedule) → Option (List String) → Option (Result String Schedule)
  unfolding at_words
  planned_at plan none = none
  planned_at plan (some words) = some (at_words plan words)

  -- `in 30 minutes`
  unfoldable pub in_seconds : ℕ → Option ℕ → Option (Result String Schedule)
  in_seconds now none = none
  in_seconds now (some seconds) = some (ok (once (now + seconds * 1000000)))

  -- `every 30 minutes`
  unfoldable pub every_seconds : Option ℕ → Option (Result String Schedule)
  every_seconds none = none
  every_seconds (some seconds) = some (
      if ltb seconds 30 then err "minimum repeat interval is 30 seconds" else ok (interval seconds))

  unfoldable pub amount_after : Dict String ℕ → Option (List String) → Option ℕ
  unfolding seconds_of
  amount_after table none = none
  amount_after table (some words) = seconds_of table words

  unfoldable pub on_weekday : Option ℕ → List String → Option (Result String Schedule)
  unfolding at_words
  on_weekday none words = none
  on_weekday (some day) words = some (at_words (λ time. weekly day time.0 time.1) words)

  -- `every monday at 9am`
  unfoldable pub weekly_words : List String → Option (Result String Schedule)
  unfolding on_weekday
  weekly_words (e ∷ day ∷ a ∷ w ∷ ws) =
      if e == "every" && a == "at" then on_weekday (Dict.get day weekdays) (w ∷ ws) else none
  weekly_words _ = none

  same_words : List String → List String → Bool
  same_words [] [] = true
  same_words (v ∷ vs) (w ∷ ws) = v == w && same_words vs ws
  same_words _ _ = false

  unfoldable pub exactly : Bool → ℕ → Option (Result String Schedule)
  exactly true seconds = some (ok (interval seconds))
  exactly false seconds = none

  abbrev pub later_today : ℕ → ℕ × ℕ → Schedule
  later_today now time =
      let t = at_time now time.0 time.1 in once (if leb t now then t + 86400000000 else t)

  abbrev pub tomorrow_at : ℕ → ℕ × ℕ → Schedule
  tomorrow_at now time = once (at_time (now + 86400000000) time.0 time.1)

  abbrev pub each_day : ℕ × ℕ → Schedule
  each_day time = daily time.0 time.1

  not_understood : String
  not_understood = joined (
      "couldn't understand that schedule. Try one of: 'in 30 minutes', 'every day at 8am', "
      ∷ "'every hour', 'every 15 minutes', 'every monday at 9am', 'tomorrow at 7pm', or 'at 3pm'."
      ∷ [])

  -- The first form that the words have.
  unfoldable pub chosen : List (Option (Result String Schedule)) → Result String Schedule
  unfolding not_understood
  chosen [] = err not_understood
  chosen (none ∷ forms) = chosen forms
  chosen (some plan ∷ forms) = plan

  unfoldable pub forms : ℕ → List String → List (Option (Result String Schedule))
  unfolding amount_after after_prefix in_seconds every_seconds planned_at weekly_words same_words
      exactly
  forms now words =
      in_seconds now (amount_after units_and_days (after_prefix ("in" ∷ []) words))
      ∷ every_seconds (amount_after units (after_prefix ("every" ∷ []) words))
      ∷ exactly (same_words words ("every" ∷ "hour" ∷ []) || same_words words ("hourly" ∷ [])) 3600
      ∷ exactly (same_words words ("every" ∷ "minute" ∷ [])) 60
      ∷ planned_at each_day (after_prefix ("every" ∷ "day" ∷ "at" ∷ []) words)
      ∷ planned_at each_day (after_prefix ("everyday" ∷ "at" ∷ []) words)
      ∷ planned_at each_day (after_prefix ("daily" ∷ "at" ∷ []) words)
      ∷ weekly_words words
      ∷ planned_at (tomorrow_at now) (after_prefix ("tomorrow" ∷ "at" ∷ []) words)
      ∷ planned_at (later_today now) (after_prefix ("today" ∷ "at" ∷ []) words)
      ∷ planned_at (later_today now) (after_prefix ("at" ∷ []) words)
      ∷ []

  unfoldable pub parse_schedule : String → ℕ → Result String Schedule
  unfolding chosen forms Text.split
  parse_schedule text now = chosen (forms now (Text.split (lower (Text.strip text))))
