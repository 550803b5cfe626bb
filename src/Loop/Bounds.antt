-- ===== src/Loop/Bounds.antt =====
-- engine/loop.py: what a whole turn does, from the message of the user to its end.
use argus_agent.Base.{
  ℕ, zero, suc, ◌+◌, ◌-◌, ◌*◌, ◌≤◌, ◌<◌, max, String, ◌≡◌, ◌≢◌, ◌↔◌, refl, sym, ap, subst, ◌∙◌,
  Bool, true, false, not, ◌&&◌, ◌||◌, Option, none, some, List, [], ◌∷◌, ◌++◌, map, arith, Keyed,
  ◌==◌, nat_eq, string_eq, pair_eq, elem, add, keep, drop, each_of, length, if◌then◌else◌,
  Bool-cases, Option-cases, some_eq, inl, inr, ◌⊎◌, eq_refl, ltb, leb, ltb→lt, lt→ltb,
}
use argus_agent.Base.Json.{Json}
use argus_agent.Base.Result.{Result, ok, err}
use argus_agent.Loop.Types.{Deps, Turn, Event, Next, goes_on, returns, raises, emit}
use argus_agent.Loop.Run.{signature, pass, passes, run_loop, started, ended_or}
use argus_agent.Loop.Kept.{tally, is_request, is_closing, is_call_of}
use argus_agent.Loop.Limits.{Ended, Stopped, flag_le}
use argus_agent.Loop.Passes.{Held, Going, pass-Held, limit_of}

module _ {W R V : Type 0} (deps : Deps W R V) where
  -- A turn is over after `k` passes: it returns an answer, or it raises.
  pub data Over (sig : String) (k : ℕ) (r : Result String Json × Turn W R) : Type 0 where
    is_answered :
        (answer : Json)
        → r.0 ≡ ok answer
        → Ended (signature deps) (limit_of deps.enable_observer deps.observer_threshold) sig k r.1
        → Over sig k r
    is_raised :
        (e : String)
        → r.0 ≡ err e
        → Stopped (signature deps) (limit_of deps.enable_observer deps.observer_threshold) sig k r.1
        → Over sig k r

  -- The end of a turn, after at most `n` passes.
  pub EndedBy : String → ℕ → Result String Json × Turn W R → Type 0
  EndedBy sig n r = (k : ℕ) × (k ≤ n) × Over sig k r

  over :
      (sig : String) (n : ℕ) (answer : Json) (t : Turn W R)
      → Going deps sig n 0 t
      → EndedBy sig
          (n + 0)
          (ok answer, emit deps.max_steps (Event.max_steps_exceeded deps.max_steps) t)
  unfolding EndedBy Going
  over sig n answer t h = (
    n,
    omega arith,
    is_answered answer refl (record {
      last = (deps.max_steps, Event.max_steps_exceeded deps.max_steps);
      older = t.trace;
      trace = refl;
      closing = refl;
      unclosed = h.unclosed;
      asked = omega (arith, h.asked);
      bounded = λ m e. omega (arith, h.calls, h.bounded m e);
      nudged = omega (arith, h.nudged, flag_le t.fuzzy_repeat_nudged);
    }),
  )

  begins :
      (sig user_text : String) (user_content : Option Json) (world : W) (conversation : List Json)
      → Going deps sig 0 0 (started deps user_text user_content world conversation)
  unfolding Going started argus_agent.Base.Dict.get
  begins sig user_text user_content world conversation = record {
    unclosed = omega arith;
    asked = omega arith;
    calls = omega arith;
    bounded = λ m e. omega arith;
    nudged = omega arith;
  }

  ended_or-EndedBy :
      (sig : String) (n left : ℕ) (m : Next W R) (f : Turn W R → Result String Json × Turn W R)
      → Held deps sig (suc n) m
      → ((t : Turn W R) → Going deps sig (suc n) 0 t → EndedBy sig (suc n + left) (f t))
      → EndedBy sig (n + suc left) (ended_or m f)
  unfolding EndedBy Held Going
  ended_or-EndedBy sig n left (goes_on t) f h g = let (k, small, e) = g t h in (k, omega arith, e)
  ended_or-EndedBy sig n left (returns a t) f h g = (suc n, omega arith, is_answered a refl h)
  ended_or-EndedBy sig n left (raises e t) f h g = (suc n, omega arith, is_raised e refl h)

  passes-EndedBy :
      (sig : String) (left n step : ℕ) (t : Turn W R)
      → Going deps sig n 0 t
      → EndedBy sig (n + left) (passes deps left step t)
  unfolding passes
  passes-EndedBy sig zero n step t h = over sig n _ t h
  passes-EndedBy sig (suc left) n step t h =
      ended_or-EndedBy sig n left (pass deps step t) _ (pass-Held deps sig n step t h)
        (λ u g. passes-EndedBy sig left (suc n) (suc step) u g)

  pub run_loop-EndedBy :
      (user_text : String) (user_content : Option Json) (world : W) (conversation : List Json)
      (sig : String)
      → EndedBy sig deps.max_steps (run_loop deps user_text user_content world conversation)
  unfolding run_loop started
  run_loop-EndedBy user_text user_content world conversation sig =
      subst
        (λ n.
          EndedBy sig n
            (passes deps deps.max_steps 1 (started deps user_text user_content world conversation)))
        (omega arith)
        (passes-EndedBy sig deps.max_steps 0 1 _
          (begins sig user_text user_content world conversation))

  module _ (user_text : String) (user_content : Option Json) (world : W)
      (conversation : List Json) where
    -- A turn asks the model at most `max_steps` times.
    pub run_loop-max_steps :
        tally is_request (run_loop deps user_text user_content world conversation).1.trace
        ≤ deps.max_steps
    unfolding EndedBy
    run_loop-max_steps =
        let (k, small, e) = run_loop-EndedBy user_text user_content world conversation "" in
        elim e [
          | is_answered a f o ↦ omega (arith, o.asked)
          | is_raised x f o ↦ omega (arith, o.asked)
        ]

    -- A turn that returns ends with one event that ends a turn (an answer, a pause, a failed call of
    -- the model, a second reply that does not parse, or too many steps), and none came before it; a
    -- turn that raises has no such event.
    pub run_loop-is_closing :
        ((answer : Json) × ((run_loop deps user_text user_content world conversation).0 ≡ ok answer)
          × (last : ℕ × Event R) × (older : List (ℕ × Event R)) × ((run_loop deps user_text
                user_content world conversation).1.trace
              ≡ last ∷ older)
          × (is_closing last.1 ≡ true)
          × (tally is_closing older ≡ 0))
        ⊎ ((e : String) × ((run_loop deps user_text user_content world conversation).0 ≡ err e)
            × (tally is_closing (run_loop deps user_text user_content world conversation).1.trace
                ≡ 0))
    unfolding EndedBy
    run_loop-is_closing =
        let (k, small, over) = run_loop-EndedBy user_text user_content world conversation "" in
        elim over [
          | is_answered a f o ↦ inl (a, f, o.last, o.older, o.trace, o.closing, o.unclosed)
          | is_raised e f o ↦ inr (e, f, o.unclosed)
        ]

    -- With the observer on, calls with one signature (the tool and its arguments) come up at most
    -- once more than the threshold in a turn.
    pub run_loop-observer_threshold :
        (sig : String)
        → deps.enable_observer ≡ true
        → tally
            (is_call_of (signature deps) sig)
            (run_loop deps user_text user_content world conversation).1.trace
          ≤ suc deps.observer_threshold
    unfolding EndedBy
    run_loop-observer_threshold sig on =
        let (k, small, e) = run_loop-EndedBy user_text user_content world conversation sig in
        let lets = ap (λ b. limit_of b deps.observer_threshold) on in
        elim e [
          | is_answered a f o ↦ o.bounded deps.observer_threshold lets
          | is_raised x f o ↦ o.bounded deps.observer_threshold lets
        ]
