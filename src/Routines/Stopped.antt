-- ===== src/Routines/Stopped.antt =====
-- engine/routines/executor.py: which steps were run, and when a routine is delivered.
use argus_agent.Base.{
  ℕ, String, ◌≡◌, refl, sym, ap, ◌∙◌, Bool, true, false, not, ◌&&◌, ◌||◌, List, [], ◌∷◌, ◌++◌,
  arith,
}
use mathlib.Core.List.{append-nil, append_assoc}
use argus_agent.Base.Dict.{Dict}
use argus_agent.Base.Result.{Result, ok, err}
use argus_agent.Routines.{Step, shown}
use argus_agent.Routines.Executor.{
  StepResult, Ops, Plan, Ended, finished, stopped, succeeded, step_result, step_end, run_steps,
  finish_run, conclude, run,
}

-- The results are those of the steps from the first on, in order, and every result but the last is a
-- success or that of a step that is optional.
abbrev pub Follows : List Step → List StepResult → Type 0
Follows ss [] = Unit
Follows [] (r ∷ rs) = true ≡ false
Follows (s ∷ ss) (r ∷ []) = r.id ≡ shown s.id
Follows (s ∷ ss) (r ∷ q ∷ rs) =
    (r.id ≡ shown s.id) × ((r.ok || s.optional) ≡ true) × Follows ss (q ∷ rs)

-- Every step was run, and succeeded or is optional.
abbrev pub Passes : List Step → List StepResult → Type 0
Passes [] [] = Unit
Passes [] (r ∷ rs) = true ≡ false
Passes (s ∷ ss) [] = true ≡ false
Passes (s ∷ ss) (r ∷ rs) = (r.id ≡ shown s.id) × ((r.ok || s.optional) ≡ true) × Passes ss rs

-- The results of a run of steps are those from before and new ones that follow the steps.
data Shows {W : Type 0} (ss : List Step) (before : List StepResult) : Ended W → Type 0 where
  to_the_end :
      (rs : List StepResult) (ctx : Dict String String) (all : List StepResult) (w : W)
      → all ≡ before ++ rs
      → Passes ss rs
      → Shows ss before (finished ctx all w)
  up_to :
      (rs : List StepResult) (e : String) (all : List StepResult) (w : W)
      → all ≡ before ++ rs
      → Follows ss rs
      → Shows ss before (stopped e all w)

Follows-cons :
    (s : Step) (ss : List Step) (r : StepResult) (rs : List StepResult)
    → r.id ≡ shown s.id
    → (r.ok || s.optional) ≡ true
    → Follows ss rs
    → Follows (s ∷ ss) (r ∷ rs)
Follows-cons s ss r [] i o h = i
Follows-cons s ss r (q ∷ rs) i o h = (i, o, h)

Passes-Follows : (ss : List Step) (rs : List StepResult) → Passes ss rs → Follows ss rs
Passes-Follows [] [] h = tt
Passes-Follows [] (r ∷ rs) h = h
Passes-Follows (s ∷ ss) [] h = tt
Passes-Follows (s ∷ ss) (r ∷ rs) h = Follows-cons s ss r rs h.0 h.1 (Passes-Follows ss rs h.2)

step_result_parts :
    (sid type : String) (ms : ℕ) (o : Result String String)
    → ((step_result sid type ms o).id ≡ sid) × ((step_result sid type ms o).ok ≡ succeeded o)
step_result_parts sid type ms (ok out) = (refl, refl)
step_result_parts sid type ms (err out) = (refl, refl)

after_one :
    {W : Type 0} (s : Step) (ss : List Step) (r : StepResult) (before : List StepResult)
    (e : Ended W)
    → r.id ≡ shown s.id
    → (r.ok || s.optional) ≡ true
    → Shows ss (before ++ r ∷ []) e
    → Shows (s ∷ ss) before e
after_one s ss r before e i o (to_the_end rs ctx all w at h) =
    to_the_end (r ∷ rs) ctx all w (at ∙ append_assoc before (r ∷ []) rs) (i, o, h)
after_one s ss r before e i o (up_to rs m all w at h) =
    up_to (r ∷ rs) m all w (at ∙ append_assoc before (r ∷ []) rs) (Follows-cons s ss r rs i o h)

step_end-Shows :
    {W : Type 0} (s : Step) (ss : List Step) (r : StepResult) (before : List StepResult)
    (fails over : Bool) (why late : String) (w : W) (rest : Ended W)
    → r.id ≡ shown s.id
    → (not r.ok && not s.optional) ≡ fails
    → Shows ss (before ++ r ∷ []) rest
    → Shows (s ∷ ss) before (step_end fails why over late (before ++ r ∷ []) w rest)
step_end-Shows s ss r before true over why late w rest i f h =
    up_to (r ∷ []) why (before ++ r ∷ []) w refl i
step_end-Shows s ss r before false true why late w rest i f h =
    up_to (r ∷ []) late (before ++ r ∷ []) w refl i
step_end-Shows s ss r before false false why late w rest i f h =
    after_one s ss r before rest i (ground (arith, f)) h

module _ {W : Type 0} (ops : Ops W) where
  run_steps-Shows :
      (name session_id : String) (start : ℕ) (ss : List Step) (ctx : Dict String String)
      (before : List StepResult) (w : W)
      → Shows ss before (run_steps ops name session_id start ss ctx before w)
  unfolding run_steps
  run_steps-Shows name session_id start [] ctx before w =
      to_the_end [] ctx before w (sym (append-nil before)) tt
  run_steps-Shows name session_id start (s ∷ ss) ctx before w =
      let (i, o) = step_result_parts (shown s.id) _ _ _ in
      step_end-Shows s ss _ before _ _ _ _ _ _ i (ap (λ b. not b && not s.optional) o)
        (run_steps-Shows name session_id start ss _ _ _)

  conclude-Follows :
      (wanted : Bool) (plan : Plan) (session_id : String) (start : ℕ) (e : Ended W)
      → Shows plan.steps [] e
      → Follows plan.steps (conclude ops wanted plan session_id start e).0.steps
  unfolding conclude finish_run
  conclude-Follows wanted plan session_id start e (to_the_end rs ctx all w at h) =
      rw at (Passes-Follows plan.steps rs h)
  conclude-Follows wanted plan session_id start e (up_to rs m all w at h) = rw at h

  conclude-Passes :
      (wanted : Bool) (plan : Plan) (session_id : String) (start : ℕ) (e : Ended W)
      → Shows plan.steps [] e
      → ((conclude ops wanted plan session_id start e).0.ok
          || (conclude ops wanted plan session_id start e).0.delivered)
        ≡ true
      → Passes plan.steps (conclude ops wanted plan session_id start e).0.steps
  unfolding conclude finish_run
  conclude-Passes wanted plan session_id start e (to_the_end rs ctx all w at h) good = rw at h
  conclude-Passes wanted plan session_id start e (up_to rs m all w at h) good = cc

  -- Whatever the tools and the model do, the results of a run are those of its steps from the first on,
  -- in order, and no step is run after a failed one that is not optional.
  pub run-Follows :
      (plan : Plan) (session_id : String) (wanted : Bool) (seed : Dict String String) (w : W)
      → Follows plan.steps (run ops plan session_id wanted seed w).0.steps
  unfolding run
  run-Follows plan session_id wanted seed w =
      conclude-Follows wanted plan session_id _ _
        (run_steps-Shows plan.name session_id _ plan.steps _ [] w)

  -- A run that is reported as a success, or whose output was delivered, has run every step, and each
  -- one succeeded or is optional.
  run-Passes :
      (plan : Plan) (session_id : String) (wanted : Bool) (seed : Dict String String) (w : W)
      → ((run ops plan session_id wanted seed w).0.ok
          || (run ops plan session_id wanted seed w).0.delivered)
        ≡ true
      → Passes plan.steps (run ops plan session_id wanted seed w).0.steps
  unfolding run
  run-Passes plan session_id wanted seed w good =
      conclude-Passes wanted plan session_id _ _
        (run_steps-Shows plan.name session_id _ plan.steps _ [] w) good
