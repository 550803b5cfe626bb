-- ===== src/Loop/Passes.antt =====
-- engine/loop.py: each pass of the loop keeps the limits of a turn.
use argus_agent.Base.{
  ℕ, suc, ◌≤◌, String, ◌≡◌, refl, subst, Bool, true, false, not, ◌&&◌, Option, none, some, [],
  arith, ◌==◌, nat_eq, string_eq, pair_eq, if◌then◌else◌, Bool-cases, inl, inr, ltb,
}
use argus_agent.Base.Result.{Result, ok, err}
use argus_agent.Loop.Types.{
  Deps, Turn, Event, Next, goes_on, returns, raises, emit, ToolCall, Parsed, tool_call,
  unnamed_call, final_answer, parse_failure,
}
use argus_agent.Loop.Turn.{
  then_on, finish, repeat_check, fuzzy_check, stop_repeating, with_call, with_recent, fuzzy_nudge,
  is_fuzzy_repeat, count_of, count_up,
}
use argus_agent.Loop.Run.{signature, on_call, on_unnamed, respond, after_parse, heard, pass}
use argus_agent.Loop.Stages.{finish-Closes, Carried-after, world-Kept}
use argus_agent.Loop.Kept.{Kept-trans, emit-Kept, Carried}
use argus_agent.Loop.Limits.{
  Inv, Ended, Stopped, Inv-Kept, Closes-Ended, Inv-Stopped, count_of-count_up, flag, flag_le,
}
use argus_agent.Loop.Parts.{
  recreate_check-Carried, validated-Kept, carry_out-Carried, on_failure-Carried,
  stop_repeating-Closes,
}

-- The number of calls with one signature that the observer lets through.
abbrev pub limit_of : Bool → ℕ → Option ℕ
limit_of true m = some m
limit_of false m = none

limit_of-bounded : (b : Bool) (k c m : ℕ) → limit_of b k ≡ some m → (b && ltb k c) ≡ false → c ≤ m
limit_of-bounded b k c m h e = ground arith

module _ {W R V : Type 0} (deps : Deps W R V) where
  -- What a pass comes to, from a turn between two passes.
  unfoldable pub Held : String → ℕ → Next W R → Type 0
  Held sig n (goes_on t) =
      Inv (signature deps) (limit_of deps.enable_observer deps.observer_threshold) sig n 0 t
  Held sig n (returns answer t) =
      Ended (signature deps) (limit_of deps.enable_observer deps.observer_threshold) sig n t
  Held sig n (raises e t) =
      Stopped (signature deps) (limit_of deps.enable_observer deps.observer_threshold) sig n t

  module _ (sig : String) (n : ℕ) where
    unfoldable pub Going : ℕ → Turn W R → Type 0
    Going extra t =
        Inv (signature deps) (limit_of deps.enable_observer deps.observer_threshold) sig n extra t

    Carried-Held : (t : Turn W R) (m : Next W R) → Carried t m → Going 0 t → Held sig n m
    unfolding Carried Held Going
    Carried-Held t (goes_on t') k h = Inv-Kept _ _ sig n 0 k h
    Carried-Held t (returns a t') c h = Closes-Ended _ _ sig n 0 (omega arith) c h
    Carried-Held t (raises e t') k h =
        Inv-Stopped _ _ sig n 0 (omega arith) (Inv-Kept _ _ sig n 0 k h)

    Going-if :
        (b : Bool) (t u : Turn W R)
        → (b ≡ true → Going 0 t)
        → Going 0 u
        → Going 0 (if b then t else u)
    Going-if true t u g h = g refl
    Going-if false t u g h = h

    Held-if :
        (b : Bool) (m k : Next W R)
        → Held sig n m
        → (b ≡ false → Held sig n k)
        → Held sig n (if b then m else k)
    Held-if true m k g h = g
    Held-if false m k g h = h refl

    fuzzy_check-Going :
        (step : ℕ) (call : ToolCall) (t : Turn W R)
        → Going 0 t
        → Going 0 (fuzzy_check deps step call t)
    unfolding Going fuzzy_check
    fuzzy_check-Going step call t h =
        Going-if (not t.fuzzy_repeat_nudged && is_fuzzy_repeat deps call (with_recent deps call t))
          (fuzzy_nudge deps step call (with_recent deps call t)) (with_recent deps call t)
          (λ e. record {
            unclosed = omega (arith, h.unclosed);
            asked = omega (arith, h.asked);
            calls = omega (arith, h.calls);
            bounded = h.bounded;
            nudged = ground (arith, e, h.nudged);
          })
          (record {
            unclosed = h.unclosed;
            asked = h.asked;
            calls = h.calls;
            bounded = h.bounded;
            nudged = h.nudged;
          })

    with_call-Going :
        (call : ToolCall) (t : Turn W R)
        → Going (flag (signature deps call == sig)) t
        → (deps.enable_observer
            && ltb deps.observer_threshold (
                count_of
                  (signature deps call)
                  (with_call deps (signature deps call) t).call_counts))
          ≡ false
        → Going 0 (with_call deps (signature deps call) t)
    unfolding Going
    with_call-Going call t h e = record {
      unclosed = h.unclosed;
      asked = h.asked;
      calls = omega (arith, h.calls, count_of-count_up sig (signature deps call) t.call_counts);
      bounded = λ m at. elim (Bool-cases (signature deps call == sig)) [
        | inl same ↦
            subst (λ k. count_of k (count_up (signature deps call) t.call_counts) ≤ m)
              ((string_eq.same_iff (signature deps call) sig).0 same)
              (limit_of-bounded deps.enable_observer deps.observer_threshold _ m at e)
        | inr other ↦ ground (
          arith,
          count_of-count_up sig (signature deps call) t.call_counts,
          other,
          h.bounded m at,
        )
      ];
      nudged = h.nudged;
    }

    stop_repeating-Held :
        (step : ℕ) (call : ToolCall) (t : Turn W R)
        → Going (flag (signature deps call == sig)) t
        → Held sig n (
            stop_repeating deps step call
              (signature deps call)
              (with_call deps (signature deps call) t))
    unfolding Going Held stop_repeating finish Carried
    stop_repeating-Held step call t h =
        Closes-Ended _ _ sig n (flag (signature deps call == sig))
          (flag_le (signature deps call == sig)) (stop_repeating-Closes deps step call t) h

    repeat_check-Held :
        (step : ℕ) (call : ToolCall) (t : Turn W R)
        → Going (flag (signature deps call == sig)) t
        → Held sig n (repeat_check deps step call (signature deps call) t)
    unfolding Going Held repeat_check
    repeat_check-Held step call t h =
        Held-if
          (deps.enable_observer
            && ltb deps.observer_threshold (
                count_of (signature deps call)
                  (with_call deps (signature deps call) t).call_counts))
          (stop_repeating deps step call (signature deps call)
            (with_call deps (signature deps call) t))
          (goes_on (with_call deps (signature deps call) t)) (stop_repeating-Held step call t h)
          (λ e. with_call-Going call t h e)

    then_on-Held :
        (m : Next W R) (f : Turn W R → Next W R)
        → Held sig n m
        → ((t : Turn W R) → Going 0 t → Held sig n (f t))
        → Held sig n (then_on m f)
    unfolding Held Going
    then_on-Held (goes_on t) f h g = g t h
    then_on-Held (returns a t) f h g = h
    then_on-Held (raises e t) f h g = h

    named-Held :
        (t : Turn W R) (extra : ℕ) (m : Next W R) (f : Turn W R → Next W R)
        → extra ≤ 1
        → Carried t m
        → Going extra t
        → ((u : Turn W R) → Going extra u → Held sig n (f u))
        → Held sig n (then_on m f)
    unfolding Held Going Carried
    named-Held t extra (goes_on u) f small k h g = g u (Inv-Kept _ _ sig n extra k h)
    named-Held t extra (returns a u) f small c h g = Closes-Ended _ _ sig n extra small c h
    named-Held t extra (raises e u) f small k h g =
        Inv-Stopped _ _ sig n extra small (Inv-Kept _ _ sig n extra k h)

    on_call-Held :
        (step : ℕ) (resp : R) (call : ToolCall) (t : Turn W R)
        → Going 0 t
        → Held sig n (on_call deps step resp call t)
    unfolding on_call Going
    on_call-Held step resp call t h =
        named-Held (emit step (Event.called call) (record t { parse_failures = 0 }))
          (flag (signature deps call == sig)) _ _ (flag_le (signature deps call == sig))
          (recreate_check-Carried deps step call _)
          (record {
            unclosed = omega (arith, h.unclosed);
            asked = omega (arith, h.asked);
            calls = omega (arith, h.calls);
            bounded = h.bounded;
            nudged = omega (arith, h.nudged);
          })
          (λ named g. then_on-Held _ _ (repeat_check-Held step call named g) (λ counted k.
            Carried-Held _ _
              (Carried-after _ (validated-Kept deps step call (fuzzy_check deps step call counted))
                (carry_out-Carried deps step resp call _))
              (fuzzy_check-Going step call counted k)))

    respond-Held :
        (step : ℕ) (resp : R) (p : Parsed) (t : Turn W R)
        → Going 0 t
        → Held sig n (respond deps step resp p t)
    unfolding respond on_unnamed Held Going
    respond-Held step resp (final_answer answer) t h =
        Carried-Held t _ (finish-Closes step _ [] t) h
    respond-Held step resp (parse_failure reason raw) t h =
        Carried-Held t _ (on_failure-Carried deps step resp reason raw t) h
    respond-Held step resp (tool_call call) t h = on_call-Held step resp call t h
    respond-Held step resp (unnamed_call tool args) t h =
        Inv-Stopped _ _ sig n 0 (omega arith) (record {
          unclosed = omega (arith, h.unclosed);
          asked = omega (arith, h.asked);
          calls = omega (arith, h.calls);
          bounded = h.bounded;
          nudged = omega (arith, h.nudged);
        })

    after_parse-Held :
        (step : ℕ) (resp : R) (p : Result String Parsed) (t : Turn W R)
        → Going 0 t
        → Held sig n (after_parse deps step resp p t)
    unfolding after_parse Held Going
    after_parse-Held step resp (ok p) t h = respond-Held step resp p t h
    after_parse-Held step resp (err e) t h = Inv-Stopped _ _ sig n 0 (omega arith) h

    heard-Held :
        (step : ℕ) (r : Result String R × W) (t : Turn W R)
        → Going 0 t
        → Held sig n (heard deps step r t)
    unfolding heard Going Carried
    heard-Held step (err e, w) t h =
        Carried-Held t (heard deps step (err e, w) t)
          (record {
            before = record t { world = w };
            kept = world-Kept w t;
            last = (step, Event.model_error e);
            closing = refl;
            trace = refl;
            conversation = refl;
          })
          h
    heard-Held step (ok raw, w) t h =
        after_parse-Held step _ _ _
          (Inv-Kept _ _ sig n 0 (Kept-trans (world-Kept w t) (emit-Kept step _ _ refl)) h)

  pub pass-Held :
      (sig : String) (n step : ℕ) (t : Turn W R)
      → Going sig n 0 t
      → Held sig (suc n) (pass deps step t)
  unfolding pass Going
  pass-Held sig n step t h = heard-Held sig (suc n) step _ _ (record {
    unclosed = omega (arith, h.unclosed);
    asked = omega (arith, h.asked);
    calls = omega (arith, h.calls);
    bounded = h.bounded;
    nudged = omega (arith, h.nudged);
  })
