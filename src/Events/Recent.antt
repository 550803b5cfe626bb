-- ===== src/Events/Recent.antt =====
-- engine/events.py: what a late subscriber can replay.
use argus_agent.Base.{
  ℕ, zero, suc, ◌+◌, ◌-◌, ◌≤◌, String, ◌≡◌, refl, sym, ap, ◌∙◌, Bool, true, false, Option, List, [],
  ◌∷◌, ◌++◌, arith, ◌==◌, string_eq, drop, length, length-append, length-drop, if◌then◌else◌,
  Bool-cases, inl, inr,
}
use argus_agent.Base.Dict
use argus_agent.Base.Dict.{Dict, get-put, get-remove}
use argus_agent.Events.{
  StepEvent, EventBus, newest, or_no_events, new_bus, add_sink, recent, publish, clear, subscribe,
}

drop_same : {m n : ℕ} (xs : List StepEvent) → m ≡ n → drop m xs ≡ drop n xs
drop_same xs e = ap (λ k. drop k xs) e

plus_suc : (b a : ℕ) → suc (b + a) ≡ suc b + a
plus_suc b a = omega arith

drop_none : (n : ℕ) → (let none_left : List StepEvent = [] in none_left ≡ drop n none_left)
drop_none zero = refl
drop_none (suc n) = refl

drop-drop : (a b : ℕ) (xs : List StepEvent) → drop a (drop b xs) ≡ drop (b + a) xs
drop-drop a zero xs = drop_same xs (omega arith)
drop-drop zero (suc b) [] = drop_none (suc b + 0)
drop-drop (suc a) (suc b) [] = drop_none (suc b + suc a)
drop-drop a (suc b) (x ∷ xs) = drop-drop a b xs ∙ drop_same (x ∷ xs) (plus_suc b a)

drop-append : (k : ℕ) (xs ys : List StepEvent) → k ≤ length xs → drop k (xs ++ ys) ≡ drop k xs ++ ys
drop-append zero xs ys h = refl
drop-append (suc k) [] ys h = ground (arith, h)
drop-append (suc k) (x ∷ xs) ys h = drop-append k xs ys (omega (arith, h))

-- To keep the newest and add one is to add one to all and keep the newest.
newest-append :
    (n : ℕ) (xs : List StepEvent) (x : StepEvent)
    → newest n (newest n xs ++ x ∷ []) ≡ newest n (xs ++ x ∷ [])
unfolding newest
newest-append n xs x =
    let k = length xs - n in
    ap (newest n) (sym (drop-append k xs (x ∷ []) (omega arith)))
    ∙ drop-drop _ k (xs ++ x ∷ [])
    ∙ ap (λ m. drop m (xs ++ x ∷ []))
        (omega (arith, length-drop k (xs ++ x ∷ []), length-append xs (x ∷ [])))

newest_published :
    (b : Bool) (n : ℕ) (kept events : List StepEvent) (x : StepEvent)
    → kept ≡ newest n events
    → (if b then newest n (kept ++ x ∷ []) else kept)
      ≡ newest n (if b then events ++ x ∷ [] else events)
newest_published true n kept events x h =
    ap (λ ys. newest n (ys ++ x ∷ [])) h ∙ newest-append n events x
newest_published false n kept events x h = h

newest_cleared :
    (b : Bool) (n : ℕ) (kept events : List StepEvent)
    → kept ≡ newest n events
    → (if b then [] else kept) ≡ newest n (if b then [] else events)
unfolding newest
newest_cleared true n kept events h = drop_none (0 - n)
newest_cleared false n kept events h = h

-- What happens on a bus.
pub data Act (W : Type 0) : Type 0 where
  publishes : StepEvent → Act W
  clears : String → Act W
  subscribes : Option String → Act W
  adds_sink : (StepEvent → W → W) → Act W

-- The events of a session since it was last cleared, after those before.
unfoldable pub since : {W : Type 0} → String → List StepEvent → List (Act W) → List StepEvent
since session_id events [] = events
since session_id events (publishes ev ∷ acts) =
    since session_id (if ev.session_id == session_id then events ++ ev ∷ [] else events) acts
since session_id events (clears other ∷ acts) =
    since session_id (if other == session_id then [] else events) acts
since session_id events (subscribes session_filter ∷ acts) = since session_id events acts
since session_id events (adds_sink fn ∷ acts) = since session_id events acts

module _ {W : Type 0} where
  unfoldable pub run : List (Act W) → EventBus W → W → EventBus W × W
  run [] bus w = (bus, w)
  run (publishes ev ∷ acts) bus w = let done = publish ev bus w in run acts done.0 done.1
  run (clears session_id ∷ acts) bus w = run acts (clear session_id bus) w
  run (subscribes session_filter ∷ acts) bus w = run acts (subscribe session_filter bus) w
  run (adds_sink fn ∷ acts) bus w = run acts (add_sink fn bus) w

  recent-publish :
      (ev : StepEvent) (bus : EventBus W) (w : W) (session_id : String)
      → recent session_id (publish ev bus w).0 ≡ (
          if ev.session_id == session_id
          then newest bus.maxlen (recent session_id bus ++ ev ∷ [])
          else recent session_id bus)
  unfolding recent publish
  recent-publish ev bus w session_id =
      let new = newest bus.maxlen (recent ev.session_id bus ++ ev ∷ []) in
      let put = get-put ev.session_id session_id new bus.history in
      elim (Bool-cases (ev.session_id == session_id)) [
        | inl same ↦ rw same (
            ap or_no_events (rw same at put)
            ∙ ap (λ id. newest bus.maxlen (recent id bus ++ ev ∷ []))
                ((string_eq.same_iff ev.session_id session_id).0 same))
        | inr other ↦ rw other (ap or_no_events (rw other at put))
      ]

  recent-clear :
      (other session_id : String) (bus : EventBus W)
      → recent session_id (clear other bus)
        ≡ (if other == session_id then [] else recent session_id bus)
  unfolding recent clear
  recent-clear other session_id bus = ground (arith, get-remove other session_id bus.history)

  run-recent :
      (acts : List (Act W)) (bus : EventBus W) (w : W) (session_id : String)
      (events : List StepEvent)
      → recent session_id bus ≡ newest bus.maxlen events
      → recent session_id (run acts bus w).0 ≡ newest bus.maxlen (since session_id events acts)
  unfolding run since publish clear subscribe add_sink
  run-recent [] bus w session_id events h = h
  run-recent (publishes ev ∷ acts) bus w session_id events h = run-recent acts _ _ session_id _ (
      recent-publish ev bus w session_id
      ∙ newest_published (ev.session_id == session_id) bus.maxlen _ events ev h)
  run-recent (clears other ∷ acts) bus w session_id events h =
      run-recent acts (clear other bus) w session_id _ (
        recent-clear other session_id bus
        ∙ newest_cleared (other == session_id) bus.maxlen _ events h)
  run-recent (subscribes session_filter ∷ acts) bus w session_id events h =
      run-recent acts (subscribe session_filter bus) w session_id events h
  run-recent (adds_sink fn ∷ acts) bus w session_id events h =
      run-recent acts (add_sink fn bus) w session_id events h

  -- Whatever is published, cleared, subscribed to and listened to on a new bus: a session can replay
  -- exactly the newest of its events since it was last cleared, as many as the bus keeps, in order.
  pub recent-run :
      (acts : List (Act W)) (maxlen : ℕ) (w : W) (session_id : String)
      → recent session_id (run acts (new_bus maxlen) w).0 ≡ newest maxlen (since session_id [] acts)
  unfolding new_bus recent or_no_events Dict.get newest
  recent-run acts maxlen w session_id =
      run-recent acts (new_bus maxlen) w session_id [] (drop_none (0 - maxlen))
