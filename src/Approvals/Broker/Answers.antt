-- ===== src/Approvals/Broker/Answers.antt =====
-- What happens to a question once the owner answers it, in time or late.
use argus_agent.Base.{
  ℕ, String, ◌≡◌, ◌≢◌, refl, sym, ap, ◌∙◌, Bool, true, false, not, Option, none, some, arith,
  nat_eq, string_eq, pair_eq, elem, elem-add_self, Bool-cases, Option-cases, some_eq, inl, inr, ◌⊎◌,
}
use argus_agent.Base.Dict
use argus_agent.Base.Dict.{Dict, get-put, get-remove}
use argus_agent.Approvals.Types.{Decision}
use argus_agent.Approvals.Requests
use argus_agent.Approvals.Requests.{
  Request, Ask, is_pending, get-create, get-resolve, map_resolved, resolved,
}
use argus_agent.Approvals.Broker.{
  PolicyApi, Broker, Meta, unknown, live, decided, ask_key, request_key, gate, wake, resolve,
  action_state, settle, settle_pinned, answer, pin, open_subject, decision_of, is_approval,
  status_of, keep_approval,
}

-- Each waiting turn has its question in the log.
pub record IsLogged {P : Type 0} (b : Broker P) : Type 0 where
  pub logged : (id : String) → Requests.get id b.requests ≡ none → Dict.get id b.pending_meta ≡ none

-- The decision that a click stands for.
abbrev pub answer_of : String → String → Decision
answer_of action who =
    decision_of (is_approval action) (not (is_approval action)) false false (some who)

open_subject-closed :
    (m : Option Meta) (r : Request) → is_pending r.status ≡ false → open_subject m (some r) ≡ none
unfolding open_subject
open_subject-closed m r h = ground arith

pub status_of-closed : (ok : Bool) → is_pending (status_of ok) ≡ false
status_of-closed ok = ground arith

module _ {P : Type 0} (resumable : String → Bool) where
  pub settle-requests :
      (id action who : String) (now : ℕ) (stored : Option Request) (b : Broker P)
      → (settle resumable id action who now stored b).1.requests
        ≡ (Requests.resolve id (status_of (is_approval action)) action who now b.requests).1
  unfolding settle keep_approval
  settle-requests id action who now stored b = ground arith

  pub settle-meta :
      (id action who : String) (now : ℕ) (stored : Option Request) (b : Broker P)
      → (settle resumable id action who now stored b).1.pending_meta ≡ b.pending_meta
  unfolding settle keep_approval
  settle-meta id action who now stored b = ground arith

  pub settle-marked :
      (id action who : String) (now : ℕ) (b b' : Broker P) (r : Request)
      → b'.requests ≡ b.requests
      → Requests.get id b.requests ≡ some r
      → (r' : Request) × (Requests.get id
            (settle resumable id action who now (some r) b').1.requests
          ≡ some r')
        × (r'.status ≡ status_of (is_approval action))
  unfolding resolved
  settle-marked id action who now b b' r same e = (
    resolved r (status_of (is_approval action)) action who now,
    ground (
      arith,
      settle-requests id action who now (some r) b',
      get-resolve id (status_of (is_approval action)) action who now b.requests id,
      string_eq.same_iff id id,
    ),
    refl,
  )

  settle-closed :
      (id action who : String) (now : ℕ) (b b' : Broker P) (r : Request)
      → b'.requests ≡ b.requests
      → Requests.get id b.requests ≡ some r
      → (r' : Request) × (Requests.get id
            (settle resumable id action who now (some r) b').1.requests
          ≡ some r')
        × (is_pending r'.status ≡ false)
  settle-closed id action who now b b' r same e =
      let (r', e', marked) = settle-marked id action who now b b' r same e in
      (r', e', ap is_pending marked ∙ status_of-closed (is_approval action))

  settle-wakes :
      (id action who : String) (now : ℕ) (stored : Option Request) (b : Broker P)
      → Dict.get id b.pending ≡ some none
      → ((settle resumable id action who now stored b).0 ≡ live)
        × ((wake id (settle resumable id action who now stored b).1).0
            ≡ decided (answer_of action who))
  unfolding settle wake
  settle-wakes id action who now stored b waits =
      ground
        (arith, get-put id id (some (answer_of action who)) b.pending, string_eq.same_iff id id)

  settle-deferred :
      (id action who : String) (now : ℕ) (r : Request) (b : Broker P)
      → Dict.get id b.pending ≡ none
      → is_approval action ≡ true
      → elem (request_key r) (settle resumable id action who now (some r) b).1.oneshots ≡ true
  unfolding settle keep_approval
  settle-deferred id action who now r b late ok =
      rw (late, settle, ok, keep_approval) (elem-add_self (request_key r) b.oneshots)

module _ {P : Type 0} (api : PolicyApi P) (resumable : String → Bool) where
  resolve-closed :
      (id action who : String) (now : ℕ) (b : Broker P) (r : Request)
      → Requests.get id b.requests ≡ some r
      → is_pending r.status ≡ false
      → resolve api resumable id action who now b ≡ (unknown, b)
  unfolding resolve answer
  resolve-closed id action who now b r e h =
      rw (e, open_subject-closed (Dict.get id b.pending_meta) r h, answer) refl

  pin_cases :
      (action kind session : String) (b : Broker P)
      → (pin api action kind session b ≡ none)
        ⊎ ((p : P) × (pin api action kind session b ≡ some (record b { policies = p })))
  unfolding pin
  pin_cases action kind session b = elim (Option-cases (action_state action)) [
    | inl unpinned ↦ inr (b.policies, rw (unpinned, pin))
    | inr (state, e) ↦ elim (Option-cases (api.set b.policies session kind state)) [
      | inl refused ↦ inl (rw (e, refused, pin))
      | inr (p, e') ↦ inr (p, rw (e, e', pin))
    ]
  ]

  -- What `resolve` comes to: nothing, or `settle` of the stored question once the policy is written.
  abbrev Settles : String → String → String → ℕ → Broker P → Type 0
  Settles id action who now b =
      (r : Request) × (p : P) × (Requests.get id b.requests ≡ some r)
      × (is_pending r.status ≡ true)
      × (resolve api resumable id action who now b
          ≡ settle resumable id action who now (some r) (record b { policies = p }))

  open_subject-open :
      (m : Option Meta) (r : Request)
      → is_pending r.status ≡ true
      → (kind : String) × (session : String) × (open_subject m (some r) ≡ some (kind, session))
  unfolding open_subject
  open_subject-open none r h = (r.kind, r.session_id, rw h)
  open_subject-open (some m) r h = (m.kind, m.session_id, rw h)

  pub resolve_cases :
      (id action who : String) (now : ℕ) (b : Broker P)
      → IsLogged b
      → (resolve api resumable id action who now b ≡ (unknown, b)) ⊎ Settles id action who now b
  unfolding resolve answer settle_pinned
  resolve_cases id action who now b logged = elim (Option-cases (Requests.get id b.requests)) [
    | inl missing ↦ inl (rw (missing, logged.logged id missing) (unfold open_subject in refl))
    | inr (r, e) ↦ elim (Bool-cases (is_pending r.status)) [
      | inr closed ↦ inl (resolve-closed id action who now b r e closed)
      | inl waits ↦ opened r e waits (open_subject-open (Dict.get id b.pending_meta) r waits)
    ]
  ]
    where
      opened :
          (r : Request)
          → Requests.get id b.requests ≡ some r
          → is_pending r.status ≡ true
          → (kind : String) × (session : String) × (open_subject
                (Dict.get id b.pending_meta)
                (some r)
              ≡ some (kind, session))
          → (resolve api resumable id action who now b ≡ (unknown, b)) ⊎ Settles id action who now b
      opened r e waits (kind, session, o) = elim (pin_cases action kind session b) [
        | inl refused ↦ inl (rw (e, o, answer, refused, settle_pinned))
        | inr (p, pinned) ↦ inr (r, p, e, waits, rw (e, o, answer, pinned, settle_pinned) (rw e))
      ]

  -- The id of a question that has been answered once answers nothing more: every later click on it
  -- is unknown and changes nothing, whoever makes it.
  resolve_once :
      (id action who : String) (now : ℕ) (again who' : String) (now' : ℕ) (b : Broker P)
      → IsLogged b
      → (resolve api resumable id action who now b).0 ≢ unknown
      → resolve api resumable id again who' now' (resolve api resumable id action who now b).1
        ≡ (unknown, (resolve api resumable id action who now b).1)
  resolve_once id action who now again who' now' b logged done =
      elim (resolve_cases id action who now b logged) [
        | inl e ↦ absurd (done (ap (λ x. x.0) e))
        | inr (r, p, e, waits, s) ↦
            let (r', e', closed) =
              settle-closed resumable id action who now b (record b { policies = p }) r refl e in
            rw s (resolve-closed id again who' now' _ r' e' closed)
      ]

  -- A click that comes while the turn waits is live: the turn goes on with that decision, and the
  -- log has the question marked with it.
  pub resolve-wake :
      (id action who : String) (now : ℕ) (b : Broker P)
      → IsLogged b
      → Dict.get id b.pending ≡ some none
      → (resolve api resumable id action who now b).0 ≢ unknown
      → let (reply, b') = resolve api resumable id action who now b in
        (reply ≡ live)
        × ((wake id b').0 ≡ decided (answer_of action who))
        × ((r : Request) × (Requests.get id b'.requests ≡ some r)
            × (r.status ≡ status_of (is_approval action)))
  unfolding resolved
  resolve-wake id action who now b logged waits done =
      elim (resolve_cases id action who now b logged) [
        | inl e ↦ absurd (done (ap (λ x. x.0) e))
        | inr (r, p, e, _, s) ↦
            let (l, w) =
              settle-wakes resumable id action who now (some r) (record b { policies = p }) waits in
            let (r', e', marked) =
              settle-marked resumable id action who now b (record b { policies = p }) r refl e in
            rw s (l, w, (r', e', marked))
      ]

  -- An approval that comes too late is not lost: the next call for the same target in that session
  -- is approved by it, whatever the policy says by then.
  pub resolve-gate :
      (id action who : String) (now : ℕ) (b : Broker P) (r : Request)
      → IsLogged b
      → Dict.get id b.pending ≡ none
      → Requests.get id b.requests ≡ some r
      → is_approval action ≡ true
      → (resolve api resumable id action who now b).0 ≢ unknown
      → (a : Ask) → ask_key a ≡ request_key r
      → (fresh : String) (later : ℕ)
      → (gate api a fresh later (resolve api resumable id action who now b).1).0
        ≡ decided (decision_of true false false true none)
  unfolding gate
  resolve-gate id action who now b r logged late e ok done a same fresh later =
      elim (resolve_cases id action who now b logged) [
        | inl u ↦ absurd (done (ap (λ x. x.0) u))
        | inr (r', p, e', _, s) ↦ rw (
          s,
          same,
          some_eq (sym e ∙ e'),
          settle-deferred resumable id action who now r' (record b { policies = p }) late ok,
        )
      ]
