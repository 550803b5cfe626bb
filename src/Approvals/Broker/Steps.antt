-- ===== src/Approvals/Broker/Steps.antt =====
-- The invariant of the broker, and that each of its operations keeps it.
use argus_agent.Base.{
  ℕ, String, ◌≡◌, ◌≢◌, refl, sym, ap, subst, ◌∙◌, Bool, true, false, Option, none, some, List,
  arith, ◌==◌, nat_eq, string_eq, pair_eq, elem, elem_of_keep, add, elem-add, Bool-cases,
  Option-cases, some_eq, inl, inr, ◌⊎◌,
}
use argus_agent.Base.Dict
use argus_agent.Base.Dict.{Dict, get-put, get-remove}
use argus_agent.Approvals.Types.{State, allow, ask, deny, Decision}
use argus_agent.Approvals.Requests
use argus_agent.Approvals.Requests.{
  Request, Ask, approved, is_pending, get-create, get-resolve, map_resolved, resolved, new_request,
}
use argus_agent.Approvals.Broker.{
  PolicyApi, Broker, Key, decided, ask_key, request_key, gate, by_state, wake, settle, ask_owner,
  is_approval, status_of, forget_wait, keep_approval,
}
use argus_agent.Approvals.Broker.Answers.{
  IsLogged, answer_of, settle-requests, settle-meta, settle-marked,
}

-- An approved request of the log is for the call `k`.
abbrev pub ApprovedFor : {P : Type 0} → Key → Broker P → Type 0
ApprovedFor k b =
    (id : String) × (r : Request) × (Requests.get id b.requests ≡ some r)
    × (request_key r ≡ k)
    × (r.status ≡ approved)

-- The log has the question `id`, for the call that its meta data names, and it is marked as `d` says.
abbrev pub MarkedAs : Option Decision → Request → Type 0
MarkedAs none r = Unit
MarkedAs (some d) r = r.status ≡ status_of d.approved

abbrev pub InLog : {P : Type 0} → String → Option Decision → Broker P → Type 0
InLog id f b = (r : Request) × (Requests.get id b.requests ≡ some r) × MarkedAs f r

pub record Inv {P : Type 0} (b : Broker P) : Type 0 where
  pub logged : IsLogged b
  pub waits : (id : String) (f : Option Decision) → Dict.get id b.pending ≡ some f → InLog id f b
  pub earned : (k : Key) → elem k b.oneshots ≡ true → ApprovedFor k b

missing_found {ℓ} : {A : Type ℓ} {o : Option A} {a : A} → o ≡ none → o ≡ some a → ⊥
missing_found p q = cc

create-keeps :
    (a : Ask) (fresh : String) (now : ℕ) (reqs : List Request) (id : String) (r : Request)
    → Requests.get fresh reqs ≡ none
    → Requests.get id reqs ≡ some r
    → Requests.get id (Requests.create a fresh now reqs) ≡ some r
create-keeps a fresh now reqs id r h e =
    ground (arith, get-create a fresh now reqs id, string_eq.same_iff fresh id)

-- A request that is no longer pending stays as it is.
resolve-keeps :
    (id : String) (status : Requests.Status) (action who : String) (now : ℕ) (reqs : List Request)
    (j : String) (r r' : Request)
    → Requests.get id reqs ≡ some r
    → is_pending r.status ≡ true
    → Requests.get j reqs ≡ some r'
    → is_pending r'.status ≡ false
    → Requests.get j (Requests.resolve id status action who now reqs).1 ≡ some r'
resolve-keeps id status action who now reqs j r r' e waits e' closed =
    ground (arith, get-resolve id status action who now reqs j, string_eq.same_iff id j)

module _ {P : Type 0} (a : Ask) (fresh : String) (now : ℕ) (b : Broker P)
    (new : Requests.get fresh b.requests ≡ none) where
  ask_owner-requests : (ask_owner a fresh now b).1.requests ≡ Requests.create a fresh now b.requests
  unfolding ask_owner
  ask_owner-requests = ground arith

  ask_owner-IsLogged : IsLogged b → IsLogged (ask_owner a fresh now b).1
  unfolding ask_owner
  ask_owner-IsLogged h = record {
    logged = λ id e. ground (
      arith,
      get-create a fresh now b.requests id new,
      h.logged id,
      get-put fresh id (record { kind = a.kind; target = a.target; session_id = a.session_id })
          b.pending_meta,
    );
  }

  ask_owner-InLog :
      (id : String) (f : Option Decision) → InLog id f b → InLog id f (ask_owner a fresh now b).1
  ask_owner-InLog id f (r, e, m) =
      (r, rw ask_owner-requests (create-keeps a fresh now b.requests id r new e), m)

  ask_owner-pending :
      (id : String) (f : Option Decision)
      → Dict.get id (ask_owner a fresh now b).1.pending ≡ some f
      → ((fresh ≡ id) × (f ≡ none)) ⊎ (Dict.get id b.pending ≡ some f)
  unfolding ask_owner
  ask_owner-pending id f e =
      ground (arith, get-put fresh id none b.pending, string_eq.same_iff fresh id)

  ask_owner-waits :
      ((id : String) (f : Option Decision) → Dict.get id b.pending ≡ some f → InLog id f b)
      → (id : String) (f : Option Decision)
      → Dict.get id (ask_owner a fresh now b).1.pending ≡ some f
      → InLog id f (ask_owner a fresh now b).1
  ask_owner-waits h id f e = elim (ask_owner-pending id f e) [
    | inl (same, unanswered) ↦ (
      new_request a fresh now,
      rw (
        ask_owner-requests,
        get-create a fresh now b.requests id new,
        (string_eq.same_iff fresh id).1 same,
      ),
      subst (λ x. MarkedAs x (new_request a fresh now)) (sym unanswered) tt,
    )
    | inr old ↦ ask_owner-InLog id f (h id f old)
  ]

  ask_owner-oneshots :
      (k : Key) → elem k (ask_owner a fresh now b).1.oneshots ≡ true → elem k b.oneshots ≡ true
  unfolding ask_owner
  ask_owner-oneshots k e = ground arith

  ask_owner-ApprovedFor : (k : Key) → ApprovedFor k b → ApprovedFor k (ask_owner a fresh now b).1
  ask_owner-ApprovedFor k (id, r, e, same, ok) =
      (id, r, rw ask_owner-requests (create-keeps a fresh now b.requests id r new e), same, ok)

module _ {P : Type 0} (api : PolicyApi P) (a : Ask) (fresh : String) (now : ℕ) (b : Broker P)
    (new : Requests.get fresh b.requests ≡ none) where
  by_state-Inv : (s : State) → Inv b → Inv (by_state s a fresh now b).1
  unfolding by_state
  by_state-Inv allow h = h
  by_state-Inv deny h = h
  by_state-Inv ask h = record {
    logged = ask_owner-IsLogged a fresh now b new h.logged;
    waits = ask_owner-waits a fresh now b new h.waits;
    earned = λ k e.
        ask_owner-ApprovedFor a fresh now b new k
          (h.earned k (ask_owner-oneshots a fresh now b new k e));
  }

  pub gate-Inv : Inv b → Inv (gate api a fresh now b).1
  unfolding gate
  gate-Inv h = elim (Bool-cases (elem (ask_key a) b.oneshots)) [
    | inr none_kept ↦ rw none_kept (by_state-Inv _ h)
    | inl kept ↦ rw kept (record {
      logged = record { logged = h.logged.logged };
      waits = h.waits;
      earned = λ k e. h.earned k (elem_of_keep k (ask_key a) b.oneshots e);
    })
  ]

module _ {P : Type 0} where
  wake-forgets : (id : String) (b : Broker P) → (wake id b).1 ≡ forget_wait id b
  unfolding wake
  wake-forgets id b = ground arith

  pub wake-Inv : (id : String) (b : Broker P) → Inv b → Inv (wake id b).1
  wake-Inv id b h = rw wake-forgets (
      unfold forget_wait in
      record {
        logged = record {
          logged = λ j e. ground (arith, get-remove id j b.pending_meta, h.logged.logged j);
        };
        waits = λ j f e. h.waits j f (ground (arith, get-remove id j b.pending));
        earned = h.earned;
      })

pub wake-decided :
    {P : Type 0} (id : String) (b : Broker P) (d : Decision)
    → (wake id b).0 ≡ decided d
    → Dict.get id b.pending ≡ some (some d)
unfolding wake
wake-decided id b d e = ground arith

pending-not_closed :
    (r : Request) (d : Decision) → is_pending r.status ≡ true → r.status ≢ status_of d.approved
pending-not_closed r d h e = ground arith

module _ {P : Type 0} (resumable : String → Bool) (id action who : String) (now : ℕ) (r : Request)
    (b : Broker P) where
  abbrev settled : Broker P
  settled = (settle resumable id action who now (some r) b).1

  settled-pending_other :
      (j : String) → (id == j) ≡ false → Dict.get j settled.pending ≡ Dict.get j b.pending
  unfolding settle keep_approval
  settled-pending_other j h = ground (arith, get-put id j (some (answer_of action who)) b.pending)

  settled-late : Dict.get id b.pending ≡ none → Dict.get id settled.pending ≡ none
  unfolding settle keep_approval
  settled-late late = ground arith

  settled-live :
      Dict.get id b.pending ≡ some none
      → Dict.get id settled.pending ≡ some (some (answer_of action who))
  unfolding settle
  settled-live e =
      ground
        (arith, get-put id id (some (answer_of action who)) b.pending, string_eq.same_iff id id)

  settled-pending :
      (f : Option Decision)
      → Dict.get id settled.pending ≡ some f
      → (f ≡ some (answer_of action who))
        ⊎ ((d : Decision) × (Dict.get id b.pending ≡ some (some d)))
  settled-pending f e = elim (Option-cases (Dict.get id b.pending)) [
    | inl late ↦ absurd (missing_found (settled-late late) e)
    | inr (none, e') ↦ inl (some_eq (sym e ∙ settled-live e'))
    | inr (some d, e') ↦ inr (d, e')
  ]

  settled-oneshots_refused :
      (k : Key)
      → is_approval action ≡ false
      → elem k settled.oneshots ≡ true
      → elem k b.oneshots ≡ true
  unfolding settle keep_approval
  settled-oneshots_refused k refused e = ground (arith)

  settled-oneshots_cases :
      (settled.oneshots ≡ b.oneshots) ⊎ (settled.oneshots ≡ add (request_key r) b.oneshots)
  unfolding settle keep_approval
  settled-oneshots_cases = ground arith

  settled-oneshots :
      (k : Key)
      → elem k settled.oneshots ≡ true
      → ((request_key r ≡ k) × (is_approval action ≡ true)) ⊎ (elem k b.oneshots ≡ true)
  settled-oneshots k e = elim (Bool-cases (is_approval action)) [
    | inl ok ↦ elim settled-oneshots_cases [
      | inl same ↦ inr (subst (λ x. elem k x ≡ true) same e)
      | inr more ↦
          elim (elem-add k (request_key r) b.oneshots (subst (λ x. elem k x ≡ true) more e)) [
            | inl this ↦ inl (this, ok)
            | inr old ↦ inr old
          ]
    ]
    | inr refused ↦ inr (settled-oneshots_refused k refused e)
  ]

  module _ (e : Requests.get id b.requests ≡ some r) (waits : is_pending r.status ≡ true)
      (h : Inv b) where
    was_missing :
        (j : String) → Requests.get j settled.requests ≡ none → Requests.get j b.requests ≡ none
    was_missing j g = ground (
      arith,
      settle-requests resumable id action who now (some r) b,
      get-resolve id (status_of (is_approval action)) action who now b.requests j,
      string_eq.same_iff id j,
    )

    -- A question other than this one, or one that is closed, is as it was.
    still :
        (j : String) (r' : Request)
        → Requests.get j b.requests ≡ some r'
        → (id == j) ≡ false
        → Requests.get j settled.requests ≡ some r'
    still j r' g other = ground (
      arith,
      settle-requests resumable id action who now (some r) b,
      get-resolve id (status_of (is_approval action)) action who now b.requests j,
    )

    settled-request :
        Requests.get id settled.requests
        ≡ some (resolved r (status_of (is_approval action)) action who now)
    settled-request = ground (
      arith,
      settle-requests resumable id action who now (some r) b,
      get-resolve id (status_of (is_approval action)) action who now b.requests id,
      string_eq.same_iff id id,
    )

    settled-IsLogged : IsLogged settled
    settled-IsLogged = record {
      logged = λ j g.
          rw (settle-meta resumable id action who now (some r) b)
            (h.logged.logged j (was_missing j g));
    }

    this_InLog :
        (j : String)
        → id ≡ j
        → (f : Option Decision) → Dict.get j settled.pending ≡ some f
        → InLog j f settled
    this_InLog j same f g =
        subst (λ i. InLog i f settled) same
          (elim (settled-pending f
            (subst (λ i. Dict.get i settled.pending ≡ some f) (sym same) g)) [
              | inl now_answered ↦
                  subst (λ x. InLog id x settled) (sym now_answered)
                    (settle-marked resumable id action who now b b r refl e)
              | inr (d, done) ↦
                  let (r', e', m) = h.waits id (some d) done in
                  absurd (
                    pending-not_closed r d waits
                      (ap (λ (x : Request). x.status) (some_eq (sym e ∙ e')) ∙ m))
            ])

    settled-InLog :
        (j : String) (f : Option Decision) → Dict.get j settled.pending ≡ some f → InLog j f settled
    settled-InLog j f g = elim (Bool-cases (id == j)) [
      | inr other ↦
          let (r', e', m) = h.waits j f (sym (settled-pending_other j other) ∙ g) in
          (r', still j r' e' other, m)
      | inl same ↦ this_InLog j ((string_eq.same_iff id j).0 same) f g
    ]

    settled-ApprovedFor : (k : Key) → elem k settled.oneshots ≡ true → ApprovedFor k settled
    settled-ApprovedFor k g = elim (settled-oneshots k g) [
      | inl (this, ok) ↦ (
        id,
        resolved r (status_of (is_approval action)) action who now,
        settled-request,
        unfold resolved in this,
        unfold resolved in ap status_of ok,
      )
      | inr old ↦
          let (j, r', e', same, marked) = h.earned k old in
          (
            j,
            r',
            rw (settle-requests resumable id action who now (some r) b) (
                resolve-keeps id (status_of (is_approval action)) action who now b.requests j r r' e
                  waits e' (ap is_pending marked)),
            same,
            marked,
          )
    ]

    pub settle-Inv : Inv (settle resumable id action who now (some r) b).1
    settle-Inv = record {
      logged = settled-IsLogged;
      waits = settled-InLog;
      earned = settled-ApprovedFor;
    }
