-- ===== src/Approvals/Broker.antt =====
-- engine/approvals/broker.py: `ApprovalBroker`. The coroutine `gate` is cut at its one wait:
-- `gate` runs up to it, `wake` from it on. A future is `none` until it has its result.
pub mod Gate
pub mod Answers
pub mod Steps
pub mod Safety
mod Examples
use argus_agent.Base.{
  ℕ, String, ◌≡◌, ◌≢◌, ◌↔◌, refl, Bool, true, false, not, ◌&&◌, ◌||◌, Option, none, some, List, [],
  ◌∷◌, ◌++◌, map, arith, Keyed, ◌==◌, string_eq, pair_eq, elem, add, keep, if◌then◌else◌,
  Bool-cases, inl, inr, ◌⊎◌, sym, eq_refl,
}
use argus_agent.Base.Dict
use argus_agent.Base.Dict.{Dict}
use argus_agent.Approvals.Types.{State, allow, ask, deny, Decision}
use argus_agent.Approvals.Requests
use argus_agent.Approvals.Requests.{Request, Ask, is_pending, approved, denied}

-- The permission policy that governs each session, and the change of one of its entries
-- (`none` is a ValueError or a KeyError).
pub record PolicyApi (P : Type 0) : Type 0 where
  pub get : P → String → String → State
  pub set : P → String → String → State → Option P

-- What a one-shot approval is for: kind, target and session.
abbrev pub Key : Type 0
Key = String × (String × String)

pub record Meta : Type 0 where
  pub kind : String
  pub target : String
  pub session_id : String

pub data Event : Type 0 where
  approval_request : Request → Event
  approval_resolved : String → String → Bool → String → Event

pub record Broker (P : Type 0) : Type 0 where
  pub requests : List Request
  pub policies : P
  pub pending : Dict String (Option Decision)
  pub pending_meta : Dict String Meta
  pub oneshots : List Key
  pub resumed : List Request  -- the stored requests given to a resume callback
  pub events : List Event

-- How a gate goes on: it returns a decision, raises TurnPaused, or waits for its future.
pub data Outcome : Type 0 where
  decided : Decision → Outcome
  paused : String → Outcome
  waiting : String → Outcome

abbrev pub ask_key : Ask → Key
ask_key a = (a.kind, (a.target, a.session_id))

abbrev pub request_key : Request → Key
request_key r = (r.kind, (r.target, r.session_id))

is_interactive : String → Bool
is_interactive origin = origin == "dashboard" || origin == "telegram"

abbrev pub decision_of : Bool → Bool → Bool → Bool → Option String → Decision
decision_of ok refused auto once who = record {
  approved = ok;
  denied = refused;
  auto = auto;
  one_shot = once;
  actor = who;
}

module _ {P : Type 0} where
  -- The branch `state == "ask"`: the request is stored and shown, and the turn waits if somebody
  -- can answer.
  ask_owner : Ask → String → ℕ → Broker P → Outcome × Broker P
  unfolding is_interactive
  ask_owner a fresh now b =
      let req = Requests.new_request a fresh now in
      let shown = record b {
        requests = Requests.create a fresh now b.requests;
        events = b.events ++ approval_request req ∷ [];
      } in
      if is_interactive a.origin
      then (
        waiting fresh,
        record shown {
          pending = Dict.put fresh none b.pending;
          pending_meta =
              Dict.put fresh
                (record { kind = a.kind; target = a.target; session_id = a.session_id })
                b.pending_meta;
        },
      )
      else (paused fresh, shown)

  by_state : State → Ask → String → ℕ → Broker P → Outcome × Broker P
  unfolding ask_owner
  by_state allow a fresh now b = (decided (decision_of true false true false none), b)
  by_state deny a fresh now b = (decided (decision_of false true true false none), b)
  by_state ask a fresh now b = ask_owner a fresh now b

  forget_wait : String → Broker P → Broker P
  forget_wait req_id b = record b {
    pending = Dict.remove req_id b.pending;
    pending_meta = Dict.remove req_id b.pending_meta;
  }

  -- `gate` after its wait, whether the future was answered or the window has passed.
  pub wake : String → Broker P → Outcome × Broker P
  unfolding forget_wait
  wake req_id b = elim (Dict.get req_id b.pending) [
    | some (some d) ↦ (decided d, forget_wait req_id b)
    | _ ↦ (paused req_id, forget_wait req_id b)
  ]

module _ {P : Type 0} (api : PolicyApi P) where
  -- `gate` up to its wait; a one-shot approval is used up.
  pub gate : Ask → String → ℕ → Broker P → Outcome × Broker P
  unfolding by_state
  gate a fresh now b =
      if elem (ask_key a) b.oneshots
      then (
        decided (decision_of true false false true none),
        record b { oneshots = keep (λ k. not (k == ask_key a)) b.oneshots },
      )
      else by_state (api.get b.policies a.session_id a.kind) a fresh now b

pub data Reply : Type 0 where
  unknown live deferred : Reply

pub is_approval : String → Bool
is_approval action = action == "approve_once" || action == "always_allow"

action_state : String → Option State
action_state action =
    if action == "always_allow"
    then some allow
    else if action == "always_deny"
    then some deny
    else none

abbrev status_of : Bool → Requests.Status
status_of true = approved
status_of false = denied

-- `kind` and `session_id` of `meta or stored`; `none` if neither is there, or if the stored request
-- is no longer pending.
open_subject : Option Meta → Option Request → Option (String × String)
open_subject none none = none
open_subject none (some r) = if is_pending r.status then some (r.kind, r.session_id) else none
open_subject (some m) none = some (m.kind, m.session_id)
open_subject (some m) (some r) = if is_pending r.status then some (m.kind, m.session_id) else none

module _ {P : Type 0} where
  -- `kind` has a resume callback, of its own or the default one.
  keep_approval : (String → Bool) → Bool → Option Request → Broker P → Broker P
  keep_approval resumable true (some r) m = record m {
    oneshots = add (request_key r) m.oneshots;
    resumed = if resumable r.kind then m.resumed ++ r ∷ [] else m.resumed;
  }
  keep_approval resumable _ _ m = m

  -- The rest of `resolve`, once the policy is written: a turn that still waits gets the decision;
  -- if none does, an approval is kept for the next call and the turn is resumed.
  pub settle :
      (String → Bool) → String → String → String → ℕ → Option Request → Broker P → Reply × Broker P
  unfolding is_approval keep_approval
  settle resumable req_id action who now stored b =
      let ok = is_approval action in
      let marked = record b {
        requests = (Requests.resolve req_id (status_of ok) action who now b.requests).1;
        events = b.events ++ approval_resolved req_id action ok who ∷ [];
      } in
      elim (Dict.get req_id b.pending) [
        | some none ↦ (
          live,
          record marked {
            pending =
                Dict.put req_id (some (decision_of ok (not ok) false false (some who))) b.pending;
          },
        )
        | _ ↦ (deferred, keep_approval resumable ok stored marked)
      ]

module _ {P : Type 0} (api : PolicyApi P) where
  -- `always_allow` and `always_deny` are first written into the policy that governs the session.
  pin : String → String → String → Broker P → Option (Broker P)
  unfolding action_state
  pin action kind session b = elim (action_state action) [
    | none ↦ some b
    | some state ↦ elim (api.set b.policies session kind state) [
      | none ↦ none
      | some p ↦ some (record b { policies = p })
    ]
  ]

module _ {P : Type 0} (api : PolicyApi P) (resumable : String → Bool) where
  -- After the policy is written; `none` is a refused state or a deleted profile.
  settle_pinned :
      String
      → String
      → String
      → ℕ
      → Option Request
      → Broker P
      → Option (Broker P)
      → Reply × Broker P
  settle_pinned req_id action who now stored b none = (unknown, b)
  settle_pinned req_id action who now stored b (some b') =
      settle resumable req_id action who now stored b'

  answer : String → String → String → ℕ → Broker P → Option (String × String) → Reply × Broker P
  answer req_id action who now b none = (unknown, b)
  answer req_id action who now b (some (kind, session)) =
      settle_pinned req_id action who now (Requests.get req_id b.requests) b
        (pin api action kind session b)

  pub resolve : String → String → String → ℕ → Broker P → Reply × Broker P
  unfolding answer settle_pinned
  resolve req_id action who now b =
      answer req_id action who now b
        (open_subject (Dict.get req_id b.pending_meta) (Requests.get req_id b.requests))
