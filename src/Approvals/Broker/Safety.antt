-- ===== src/Approvals/Broker/Safety.antt =====
-- Over every run of the broker: no approval without a click of the owner or the policy's word.
use argus_agent.Base.{ℕ, String, ◌≡◌, Bool, none, some, nat_eq, string_eq, pair_eq, inl, inr, ◌⊎◌}
use argus_agent.Approvals.Types.{allow, Decision}
use argus_agent.Approvals.Requests
use argus_agent.Approvals.Requests.{
  Request, Ask, approved, is_pending, get-create, get-resolve, map_resolved, resolved, new_request,
}
use argus_agent.Approvals.Broker.{
  PolicyApi, Broker, decided, ask_key, gate, wake, resolve, status_of,
}
use argus_agent.Approvals.Broker.Answers.{resolve_cases}
use argus_agent.Approvals.Broker.Gate.{Approves, gate-Approves_iff}
use argus_agent.Approvals.Broker.Steps.{
  ApprovedFor, Inv, gate-Inv, wake-Inv, settle-Inv, wake-decided,
}

module _ {P : Type 0} (api : PolicyApi P) (resumable : String → Bool) where
  -- What happens to the broker: a call asks (under an id that is not in use), a turn wakes, the
  -- owner clicks, and others write the policies.
  pub data Step (b : Broker P) : Broker P → Type 0 where
    asks :
        (a : Ask) (fresh : String) (now : ℕ)
        → Requests.get fresh b.requests ≡ none
        → Step b (gate api a fresh now b).1
    wakes : (id : String) → Step b (wake id b).1
    clicks :
        (id action who : String) (now : ℕ) → Step b (resolve api resumable id action who now b).1
    governs : (p : P) → Step b (record b { policies = p })

  pub data Reach (b : Broker P) : Broker P → Type 0 where
    here : Reach b b
    next : {c d : Broker P} → Reach b c → Step c d → Reach b d

  resolve-Inv :
      (id action who : String) (now : ℕ) (b : Broker P)
      → Inv b
      → Inv (resolve api resumable id action who now b).1
  resolve-Inv id action who now b h =
      elim (resolve_cases api resumable id action who now b h.logged) [
        | inl e ↦ rw e h
        | inr (r, p, e, waits, s) ↦ rw s (
            settle-Inv resumable id action who now r (record b { policies = p }) e waits
              (record {
                logged = record { logged = h.logged.logged };
                waits = h.waits;
                earned = h.earned;
              }))
      ]

  Step-Inv : {b c : Broker P} → Step b c → Inv b → Inv c
  Step-Inv {b} (asks a fresh now new) h = gate-Inv api a fresh now b new h
  Step-Inv {b} (wakes id) h = wake-Inv id b h
  Step-Inv {b} (clicks id action who now) h = resolve-Inv id action who now b h
  Step-Inv (governs p) h = record {
    logged = record { logged = h.logged.logged };
    waits = h.waits;
    earned = h.earned;
  }

  -- Every run of the broker keeps the log, the waiting turns and the one-shot approvals in step.
  pub Reach-Inv : {b c : Broker P} → Reach b c → Inv b → Inv c
  Reach-Inv here h = h
  Reach-Inv (next r s) h = Step-Inv s (Reach-Inv r h)

  -- In every state that a run from `b` reaches, a call that is approved at once is one that the
  -- policy of its session allows, or the log has an approved request for that very call.
  pub Reach-gate :
      {b c : Broker P} (r : Reach b c) (start : Inv b) (a : Ask) (fresh : String) (now : ℕ)
      → Approves (gate api a fresh now c)
      → ApprovedFor (ask_key a) c ⊎ (api.get c.policies a.session_id a.kind ≡ allow)
  Reach-gate {c = c} r start a fresh now ok = elim ((gate-Approves_iff api a fresh now c).0 ok) [
    | inl kept ↦ inl ((Reach-Inv r start).earned (ask_key a) kept)
    | inr allowed ↦ inr allowed
  ]

  -- In every state that a run from `b` reaches, a turn that wakes with a decision finds its question
  -- in the log, marked approved if the decision approves and denied if not.
  pub Reach-wake :
      {b c : Broker P} (r : Reach b c) (start : Inv b) (id : String) (d : Decision)
      → (wake id c).0 ≡ decided d
      → (q : Request) × (Requests.get id c.requests ≡ some q) × (q.status ≡ status_of d.approved)
  Reach-wake {c = c} r start id d e = (Reach-Inv r start).waits id (some d) (wake-decided id c d e)
