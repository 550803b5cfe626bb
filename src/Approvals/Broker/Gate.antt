-- ===== src/Approvals/Broker/Gate.antt =====
-- What `gate` decides, and what it leaves of the one-shot approvals.
use argus_agent.Base.{
  ℕ, String, ◌≡◌, ◌≢◌, ◌↔◌, refl, subst, true, false, none, some, arith, ◌==◌, nat_eq, string_eq,
  pair_eq, elem, elem-keep_other, elem-other, if◌then◌else◌, Bool-cases, inl, inr, ◌⊎◌,
}
use argus_agent.Approvals.Types.{
  State, allow, ask, deny, Decision, Permits, Permits-dep_install, dep_install,
}
use argus_agent.Approvals.Requests.{Ask}
use argus_agent.Approvals.Broker.{
  PolicyApi, Broker, Key, Outcome, decided, ask_key, gate, by_state, decision_of, ask_owner,
}

-- The laws of a policy that the broker relies on.
pub record PolicyLaws {P : Type 0} (IsValid : P → Type 0) (api : PolicyApi P) : Type 0 where
  pub get_permits : (p : P) (session key : String) → IsValid p → Permits key (api.get p session key)
  pub set_valid :
      (p p' : P) (session key : String) (state : State)
      → IsValid p
      → api.set p session key state ≡ some p'
      → IsValid p'
  pub get_set :
      (p p' : P) (session key : String) (state : State)
      → IsValid p
      → api.set p session key state ≡ some p'
      → api.get p' session key ≡ state

-- The call is approved at once.
abbrev pub Approves : {P : Type 0} → Outcome × Broker P → Type 0
Approves r = (d : Decision) × (r.0 ≡ decided d) × (d.approved ≡ true)

module _ {P : Type 0} (a : Ask) (fresh : String) (now : ℕ) (b : Broker P) where
  ask_owner-Approves : ¬ Approves (ask_owner a fresh now b)
  unfolding ask_owner
  ask_owner-Approves (d, e, _) = ground arith

  by_state-Approves : (s : State) → Approves (by_state s a fresh now b) → s ≡ allow
  unfolding by_state
  by_state-Approves allow h = refl
  by_state-Approves deny (d, e, ok) = ground arith
  by_state-Approves ask h = absurd (ask_owner-Approves h)

  by_state-auto :
      (d : Decision) (s : State)
      → s ≢ allow
      → (by_state s a fresh now b).0 ≡ decided d
      → d.auto ≡ true
      → d.approved ≡ false
  unfolding by_state ask_owner
  by_state-auto d s h = ground arith

  by_state-oneshots : (s : State) → (by_state s a fresh now b).1.oneshots ≡ b.oneshots
  unfolding by_state ask_owner
  by_state-oneshots s = ground arith

module _ {P : Type 0} (api : PolicyApi P) (a : Ask) (fresh : String) (now : ℕ) (b : Broker P) where
  -- `gate` approves at once exactly when the call has a one-shot approval, or the policy of its
  -- session allows it.
  pub gate-Approves_iff :
      Approves (gate api a fresh now b)
      ↔ ((elem (ask_key a) b.oneshots ≡ true) ⊎ (api.get b.policies a.session_id a.kind ≡ allow))
  unfolding gate by_state
  gate-Approves_iff = elim (Bool-cases (elem (ask_key a) b.oneshots)) [
    | inl kept ↦ (λ _. inl kept, λ _. rw kept (decision_of true false false true none, refl, refl))
    | inr none_kept ↦ rw none_kept (λ h. inr (by_state-Approves a fresh now b _ h), allowed)
  ]
    where
      allowed :
          (false ≡ true) ⊎ (api.get b.policies a.session_id a.kind ≡ allow)
          → Approves (by_state (api.get b.policies a.session_id a.kind) a fresh now b)
      allowed (inl no_oneshot) = cc
      allowed (inr e) = rw e (decision_of true false true false none, refl, refl)

  -- After `gate` its call has no one-shot approval left, and every other call has what it had.
  gate_spends_oneshot :
      (k : Key)
      → elem k (gate api a fresh now b).1.oneshots
        ≡ (if k == ask_key a then false else elem k b.oneshots)
  unfolding gate
  gate_spends_oneshot k = elim (Bool-cases (elem (ask_key a) b.oneshots)) [
    | inl kept ↦ rw kept (elem-keep_other k (ask_key a) b.oneshots)
    | inr none_kept ↦
        rw (none_kept, by_state-oneshots) (elem-other k (ask_key a) b.oneshots none_kept)
  ]

  -- A package install is never approved by the policy alone.
  gate-dep_install :
      {IsValid : P → Type 0} (laws : PolicyLaws IsValid api)
      → IsValid b.policies
      → a.kind ≡ dep_install
      → (d : Decision) → (gate api a fresh now b).0 ≡ decided d
      → d.auto ≡ true
      → d.approved ≡ false
  unfolding gate
  gate-dep_install laws v e d h auto = elim (Bool-cases (elem (ask_key a) b.oneshots)) [
    | inl kept ↦ ground (arith, kept)
    | inr none_kept ↦
        by_state-auto a fresh now b d (api.get b.policies a.session_id a.kind)
          (Permits-dep_install _ (
            subst (λ k. Permits k (api.get b.policies a.session_id a.kind)) e
              (laws.get_permits b.policies a.session_id a.kind v)))
          (rw none_kept at h) auto
  ]
