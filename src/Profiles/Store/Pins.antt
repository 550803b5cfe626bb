-- ===== src/Profiles/Store/Pins.antt =====
-- `ProfilePolicy.set`: a state that the owner pins holds for the profile that the session runs under.
use argus_agent.Base.{
  ℕ, String, ◌≡◌, refl, sym, subst, true, false, some, arith, nat_eq, string_eq, pair_eq,
  Option-cases, inl, inr, eq_refl,
}
use argus_agent.Base.Dict
use argus_agent.Base.Dict.{Dict, has, is_some, has-put, get-put, has_of_get, Each-get}
use argus_agent.Approvals.Types.{State, state_eq}
use argus_agent.Profiles.{Profile, permission, is_non_tool}
use argus_agent.Profiles.Store.{
  ProfileStore, save_profile, stamped, name_for_session, bound_name, pin_tool,
}
use argus_agent.Profiles.Store.Invariant.{Inv}

abbrev pinned : Profile → String → State → Profile
pinned p key state = record p { tools = Dict.put key state p.tools }

pin_tool_ok :
    (name key : String) (state : State) (now : ℕ) (s s' : ProfileStore)
    → pin_tool name key state now s ≡ some s'
    → (p : Profile) × (Dict.get name s.profiles ≡ some p)
      × (s' ≡ save_profile (pinned p key state) now s)
unfolding pin_tool
pin_tool_ok name key state now s s' e = ground arith

-- Saving the profile that a session runs under leaves the session with it.
name_for_session-save :
    (session : String) (p : Profile) (now : ℕ) (s : ProfileStore)
    → has p.name s.profiles ≡ true
    → p.name ≡ name_for_session session s
    → name_for_session session (save_profile p now s) ≡ p.name
unfolding name_for_session bound_name save_profile
name_for_session-save session p now s known same =
    elim (Option-cases (Dict.get session s.sessions)) [
      | inl unbound ↦ ground (arith, unbound, string_eq.same_iff s.active "")
      | inr (n, bound) ↦ ground (
        arith,
        bound,
        has-put p.name n (stamped p now) s.profiles,
        string_eq.same_iff p.name n,
        string_eq.same_iff s.active "",
      )
    ]

permission-pinned :
    (p : Profile) (key : String) (state : State) (now : ℕ)
    → is_non_tool key ≡ false
    → permission (stamped (pinned p key state) now) key ≡ state
unfolding permission stamped
permission-pinned p key state now tool =
    ground (arith, get-put key key state p.tools, string_eq.same_iff key key)

pub pin_tool-permission :
    (session key : String) (state : State) (now : ℕ) (s s' : ProfileStore)
    → Inv s
    → is_non_tool key ≡ false
    → pin_tool (name_for_session session s) key state now s ≡ some s'
    → (p : Profile) × (Dict.get (name_for_session session s') s'.profiles ≡ some p)
      × (permission p key ≡ state)
unfolding save_profile
pin_tool-permission session key state now s s' h tool e =
    let (p, found, same) = pin_tool_ok (name_for_session session s) key state now s s' e in
    let q = pinned p key state in
    let own_name =
      Each-get (λ n (r : Profile). r.name ≡ n) (name_for_session session s) p s.profiles h.named
        found in
    let known =
      subst (λ n. has n s.profiles ≡ true) (sym own_name)
        (has_of_get (name_for_session session s) p s.profiles found) in
    (
      stamped q now,
      rw (same, name_for_session-save session q now s known own_name, get-put, eq_refl q.name) refl,
      permission-pinned p key state now tool,
    )
