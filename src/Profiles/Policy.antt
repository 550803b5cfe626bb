-- ===== src/Profiles/Policy.antt =====
-- `ProfilePolicy` of engine/profiles/store.py, and the resolver that engine/engine.py wires into the
-- broker: the policy of a session is the matrix of its profile, except for the keys that are no tools.
use argus_agent.Base.{
  ℕ, String, ◌≡◌, refl, subst, ◌∙◌, false, Option, none, some, arith, nat_eq, string_eq, pair_eq,
  if◌then◌else◌, Bool-cases, some_eq, inl, inr, eq_refl,
}
use argus_agent.Base.Dict
use argus_agent.Base.Dict.{Dict, has, is_some, has-put, get-put, has_of_get, Each-get}
use argus_agent.Approvals.Types.{State, ask, Permits, states_for, state_eq}
use argus_agent.Approvals.Policy
use argus_agent.Approvals.Policy.{PermissionStore, get-Permits, set-IsValid, get-set, set-Permits}
use argus_agent.Approvals.Broker.{PolicyApi}
use argus_agent.Approvals.Broker.Gate.{PolicyLaws}
use argus_agent.Profiles.{Profile, permission, is_non_tool}
use argus_agent.Profiles.Store.{ProfileStore, name_for_session, pin_tool, or_same}
use argus_agent.Profiles.Store.Pins.{pin_tool-permission}
use argus_agent.Profiles.Store.Invariant.{Inv, pin_tool-Inv}

pub record Policies : Type 0 where
  pub profiles : ProfileStore
  pub permissions : PermissionStore

-- A profile that was deleted during the turn asks.
profile_state : String → Option Profile → State
profile_state key none = ask
profile_state key (some p) = permission p key

pub get : Policies → String → String → State
unfolding profile_state
get p session key =
    if is_non_tool key
    then Policy.get p.permissions key
    else profile_state key (Dict.get (name_for_session session p.profiles) p.profiles.profiles)

with_permissions : Policies → Option PermissionStore → Option Policies
with_permissions p none = none
with_permissions p (some s) = some (record p { permissions = s })

with_profiles : Policies → Option ProfileStore → Option Policies
with_profiles p none = none
with_profiles p (some s) = some (record p { profiles = s })

-- `set` at time `now`
pub set : ℕ → Policies → String → String → State → Option Policies
unfolding with_permissions with_profiles
set now p session key state =
    if is_non_tool key
    then with_permissions p (Policy.set p.permissions key state)
    else with_profiles p (pin_tool (name_for_session session p.profiles) key state now p.profiles)

abbrev pub profile_api : ℕ → PolicyApi Policies
profile_api now = record { get = get; set = set now }

-- Both stores are sound.
pub record IsSound (p : Policies) : Type 0 where
  pub store : Inv p.profiles
  pub global : Policy.IsValid p.permissions

none-some {ℓ} : {A : Type ℓ} {a : A} → none ≡ some a → ⊥
none-some e = cc

tool-Permits : (key : String) (state : State) → is_non_tool key ≡ false → Permits key state
unfolding is_non_tool states_for
tool-Permits key state h = ground arith

get-Permits_profile :
    (p : Policies) (session key : String) → IsSound p → Permits key (get p session key)
unfolding get
get-Permits_profile p session key h = elim (Bool-cases (is_non_tool key)) [
  | inl other ↦ rw other (get-Permits p.permissions key h.global)
  | inr tool ↦ rw tool (tool-Permits key _ tool)
]

-- Without the profile layer: one store for every session.
abbrev pub global_api : PolicyApi PermissionStore
global_api = record {
  get = λ s _ key. Policy.get s key;
  set = λ s _ key state. Policy.set s key state;
}

get_set_global :
    (s s' : PermissionStore) (session key : String) (state : State)
    → Policy.set s key state ≡ some s'
    → Policy.get s' key ≡ state
get_set_global s s' session key state e = get-set s key state e key ∙ rw (eq_refl key) refl

-- The permission store meets what the broker asks of a policy.
pub global_laws : PolicyLaws Policy.IsValid global_api
global_laws = record {
  get_permits = λ s session key h. get-Permits s key h;
  set_valid = λ s s' session key state h e. set-IsValid s key state h e;
  get_set = λ s s' session key state h e. get_set_global s s' session key state e;
}

set-IsSound :
    (now : ℕ) (p p' : Policies) (session key : String) (state : State)
    → IsSound p
    → set now p session key state ≡ some p'
    → IsSound p'
unfolding set
set-IsSound now p p' session key state h e = elim (Bool-cases (is_non_tool key)) [
  | inl other ↦ global_set (Policy.set p.permissions key state) refl (rw other at e)
  | inr tool ↦
      profile_set (pin_tool (name_for_session session p.profiles) key state now p.profiles) refl
        (rw tool at e)
]
  where
    global_set :
        (o : Option PermissionStore)
        → Policy.set p.permissions key state ≡ o
        → with_permissions p o ≡ some p'
        → IsSound p'
    global_set none g w = absurd (none-some w)
    global_set (some s) g w =
        subst IsSound (some_eq w)
          (record { store = h.store; global = set-IsValid p.permissions key state h.global g })

    profile_set :
        (o : Option ProfileStore)
        → pin_tool (name_for_session session p.profiles) key state now p.profiles ≡ o
        → with_profiles p o ≡ some p'
        → IsSound p'
    profile_set none g w = absurd (none-some w)
    profile_set (some s) g w = subst IsSound (some_eq w) (record {
      store =
          subst (λ (r : Option ProfileStore). Inv (or_same p.profiles r)) g
            (pin_tool-Inv (name_for_session session p.profiles) key state now p.profiles h.store);
      global = h.global;
    })

get-set_profile :
    (now : ℕ) (p p' : Policies) (session key : String) (state : State)
    → IsSound p
    → set now p session key state ≡ some p'
    → get p' session key ≡ state
unfolding set get
get-set_profile now p p' session key state h e = elim (Bool-cases (is_non_tool key)) [
  | inl other ↦ rw other (global_get (Policy.set p.permissions key state) refl (rw other at e))
  | inr tool ↦ rw tool (
      profile_get tool (pin_tool (name_for_session session p.profiles) key state now p.profiles)
        refl (rw tool at e))
]
  where
    global_get :
        (o : Option PermissionStore)
        → Policy.set p.permissions key state ≡ o
        → with_permissions p o ≡ some p'
        → Policy.get p'.permissions key ≡ state
    global_get none g w = absurd (none-some w)
    global_get (some s) g w =
        subst (λ (q : Policies). Policy.get q.permissions key ≡ state) (some_eq w)
          (get_set_global p.permissions s session key state g)

    profile_get :
        is_non_tool key ≡ false
        → (o : Option ProfileStore)
        → pin_tool (name_for_session session p.profiles) key state now p.profiles ≡ o
        → with_profiles p o ≡ some p'
        → profile_state key (Dict.get (name_for_session session p'.profiles) p'.profiles.profiles)
          ≡ state
    profile_get tool none g w = absurd (none-some w)
    profile_get tool (some s) g w =
        let (q, found, pinned) =
          pin_tool-permission session key state now p.profiles s h.store tool g in
        subst
          (λ (r : Policies).
            profile_state key (Dict.get (name_for_session session r.profiles) r.profiles.profiles)
            ≡ state)
          (some_eq w) (rw (found, profile_state) pinned)

-- The policy of the active profiles meets what the broker asks of a policy: its states are among
-- those of the key, a pin keeps both stores sound, and a pinned state is the one read back.
pub profile_laws : (now : ℕ) → PolicyLaws IsSound (profile_api now)
profile_laws now = record {
  get_permits = get-Permits_profile;
  set_valid = set-IsSound now;
  get_set = get-set_profile now;
}
