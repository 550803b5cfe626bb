-- ===== src/Approvals/Policy.antt =====
-- engine/approvals/policy.py: the store of Allow/Ask/Deny toggles. What `_load` reads is the value
-- that `json.loads` gave, or `none` if there was no file or it could not be read.
use argus_agent.Base.{
  String, ◌≡◌, ◌≢◌, Bool, true, false, Option, none, some, List, [], ◌∷◌, ◌++◌, map, arith, ◌==◌,
  string_eq, elem, if◌then◌else◌, Option-cases, inl, inr,
}
use argus_agent.Base.Dict.{Dict, get-put, get-remove, dict_laws}
use argus_agent.Base.Dict
use argus_agent.Base.Json.{Json, Fields}
use argus_agent.Approvals.Types.{
  State, allow, ask, deny, states_for, default_for, dep_install, Permits, default_for-Permits,
  Permits-dep_install, state_eq,
}

pub record PermissionStore : Type 0 where
  pub states_map : Dict String State

state_named : String → Option State
state_named s =
    if s == "allow"
    then some allow
    else if s == "ask"
    then some ask
    else if s == "deny"
    then some deny
    else none

-- The state that a loaded value gives `key`, if `v in states_for(key)`.
loaded_state : String → Json → Option State
unfolding state_named
loaded_state key (Json.text s) = elim (state_named s) [
  | none ↦ none
  | some state ↦ if elem state (states_for key) then some state else none
]
loaded_state key _ = none

load_fields : Fields → Dict String State
load_fields Fields.end = []
load_fields (Fields.field key v rest) = elim (loaded_state key v) [
  | none ↦ load_fields rest
  | some state ↦ (key, state) ∷ load_fields rest
]

pub load : Option Json → PermissionStore
load (some (Json.object fields)) = record { states_map = load_fields fields }
load _ = record { states_map = [] }

or_default : String → Option State → State
or_default key none = default_for key
or_default key (some state) = state

pub get : PermissionStore → String → State
get s key = or_default key (Dict.get key s.states_map)

-- `none` is the ValueError.
pub set : PermissionStore → String → State → Option PermissionStore
set s key state =
    if elem state (states_for key)
    then some (record { states_map = Dict.put key state s.states_map })
    else none

-- A row of the dashboard's table.
pub record Row : Type 0 where
  pub key : String
  pub state : State
  pub choices : List State
  pub is_default : Bool

dedup : List String → List String → List String
dedup seen [] = []
dedup seen (k ∷ ks) = if elem k seen then dedup seen ks else k ∷ dedup (k ∷ seen) ks

is_none : Option State → Bool
is_none none = true
is_none (some _) = false

row : PermissionStore → String → Row
unfolding is_none
row s k = record {
  key = k;
  state = get s k;
  choices = states_for k;
  is_default = is_none (Dict.get k s.states_map);
}

pub states : PermissionStore → List String → List Row
states s keys = map (row s) (dedup [] (keys ++ dep_install ∷ []))

-- Every stored state is one that its key may have.
abbrev pub IsValid : PermissionStore → Type 0
IsValid s = Dict.Each Permits s.states_map

loaded_state-Permits :
    (key : String) (v : Json) (state : State) → loaded_state key v ≡ some state → Permits key state
unfolding loaded_state
loaded_state-Permits key (Json.text s) state h = ground arith
loaded_state-Permits key _ state h = ground arith

load_fields-Permits : (fields : Fields) → Dict.Each Permits (load_fields fields)
unfolding load_fields
load_fields-Permits Fields.end = tt
load_fields-Permits (Fields.field k v rest) = elim (Option-cases (loaded_state k v)) [
  | inl missing ↦ rw (missing, load_fields) (load_fields-Permits rest)
  | inr (found, e) ↦
      rw (e, load_fields) (loaded_state-Permits k v found e, load_fields-Permits rest)
]

-- Whatever the file held, the loaded policy is valid.
pub load-IsValid : (file : Option Json) → IsValid (load file)
unfolding load
load-IsValid none = tt
load-IsValid (some (Json.object fields)) = load_fields-Permits fields
load-IsValid (some _) = tt

pub set-Permits :
    (s : PermissionStore) (key : String) (state : State) {s' : PermissionStore}
    → set s key state ≡ some s'
    → Permits key state
unfolding set
set-Permits s key state h = ground arith

pub set-IsValid :
    (s : PermissionStore) (key : String) (state : State) {s' : PermissionStore}
    → IsValid s
    → set s key state ≡ some s'
    → IsValid s'
unfolding set
set-IsValid s key state v h =
    ground (arith, Dict.Each-put Permits key state s.states_map (set-Permits s key state h) v)

pub get-Permits : (s : PermissionStore) (key : String) → IsValid s → Permits key (get s key)
unfolding get or_default
get-Permits s key v = elim (Option-cases (Dict.get key s.states_map)) [
  | inl missing ↦ rw (missing, or_default) (default_for-Permits key)
  | inr (state, e) ↦ rw (e, or_default) (Dict.Each-get Permits key state s.states_map v e)
]

-- An accepted toggle is what the policy then says of its key, and of no other.
pub get-set :
    (s : PermissionStore) (key : String) (state : State) {s' : PermissionStore}
    → set s key state ≡ some s'
    → (j : String) → get s' j ≡ (if key == j then state else get s j)
unfolding set get or_default
get-set s key state h j = ground (arith, get-put key j state s.states_map)

-- Whatever the file held, the loaded policy gives every key one of its own states; so it never
-- allows a package install outright.
pub get-load :
    (file : Option Json) (key : String)
    → Permits key (get (load file) key) × (get (load file) dep_install ≢ allow)
get-load file key = (
  get-Permits (load file) key (load-IsValid file),
  Permits-dep_install _ (get-Permits (load file) dep_install (load-IsValid file)),
)
