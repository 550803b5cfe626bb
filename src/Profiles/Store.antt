-- ===== src/Profiles/Store.antt =====
-- engine/profiles/store.py: `ProfileStore`. The time of a call is an argument; the file is not modelled.
pub mod Invariant
pub mod Sessions
pub mod Pins
pub mod Copies
mod Examples
use argus_agent.Base.{
  ℕ, zero, suc, ◌+◌, ◌-◌, ◌*◌, ◌≤◌, ◌<◌, String, ◌≡◌, ◌≢◌, ◌↔◌, refl, sym, ap, subst, ◌∙◌, Bool,
  true, false, not, ◌&&◌, ◌||◌, Option, none, some, List, [], ◌∷◌, ◌++◌, map, arith, Keyed, ◌==◌,
  nat_eq, string_eq, pair_eq, elem, keep, some_of, each_of, All, length, take, drop, length-append,
  length-take, length-drop, if◌then◌else◌, Bool-cases, Option-cases, some_eq, inl, inr, ◌⊎◌,
  eq_refl, ltb, leb, ltb→lt, lt→ltb,
}
use argus_agent.Base.Dict
use argus_agent.Base.Dict.{Dict, has, map_values}
use argus_agent.Base.Result.{Result, ok, err, ◌>>=◌, ◌>>◌, refuse}
use argus_agent.Base.Json.{Json}
use argus_agent.Base.Text
use argus_agent.Approvals.Types.{State, states_for, state_eq}
use argus_agent.Profiles.{Profile, is_non_tool}

pub record ProfileStore : Type 0 where
  pub profiles : Dict String Profile
  pub active : String  -- the global default, used by any session with no binding
  pub sessions : Dict String String

pub data Error : Type 0 where
  no_profile needs_name already_exists last_profile is_active in_use needs_session : Error

abbrev pub Outcome : Type 0
Outcome = Result Error ProfileStore

or_raise : Option Profile → Result Error Profile
or_raise none = err no_profile
or_raise (some p) = ok p

pub stamped : Profile → ℕ → Profile
stamped p now = record p {
  updated_at = now;
  created_at = if p.created_at == 0 then now else p.created_at;
}

-- `save_profile` at time `now`
unfoldable pub save_profile : Profile → ℕ → ProfileStore → ProfileStore
unfolding stamped
save_profile p now s = record s {
  profiles = Dict.put p.name (stamped p now) s.profiles;
  active = if s.active == "" then p.name else s.active;
}

bound_name : ProfileStore → Option String → String
bound_name s none = s.active
bound_name s (some name) = if not (name == "") && has name s.profiles then name else s.active

unfoldable pub name_for_session : String → ProfileStore → String
unfolding bound_name
name_for_session session s = bound_name s (Dict.get session s.sessions)

unfoldable pub for_session : String → ProfileStore → Option Profile
unfolding name_for_session
for_session session s = Dict.get (name_for_session session s) s.profiles

is_used : String → Dict String String → Bool
is_used name [] = false
is_used name ((session, n) ∷ rest) = n == name || is_used name rest

is_empty : Dict String Profile → Bool
is_empty [] = true
is_empty (_ ∷ _) = false

is_single : Dict String Profile → Bool
is_single [] = true
is_single (_ ∷ []) = true
is_single _ = false

-- `ensure_default`, where `fresh` is the profile that the factory builds.
pub ensure_default : Profile → ℕ → ProfileStore → ProfileStore
ensure_default fresh now s =
    if is_empty s.profiles
    then record s {
      profiles =
          Dict.put fresh.name (record fresh { created_at = now; updated_at = now }) s.profiles;
      active = fresh.name;
    }
    else s

pub create : Profile → ℕ → ProfileStore → Outcome
create p now s = do
  refuse (Text.is_blank p.name) needs_name
  refuse (has p.name s.profiles) already_exists
  ok (save_profile p now s)

abbrev flag_fields : List String
flag_fields =
    "enable_observer" ∷ "enable_action_verify" ∷ "enable_clarify" ∷ "enable_rules"
    ∷ "enable_rules_autodetect" ∷ "enable_memory_autoextract" ∷ "skill_selection_mode"
    ∷ "adaptive_thinking" ∷ "tool_disclosure_mode" ∷ []

-- The flags that a profile governs, `_clean_states` and `_clean_str_map`, on entries of the right
-- types.
clean_flags : Dict String Json → Dict String Json
clean_flags flags = keep (λ entry. elem entry.0 flag_fields) flags

clean_states : Dict String State → Dict String State
clean_states tools =
    keep (λ entry. not (is_non_tool entry.0) && elem entry.1 (states_for entry.0)) tools

clean_str_map : Dict String String → Dict String String
clean_str_map roles = keep (λ entry. not (entry.1 == "")) roles

-- `copy_as`, which goes through `to_json` and `from_json`: the name is stripped.
pub copy_as : String → String → ℕ → Profile → Profile
copy_as name description now p = record p {
  flags = clean_flags p.flags;
  tools = clean_states p.tools;
  model_roles = clean_str_map p.model_roles;
  name = Text.strip name;
  description = if description == "" then p.description else description;
  created_at = now;
  updated_at = now;
}

pub duplicate : String → String → String → ℕ → ProfileStore → Outcome
duplicate source new_name description now s = do
  src ← or_raise (Dict.get source s.profiles)
  refuse (Text.is_blank new_name) needs_name
  refuse (has new_name s.profiles) already_exists
  ok (save_profile (copy_as new_name description now src) now s)

renamed : String → String → Profile → ProfileStore → ProfileStore
renamed old new p s = record {
  profiles = Dict.put new (record p { name = new }) (Dict.remove old s.profiles);
  active = if s.active == old then new else s.active;
  sessions = map_values (λ n. if n == old then new else n) s.sessions;
}

pub rename : String → String → ProfileStore → Outcome
unfolding renamed
rename old wanted s = do
  p ← or_raise (Dict.get old s.profiles)
  refuse (Text.strip wanted == "") needs_name
  refuse (not (Text.strip wanted == old) && has (Text.strip wanted) s.profiles) already_exists
  ok (renamed old (Text.strip wanted) p s)

pub delete : String → ProfileStore → Outcome
delete name s = do
  refuse (not (has name s.profiles)) no_profile
  refuse (is_single s.profiles) last_profile
  refuse (name == s.active) is_active
  refuse (is_used name s.sessions) in_use
  ok (record s { profiles = Dict.remove name s.profiles })

pub set_default : String → ProfileStore → Outcome
set_default name s = do p ← or_raise (Dict.get name s.profiles); ok (record s { active = name })

pub bind : String → String → ProfileStore → Outcome
bind session name s = do
  p ← or_raise (Dict.get name s.profiles)
  refuse (session == "") needs_session
  ok (record s { sessions = Dict.put session name s.sessions })

pub unbind : String → ProfileStore → ProfileStore
unbind session s = record s { sessions = Dict.remove session s.sessions }

-- `ProfilePolicy.set` for a key that is a tool: the state is pinned into the named profile.
pub pin_tool : String → String → State → ℕ → ProfileStore → Option ProfileStore
pin_tool name key state now s =
    if elem state (states_for key)
    then elim (Dict.get name s.profiles) [
      | none ↦ none
      | some p ↦ some (save_profile (record p { tools = Dict.put key state p.tools }) now s)
    ]
    else none

-- The calls that write the store, with the time at which they are made.
pub data Call : Type 0 where
  ensures_default creates : Profile → ℕ → Call
  duplicates : String → String → String → ℕ → Call
  renames : String → String → Call
  deletes sets_default unbinds : String → Call
  binds : String → String → Call
  pins_tool : String → String → State → ℕ → Call

abbrev after : ProfileStore → Outcome → ProfileStore
after s (ok s') = s'
after s (err e) = s

abbrev pub or_same : ProfileStore → Option ProfileStore → ProfileStore
or_same s none = s
or_same s (some s') = s'

-- A call that raises leaves the store as it was.
pub step : Call → ProfileStore → ProfileStore
step (ensures_default p now) s = ensure_default p now s
step (creates p now) s = after s (create p now s)
step (duplicates source name description now) s = after s (duplicate source name description now s)
step (renames old new) s = after s (rename old new s)
step (deletes name) s = after s (delete name s)
step (sets_default name) s = after s (set_default name s)
step (unbinds session) s = unbind session s
step (binds session name) s = after s (bind session name s)
step (pins_tool name key state now) s = or_same s (pin_tool name key state now s)

pub run : List Call → ProfileStore → ProfileStore
run [] s = s
run (c ∷ cs) s = run cs (step c s)

abbrev pub empty : ProfileStore
empty = record { profiles = []; active = ""; sessions = [] }
