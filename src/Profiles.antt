-- ===== src/Profiles.antt =====
-- engine/profiles/store.py: `Profile`, a snapshot of the agent's configuration, and what it says of a
-- tool, a skill or a rule that it does not name.
pub mod Store
pub mod Widening
pub mod Policy
mod Examples
use argus_agent.Base.{
  ℕ, zero, suc, ◌+◌, ◌-◌, ◌*◌, ◌≤◌, ◌<◌, String, ◌≡◌, ◌≢◌, ◌↔◌, refl, sym, ap, subst, ◌∙◌, Bool,
  true, false, not, ◌&&◌, ◌||◌, Option, none, some, List, [], ◌∷◌, ◌++◌, map, arith, Keyed, ◌==◌,
  nat_eq, string_eq, pair_eq, elem, keep, some_of, each_of, All, length, take, drop, length-append,
  length-take, length-drop, if◌then◌else◌, Bool-cases, Option-cases, some_eq, inl, inr, ◌⊎◌,
  eq_refl, ltb, leb, ltb→lt, lt→ltb,
}
use argus_agent.Base.Dict
use argus_agent.Base.Dict.{Dict}
use argus_agent.Base.Json.{Json}
use argus_agent.Approvals.Types.{
  State, allow, ask, deny, default_for, states_for, dep_install, Permits, state_eq,
  default_for-Permits,
}

pub record Profile : Type 0 where
  pub name : String
  pub description : String
  pub soul : String
  pub system_prompt : String
  pub flags : Dict String Json
  pub tools : Dict String State
  pub skills : Dict String Bool
  pub rules : Dict String Bool
  pub model_roles : Dict String String
  pub created_at : ℕ
  pub updated_at : ℕ

-- NON_TOOL_KEYS
unfoldable pub is_non_tool : String → Bool
is_non_tool key = key == dep_install

abbrev pub or_ask : Option State → State
or_ask none = ask
or_ask (some state) = state

unfoldable pub permission : Profile → String → State
permission p tool = if is_non_tool tool then default_for tool else or_ask (Dict.get tool p.tools)

or_true : Option Bool → Bool
or_true none = true
or_true (some b) = b

pub skill_visible : Profile → String → Bool
unfolding or_true
skill_visible p name = or_true (Dict.get name p.skills)

pub rule_applies : Profile → String → Bool
unfolding or_true
rule_applies p rule_id = or_true (Dict.get rule_id p.rules)
