-- ===== src/Profiles/Examples.antt =====
-- The theorems on the policies of the profiles at concrete stores.
use argus_agent.Base.{
  String, ◌≡◌, ◌≢◌, not, ◌&&◌, Option, some, List, [], ◌∷◌, nat_eq, string_eq, pair_eq, ltb,
}
use argus_agent.Approvals.Types.{State, allow, deny}
use argus_agent.Approvals.Policy
use argus_agent.Approvals.Types.{Permits, dep_install}
use argus_agent.Approvals.Policy.{get-load}
use argus_agent.Approvals.Broker.Gate.{PolicyLaws}
use argus_agent.Base.Json.{Json, Fields}
use argus_agent.Profiles.{Profile, permission, is_non_tool}
use argus_agent.Profiles.Widening.{announced, announced_iff, widened_tools, rank}
use argus_agent.Profiles.Policy.{IsSound, profile_api, profile_laws}

abbrev with_tools : List (String × State) → Profile
with_tools tools = record {
  name = "p";
  description = "";
  soul = "";
  system_prompt = "";
  flags = [];
  tools = tools;
  skills = [];
  rules = [];
  model_roles = [];
  created_at = 1;
  updated_at = 1;
}

abbrev strict : Profile
strict = with_tools (("forget", deny) ∷ ("weather", allow) ∷ [])

abbrev loose : Profile
loose = with_tools (("forget", allow) ∷ [])

announced_iff_example : announced "forget" (widened_tools (some strict) loose ("weather" ∷ [])) ≡ (
    not (is_non_tool "forget")
    && ltb (rank (permission strict "forget")) (rank (permission loose "forget")))
announced_iff_example = announced_iff strict loose ("weather" ∷ []) "forget"

profile_laws_example : PolicyLaws IsSound (profile_api 7)
profile_laws_example = profile_laws 7

-- A file that tries to allow package installs.
abbrev smuggled : Option Json
smuggled = some (Json.object (Fields.field "dep-install" (Json.text "allow") Fields.end))

get-load_example :
    Permits "forget" (Policy.get (Policy.load smuggled) "forget")
    × (Policy.get (Policy.load smuggled) dep_install ≢ allow)
get-load_example = get-load smuggled "forget"
