-- ===== src/Skills/Examples.antt =====
-- engine/skills/selection/explicit.py: a request that a trigger of one of two skills fits.
use argus_agent.Base.{String, List, [], ◌∷◌}
use argus_agent.Skills.{Skill, Skills, register}

abbrev skill : String → List String → Skill
skill name triggers = record {
  name = name;
  description = "Plan it step by step.";
  tools = [];
  procedure = "Ask, then plan.";
  path = "";
  triggers = triggers;
  steps = [];
}

abbrev skills : Skills
skills =
    register (skill "plan_a_trip" ("trip to" ∷ []))
      (register (skill "proofread" ("proofread" ∷ [])) [])
