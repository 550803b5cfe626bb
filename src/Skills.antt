-- ===== src/Skills.antt =====
-- engine/skills: the registry of base.py and the selectors of selection/explicit.py, model_driven.py and
-- hybrid.py. Lower case is a parameter, and so is `repr` of a name.
pub mod Best
mod Examples
use argus_agent.Base.{
  ℕ, ◌+◌, ◌*◌, String, Bool, true, false, not, ◌&&◌, ◌||◌, Option, none, some, List, [], ◌∷◌, map,
  ◌==◌, nat_eq, string_eq, min, ltb, leb, if◌then◌else◌,
}
use argus_agent.Base.Dict
use argus_agent.Base.Dict.{Dict, is_some}
use argus_agent.Base.Json.{Fields}
use argus_agent.Base.Text
use argus_agent.Loop.Echo.{joined, contains, starts_with, text_drop}
use argus_agent.Loop.Words.{Word, common}
use argus_agent.Tools.Ranking.{tokens, spaced}
use Prim.Native.Char.{code}

pub record Skill : Type 0 where
  pub name : String
  pub description : String
  pub tools : List String
  pub procedure : String
  pub path : String
  pub triggers : List String
  pub steps : List Fields

-- The extra tools of a context are `load_skill` or none.
pub record SkillContext : Type 0 where
  pub system_additions : String
  pub has_load_skill : Bool
  pub active_skill : Option String

abbrev pub no_context : SkillContext
no_context = record { system_additions = ""; has_load_skill = false; active_skill = none }

abbrev pub Skills : Type 0
Skills = Dict String Skill

pub register : Skill → Skills → Skills
register s skills = Dict.put s.name s skills

pub unregister : String → Skills → Bool × Skills
unregister name skills = (is_some (Dict.get name skills), Dict.remove name skills)

unfoldable pub list : Skills → List Skill
list skills = map (λ e. e.1) skills

-- `", ".join(names)`, or what stands for no names.
named : String → List String → String
unfolding Text.join
named nobody [] = nobody
named nobody (n ∷ ns) = Text.join ", " (n ∷ ns)

pub render_skill : Skill → String
unfolding named
render_skill s = joined (
    "## ACTIVE SKILL: "
    ∷ s.name
    ∷ "\nA proven procedure has been selected for this request. You MUST follow it step by step, calling the tools it names in order — do NOT answer from memory or skip the tool calls. If a step's tool fails, follow the procedure's guidance rather than inventing a result.\n\n"
    ∷ s.procedure
    ∷ "\n\n(Tools this skill uses: "
    ∷ named "(none declared)" s.tools
    ∷ ".)"
    ∷ [])

-- A character that is no blank stands in front.
unfoldable pub goes_on : String → Bool
unfolding Text.is_space
goes_on String.[] = false
goes_on (String.◌∷◌ c s) = not (Text.is_space (code c))

-- `_URL_RE.search(text)`
unfoldable pub has_url : String → Bool
unfolding goes_on starts_with text_drop
has_url String.[] = false
has_url (String.◌∷◌ c s) =
    (starts_with (String.◌∷◌ c s) "http://" && goes_on (text_drop 7 (String.◌∷◌ c s)))
    || (starts_with (String.◌∷◌ c s) "https://" && goes_on (text_drop 8 (String.◌∷◌ c s)))
    || has_url s

-- The triggers that stand in the text.
unfoldable pub hits : (String → String) → String → List String → ℕ
unfolding contains
hits lower text [] = 0
hits lower text (t ∷ ts) =
    let rest = hits lower text ts in if contains text (lower t) then rest + 1 else rest

unfoldable pub score : (String → String) → Skill → String → List Word → ℕ
unfolding hits has_url contains
score lower s text words =
    5 * hits lower text s.triggers
    + (if contains text (spaced (lower s.name)) then 5 else 0)
    + min 2 (common words (tokens s.description))
    + (if s.name == "summarize_url" && not (hits lower text s.triggers == 0) && has_url text
        then 3
        else 0)

-- The first of those with the highest score above `n`, or else `best`.
unfoldable pub pick : (Skill → ℕ) → List Skill → Option Skill × ℕ → Option Skill × ℕ
pick f [] best = best
pick f (s ∷ ss) best = pick f ss (if ltb best.1 (f s) then (some s, f s) else best)

unfoldable pub matched : Option Skill × ℕ → Option Skill
matched (some s, n) = if leb 5 n then some s else none
matched (none, n) = none

-- `best` of `ExplicitSelector.prepare`, where it activates.
unfoldable pub select : (String → String) → String → Skills → Option Skill
unfolding pick matched list
select lower text skills =
    matched (pick (λ s. score lower s (lower text) (tokens text)) (list skills) (none, 0))

context_of : Option Skill → SkillContext
context_of none = no_context
context_of (some s) = record {
  system_additions = render_skill s;
  has_load_skill = false;
  active_skill = some s.name;
}

-- A request of the empty name is none.
requested_in : Skills → Option String → Option Skill
requested_in skills none = none
requested_in skills (some name) = if name == "" then none else Dict.get name skills

pub explicit_prepare : (String → String) → Skills → String → Option String → SkillContext
unfolding context_of requested_in select
explicit_prepare lower skills text requested = elim (requested_in skills requested) [
  | some s ↦ context_of (some s)
  | none ↦ context_of (select lower text skills)
]

abbrev pub listing_of : List Skill → String
listing_of skills = joined (
    "## Available skills\nThese skills provide proven step-by-step procedures for common multi-step tasks:\n\n"
    ∷ Text.join "\n" (map (λ s. joined ("- " ∷ s.name ∷ ": " ∷ s.description ∷ [])) skills)
    ∷ "\n\nIf one of these skills fits the user's request, call the load_skill tool with its exact name to get the procedure, then follow it. If none fit, just answer normally."
    ∷ [])

listed : List Skill → SkillContext
unfolding Text.join
listed [] = no_context
listed (s ∷ ss) = record {
  system_additions = listing_of (s ∷ ss);
  has_load_skill = true;
  active_skill = none;
}

pub model_driven_prepare : Skills → SkillContext
unfolding listed list
model_driven_prepare skills = listed (list skills)

-- `if ctx.active_skill`: the empty name counts as none.
or_listed : Skills → SkillContext → SkillContext
or_listed skills ctx = elim ctx.active_skill [
  | none ↦ model_driven_prepare skills
  | some name ↦ if name == "" then model_driven_prepare skills else ctx
]

pub hybrid_prepare : (String → String) → Skills → String → Option String → SkillContext
unfolding or_listed explicit_prepare
hybrid_prepare lower skills text requested =
    or_listed skills (explicit_prepare lower skills text requested)

-- `LoadSkillTool.run`, but for the tools that it reveals.
pub load_skill : (String → String) → Skills → String → String
unfolding named list
load_skill repr skills name = elim (Dict.get name skills) [
  | none ↦ joined (
      "load_skill error: no skill named "
      ∷ repr name
      ∷ ". Available: "
      ∷ named "(none)" (map (λ s. s.name) (list skills))
      ∷ [])
  | some s ↦ joined (
      "Procedure for skill '"
      ∷ s.name
      ∷ "' (tools: "
      ∷ named "(none)" s.tools
      ∷ "):\n\n"
      ∷ s.procedure
      ∷ "\n\nNow follow this procedure to answer the user, using the tools as directed."
      ∷ [])
]
