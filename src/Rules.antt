-- ===== src/Rules.antt =====
-- engine/rules/store.py: `RulesStore`. The lower case of a text is a parameter; ids drawn by `uuid4`
-- and times are arguments, and writing the file is left out.
pub mod Distinct
mod Examples
use argus_agent.Base.{
  ℕ, String, Bool, true, false, not, ◌&&◌, Option, none, some, List, [], ◌∷◌, ◌++◌, ◌==◌, nat_eq,
  string_eq, keep, length, if◌then◌else◌, ltb,
}
use argus_agent.Base.Json.{Json, Items, Fields}
use argus_agent.Base.Text
use argus_agent.Loop.Echo.{lookup}

pub record Rule : Type 0 where
  pub id : String
  pub text : String
  pub source : String
  pub enabled : Bool
  pub created_at : ℕ

module _ (lower : String → String) where
  unfoldable pub same_text : String → Rule → Bool
  same_text text r = lower r.text == lower text

  -- The first rule with the text is enabled again; the result says if there is one.
  pub reenable : String → List Rule → Bool × List Rule
  unfolding same_text
  reenable text [] = (false, [])
  reenable text (r ∷ rs) =
      let (found, rest) = reenable text rs in
      if same_text text r then (true, record r { enabled = true } ∷ rs) else (found, r ∷ rest)

  abbrev pub new_rule : String → String → String → ℕ → Rule
  new_rule text source fresh now = record {
    id = fresh;
    text = text;
    source = source;
    enabled = true;
    created_at = now;
  }

  pub add_text : String → String → String → ℕ → List Rule → List Rule
  unfolding reenable
  add_text text source fresh now rules =
      if text == ""
      then rules
      else if (reenable text rules).0
      then (reenable text rules).1
      else rules ++ new_rule text source fresh now ∷ []

  pub add : String → String → String → ℕ → List Rule → List Rule
  unfolding add_text
  add text source fresh now rules = add_text (Text.strip text) source fresh now rules

pub remove : String → List Rule → Bool × List Rule
remove rule_id rules =
    let left = keep (λ r. not (r.id == rule_id)) rules in (not (length left == length rules), left)

pub set_enabled : String → Bool → List Rule → Bool × List Rule
set_enabled rule_id enabled [] = (false, [])
set_enabled rule_id enabled (r ∷ rs) =
    let (found, rest) = set_enabled rule_id enabled rs in
    if r.id == rule_id then (true, record r { enabled = enabled } ∷ rs) else (found, r ∷ rest)

-- `sorted(rules, key=created_at)`, which keeps the order of equal keys.
insert_rule : Rule → List Rule → List Rule
insert_rule r [] = r ∷ []
insert_rule r (s ∷ ss) =
    let later = insert_rule r ss in if ltb s.created_at r.created_at then s ∷ later else r ∷ s ∷ ss

sort_rules : List Rule → List Rule
unfolding insert_rule
sort_rules [] = []
sort_rules (r ∷ rs) = insert_rule r (sort_rules rs)

pub enabled_rules : List Rule → List Rule
unfolding sort_rules
enabled_rules rules = keep (λ r. r.enabled) (sort_rules rules)
