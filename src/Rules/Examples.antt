-- ===== src/Rules/Examples.antt =====
-- engine/rules/store.py: a rule that is added twice.
use argus_agent.Base.{◌≤◌, String, false, List, [], ◌∷◌, arith}
use argus_agent.Rules.{Rule, add}
use argus_agent.Rules.Distinct.{count_text, add-count_text}

-- Texts that are in lower case already.
abbrev folded : String → String
folded s = s

abbrev once : List Rule
once =
    record { id = "r1"; text = "be brief"; source = "user"; enabled = false; created_at = 5 } ∷ []

add-count_text_example :
    count_text folded "be brief" (add folded "be brief " "user" "r2" 7 once) ≤ 1
unfolding count_text argus_agent.Rules.same_text
add-count_text_example =
    add-count_text folded "be brief " "user" "r2" "be brief" 7 once (omega arith)
