-- ===== src/Tools/Examples.antt =====
-- engine/tools/disclosure.py: a view of three tools, of which one is denied.
use argus_agent.Base.{
  ℕ, ◌+◌, ◌*◌, ◌/◌, ◌≤◌, String, ◌≡◌, refl, true, false, Option, some, List, [], ◌∷◌, map, ◌==◌,
  nat_eq, string_eq, elem, length, if◌then◌else◌, ltb,
}
use argus_agent.Base.Dict
use argus_agent.Base.Dict.{Dict, has}
use argus_agent.Base.Text
use argus_agent.Tools.{Tool, Registry, valid, denied_by}
use argus_agent.Tools.Ranking.{Floats, Embedded, rank_tools}
use argus_agent.Tools.Disclosed.{
  View, disclosed, visible_names, view_schema, found, find_tool, is_all,
}
use argus_agent.Tools.Sound.{IsSound, Op, registers, reveals, finds, run}
use argus_agent.Tools.Catalog.{run-view_schema, run-denied_by}
use argus_agent.Tools.Selected.{find_tool-shown}

abbrev whole : Floats ℕ
whole = record {
  of_nat = λ n. n;
  plus = λ a b. a + b;
  times = λ a b. a * b;
  over = λ a b. a / b;
  root = λ a. a;
  less = ltb;
  equal = λ a b. a == b;
}

abbrev same : String → String
same s = s

abbrev tool : String → String → Tool ℕ
tool name description = record {
  name = name;
  description = description;
  schema = record { properties = []; required = [] };
  params = λ raw. valid 0;
}

abbrev policy : String → Option String
policy name = if name == "web" then some "deny" else some "allow"

abbrev all_tools : Registry ℕ
all_tools = record {
  tools =
      ("calc", tool "calc" "Compute a sum.")
      ∷ ("web", tool "web" "Search the web.")
      ∷ ("plot", tool "plot" "Plot a sum.")
      ∷ [];
  permissions = some policy;
}

abbrev view : View ℕ
view = disclosed all_tools ("calc" ∷ [])

all_tools-IsSound : IsSound all_tools.tools
unfolding Dict.get
all_tools-IsSound = record {
  named = (refl, (refl, (refl, tt)));
  distinct = (refl, (refl, (refl, tt)));
}

abbrev ops : List (Op ℕ)
ops = reveals ("web" ∷ []) ∷ registers (tool "new" "A new tool.") ∷ finds 2 "plot" ∷ []

run-view_schema_example :
    map (λ o. o.name) (view_schema (run whole same same ops view))
    ≡ visible_names (run whole same same ops view)
unfolding disclosed
run-view_schema_example = run-view_schema whole same same ops view all_tools-IsSound

run-denied_by_example :
    elem "web" (map (λ o. o.name) (view_schema (run whole same same ops view))) ≡ false
unfolding disclosed denied_by
run-denied_by_example = run-denied_by whole same same ops view all_tools-IsSound "web" refl

abbrev nothing : Embedded ℕ
nothing = record { docs = []; query = [] }

find_tool-shown_example :
    (length (found whole same same 2 (Text.strip "plot") view) ≤ 2)
    × ((elem "plot" (visible_names view) ≡ false)
        × ((denied_by view.permissions "plot" ≡ false)
            × (elem "plot" (visible_names (find_tool whole same same 2 "plot" view).1) ≡ true)))
unfolding disclosed is_all Text.strip found rank_tools
find_tool-shown_example =
    find_tool-shown whole same same 2 "plot" view all_tools-IsSound refl "plot" refl
