-- ===== src/Tools/Disclosed.antt =====
-- engine/tools/disclosure.py: `DisclosedRegistry`, whose tools are those of the full registry that it
-- shares, and `FindToolTool` on it. `str.lower` and `repr` are parameters.
use argus_agent.Base.{
  ℕ, String, Bool, true, false, not, ◌&&◌, ◌||◌, Option, none, some, List, [], ◌∷◌, map, ◌==◌,
  nat_eq, string_eq, elem, keep, take, if◌then◌else◌,
}
use argus_agent.Base.Dict.{Dict, has}
use argus_agent.Base.Text
use argus_agent.Loop.Echo.{joined}
use argus_agent.Tools.{
  Tool, Registry, Resolver, Offer, names, list, get, denied_names, register, openai_schema,
  text_schema, tool_block,
}
use argus_agent.Tools.Ranking.{Floats, Embedded, rank_tools}
use Prim.Native.Char.{code}

pub record View (V : Type 0) : Type 0 where
  pub full : Registry V
  pub visible : List String
  pub permissions : Option Resolver

-- The part of a description up to its first full stop.
first_sentence : String → String
first_sentence String.[] = String.[]
first_sentence (String.◌∷◌ c s) =
    let rest = first_sentence s in if code c == 46 then String.[] else String.◌∷◌ c rest

catalog_of : List String → String
catalog_of [] = "find_tool: no tools are available (every tool is disabled by your policy)."
catalog_of (l ∷ ls) =
    joined ("Full tool catalog (call any of these by name):\n" ∷ Text.join "\n" (l ∷ ls) ∷ [])

unfoldable pub is_all : String → Bool
is_all q = q == "all" || q == "*" || q == "everything"

blocked_note : List String → String
blocked_note [] = ""
blocked_note (n ∷ ns) = joined (
    "\nNote: "
    ∷ Text.join ", " (n ∷ ns)
    ∷ " also match, but are disabled by your policy and "
    ∷ "cannot be used. Don't try to call them."
    ∷ [])

no_match : String → List String → String
no_match shown [] = joined ("find_tool: no tools matched " ∷ shown ∷ "." ∷ [])
no_match shown (n ∷ ns) = joined (
    "find_tool: the only tools matching "
    ∷ shown
    ∷ " ("
    ∷ Text.join ", " (n ∷ ns)
    ∷ ") are "
    ∷ "disabled by your policy and cannot be used."
    ∷ [])

no_embeddings : {F : Type 0} → Embedded F
no_embeddings = record { docs = []; query = [] }

module _ {V : Type 0} where
  unfoldable pub disclosed : Registry V → List String → View V
  disclosed full visible = record { full = full; visible = visible; permissions = full.permissions }

  -- The view as a registry: every tool, under the resolver of the view.
  unfoldable pub itself : View V → Registry V
  itself v = record { tools = v.full.tools; permissions = v.permissions }

  unfoldable pub visible_names : View V → List String
  unfolding itself denied_names names
  visible_names v =
      keep (λ n. elem n v.visible && not (elem n (denied_names (itself v)))) (names v.full)

  pub hidden_names : View V → List String
  unfolding visible_names
  hidden_names v = keep (λ n. not (elem n (visible_names v))) (names v.full)

  -- The names that were added, and the view with them.
  unfoldable pub reveal : List String → View V → List String × View V
  reveal [] v = ([], v)
  reveal (n ∷ ns) v =
      let shown = reveal ns (record v { visible = n ∷ v.visible }) in
      let same = reveal ns v in
      if has n v.full.tools && not (elem n v.visible) then (n ∷ shown.0, shown.1) else same

  unfoldable pub register_shown : Tool V → View V → View V
  unfolding register
  register_shown t v = record v { full = register t v.full; visible = t.name ∷ v.visible }

  -- Every visible tool is registered with the fresh registry.
  unfoldable pub copied : List String → Dict String (Tool V) → Registry V → Registry V
  unfolding register
  copied visible [] r = r
  copied visible ((n, t) ∷ ts) r =
      let shown = copied visible ts (register t r) in
      let same = copied visible ts r in if elem n visible then shown else same

  unfoldable pub visible_view : View V → Registry V
  unfolding copied
  visible_view v =
      copied v.visible v.full.tools (record { tools = []; permissions = v.permissions })

  unfoldable pub view_schema : View V → List Offer
  unfolding visible_view openai_schema
  view_schema v = openai_schema (visible_view v)

  pub view_text : View V → String
  unfolding visible_view text_schema
  view_text v = text_schema (visible_view v)

  -- The line of a tool in the full catalog.
  catalog_line : Tool V → String
  unfolding first_sentence
  catalog_line t = joined ("- " ∷ t.name ∷ ": " ∷ Text.strip (first_sentence t.description) ∷ [])

  pub catalog : View V → String
  unfolding catalog_line catalog_of denied_names list itself
  catalog v =
      catalog_of
        (map catalog_line (keep (λ t. not (elem t.name (denied_names (itself v)))) (list v.full)))

  blocks : List String → Registry V → List String
  unfolding get tool_block
  blocks [] r = []
  blocks (n ∷ ns) r = elim (get n r) [
    | none ↦ blocks ns r
    | some t ↦ tool_block false t ∷ blocks ns r
  ]

  -- What is said of the tools that were found, and the view in which they are shown.
  unfoldable pub answer_found : List String → List String → String → View V → String × View V
  unfolding no_match reveal blocks blocked_note
  answer_found [] blocked shown v = (no_match shown blocked, v)
  answer_found (n ∷ ns) blocked shown v = (
    joined (
        "These tools are now available to you — call one directly:\n"
        ∷ Text.join "\n" (blocks (n ∷ ns) v.full)
        ∷ blocked_note blocked
        ∷ []),
    (reveal (n ∷ ns) v).1,
  )

  module _ {F : Type 0} (floats : Floats F) (lower repr : String → String) where
    best : ℕ → String → Bool → View V → List String
    unfolding visible_names itself no_embeddings
    best top q include_denied v =
        map (λ x. x.0)
          (take top (
            rank_tools floats lower (itself v) q "keyword" no_embeddings (visible_names v)
              include_denied))

    -- The names that a query finds.
    unfoldable pub found : ℕ → String → View V → List String
    unfolding best
    found top q v = best top q false v

    unfoldable pub find_tool : ℕ → String → View V → String × View V
    unfolding found answer_found catalog is_all
    find_tool top query v =
        let q = Text.strip query in
        if q == "" || is_all (lower q)
        then (catalog v, v)
        else answer_found (found top q v)
            (keep (λ n. elem n (denied_names (itself v))) (best top q true v)) (repr q) v
