-- ===== src/Tools.antt =====
-- engine/tools/base.py: `ToolRegistry`. A schema holds the fields of `model_json_schema()` that the
-- program reads; `V` is the type of validated arguments.
pub mod Ranking
pub mod Disclosed
pub mod Sound
pub mod Catalog
pub mod Selected
mod Examples
use argus_agent.Base.{
  ℕ, String, Bool, true, false, not, ◌&&◌, ◌||◌, Option, none, some, List, [], ◌∷◌, map, ◌==◌,
  nat_eq, string_eq, elem, keep, if◌then◌else◌,
}
use argus_agent.Base.Dict
use argus_agent.Base.Dict.{Dict, map_option, is_some}
use argus_agent.Base.Json.{Json, Fields}
use argus_agent.Base.Text
use argus_agent.Loop.Echo.{joined}
use Prim.Native.Char.{code}

-- One parameter of a tool; the default is as `repr` shows it.
pub record Property : Type 0 where
  pub type : Option String
  pub default : Option String
  pub description : Option String

pub record Schema : Type 0 where
  pub properties : Dict String Property
  pub required : List String

-- `Params(**raw_args)`: the arguments, or the places and messages of a ValidationError.
pub data Validated (V : Type 0) : Type 0 where
  valid : V → Validated V
  invalid : List (List String × String) → Validated V

pub record Tool (V : Type 0) : Type 0 where
  pub name : String
  pub description : String
  pub schema : Schema
  pub params : Fields → Validated V

-- A resolver gives the state of a name, or raises.
abbrev pub Resolver : Type 0
Resolver = String → Option String

pub record Registry (V : Type 0) : Type 0 where
  pub tools : Dict String (Tool V)
  pub permissions : Option Resolver

pub data ValidationResult (V : Type 0) : Type 0 where
  passes : V → ValidationResult V
  fails : String → ValidationResult V

pub record Offer : Type 0 where
  pub name : String
  pub description : String
  pub parameters : Schema

-- The place of an error, and its message.
error_part : List String × String → String
error_part (loc, msg) =
    let place = Text.join "." loc in
    joined ((if place == "" then "(root)" else place) ∷ ": " ∷ msg ∷ [])

pub compact_error : List (List String × String) → String
unfolding error_part
compact_error errors = Text.join "; " (map error_part errors)

-- Whether `json.loads` reads the text of a number as a float.
is_float : String → Bool
is_float String.[] = false
is_float (String.◌∷◌ c s) =
    (code c == 46 || code c == 69 || code c == 101 || code c == 73 || code c == 78) || is_float s

type_name : Json → String
unfolding is_float
type_name Json.null = "NoneType"
type_name (Json.bool b) = "bool"
type_name (Json.number n) = if is_float n then "float" else "int"
type_name (Json.text s) = "str"
type_name (Json.array xs) = "list"
type_name (Json.object m) = "dict"

-- `or`, on texts that may be missing.
pub or_empty : Option String → String
or_empty none = ""
or_empty (some s) = s

requirement : Bool → String
requirement true = "required"
requirement false = "optional"

default_part : Option String → String
default_part none = ""
default_part (some shown) = joined (", default=" ∷ shown ∷ [])

dashed : String → String
dashed description = if description == "" then "" else joined (" — " ∷ description ∷ [])

pub type_or_any : Option String → String
type_or_any none = "any"
type_or_any (some t) = t

-- The line of one parameter, with the part that shows its default.
arg_line : List String → String × (Property × String) → String
unfolding requirement dashed or_empty type_or_any
arg_line required (name, (p, shown)) = joined (
    "    - "
    ∷ name
    ∷ " ("
    ∷ type_or_any p.type
    ∷ ", "
    ∷ requirement (elem name required)
    ∷ shown
    ∷ ")"
    ∷ dashed (or_empty p.description)
    ∷ [])

-- `"\n".join(lines) if lines else "    (no arguments)"`
block : List String → String
block [] = "    (no arguments)"
block (l ∷ ls) = Text.join "\n" (l ∷ ls)

-- The parameters of a tool; the catalog of `text_schema` shows the defaults and `find_tool` does not.
pub args_block : Bool → Schema → String
unfolding arg_line default_part block
args_block defaults schema = block (
    map
      (λ e.
        arg_line schema.required (e.0, (e.1, if defaults then default_part e.1.default else "")))
      schema.properties)

pub tool_block : Bool → {V : Type 0} → Tool V → String
unfolding args_block
tool_block defaults t =
    joined
      ("- " ∷ t.name ∷ ": " ∷ t.description ∷ "\n  args:\n" ∷ args_block defaults t.schema ∷ [])

-- `self.permissions(name) == "deny"`, where a resolver that raises denies nothing.
denies : Option String → Bool
denies none = false
denies (some state) = state == "deny"

unfoldable pub denied_by : Option Resolver → String → Bool
unfolding denies
denied_by none name = false
denied_by (some resolver) name = denies (resolver name)

-- `", ".join(self.names()) or "(none)"`
known : List String → String
known [] = "(none)"
known (n ∷ ns) = Text.join ", " (n ∷ ns)

module _ {V : Type 0} where
  unfoldable pub names : Registry V → List String
  names r = map (λ e. e.0) r.tools

  pub list : Registry V → List (Tool V)
  list r = map (λ e. e.1) r.tools

  pub get : String → Registry V → Option (Tool V)
  get name r = Dict.get name r.tools

  pub is_denied : Registry V → String → Bool
  unfolding denied_by
  is_denied r name = denied_by r.permissions name

  pub denied_names : Registry V → List String
  unfolding is_denied names
  denied_names r = keep (is_denied r) (names r)

  pub advertised : Registry V → List (Tool V)
  unfolding is_denied
  advertised r = map (λ e. e.1) (keep (λ e. not (is_denied r e.0)) r.tools)

  pub register : Tool V → Registry V → Registry V
  register t r = record r { tools = Dict.put t.name t r.tools }

  pub unregister : String → Registry V → Bool × Registry V
  unregister name r =
      (is_some (Dict.get name r.tools), record r { tools = Dict.remove name r.tools })

  judged : String → Validated V → ValidationResult V
  unfolding compact_error
  judged name (valid args) = passes args
  judged name (invalid errors) =
      fails (joined ("invalid args for '" ∷ name ∷ "': " ∷ compact_error errors ∷ []))

  checked : String → Json → Tool V → ValidationResult V
  unfolding judged type_name
  checked name (Json.object raw) t = judged name (t.params raw)
  checked name raw t = fails (joined ("args must be a JSON object, got " ∷ type_name raw ∷ []))

  pub validate : String → Json → Registry V → ValidationResult V
  unfolding checked known get names
  validate name raw r = elim (get name r) [
    | none ↦ fails (joined ("unknown tool '" ∷ name ∷ "'. Known tools: " ∷ known (names r) ∷ []))
    | some t ↦ checked name raw t
  ]

  pub offer : Tool V → Offer
  offer t = record { name = t.name; description = t.description; parameters = t.schema }

  unfoldable pub openai_schema : Registry V → List Offer
  unfolding advertised offer
  openai_schema r = map offer (advertised r)

  unfoldable pub text_schema : Registry V → String
  unfolding advertised tool_block
  text_schema r = Text.join "\n" (map (tool_block true) (advertised r))
