-- ===== src/Routines/Template.antt =====
-- engine/routines/executor.py: `{{name}}` in templates and in the arguments of tools. `str.lower` and
-- `json.loads` are parameters.
use argus_agent.Base.{
  ℕ, zero, suc, ◌+◌, ◌-◌, String, Bool, not, ◌&&◌, ◌||◌, Option, none, some, ◌==◌, nat_eq,
  string_eq, if◌then◌else◌, leb,
}
use argus_agent.Base.Dict
use argus_agent.Base.Dict.{Dict}
use argus_agent.Base.Json.{Json, Items, Fields}
use argus_agent.Base.Text
use argus_agent.Loop.Echo.{append, starts_with, text_drop}
use Prim.Native.Char.{code}

-- `[a-z0-9_]` where case is ignored: four characters outside ASCII have a letter of it as their other
-- case.
is_word : ℕ → Bool
is_word c =
    (leb 97 c && leb c 122)
    || (leb 65 c && leb c 90)
    || (leb 48 c && leb c 57)
    || c == 95
    || c == 0x130
    || c == 0x131
    || c == 0x17f
    || c == 0x212a

-- The longest word at the start of a text, and what follows.
word_of : String → String × String
unfolding is_word
word_of String.[] = (String.[], String.[])
word_of (String.◌∷◌ c s) =
    let rest = word_of s in
    if is_word (code c) then (String.◌∷◌ c rest.0, rest.1) else (String.[], String.◌∷◌ c s)

closed : String → String × String → Option (String × ℕ)
unfolding Text.lstrip starts_with
closed s (word, rest) =
    let after = Text.lstrip rest in
    if not (word == "") && starts_with after "}}"
    then some (word, (Text.length s - Text.length after) + 2)
    else none

-- The name of the variable at the start of a text, and the length of what stands for it.
pub var_at : String → Option (String × ℕ)
unfolding closed word_of text_drop starts_with Text.lstrip
var_at s = if starts_with s "{{" then closed s (word_of (Text.lstrip (text_drop 2 s))) else none

module _ (lower : String → String) (loads : String → Option Json) where
  text_or_nothing : Option String → String
  text_or_nothing none = ""
  text_or_nothing (some s) = s

  value_of : String → Dict String String → String
  unfolding text_or_nothing
  value_of key ctx = text_or_nothing (Dict.get (lower key) ctx)

  -- The text from here on, after some characters that are left out.
  substitute_from : Dict String String → ℕ → String → String
  unfolding var_at value_of append
  substitute_from ctx skip String.[] = String.[]
  substitute_from ctx (suc skip) (String.◌∷◌ c s) = substitute_from ctx skip s
  substitute_from ctx zero (String.◌∷◌ c s) = elim (var_at (String.◌∷◌ c s)) [
    | none ↦ String.◌∷◌ c (substitute_from ctx zero s)
    | some v ↦ append (value_of v.0 ctx) (substitute_from ctx (v.1 - 1) s)
  ]

  pub substitute : String → Dict String String → String
  unfolding substitute_from
  substitute template ctx = substitute_from ctx zero template

  -- What `json.loads` gives, if it is a list or an object, and the text itself otherwise.
  structured : String → Option Json → Json
  structured raw (some (Json.array xs)) = Json.array xs
  structured raw (some (Json.object m)) = Json.object m
  structured raw _ = Json.text raw

  whole_of : Option String → Json
  unfolding structured
  whole_of none = Json.text ""
  whole_of (some raw) = structured raw (loads raw)

  pub whole_value : String → Dict String String → Json
  unfolding whole_of
  whole_value key ctx = whole_of (Dict.get (lower key) ctx)

  -- The variable that a text is, with nothing else but space around it.
  only_var : String → Option (String × ℕ) → Option String
  unfolding text_drop Text.is_blank
  only_var s none = none
  only_var s (some v) = if Text.is_blank (text_drop v.1 s) then some v.0 else none

  rendered : Dict String String → String → Option String → Json
  unfolding whole_value substitute
  rendered ctx s none = Json.text (substitute s ctx)
  rendered ctx s (some key) = whole_value key ctx

  mutual
    pub render_args : Dict String String → Json → Json
    render_args ctx (Json.text s) =
        rendered ctx s (only_var (Text.lstrip s) (var_at (Text.lstrip s)))
    render_args ctx (Json.object m) = Json.object (render_fields ctx m)
    render_args ctx (Json.array xs) = Json.array (render_items ctx xs)
    render_args ctx Json.null = Json.null
    render_args ctx (Json.bool b) = Json.bool b
    render_args ctx (Json.number n) = Json.number n

    render_fields : Dict String String → Fields → Fields
    render_fields ctx Fields.end = Fields.end
    render_fields ctx (Fields.field k x m) =
        Fields.field k (render_args ctx x) (render_fields ctx m)

    render_items : Dict String String → Items → Items
    render_items ctx Items.nil = Items.nil
    render_items ctx (Items.cons x xs) = Items.cons (render_args ctx x) (render_items ctx xs)
