-- ===== src/Routines.antt =====
-- engine/routines/store.py: routines, their validation, and the store that saves and loads them. A field
-- of a step that the program reads as a text is a text or missing.
pub mod Named
pub mod Valid
pub mod Saved
pub mod Reload
pub mod Template
pub mod Executor
pub mod Stopped
mod Examples
use argus_agent.Base.{
  ℕ, zero, suc, String, Bool, true, false, not, ◌&&◌, ◌||◌, Option, none, some, List, [], ◌∷◌, ◌++◌,
  map, ◌==◌, nat_eq, string_eq, elem, length, if◌then◌else◌, ltb, leb,
}
use argus_agent.Base.Dict
use argus_agent.Base.Dict.{Dict, is_some}
use argus_agent.Base.Json.{Json, Items, Fields, is_zero}
use argus_agent.Base.Result.{Result, ok, err, ◌>>=◌, ◌>>◌, refuse}
use argus_agent.Base.Text
use argus_agent.Loop.Echo.{joined, decimal}
use Prim.Native.Char.{code}

pub record Step : Type 0 where
  pub type : Option String
  pub id : Option String
  pub tool : Option String
  pub args : Option Json
  pub prompt : Option String
  pub skill : Option String
  pub optional : Bool

pub record Delivery : Type 0 where
  pub channel : Option String
  pub subject : Option String

-- A step that is no object is `none`; `about` holds the fields that are only kept.
pub record Routine : Type 0 where
  pub name : String
  pub steps : List (Option Step)
  pub output : String
  pub deliver : Delivery
  pub about : Json

abbrev pub max_steps : ℕ
max_steps = 20

abbrev pub max_model_steps : ℕ
max_model_steps = 6

abbrev pub channels : List String
channels = "telegram" ∷ "email" ∷ "push" ∷ "none" ∷ []

unfoldable pub is_small : ℕ → Bool
is_small c = leb 97 c && leb c 122

-- `[a-z0-9_]*$`; the end that `$` stands for may be before a last line break.
unfoldable pub ends_name : String → Bool
unfolding is_small
ends_name String.[] = true
ends_name (String.◌∷◌ c s) =
    ((is_small (code c) || (leb 48 (code c) && leb (code c) 57) || code c == 95) && ends_name s)
    || (code c == 10 && s == "")

-- `_NAME_RE.match(s)`
unfoldable pub is_name : String → Bool
unfolding ends_name is_small
is_name String.[] = false
is_name (String.◌∷◌ c s) = is_small (code c) && ends_name s

-- `s if s else other`, of a text that may be missing.
pub or_else : Option String → Option String → Option String
or_else none other = other
or_else (some s) other = if s == "" then other else some s

-- A text as it is shown in an error.
pub shown : Option String → String
shown none = "None"
shown (some s) = s

pub has_text : Option String → Bool
has_text none = false
has_text (some s) = not (s == "")

pub is_type : String → Option String → Bool
is_type kind none = false
is_type kind (some t) = t == kind

-- The id of the step at an index, if it has none of its own.
pub step_id : ℕ → Step → Option String
unfolding or_else is_type
step_id i s =
    or_else s.id
      (if is_type "tool" s.type then s.tool else some (joined ("step" ∷ decimal (suc i) ∷ [])))

is_valid_id : Option String → Bool
unfolding is_name
is_valid_id none = false
is_valid_id (some sid) = is_name sid

-- `isinstance(args or {}, dict)`
pub is_args : Option Json → Bool
unfolding is_zero
is_args none = true
is_args (some Json.null) = true
is_args (some (Json.bool b)) = not b
is_args (some (Json.number n)) = is_zero n
is_args (some (Json.text s)) = s == ""
is_args (some (Json.array Items.nil)) = true
is_args (some (Json.array (Items.cons x xs))) = false
is_args (some (Json.object m)) = true

-- Whether a name is missing from the names that are known, if they are.
pub is_unknown : Option (List String) → Option String → Bool
is_unknown none name = false
is_unknown (some names) none = false
is_unknown (some names) (some name) = not (elem name names)

pub is_blank_text : Option String → Bool
is_blank_text none = true
is_blank_text (some s) = Text.is_blank s

abbrev pub with_id : String → Step → Step
with_id sid s = record s { id = some sid }

-- The id of a step that is valid and not taken.
pub check_id : List String → Option String → Result String String
unfolding ◌>>◌ refuse is_valid_id
check_id ids sid =
    refuse (not (is_valid_id sid)) (joined ("step id '" ∷ shown sid ∷ "' must be snake_case" ∷ []))
    >> (refuse (elem (shown sid) ids) (joined ("duplicate step id '" ∷ shown sid ∷ "'" ∷ []))
        >> ok (shown sid))

-- The ids of steps that were checked.
pub ids_of : List Step → List String
unfolding shown
ids_of steps = map (λ s. shown s.id) steps

pub is_bad_channel : Option String → Bool
unfolding has_text
is_bad_channel channel = has_text channel && not (elem (shown channel) channels)

pub finish : Routine → List Step × ℕ → Result String Routine
unfolding ◌>>◌ refuse ids_of is_bad_channel
finish r (steps, by_model) =
    refuse (ltb max_model_steps by_model) "too many model steps (max 6)"
    >> (refuse (not (r.output == "") && not (elem r.output (ids_of steps)))
          (joined ("output '" ∷ r.output ∷ "' is not a step id" ∷ []))
        >> (refuse (is_bad_channel r.deliver.channel) (
              joined (
                "deliver.channel '"
                ∷ shown r.deliver.channel
                ∷ "' must be one of ('telegram', 'email', 'push', 'none')"
                ∷ []))
            >> ok (record r { steps = map some steps })))

module _ (known_tools known_skills : Option (List String)) where
  pub check_tool : String → Step → Result String (Unit {0})
  unfolding ◌>>◌ refuse has_text is_unknown is_args
  check_tool sid s =
      refuse (not (has_text s.tool)) (joined ("tool step '" ∷ sid ∷ "' needs a 'tool'" ∷ []))
      >> (refuse (is_unknown known_tools s.tool)
            (joined ("unknown tool '" ∷ shown s.tool ∷ "' in step '" ∷ sid ∷ "'" ∷ []))
          >> refuse (not (is_args s.args))
              (joined ("step '" ∷ sid ∷ "' args must be an object" ∷ [])))

  pub check_model : String → Step → Result String (Unit {0})
  unfolding ◌>>◌ refuse is_blank_text has_text is_unknown
  check_model sid s =
      refuse (is_blank_text s.prompt) (joined ("model step '" ∷ sid ∷ "' needs a 'prompt'" ∷ []))
      >> refuse (has_text s.skill && is_unknown known_skills s.skill)
          (joined ("unknown skill '" ∷ shown s.skill ∷ "' in step '" ∷ sid ∷ "'" ∷ []))

  -- Whether the step is one of the model.
  pub check_kind : String → Step → Result String Bool
  unfolding ◌>>=◌ check_tool check_model is_type
  check_kind sid s =
      if is_type "tool" s.type
      then check_tool sid s >>= (λ done. ok false)
      else if is_type "model" s.type
      then check_model sid s >>= (λ done. ok true)
      else err (joined ("step '" ∷ sid ∷ "' type must be 'tool' or 'model'" ∷ []))

  -- The steps with their ids, and the number of those of the model.
  pub check_steps : ℕ → List String → List (Option Step) → Result String (List Step × ℕ)
  unfolding ◌>>=◌ check_id step_id check_kind
  check_steps i ids [] = ok ([], 0)
  check_steps i ids (none ∷ steps) = err (joined ("step " ∷ decimal i ∷ " must be an object" ∷ []))
  check_steps i ids (some s ∷ steps) = check_id ids (step_id i s) >>= (λ sid.
      check_kind sid s >>= (λ by_model.
        check_steps (suc i) (sid ∷ ids) steps
        >>= (λ rest. ok (with_id sid s ∷ rest.0, if by_model then suc rest.1 else rest.1))))

  pub validate_routine : Routine → Result String Routine
  unfolding ◌>>=◌ ◌>>◌ refuse is_name check_steps finish
  validate_routine r =
      refuse (not (is_name r.name)) "name must be snake_case: [a-z][a-z0-9_]*"
      >> (refuse (length r.steps == 0) "a routine needs at least one step"
          >> (refuse (ltb max_steps (length r.steps)) "too many steps (max 20)"
              >> (check_steps 0 [] r.steps >>= finish r)))

-- The routines in memory, and the text of the file of every name.
pub record RoutineStore (T : Type 0) : Type 0 where
  pub routines : Dict String Routine
  pub files : Dict String T

pub read_valid : Option Routine → Result String Routine
unfolding validate_routine
read_valid none = err "unreadable"
read_valid (some r) = validate_routine none none r

-- A routine that is not valid is skipped.
pub keep_valid : Result String Routine → Dict String Routine → Dict String Routine
keep_valid (ok r) routines = Dict.put r.name r routines
keep_valid (err e) routines = routines

-- `dump` is `json.dump(asdict(r))`, and `loads` the other way, which may raise.
module _ {T : Type 0} where
  pub loaded_routine : (T → Option Routine) → T → Result String Routine
  unfolding read_valid
  loaded_routine loads text = read_valid (loads text)

  -- `load_dir`, of the files in the order of the sorted listing.
  pub load_dir : (T → Option Routine) → Dict String T → Dict String Routine → Dict String Routine
  unfolding keep_valid loaded_routine
  load_dir loads [] routines = routines
  load_dir loads ((name, text) ∷ listing) routines =
      load_dir loads listing (keep_valid (loaded_routine loads text) routines)

  unfoldable pub save :
      (Routine → T)
      → Option (List String)
      → Option (List String)
      → Routine
      → RoutineStore T
      → Result String (RoutineStore T)
  unfolding ◌>>=◌ validate_routine
  save dump known_tools known_skills r st = validate_routine known_tools known_skills r >>= (λ v.
      ok (record {
        routines = Dict.put v.name v st.routines;
        files = Dict.put v.name (dump v) st.files;
      }))

  -- `removed` tells whether the file could be removed; if not, a warning is logged and it stays.
  unfoldable pub delete : Bool → String → RoutineStore T → Bool × RoutineStore T
  delete removed name st =
      if is_some (Dict.get name st.routines)
      then (
        true,
        record {
          routines = Dict.remove name st.routines;
          files = if removed then Dict.remove name st.files else st.files;
        },
      )
      else (false, st)
