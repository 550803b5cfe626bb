-- ===== src/Modes/Raised.antt =====
-- engine/modes/manual.py: when reading a reply raises.
use argus_agent.Base.{
  String, Bool, true, false, Option, none, some, List, nat_eq, ◌≡◌, ◌↔◌, refl, ap, ◌⊎◌, inl, inr,
}
use argus_agent.Base.Json.{Json, Fields}
use argus_agent.Base.Result.{Result, ok, err}
use argus_agent.Loop.Echo.{lookup}
use argus_agent.Modes.{LoadError, malformed, other_error, ModelResponse, Library, content_or_empty}
use argus_agent.Modes.Extract.{strip_fences, extract}
use argus_agent.Modes.Manual.{by_action, by_field, interpret, decoded, of_candidate, parse_response}

-- A list and an object have no hash.
unfoldable pub has_hash : Json → Bool
has_hash (Json.array xs) = false
has_hash (Json.object m) = false
has_hash _ = true

-- The object that is read has an action without a hash.
pub record IsUnhashable (lib : Library) (resp : ModelResponse) : Type 0 where
  pub candidate : String
  pub obj : Fields
  pub action : Json
  pub is_candidate : extract (strip_fences (content_or_empty resp)) ≡ some candidate
  pub is_object : lib.loads candidate ≡ ok (Json.object obj)
  pub is_action : lookup "action" obj ≡ some action
  pub no_hash : has_hash action ≡ false

-- `json.loads` raises on the object that is read, and not a JSONDecodeError.
pub record IsUnloadable (lib : Library) (resp : ModelResponse) : Type 0 where
  pub candidate : String
  pub error : String
  pub is_candidate : extract (strip_fences (content_or_empty resp)) ≡ some candidate
  pub raises_error : lib.loads candidate ≡ err (other_error error)

err_eq : {A : Type 0} {x y : String} → (let r : Result String A = err x in r ≡ err y) → x ≡ y
err_eq h = cc

module _ (lib : Library) (known : List String) where
  by_action-raises :
      (content candidate : String) (obj : Fields) (action : Json) (e : String)
      → by_action lib known content candidate obj action ≡ err e
      → has_hash action ≡ false
  unfolding by_action has_hash
  by_action-raises content candidate obj (Json.text s) e h = cc
  by_action-raises content candidate obj (Json.array xs) e h = refl
  by_action-raises content candidate obj (Json.object m) e h = refl
  by_action-raises content candidate obj Json.null e h = cc
  by_action-raises content candidate obj (Json.bool b) e h = cc
  by_action-raises content candidate obj (Json.number n) e h = cc

  raises-by_action :
      (content candidate : String) (obj : Fields) (action : Json)
      → has_hash action ≡ false
      → (e : String) × (by_action lib known content candidate obj action ≡ err e)
  unfolding by_action has_hash
  raises-by_action content candidate obj (Json.text s) h = cc
  raises-by_action content candidate obj (Json.array xs) h = (_, refl)
  raises-by_action content candidate obj (Json.object m) h = (_, refl)
  raises-by_action content candidate obj Json.null h = cc
  raises-by_action content candidate obj (Json.bool b) h = cc
  raises-by_action content candidate obj (Json.number n) h = cc

  by_field-raises :
      (content candidate : String) (obj : Fields) (found : Option Json) (e : String)
      → by_field lib known content candidate obj found ≡ err e
      → (action : Json) × (found ≡ some action) × (has_hash action ≡ false)
  unfolding by_field
  by_field-raises content candidate obj none e h = cc
  by_field-raises content candidate obj (some action) e h =
      (action, refl, by_action-raises content candidate obj action e h)

  decoded-raises :
      (content candidate : String) (value : Result LoadError Json) (e : String)
      → decoded lib known content candidate value ≡ err e
      → ((obj : Fields) × (action : Json) × (value ≡ ok (Json.object obj))
          × (lookup "action" obj ≡ some action)
          × (has_hash action ≡ false))
        ⊎ (value ≡ err (other_error e))
  unfolding decoded interpret
  decoded-raises content candidate (ok (Json.object obj)) e h =
      let (action, found, g) = by_field-raises content candidate obj (lookup "action" obj) e h in
      inl (obj, action, refl, found, g)
  decoded-raises content candidate (ok (Json.text s)) e h = cc
  decoded-raises content candidate (ok (Json.array xs)) e h = cc
  decoded-raises content candidate (ok Json.null) e h = cc
  decoded-raises content candidate (ok (Json.bool b)) e h = cc
  decoded-raises content candidate (ok (Json.number n)) e h = cc
  decoded-raises content candidate (err (malformed x)) e h = cc
  decoded-raises content candidate (err (other_error x)) e h =
      inr (ap (λ y. err (other_error y)) (err_eq h))

  of_candidate-raises :
      (resp : ModelResponse) (found : Option String) (e : String)
      → extract (strip_fences (content_or_empty resp)) ≡ found
      → of_candidate lib known (content_or_empty resp) found ≡ err e
      → IsUnhashable lib resp ⊎ IsUnloadable lib resp
  unfolding of_candidate
  of_candidate-raises resp none e g h = cc
  of_candidate-raises resp (some c) e g h =
      elim (decoded-raises (content_or_empty resp) c (lib.loads c) e h) [
        | inl (obj, action, value, found, u) ↦ inl (record {
          candidate = c;
          obj = obj;
          action = action;
          is_candidate = g;
          is_object = value;
          is_action = found;
          no_hash = u;
        })
        | inr other ↦
            inr (record { candidate = c; error = e; is_candidate = g; raises_error = other })
      ]

  raises-parse_response :
      (resp : ModelResponse)
      → IsUnhashable lib resp ⊎ IsUnloadable lib resp
      → (e : String) × (parse_response lib known resp ≡ err e)
  unfolding parse_response of_candidate decoded interpret by_field
  raises-parse_response resp (inl u) =
      rw (u.is_candidate, u.is_object, u.is_action)
        (raises-by_action (content_or_empty resp) u.candidate u.obj u.action u.no_hash)
  raises-parse_response resp (inr u) = (u.error, rw (u.is_candidate, u.raises_error) refl)

-- The manual mode raises on a reply exactly when `json.loads` raises another error than a
-- JSONDecodeError on the object that it reads, or the `action` of that object is a list or an object.
pub parse_response-raises_iff :
    (lib : Library) (known : List String) (resp : ModelResponse)
    → ((e : String) × (parse_response lib known resp ≡ err e))
      ↔ (IsUnhashable lib resp ⊎ IsUnloadable lib resp)
unfolding parse_response
parse_response-raises_iff lib known resp =
    (λ (e, h). of_candidate-raises lib known resp _ e refl h, raises-parse_response lib known resp)
