-- ===== src/Trust.antt =====
-- engine/experimental/trust_store.py: `TrustStore`. The hash of a code is a parameter; ids drawn by
-- `uuid4` and times are arguments, and the file is left out.
pub mod Approved
mod Examples
use argus_agent.Base.{
  String, Bool, true, false, not, ◌&&◌, Option, none, some, List, [], ◌∷◌, ◌++◌, ◌==◌, string_eq,
  keep, if◌then◌else◌,
}
use argus_agent.Base.Dict
use argus_agent.Base.Dict.{Dict}

pub data Status : Type 0 where
  pending approved denied : Status

abbrev pub is_pending : Status → Bool
is_pending pending = true
is_pending _ = false

abbrev pub is_approved : Status → Bool
is_approved approved = true
is_approved _ = false

pub record TrustRequest : Type 0 where
  pub id : String
  pub tool_name : String
  pub code : String
  pub code_hash : String
  pub session_id : String
  pub status : Status
  pub created_at : String
  pub resolved_at : Option String

pub record Trusted : Type 0 where
  pub code_hash : String
  pub approved_at : String

pub record TrustStore : Type 0 where
  pub trusted : Dict String Trusted
  pub requests : List TrustRequest

pub is_trusted : String → String → TrustStore → Bool
is_trusted tool_name hash s = elim (Dict.get tool_name s.trusted) [
  | none ↦ false
  | some t ↦ t.code_hash == hash
]

pub find : (TrustRequest → Bool) → List TrustRequest → Option TrustRequest
find p [] = none
find p (r ∷ rs) = let later = find p rs in if p r then some r else later

pub get : String → TrustStore → Option TrustRequest
unfolding find
get req_id s = find (λ r. r.id == req_id) s.requests

pub new_request : String → String → String → String → String → String → TrustRequest
new_request tool_name code hash session_id fresh now = record {
  id = fresh;
  tool_name = tool_name;
  code = code;
  code_hash = hash;
  session_id = session_id;
  status = pending;
  created_at = now;
  resolved_at = none;
}

-- A pending request for the same code is given again.
pub file_request : Option TrustRequest → TrustRequest → TrustStore → TrustRequest × TrustStore
file_request (some r) fresh s = (r, s)
file_request none fresh s = (fresh, record s { requests = s.requests ++ fresh ∷ [] })

pub request :
    (String → String)
    → String
    → String
    → String
    → String
    → String
    → TrustStore
    → TrustRequest × TrustStore
unfolding find new_request file_request
request code_hash tool_name code session_id fresh now s =
    file_request
      (find (λ r. r.tool_name == tool_name && r.code_hash == code_hash code && is_pending r.status)
        s.requests)
      (new_request tool_name code (code_hash code) session_id fresh now) s

pub marked : Status → String → TrustRequest → TrustRequest
marked status now r = record r { status = status; resolved_at = some now }

-- The first request with the id is marked.
pub mark : String → Status → String → List TrustRequest → List TrustRequest
unfolding marked
mark req_id status now [] = []
mark req_id status now (r ∷ rs) =
    let rest = mark req_id status now rs in
    if r.id == req_id then marked status now r ∷ rs else r ∷ rest

abbrev pub open_request : Option TrustRequest → Option TrustRequest
open_request none = none
open_request (some r) = if is_pending r.status then some r else none

pub grant : String → String → Option TrustRequest → TrustStore → Option TrustRequest × TrustStore
unfolding mark marked
grant req_id now none s = (none, s)
grant req_id now (some r) s = (
  some (marked approved now r),
  record {
    trusted =
        Dict.put r.tool_name (record { code_hash = r.code_hash; approved_at = now }) s.trusted;
    requests = mark req_id approved now s.requests;
  },
)

pub approve : String → String → TrustStore → Option TrustRequest × TrustStore
unfolding grant get
approve req_id now s = grant req_id now (open_request (get req_id s)) s

pub refuse : String → String → Option TrustRequest → TrustStore → Option TrustRequest × TrustStore
unfolding mark marked
refuse req_id now none s = (none, s)
refuse req_id now (some r) s =
    (some (marked denied now r), record s { requests = mark req_id denied now s.requests })

pub deny : String → String → TrustStore → Option TrustRequest × TrustStore
unfolding refuse get
deny req_id now s = refuse req_id now (open_request (get req_id s)) s

pub revoke : String → TrustStore → Bool × TrustStore
revoke tool_name s = elim (Dict.get tool_name s.trusted) [
  | none ↦ (false, s)
  | some t ↦ (true, record s { trusted = Dict.remove tool_name s.trusted })
]
