-- ===== src/Approvals/Requests.antt =====
-- engine/approvals/store.py: the log of approval requests. The id that `uuid4` draws and the time
-- of the call are arguments; writing the file is not modelled.
use argus_agent.Base.{
  ℕ, String, ◌≡◌, refl, Bool, true, false, Option, none, some, List, [], ◌∷◌, ◌++◌, arith, ◌==◌,
  string_eq, keep, if◌then◌else◌,
}
use argus_agent.Base.Json.{Json, Fields}

pub data Status : Type 0 where
  pending approved denied : Status

abbrev pub is_pending : Status → Bool
is_pending pending = true
is_pending _ = false

pub record Request : Type 0 where
  pub id : String
  pub kind : String
  pub target : String
  pub session_id : String
  pub prompt : String
  pub origin : String
  pub payload : Json
  pub status : Status
  pub created_at : ℕ
  pub resolved_at : Option ℕ
  pub decision : Option String
  pub actor : Option String
  pub run_id : String
  pub step : ℕ

-- What the caller of `create` gives.
pub record Ask : Type 0 where
  pub kind : String
  pub target : String
  pub session_id : String
  pub prompt : String
  pub origin : String
  pub payload : Option Json
  pub run_id : String
  pub step : ℕ

-- `payload or {}`, where the payload is an object or missing.
abbrev payload_or_empty : Option Json → Json
payload_or_empty none = Json.object Fields.end
payload_or_empty (some payload) = payload

unfoldable pub new_request : Ask → String → ℕ → Request
new_request a fresh now = record {
  id = fresh;
  kind = a.kind;
  target = a.target;
  session_id = a.session_id;
  prompt = a.prompt;
  origin = a.origin;
  payload = payload_or_empty a.payload;
  status = pending;
  created_at = now;
  resolved_at = none;
  decision = none;
  actor = none;
  run_id = a.run_id;
  step = a.step;
}

unfoldable pub create : Ask → String → ℕ → List Request → List Request
create a fresh now reqs = reqs ++ new_request a fresh now ∷ []

unfoldable pub resolved : Request → Status → String → String → ℕ → Request
resolved r status decision actor now = record r {
  status = status;
  decision = some decision;
  actor = some actor;
  resolved_at = some now;
}

-- The first request with the id is marked; the result says if there was one.
unfoldable pub resolve : String → Status → String → String → ℕ → List Request → Bool × List Request
resolve req_id status decision actor now [] = (false, [])
resolve req_id status decision actor now (r ∷ rs) =
    let (found, rest) = resolve req_id status decision actor now rs in
    if r.id == req_id then (true, resolved r status decision actor now ∷ rs) else (found, r ∷ rest)

unfoldable pub get : String → List Request → Option Request
get req_id [] = none
get req_id (r ∷ rs) = if r.id == req_id then some r else get req_id rs

unfoldable pub pending_requests : List Request → List Request
pending_requests reqs = keep (λ r. is_pending r.status) reqs

-- A request is found under the id that it was created with, unless an older one has that id.
pub get-create :
    (a : Ask) (fresh : String) (now : ℕ) (reqs : List Request) (j : String)
    → get fresh reqs ≡ none
    → get j (create a fresh now reqs)
      ≡ (if fresh == j then some (new_request a fresh now) else get j reqs)
unfolding get create new_request
get-create a fresh now [] j h = refl
get-create a fresh now (r ∷ rs) j h = ground (
  arith,
  string_eq.same_iff fresh j,
  string_eq.same_iff r.id fresh,
  string_eq.same_iff r.id j,
  get-create a fresh now rs j,
)

abbrev pub map_resolved : Status → String → String → ℕ → Option Request → Option Request
map_resolved status decision actor now none = none
map_resolved status decision actor now (some r) = some (resolved r status decision actor now)

-- Resolving marks the request with that id and leaves the others as they were.
pub get-resolve :
    (req_id : String) (status : Status) (decision actor : String) (now : ℕ) (reqs : List Request)
    (j : String)
    → get j (resolve req_id status decision actor now reqs).1
      ≡ (if req_id == j then map_resolved status decision actor now (get j reqs) else get j reqs)
unfolding get resolve resolved
get-resolve req_id status decision actor now [] j = ground arith
get-resolve req_id status decision actor now (r ∷ rs) j = ground (
  arith,
  string_eq.same_iff req_id j,
  string_eq.same_iff r.id req_id,
  string_eq.same_iff r.id j,
  get-resolve req_id status decision actor now rs j,
)
