-- ===== src/Sessions.antt =====
-- engine/state.py: `SessionStore`. The database is its two tables; `json.dumps` and `json.loads` of a
-- working set and of the runs are an argument, as are the times and the ids drawn by `uuid4`.
pub mod Restart
pub mod Runs
pub mod Log
pub mod Transcript
mod Examples
use argus_agent.Base.{
  ℕ, suc, ◌-◌, max, min, String, Bool, true, false, not, ◌&&◌, Option, none, some, List, [], ◌∷◌,
  ◌++◌, ◌==◌, string_eq, keep, take, drop, length, if◌then◌else◌, leb,
}
use argus_agent.Base.Dict
use argus_agent.Base.Dict.{Dict, map_option, is_some}
use argus_agent.Base.Json.{Json, Items, Fields}
use argus_agent.Loop.Echo.{lookup, starts_with}

pub is_ephemeral : String → Bool
unfolding starts_with
is_ephemeral session_id = starts_with session_id "__"

pub record Session : Type 0 where
  pub conversation : List Json
  pub runs : List String

abbrev pub new_session : Session
new_session = record { conversation = []; runs = [] }

abbrev pub extended : List Json → Session → Session
extended msgs s = record s { conversation = s.conversation ++ msgs }

abbrev pub with_set : List Json → Session → Session
with_set msgs s = record s { conversation = msgs }

abbrev pub with_run : String → Session → Session
with_run run_id s = record s { runs = s.runs ++ run_id ∷ [] }

-- A row of the table `sessions`; `T` is the type of the stored texts.
pub record Row (T : Type 0) : Type 0 where
  pub name : String
  pub origin : Option String
  pub working_set : T
  pub runs : T
  pub created : ℕ
  pub updated : ℕ

-- A row of the table `messages`.
pub record Message : Type 0 where
  pub session_id : String
  pub seq : ℕ
  pub role : String
  pub content : String
  pub ts : ℕ

pub record Db (T : Type 0) : Type 0 where
  pub sessions : Dict String (Row T)
  pub messages : List Message

pub record Store (T : Type 0) : Type 0 where
  pub cache : Dict String Session
  pub db : Option (Db T)

pub record Codec (T : Type 0) : Type 0 where
  pub dumps : List Json → T
  pub loads : T → List Json
  pub dumps_runs : List String → T
  pub loads_runs : T → List String
  pub dump_content : Json → String

-- The number of the next message of a session: one more than the highest.
pub next_seq : String → List Message → ℕ
next_seq session_id [] = 0
next_seq session_id (m ∷ ms) =
    let rest = next_seq session_id ms in
    if m.session_id == session_id then max (suc m.seq) rest else rest

text_or_empty : Option Json → String
text_or_empty (some (Json.text s)) = s
text_or_empty _ = ""

module _ {T : Type 0} (codec : Codec T) where
  role_of : Json → String
  unfolding lookup text_or_empty
  role_of (Json.object m) = text_or_empty (lookup "role" m)
  role_of _ = ""

  content_text : Option Json → String
  content_text (some (Json.text s)) = s
  content_text (some x) = codec.dump_content x
  content_text none = codec.dump_content Json.null

  content_of : Json → String
  unfolding lookup content_text
  content_of (Json.object m) = content_text (lookup "content" m)
  content_of _ = codec.dump_content Json.null

  pub entry : String → ℕ → ℕ → Json → Message
  unfolding role_of content_of
  entry session_id now seq m = record {
    session_id = session_id;
    seq = seq;
    role = role_of m;
    content = content_of m;
    ts = now;
  }

  pub entries : String → ℕ → ℕ → List Json → List Message
  entries session_id now seq [] = []
  entries session_id now seq (m ∷ ms) =
      entry session_id now seq m ∷ entries session_id now (suc seq) ms

  -- `_log`
  pub log : ℕ → String → List Json → Db T → Db T
  unfolding is_ephemeral next_seq entries
  log now session_id msgs db = if is_ephemeral session_id then db else record db {
    messages = db.messages ++ entries session_id now (next_seq session_id db.messages) msgs;
  }

  -- The row that `INSERT ... ON CONFLICT(id) DO UPDATE` leaves.
  pub upserted : ℕ → String → Session → Option (Row T) → Row T
  upserted now session_id s none = record {
    name = session_id;
    origin = none;
    working_set = codec.dumps s.conversation;
    runs = codec.dumps_runs s.runs;
    created = now;
    updated = now;
  }
  upserted now session_id s (some row) = record row {
    working_set = codec.dumps s.conversation;
    runs = codec.dumps_runs s.runs;
    updated = now;
  }

  -- `_persist`
  pub persist : ℕ → String → Session → Db T → Db T
  unfolding is_ephemeral upserted
  persist now session_id s db = if is_ephemeral session_id then db else record db {
    sessions =
        Dict.put session_id (upserted now session_id s (Dict.get session_id db.sessions))
          db.sessions;
  }

  pub session_of : Row T → Session
  session_of row = record {
    conversation = codec.loads row.working_set;
    runs = codec.loads_runs row.runs;
  }

  -- `_load`
  pub load : String → Option (Db T) → Option Session
  unfolding is_ephemeral session_of
  load session_id none = none
  load session_id (some db) =
      if is_ephemeral session_id
      then none
      else map_option session_of (Dict.get session_id db.sessions)

  abbrev pub cached : String → Session → Store T → Store T
  cached session_id s st = record st { cache = Dict.put session_id s st.cache }

  -- The session goes to the cache and to the database.
  pub save : ℕ → String → Session → Store T → Store T
  unfolding persist
  save now session_id s st = record (cached session_id s st) {
    db = map_option (persist now session_id s) st.db;
  }

  pub loaded : ℕ → String → Option Session → Store T → Session × Store T
  unfolding save
  loaded now session_id (some s) st = (s, cached session_id s st)
  loaded now session_id none st = (new_session, save now session_id new_session st)

  pub opened : ℕ → String → Option Session → Store T → Session × Store T
  unfolding loaded load
  opened now session_id (some s) st = (s, st)
  opened now session_id none st = loaded now session_id (load session_id st.db) st

  pub get_or_create : ℕ → String → Store T → Session × Store T
  unfolding opened
  get_or_create now session_id st = opened now session_id (Dict.get session_id st.cache) st

  pub logged : ℕ → String → List Json → Store T → Store T
  unfolding log
  logged now session_id msgs st = record st { db = map_option (log now session_id msgs) st.db }

  pub change : ℕ → String → (Session → Session) → List Json → Store T → Store T
  unfolding get_or_create save logged
  change now session_id f msgs st =
      let found = get_or_create now session_id st in
      save now session_id (f found.0) (logged now session_id msgs found.1)

  -- `append_message` is `extend_messages` of one message.
  pub extend_messages : ℕ → String → List Json → Store T → Store T
  unfolding change
  extend_messages now session_id msgs st = change now session_id (extended msgs) msgs st

  pub set_working_set : ℕ → String → List Json → Store T → Store T
  unfolding change
  set_working_set now session_id msgs st = change now session_id (with_set msgs) [] st

  pub record_run : ℕ → String → String → Store T → Store T
  unfolding change
  record_run now session_id run_id st = change now session_id (with_run run_id) [] st

  pub reset : ℕ → String → Store T → Store T
  unfolding change
  reset now session_id st = change now session_id (with_set []) [] st

  pub read : String → Option Session → Option Session → Store T → List Json × Store T
  read session_id (some s) stored st = (s.conversation, st)
  read session_id none (some s) st = (s.conversation, cached session_id s st)
  read session_id none none st = ([], st)

  pub conversation : String → Store T → List Json × Store T
  unfolding read load
  conversation session_id st =
      read session_id (Dict.get session_id st.cache) (load session_id st.db) st

  -- `name or sid`
  name_or_id : String → Option String → String
  name_or_id fresh none = fresh
  name_or_id fresh (some name) = if name == "" then fresh else name

  pub blank_row : ℕ → String → Option String → Row T
  unfolding name_or_id
  blank_row now fresh name = record {
    name = name_or_id fresh name;
    origin = some "dashboard";
    working_set = codec.dumps [];
    runs = codec.dumps_runs [];
    created = now;
    updated = now;
  }

  pub insert_row : ℕ → String → Option String → Db T → Db T
  unfolding blank_row
  insert_row now fresh name db = record db {
    sessions = Dict.put fresh (blank_row now fresh name) db.sessions;
  }

  pub create_session : ℕ → String → Option String → Store T → Store T
  unfolding insert_row
  create_session now fresh name st = record (cached fresh new_session st) {
    db = map_option (insert_row now fresh name) st.db;
  }

module _ {T : Type 0} where
  pub session_name : String → Store T → Option String
  session_name session_id st = elim st.db [
    | none ↦ none
    | some db ↦ map_option (λ row. row.name) (Dict.get session_id db.sessions)
  ]

  -- The update of one row, if it is there.
  pub set_row : String → (Row T → Row T) → Option (Row T) → Db T → Db T
  set_row session_id f none db = db
  set_row session_id f (some row) db = record db {
    sessions = Dict.put session_id (f row) db.sessions;
  }

  abbrev pub renamed : ℕ → String → Row T → Row T
  renamed now name row = record row { name = name; updated = now }

  pub rename_in : ℕ → String → String → Db T → Db T
  unfolding set_row
  rename_in now session_id name db =
      set_row session_id (renamed now name) (Dict.get session_id db.sessions) db

  pub rename_session : ℕ → String → String → Store T → Store T
  unfolding rename_in
  rename_session now session_id name st = record st {
    db = map_option (rename_in now session_id name) st.db;
  }

  -- Only a session that still has its id for a name is renamed.
  pub rename_if_placeholder : ℕ → String → String → Store T → Bool × Store T
  unfolding rename_session session_name
  rename_if_placeholder now session_id name st = elim (session_name session_id st) [
    | none ↦ (false, st)
    | some old ↦
        if old == session_id then (true, rename_session now session_id name st) else (false, st)
  ]

  pub delete_in : String → Db T → Db T
  delete_in session_id db = record {
    sessions = Dict.remove session_id db.sessions;
    messages = keep (λ m. not (m.session_id == session_id)) db.messages;
  }

  pub delete_session : String → Store T → Store T
  unfolding delete_in
  delete_session session_id st = record {
    cache = Dict.remove session_id st.cache;
    db = map_option (delete_in session_id) st.db;
  }

  pub messages_of : String → Option (Db T) → List Message
  messages_of session_id none = []
  messages_of session_id (some db) = keep (λ m. m.session_id == session_id) db.messages

  -- A page of the raw log: its length in all, and the part that was asked for.
  pub session_messages : String → ℕ → ℕ → Store T → ℕ × List Message
  unfolding messages_of
  session_messages session_id limit offset st =
      let all = messages_of session_id st.db in
      (length all, take (max 1 (min limit 1000)) (drop offset all))
