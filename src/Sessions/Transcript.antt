-- ===== src/Sessions/Transcript.antt =====
-- engine/state.py: the raw log over a run of operations.
use argus_agent.Base.{
  ℕ, String, ◌≡◌, refl, sym, ap, ◌∙◌, Bool, true, false, not, Option, none, some, List, [], ◌∷◌,
  ◌++◌, map, arith, ◌==◌, string_eq, each_of, if◌then◌else◌, Bool-cases, inl, inr,
}
use mathlib.Core.List.{append-nil, append_assoc, map-append}
use argus_agent.Base.Dict
use argus_agent.Base.Dict.{Dict, map_option, is_some}
use argus_agent.Base.Json.{Json}
use argus_agent.Sessions.{
  is_ephemeral, Session, extended, with_set, with_run, Row, Db, Store, Codec, save, get_or_create,
  logged, load, change, extend_messages, set_working_set, record_run, reset, read, conversation,
  insert_row, create_session, renamed, set_row, rename_in, rename_session, rename_if_placeholder,
  session_name, delete_in, delete_session, messages_of,
}
use argus_agent.Sessions.Restart.{reopened}
use argus_agent.Sessions.Runs.{
  Op, appends, compacts, runs, resets, reads, deletes, creates, renames, titles, restarts, step,
  run,
}
use argus_agent.Sessions.Log.{
  text_of, texts, said, Same, opened-Same, change-texts, keep-delete, is_some-map_option,
}

-- What an operation adds to the log of a session.
unfoldable pub added : String → Op → List Json
added id (appends now j ms) = if j == id then ms else []
added id _ = []

unfoldable pub all_added : String → List Op → List Json
all_added id [] = []
all_added id (op ∷ ops) = added id op ++ all_added id ops

-- Whether an operation leaves the log of a session in place.
abbrev pub spares : String → Op → Bool
spares id (deletes j) = not (j == id)
spares id _ = true

if_same : {A : Type 0} (b : Bool) (x : A) → (if b then x else x) ≡ x
if_same true x = refl
if_same false x = refl

module _ {T : Type 0} (codec : Codec T) where
  set_row-messages :
      (id j name : String) (now : ℕ) (r : Option (Row T)) (db : Db T)
      → texts id (some (set_row j (renamed now name) r db)) ≡ texts id (some db)
  unfolding texts messages_of set_row
  set_row-messages id j name now none db = refl
  set_row-messages id j name now (some row) db = refl

  rename-texts :
      (id j name : String) (now : ℕ) (st : Store T)
      → texts id (rename_session now j name st).db ≡ texts id st.db
  unfolding rename_session rename_in
  rename-texts id j name now st = rename_db st.db
    where
      rename_db : (o : Option (Db T)) → texts id (map_option (rename_in now j name) o) ≡ texts id o
      rename_db none = refl
      rename_db (some db) = set_row-messages id j name now _ db

  delete-texts :
      (id j : String) (o : Option (Db T))
      → (j == id) ≡ false
      → texts id (map_option (delete_in j) o) ≡ texts id o
  unfolding texts messages_of delete_in
  delete-texts id j none other = refl
  delete-texts id j (some db) other = ap (map text_of) (keep-delete id j db.messages other)

  insert-texts :
      (id j : String) (now : ℕ) (name : Option String) (o : Option (Db T))
      → texts id (map_option (insert_row codec now j name) o) ≡ texts id o
  unfolding texts messages_of insert_row
  insert-texts id j now name none = refl
  insert-texts id j now name (some db) = refl

  read-Same :
      (id j : String) (o stored : Option Session) (st : Store T)
      → Same codec id st (read codec j o stored st).1
  unfolding read
  read-Same id j (some s) stored st = record { texts = refl; there = refl }
  read-Same id j none (some s) st = record { texts = refl; there = refl }
  read-Same id j none none st = record { texts = refl; there = refl }

  change-there :
      (j : String) (now : ℕ) (f : Session → Session) (ms : List Json) (st : Store T)
      → is_some (change codec now j f ms st).db ≡ is_some st.db
  unfolding change get_or_create save logged
  change-there j now f ms st =
      is_some-map_option codec _ _
      ∙ is_some-map_option codec _ _
      ∙ (opened-Same codec "" j now (Dict.get j st.cache) st).there

  quiet-texts :
      (id j : String) (now : ℕ) (f : Session → Session) (st : Store T)
      → is_ephemeral id ≡ false
      → is_some st.db ≡ true
      → texts id (change codec now j f [] st).db ≡ texts id st.db ++ []
  quiet-texts id j now f st kept there =
      change-texts codec id j now f [] st kept there
      ∙ ap (λ ms. texts id st.db ++ map (said codec) ms) (if_same (j == id) [])

  title-Same :
      (id j name : String) (now : ℕ) (o : Option String) (st : Store T)
      → o ≡ session_name j st
      → Same codec id st (rename_if_placeholder now j name st).1
  unfolding rename_if_placeholder rename_session
  title-Same id j name now none st e =
      rw (← e, rename_if_placeholder) (record { texts = refl; there = refl })
  title-Same id j name now (some old) st e = elim (Bool-cases (old == j)) [
    | inl b ↦
        rw (← e, rename_if_placeholder, b)
          (record {
            texts = rename-texts id j name now st;
            there = is_some-map_option codec _ st.db;
          })
    | inr b ↦ rw (← e, rename_if_placeholder, b) (record { texts = refl; there = refl })
  ]

  step-texts :
      (id : String) (op : Op) (st : Store T)
      → is_ephemeral id ≡ false
      → is_some st.db ≡ true
      → spares id op ≡ true
      → texts id (step codec op st).db ≡ texts id st.db ++ map (said codec) (added id op)
  unfolding step added extend_messages set_working_set record_run reset conversation delete_session
      create_session reopened
  step-texts id (appends now j ms) st kept there spared =
      change-texts codec id j now (extended ms) ms st kept there
  step-texts id (compacts now j ms) st kept there spared =
      quiet-texts id j now (with_set ms) st kept there
  step-texts id (runs now j run_id) st kept there spared =
      quiet-texts id j now (with_run run_id) st kept there
  step-texts id (resets now j) st kept there spared =
      quiet-texts id j now (with_set []) st kept there
  step-texts id (reads j) st kept there spared =
      (read-Same id j (Dict.get j st.cache) (load codec j st.db) st).texts ∙ sym (append-nil _)
  step-texts id (deletes j) st kept there spared =
      delete-texts id j st.db (ground (arith, spared)) ∙ sym (append-nil _)
  step-texts id (creates now j name) st kept there spared =
      insert-texts id j now name st.db ∙ sym (append-nil _)
  step-texts id (renames now j name) st kept there spared =
      rename-texts id j name now st ∙ sym (append-nil _)
  step-texts id (titles now j name) st kept there spared =
      (title-Same id j name now _ st refl).texts ∙ sym (append-nil _)
  step-texts id restarts st kept there spared = sym (append-nil _)

  step-there : (op : Op) (st : Store T) → is_some (step codec op st).db ≡ is_some st.db
  unfolding step extend_messages set_working_set record_run reset conversation delete_session
      create_session reopened rename_session
  step-there (appends now j ms) st = change-there j now (extended ms) ms st
  step-there (compacts now j ms) st = change-there j now (with_set ms) [] st
  step-there (runs now j run_id) st = change-there j now (with_run run_id) [] st
  step-there (resets now j) st = change-there j now (with_set []) [] st
  step-there (reads j) st = (read-Same "" j (Dict.get j st.cache) (load codec j st.db) st).there
  step-there (deletes j) st = is_some-map_option codec _ st.db
  step-there (creates now j name) st = is_some-map_option codec _ st.db
  step-there (renames now j name) st = is_some-map_option codec _ st.db
  step-there (titles now j name) st = (title-Same "" j name now _ st refl).there
  step-there restarts st = refl

  pub run-there : (ops : List Op) (st : Store T) → is_some (run codec ops st).db ≡ is_some st.db
  unfolding run
  run-there [] st = refl
  run-there (op ∷ ops) st = run-there ops (step codec op st) ∙ step-there op st

  -- While a session that is not ephemeral is not deleted, its raw log in the database is the one from
  -- before, then every message that was appended to it, in order: compaction, resets and restarts
  -- leave it alone.
  pub run-texts :
      (id : String) (ops : List Op) (st : Store T)
      → is_ephemeral id ≡ false
      → is_some st.db ≡ true
      → each_of (spares id) ops ≡ true
      → texts id (run codec ops st).db ≡ texts id st.db ++ map (said codec) (all_added id ops)
  unfolding run all_added
  run-texts id [] st kept there spared = sym (append-nil _)
  run-texts id (op ∷ ops) st kept there spared =
      run-texts id ops (step codec op st) kept (step-there op st ∙ there) (ground (arith, spared))
      ∙ ap (λ ts. ts ++ map (said codec) (all_added id ops))
          (step-texts id op st kept there (ground (arith, spared)))
      ∙ append_assoc (texts id st.db) (map (said codec) (added id op)) _
      ∙ ap (λ ts. texts id st.db ++ ts)
          (sym (map-append (said codec) (added id op) (all_added id ops)))
