-- ===== src/Sessions/Runs.antt =====
-- engine/state.py: any run of operations, with restarts in between.
use argus_agent.Base.{
  ℕ, String, ◌≡◌, refl, sym, true, false, Option, none, some, List, [], ◌∷◌, arith, ◌==◌, string_eq,
  Bool-cases, Option-cases, inl, inr,
}
use argus_agent.Base.Dict
use argus_agent.Base.Dict.{Dict, map_option, is_some}
use argus_agent.Base.Json.{Json}
use argus_agent.Sessions.{
  is_ephemeral, Session, extended, with_set, with_run, Store, Codec, load, extend_messages,
  set_working_set, record_run, reset, read, conversation, create_session, rename_session,
  rename_if_placeholder, session_name, delete_session,
}
use argus_agent.Sessions.Restart.{
  IsFaithful, IsSynced, reopened, change-IsSynced, create_session-IsSynced, read-IsSynced,
  rename-IsSynced, delete-IsSynced,
}

-- What is done to a store; `restarts` opens it again.
pub data Op : Type 0 where
  appends compacts : ℕ → String → List Json → Op
  runs : ℕ → String → String → Op
  resets : ℕ → String → Op
  reads deletes : String → Op
  creates : ℕ → String → Option String → Op
  renames titles : ℕ → String → String → Op
  restarts : Op

module _ {T : Type 0} (codec : Codec T) where
  unfoldable pub step : Op → Store T → Store T
  step (appends now id ms) st = extend_messages codec now id ms st
  step (compacts now id ms) st = set_working_set codec now id ms st
  step (runs now id run) st = record_run codec now id run st
  step (resets now id) st = reset codec now id st
  step (reads id) st = (conversation codec id st).1
  step (deletes id) st = delete_session id st
  step (creates now id name) st = create_session codec now id name st
  step (renames now id name) st = rename_session now id name st
  step (titles now id name) st = (rename_if_placeholder now id name st).1
  step restarts st = reopened st

  unfoldable pub run : List Op → Store T → Store T
  unfolding step
  run [] st = st
  run (op ∷ ops) st = run ops (step op st)

  title-IsSynced :
      (now : ℕ) (id name : String) (o : Option String) (st : Store T)
      → o ≡ session_name id st
      → IsSynced codec st
      → IsSynced codec (rename_if_placeholder now id name st).1
  unfolding rename_if_placeholder
  title-IsSynced now id name none st e h = rw (← e, rename_if_placeholder) h
  title-IsSynced now id name (some old) st e h = elim (Bool-cases (old == id)) [
    | inl b ↦ rw (← e, rename_if_placeholder, b) (rename-IsSynced codec now id name st h)
    | inr b ↦ rw (← e, rename_if_placeholder, b) h
  ]

  step-IsSynced :
      IsFaithful codec → (op : Op) (st : Store T) → IsSynced codec st → IsSynced codec (step op st)
  unfolding step extend_messages set_working_set record_run reset conversation reopened Dict.get
  step-IsSynced f (appends now id ms) st h = change-IsSynced codec f now id (extended ms) ms st h
  step-IsSynced f (compacts now id ms) st h = change-IsSynced codec f now id (with_set ms) [] st h
  step-IsSynced f (runs now id run_id) st h =
      change-IsSynced codec f now id (with_run run_id) [] st h
  step-IsSynced f (resets now id) st h = change-IsSynced codec f now id (with_set []) [] st h
  step-IsSynced f (reads id) st h = read-IsSynced codec id (Dict.get id st.cache) _ st refl h
  step-IsSynced f (deletes id) st h = delete-IsSynced codec id st h
  step-IsSynced f (creates now id name) st h = create_session-IsSynced codec f now id name st h
  step-IsSynced f (renames now id name) st h = rename-IsSynced codec now id name st h
  step-IsSynced f (titles now id name) st h = title-IsSynced now id name _ st refl h
  step-IsSynced f restarts st h = record { synced = λ j t at kept there. ground (arith, at) }

  run-IsSynced :
      IsFaithful codec
      → (ops : List Op) (st : Store T) → IsSynced codec st
      → IsSynced codec (run ops st)
  unfolding run
  run-IsSynced f [] st h = h
  run-IsSynced f (op ∷ ops) st h = run-IsSynced f ops (step op st) (step-IsSynced f op st h)

  read-reopened :
      (id : String) (o : Option Session) (st : Store T)
      → o ≡ Dict.get id st.cache
      → IsSynced codec st
      → is_ephemeral id ≡ false
      → is_some st.db ≡ true
      → (read codec id none (load codec id st.db) (reopened st)).0
        ≡ (read codec id o (load codec id st.db) st).0
  unfolding read
  read-reopened id none st e h kept there = elim (Option-cases (load codec id st.db)) [
    | inl gone ↦ rw gone
    | inr (s, at) ↦ rw at
  ]
  read-reopened id (some s) st e h kept there = rw (h.synced id s (sym e) kept there) refl

  -- Whatever was done to the store on a database, with restarts in between, from a start where what
  -- is cached is in the database: a store opened on its database then has the same conversation for
  -- every session that is not ephemeral.
  pub conversation-reopened :
      IsFaithful codec
      → (ops : List Op) (st : Store T) → IsSynced codec st
      → (id : String) → is_ephemeral id ≡ false
      → is_some (run ops st).db ≡ true
      → (conversation codec id (reopened (run ops st))).0 ≡ (conversation codec id (run ops st)).0
  unfolding conversation reopened Dict.get
  conversation-reopened f ops st h id kept there =
      read-reopened id _ (run ops st) refl (run-IsSynced f ops st h) kept there
