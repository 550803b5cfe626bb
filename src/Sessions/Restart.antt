-- ===== src/Sessions/Restart.antt =====
-- engine/state.py: a store that is opened again has the conversations that it had.
use argus_agent.Base.{
  ℕ, String, ◌≡◌, refl, sym, ◌∙◌, true, false, not, ◌&&◌, Option, none, some, List, [], arith, ◌==◌,
  string_eq, if◌then◌else◌,
}
use argus_agent.Base.Dict
use argus_agent.Base.Dict.{Dict, map_option, is_some, get-put, get-remove}
use argus_agent.Base.Json.{Json}
use argus_agent.Sessions.{
  is_ephemeral, Session, new_session, Row, Db, Store, Codec, log, upserted, persist, session_of,
  load, cached, save, loaded, opened, get_or_create, logged, change, read, blank_row, insert_row,
  create_session, set_row, renamed, rename_in, rename_session, delete_in, delete_session,
}

-- `json.loads` gives back what `json.dumps` was given.
pub record IsFaithful {T : Type 0} (codec : Codec T) : Type 0 where
  pub loads-dumps : (ms : List Json) → codec.loads (codec.dumps ms) ≡ ms
  pub loads_runs-dumps_runs : (rs : List String) → codec.loads_runs (codec.dumps_runs rs) ≡ rs

-- A store on the same file in a new process.
unfoldable pub reopened : {T : Type 0} → Store T → Store T
reopened st = record st { cache = [] }

module _ {T : Type 0} (codec : Codec T) where
  -- What is cached of a session that is kept is what the database has.
  pub record IsSynced (st : Store T) : Type 0 where
    pub synced :
        (id : String) (s : Session)
        → Dict.get id st.cache ≡ some s
        → is_ephemeral id ≡ false
        → is_some st.db ≡ true
        → load codec id st.db ≡ some s

  module _ (faithful : IsFaithful codec) where
    session_of-upserted :
        (now : ℕ) (id : String) (s : Session) (o : Option (Row T))
        → session_of codec (upserted codec now id s o) ≡ s
    unfolding session_of upserted
    session_of-upserted now id s none =
        ground (arith, faithful.loads-dumps s.conversation, faithful.loads_runs-dumps_runs s.runs)
    session_of-upserted now id s (some row) =
        ground (arith, faithful.loads-dumps s.conversation, faithful.loads_runs-dumps_runs s.runs)

    load-persist :
        (now : ℕ) (id j : String) (s : Session) (o : Option (Db T))
        → load codec j (map_option (persist codec now id s) o)
          ≡ (if id == j && not (is_ephemeral j) && is_some o then some s else load codec j o)
    unfolding load persist
    load-persist now id j s none = ground arith
    load-persist now id j s (some db) = ground (
      arith,
      get-put id j (upserted codec now id s (Dict.get id db.sessions)) db.sessions,
      session_of-upserted now id s (Dict.get id db.sessions),
      string_eq.same_iff id j,
    )

    load-insert_row :
        (now : ℕ) (id j : String) (name : Option String) (o : Option (Db T))
        → load codec j (map_option (insert_row codec now id name) o) ≡ (
            if id == j && not (is_ephemeral j) && is_some o
            then some new_session
            else load codec j o)
    unfolding load insert_row blank_row session_of
    load-insert_row now id j name none = ground arith
    load-insert_row now id j name (some db) = ground (
      arith,
      get-put id j (blank_row codec now id name) db.sessions,
      faithful.loads-dumps [],
      faithful.loads_runs-dumps_runs [],
      string_eq.same_iff id j,
    )

  load-log :
      (now : ℕ) (id j : String) (msgs : List Json) (o : Option (Db T))
      → load codec j (map_option (log codec now id msgs) o) ≡ load codec j o
  unfolding load log
  load-log now id j msgs none = refl
  load-log now id j msgs (some db) = ground arith

  load-delete_in :
      (id j : String) (o : Option (Db T))
      → load codec j (map_option (delete_in id) o) ≡ (if id == j then none else load codec j o)
  unfolding load delete_in
  load-delete_in id j none = ground arith
  load-delete_in id j (some db) = ground (arith, get-remove id j db.sessions)

  set_row-load :
      (id j name : String) (now : ℕ) (r : Option (Row T)) (db : Db T)
      → r ≡ Dict.get id db.sessions
      → load codec j (some (set_row id (renamed now name) r db)) ≡ load codec j (some db)
  unfolding load set_row session_of
  set_row-load id j name now none db e = refl
  set_row-load id j name now (some row) db e =
      ground (arith, get-put id j (renamed now name row) db.sessions, string_eq.same_iff id j)

  load-rename_in :
      (now : ℕ) (id j name : String) (o : Option (Db T))
      → load codec j (map_option (rename_in now id name) o) ≡ load codec j o
  unfolding rename_in
  load-rename_in now id j name none = refl
  load-rename_in now id j name (some db) = set_row-load id j name now _ db refl

  is_some-map_option : (f : Db T → Db T) (o : Option (Db T)) → is_some (map_option f o) ≡ is_some o
  is_some-map_option f none = refl
  is_some-map_option f (some db) = refl

  cached-IsSynced :
      (id : String) (s : Session) (st : Store T)
      → load codec id st.db ≡ some s
      → IsSynced st
      → IsSynced (cached codec id s st)
  cached-IsSynced id s st e h = record {
    synced = λ j t at kept there.
        ground (arith, get-put id j s st.cache, h.synced j t, string_eq.same_iff id j);
  }

  -- Where the cache is left alone and the database gives every session as before.
  same-IsSynced :
      (f : Db T → Db T) (st : Store T)
      → ((j : String) → load codec j (map_option f st.db) ≡ load codec j st.db)
      → IsSynced st
      → IsSynced (record st { db = map_option f st.db })
  same-IsSynced f st same h = record {
    synced = λ j t at kept there.
        same j ∙ h.synced j t at kept (sym (is_some-map_option f st.db) ∙ there);
  }

  module _ (faithful : IsFaithful codec) where
    save-IsSynced :
        (now : ℕ) (id : String) (s : Session) (st : Store T)
        → IsSynced st
        → IsSynced (save codec now id s st)
    unfolding save
    save-IsSynced now id s st h = record {
      synced = λ j t at kept there. ground (
        arith,
        get-put id j s st.cache,
        load-persist faithful now id j s st.db,
        h.synced j t,
        is_some-map_option (persist codec now id s) st.db,
        string_eq.same_iff id j,
      );
    }

    pub create_session-IsSynced :
        (now : ℕ) (id : String) (name : Option String) (st : Store T)
        → IsSynced st
        → IsSynced (create_session codec now id name st)
    unfolding create_session
    create_session-IsSynced now id name st h = record {
      synced = λ j t at kept there. ground (
        arith,
        get-put id j new_session st.cache,
        load-insert_row faithful now id j name st.db,
        h.synced j t,
        is_some-map_option (insert_row codec now id name) st.db,
        string_eq.same_iff id j,
      );
    }

    loaded-IsSynced :
        (now : ℕ) (id : String) (o : Option Session) (st : Store T)
        → o ≡ load codec id st.db
        → IsSynced st
        → IsSynced (loaded codec now id o st).1
    unfolding loaded
    loaded-IsSynced now id none st e h = save-IsSynced now id new_session st h
    loaded-IsSynced now id (some s) st e h = cached-IsSynced id s st (sym e) h

    opened-IsSynced :
        (now : ℕ) (id : String) (o : Option Session) (st : Store T)
        → IsSynced st
        → IsSynced (opened codec now id o st).1
    unfolding opened
    opened-IsSynced now id (some s) st h = h
    opened-IsSynced now id none st h = loaded-IsSynced now id _ st refl h

    pub change-IsSynced :
        (now : ℕ) (id : String) (f : Session → Session) (msgs : List Json) (st : Store T)
        → IsSynced st
        → IsSynced (change codec now id f msgs st)
    unfolding change get_or_create logged
    change-IsSynced now id f msgs st h = save-IsSynced now id _ _ (
        same-IsSynced (log codec now id msgs) _ (λ j. load-log now id j msgs _)
          (opened-IsSynced now id (Dict.get id st.cache) st h))

  pub read-IsSynced :
      (id : String) (o stored : Option Session) (st : Store T)
      → stored ≡ load codec id st.db
      → IsSynced st
      → IsSynced (read codec id o stored st).1
  unfolding read
  read-IsSynced id (some s) stored st e h = h
  read-IsSynced id none (some s) st e h = cached-IsSynced id s st (sym e) h
  read-IsSynced id none none st e h = h

  pub rename-IsSynced :
      (now : ℕ) (id name : String) (st : Store T)
      → IsSynced st
      → IsSynced (rename_session now id name st)
  unfolding rename_session
  rename-IsSynced now id name st h =
      same-IsSynced (rename_in now id name) st (λ j. load-rename_in now id j name st.db) h

  pub delete-IsSynced : (id : String) (st : Store T) → IsSynced st → IsSynced (delete_session id st)
  unfolding delete_session
  delete-IsSynced id st h = record {
    synced = λ j t at kept there. ground (
      arith,
      get-remove id j st.cache,
      load-delete_in id j st.db,
      h.synced j t,
      is_some-map_option (delete_in id) st.db,
    );
  }
