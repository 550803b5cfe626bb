-- ===== src/Routines/Reload.antt =====
-- engine/routines/store.py: a store that is loaded from its directory has the routines that it had.
use argus_agent.Base.{
  String, Bool, true, not, ◌||◌, each_of, subst, ◌≡◌, refl, sym, ap, ◌∙◌, Option, none, some, List,
  [], ◌∷◌, arith, ◌==◌, string_eq, All, if◌then◌else◌, Bool-cases, inl, inr, some_eq,
}
use argus_agent.Base.Dict
use argus_agent.Base.Dict.{Dict, map_option, is_some, has, get-put, get-remove}
use argus_agent.Base.Result.{Result, ok, err, ◌>>=◌}
use argus_agent.Routines.{
  Routine, validate_routine, RoutineStore, keep_valid, read_valid, loaded_routine, load_dir, save,
  delete,
}
use argus_agent.Routines.Saved.{validate_routine-again}

-- What is done to a store.
pub data Act : Type 0 where
  saves : Option (List String) → Option (List String) → Routine → Act
  deletes : Bool → String → Act

-- No deletion of the routine `j` leaves its file.
unfoldable pub removes : String → Act → Bool
removes j (saves kt ks r) = true
removes j (deletes removed name) = removed || not (name == j)

module _ {T : Type 0} (dump : Routine → T) where
  -- What is left of a save, which may be refused.
  after_save : RoutineStore T → Result String (RoutineStore T) → RoutineStore T
  after_save st (ok saved) = saved
  after_save st (err e) = st

  unfoldable pub act : Act → RoutineStore T → RoutineStore T
  unfolding after_save
  act (saves known_tools known_skills r) st =
      after_save st (save dump known_tools known_skills r st)
  act (deletes removed name) st = (delete removed name st).1

  unfoldable pub run : List Act → RoutineStore T → RoutineStore T
  unfolding act
  run [] st = st
  run (a ∷ acts) st = run acts (act a st)

  -- Every file holds a valid routine, under its name, and the file of `j` is that of the routine `j`.
  pub record IsStored (j : String) (st : RoutineStore T) : Type 0 where
    pub sound :
        (k : String) (text : T)
        → Dict.get k st.files ≡ some text
        → (r : Routine) × (text ≡ dump r) × (validate_routine none none r ≡ ok r) × (r.name ≡ k)
    pub filed : Dict.get j st.files ≡ map_option dump (Dict.get j st.routines)

  stored_with : Routine → RoutineStore T → RoutineStore T
  stored_with v st = record {
    routines = Dict.put v.name v st.routines;
    files = Dict.put v.name (dump v) st.files;
  }

  stored_with-IsStored :
      (j : String) (v : Routine) (st : RoutineStore T)
      → validate_routine none none v ≡ ok v
      → IsStored j st
      → IsStored j (stored_with v st)
  unfolding stored_with
  stored_with-IsStored j v st valid h = record {
    sound = λ k text at. elim (Bool-cases (v.name == k)) [
      | inl same ↦
          let e = some_eq (sym (rw same at (get-put v.name k (dump v) st.files)) ∙ at) in
          (v, sym e, valid, (string_eq.same_iff v.name k).0 same)
      | inr differs ↦ h.sound k text (sym (rw differs at (get-put v.name k (dump v) st.files)) ∙ at)
    ];
    filed =
        get-put v.name j (dump v) st.files
        ∙ ground (arith, h.filed, get-put v.name j v st.routines);
  }

  after_save-IsStored :
      (j : String) (kt ks : Option (List String)) (r : Routine) (st : RoutineStore T)
      (checked : Result String Routine)
      → checked ≡ validate_routine kt ks r
      → IsStored j st
      → IsStored j (after_save st (checked >>= λ v. ok (stored_with v st)))
  unfolding after_save ◌>>=◌
  after_save-IsStored j kt ks r st (ok v) e h =
      stored_with-IsStored j v st (validate_routine-again kt ks r v (sym e)).0 h
  after_save-IsStored j kt ks r st (err m) e h = h

  left_over :
      (removed : Bool) (name k : String) (text : T) (files : Dict String T)
      → Dict.get k (if removed then Dict.remove name files else files) ≡ some text
      → Dict.get k files ≡ some text
  left_over removed name k text files at = ground (arith, at, get-remove name k files)

  delete-IsStored :
      (j : String) (removed : Bool) (name : String) (st : RoutineStore T)
      → (removed || not (name == j)) ≡ true
      → IsStored j st
      → IsStored j (delete removed name st).1
  unfolding delete
  delete-IsStored j removed name st gone h =
      elim (Bool-cases (is_some (Dict.get name st.routines))) [
        | inl there ↦ rw there (record {
          sound = λ k text at. h.sound k text (left_over removed name k text st.files at);
          filed =
              ground
                (arith, gone, get-remove name j st.routines, get-remove name j st.files, h.filed);
        })
        | inr missing ↦ rw missing h
      ]

  run-IsStored :
      (j : String) (acts : List Act) (st : RoutineStore T)
      → each_of (removes j) acts ≡ true
      → IsStored j st
      → IsStored j (run acts st)
  unfolding run act save stored_with removes
  run-IsStored j [] st gone h = h
  run-IsStored j (saves kt ks r ∷ acts) st gone h =
      run-IsStored j acts _ gone
        (after_save-IsStored j kt ks r st (validate_routine kt ks r) refl h)
  run-IsStored j (deletes removed name ∷ acts) st gone h =
      run-IsStored j acts _ (ground (arith, gone))
        (delete-IsStored j removed name st (ground (arith, gone)) h)

  -- The listing of a directory: each file once or more often, with what is in it.
  pub record IsListing (listing files : Dict String T) : Type 0 where
    pub each : All (λ e. Dict.get e.0 files ≡ some e.1) listing
    pub all : (k : String) → Dict.get k listing ≡ Dict.get k files

  module _ (loads : T → Option Routine) (faithful : (r : Routine) → loads (dump r) ≡ some r) where
    kept_routine :
        (text : T) (r : Routine) (acc : Dict String Routine)
        → loads text ≡ some r
        → validate_routine none none r ≡ ok r
        → keep_valid (loaded_routine loads text) acc ≡ Dict.put r.name r acc
    unfolding keep_valid loaded_routine read_valid
    kept_routine text r acc read valid =
        ap (λ o. keep_valid (read_valid o) acc) read ∙ ap (λ v. keep_valid v acc) valid

    loaded :
        (k j : String) (text : T) (st : RoutineStore T) (acc : Dict String Routine)
        → IsStored j st
        → Dict.get k st.files ≡ some text
        → (r : Routine) × (loads text ≡ some r)
          × (Dict.get j (keep_valid (loaded_routine loads text) acc)
              ≡ (if k == j then some r else Dict.get j acc))
    loaded k j text st acc h at =
        let (r, e, valid, name_is) = h.sound k text at in
        let read = ap loads e ∙ faithful r in
        (
          r,
          read,
          ap (Dict.get j) (kept_routine text r acc read valid)
              ∙ get-put r.name j r acc
              ∙ ap (λ i. if i == j then some r else Dict.get j acc) name_is,
        )

    -- What the file of `j` reads as is the routine `j`.
    reads_back :
        (j : String) (text : T) (r : Routine) (o : Option Routine)
        → some text ≡ map_option dump o
        → loads text ≡ some r
        → some r ≡ o
    reads_back j text r none e read = cc
    reads_back j text r (some q) e read = sym read ∙ ap loads (some_eq e) ∙ faithful q

    load_one :
        (k j : String) (text : T) (st : RoutineStore T) (acc : Dict String Routine)
        → IsStored j st
        → Dict.get k st.files ≡ some text
        → Dict.get j (keep_valid (loaded_routine loads text) acc)
          ≡ (if k == j then Dict.get j st.routines else Dict.get j acc)
    load_one k j text st acc h at =
        let (r, read, e) = loaded k j text st acc h at in
        elim (Bool-cases (k == j)) [
          | inl same ↦
              let here : some text ≡ map_option dump (Dict.get j st.routines) =
                sym (
                  subst (λ i. Dict.get i st.files ≡ some text) ((string_eq.same_iff k j).0 same) at)
                ∙ h.filed in
              e ∙ rw same (reads_back j text r (Dict.get j st.routines) here read)
          | inr other ↦ e ∙ rw other refl
        ]

    load_dir-get :
        (listing : Dict String T) (st : RoutineStore T) (acc : Dict String Routine) (j : String)
        → IsStored j st
        → All (λ e. Dict.get e.0 st.files ≡ some e.1) listing
        → Dict.get j (load_dir loads listing acc)
          ≡ (if has j listing then Dict.get j st.routines else Dict.get j acc)
    unfolding load_dir Dict.get
    load_dir-get [] st acc j h each = refl
    load_dir-get ((k, text) ∷ listing) st acc j h each =
        load_dir-get listing st (keep_valid (loaded_routine loads text) acc) j h each.1
        ∙ ground (arith, load_one k j text st acc h each.0)

    -- However routines were saved and deleted, on a directory and a store that were empty: if the file of
    -- the routine `j` could be removed whenever `j` was deleted, loading the listing of the directory
    -- gives `j` as it was in memory.
    pub load_dir-run :
        (acts : List Act) (listing : Dict String T) (j : String)
        → each_of (removes j) acts ≡ true
        → IsListing listing (run acts (record { routines = []; files = [] })).files
        → Dict.get j (load_dir loads listing [])
          ≡ Dict.get j (run acts (record { routines = []; files = [] })).routines
    unfolding Dict.get
    load_dir-run acts listing j gone listed =
        let st = run acts (record { routines = []; files = [] }) in
        let h =
          run-IsStored j acts (record { routines = []; files = [] }) gone
            (record { sound = λ k text at. cc; filed = refl }) in
        load_dir-get listing st [] j h listed.each ∙ ground (arith, listed.all j, h.filed)
