-- ===== src/Sessions/Log.antt =====
-- engine/state.py: the raw log of a session only grows.
use argus_agent.Base.{
  ℕ, suc, String, ◌≡◌, refl, sym, ap, ◌∙◌, Bool, true, false, not, Option, none, some, List, [],
  ◌∷◌, ◌++◌, map, arith, ◌==◌, string_eq, keep, if◌then◌else◌, Bool-cases, inl, inr,
}
use mathlib.Core.List.{append-nil, map-append}
use argus_agent.Base.Dict
use argus_agent.Base.Dict.{Dict, map_option, is_some}
use argus_agent.Base.Json.{Json}
use argus_agent.Sessions.{
  is_ephemeral, Session, Message, Db, Store, Codec, log, role_of, content_of, entry, entries,
  next_seq, persist, save, loaded, opened, get_or_create, logged, change, messages_of,
}

abbrev pub text_of : Message → String × String
text_of m = (m.role, m.content)

-- The raw log of a session, as roles and contents.
unfoldable pub texts : {T : Type 0} → String → Option (Db T) → List (String × String)
unfolding messages_of
texts id o = map text_of (messages_of id o)

keep-append :
    (p : Message → Bool) (xs ys : List Message) → keep p (xs ++ ys) ≡ keep p xs ++ keep p ys
keep-append p [] ys = refl
keep-append p (x ∷ xs) ys = ground (arith, keep-append p xs ys)

-- A session's log is left alone when another session is deleted.
pub keep-delete :
    (id j : String) (ms : List Message)
    → (j == id) ≡ false
    → keep (λ m. m.session_id == id) (keep (λ m. not (m.session_id == j)) ms)
      ≡ keep (λ m. m.session_id == id) ms
keep-delete id j [] other = refl
keep-delete id j (m ∷ ms) other = ground (
  arith,
  keep-delete id j ms,
  string_eq.same_iff m.session_id id,
  string_eq.same_iff m.session_id j,
  string_eq.same_iff j id,
)

module _ {T : Type 0} (codec : Codec T) where
  -- A message as the log has it.
  pub said : Json → String × String
  unfolding role_of content_of
  said m = (role_of codec m, content_of codec m)

  keep-entries :
      (id j : String) (now seq : ℕ) (ms : List Json)
      → map text_of (keep (λ m. m.session_id == id) (entries codec j now seq ms))
        ≡ map said (if j == id then ms else [])
  unfolding entries entry said
  keep-entries id j now seq [] = ground arith
  keep-entries id j now seq (m ∷ ms) = ground (arith, keep-entries id j now (suc seq) ms)

  log-texts :
      (id j : String) (now : ℕ) (ms : List Json) (o : Option (Db T))
      → is_ephemeral id ≡ false
      → is_some o ≡ true
      → texts id (map_option (log codec now j ms) o)
        ≡ texts id o ++ map said (if j == id then ms else [])
  unfolding texts messages_of log
  log-texts id j now ms none kept there = ground (arith, there)
  log-texts id j now ms (some db) kept there = elim (Bool-cases (is_ephemeral j)) [
    | inl e ↦ elim (Bool-cases (j == id)) [
      | inl same ↦ absurd (cc (ap is_ephemeral ((string_eq.same_iff j id).0 same), e, kept))
      | inr other ↦ rw (other, e, log) (sym (append-nil (texts id (some db))))
    ]
    | inr e ↦
        rw (e, log)
          (ap (map text_of) (
              keep-append (λ m. m.session_id == id) db.messages
                (entries codec j now (next_seq j db.messages) ms))
            ∙ map-append text_of (keep (λ m. m.session_id == id) db.messages) _
            ∙ ap (λ ts. texts id (some db) ++ ts)
                (keep-entries id j now (next_seq j db.messages) ms))
  ]

  persist-texts :
      (id j : String) (now : ℕ) (s : Session) (o : Option (Db T))
      → texts id (map_option (persist codec now j s) o) ≡ texts id o
  unfolding texts messages_of persist
  persist-texts id j now s none = refl
  persist-texts id j now s (some db) = ground arith

  pub is_some-map_option :
      (f : Db T → Db T) (o : Option (Db T)) → is_some (map_option f o) ≡ is_some o
  is_some-map_option f none = refl
  is_some-map_option f (some db) = refl

  -- Neither the log nor whether there is a database changes.
  pub record Same (id : String) (st st' : Store T) : Type 0 where
    pub texts : texts id st'.db ≡ texts id st.db
    pub there : is_some st'.db ≡ is_some st.db

  loaded-Same :
      (id j : String) (now : ℕ) (o : Option Session) (st : Store T)
      → Same id st (loaded codec now j o st).1
  unfolding loaded save
  loaded-Same id j now none st = record {
    texts = persist-texts id j now _ st.db;
    there = is_some-map_option _ st.db;
  }
  loaded-Same id j now (some s) st = record { texts = refl; there = refl }

  pub opened-Same :
      (id j : String) (now : ℕ) (o : Option Session) (st : Store T)
      → Same id st (opened codec now j o st).1
  unfolding opened
  opened-Same id j now none st = loaded-Same id j now _ st
  opened-Same id j now (some s) st = record { texts = refl; there = refl }

  pub change-texts :
      (id j : String) (now : ℕ) (f : Session → Session) (ms : List Json) (st : Store T)
      → is_ephemeral id ≡ false
      → is_some st.db ≡ true
      → texts id (change codec now j f ms st).db
        ≡ texts id st.db ++ map said (if j == id then ms else [])
  unfolding change get_or_create save logged
  change-texts id j now f ms st kept there =
      let same = opened-Same id j now (Dict.get j st.cache) st in
      persist-texts id j now _ _
      ∙ log-texts id j now ms _ kept (same.there ∙ there)
      ∙ ap (λ ts. ts ++ map said (if j == id then ms else [])) same.texts
