-- ===== src/Profiles/Store/Sessions.antt =====
-- Which profile a session runs under, before and after a call.
use argus_agent.Base.{
  String, ◌≡◌, refl, true, false, Option, none, some, [], ◌∷◌, arith, ◌==◌, nat_eq, string_eq,
  pair_eq, if◌then◌else◌, Bool-cases, inl, inr,
}
use argus_agent.Base.Dict
use argus_agent.Base.Dict.{
  Dict, has, is_some, has-put, has-remove, has-put_self, has-put_keeps, has-remove_keeps,
  has_of_get, get-put, get-remove, map_values, map_option, get-map_values, Each, Each-get,
}
use argus_agent.Base.Result.{ok, ◌>>=◌, ◌>>◌, refuse}
use argus_agent.Base.Text
use argus_agent.Profiles.{Profile}
use argus_agent.Profiles.Store.{
  ProfileStore, name_for_session, bound_name, delete, rename, renamed, or_raise, is_used,
}
use argus_agent.Profiles.Store.Invariant.{Inv, active_has}

has-name_for_session :
    (s : ProfileStore) (session k : String)
    → Inv s
    → has k s.profiles ≡ true
    → has (name_for_session session s) s.profiles ≡ true
unfolding name_for_session
has-name_for_session s session k h e = ground (arith, active_has s k h e)

get_of_has : {A : Type 0} (o : Option A) → is_some o ≡ true → (a : A) × (o ≡ some a)
get_of_has none h = cc
get_of_has (some a) h = (a, refl)

delete_ok :
    (s s' : ProfileStore) (name : String)
    → delete name s ≡ ok s'
    → ((name == s.active) ≡ false)
      × (is_used name s.sessions ≡ false)
      × (s' ≡ record s { profiles = Dict.remove name s.profiles })
unfolding delete refuse ◌>>◌ ◌>>=◌
delete_ok s s' name e = ground arith

get-unused :
    (name session n : String) (d : Dict String String)
    → is_used name d ≡ false
    → Dict.get session d ≡ some n
    → (name == n) ≡ false
unfolding is_used Dict.get
get-unused name session n [] free e = cc
get-unused name session n ((k, m) ∷ d) free e =
    ground
      (arith, get-unused name session n d, string_eq.same_iff m name, string_eq.same_iff name n)

bound_name-remove :
    (s : ProfileStore) (name : String) (o : Option String)
    → (name == s.active) ≡ false
    → ((n : String) → o ≡ some n → (name == n) ≡ false)
    → Dict.get
        (bound_name (record s { profiles = Dict.remove name s.profiles }) o)
        (Dict.remove name s.profiles)
      ≡ Dict.get (bound_name s o) s.profiles
unfolding bound_name
bound_name-remove s name none other free = ground (arith, get-remove name s.active s.profiles)
bound_name-remove s name (some n) other free =
    ground (arith, free n refl, get-remove name s.active s.profiles, get-remove name n s.profiles)

has-renamed :
    (s : ProfileStore) (old new n : String) (p : Profile)
    → has n s.profiles ≡ true
    → has
        (if n == old then new else n)
        (Dict.put new (record p { name = new }) (Dict.remove old s.profiles))
      ≡ true
has-renamed s old new n p known = elim (Bool-cases (n == old)) [
  | inl same ↦ rw same (has-put_self new (record p { name = new }) (Dict.remove old s.profiles))
  | inr other ↦ rw other (
      has-put_keeps new n (record p { name = new }) (Dict.remove old s.profiles)
        (has-remove_keeps old n s.profiles
          (ground (arith, string_eq.same_iff n old, string_eq.same_iff old n)) known))
]

bound_name-rename :
    (s : ProfileStore) (old new : String) (p : Profile) (o : Option String)
    → Dict.get old s.profiles ≡ some p
    → (old == "") ≡ false
    → (new == "") ≡ false
    → ((n : String) → o ≡ some n → has n s.profiles ≡ true)
    → bound_name (renamed old new p s) (map_option (λ n. if n == old then new else n) o)
      ≡ (if bound_name s o == old then new else bound_name s o)
unfolding bound_name renamed
bound_name-rename s old new p none found old_named new_named known = refl
bound_name-rename s old new p (some n) found old_named new_named known =
    rw (has-renamed s old new n p (known n refl), known n refl)
      (ground (arith, string_eq.same_iff n old, string_eq.same_iff n ""))

rename_ok :
    (s s' : ProfileStore) (old wanted : String)
    → rename old wanted s ≡ ok s'
    → (p : Profile) × (Dict.get old s.profiles ≡ some p)
      × ((Text.strip wanted == "") ≡ false)
      × (s' ≡ renamed old (Text.strip wanted) p s)
unfolding rename or_raise refuse ◌>>◌ ◌>>=◌
rename_ok s s' old wanted e = ground arith

-- Renaming moves the sessions of the old name to the new one, and leaves the others where they were.
name_for_session-rename :
    (s s' : ProfileStore) (old wanted session : String)
    → Inv s
    → (old == "") ≡ false
    → rename old wanted s ≡ ok s'
    → name_for_session session s' ≡ (
        if name_for_session session s == old then Text.strip wanted else name_for_session session s)
unfolding name_for_session renamed
name_for_session-rename s s' old wanted session h named e =
    let (p, found, new_named, same) = rename_ok s s' old wanted e in
    rw (same, get-map_values)
      (bound_name-rename s old (Text.strip wanted) p (Dict.get session s.sessions) found named
        new_named
        (λ n g. Each-get (λ _ m. has m s.profiles ≡ true) session n s.sessions h.sessions_known g))
