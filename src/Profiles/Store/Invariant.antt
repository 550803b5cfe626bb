-- ===== src/Profiles/Store/Invariant.antt =====
-- What holds of the profile store after every call, whatever raised.
use argus_agent.Base.{
  ℕ, String, ◌≡◌, refl, subst, Bool, true, false, not, Option, none, some, List, [], ◌∷◌, arith,
  ◌==◌, nat_eq, string_eq, pair_eq, elem, if◌then◌else◌, Bool-cases, Option-cases, inl, inr, ◌⊎◌,
}
use argus_agent.Base.Dict
use argus_agent.Base.Dict.{
  Dict, has, has-put, has-remove, has-put_self, has-put_keeps, has-remove_keeps, has_of_get,
  Each-map_values, get-put, get-remove, map_values, Each, Each-map, Each-put, Each-remove,
}
use argus_agent.Base.Result.{◌>>=◌, ◌>>◌, refuse}
use argus_agent.Base.Text
use argus_agent.Approvals.Types.{State, states_for, state_eq}
use argus_agent.Profiles.{Profile}
use argus_agent.Profiles.Store.{
  ProfileStore, stamped, save_profile, ensure_default, create, duplicate, renamed, rename, delete,
  set_default, bind, unbind, pin_tool, Call, step, run, empty, is_used, is_empty, creates,
  duplicates, renames, deletes, sets_default, unbinds, binds, pins_tool, ensures_default, after,
  or_same, Outcome, Error, or_raise, copy_as,
}

pub record Inv (s : ProfileStore) : Type 0 where
  -- A record stands under its own name.
  pub named : Each (λ k (p : Profile). p.name ≡ k) s.profiles
  -- The default is a profile, or there is none yet.
  pub active_known : (has s.active s.profiles ≡ true) ⊎ ((s.profiles ≡ []) × (s.active ≡ ""))
  -- A session is bound to a profile.
  pub sessions_known : Each (λ _ n. has n s.profiles ≡ true) s.sessions

false-true : false ≡ true → ⊥
false-true e = cc

not-not : (b : Bool) → not b ≡ false → b ≡ true
not-not b h = ground arith

save_profile-Inv : (p : Profile) (now : ℕ) (s : ProfileStore) → Inv s → Inv (save_profile p now s)
unfolding save_profile
save_profile-Inv p now s h = record {
  named = Each-put (λ k (q : Profile). q.name ≡ k) p.name _ s.profiles refl h.named;
  active_known = inl (
      ground (
        arith,
        h.active_known,
        has-put_keeps p.name s.active (stamped p now) s.profiles,
        has-put_self p.name (stamped p now) s.profiles,
        string_eq.same_iff s.active "",
      ));
  sessions_known =
      Each-map (λ k n e. has-put_keeps p.name n (stamped p now) s.profiles e) s.sessions
        h.sessions_known;
}

-- In a store with a profile the default is one.
pub active_has :
    (s : ProfileStore) (k : String)
    → Inv s
    → has k s.profiles ≡ true
    → has s.active s.profiles ≡ true
unfolding Dict.get
active_has s k h e = elim h.active_known [
  | inl known ↦ known
  | inr (none_yet, _) ↦
      absurd (false-true (subst (λ (d : Dict String Profile). has k d ≡ true) none_yet e))
]

-- `P` holds of the store after a call, which raises or not.
record Leaves (P : ProfileStore → Type 0) (s : ProfileStore) (r : Outcome) : Type 0 where
  at : P (after s r)

module _ {s : ProfileStore} {P : ProfileStore → Type 0} (unchanged : P s) where
  refuse-Leaves :
      (b : Bool) (e : Error) (k : Outcome)
      → (b ≡ false → Leaves P s k)
      → Leaves P s (refuse b e >> k)
  unfolding ◌>>◌ refuse
  refuse-Leaves true e k h = record { at = unchanged }
  refuse-Leaves false e k h = h refl

  or_raise-Leaves :
      (o : Option Profile) (k : Profile → Outcome)
      → ((p : Profile) → o ≡ some p → Leaves P s (k p))
      → Leaves P s (or_raise o >>= k)
  unfolding or_raise ◌>>=◌
  or_raise-Leaves none k h = record { at = unchanged }
  or_raise-Leaves (some p) k h = h p refl

ensure_default-Inv :
    (p : Profile) (now : ℕ) (s : ProfileStore) → Inv s → Inv (ensure_default p now s)
unfolding ensure_default
ensure_default-Inv p now s h = elim (Bool-cases (is_empty s.profiles)) [
  | inr some_already ↦ rw some_already h
  | inl none_yet ↦ rw none_yet (record {
    named = Each-put (λ k (q : Profile). q.name ≡ k) p.name _ s.profiles refl h.named;
    active_known = inl (has-put_self p.name _ s.profiles);
    sessions_known =
        Each-map (λ k n e. has-put_keeps p.name n _ s.profiles e) s.sessions h.sessions_known;
  })
]

create-Inv : (p : Profile) (now : ℕ) (s : ProfileStore) → Inv s → Leaves Inv s (create p now s)
unfolding create
create-Inv p now s h =
    refuse-Leaves h _ _ _ λ _. refuse-Leaves h _ _ _ λ _. record { at = save_profile-Inv p now s h }

duplicate-Inv :
    (source new_name description : String) (now : ℕ) (s : ProfileStore)
    → Inv s
    → Leaves Inv s (duplicate source new_name description now s)
unfolding duplicate
duplicate-Inv source new_name description now s h = or_raise-Leaves h _ _ λ p _.
    refuse-Leaves h _ _ _ λ _.
      refuse-Leaves h _ _ _
        λ _. record { at = save_profile-Inv (copy_as new_name description now p) now s h }

renamed-Inv :
    (old new : String) (p : Profile) (s : ProfileStore)
    → Dict.get old s.profiles ≡ some p
    → Inv s
    → Inv (renamed old new p s)
unfolding renamed
renamed-Inv old new p s e h = record {
  named =
      Each-put (λ k (q : Profile). q.name ≡ k) new _ _ refl
        (Each-remove (λ k (q : Profile). q.name ≡ k) old s.profiles h.named);
  active_known = inl (moved s.active (active_has s old h (has_of_get old p s.profiles e)));
  sessions_known =
      Each-map_values
        (λ _ n. has n (Dict.put new (record p { name = new }) (Dict.remove old s.profiles)) ≡ true)
        (λ n. if n == old then new else n) (λ k n known. moved n known) s.sessions h.sessions_known;
}
  where
    moved :
        (n : String)
        → has n s.profiles ≡ true
        → has
            (if n == old then new else n)
            (Dict.put new (record p { name = new }) (Dict.remove old s.profiles))
          ≡ true
    moved n known = ground (
      arith,
      has-put_self new (record p { name = new }) (Dict.remove old s.profiles),
      has-put_keeps new n (record p { name = new }) (Dict.remove old s.profiles),
      has-remove_keeps old n s.profiles,
      string_eq.same_iff n old,
      string_eq.same_iff old n,
    )

rename-Inv : (old wanted : String) (s : ProfileStore) → Inv s → Leaves Inv s (rename old wanted s)
unfolding rename
rename-Inv old wanted s h = or_raise-Leaves h _ _ λ p e.
    refuse-Leaves h _ _ _
      λ _. refuse-Leaves h _ _ _ λ _. record { at = renamed-Inv old (Text.strip wanted) p s e h }

-- An unused profile is not the one that a session is bound to.
unused :
    (name : String) (profiles : Dict String Profile) (d : Dict String String)
    → is_used name d ≡ false
    → Each (λ _ n. has n profiles ≡ true) d
    → Each (λ _ n. has n (Dict.remove name profiles) ≡ true) d
unfolding is_used
unused name profiles [] h k = tt
unused name profiles ((session, n) ∷ d) h k = (
  has-remove_keeps name n profiles
      (ground (arith, string_eq.same_iff name n, string_eq.same_iff n name)) k.0,
  unused name profiles d (ground arith) k.1,
)

delete-Inv : (name : String) (s : ProfileStore) → Inv s → Leaves Inv s (delete name s)
unfolding delete
delete-Inv name s h = refuse-Leaves h _ _ _ λ known. refuse-Leaves h _ _ _ λ _.
    refuse-Leaves h _ _ _ λ other. refuse-Leaves h _ _ _ λ free. record {
      at = record {
        named = Each-remove (λ k (q : Profile). q.name ≡ k) name s.profiles h.named;
        active_known = inl (
            has-remove_keeps name s.active s.profiles other
              (active_has s name h (not-not (has name s.profiles) known)));
        sessions_known = unused name s.profiles s.sessions free h.sessions_known;
      };
    }

set_default-Inv : (name : String) (s : ProfileStore) → Inv s → Leaves Inv s (set_default name s)
unfolding set_default
set_default-Inv name s h = or_raise-Leaves h _ _ λ p e. record {
  at = record {
    named = h.named;
    active_known = inl (has_of_get name p s.profiles e);
    sessions_known = h.sessions_known;
  };
}

bind-Inv : (session name : String) (s : ProfileStore) → Inv s → Leaves Inv s (bind session name s)
unfolding bind
bind-Inv session name s h = or_raise-Leaves h _ _ λ p e. refuse-Leaves h _ _ _ λ _. record {
  at = record {
    named = h.named;
    active_known = h.active_known;
    sessions_known =
        Each-put (λ _ n. has n s.profiles ≡ true) session name s.sessions
          (has_of_get name p s.profiles e) h.sessions_known;
  };
}

unbind-Inv : (session : String) (s : ProfileStore) → Inv s → Inv (unbind session s)
unfolding unbind
unbind-Inv session s h = record {
  named = h.named;
  active_known = h.active_known;
  sessions_known = Each-remove (λ _ n. has n s.profiles ≡ true) session s.sessions h.sessions_known;
}

pub pin_tool-Inv :
    (name key : String) (state : State) (now : ℕ) (s : ProfileStore)
    → Inv s
    → Inv (or_same s (pin_tool name key state now s))
unfolding pin_tool
pin_tool-Inv name key state now s h = elim (Bool-cases (elem state (states_for key))) [
  | inr refused ↦ rw refused h
  | inl fits ↦ elim (Option-cases (Dict.get name s.profiles)) [
    | inl missing ↦ rw (fits, missing, pin_tool) h
    | inr (p, found) ↦ rw (fits, found, pin_tool) (save_profile-Inv _ now s h)
  ]
]

pub step-Inv : (c : Call) (s : ProfileStore) → Inv s → Inv (step c s)
unfolding step
step-Inv (ensures_default p now) s h = ensure_default-Inv p now s h
step-Inv (creates p now) s h = (create-Inv p now s h).at
step-Inv (duplicates source name description now) s h =
    (duplicate-Inv source name description now s h).at
step-Inv (renames old new) s h = (rename-Inv old new s h).at
step-Inv (deletes name) s h = (delete-Inv name s h).at
step-Inv (sets_default name) s h = (set_default-Inv name s h).at
step-Inv (unbinds session) s h = unbind-Inv session s h
step-Inv (binds session name) s h = (bind-Inv session name s h).at
step-Inv (pins_tool name key state now) s h = pin_tool-Inv name key state now s h

-- After any calls, whether they raise or not: each record stands under its own name, every bound
-- session has an existing profile, and the default is an existing profile once there is any.
pub run-Inv : (calls : List Call) (s : ProfileStore) → Inv s → Inv (run calls s)
unfolding run
run-Inv [] s h = h
run-Inv (c ∷ cs) s h = run-Inv cs (step c s) (step-Inv c s h)

pub empty-Inv : Inv empty
empty-Inv = record { named = tt; active_known = inr (refl, refl); sessions_known = tt }
