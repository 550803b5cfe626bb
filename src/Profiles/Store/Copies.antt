-- ===== src/Profiles/Store/Copies.antt =====
-- `ProfileStore.duplicate`: what it does to the profiles that are there.
use argus_agent.Base.{
  ℕ, String, ◌≡◌, refl, ◌∙◌, true, false, some, arith, nat_eq, string_eq, pair_eq, Option-cases,
  inl, inr, eq_refl,
}
use argus_agent.Base.Dict
use argus_agent.Base.Dict.{Dict, has, is_some, get-put}
use argus_agent.Base.Result.{ok, ◌>>=◌, ◌>>◌, refuse}
use argus_agent.Base.Text
use argus_agent.Profiles.{Profile}
use argus_agent.Profiles.Store.{ProfileStore, save_profile, stamped, duplicate, copy_as, or_raise}

duplicate_ok :
    (s s' : ProfileStore) (source new_name description : String) (now : ℕ)
    → duplicate source new_name description now s ≡ ok s'
    → (p : Profile) × (has new_name s.profiles ≡ false)
      × (s' ≡ save_profile (copy_as new_name description now p) now s)
unfolding duplicate or_raise refuse ◌>>◌ ◌>>=◌
duplicate_ok s s' source new_name description now e =
    elim (Option-cases (Dict.get source s.profiles)) [
      | inl missing ↦ absurd (ground (arith, missing))
      | inr (p, found) ↦ (p, ground (arith, found), ground (arith, found))
    ]

-- With a name that has no blanks around it, a duplicate leaves every existing profile as it was.
get-duplicate :
    (s s' : ProfileStore) (source new_name description : String) (now : ℕ)
    → Text.strip new_name ≡ new_name
    → duplicate source new_name description now s ≡ ok s'
    → (k : String) → has k s.profiles ≡ true
    → Dict.get k s'.profiles ≡ Dict.get k s.profiles
unfolding save_profile copy_as
get-duplicate s s' source new_name description now trimmed e k there =
    let (p, free, same) = duplicate_ok s s' source new_name description now e in
    rw (same, get-put, trimmed) (ground (arith, string_eq.same_iff new_name k, free, there))

-- With blanks around it the name that is tested is not the name that is stored: the profile that
-- has the stripped name is replaced by the copy, without an error.
pub duplicate-padded :
    (s : ProfileStore) (source new_name description : String) (now : ℕ) (p : Profile)
    → Dict.get source s.profiles ≡ some p
    → Text.is_blank new_name ≡ false
    → has new_name s.profiles ≡ false
    → (s' : ProfileStore) × (duplicate source new_name description now s ≡ ok s')
      × (Dict.get (Text.strip new_name) s'.profiles
          ≡ some (stamped (copy_as new_name description now p) now))
unfolding duplicate or_raise refuse ◌>>◌ ◌>>=◌ save_profile copy_as
duplicate-padded s source new_name description now p found named free = (
  save_profile (copy_as new_name description now p) now s,
  rw (found, or_raise, named, free) refl,
  get-put (Text.strip new_name) (Text.strip new_name) _ s.profiles
      ∙ rw (eq_refl (Text.strip new_name)) refl,
)
