-- ===== src/Profiles/Store/Examples.antt =====
-- The theorems on the profile store at concrete stores.
use argus_agent.Base.{String, ◌≡◌, refl, some, List, [], ◌∷◌, nat_eq, string_eq, pair_eq, inl}
use argus_agent.Base.Dict
use argus_agent.Base.Dict.{Dict, has, Each}
use argus_agent.Base.Result.{ok}
use argus_agent.Base.Text
use argus_agent.Profiles.{Profile}
use argus_agent.Profiles.Store.{
  ProfileStore, duplicate, copy_as, Call, run, empty, ensures_default, creates, binds, deletes,
  renames, renamed, stamped, save_profile,
}
use argus_agent.Profiles.Store.Invariant.{Inv, run-Inv, empty-Inv}
use argus_agent.Profiles.Store.Copies.{duplicate-padded}

abbrev named : String → Profile
named name = record {
  name = name;
  description = "";
  soul = "";
  system_prompt = "";
  flags = [];
  tools = [];
  skills = [];
  rules = [];
  model_roles = [];
  created_at = 1;
  updated_at = 1;
}

abbrev calls : List Call
calls =
    ensures_default (named "Default") 5
    ∷ creates (named "Coding") 6
    ∷ binds "s1" "Coding"
    ∷ deletes "Coding"
    ∷ renames "Coding" " Code "
    ∷ []

run-Inv_example : Inv (run calls empty)
run-Inv_example = run-Inv calls empty empty-Inv

abbrev two : ProfileStore
two = record {
  profiles = ("Default", named "Default") ∷ ("Coding", named "Coding") ∷ [];
  active = "Default";
  sessions = ("s1", "Default") ∷ [];
}

two-Inv : Inv two
unfolding Dict.get
two-Inv = record {
  named = (refl, (refl, tt));
  active_known = inl refl;
  sessions_known = (refl, tt);
}

abbrev home : ProfileStore
home = renamed "Default" "Home" (named "Default") two

duplicate-padded_example :
    (s' : ProfileStore) × (duplicate "Default" "Coding " "" 9 two ≡ ok s')
    × (Dict.get "Coding" s'.profiles ≡ some (stamped (copy_as "Coding " "" 9 (named "Default")) 9))
unfolding Dict.get Text.strip Text.is_blank
duplicate-padded_example =
    duplicate-padded two "Default" "Coding " "" 9 (named "Default") refl refl refl

abbrev with_copy : ProfileStore
with_copy = save_profile (copy_as "Home" "" 9 (named "Default")) 9 two
