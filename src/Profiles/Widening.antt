-- ===== src/Profiles/Widening.antt =====
-- engine/profiles/store.py: `widened_tools`, what the activation of a profile has to announce.
use argus_agent.Base.{
  ℕ, String, ◌≡◌, refl, sym, subst, Bool, true, false, not, ◌&&◌, ◌||◌, Option, none, some, List,
  [], ◌∷◌, ◌++◌, map, arith, ◌==◌, nat_eq, string_eq, pair_eq, elem, if◌then◌else◌, Bool-cases, inl,
  inr, eq_refl, ltb,
}
use Prim.Native.String.{compare}
use Prim.Native.Nat.{Ordering}
use argus_agent.Base.Dict
use argus_agent.Base.Dict.{Dict, has, is_some}
use argus_agent.Approvals.Types.{State, allow, ask, deny}
use argus_agent.Profiles.{Profile, permission, is_non_tool}

pub record Change : Type 0 where
  pub tool : String
  pub before : State
  pub after : State

abbrev pub rank : State → ℕ
rank deny = 0
rank ask = 1
rank allow = 2

text_leb : String → String → Bool
text_leb a b = elim (compare a b) [ Ordering.gt ↦ false | _ ↦ true ]

insert_sorted : String → List String → List String
insert_sorted a [] = a ∷ []
insert_sorted a (x ∷ xs) = if text_leb a x then a ∷ x ∷ xs else x ∷ insert_sorted a xs

-- `sorted(set(xs))`
sorted_set : List String → List String
sorted_set [] = []
sorted_set (x ∷ xs) = let rest = sorted_set xs in if elem x rest then rest else insert_sorted x rest

keys : Dict String State → List String
keys d = map (λ entry. entry.0) d

state_before : Option Profile → Profile → String → State
state_before none new n = permission new n
state_before (some prev) new n = permission prev n

tools_of : Option Profile → List String
unfolding keys
tools_of none = []
tools_of (some prev) = keys prev.tools

-- The body of the loop, in front of what the later names give.
add_change : Option Profile → Profile → String → List Change → List Change
unfolding state_before
add_change prev new n rest =
    let before = state_before prev new n in
    let after = permission new n in
    if is_non_tool n
    then rest
    else if ltb (rank before) (rank after)
    then record { tool = n; before = before; after = after } ∷ rest
    else rest

changes : Option Profile → Profile → List String → List Change
changes prev new [] = []
changes prev new (n ∷ ns) = add_change prev new n (changes prev new ns)

pub widened_tools : Option Profile → Profile → List String → List Change
unfolding changes sorted_set
widened_tools prev new registry_names =
    changes prev new (sorted_set (registry_names ++ keys new.tools ++ tools_of prev))

-- The tool is in the announcement.
pub announced : String → List Change → Bool
announced n [] = false
announced n (c ∷ cs) = c.tool == n || announced n cs

elem-insert_sorted :
    (a k : String) (xs : List String) → elem k (insert_sorted a xs) ≡ (a == k || elem k xs)
unfolding insert_sorted
elem-insert_sorted a k [] = refl
elem-insert_sorted a k (x ∷ xs) = ground (arith, elem-insert_sorted a k xs)

elem-sorted_set : (k : String) (xs : List String) → elem k (sorted_set xs) ≡ elem k xs
unfolding sorted_set
elem-sorted_set k [] = refl
elem-sorted_set k (x ∷ xs) = ground (
  arith,
  elem-sorted_set k xs,
  elem-insert_sorted x k (sorted_set xs),
  string_eq.same_iff x k,
  elem-sorted_set x xs,
)

elem-append : (k : String) (xs ys : List String) → elem k (xs ++ ys) ≡ (elem k xs || elem k ys)
elem-append k [] ys = refl
elem-append k (x ∷ xs) ys = ground (arith, elem-append k xs ys)

elem-keys : (k : String) (d : Dict String State) → elem k (keys d) ≡ has k d
unfolding keys Dict.get
elem-keys k [] = refl
elem-keys k ((j, v) ∷ d) = ground (arith, elem-keys k d)

-- Activating `new` gives `n` a wider permission than `prev` did.
abbrev widens : Option Profile → Profile → String → Bool
widens prev new n =
    not (is_non_tool n) && ltb (rank (state_before prev new n)) (rank (permission new n))

announced-add_change :
    (prev : Option Profile) (new : Profile) (n x : String) (rest : List Change)
    → announced n (add_change prev new x rest) ≡ ((widens prev new x && x == n) || announced n rest)
unfolding announced add_change
announced-add_change prev new n x rest = ground arith

announced-changes :
    (prev : Option Profile) (new : Profile) (n : String) (ns : List String)
    → announced n (changes prev new ns) ≡ (elem n ns && widens prev new n)
unfolding changes announced
announced-changes prev new n [] = refl
announced-changes prev new n (x ∷ xs) = elim (Bool-cases (x == n)) [
  | inl same ↦
      subst
        (λ y.
          announced n (add_change prev new y (changes prev new xs))
          ≡ (elem n (y ∷ xs) && widens prev new n))
        (sym ((string_eq.same_iff x n).0 same))
        (rw (announced-add_change, announced-changes prev new n xs, eq_refl n)
          (both (widens prev new n) (elem n xs)))
  | inr other ↦
      rw (announced-add_change, announced-changes prev new n xs, other)
        (neither (widens prev new x) (elem n xs && widens prev new n))
]
  where
    both : (w e : Bool) → ((w && true) || (e && w)) ≡ w
    both w e = ground arith

    neither : (w k : Bool) → ((w && false) || k) ≡ k
    neither w k = ground arith

-- An activation announces exactly the tools that it widens, whether a matrix or the registry names
-- them or not, and never the package install.
pub announced_iff :
    (prev new : Profile) (registry_names : List String) (n : String)
    → announced n (widened_tools (some prev) new registry_names)
      ≡ (not (is_non_tool n) && ltb (rank (permission prev n)) (rank (permission new n)))
unfolding widened_tools tools_of state_before permission
announced_iff prev new registry_names n =
    rw (announced-changes, elem-sorted_set, elem-append, elem-append, elem-keys, elem-keys)
      (ground arith)
