-- ===== src/Base/Lists.antt =====
-- Lists measured by native numbers, and Boolean membership, under the library's names.
use Prim.Native.Nat.{ℕ, zero, suc, ◌+◌, ◌-◌, min}
use mathlib.Core.Path.{◌≡◌, ap, ◌∙◌}
use mathlib.Core.Logic.{◌⊎◌, inl, inr}
use mathlib.Core.Bool.{Bool, true, false, ◌&&◌, ◌||◌, not}
use mathlib.Core.List.{List, [], ◌∷◌, ◌++◌}
use native.Mathlib.Omega.{arith}
use argus_agent.Base.Tests.{Keyed, Bool-cases, ◌==◌, if◌then◌else◌}

module _ {ℓ} {A : Type ℓ} where
  abbrev pub length : List A → ℕ
  length [] = 0
  length (x ∷ xs) = suc (length xs)

  abbrev pub take : ℕ → List A → List A
  take zero xs = []
  take (suc n) [] = []
  take (suc n) (x ∷ xs) = x ∷ take n xs

  abbrev pub drop : ℕ → List A → List A
  drop zero xs = xs
  drop (suc n) [] = []
  drop (suc n) (x ∷ xs) = drop n xs

  pub length-append : (xs ys : List A) → length (xs ++ ys) ≡ length xs + length ys
  length-append [] ys = omega arith
  length-append (x ∷ xs) ys = omega (arith, length-append xs ys)

  pub length-take : (n : ℕ) (xs : List A) → length (take n xs) ≡ min n (length xs)
  length-take zero xs = omega arith
  length-take (suc n) [] = omega arith
  length-take (suc n) (x ∷ xs) = omega (arith, length-take n xs)

  pub length-drop : (n : ℕ) (xs : List A) → length (drop n xs) ≡ length xs - n
  length-drop zero xs = omega arith
  length-drop (suc n) [] = omega arith
  length-drop (suc n) (x ∷ xs) = omega (arith, length-drop n xs)

  -- `[x for x in xs if p(x)]`
  abbrev pub keep : (A → Bool) → List A → List A
  keep p [] = []
  keep p (x ∷ xs) = let rest = keep p xs in if p x then x ∷ rest else rest

  -- `any(p(x) for x in xs)` and `all(p(x) for x in xs)`
  abbrev pub some_of : (A → Bool) → List A → Bool
  some_of p [] = false
  some_of p (x ∷ xs) = p x || some_of p xs

  abbrev pub each_of : (A → Bool) → List A → Bool
  each_of p [] = true
  each_of p (x ∷ xs) = p x && each_of p xs

  -- A predicate that holds of every item; it computes to tuples.
  abbrev pub All {κ} : (A → Type κ) → List A → Type κ
  All P [] = Unit
  All P (x ∷ xs) = P x × All P xs

-- `x in xs`
abbrev pub elem {ℓ} : {A : Type ℓ} ⦃e : Keyed A⦄ → A → List A → Bool
elem a [] = false
elem a (x ∷ xs) = x == a || elem a xs

-- `xs - {a}`, for a set kept as a list.
pub elem-keep_other {ℓ} :
    {A : Type ℓ} ⦃e : Keyed A⦄ (k a : A) (xs : List A)
    → elem k (keep (λ j. not (j == a)) xs) ≡ (if k == a then false else elem k xs)
elem-keep_other k a [] = ground arith
elem-keep_other ⦃e⦄ k a (x ∷ xs) =
    ground (arith, e.same_iff k a, e.same_iff x a, e.same_iff x k, elem-keep_other k a xs)

pub elem-other {ℓ} :
    {A : Type ℓ} ⦃e : Keyed A⦄ (k a : A) (xs : List A)
    → elem a xs ≡ false
    → elem k xs ≡ (if k == a then false else elem k xs)
elem-other ⦃e⦄ k a xs h = elim (Bool-cases (k == a)) [
  | inl same ↦ rw same (ap (λ x. elem x xs) ((e.same_iff k a).0 same) ∙ h)
  | inr other ↦ rw other
]

-- `xs.add(a)`, for a set kept as a list.
module _ {ℓ} {A : Type ℓ} ⦃e : Keyed A⦄ where
  unfoldable pub add : A → List A → List A
  add a xs = if elem a xs then xs else a ∷ xs

  pub elem-add_self : (a : A) (xs : List A) → elem a (add a xs) ≡ true
  unfolding add
  elem-add_self a xs = ground (arith, e.same_iff a a)

  pub elem-add : (k a : A) (xs : List A) → elem k (add a xs) ≡ true → (a ≡ k) ⊎ (elem k xs ≡ true)
  unfolding add
  elem-add k a xs h = ground (arith, e.same_iff a k)

module _ {ℓ} {A : Type ℓ} ⦃e : Keyed A⦄ where
  pub elem-add_iff : (k a : A) (xs : List A) → elem k (add a xs) ≡ (a == k || elem k xs)
  unfolding add
  elem-add_iff k a xs = elim (Bool-cases (a == k)) [
    | inl same ↦ ground (arith, ap (λ x. elem x xs) ((e.same_iff a k).0 same))
    | inr other ↦ ground arith
  ]

  pub elem-take : (k : A) (n : ℕ) (xs : List A) → elem k (take n xs) ≡ true → elem k xs ≡ true
  elem-take k zero xs h = ground arith
  elem-take k (suc n) [] h = h
  elem-take k (suc n) (x ∷ xs) h = ground (arith, elem-take k n xs)

pub elem_of_keep {ℓ} :
    {A : Type ℓ} ⦃e : Keyed A⦄ (k a : A) (xs : List A)
    → elem k (keep (λ j. not (j == a)) xs) ≡ true
    → elem k xs ≡ true
elem_of_keep k a xs h = ground (arith, elem-keep_other k a xs)
