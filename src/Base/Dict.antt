-- ===== src/Base/Dict.antt =====
-- Python's `dict` and `set`, in insertion order: an overwritten key keeps its place.
use mathlib.Core.Path.{◌≡◌, refl, sym, subst, subst₂}
use mathlib.Core.Logic.{inl, inr}
use mathlib.Core.Bool.{Bool, true, false}
use mathlib.Core.List.{List, [], ◌∷◌}
use mathlib.Core.Option.{Option, none, some}
use native.Mathlib.Omega.{arith}
use argus_agent.Base.Tests.{Keyed, eq_refl, Bool-cases, some_eq, ◌==◌, if◌then◌else◌}

abbrev pub Dict {ℓ κ} : Type ℓ → Type κ → Type (ℓ ⊔ κ)
Dict K V = List (K × V)

module _ {ℓ κ} {K : Type ℓ} {V : Type κ} ⦃e : Keyed K⦄ where
  -- d.get(k)
  unfoldable pub get : K → Dict K V → Option V
  get k [] = none
  get k ((j, v) ∷ d) = if j == k then some v else get k d

  -- d[k] = v
  unfoldable pub put : K → V → Dict K V → Dict K V
  put k v [] = (k, v) ∷ []
  put k v ((j, w) ∷ d) = if j == k then (j, v) ∷ d else (j, w) ∷ put k v d

  -- d.pop(k, None)
  unfoldable pub remove : K → Dict K V → Dict K V
  remove k [] = []
  remove k ((j, w) ∷ d) = let rest = remove k d in if j == k then rest else (j, w) ∷ rest

  pub get-put :
      (k j : K) (v : V) (d : Dict K V) → get j (put k v d) ≡ (if k == j then some v else get j d)
  unfolding get put
  get-put k j v [] = refl
  get-put k j v ((i, w) ∷ d) =
      ground (arith, e.same_iff k j, e.same_iff i k, e.same_iff i j, get-put k j v d)

  pub get-remove :
      (k j : K) (d : Dict K V) → get j (remove k d) ≡ (if k == j then none else get j d)
  unfolding get remove
  get-remove k j [] = ground arith
  get-remove k j ((i, w) ∷ d) =
      ground (arith, e.same_iff k j, e.same_iff i k, e.same_iff i j, get-remove k j d)

-- Every entry of the dictionary satisfies `P`.
abbrev pub Each {ℓ κ μ} : {K : Type ℓ} {V : Type κ} → (K → V → Type μ) → Dict K V → Type μ
Each P [] = Unit
Each P ((k, v) ∷ d) = P k v × Each P d

module _ {ℓ κ μ} {K : Type ℓ} {V : Type κ} ⦃e : Keyed K⦄ (P : K → V → Type μ) where
  pub Each-get : (k : K) (v : V) (d : Dict K V) → Each P d → get k d ≡ some v → P k v
  unfolding get
  Each-get k v [] h g = cc
  Each-get k v ((j, w) ∷ d) h g = elim (Bool-cases (j == k)) [
    | inl same ↦ subst₂ P ((e.same_iff j k).0 same) (some_eq (rw same at g)) h.0
    | inr other ↦ Each-get k v d h.1 (rw other at g)
  ]

  pub Each-put : (k : K) (v : V) (d : Dict K V) → P k v → Each P d → Each P (put k v d)
  unfolding put
  Each-put k v [] p h = (p, tt)
  Each-put k v ((j, w) ∷ d) p h = elim (Bool-cases (j == k)) [
    | inl same ↦ rw same (subst (λ i. P i v) (sym ((e.same_iff j k).0 same)) p, h.1)
    | inr other ↦ rw other (h.0, Each-put k v d p h.1)
  ]

  pub Each-remove : (k : K) (d : Dict K V) → Each P d → Each P (remove k d)
  unfolding remove
  Each-remove k [] h = tt
  Each-remove k ((j, w) ∷ d) h = elim (Bool-cases (j == k)) [
    | inl same ↦ rw same (Each-remove k d h.1)
    | inr other ↦ rw other (h.0, Each-remove k d h.1)
  ]

abbrev pub is_some {ℓ} : {A : Type ℓ} → Option A → Bool
is_some none = false
is_some (some a) = true

module _ {ℓ κ} {K : Type ℓ} {V : Type κ} ⦃e : Keyed K⦄ where
  -- `k in d`
  abbrev pub has : K → Dict K V → Bool
  has k d = is_some (get k d)

  pub has-put :
      (k j : K) (v : V) (d : Dict K V) → has j (put k v d) ≡ (if k == j then true else has j d)
  has-put k j v d = ground (arith, get-put k j v d)

  pub has-remove :
      (k j : K) (d : Dict K V) → has j (remove k d) ≡ (if k == j then false else has j d)
  has-remove k j d = ground (arith, get-remove k j d)

module _ {ℓ κ} {K : Type ℓ} {V : Type κ} ⦃e : Keyed K⦄ where
  pub has-put_self : (k : K) (v : V) (d : Dict K V) → has k (put k v d) ≡ true
  has-put_self k v d = ground (arith, has-put k k v d, e.same_iff k k)

  pub has-put_keeps : (k j : K) (v : V) (d : Dict K V) → has j d ≡ true → has j (put k v d) ≡ true
  has-put_keeps k j v d h = ground (arith, has-put k j v d)

  pub has-remove_keeps :
      (k j : K) (d : Dict K V) → (k == j) ≡ false → has j d ≡ true → has j (remove k d) ≡ true
  has-remove_keeps k j d other h = ground (arith, has-remove k j d)

  pub has_of_get : (k : K) (v : V) (d : Dict K V) → get k d ≡ some v → has k d ≡ true
  has_of_get k v d h = rw h

-- The entries with their values changed, `{k: f(v) for k, v in d.items()}`.
abbrev pub map_values {ℓ κ μ} :
    {K : Type ℓ} {V : Type κ} {W : Type μ} → (V → W) → Dict K V → Dict K W
map_values f [] = []
map_values f ((k, v) ∷ d) = (k, f v) ∷ map_values f d

abbrev pub map_option {κ μ} : {V : Type κ} {W : Type μ} → (V → W) → Option V → Option W
map_option f none = none
map_option f (some v) = some (f v)

pub get-map_values {ℓ κ μ} :
    {K : Type ℓ} {V : Type κ} {W : Type μ} ⦃e : Keyed K⦄ (f : V → W) (k : K) (d : Dict K V)
    → get k (map_values f d) ≡ map_option f (get k d)
unfolding get
get-map_values f k [] = refl
get-map_values f k ((j, v) ∷ d) = ground (arith, get-map_values f k d)

pub Each-map {ℓ κ μ ν} :
    {K : Type ℓ} {V : Type κ} {P : K → V → Type μ} {Q : K → V → Type ν}
    → ((k : K) (v : V) → P k v → Q k v)
    → (d : Dict K V) → Each P d
    → Each Q d
Each-map f [] h = tt
Each-map f ((k, v) ∷ d) h = (f k v h.0, Each-map f d h.1)

pub Each-map_values {ℓ κ μ ν ξ} :
    {K : Type ℓ} {V : Type κ} {W : Type ν} {P : K → V → Type μ} (Q : K → W → Type ξ) (f : V → W)
    → ((k : K) (v : V) → P k v → Q k (f v))
    → (d : Dict K V) → Each P d
    → Each Q (map_values f d)
Each-map_values Q f h [] p = tt
Each-map_values Q f h ((k, v) ∷ d) p = (h k v p.0, Each-map_values Q f h d p.1)

pub ruleset dict_laws = (get-put, get-remove, eq_refl)
