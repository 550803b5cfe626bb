-- ===== src/Tools/Catalog.antt =====
-- engine/tools/disclosure.py: the catalog that the model is shown.
use argus_agent.Base.{
  String, ◌≡◌, refl, sym, ap, ◌∙◌, Bool, true, false, not, ◌&&◌, ◌||◌, Option, List, [], ◌∷◌, ◌++◌,
  map, arith, ◌==◌, string_eq, elem, keep, Bool-cases, inl, inr,
}
use mathlib.Core.List.{append-nil, append_assoc}
use argus_agent.Base.Dict
use argus_agent.Base.Dict.{Dict, has, Each}
use argus_agent.Tools.{
  Tool, Registry, Resolver, names, offer, register, denied_by, is_denied, denied_names, advertised,
  openai_schema,
}
use argus_agent.Tools.Ranking.{Floats}
use argus_agent.Tools.Disclosed.{View, itself, visible_names, copied, visible_view, view_schema}
use argus_agent.Tools.Sound.{Distinct, IsSound, Op, run, run-IsSound, run-permissions}

pub elem-keep :
    (p : String → Bool) (n : String) (xs : List String) → elem n (keep p xs) ≡ (elem n xs && p n)
elem-keep p n [] = refl
elem-keep p n (x ∷ xs) = elim (Bool-cases (x == n)) [
  | inl same ↦ ground (arith, elem-keep p n xs, ap p ((string_eq.same_iff x n).0 same))
  | inr other ↦ ground (arith, elem-keep p n xs)
]

-- Tests that agree on the items keep the same.
keep-agree :
    (p q : String → Bool) (xs : List String)
    → ((n : String) → elem n xs ≡ true → p n ≡ q n)
    → keep p xs ≡ keep q xs
keep-agree p q [] h = refl
keep-agree p q (x ∷ xs) h =
    ground
      (arith, h x, string_eq.same_iff x x, keep-agree p q xs (λ n at. h n (ground (arith, at))))

same_cons : {n k : String} {ns ks : List String} → n ≡ k → ns ≡ ks → (n ∷ ns) ≡ (k ∷ ks)
same_cons e f = rw (e, f)

module _ {V : Type 0} where
  put-absent :
      (k : String) (t : Tool V) (d : Dict String (Tool V))
      → has k d ≡ false
      → Dict.put k t d ≡ d ++ (k, t) ∷ []
  unfolding Dict.put Dict.get
  put-absent k t [] h = refl
  put-absent k t ((j, u) ∷ d) h = ground (arith, put-absent k t d)

  has-append :
      (k j : String) (t : Tool V) (d : Dict String (Tool V))
      → has k (d ++ (j, t) ∷ []) ≡ (has k d || j == k)
  unfolding Dict.get
  has-append k j t [] = ground arith
  has-append k j t ((i, u) ∷ d) = ground (arith, has-append k j t d)

  -- Whether no key of the second is one of the first.
  abbrev Apart : Dict String (Tool V) → Dict String (Tool V) → Type 0
  Apart done [] = Unit
  Apart done ((k, t) ∷ d) = (has k done ≡ false) × Apart done d

  Apart-append :
      (j : String) (t : Tool V) (done d : Dict String (Tool V))
      → has j d ≡ false
      → Apart done d
      → Apart (done ++ (j, t) ∷ []) d
  unfolding Dict.get
  Apart-append j t done [] absent h = tt
  Apart-append j t done ((k, u) ∷ d) absent h = (
    ground
        (arith, absent, h.0, has-append k j t done, string_eq.same_iff k j, string_eq.same_iff j k),
    Apart-append j t done d (ground (arith, absent)) h.1,
  )

  abbrev registry_of : Option Resolver → Dict String (Tool V) → Registry V
  registry_of p tools = record { tools = tools; permissions = p }

  copied-keep :
      (visible : List String) (d done : Dict String (Tool V)) (p : Option Resolver)
      → Each (λ k (t : Tool V). t.name ≡ k) d
      → Distinct d
      → Apart done d
      → copied visible d (registry_of p done)
        ≡ registry_of p (done ++ keep (λ e. elem e.0 visible) d)
  unfolding copied register
  copied-keep visible [] done p named distinct apart = ap (registry_of p) (sym (append-nil done))
  copied-keep visible ((k, t) ∷ d) done p named distinct apart =
      elim (Bool-cases (elem k visible)) [
        | inl shown ↦ rw shown (
            ap (λ ts. copied visible d (registry_of p ts))
              (ap (λ n. Dict.put n t done) named.0 ∙ put-absent k t done apart.0)
            ∙ copied-keep visible d (done ++ (k, t) ∷ []) p named.1 distinct.1
                (Apart-append k t done d distinct.0 apart.1)
            ∙ ap (registry_of p) (append_assoc done ((k, t) ∷ []) _))
        | inr hidden ↦ rw hidden (copied-keep visible d done p named.1 distinct.1 apart.1)
      ]

  Apart-empty : (d : Dict String (Tool V)) → Apart [] d
  unfolding Dict.get
  Apart-empty [] = tt
  Apart-empty ((k, t) ∷ d) = (refl, Apart-empty d)

  -- The names that are offered of the visible tools.
  offered-names :
      (p : Option Resolver) (visible : List String) (d : Dict String (Tool V))
      → Each (λ k (t : Tool V). t.name ≡ k) d
      → map (λ o. o.name) (openai_schema (registry_of p (keep (λ e. elem e.0 visible) d)))
        ≡ keep (λ n. elem n visible && not (denied_by p n)) (map (λ e. e.0) d)
  unfolding openai_schema advertised is_denied offer
  offered-names p visible [] named = refl
  offered-names p visible ((k, t) ∷ d) named = elim (Bool-cases (elem k visible)) [
    | inl shown ↦ elim (Bool-cases (denied_by p k)) [
      | inl denied ↦ rw (shown, denied) (offered-names p visible d named.1)
      | inr open_to ↦ rw (shown, open_to) (same_cons named.0 (offered-names p visible d named.1))
    ]
    | inr hidden ↦ rw hidden (offered-names p visible d named.1)
  ]

  pub visible_names-denied :
      (v : View V)
      → visible_names v
        ≡ keep (λ n. elem n v.visible && not (denied_by v.permissions n)) (names v.full)
  unfolding visible_names itself denied_names is_denied names
  visible_names-denied v =
      keep-agree _ _ (names v.full)
        (λ n at. ground (arith, at, elem-keep (denied_by v.permissions) n (names v.full)))

  -- The schema of a view over sound tools names exactly its visible names.
  view_schema-names :
      (v : View V) → IsSound v.full.tools → map (λ o. o.name) (view_schema v) ≡ visible_names v
  unfolding view_schema visible_view names
  view_schema-names v h =
      ap (λ r. map (λ o. o.name) (openai_schema r))
        (copied-keep v.visible v.full.tools [] v.permissions h.named h.distinct
          (Apart-empty v.full.tools))
      ∙ offered-names v.permissions v.visible v.full.tools h.named
      ∙ sym (visible_names-denied v)

  module _ {F : Type 0} (floats : Floats F) (lower repr : String → String) where
    -- After any run of registering, unregistering, revealing and finding tools, from sound tools, the
    -- schema that the model is shown names exactly the visible names, in their order.
    pub run-view_schema :
        (ops : List (Op V)) (v : View V)
        → IsSound v.full.tools
        → map (λ o. o.name) (view_schema (run floats lower repr ops v))
          ≡ visible_names (run floats lower repr ops v)
    run-view_schema ops v h =
        view_schema-names (run floats lower repr ops v) (run-IsSound floats lower repr ops v h)

    -- After any run of registering, unregistering, revealing and finding tools, from sound tools, a tool
    -- that the resolver denies is not in the schema that the model is shown.
    pub run-denied_by :
        (ops : List (Op V)) (v : View V)
        → IsSound v.full.tools
        → (name : String) → denied_by v.permissions name ≡ true
        → elem name (map (λ o. o.name) (view_schema (run floats lower repr ops v))) ≡ false
    run-denied_by ops v h name denied =
        ap (elem name) (run-view_schema ops v h ∙ visible_names-denied _)
        ∙ elem-keep _ name (names (run floats lower repr ops v).full)
        ∙ ground
            (arith, ap (λ p. denied_by p name) (run-permissions floats lower repr ops v), denied)
