-- ===== src/Tools/Selected.antt =====
-- engine/tools/disclosure.py: the tools that are selected for a turn, and those that a query finds.
use argus_agent.Base.{
  ℕ, zero, suc, ◌-◌, ◌≤◌, String, ◌≡◌, refl, sym, ap, ◌∙◌, true, false, not, ◌&&◌, ◌||◌, List, [],
  ◌∷◌, ◌++◌, map, arith, ◌==◌, string_eq, elem, keep, take, length, length-take, elem-add_iff,
  elem-take, Bool-cases, inl, inr,
}
use argus_agent.Base.Dict
use argus_agent.Base.Dict.{Dict, has, Each}
use argus_agent.Base.Text
use argus_agent.Tools.{Tool, Registry, names, list, denied_by, is_denied, denied_names}
use argus_agent.Tools.Ranking.{
  Floats, Embedded, placed, ranked, rank_tools, union, kept_names, select_visible,
}
use argus_agent.Tools.Disclosed.{
  View, itself, visible_names, reveal, found, find_tool, answer_found, is_all,
}
use argus_agent.Tools.Sound.{IsSound, reveal-full}
use argus_agent.Tools.Catalog.{elem-keep, visible_names-denied}

elem-append : (n : String) (xs ys : List String) → elem n (xs ++ ys) ≡ (elem n xs || elem n ys)
elem-append n [] ys = refl
elem-append n (x ∷ xs) ys = ground (arith, elem-append n xs ys)

elem-union : (n : String) (xs ys : List String) → elem n (union xs ys) ≡ (elem n xs || elem n ys)
unfolding union
elem-union n [] ys = refl
elem-union n (x ∷ xs) ys = ground (arith, elem-add_iff n x (union xs ys), elem-union n xs ys)

length-map_name : {F : Type 0} (xs : List (String × F)) → length (map (λ x. x.0) xs) ≡ length xs
length-map_name [] = refl
length-map_name (x ∷ xs) = ap suc (length-map_name xs)

map-take :
    {F : Type 0} (k : ℕ) (xs : List (String × F))
    → map (λ x. x.0) (take k xs) ≡ take k (map (λ x. x.0) xs)
map-take zero xs = refl
map-take (suc k) [] = refl
map-take (suc k) (x ∷ xs) = ap (λ ns. x.0 ∷ ns) (map-take k xs)

elem-names :
    {V : Type 0} (n : String) (d : Dict String (Tool V)) → elem n (map (λ e. e.0) d) ≡ has n d
unfolding Dict.get
elem-names n [] = refl
elem-names n ((k, t) ∷ d) = ground (arith, elem-names n d)

map-name :
    {V : Type 0} (d : Dict String (Tool V))
    → Each (λ k (t : Tool V). t.name ≡ k) d
    → map (λ t. t.name) (map (λ e. e.1) d) ≡ map (λ e. e.0) d
map-name [] h = refl
map-name ((k, t) ∷ d) h = rw (h.0, map-name d h.1)

elem-ranked_take :
    {F : Type 0} (k : ℕ) (n : String) (xs : List (String × F))
    → elem n (map (λ x. x.0) (take k xs)) ≡ true
    → elem n (map (λ x. x.0) xs) ≡ true
elem-ranked_take k n xs h =
    elem-take n k (map (λ x. x.0) xs) (ap (elem n) (sym (map-take k xs)) ∙ h)

elem-placed :
    {F : Type 0} (floats : Floats F) (n : String) (e : String × F) (os : List (String × F))
    → elem n (map (λ x. x.0) (placed floats e os)) ≡ (e.0 == n || elem n (map (λ x. x.0) os))
unfolding placed
elem-placed floats n e [] = refl
elem-placed floats n e (o ∷ os) = elim (Bool-cases (floats.less o.1 e.1)) [
  | inl better ↦ rw better
  | inr worse ↦ rw worse (ground (arith, elem-placed floats n e os))
]

module _ {F : Type 0} (floats : Floats F) (lower : String → String) {V : Type 0} where
  elem-ranked :
      (score : Tool V → F) (skip : List String) (n : String) (ts : List (Tool V))
      (done : List (String × F))
      → elem n (map (λ x. x.0) (ranked floats lower score skip ts done))
        ≡ (elem n (map (λ x. x.0) done) || elem n (map (λ t. t.name) ts) && not (elem n skip))
  unfolding ranked
  elem-ranked score skip n [] done = ground arith
  elem-ranked score skip n (t ∷ ts) done = elim (Bool-cases (elem t.name skip)) [
    | inl skipped ↦ rw skipped (
        ground (
          arith,
          elem-ranked score skip n ts done,
          ap (λ k. elem k skip) ((string_eq.same_iff t.name n).0 _),
        ))
    | inr taken ↦ rw taken (
        ground (
          arith,
          elem-ranked score skip n ts (placed floats (t.name, score t) done),
          elem-placed floats n (t.name, score t) done,
          string_eq.same_iff t.name n,
        ))
  ]

  -- A name that is ranked is one of a tool, and it is not skipped.
  elem-rank_tools :
      (r : Registry V) (text mode : String) (e : Embedded F) (exclude : List String) (n : String)
      → IsSound r.tools
      → elem n (map (λ x. x.0) (rank_tools floats lower r text mode e exclude false))
        ≡ (has n r.tools && not (elem n exclude) && not (is_denied r n))
  unfolding rank_tools list denied_names names
  elem-rank_tools r text mode e exclude n h =
      elem-ranked _ (exclude ++ denied_names r) n (list r) []
      ∙ ground (
        arith,
        ap (elem n) (map-name r.tools h.named),
        elem-names n r.tools,
        elem-append n exclude (denied_names r),
        elem-keep (is_denied r) n (names r),
      )

  elem-kept_names :
      (r : Registry V) (core pinned : List String) (n : String)
      → elem n (kept_names r core pinned)
        ≡ ((elem n core || elem n pinned) && has n r.tools && not (is_denied r n))
  unfolding kept_names names denied_names union
  elem-kept_names r core pinned n =
      let known = keep (λ j. not (elem j (denied_names r))) (names r) in
      elem-union n (keep (λ j. elem j known) core) (union (keep (λ j. elem j known) pinned) [])
      ∙ ground (
        arith,
        elem-keep (λ j. elem j known) n core,
        elem-keep (λ j. elem j known) n pinned,
        elem-union n (keep (λ j. elem j known) pinned) [],
        elem-keep (λ j. not (elem j (denied_names r))) n (names r),
        elem-keep (is_denied r) n (names r),
        elem-names n r.tools,
      )

  -- Of a registry with sound tools, a name of the core or a pinned one is selected exactly if its tool is
  -- registered and not denied.
  select_visible-core :
      (r : Registry V) (text mode : String) (k : ℕ) (core pinned : List String) (e : Embedded F)
      → IsSound r.tools
      → (n : String) → (elem n core || elem n pinned) ≡ true
      → elem n (select_visible floats lower r text mode k core pinned e)
        ≡ (has n r.tools && not (is_denied r n))
  unfolding select_visible
  select_visible-core r text mode k core pinned e h n wanted =
      let kept = kept_names r core pinned in
      let best = rank_tools floats lower r text mode e kept false in
      ground (
        arith,
        elem-kept_names r core pinned n,
        elem-union n (map (λ x. x.0) (take (k - length kept) best)) kept,
        elem-rank_tools r text mode e kept n h,
        elem-ranked_take (k - length kept) n best,
        wanted,
      )

-- The visible names after names were revealed.
elem-reveal :
    {V : Type 0} (n : String) (ns : List String) (v : View V)
    → elem n (reveal ns v).1.visible ≡ (elem n v.visible || elem n ns && has n v.full.tools)
unfolding reveal
elem-reveal n [] v = ground arith
elem-reveal n (m ∷ ns) v = elim (Bool-cases (has m v.full.tools && not (elem m v.visible))) [
  | inl new ↦ rw new (
      ground (
        arith,
        elem-reveal n ns (record v { visible = m ∷ v.visible }),
        string_eq.same_iff m n,
        new,
      ))
  | inr old ↦ rw old (ground (arith, elem-reveal n ns v, string_eq.same_iff m n, old))
]

elem-visible_names :
    {V : Type 0} (n : String) (v : View V)
    → elem n (visible_names v)
      ≡ (has n v.full.tools && (elem n v.visible && not (denied_by v.permissions n)))
unfolding names
elem-visible_names n v =
    ap (elem n) (visible_names-denied v)
    ∙ elem-keep _ n (names v.full)
    ∙ ap (λ b. b && (elem n v.visible && not (denied_by v.permissions n)))
        (elem-names n v.full.tools)

module _ {F : Type 0} (floats : Floats F) (lower repr : String → String) {V : Type 0} where
  elem-found :
      (top : ℕ) (q : String) (v : View V) (n : String)
      → IsSound v.full.tools
      → elem n (found floats lower repr top q v) ≡ true
      → (elem n (visible_names v) ≡ false)
        × ((has n v.full.tools && not (denied_by v.permissions n)) ≡ true)
  unfolding found itself is_denied
  elem-found top q v n h at =
      let ranks =
        elem-rank_tools floats lower (itself v) q "keyword" (record { docs = []; query = [] })
          (visible_names v) n h in
      let taken = elem-ranked_take top n _ at in
      (ground (arith, ranks, taken), ground (arith, ranks, taken))

  length-found :
      (top : ℕ) (q : String) (v : View V) → length (found floats lower repr top q v) ≤ top
  unfolding found
  length-found top q v =
      let best =
        rank_tools floats lower (itself v) q "keyword" (record { docs = []; query = [] })
          (visible_names v) false in
      omega (arith, length-map_name (take top best), length-take top best)

  reveal-shown :
      (ns : List String) (v : View V) (n : String)
      → elem n ns ≡ true
      → has n v.full.tools ≡ true
      → denied_by v.permissions n ≡ false
      → elem n (visible_names (reveal ns v).1) ≡ true
  reveal-shown ns v n at there open_to =
      elem-visible_names n (reveal ns v).1
      ∙ ground (
        arith,
        ap (λ r. has n r.tools) (reveal-full ns v).0,
        ap (λ p. denied_by p n) (reveal-full ns v).1,
        elem-reveal n ns v,
        at,
        there,
        open_to,
      )

  answer_found-shown :
      (ns blocked : List String) (shown : String) (v : View V) (n : String)
      → elem n ns ≡ true
      → has n v.full.tools ≡ true
      → denied_by v.permissions n ≡ false
      → elem n (visible_names (answer_found ns blocked shown v).1) ≡ true
  unfolding answer_found
  answer_found-shown [] blocked shown v n at there open_to = ground (arith, at)
  answer_found-shown (m ∷ ns) blocked shown v n at there open_to =
      reveal-shown (m ∷ ns) v n at there open_to

  -- Of sound tools, a query that is not for the full catalog finds at most `top` tools, and each of them
  -- was not shown to the model before, is not denied, and is shown afterwards.
  pub find_tool-shown :
      (top : ℕ) (query : String) (v : View V)
      → IsSound v.full.tools
      → (Text.strip query == "" || is_all (lower (Text.strip query))) ≡ false
      → (n : String) → elem n (found floats lower repr top (Text.strip query) v) ≡ true
      → (length (found floats lower repr top (Text.strip query) v) ≤ top)
        × ((elem n (visible_names v) ≡ false)
            × ((denied_by v.permissions n ≡ false)
                × (elem n (visible_names (find_tool floats lower repr top query v).1) ≡ true)))
  unfolding find_tool
  find_tool-shown top query v h asked n at =
      let facts = elem-found top (Text.strip query) v n h at in
      (
        length-found top (Text.strip query) v,
        (
          facts.0,
          (
            ground (arith, facts.1),
            rw asked (
                answer_found-shown (found floats lower repr top (Text.strip query) v) _ _ v n at
                  (ground (arith, facts.1)) (ground (arith, facts.1))),
          ),
        ),
      )
