-- ===== src/Tools/Sound.antt =====
-- engine/tools/base.py and engine/tools/disclosure.py: what every run of a registry keeps.
use argus_agent.Base.{
  ℕ, String, ◌≡◌, refl, ◌∙◌, false, not, ◌&&◌, ◌||◌, List, [], ◌∷◌, arith, ◌==◌, string_eq, elem,
  Bool-cases, inl, inr,
}
use argus_agent.Base.Dict
use argus_agent.Base.Dict.{Dict, has, Each, Each-put, Each-remove, has-put, has-remove}
use argus_agent.Base.Text
use argus_agent.Tools.{Tool, unregister}
use argus_agent.Tools.Ranking.{Floats}
use argus_agent.Tools.Disclosed.{View, reveal, register_shown, find_tool, answer_found, is_all}

-- What happens to a view in a turn.
pub data Op (V : Type 0) : Type 0 where
  registers : Tool V → Op V
  unregisters : String → Op V
  reveals : List String → Op V
  finds : ℕ → String → Op V

module _ {V : Type 0} where
  -- No key comes up twice.
  abbrev pub Distinct : Dict String (Tool V) → Type 0
  Distinct [] = Unit
  Distinct ((k, t) ∷ d) = (has k d ≡ false) × Distinct d

  -- Every tool is under its own name.
  pub record IsSound (d : Dict String (Tool V)) : Type 0 where
    pub named : Each (λ k (t : Tool V). t.name ≡ k) d
    pub distinct : Distinct d

  Distinct-put :
      (k : String) (t : Tool V) (d : Dict String (Tool V)) → Distinct d → Distinct (Dict.put k t d)
  unfolding Dict.put Dict.get
  Distinct-put k t [] h = (refl, tt)
  Distinct-put k t ((j, u) ∷ d) h = elim (Bool-cases (j == k)) [
    | inl same ↦ rw same h
    | inr other ↦ rw other (
      ground (arith, has-put k j t d, h.0, string_eq.same_iff k j, string_eq.same_iff j k),
      Distinct-put k t d h.1,
    )
  ]

  Distinct-remove :
      (k : String) (d : Dict String (Tool V)) → Distinct d → Distinct (Dict.remove k d)
  unfolding Dict.remove
  Distinct-remove k [] h = tt
  Distinct-remove k ((j, u) ∷ d) h = elim (Bool-cases (j == k)) [
    | inl same ↦ rw same (Distinct-remove k d h.1)
    | inr other ↦ rw other (ground (arith, has-remove k j d, h.0), Distinct-remove k d h.1)
  ]

  put-IsSound : (t : Tool V) (d : Dict String (Tool V)) → IsSound d → IsSound (Dict.put t.name t d)
  put-IsSound t d h = record {
    named = Each-put (λ k (u : Tool V). u.name ≡ k) t.name t d refl h.named;
    distinct = Distinct-put t.name t d h.distinct;
  }

  remove-IsSound : (k : String) (d : Dict String (Tool V)) → IsSound d → IsSound (Dict.remove k d)
  remove-IsSound k d h = record {
    named = Each-remove (λ j (u : Tool V). u.name ≡ j) k d h.named;
    distinct = Distinct-remove k d h.distinct;
  }

  pub reveal-full :
      (ns : List String) (v : View V)
      → ((reveal ns v).1.full ≡ v.full) × ((reveal ns v).1.permissions ≡ v.permissions)
  unfolding reveal
  reveal-full [] v = (refl, refl)
  reveal-full (n ∷ ns) v = elim (Bool-cases (has n v.full.tools && not (elem n v.visible))) [
    | inl new ↦ rw new (reveal-full ns (record v { visible = n ∷ v.visible }))
    | inr old ↦ rw old (reveal-full ns v)
  ]

  answer_found-full :
      (ns blocked : List String) (shown : String) (v : View V)
      → ((answer_found ns blocked shown v).1.full ≡ v.full)
        × ((answer_found ns blocked shown v).1.permissions ≡ v.permissions)
  unfolding answer_found
  answer_found-full [] blocked shown v = (refl, refl)
  answer_found-full (n ∷ ns) blocked shown v = reveal-full (n ∷ ns) v

  module _ {F : Type 0} (floats : Floats F) (lower repr : String → String) where
    unfoldable pub step : Op V → View V → View V
    step (registers t) v = register_shown t v
    step (unregisters name) v = record v { full = (unregister name v.full).1 }
    step (reveals ns) v = (reveal ns v).1
    step (finds top query) v = (find_tool floats lower repr top query v).1

    unfoldable pub run : List (Op V) → View V → View V
    unfolding step
    run [] v = v
    run (op ∷ ops) v = run ops (step op v)

    find_tool-full :
        (top : ℕ) (query : String) (v : View V)
        → ((find_tool floats lower repr top query v).1.full ≡ v.full)
          × ((find_tool floats lower repr top query v).1.permissions ≡ v.permissions)
    unfolding find_tool
    find_tool-full top query v =
        elim (Bool-cases (Text.strip query == "" || is_all (lower (Text.strip query)))) [
          | inl all ↦ rw all (refl, refl)
          | inr some_q ↦ rw some_q (answer_found-full _ _ _ v)
        ]

    step-IsSound : (op : Op V) (v : View V) → IsSound v.full.tools → IsSound (step op v).full.tools
    unfolding step register_shown unregister Dict.remove
    step-IsSound (registers t) v h = put-IsSound t v.full.tools h
    step-IsSound (unregisters name) v h = remove-IsSound name v.full.tools h
    step-IsSound (reveals ns) v h = rw ((reveal-full ns v).0) h
    step-IsSound (finds top query) v h = rw ((find_tool-full top query v).0) h

    pub run-IsSound :
        (ops : List (Op V)) (v : View V) → IsSound v.full.tools → IsSound (run ops v).full.tools
    unfolding run
    run-IsSound [] v h = h
    run-IsSound (op ∷ ops) v h = run-IsSound ops (step op v) (step-IsSound op v h)

    step-permissions : (op : Op V) (v : View V) → (step op v).permissions ≡ v.permissions
    unfolding step register_shown
    step-permissions (registers t) v = refl
    step-permissions (unregisters name) v = refl
    step-permissions (reveals ns) v = (reveal-full ns v).1
    step-permissions (finds top query) v = (find_tool-full top query v).1

    pub run-permissions : (ops : List (Op V)) (v : View V) → (run ops v).permissions ≡ v.permissions
    unfolding run
    run-permissions [] v = refl
    run-permissions (op ∷ ops) v = run-permissions ops (step op v) ∙ step-permissions op v
