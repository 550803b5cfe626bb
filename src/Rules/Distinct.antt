-- ===== src/Rules/Distinct.antt =====
-- engine/rules/store.py: no rule is kept twice.
use argus_agent.Base.{
  ℕ, ◌+◌, ◌≤◌, String, ◌≡◌, refl, Bool, false, ◌||◌, List, [], ◌∷◌, ◌++◌, arith, nat_eq, string_eq,
  some_of, if◌then◌else◌,
}
use argus_agent.Base.Text
use argus_agent.Rules.{Rule, add, add_text, reenable, same_text, new_rule}

some_of-append :
    (p : Rule → Bool) (rs ss : List Rule) → some_of p (rs ++ ss) ≡ (some_of p rs || some_of p ss)
some_of-append p [] ss = refl
some_of-append p (r ∷ rs) ss = ground (arith, some_of-append p rs ss)

module _ (lower : String → String) where
  -- The number of rules with a text, up to its case.
  unfoldable pub count_text : String → List Rule → ℕ
  count_text text [] = 0
  count_text text (r ∷ rs) = (if same_text lower text r then 1 else 0) + count_text text rs

  count_text-append :
      (text : String) (rs ss : List Rule)
      → count_text text (rs ++ ss) ≡ count_text text rs + count_text text ss
  unfolding count_text
  count_text-append text [] ss = omega arith
  count_text-append text (r ∷ rs) ss = omega (arith, count_text-append text rs ss)

  count_text-reenable :
      (text other : String) (rules : List Rule)
      → count_text other (reenable lower text rules).1 ≡ count_text other rules
  unfolding reenable count_text same_text
  count_text-reenable text other [] = refl
  count_text-reenable text other (r ∷ rs) = ground (arith, count_text-reenable text other rs)

  reenable-new :
      (text other : String) (rules : List Rule)
      → (reenable lower text rules).0 ≡ false
      → lower text ≡ lower other
      → count_text other rules ≡ 0
  unfolding reenable count_text same_text
  reenable-new text other [] e same = refl
  reenable-new text other (r ∷ rs) e same = ground (
    arith,
    string_eq.same_iff (lower r.text) (lower text),
    string_eq.same_iff (lower r.text) (lower other),
    reenable-new text other rs,
  )

  add_text-count_text :
      (text source fresh other : String) (now : ℕ) (rules : List Rule)
      → count_text other rules ≤ 1
      → count_text other (add_text lower text source fresh now rules) ≤ 1
  unfolding add_text count_text same_text
  add_text-count_text text source fresh other now rules h = ground (
    arith,
    count_text-reenable text other rules,
    reenable-new text other rules,
    count_text-append other rules (new_rule lower text source fresh now ∷ []),
    string_eq.same_iff (lower text) (lower other),
  )

  -- If no two rules have the same text up to its case, neither do they after a rule is added.
  pub add-count_text :
      (text source fresh other : String) (now : ℕ) (rules : List Rule)
      → count_text other rules ≤ 1
      → count_text other (add lower text source fresh now rules) ≤ 1
  unfolding add
  add-count_text text source fresh other now rules h =
      add_text-count_text (Text.strip text) source fresh other now rules h
