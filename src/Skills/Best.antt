-- ===== src/Skills/Best.antt =====
-- engine/skills/selection/explicit.py: which skill a request activates.
use argus_agent.Base.{ℕ, ◌≤◌, ◌<◌, Option, some, List, [], ◌∷◌, ◌++◌, ◌≡◌, arith, refl, ap, All}
use argus_agent.Skills.{Skill, Skills}

-- The first of the skills with the highest score, where the scores of the skills before it are lower.
pub record IsFirst (f : Skill → ℕ) (skills : List Skill) (s : Skill) : Type 0 where
  pub before : List Skill
  pub after : List Skill
  pub split : skills ≡ before ++ (s ∷ after)
  pub lower_before : All (λ t. f t < f s) before
  pub at_most_after : All (λ t. f t ≤ f s) after

-- What a search that starts with `best` ends with.
data Picked (f : Skill → ℕ) (skills : List Skill) (best : Option Skill × ℕ)
    (found : Option Skill × ℕ) : Type 0 where
  kept : found ≡ best → All (λ t. f t ≤ best.1) skills → Picked f skills best found
  beaten :
      (s : Skill)
      → found ≡ (some s, f s)
      → best.1 < f s
      → IsFirst f skills s
      → Picked f skills best found

module _ (f : Skill → ℕ) where
  IsFirst-cons :
      (t s : Skill) (skills : List Skill)
      → f t < f s
      → IsFirst f skills s
      → IsFirst f (t ∷ skills) s
  IsFirst-cons t s skills h first = record {
    before = t ∷ first.before;
    after = first.after;
    split = ap (λ ss. t ∷ ss) first.split;
    lower_before = (h, first.lower_before);
    at_most_after = first.at_most_after;
  }

  taken :
      (t : Skill) (skills : List Skill) (best found : Option Skill × ℕ)
      → best.1 < f t
      → Picked f skills (some t, f t) found
      → Picked f (t ∷ skills) best found
  taken t skills best found h (kept e low) =
      beaten t e h (record {
        before = [];
        after = skills;
        split = refl;
        lower_before = tt;
        at_most_after = low;
      })
  taken t skills best found h (beaten s e g first) =
      beaten s e (omega (arith, h, g)) (IsFirst-cons t s skills g first)
