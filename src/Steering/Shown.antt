-- ===== src/Steering/Shown.antt =====
-- engine/steering.py: every steer of a block stands in the result that the block is attached to.
use argus_agent.Base.{
  String, true, List, [], ◌∷◌, ◌==◌, ◌≡◌, string_eq, elem, All, arith, refl, subst, Bool-cases, inl,
  inr,
}
use argus_agent.Base.Text
use argus_agent.Loop.Echo.{starts_with, contains, append, joined}
use argus_agent.Steering.{Channel, attach_texts, with_block, block_of, lines_of}
use Prim.Native.String.{◌++◌ as text_append}
use text.Mathlib.TextLemmas.{nil-append, cons-append}

starts_with-longer :
    (s t m : String) → starts_with s m ≡ true → starts_with (text_append s t) m ≡ true
unfolding starts_with
starts_with-longer s t String.[] h = refl
starts_with-longer String.[] t (String.◌∷◌ d m) h = cc
starts_with-longer (String.◌∷◌ c s) t (String.◌∷◌ d m) h =
    rw (cons-append c s t) (ground (arith, h, starts_with-longer s t m))

contains-here : (s m : String) → starts_with s m ≡ true → contains s m ≡ true
unfolding contains
contains-here String.[] m h = h
contains-here (String.◌∷◌ c s) m h = ground (arith, h)

contains-left : (s t m : String) → contains s m ≡ true → contains (text_append s t) m ≡ true
unfolding contains
contains-left String.[] t m h = contains-here (text_append "" t) m (starts_with-longer "" t m h)
contains-left (String.◌∷◌ c s) t m h = elim (Bool-cases (starts_with (String.◌∷◌ c s) m)) [
  | inl e ↦
      contains-here (text_append (String.◌∷◌ c s) t) m (starts_with-longer (String.◌∷◌ c s) t m e)
  | inr e ↦ rw (cons-append c s t) (ground (arith, contains-left s t m (ground (arith, h, e))))
]

contains-right : (s t m : String) → contains t m ≡ true → contains (text_append s t) m ≡ true
unfolding contains
contains-right String.[] t m h = rw (nil-append t) h
contains-right (String.◌∷◌ c s) t m h =
    rw (cons-append c s t) (ground (arith, contains-right s t m h))

starts_with_self : (s : String) → starts_with s s ≡ true
unfolding starts_with
starts_with_self String.[] = refl
starts_with_self (String.◌∷◌ c s) = ground (arith, starts_with_self s)

contains-same : (u t : String) → (u == t) ≡ true → contains u t ≡ true
contains-same u t h =
    subst (λ x. contains u x ≡ true) ((string_eq.same_iff u t).0 h)
      (contains-here u u (starts_with_self u))

contains-lines_of :
    (t : String) (ts : List String) → elem t ts ≡ true → contains (lines_of ts) t ≡ true
unfolding lines_of joined append
contains-lines_of t [] h = cc
contains-lines_of t (u ∷ []) h = contains-same u t (ground (arith, h))
contains-lines_of t (u ∷ v ∷ ts) h = elim (Bool-cases (u == t)) [
  | inl e ↦ contains-left u _ t (contains-same u t e)
  | inr e ↦ contains-right u _ t (
      contains-right "\n" _ t (
        contains-left (lines_of (v ∷ ts)) "" t
          (contains-lines_of t (v ∷ ts) (ground (arith, h, e)))))
]

contains-block_of :
    (sentinel t : String) (ts : List String)
    → elem t ts ≡ true
    → contains (block_of sentinel ts) t ≡ true
unfolding block_of joined append
contains-block_of sentinel t ts h = contains-right _ _ t (
    contains-right sentinel _ t
      (contains-right _ _ t (contains-left (lines_of ts) _ t (contains-lines_of t ts h))))

contains-with_block :
    (result block t : String)
    → contains block t ≡ true
    → contains (with_block result block) t ≡ true
unfolding with_block joined append
contains-with_block result block t h = elim (Bool-cases (Text.is_blank result)) [
  | inl e ↦ rw e h
  | inr e ↦ rw e (
      contains-right (Text.rstrip result) _ t
        (contains-right "\n\n" _ t (contains-left block "" t h)))
]

pub attach-contains :
    (result sentinel t : String) (ts : List String) (c : Channel)
    → elem t ts ≡ true
    → contains (attach_texts result sentinel ts c).0.0 t ≡ true
unfolding attach_texts
attach-contains result sentinel t [] c h = cc
attach-contains result sentinel t (u ∷ ts) c h =
    contains-with_block result _ t (contains-block_of sentinel t (u ∷ ts) h)

contains-each :
    (result sentinel : String) (texts ts : List String) (c : Channel)
    → ((t : String) → elem t ts ≡ true → elem t texts ≡ true)
    → All (λ t. contains (attach_texts result sentinel texts c).0.0 t ≡ true) ts
contains-each result sentinel texts [] c h = tt
contains-each result sentinel texts (t ∷ ts) c h = (
  attach-contains result sentinel t texts c (h t (ground (arith, string_eq.same_iff t t))),
  contains-each result sentinel texts ts c (λ u e. h u (ground (arith, e))),
)

pub attach_texts-shows :
    (result sentinel : String) (texts : List String) (c : Channel)
    → All (λ t. contains (attach_texts result sentinel texts c).0.0 t ≡ true) texts
attach_texts-shows result sentinel texts c = contains-each result sentinel texts texts c (λ t e. e)
