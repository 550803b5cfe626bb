-- ===== src/Tools/Ranking.antt =====
-- engine/textmatch.py, and the ranking of tools in engine/tools/disclosure.py. The floats of Python and
-- their operations are a parameter, as are `str.lower` and, for documents, embeddings.
use argus_agent.Base.{
  ℕ, ◌-◌, max, String, Bool, true, false, not, ◌&&◌, ◌||◌, Option, none, some, List, [], ◌∷◌, ◌++◌,
  map, ◌==◌, nat_eq, string_eq, elem, add, keep, take, length, if◌then◌else◌, ltb, leb,
}
use argus_agent.Base.Dict
use argus_agent.Base.Dict.{Dict}
use argus_agent.Base.Text
use argus_agent.Loop.Echo.{contains}
use argus_agent.Loop.Words.{Word, word_eq, words, set_of, common}
use argus_agent.Tools.{Property, Tool, Registry, names, list, denied_names, or_empty}
use Prim.Native.Char.{code}

pub stop_words : List Word
stop_words =
    words
      "the and for with that this from into your you use using when what how a an to of in on it is are then by or as at be"

pub tokens : String → List Word
unfolding stop_words
tokens s = set_of (keep (λ w. ltb 2 (length w) && not (elem w stop_words)) (words s))

-- `name.replace("_", " ")`
pub spaced : String → String
spaced String.[] = String.[]
spaced (String.◌∷◌ c s) =
    if code c == 95 then Prim.Native.String.◌++◌ " " (spaced s) else String.◌∷◌ c (spaced s)

-- `if p`, of the texts that are joined.
full : List String → List String
full parts = keep (λ s. not (s == "")) parts

property_parts : Dict String Property → List String
unfolding or_empty
property_parts [] = []
property_parts ((name, p) ∷ ps) = name ∷ or_empty p.description ∷ property_parts ps

pub tool_doc : {V : Type 0} → Tool V → String
unfolding full property_parts
tool_doc t = Text.join " " (full (t.name ∷ t.description ∷ property_parts t.schema.properties))

-- Python's floats, as far as the scores need them.
pub record Floats (F : Type 0) : Type 0 where
  pub of_nat : ℕ → F
  pub plus : F → F → F
  pub times : F → F → F
  pub over : F → F → F
  pub root : F → F
  pub less : F → F → Bool
  pub equal : F → F → Bool

is_empty : {F : Type 0} → List F → Bool
is_empty [] = true
is_empty (x ∷ xs) = false

-- Documents and the query as vectors; what is not there is empty.
pub record Embedded (F : Type 0) : Type 0 where
  pub docs : Dict String (List F)
  pub query : List F

is_usable : {F : Type 0} → Embedded F → Bool
unfolding is_empty
is_usable e = elim e.docs [ [] ↦ false | d ∷ ds ↦ not (is_empty e.query) ]

-- The mode that is left where there are no embeddings.
mode_with : {F : Type 0} → Embedded F → String → String
unfolding is_usable
mode_with e mode =
    if (mode == "embedding" || mode == "hybrid") && not (is_usable e) then "keyword" else mode

vector : {F : Type 0} → Option (List F) → List F
vector none = []
vector (some v) = v

-- `set(xs) | ys`
unfoldable pub union : List String → List String → List String
union [] ys = ys
union (x ∷ xs) ys = add x (union xs ys)

-- The names that are shown whatever the ranking says.
unfoldable pub kept_names : {V : Type 0} → Registry V → List String → List String → List String
unfolding union names denied_names
kept_names r core pinned =
    let known = keep (λ n. not (elem n (denied_names r))) (names r) in
    union (keep (λ n. elem n known) core) (union (keep (λ n. elem n known) pinned) [])

-- The order in which ranked tools are shown: a better score first, and among equal scores the one that
-- was there before.
unfoldable pub placed : {F : Type 0} → Floats F → String × F → List (String × F) → List (String × F)
placed floats e [] = e ∷ []
placed floats e (o ∷ os) =
    let later = placed floats e os in if floats.less o.1 e.1 then e ∷ o ∷ os else o ∷ later

module _ {F : Type 0} (floats : Floats F) where
  -- `sum(x * y for x, y in zip(xs, ys))`, on the sum so far.
  dot : F → List F → List F → F
  dot acc [] ys = acc
  dot acc (x ∷ xs) [] = acc
  dot acc (x ∷ xs) (y ∷ ys) = dot (floats.plus acc (floats.times x y)) xs ys

  quotient : F → F → F → F
  quotient d na nb =
      if floats.equal na (floats.of_nat 0) || floats.equal nb (floats.of_nat 0)
      then floats.of_nat 0
      else floats.over d (floats.times na nb)

  pub cosine : List F → List F → F
  unfolding dot quotient is_empty
  cosine a b =
      if is_empty a || is_empty b || not (length a == length b)
      then floats.of_nat 0
      else quotient (dot (floats.of_nat 0) a b) (floats.root (dot (floats.of_nat 0) a a))
          (floats.root (dot (floats.of_nat 0) b b))

  -- `max(0.0, min(1.0, emb))`
  clamped : F → F
  clamped emb =
      let low = if floats.less emb (floats.of_nat 1) then emb else floats.of_nat 1 in
      if floats.less (floats.of_nat 0) low then low else floats.of_nat 0

  -- `W_NAME_HIT`, `W_OVERLAP` and `W_EMB`
  w_name_hit : F
  w_name_hit = floats.of_nat 5

  w_overlap : F
  w_overlap = floats.of_nat 2

  w_emb : F
  w_emb = floats.of_nat 3

  emb_part : Option F → F → F
  unfolding clamped w_emb
  emb_part none score = score
  emb_part (some emb) score = floats.plus score (floats.times w_emb (clamped emb))

  overlap_part : List Word → String → F → F
  unfolding tokens w_overlap
  overlap_part [] doc score = score
  overlap_part (w ∷ ws) doc score = floats.plus score (
      floats.times w_overlap (
        floats.over (floats.of_nat (common (w ∷ ws) (tokens doc)))
          (floats.of_nat (max 1 (length (w ∷ ws))))))

  is_named : String → String → Bool
  unfolding contains spaced
  is_named name query = not (name == "") && (contains query name || contains query (spaced name))

  module _ (lower : String → String) {V : Type 0} where
    pub score_tool : Tool V → List Word → String → Option F → F
    unfolding is_named overlap_part emb_part tool_doc w_name_hit
    score_tool t qtok query emb = emb_part emb (
        overlap_part qtok (tool_doc t) (
          if is_named (lower t.name) query
          then floats.plus (floats.of_nat 0) w_name_hit
          else floats.of_nat 0))

    emb_of : String → Embedded F → Tool V → Option F
    unfolding cosine vector
    emb_of mode e t =
        if mode == "embedding" || mode == "hybrid"
        then some (cosine e.query (vector (Dict.get t.name e.docs)))
        else none

    score_in : String → String → Embedded F → Tool V → F
    unfolding score_tool emb_of
    score_in mode text e t =
        score_tool t (if mode == "embedding" then [] else tokens text) (lower text)
          (emb_of mode e t)

    -- The tools that are not skipped, put in their places one by one.
    unfoldable pub ranked :
        (Tool V → F) → List String → List (Tool V) → List (String × F) → List (String × F)
    unfolding placed
    ranked score skip [] done = done
    ranked score skip (t ∷ ts) done =
        let with_it = ranked score skip ts (placed floats (t.name, score t) done) in
        let without = ranked score skip ts done in if elem t.name skip then without else with_it

    unfoldable pub rank_tools :
        Registry V → String → String → Embedded F → List String → Bool → List (String × F)
    unfolding ranked score_in mode_with denied_names list
    rank_tools r text mode e exclude include_denied =
        let skip = if include_denied then exclude else exclude ++ denied_names r in
        ranked (score_in (mode_with e mode) text e) skip (list r) []

    unfoldable pub select_visible :
        Registry V → String → String → ℕ → List String → List String → Embedded F → List String
    unfolding kept_names rank_tools union
    select_visible r text mode k core pinned e =
        let kept = kept_names r core pinned in
        if leb k (length kept)
        then kept
        else union (map (λ x. x.0) (take (k - length kept) (rank_tools r text mode e kept false)))
            kept
