-- ===== src/Loop/Words.antt =====
-- engine/loop.py: `_value_tokens` and `_jaccard`. A word is the list of its lower-case character
-- codes, a set is a list without doubles, and a similarity is a fraction in place of a float.
use argus_agent.Base.{
  ℕ, ◌+◌, ◌-◌, ◌*◌, String, ◌≡◌, refl, subst, Bool, true, false, ◌&&◌, ◌||◌, Option, none, some,
  List, [], ◌∷◌, ◌++◌, arith, Keyed, ◌==◌, nat_eq, string_eq, pair_eq, elem, add, keep, length,
  if◌then◌else◌, leb,
}
use argus_agent.Base.Json.{Json, Items, Fields}
use Prim.Native.Char.{code}

abbrev pub Word : Type 0
Word = List ℕ

pub same_word : Word → Word → Bool
same_word [] [] = true
same_word [] (d ∷ w) = false
same_word (c ∷ v) [] = false
same_word (c ∷ v) (d ∷ w) = c == d && same_word v w

pub same_word-same : (v w : Word) → same_word v w ≡ true → v ≡ w
unfolding same_word
same_word-same [] [] h = refl
same_word-same [] (d ∷ w) h = ground arith
same_word-same (c ∷ v) [] h = ground arith
same_word-same (c ∷ v) (d ∷ w) h = ground (arith, nat_eq.same_iff c d, same_word-same v w)

pub same_word_refl : (v : Word) → same_word v v ≡ true
unfolding same_word
same_word_refl [] = refl
same_word_refl (c ∷ v) = ground (arith, nat_eq.same_iff c c, same_word_refl v)

instance abbrev pub word_eq : Keyed Word
word_eq = record {
  same = same_word;
  same_iff =
      λ v w. (same_word-same v w, λ e. subst (λ x. same_word v x ≡ true) e (same_word_refl v));
}

-- The code of the character in `[a-z0-9]` that `lower` gives for one: two characters outside ASCII
-- have a letter of ASCII as their lower case.
lowered : ℕ → Option ℕ
lowered c =
    if (leb 97 c && leb c 122) || (leb 48 c && leb c 57)
    then some c
    else if leb 65 c && leb c 90
    then some (c + 32)
    else if c == 0x212a
    then some 107
    else none

-- `re.findall(r"[a-z0-9]+", s.lower())`, with the word that is being read. The capital I with a
-- dot above has two characters as its lower case, and the second ends the word.
words_from : Word → String → List Word
unfolding lowered
words_from w String.[] = if w == [] then [] else w ∷ []
words_from w (String.◌∷◌ c s) =
    let ended = words_from [] s in
    elim (lowered (code c)) [
      | some d ↦ words_from (w ++ d ∷ []) s
      | none ↦
          if code c == 0x130 then (w ++ 105 ∷ []) ∷ ended else if w == [] then ended else w ∷ ended
    ]

pub words : String → List Word
unfolding words_from
words s = words_from [] s

pub set_of : List Word → List Word
set_of [] = []
set_of (w ∷ ws) = add w (set_of ws)

-- `str` of a value that is no list and no dict is a parameter.
module _ (str_of : Json → String) where
  mutual
    json_words : Json → List Word
    json_words Json.null = words (str_of Json.null)
    json_words (Json.bool b) = words (str_of (Json.bool b))
    json_words (Json.number n) = words (str_of (Json.number n))
    json_words (Json.text s) = words s
    json_words (Json.array items) = items_words items
    json_words (Json.object fields) = fields_words fields

    items_words : Items → List Word
    items_words Items.nil = []
    items_words (Items.cons x xs) = json_words x ++ items_words xs

    fields_words : Fields → List Word
    fields_words Fields.end = []
    fields_words (Fields.field k x xs) = json_words x ++ fields_words xs

  pub value_tokens : Fields → List Word
  value_tokens args = set_of (fields_words args)

-- A fraction; the denominator is never zero.
pub record Fraction : Type 0 where
  pub num : ℕ
  pub den : ℕ

pub common : List Word → List Word → ℕ
common a b = length (keep (λ w. elem w b) a)

-- `len(a | b)` is `len(a) + len(b) - len(a & b)`.
pub jaccard : List Word → List Word → Fraction
unfolding common
jaccard [] [] = record { num = 1; den = 1 }
jaccard [] (w ∷ b) = record { num = 0; den = 1 }
jaccard (v ∷ a) [] = record { num = 0; den = 1 }
jaccard (v ∷ a) (w ∷ b) = record {
  num = common (v ∷ a) (w ∷ b);
  den = (length (v ∷ a) + length (w ∷ b)) - common (v ∷ a) (w ∷ b);
}

pub sum : List Fraction → Fraction
sum [] = record { num = 0; den = 1 }
sum (x ∷ xs) =
    let rest = sum xs in
    record { num = x.num * rest.den + rest.num * x.den; den = x.den * rest.den }

-- `sum(xs) / len(xs) >= limit`
pub mean_reaches : List Fraction → Fraction → Bool
unfolding sum
mean_reaches xs limit = leb (limit.num * (sum xs).den * length xs) ((sum xs).num * limit.den)
