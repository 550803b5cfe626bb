-- ===== src/Steering/Forged.antt =====
-- engine/steering.py: which markers in a text are reported.
use argus_agent.Base.{
  ◌≤◌, String, Bool, true, false, not, ◌&&◌, ◌||◌, Option, none, some, List, [], ◌∷◌, ◌++◌, ◌==◌,
  ◌≡◌, nat_eq, string_eq, elem, arith, refl, ap, ◌∙◌, Bool-cases, inl, inr, if◌then◌else◌,
}
use argus_agent.Base.Text
use argus_agent.Loop.Echo.{starts_with, text_drop}
use argus_agent.Modes.{Library}
use argus_agent.Modes.Markup.{ends_word, after_blanks}
use argus_agent.Steering.{Channel}
use argus_agent.Steering.Secret.{onto}
use argus_agent.Steering.Marker.{
  is_id_char, id_in, after_id, closed_id, id_at, without_end, named_at, marker_at, with_id, ids_of,
  unissued, inspect,
}
use Prim.Native.Char.{Char}

-- The text of a marker with an id, in front of what follows.
unfoldable pub marker : String → String → String
unfolding onto
marker id post = onto "<<<USER_STEER id=" (onto id (onto ">>>" post))

unfoldable pub is_id : String → Bool
is_id String.[] = true
is_id (String.◌∷◌ c s) = is_id_char c && is_id s

id_in-onto : (id post : String) → is_id id ≡ true → id_in (onto id (onto ">>>" post)) ≡ id
unfolding id_in onto is_id
id_in-onto String.[] post h = refl
id_in-onto (String.◌∷◌ c id) post h =
    rw (id_in-onto id post (ground (arith, h))) (ground (arith, h))

after_id-onto :
    (id post : String) → is_id id ≡ true → after_id (onto id (onto ">>>" post)) ≡ onto ">>>" post
unfolding after_id onto is_id
after_id-onto String.[] post h = refl
after_id-onto (String.◌∷◌ c id) post h = ground (arith, h, after_id-onto id post)

starts_with-close : (post : String) → starts_with (after_blanks (onto ">>>" post)) ">>>" ≡ true
unfolding onto after_blanks starts_with
starts_with-close post = refl

closed_id-onto :
    (id post : String)
    → is_id id ≡ true
    → 1 ≤ Text.length id
    → Text.length id ≤ 64
    → closed_id (onto id (onto ">>>" post)) ≡ some id
unfolding closed_id
closed_id-onto id post h some_char few =
    rw (id_in-onto id post h, after_id-onto id post h, starts_with-close post) (ground arith)

marker_at-id :
    (lib : Library) (s : String)
    → lib.is_alnum 32 ≡ false
    → marker_at lib (onto "<<<USER_STEER id=" s) ≡ closed_id s
unfolding marker_at named_at without_end id_at ends_word after_blanks onto starts_with text_drop
    Text.lstrip Text.is_space
marker_at-id lib s blank = rw blank refl

elem-with_id :
    (k : String) (o : Option String) (ids : List String)
    → elem k ids ≡ true
    → elem k (with_id o ids) ≡ true
unfolding with_id
elem-with_id k none ids h = h
elem-with_id k (some id) ids h = ground (arith, h)

elem-ids_of-onto :
    (lib : Library) (pre s k : String)
    → elem k (ids_of lib s) ≡ true
    → elem k (ids_of lib (onto pre s)) ≡ true
unfolding ids_of onto
elem-ids_of-onto lib String.[] s k h = h
elem-ids_of-onto lib (String.◌∷◌ c pre) s k h =
    elem-with_id k (marker_at lib (String.◌∷◌ c (onto pre s))) _ (elem-ids_of-onto lib pre s k h)

elem-first :
    (lib : Library) (c : Char) (s id : String)
    → marker_at lib (String.◌∷◌ c s) ≡ some id
    → elem id (ids_of lib (String.◌∷◌ c s)) ≡ true
unfolding ids_of with_id
elem-first lib c s id h = rw h (ground (arith, string_eq.same_iff id id))

elem-marker :
    (lib : Library) (pre id post : String)
    → lib.is_alnum 32 ≡ false
    → is_id id ≡ true
    → 1 ≤ Text.length id
    → Text.length id ≤ 64
    → elem id (ids_of lib (onto pre (marker id post))) ≡ true
unfolding marker
elem-marker lib pre id post blank h some_char few = elem-ids_of-onto lib pre _ id (
    unfold onto in
    elem-first lib "<" _ id (marker_at-id lib _ blank ∙ closed_id-onto id post h some_char few))

pub elem-append :
    (k id : String) (found : List String) → elem k (found ++ (id ∷ [])) ≡ (elem k found || id == k)
elem-append k id [] = ground arith
elem-append k id (j ∷ found) = ground (arith, elem-append k id found)

elem-same : (id k : String) (l : List String) → (id == k) ≡ true → elem id l ≡ elem k l
elem-same id k l h = ap (λ x. elem x l) ((string_eq.same_iff id k).0 h)

elem-unissued :
    (slots ids found : List String) (k : String)
    → elem k (unissued slots ids found) ≡ (elem k found || (elem k ids && not (elem k slots)))
unfolding unissued
elem-unissued slots [] found k = ground arith
elem-unissued slots (id ∷ ids) found k =
    elem-unissued slots ids (if elem id slots || elem id found then found else found ++ (id ∷ [])) k
    ∙ elim (Bool-cases (id == k)) [
      | inl same ↦ ground (
        arith,
        same,
        elem-same id k slots same,
        elem-same id k found same,
        elem-append k id found,
      )
      | inr other ↦ ground (arith, other, elem-append k id found)
    ]

-- Where a blank is no letter or digit: a marker with an id, of at most 64 characters, that stands
-- anywhere in a text is reported exactly when the channel did not issue its id.
pub elem-inspect_marker :
    (lib : Library) (c : Channel) (pre id post : String)
    → lib.is_alnum 32 ≡ false
    → is_id id ≡ true
    → 1 ≤ Text.length id
    → Text.length id ≤ 64
    → elem id (inspect lib c (onto pre (marker id post))) ≡ not (elem id c.slots)
unfolding inspect
elem-inspect_marker lib c pre id post blank h some_char few =
    rw (elem-unissued c.slots (ids_of lib (onto pre (marker id post))) [] id)
      (rw (elem-marker lib pre id post blank h some_char few) refl)
