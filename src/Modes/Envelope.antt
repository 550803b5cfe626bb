-- ===== src/Modes/Envelope.antt =====
-- engine/modes/manual.py: which object of a reply is read.
use argus_agent.Base.{
  String, false, some, List, nat_eq, ◌≡◌, arith, refl, sym, subst, Bool-cases, inl, inr,
}
use argus_agent.Base.Json.{Json}
use argus_agent.Base.Result.{ok}
use argus_agent.Base.Text
use argus_agent.Loop.Echo.{contains, starts_with}
use argus_agent.Modes.{ModelResponse, Library, content_or_empty}
use argus_agent.Modes.Extract.{strip_fences, unfenced, extract}
use argus_agent.Modes.Manual.{interpret, decoded, of_candidate, parse_response}
use argus_agent.Modes.Balanced.{
  Body, finish, char, quote, braces, Quoted, close, raw, escape, quoted_text, body_text,
  object_text, extract-object_text,
}
use Prim.Native.Char.{Char, code}
use Prim.Native.String.{◌++◌}
use text.Mathlib.TextLemmas.{nil-append, cons-append}

lstrip-append :
    (pre : String) (b : Body) (post : String)
    → Text.lstrip (pre ++ object_text b post) ≡ Text.lstrip pre ++ object_text b post
unfolding Text.lstrip object_text Text.is_space
lstrip-append String.[] b post = rw (nil-append (object_text b post)) refl
lstrip-append (String.◌∷◌ c pre) b post =
    rw (cons-append c pre (object_text b post)) (elim (Bool-cases (Text.is_space (code c))) [
      | inl e ↦ rw e (lstrip-append pre b post)
      | inr e ↦ rw e (sym (cons-append c pre (object_text b post)))
    ])

contains-lstrip : (pre : String) → contains pre "{" ≡ false → contains (Text.lstrip pre) "{" ≡ false
unfolding Text.lstrip contains
contains-lstrip String.[] h = h
contains-lstrip (String.◌∷◌ c pre) h = elim (Bool-cases (Text.is_space (code c))) [
  | inl e ↦ rw e (contains-lstrip pre (ground (arith, h)))
  | inr e ↦ rw e h
]

-- `t` is left of `s` without the blanks at its end, and is not empty.
IsTrimmed : String → String → Type 0
IsTrimmed s t = (Text.is_blank s ≡ false) × (Text.rstrip s ≡ t)

IsTrimmed-cons :
    (c : Char) (s t : String) → IsTrimmed s t → IsTrimmed (String.◌∷◌ c s) (String.◌∷◌ c t)
unfolding IsTrimmed Text.is_blank Text.rstrip
IsTrimmed-cons c s t (h, g) = (ground (arith, h), rw (h, g) (ground arith))

IsTrimmed-quoted_text :
    (q : Quoted) (s t : String) → IsTrimmed s t → IsTrimmed (quoted_text q s) (quoted_text q t)
unfolding quoted_text
IsTrimmed-quoted_text close s t h = IsTrimmed-cons _ s t h
IsTrimmed-quoted_text (raw c g q) s t h = IsTrimmed-cons c _ _ (IsTrimmed-quoted_text q s t h)
IsTrimmed-quoted_text (escape c q) s t h =
    IsTrimmed-cons _ _ _ (IsTrimmed-cons c _ _ (IsTrimmed-quoted_text q s t h))

IsTrimmed-body_text :
    (b : Body) (s t : String) → IsTrimmed s t → IsTrimmed (body_text b s) (body_text b t)
unfolding body_text
IsTrimmed-body_text finish s t h = h
IsTrimmed-body_text (char c g b) s t h = IsTrimmed-cons c _ _ (IsTrimmed-body_text b s t h)
IsTrimmed-body_text (quote q b) s t h =
    IsTrimmed-cons _ _ _ (IsTrimmed-quoted_text q _ _ (IsTrimmed-body_text b s t h))
IsTrimmed-body_text (braces a b) s t h =
    IsTrimmed-cons _ _ _
      (IsTrimmed-body_text a _ _ (IsTrimmed-cons _ _ _ (IsTrimmed-body_text b s t h)))

IsTrimmed-append : (pre s t : String) → IsTrimmed s t → IsTrimmed (pre ++ s) (pre ++ t)
IsTrimmed-append String.[] s t h = rw (nil-append s, nil-append t) h
IsTrimmed-append (String.◌∷◌ c pre) s t h =
    rw (cons-append c pre s, cons-append c pre t)
      (IsTrimmed-cons c _ _ (IsTrimmed-append pre s t h))

after_object : (post : String) → IsTrimmed (String.◌∷◌ "}" post) (String.◌∷◌ "}" (Text.rstrip post))
unfolding IsTrimmed Text.is_blank Text.rstrip Text.is_space
after_object post = (refl, refl)

rstrip-object_text :
    (pre : String) (b : Body) (post : String)
    → Text.rstrip (pre ++ object_text b post) ≡ pre ++ object_text b (Text.rstrip post)
unfolding IsTrimmed object_text
rstrip-object_text pre b post =
    (IsTrimmed-append pre _ _
      (IsTrimmed-cons "{" _ _ (IsTrimmed-body_text b _ _ (after_object post)))).1

strip-object_text :
    (pre : String) (b : Body) (post : String)
    → Text.strip (pre ++ object_text b post) ≡ Text.lstrip pre ++ object_text b (Text.rstrip post)
unfolding Text.strip
strip-object_text pre b post =
    rw (lstrip-append pre b post) (rstrip-object_text (Text.lstrip pre) b post)

unfenced_same : (t : String) → starts_with t "```" ≡ false → unfenced t ≡ t
unfolding unfenced
unfenced_same t h = rw h refl

strip_fences-object_text :
    (pre : String) (b : Body) (post : String)
    → starts_with (Text.strip (pre ++ object_text b post)) "```" ≡ false
    → strip_fences (pre ++ object_text b post)
      ≡ Text.lstrip (Text.lstrip pre) ++ object_text b (Text.rstrip (Text.rstrip post))
unfolding strip_fences
strip_fences-object_text pre b post h =
    rw (unfenced_same (Text.strip (pre ++ object_text b post)) h, strip-object_text pre b post)
      (strip-object_text (Text.lstrip pre) b (Text.rstrip post))

-- In a reply that has no fence in front, the manual mode reads the first object: whatever its strings
-- hold, its text goes to `json.loads` whole and alone, without the prose before it, that has no
-- brace, and the prose after it; if it decodes, its value decides.
pub parse_response-object_text :
    (lib : Library) (known : List String) (resp : ModelResponse) (pre : String) (b : Body)
    (post : String) (value : Json)
    → content_or_empty resp ≡ pre ++ object_text b post
    → contains pre "{" ≡ false
    → starts_with (Text.strip (content_or_empty resp)) "```" ≡ false
    → lib.loads (object_text b "") ≡ ok value
    → parse_response lib known resp
      ≡ interpret lib known (content_or_empty resp) (object_text b "") value
unfolding parse_response of_candidate decoded
parse_response-object_text lib known resp pre b post value e g h v =
    let at : extract (strip_fences (content_or_empty resp)) ≡ some (object_text b "") = rw e (
      rw
        (strip_fences-object_text pre b post
          (subst (λ t. starts_with (Text.strip t) "```" ≡ false) e h))
        (extract-object_text _ b _ (contains-lstrip _ (contains-lstrip pre g)))) in
    rw (at, v) refl
