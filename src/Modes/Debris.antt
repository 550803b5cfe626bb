-- ===== src/Modes/Debris.antt =====
-- engine/modes/native.py: `Debris` is a text that holds the markup of a call, written without a
-- search, and `looks_like_dropped_tool_call` finds it.
use argus_agent.Base.{
  ℕ, suc, ◌+◌, ◌≤◌, String, Bool, true, false, ◌&&◌, List, [], ◌∷◌, nat_eq, string_eq, elem,
  some_of, ◌≡◌, arith, refl, subst, if◌then◌else◌,
}
use argus_agent.Base.Text
use argus_agent.Loop.Echo.{starts_with, contains, text_drop}
use argus_agent.Modes.{Library}
use argus_agent.Modes.Markup.{
  tags, marks, ends_word, opens_tag, has_tag, has_markup, starts_folded, closes, is_think_close,
  think_closes, looks_like_dropped_tool_call,
}
use Prim.Native.String.{◌++◌}
use text.Mathlib.TextLemmas.{nil-append, cons-append}

pub starts_with-append : (m s : String) → starts_with (m ++ s) m ≡ true
unfolding starts_with
starts_with-append String.[] s = refl
starts_with-append (String.◌∷◌ c m) s =
    rw (cons-append c m s) (ground (arith, starts_with-append m s))

text_drop-append : (m s : String) → text_drop (Text.length m) (m ++ s) ≡ s
unfolding text_drop
text_drop-append String.[] s = nil-append s
text_drop-append (String.◌∷◌ c m) s = rw (cons-append c m s) (text_drop-append m s)

contains-starts_with : (s m : String) → starts_with s m ≡ true → contains s m ≡ true
unfolding contains
contains-starts_with String.[] m h = h
contains-starts_with (String.◌∷◌ c s) m h = ground (arith, h)

pub contains-append : (pre m post : String) → contains (pre ++ (m ++ post)) m ≡ true
unfolding contains
contains-append String.[] m post =
    rw (nil-append (m ++ post)) (contains-starts_with (m ++ post) m (starts_with-append m post))
contains-append (String.◌∷◌ c pre) m post =
    rw (cons-append c pre (m ++ post)) (ground (arith, contains-append pre m post))

module _ (lib : Library) where
  opens_tag-append :
      (tag post : String) → ends_word lib post ≡ true → opens_tag lib (tag ++ post) tag ≡ true
  unfolding opens_tag
  opens_tag-append tag post h = rw (starts_with-append tag post, text_drop-append tag post) h

  has_tag-opens_tag : (s tag : String) → opens_tag lib s tag ≡ true → has_tag lib s tag ≡ true
  unfolding has_tag
  has_tag-opens_tag String.[] tag h = h
  has_tag-opens_tag (String.◌∷◌ c s) tag h = ground (arith, h)

  has_tag-append :
      (pre tag post : String)
      → ends_word lib post ≡ true
      → has_tag lib (pre ++ (tag ++ post)) tag ≡ true
  unfolding has_tag
  has_tag-append String.[] tag post h =
      rw (nil-append (tag ++ post))
        (has_tag-opens_tag (tag ++ post) tag (opens_tag-append tag post h))
  has_tag-append (String.◌∷◌ c pre) tag post h =
      rw (cons-append c pre (tag ++ post)) (ground (arith, has_tag-append pre tag post h))

pub some_of-elem :
    (p : String → Bool) (k : String) (l : List String)
    → elem k l ≡ true
    → p k ≡ true
    → some_of p l ≡ true
some_of-elem p k [] h g = cc
some_of-elem p k (j ∷ l) h g =
    ground (arith, string_eq.same_iff k j, string_eq.same_iff j k, some_of-elem p k l)

and_right : (a b : Bool) → (a && b) ≡ true → b ≡ true
and_right a b h = ground arith

and_left : (a b : Bool) → (a && b) ≡ true → a ≡ true
and_left a b h = ground arith

closes-append : (s t : String) → closes s ≡ true → closes (s ++ t) ≡ true
unfolding closes
closes-append String.[] t h = cc
closes-append (String.◌∷◌ c s) t h = rw (cons-append c s t) (ground (arith, h, closes-append s t))

starts_folded-append : (s t m : String) → starts_folded s m ≡ true → starts_folded (s ++ t) m ≡ true
unfolding starts_folded
starts_folded-append s t String.[] h = refl
starts_folded-append String.[] t (String.◌∷◌ d m) h = cc
starts_folded-append (String.◌∷◌ c s) t (String.◌∷◌ d m) h =
    rw (cons-append c s t) (ground (arith, h, starts_folded-append s t m))

text_drop-folded :
    (s t m : String)
    → starts_folded s m ≡ true
    → text_drop (Text.length m) (s ++ t) ≡ text_drop (Text.length m) s ++ t
unfolding starts_folded text_drop
text_drop-folded s t String.[] h = refl
text_drop-folded String.[] t (String.◌∷◌ d m) h = cc
text_drop-folded (String.◌∷◌ c s) t (String.◌∷◌ d m) h =
    rw (cons-append c s t) (text_drop-folded s t m (and_right _ (starts_folded s m) h))

is_think_close-append : (s t : String) → is_think_close s ≡ true → is_think_close (s ++ t) ≡ true
unfolding is_think_close
is_think_close-append s t h =
    rw
      (
        starts_folded-append s t "</think"
            (and_left (starts_folded s "</think") (closes (text_drop 7 s)) h),
        text_drop-folded s t "</think"
            (and_left (starts_folded s "</think") (closes (text_drop 7 s)) h),
      )
      (closes-append (text_drop 7 s) t
        (and_right (starts_folded s "</think") (closes (text_drop 7 s)) h))

counted :
    (a b : Bool) (m n k : ℕ)
    → (a ≡ true → b ≡ true)
    → m + n ≤ k
    → (if a then suc m else m) + n ≤ (if b then suc k else k)
counted true b m n k h g = rw (h refl) (omega arith)
counted false true m n k h g = omega arith
counted false false m n k h g = g

-- No mark is lost where a text goes on.
think_closes-append : (s t : String) → think_closes s + think_closes t ≤ think_closes (s ++ t)
unfolding think_closes
think_closes-append String.[] t = rw (nil-append t) (omega arith)
think_closes-append (String.◌∷◌ c s) t = rw (cons-append c s t) (
    counted (is_think_close (String.◌∷◌ c s)) (is_think_close (String.◌∷◌ c (s ++ t)))
      (think_closes s) (think_closes t) (think_closes (s ++ t))
      (λ h.
        subst (λ u. is_think_close u ≡ true) (cons-append c s t)
          (is_think_close-append (String.◌∷◌ c s) t h))
      (think_closes-append s t))

pub data Debris (lib : Library) (t : String) : Type 0 where
  marked :
      (pre mark post : String) → elem mark marks ≡ true → t ≡ pre ++ (mark ++ post) → Debris lib t
  tagged :
      (pre tag post : String)
      → elem tag tags ≡ true
      → ends_word lib post ≡ true
      → t ≡ pre ++ (tag ++ post)
      → Debris lib t
  closed :
      (a b c d : String)
      → t ≡ a ++ ("</think>" ++ (b ++ ("</think>" ++ (c ++ ("</think>" ++ d)))))
      → Debris lib t

-- A closing tag at the front counts.
think_closes-here : (s : String) → 1 + think_closes s ≤ think_closes ("</think>" ++ s)
unfolding think_closes
think_closes-here s = think_closes-append "</think>" s

closing :
    (a s : String) (n : ℕ) → n ≤ think_closes s → 1 + n ≤ think_closes (a ++ ("</think>" ++ s))
closing a s n h = omega (arith, h, think_closes-here s, think_closes-append a ("</think>" ++ s))

three_closes :
    (a b c d : String)
    → 3 ≤ think_closes (a ++ ("</think>" ++ (b ++ ("</think>" ++ (c ++ ("</think>" ++ d))))))
three_closes a b c d = closing a _ 2 (closing b _ 1 (closing c d 0 (omega arith)))

module _ (lib : Library) where
  marked-dropped :
      (pre mark post : String)
      → elem mark marks ≡ true
      → has_markup lib (pre ++ (mark ++ post)) ≡ true
  unfolding has_markup
  marked-dropped pre mark post h = ground (
    arith,
    some_of-elem (contains (pre ++ (mark ++ post))) mark marks h (contains-append pre mark post),
  )

  tagged-dropped :
      (pre tag post : String)
      → elem tag tags ≡ true
      → ends_word lib post ≡ true
      → has_markup lib (pre ++ (tag ++ post)) ≡ true
  unfolding has_markup
  tagged-dropped pre tag post h g = ground (
    arith,
    some_of-elem (has_tag lib (pre ++ (tag ++ post))) tag tags h
        (has_tag-append lib pre tag post g),
  )

  pub Debris-looks_like_dropped_tool_call :
      (t : String) → Debris lib t → looks_like_dropped_tool_call lib t ≡ true
  unfolding looks_like_dropped_tool_call
  Debris-looks_like_dropped_tool_call t (marked pre mark post h e) =
      rw e (rw (marked-dropped pre mark post h) refl)
  Debris-looks_like_dropped_tool_call t (tagged pre tag post h g e) =
      rw e (rw (tagged-dropped pre tag post h g) refl)
  Debris-looks_like_dropped_tool_call t (closed a b c d e) =
      rw e (ground (arith, three_closes a b c d))
