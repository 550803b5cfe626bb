-- ===== src/Routines/Named.antt =====
-- engine/routines/store.py: the texts that `_NAME_RE` matches.
use argus_agent.Base.{
  String, Bool, true, false, ◌&&◌, ◌||◌, List, [], ◌∷◌, ◌==◌, nat_eq, string_eq, leb, each_of, All,
  ◌≡◌, arith, refl, ap, Bool-cases, inl, inr,
}
use argus_agent.Routines.{is_small, ends_name, is_name}
use Prim.Native.Char.{Char, code}

-- Small letters, digits and underscores.
abbrev pub is_snake : String → Bool
is_snake String.[] = true
is_snake (String.◌∷◌ c s) =
    ((leb b'a' (code c) && leb (code c) b'z')
      || (leb b'0' (code c) && leb (code c) b'9')
      || code c == b'_')
    && is_snake s

-- A name in snake_case: a small letter, and such characters.
abbrev pub is_snake_name : String → Bool
is_snake_name String.[] = false
is_snake_name (String.◌∷◌ c s) = (leb b'a' (code c) && leb (code c) b'z') && is_snake s

-- The text with one more character behind it.
abbrev pub followed : Char → String → String
followed b String.[] = String.◌∷◌ b String.[]
followed b (String.◌∷◌ c s) = String.◌∷◌ c (followed b s)

-- A name in snake_case, or one with a line break behind it.
pub data IsName (s : String) : Type 0 where
  exact : is_snake_name s ≡ true → IsName s
  broken :
      (core : String) (b : Char)
      → is_snake_name core ≡ true
      → code b ≡ 10
      → s ≡ followed b core
      → IsName s

data Ends (s : String) : Type 0 where
  snake : is_snake s ≡ true → Ends s
  with_break :
      (core : String) (b : Char) → is_snake core ≡ true → code b ≡ 10 → s ≡ followed b core → Ends s

only_break : (c : Char) (s : String) → (code c == 10 && s == "") ≡ true → Ends (String.◌∷◌ c s)
only_break c s h =
    with_break "" c refl (ground (arith, h))
      (ap (String.◌∷◌ c) ((string_eq.same_iff s "").0 (ground (arith, h))))

longer :
    (c : Char) (s : String)
    → ((leb b'a' (code c) && leb (code c) b'z')
        || (leb b'0' (code c) && leb (code c) b'9')
        || code c == b'_')
      ≡ true
    → Ends s
    → Ends (String.◌∷◌ c s)
longer c s h (snake g) = snake (ground (arith, h, g))
longer c s h (with_break core b g n e) =
    with_break (String.◌∷◌ c core) b (ground (arith, h, g)) n (ap (String.◌∷◌ c) e)

ends_name-Ends : (s : String) → ends_name s ≡ true → Ends s
unfolding ends_name is_small
ends_name-Ends String.[] h = snake refl
ends_name-Ends (String.◌∷◌ c s) h = elim (Bool-cases (code c == 10 && s == "")) [
  | inl e ↦ only_break c s e
  | inr e ↦ longer c s (ground (arith, h, e)) (ends_name-Ends s (ground (arith, h, e)))
]

first :
    (c : Char) (s : String)
    → (leb b'a' (code c) && leb (code c) b'z') ≡ true
    → Ends s
    → IsName (String.◌∷◌ c s)
first c s h (snake g) = exact (ground (arith, h, g))
first c s h (with_break core b g n e) =
    broken (String.◌∷◌ c core) b (ground (arith, h, g)) n (ap (String.◌∷◌ c) e)

pub is_name-IsName : (s : String) → is_name s ≡ true → IsName s
unfolding is_name is_small
is_name-IsName String.[] h = cc
is_name-IsName (String.◌∷◌ c s) h =
    first c s (ground (arith, h)) (ends_name-Ends s (ground (arith, h)))

pub each_of-IsName : (names : List String) → each_of is_name names ≡ true → All IsName names
each_of-IsName [] h = tt
each_of-IsName (n ∷ names) h =
    (is_name-IsName n (ground (arith, h)), each_of-IsName names (ground (arith, h)))
