-- ===== src/Steering/Replaced.antt =====
-- engine/steering.py: a nonce that was replaced is gone.
use argus_agent.Base.{
  ℕ, zero, suc, ◌-◌, ◌≤◌, ◌<◌, String, Bool, true, false, ◌&&◌, ◌||◌, nat_eq, string_eq, leb, ◌≡◌,
  arith, refl, subst, Bool-cases, inl, inr, if◌then◌else◌,
}
use argus_agent.Base.Text
use argus_agent.Loop.Echo.{starts_with, contains}
use argus_agent.Steering.Secret.{onto, replaced, redacted}
use Prim.Native.Char.{Char, code}

-- `secrets.token_hex` draws such texts.
abbrev pub is_hex : Char → Bool
is_hex c = (leb b'0' (code c) && leb (code c) b'9') || (leb b'a' (code c) && leb (code c) b'f')

unfoldable pub all_hex : String → Bool
all_hex String.[] = true
all_hex (String.◌∷◌ c s) = is_hex c && all_hex s

-- How many digits stand in front.
hex_prefix : String → ℕ
hex_prefix String.[] = 0
hex_prefix (String.◌∷◌ c s) = let n = hex_prefix s in if is_hex c then suc n else 0

length-hex_prefix :
    (s m : String) → all_hex m ≡ true → starts_with s m ≡ true → Text.length m ≤ hex_prefix s
unfolding all_hex hex_prefix starts_with
length-hex_prefix s String.[] h g = omega arith
length-hex_prefix String.[] (String.◌∷◌ d m) h g = cc
length-hex_prefix (String.◌∷◌ c s) (String.◌∷◌ d m) h g = ground (arith, length-hex_prefix s m)

absurd_lt : {A : Type 0} {m n : ℕ} → n ≤ m → m < n → A
absurd_lt h g = absurd (let out : ⊥ = omega (arith, h, g) in out)

-- A text without the nonce stays without it behind the words that stand for it.
step :
    (c : Char) (s m : String)
    → all_hex m ≡ true
    → hex_prefix (String.◌∷◌ c s) < Text.length m
    → contains s m ≡ false
    → contains (String.◌∷◌ c s) m ≡ false
unfolding contains
step c s m h short g = elim (Bool-cases (starts_with (String.◌∷◌ c s) m)) [
  | inl e ↦ absurd_lt (length-hex_prefix (String.◌∷◌ c s) m h e) short
  | inr e ↦ rw e g
]

-- At each place of `w` fewer than five digits stand in front.
short : String → String → Bool
unfolding hex_prefix onto
short String.[] s = true
short (String.◌∷◌ c w) s = leb (hex_prefix (String.◌∷◌ c (onto w s))) 4 && short w s

contains-onto :
    (w s m : String)
    → all_hex m ≡ true
    → 5 ≤ Text.length m
    → short w s ≡ true
    → contains s m ≡ false
    → contains (onto w s) m ≡ false
unfolding onto short
contains-onto String.[] s m h long few g = g
contains-onto (String.◌∷◌ c w) s m h long few g =
    step c (onto w s) m h (ground (arith, few, long))
      (contains-onto w s m h long (ground (arith, few)) g)

short-redacted : (s : String) → short redacted s ≡ true
unfolding short onto hex_prefix
short-redacted s = refl

replaced-past :
    (old new : String) (c : Char) (s : String)
    → starts_with (String.◌∷◌ c s) old ≡ true
    → replaced old new zero (String.◌∷◌ c s) ≡ onto new (replaced old new (Text.length old - 1) s)
unfolding replaced
replaced-past old new c s h = rw h refl

replaced-kept :
    (old new : String) (c : Char) (s : String)
    → starts_with (String.◌∷◌ c s) old ≡ false
    → replaced old new zero (String.◌∷◌ c s) ≡ String.◌∷◌ c (replaced old new zero s)
unfolding replaced
replaced-kept old new c s h = rw h refl

redacted-starts_with :
    (s m : String) → all_hex m ≡ true → starts_with (onto redacted s) m ≡ true → m ≡ ""
unfolding all_hex starts_with onto
redacted-starts_with s String.[] h g = refl
redacted-starts_with s (String.◌∷◌ d m) h g = ground (arith, h, g)

starts_with-cons :
    (c d : Char) (s t m : String)
    → (starts_with s m ≡ true → starts_with t m ≡ true)
    → starts_with (String.◌∷◌ c s) (String.◌∷◌ d m) ≡ true
    → starts_with (String.◌∷◌ c t) (String.◌∷◌ d m) ≡ true
unfolding starts_with
starts_with-cons c d s t m h g = ground (arith, h, g)

all_hex-tail : (c : Char) (s : String) → all_hex (String.◌∷◌ c s) ≡ true → all_hex s ≡ true
unfolding all_hex
all_hex-tail c s h = ground (arith, h)

starts_with-nil : (s : String) → starts_with s "" ≡ true
unfolding starts_with
starts_with-nil s = refl

-- Where the nonce stands at the front of what was written, it stood in the original.
starts_with-replaced :
    (m old s : String)
    → all_hex m ≡ true
    → starts_with (replaced old redacted zero s) m ≡ true
    → starts_with s m ≡ true
starts_with-replaced String.[] old s h g = starts_with-nil s
starts_with-replaced (String.◌∷◌ d m) old String.[] h g = unfold replaced in g
starts_with-replaced (String.◌∷◌ d m) old (String.◌∷◌ c s) h g =
    elim (Bool-cases (starts_with (String.◌∷◌ c s) old)) [
      | inl e ↦
          let none : String.◌∷◌ d m ≡ "" = redacted-starts_with _ (String.◌∷◌ d m) h (
            subst (λ t. starts_with t (String.◌∷◌ d m) ≡ true) (replaced-past old redacted c s e)
              g) in
          rw none (starts_with-nil (String.◌∷◌ c s))
      | inr e ↦
          starts_with-cons c d _ s m (starts_with-replaced m old s (all_hex-tail d m h)) (
            subst (λ t. starts_with t (String.◌∷◌ d m) ≡ true) (replaced-kept old redacted c s e) g)
    ]

contains-cons :
    (c : Char) (s m : String)
    → starts_with (String.◌∷◌ c s) m ≡ false
    → contains s m ≡ false
    → contains (String.◌∷◌ c s) m ≡ false
unfolding contains
contains-cons c s m h g = rw h g

empty-contains : (m : String) → 5 ≤ Text.length m → contains "" m ≡ false
unfolding contains starts_with
empty-contains String.[] h = absurd_lt {m = 0} h (omega arith)
empty-contains (String.◌∷◌ c m) h = refl

replaced-suc :
    (old new : String) (n : ℕ) (c : Char) (s : String)
    → replaced old new (suc n) (String.◌∷◌ c s) ≡ replaced old new n s
unfolding replaced
replaced-suc old new n c s = refl

still :
    (old : String) (c : Char) (s : String)
    → all_hex old ≡ true
    → starts_with (String.◌∷◌ c s) old ≡ false
    → starts_with (String.◌∷◌ c (replaced old redacted zero s)) old ≡ false
still old c s h e =
    elim (Bool-cases (starts_with (String.◌∷◌ c (replaced old redacted zero s)) old)) [
      | inl g ↦
          let back : starts_with (String.◌∷◌ c s) old ≡ true =
            starts_with-replaced old old (String.◌∷◌ c s) h
              (rw (replaced-kept old redacted c s e) g) in
          cc
      | inr g ↦ g
    ]

-- Where `old` is replaced by these words it stands nowhere after.
pub contains-replaced :
    (old : String) (n : ℕ) (s : String)
    → all_hex old ≡ true
    → 5 ≤ Text.length old
    → contains (replaced old redacted n s) old ≡ false
contains-replaced old n String.[] h long = unfold replaced in empty-contains old long
contains-replaced old (suc n) (String.◌∷◌ c s) h long =
    rw (replaced-suc old redacted n c s) (contains-replaced old n s h long)
contains-replaced old zero (String.◌∷◌ c s) h long =
    elim (Bool-cases (starts_with (String.◌∷◌ c s) old)) [
      | inl e ↦ rw (replaced-past old redacted c s e) (
          contains-onto redacted _ old h long (short-redacted _)
            (contains-replaced old (Text.length old - 1) s h long))
      | inr e ↦
          rw (replaced-kept old redacted c s e)
            (contains-cons c _ old (still old c s h e) (contains-replaced old zero s h long))
    ]
