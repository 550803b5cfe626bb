-- ===== src/Modes/Balanced.antt =====
-- engine/modes/manual.py: the objects that `_extract_first_json_object` finds. A `Body` is what may
-- stand between two braces: characters, strings and bodies in braces.
use argus_agent.Base.{ℕ, suc, String, Bool, false, ◌||◌, some, ◌==◌, nat_eq, ◌≡◌, arith, refl}
use argus_agent.Loop.Echo.{contains, starts_with}
use argus_agent.Modes.Extract.{
  plain, quoted, next_place, next_depth, is_end, in_front, scan, extract,
}
use Prim.Native.Char.{Char, code}
use Prim.Native.String.{◌++◌}
use text.Mathlib.TextLemmas.{nil-append, cons-append}

abbrev pub is_special : Char → Bool
is_special c = code c == b'"' || code c == b'{' || code c == b'}'

abbrev pub needs_escape : Char → Bool
needs_escape c = code c == b'"' || code c == b'\\'

pub data Quoted : Type 0 where
  close : Quoted
  raw : (c : Char) → needs_escape c ≡ false → Quoted → Quoted
  escape : Char → Quoted → Quoted

pub data Body : Type 0 where
  finish : Body
  char : (c : Char) → is_special c ≡ false → Body → Body
  quote : Quoted → Body → Body
  braces : Body → Body → Body

-- The text of a string after its opening quote, and of a body, in front of what follows.
unfoldable pub quoted_text : Quoted → String → String
quoted_text close rest = String.◌∷◌ "\"" rest
quoted_text (raw c h q) rest = String.◌∷◌ c (quoted_text q rest)
quoted_text (escape c q) rest = String.◌∷◌ "\\" (String.◌∷◌ c (quoted_text q rest))

unfoldable pub body_text : Body → String → String
unfolding quoted_text
body_text finish rest = rest
body_text (char c h b) rest = String.◌∷◌ c (body_text b rest)
body_text (quote q b) rest = String.◌∷◌ "\"" (quoted_text q (body_text b rest))
body_text (braces a b) rest = String.◌∷◌ "{" (body_text a (String.◌∷◌ "}" (body_text b rest)))

scan-quoted :
    (q : Quoted) (d : ℕ) (rest found : String)
    → scan plain d rest ≡ some found
    → scan quoted d (quoted_text q rest) ≡ some (quoted_text q found)
unfolding scan quoted_text next_place next_depth is_end in_front
scan-quoted close d rest found h = rw h refl
scan-quoted (raw c g q) d rest found h = ground (arith, scan-quoted q d rest found h)
scan-quoted (escape c q) d rest found h = ground (arith, scan-quoted q d rest found h)

scan-body :
    (b : Body) (d : ℕ) (rest found : String)
    → scan plain (suc d) rest ≡ some found
    → scan plain (suc d) (body_text b rest) ≡ some (body_text b found)
unfolding scan body_text next_place next_depth is_end in_front
scan-body finish d rest found h = h
scan-body (char c g b) d rest found h = ground (arith, scan-body b d rest found h)
scan-body (quote q b) d rest found h =
    rw (scan-quoted q (suc d) (body_text b rest) (body_text b found) (scan-body b d rest found h))
      refl
scan-body (braces a b) d rest found h =
    let after = scan-body b d rest found h in
    let closed : scan plain (suc (suc d)) (String.◌∷◌ "}" (body_text b rest))
        ≡ some (String.◌∷◌ "}" (body_text b found)) =
      ground (arith, after) in
    rw
      (scan-body a (suc d) (String.◌∷◌ "}" (body_text b rest)) (String.◌∷◌ "}" (body_text b found))
        closed)
      refl

-- An object that stands after a text without braces.
unfoldable pub object_text : Body → String → String
unfolding body_text
object_text b rest = String.◌∷◌ "{" (body_text b (String.◌∷◌ "}" rest))

object-scan :
    (b : Body) (rest : String) → scan plain 0 (object_text b rest) ≡ some (object_text b String.[])
unfolding scan object_text next_place next_depth is_end in_front
object-scan b rest = rw (scan-body b 0 (String.◌∷◌ "}" rest) (String.◌∷◌ "}" String.[]) refl) refl

at_brace :
    (s found : String)
    → scan plain 0 (String.◌∷◌ "{" s) ≡ some found
    → extract (String.◌∷◌ "{" s) ≡ some found
unfolding extract
at_brace s found h = rw h refl

extract-at :
    (b : Body) (rest : String) → extract (object_text b rest) ≡ some (object_text b String.[])
unfolding object_text
extract-at b rest = at_brace (body_text b (String.◌∷◌ "}" rest)) _ (object-scan b rest)

-- The first object in braces is found, whatever its strings hold and whatever stands before it
-- without a brace and after it.
pub extract-object_text :
    (pre : String) (b : Body) (rest : String)
    → contains pre "{" ≡ false
    → extract (pre ++ object_text b rest) ≡ some (object_text b String.[])
unfolding extract contains starts_with
extract-object_text String.[] b rest h = rw (nil-append (object_text b rest)) (extract-at b rest)
extract-object_text (String.◌∷◌ c pre) b rest h =
    rw (cons-append c pre (object_text b rest)) ground (arith, extract-object_text pre b rest)
