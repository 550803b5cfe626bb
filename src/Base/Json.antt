-- ===== src/Base/Json.antt =====
-- The values that Python's `json.loads` returns. A number is kept as its text, since the program
-- only asks whether a value is one; the fields of an object have distinct keys, in order.
use Prim.Native.String.{String}
use Prim.Native.Char.{code}
use mathlib.Core.Bool.{Bool, true, false, not, ◌&&◌, ◌||◌}
use argus_agent.Base.Tests.{◌==◌, nat_eq, string_eq, if◌then◌else◌}

mutual
  pub data Json : Type 0 where
    null : Json
    bool : Bool → Json
    number : String → Json
    text : String → Json
    array : Items → Json
    object : Fields → Json

  pub data Items : Type 0 where
    nil : Items
    cons : Json → Items → Items

  pub data Fields : Type 0 where
    end : Fields
    field : String → Json → Fields → Fields

-- Whether a number is zero, by its digits before an exponent.
unfoldable pub is_zero : String → Bool
is_zero String.[] = true
is_zero (String.◌∷◌ c s) =
    if code c == 101 || code c == 69
    then true
    else (code c == 48 || code c == 45 || code c == 46) && is_zero s

-- `bool(x)`
unfoldable pub is_truthy : Json → Bool
unfolding is_zero
is_truthy Json.null = false
is_truthy (Json.bool b) = b
is_truthy (Json.number n) = not (is_zero n)
is_truthy (Json.text s) = not (s == "")
is_truthy (Json.array Items.nil) = false
is_truthy (Json.array (Items.cons x xs)) = true
is_truthy (Json.object Fields.end) = false
is_truthy (Json.object (Fields.field k x xs)) = true
