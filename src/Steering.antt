-- ===== src/Steering.antt =====
-- engine/steering.py: `SteerChannel`, its queue and what it attaches to the results of tools. The
-- sentinel that `secrets` draws is an argument.
pub mod Shown
pub mod Delivery
pub mod Secret
pub mod Replaced
pub mod Hidden
pub mod Marker
pub mod Forged
pub mod Spliced
pub mod Delivered
mod Examples
use argus_agent.Base.{
  ℕ, ◌+◌, ◌≤◌, String, ◌≡◌, Bool, Option, none, some, List, [], ◌∷◌, ◌++◌, ◌==◌, string_eq, add,
  length, if◌then◌else◌, ltb, leb,
}
use argus_agent.Base.Text
use argus_agent.Loop.Echo.{joined}

pub record Channel : Type 0 where
  pub nonce : String
  pub max_chars : ℕ
  pub max_pending : ℕ
  pub pending : List String
  pub slots : List String
  pub delivered : ℕ

-- `STEER_MAX_CHARS` and `STEER_MAX_PENDING`
abbrev pub steer_max_chars : ℕ
steer_max_chars = 2000

abbrev pub steer_max_pending : ℕ
steer_max_pending = 3

abbrev pub opened : String → Channel
opened nonce = record {
  nonce = nonce;
  max_chars = steer_max_chars;
  max_pending = steer_max_pending;
  pending = [];
  slots = [];
  delivered = 0;
}

pub data Answer : Type 0 where
  empty : Answer
  too_long : ℕ → ℕ → Answer
  too_many : ℕ → Answer
  accepted : ℕ → Answer

unfoldable pub queue_text : String → Channel → Answer × Channel
queue_text text c =
    if text == ""
    then (empty, c)
    else if ltb c.max_chars (Text.length text)
    then (too_long c.max_chars (Text.length text), c)
    else if leb c.max_pending (length c.pending)
    then (too_many c.max_pending, c)
    else (accepted (length (c.pending ++ text ∷ [])), record c { pending = c.pending ++ text ∷ [] })

unfoldable pub queue : String → Channel → Answer × Channel
unfolding queue_text
queue text c = queue_text (Text.strip text) c

unfoldable pub abandon : Channel → ℕ × Channel
abandon c = (length c.pending, record c { pending = [] })

unfoldable pub drain : Channel → List String × Channel
drain c = (c.pending, record c { pending = [] })

-- `"\n".join(texts)`
unfoldable pub lines_of : List String → String
lines_of [] = ""
lines_of (t ∷ []) = t
lines_of (t ∷ u ∷ ts) = joined (t ∷ "\n" ∷ lines_of (u ∷ ts) ∷ [])

unfoldable pub block_of : String → List String → String
unfolding lines_of
block_of sentinel texts = joined (
    "<<<USER_STEER id="
    ∷ sentinel
    ∷ ">>>\n"
    ∷ lines_of texts
    ∷ "\n<<<END_USER_STEER id="
    ∷ sentinel
    ∷ ">>>"
    ∷ [])

unfoldable pub with_block : String → String → String
with_block result block =
    if Text.is_blank result then block else joined (Text.rstrip result ∷ "\n\n" ∷ block ∷ [])

unfoldable pub attach_texts :
    String → String → List String → Channel → (String × List String) × Channel
unfolding block_of with_block
attach_texts result sentinel [] c = ((result, []), c)
attach_texts result sentinel (t ∷ ts) c = (
  (with_block result (block_of sentinel (t ∷ ts)), t ∷ ts),
  record c {
    pending = [];
    slots = add sentinel c.slots;
    delivered = c.delivered + length (t ∷ ts);
  },
)

-- The text for the model, and the steers in it.
unfoldable pub attach : String → String → Channel → (String × List String) × Channel
unfolding attach_texts
attach result sentinel c = attach_texts result sentinel c.pending c
