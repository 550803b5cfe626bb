-- ===== src/Loop/Limits.antt =====
-- engine/loop.py: what stays true of the trace from pass to pass.
use argus_agent.Base.{
  ℕ, suc, ◌+◌, ◌≤◌, String, ◌≡◌, sym, ap, subst, ◌∙◌, Bool, true, false, Option, some, List, ◌∷◌,
  arith, ◌==◌, nat_eq, string_eq, pair_eq, if◌then◌else◌,
}
use argus_agent.Base.Dict.{Dict, get-put}
use argus_agent.Loop.Types.{Turn, Event, ToolCall}
use argus_agent.Loop.Turn.{count_of, count_up}
use argus_agent.Loop.Run.{signature}
use argus_agent.Loop.Kept.{
  Kept, Closes, tally, tally-append, tally-quiet, Loud, is_request, is_closing, is_fuzzy_nudge,
  is_call_of, is_request-Loud, is_closing-Loud, is_fuzzy_nudge-Loud, is_call_of-Loud,
}

pub count_of-count_up :
    (sig k : String) (d : Dict String ℕ)
    → count_of sig (count_up k d) ≡ (if k == sig then 1 else 0) + count_of sig d
count_of-count_up sig k d = ground (
  arith,
  get-put k sig (suc (count_of k d)) d,
  string_eq.same_iff k sig,
  string_eq.same_iff sig k,
)

abbrev pub flag : Bool → ℕ
flag b = if b then 1 else 0

le_of : {a b c d : ℕ} → a ≡ c → b ≡ d → c ≤ d → a ≤ b
le_of e f h = omega arith

pub flag_le : (b : Bool) → flag b ≤ 1
flag_le true = omega arith
flag_le false = omega arith

closing_only :
    {R : Type 0} (signature : ToolCall → String) (sig : String) (e : Event R)
    → is_closing e ≡ true
    → (is_request e ≡ false) × ((is_call_of signature sig e ≡ false) × (is_fuzzy_nudge e ≡ false))
closing_only signature sig e h = ground arith

pub tally-other :
    {R : Type 0} (p : Event R → Bool) (e : ℕ × Event R) (es : List (ℕ × Event R))
    → p e.1 ≡ false
    → tally p (e ∷ es) ≡ tally p es
tally-other p e es h = ground (arith, h)

module _ {W R : Type 0} where
  pub Kept-tally :
      {t t' : Turn W R} (p : Event R → Bool)
      → Loud p
      → Kept t t'
      → tally p t'.trace ≡ tally p t.trace
  Kept-tally {t} p loud h =
      ap (tally p) h.trace
      ∙ omega (arith, tally-append p h.more t.trace, tally-quiet p loud h.more h.quiet)

  -- Between two passes, of which `n` are over; `extra` calls with the signature are not yet counted.
  pub record Inv (signature : ToolCall → String) (limit : Option ℕ) (sig : String) (n extra : ℕ)
      (t : Turn W R) : Type 0 where
    pub unclosed : tally is_closing t.trace ≡ 0
    pub asked : tally is_request t.trace ≡ n
    pub calls : tally (is_call_of signature sig) t.trace ≡ extra + count_of sig t.call_counts
    pub bounded : (m : ℕ) → limit ≡ some m → count_of sig t.call_counts ≤ m
    pub nudged : tally is_fuzzy_nudge t.trace ≤ flag t.fuzzy_repeat_nudged

  -- The turn is over: the newest event and no other ends it.
  pub record Ended (signature : ToolCall → String) (limit : Option ℕ) (sig : String) (n : ℕ)
      (t : Turn W R) : Type 0 where
    pub last : ℕ × Event R
    pub older : List (ℕ × Event R)
    pub trace : t.trace ≡ last ∷ older
    pub closing : is_closing last.1 ≡ true
    pub unclosed : tally is_closing older ≡ 0
    pub asked : tally is_request t.trace ≡ n
    pub bounded : (m : ℕ) → limit ≡ some m → tally (is_call_of signature sig) t.trace ≤ suc m
    pub nudged : tally is_fuzzy_nudge t.trace ≤ 1

  -- The turn is broken off by an exception: no event ends it.
  pub record Stopped (signature : ToolCall → String) (limit : Option ℕ) (sig : String) (n : ℕ)
      (t : Turn W R) : Type 0 where
    pub unclosed : tally is_closing t.trace ≡ 0
    pub asked : tally is_request t.trace ≡ n
    pub bounded : (m : ℕ) → limit ≡ some m → tally (is_call_of signature sig) t.trace ≤ suc m

  module _ (signature : ToolCall → String) (limit : Option ℕ) (sig : String) where
    pub Inv-Stopped :
        {t : Turn W R} (n extra : ℕ)
        → extra ≤ 1
        → Inv signature limit sig n extra t
        → Stopped signature limit sig n t
    Inv-Stopped n extra small h = record {
      unclosed = h.unclosed;
      asked = h.asked;
      bounded = λ m e. omega (arith, h.calls, h.bounded m e, small);
    }

    pub Inv-Kept :
        {t t' : Turn W R} (n extra : ℕ)
        → Kept t t'
        → Inv signature limit sig n extra t
        → Inv signature limit sig n extra t'
    Inv-Kept n extra k h = record {
      unclosed = Kept-tally is_closing (is_closing-Loud R) k ∙ h.unclosed;
      asked = Kept-tally is_request (is_request-Loud R) k ∙ h.asked;
      calls =
          Kept-tally (is_call_of signature sig) (is_call_of-Loud R signature sig) k
          ∙ h.calls
          ∙ ap (λ d. extra + count_of sig d) (sym k.counts);
      bounded = λ m e. subst (λ d. count_of sig d ≤ m) (sym k.counts) (h.bounded m e);
      nudged =
          le_of (Kept-tally is_fuzzy_nudge (is_fuzzy_nudge-Loud R) k) (ap flag k.nudged) h.nudged;
    }

    pub Closes-Ended :
        {t t' : Turn W R} (n extra : ℕ)
        → extra ≤ 1
        → Closes t t'
        → Inv signature limit sig n extra t
        → Ended signature limit sig n t'
    Closes-Ended {t} {t'} n extra small c h =
        let h' = Inv-Kept n extra c.kept h in
        let (r, (k, f)) = closing_only signature sig c.last.1 c.closing in
        record {
          last = c.last;
          older = c.before.trace;
          trace = c.trace;
          closing = c.closing;
          unclosed = h'.unclosed;
          asked =
              ap (tally is_request) c.trace
              ∙ tally-other is_request c.last c.before.trace r
              ∙ h'.asked;
          bounded = λ m e. ground (arith, c.trace, k, h'.calls, h'.bounded m e);
          nudged = ground (arith, c.trace, f, h'.nudged, flag_le c.before.fuzzy_repeat_nudged);
        }
