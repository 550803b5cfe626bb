-- ===== src/Loop/Kept.antt =====
-- engine/loop.py: what a part of a pass leaves as it was, whatever it adds to the trace.
use argus_agent.Base.{
  ℕ, ◌+◌, String, ◌≡◌, refl, sym, ap, ◌∙◌, Bool, true, false, not, ◌||◌, List, [], ◌∷◌, ◌++◌, arith,
  ◌==◌, nat_eq, string_eq, pair_eq, each_of, if◌then◌else◌,
}
use argus_agent.Base.Json.{Json}
use argus_agent.Loop.Types.{Turn, Event, Next, goes_on, returns, raises, emit, ToolCall}
use argus_agent.Loop.Turn.{say}
use mathlib.Core.List.{append-nil, append_assoc}

abbrev pub is_request : {R : Type 0} → Event R → Bool
is_request (Event.model_request req) = true
is_request _ = false

-- The events that end a turn.
abbrev pub is_closing : {R : Type 0} → Event R → Bool
is_closing (Event.model_error e) = true
is_closing (Event.gave_up reason) = true
is_closing (Event.paused req_id kind) = true
is_closing (Event.final answer options) = true
is_closing (Event.max_steps_exceeded n) = true
is_closing _ = false

abbrev pub is_fuzzy_nudge : {R : Type 0} → Event R → Bool
is_fuzzy_nudge (Event.fuzzy_repeat_nudge tool window) = true
is_fuzzy_nudge _ = false

abbrev pub is_called : {R : Type 0} → Event R → Bool
is_called (Event.called call) = true
is_called _ = false

-- A call with the signature.
abbrev pub is_call_of : {R : Type 0} → (ToolCall → String) → String → Event R → Bool
is_call_of signature sig (Event.called call) = signature call == sig
is_call_of signature sig _ = false

abbrev pub is_quiet : {R : Type 0} → Event R → Bool
is_quiet e = not (is_request e || is_closing e || is_fuzzy_nudge e || is_called e)

abbrev pub tally : {R : Type 0} → (Event R → Bool) → List (ℕ × Event R) → ℕ
tally p [] = 0
tally p (e ∷ es) = (if p e.1 then 1 else 0) + tally p es

pub tally-append :
    {R : Type 0} (p : Event R → Bool) (es fs : List (ℕ × Event R))
    → tally p (es ++ fs) ≡ tally p es + tally p fs
tally-append p [] fs = omega arith
tally-append p (e ∷ es) fs = omega (arith, tally-append p es fs)

-- A kind of events that no quiet event has.
pub Loud : {R : Type 0} → (Event R → Bool) → Type 0
Loud {R = R} p = (e : Event R) → is_quiet e ≡ true → p e ≡ false

pub tally-quiet :
    {R : Type 0} (p : Event R → Bool)
    → Loud p
    → (es : List (ℕ × Event R)) → each_of (λ e. is_quiet e.1) es ≡ true
    → tally p es ≡ 0
unfolding Loud
tally-quiet p loud [] h = refl
tally-quiet p loud (e ∷ es) h = ground (arith, loud e.1, tally-quiet p loud es)

pub is_closing-Loud : (R : Type 0) → Loud {R = R} is_closing
unfolding Loud
is_closing-Loud R e h = ground arith

pub is_request-Loud : (R : Type 0) → Loud {R = R} is_request
unfolding Loud
is_request-Loud R e h = ground arith

pub is_fuzzy_nudge-Loud : (R : Type 0) → Loud {R = R} is_fuzzy_nudge
unfolding Loud
is_fuzzy_nudge-Loud R e h = ground arith

pub is_call_of-Loud :
    (R : Type 0) (signature : ToolCall → String) (sig : String)
    → Loud {R = R} (is_call_of signature sig)
unfolding Loud
is_call_of-Loud R signature sig e h = ground arith

each_of-append :
    {A : Type 0} (p : A → Bool) (es fs : List (A))
    → each_of p es ≡ true
    → each_of p fs ≡ true
    → each_of p (es ++ fs) ≡ true
each_of-append p [] fs g h = h
each_of-append p (e ∷ es) fs g h = ground (arith, each_of-append p es fs)

module _ {W R : Type 0} where
  -- `t'` follows on `t`: quiet events, more messages, and the same counts.
  pub record Kept (t t' : Turn W R) : Type 0 where
    pub more : List (ℕ × Event R)
    pub trace : t'.trace ≡ more ++ t.trace
    pub quiet : each_of (λ e. is_quiet e.1) more ≡ true
    pub said : List Json
    pub conversation : t'.conversation ≡ t.conversation ++ said
    pub counts : t'.call_counts ≡ t.call_counts
    pub nudged : t'.fuzzy_repeat_nudged ≡ t.fuzzy_repeat_nudged

  pub Kept-same :
      {t t' : Turn W R}
      → t'.trace ≡ t.trace
      → t'.conversation ≡ t.conversation
      → t'.call_counts ≡ t.call_counts
      → t'.fuzzy_repeat_nudged ≡ t.fuzzy_repeat_nudged
      → Kept t t'
  Kept-same {t} a b c d = record {
    more = [];
    trace = a;
    quiet = refl;
    said = [];
    conversation = b ∙ sym (append-nil t.conversation);
    counts = c;
    nudged = d;
  }

  pub Kept-refl : (t : Turn W R) → Kept t t
  Kept-refl t = Kept-same refl refl refl refl

  pub Kept-trans : {t u v : Turn W R} → Kept t u → Kept u v → Kept t v
  Kept-trans {t} g h = record {
    more = h.more ++ g.more;
    trace = h.trace ∙ ap (λ es. h.more ++ es) g.trace ∙ sym (append_assoc h.more g.more t.trace);
    quiet = each_of-append (λ e. is_quiet e.1) h.more g.more h.quiet g.quiet;
    said = g.said ++ h.said;
    conversation =
        h.conversation
        ∙ ap (λ ms. ms ++ h.said) g.conversation
        ∙ append_assoc t.conversation g.said h.said;
    counts = h.counts ∙ g.counts;
    nudged = h.nudged ∙ g.nudged;
  }

  pub emit-Kept :
      (step : ℕ) (e : Event R) (t : Turn W R) → is_quiet e ≡ true → Kept t (emit step e t)
  emit-Kept step e t h = record {
    more = (step, e) ∷ [];
    trace = refl;
    quiet = ground (arith, h);
    said = [];
    conversation = sym (append-nil t.conversation);
    counts = refl;
    nudged = refl;
  }

  pub say-Kept : (ms : List Json) (t : Turn W R) → Kept t (say ms t)
  say-Kept ms t = record {
    more = [];
    trace = refl;
    quiet = refl;
    said = ms;
    conversation = refl;
    counts = refl;
    nudged = refl;
  }

  pub Kept-if : {t u v : Turn W R} (b : Bool) → Kept t u → Kept t v → Kept t (if b then u else v)
  Kept-if true g h = g
  Kept-if false g h = h

  pub Kept-if1 :
      {A : Type 0} {t : Turn W R} (b : Bool) (p q : A × Turn W R)
      → Kept t p.1
      → Kept t q.1
      → Kept t (if b then p else q).1
  Kept-if1 true p q g h = g
  Kept-if1 false p q g h = h

  -- `t'` follows on `t` and its newest event, the only one of its kind, ends the turn.
  pub record Closes (t t' : Turn W R) : Type 0 where
    pub before : Turn W R
    pub kept : Kept t before
    pub last : ℕ × Event R
    pub closing : is_closing last.1 ≡ true
    pub trace : t'.trace ≡ last ∷ before.trace
    pub conversation : t'.conversation ≡ before.conversation

  unfoldable pub Carried : Turn W R → Next W R → Type 0
  Carried t (goes_on t') = Kept t t'
  Carried t (returns answer t') = Closes t t'
  Carried t (raises e t') = Kept t t'
