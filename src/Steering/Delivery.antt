-- ===== src/Steering/Delivery.antt =====
-- engine/steering.py: every steer that was accepted is delivered once and in order.
use argus_agent.Base.{
  String, ◌≡◌, refl, sym, ap, ◌∙◌, List, [], ◌∷◌, ◌++◌, All, true, arith, string_eq,
}
use argus_agent.Base.Text
use mathlib.Core.List.{append-nil, append_assoc}
use argus_agent.Loop.Echo.{contains}
use argus_agent.Steering.Shown.{attach_texts-shows}
use argus_agent.Steering.{
  Channel, Answer, abandon, drain, accepted, queue, queue_text, attach, attach_texts,
}

-- What happens to a channel during its run.
pub data Act : Type 0 where
  queues : String → Act
  attaches : String → String → Act
  abandons drains : Act

unfoldable pub act : Act → Channel → Channel
act (queues text) c = (queue text c).1
act (attaches result sentinel) c = (attach result sentinel c).1
act abandons c = (abandon c).1
act drains c = (drain c).1

-- The steers that an act takes from the queue: delivered with a result, thrown away when the run is
-- abandoned, or handed back when it ends.
pub landed : Act → Channel → List String
landed (queues text) c = []
landed (attaches result sentinel) c = (attach result sentinel c).0.1
landed abandons c = c.pending
landed drains c = (drain c).0

abbrev pub taken_of : String → Answer → List String
taken_of text (accepted n) = text ∷ []
taken_of text _ = []

-- The steer that an act accepts.
unfoldable pub taken : Act → Channel → List String
taken (queues text) c = taken_of (Text.strip text) (queue text c).0
taken (attaches result sentinel) c = []
taken abandons c = []
taken drains c = []

-- Every steer that an attachment reports stands in the result that the model reads.
abbrev pub IsShown : Act → Channel → Type 0
IsShown (attaches result sentinel) c =
    All (λ t. contains (attach result sentinel c).0.0 t ≡ true) (attach result sentinel c).0.1
IsShown _ c = Unit {0}

-- The whole run: the channel at its end, what was delivered and what was accepted.
unfoldable pub run : List Act → Channel → Channel
run [] c = c
run (a ∷ acts) c = run acts (act a c)

pub all_landed : List Act → Channel → List String
all_landed [] c = []
all_landed (a ∷ acts) c = landed a c ++ all_landed acts (act a c)

pub all_taken : List Act → Channel → List String
all_taken [] c = []
all_taken (a ∷ acts) c = taken a c ++ all_taken acts (act a c)

queue_text-taken :
    (text : String) (c : Channel)
    → (queue_text text c).1.pending ≡ c.pending ++ taken_of text (queue_text text c).0
unfolding queue_text
queue_text-taken text c = ground (arith, append-nil c.pending)

attach_texts-landed :
    (result sentinel : String) (texts : List String) (c : Channel)
    → c.pending ≡ texts
    → (attach_texts result sentinel texts c).0.1 ++ (attach_texts result sentinel texts c).1.pending
      ≡ c.pending
unfolding attach_texts
attach_texts-landed result sentinel [] c e = refl
attach_texts-landed result sentinel (t ∷ ts) c e = append-nil (t ∷ ts) ∙ sym e

act-landed : (a : Act) (c : Channel) → landed a c ++ (act a c).pending ≡ c.pending ++ taken a c
unfolding landed act taken queue attach abandon drain
act-landed (queues text) c = queue_text-taken (Text.strip text) c
act-landed (attaches result sentinel) c =
    attach_texts-landed result sentinel c.pending c refl ∙ sym (append-nil c.pending)
act-landed abandons c = refl
act-landed drains c = refl

shown :
    (result sentinel : String) (texts : List String) (c : Channel)
    → c.pending ≡ texts
    → All
        (λ t. contains (attach_texts result sentinel texts c).0.0 t ≡ true)
        (attach_texts result sentinel texts c).0.1
unfolding attach_texts
shown result sentinel [] c e = tt
shown result sentinel (t ∷ ts) c e = attach_texts-shows result sentinel (t ∷ ts) c

act-IsShown : (a : Act) (c : Channel) → IsShown a c
unfolding attach
act-IsShown (queues text) c = tt
act-IsShown (attaches result sentinel) c = shown result sentinel c.pending c refl
act-IsShown abandons c = tt
act-IsShown drains c = tt

-- The same for all acts of a run.
unfoldable pub AllShown : List Act → Channel → Type 0
unfolding act
AllShown [] c = Unit {0}
AllShown (a ∷ acts) c = IsShown a c × AllShown acts (act a c)

landed-in_order :
    (acts : List Act) (c : Channel)
    → all_landed acts c ++ (run acts c).pending ≡ c.pending ++ all_taken acts c
unfolding run all_landed all_taken
landed-in_order [] c = sym (append-nil c.pending)
landed-in_order (a ∷ acts) c =
    append_assoc (landed a c) (all_landed acts (act a c)) (run acts (act a c)).pending
    ∙ ap (λ ts. landed a c ++ ts) (landed-in_order acts (act a c))
    ∙ sym (append_assoc (landed a c) (act a c).pending (all_taken acts (act a c)))
    ∙ ap (λ ts. ts ++ all_taken acts (act a c)) (act-landed a c)
    ∙ append_assoc c.pending (taken a c) (all_taken acts (act a c))

run-AllShown : (acts : List Act) (c : Channel) → AllShown acts c
unfolding AllShown
run-AllShown [] c = tt
run-AllShown (a ∷ acts) c = (act-IsShown a c, run-AllShown acts (act a c))

-- Over any run of a channel the steers that left the queue (attached to results, thrown away by
-- `abandon` or handed back by `drain`), and then those still waiting, are the ones that waited at the
-- start and then those accepted: each once and in the order of arrival. Every steer that is reported
-- as attached stands in its result.
pub run-all_landed :
    (acts : List Act) (c : Channel)
    → (all_landed acts c ++ (run acts c).pending ≡ c.pending ++ all_taken acts c) × AllShown acts c
run-all_landed acts c = (landed-in_order acts c, run-AllShown acts c)
