-- ===== src/Steering/Delivered.antt =====
-- engine/steering.py: a steer that was accepted reaches the model with the next result of a tool.
use argus_agent.Base.{ℕ, String, true, List, [], ◌∷◌, map, ◌≡◌, string_eq, elem, arith, ap, subst}
use argus_agent.Base.Text
use argus_agent.Loop.Echo.{contains}
use argus_agent.Steering.{Channel, accepted, queue, attach, queue_text}
use argus_agent.Steering.Shown.{attach-contains}
use argus_agent.Steering.Forged.{elem-append}
use argus_agent.Steering.Delivery.{queues, run, act}

queue_text-keeps :
    (t u : String) (c : Channel)
    → elem t c.pending ≡ true
    → elem t (queue_text u c).1.pending ≡ true
unfolding queue_text
queue_text-keeps t u c h = ground (arith, h, elem-append t u c.pending)

run-keeps :
    (t : String) (more : List String) (c : Channel)
    → elem t c.pending ≡ true
    → elem t (run (map queues more) c).pending ≡ true
unfolding run act queue
run-keeps t [] c h = h
run-keeps t (u ∷ more) c h =
    run-keeps t more (queue (u) c).1 (queue_text-keeps t (Text.strip u) c h)

queued :
    (t : String) (c : Channel) (n : ℕ)
    → (queue_text t c).0 ≡ accepted n
    → elem t (queue_text t c).1.pending ≡ true
unfolding queue_text
queued t c n h = ground (arith, h, elem-append t t c.pending, string_eq.same_iff t t)

queue_text-accepted :
    (t : String) (c c' : Channel) (n : ℕ)
    → queue_text t c ≡ (accepted n, c')
    → elem t c'.pending ≡ true
queue_text-accepted t c c' n h =
    subst (λ d. elem t d.pending ≡ true) (ap (λ p. p.1) h) (queued t c n (ap (λ p. p.0) h))

-- A steer that the channel accepts stands in the next result of a tool that the model reads, whatever
-- other steers come in between.
pub attach-accepted :
    (text result sentinel : String) (more : List String) (c c' : Channel) (n : ℕ)
    → queue text c ≡ (accepted n, c')
    → contains (attach result sentinel (run (map queues more) c')).0.0 (Text.strip text) ≡ true
unfolding queue attach
attach-accepted text result sentinel more c c' n h =
    attach-contains result sentinel (Text.strip text) _ _
      (run-keeps (Text.strip text) more c' (queue_text-accepted (Text.strip text) c c' n h))
