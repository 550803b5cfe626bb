-- ===== src/Approvals/Broker/Examples.antt =====
-- The theorems on the broker at a concrete run: a tool asks in the dashboard or from a schedule.
use argus_agent.Base.{
  String, ◌≡◌, ◌≢◌, ◌↔◌, refl, Bool, true, false, Option, none, some, [], arith, nat_eq, string_eq,
  pair_eq, elem, ◌⊎◌,
}
use argus_agent.Base.Dict
use argus_agent.Base.Dict.{Dict}
use argus_agent.Approvals.Types.{
  allow, deny, Decision, default_for, states_for, Permits, dep_install,
}
use argus_agent.Approvals.Requests
use argus_agent.Approvals.Requests.{Request, Ask, approved}
use argus_agent.Approvals.Broker.{
  PolicyApi, Broker, Reply, unknown, live, deferred, decided, ask_key, open_subject, pin, settle,
  gate, wake, resolve, decision_of, is_approval, status_of,
}
use argus_agent.Approvals.Broker.Answers.{answer_of, resolve-wake, resolve-gate}
use argus_agent.Approvals.Broker.Gate.{PolicyLaws, Approves, gate-Approves_iff}
use argus_agent.Approvals.Broker.Steps.{ApprovedFor, Inv}
use argus_agent.Approvals.Broker.Safety.{
  Reach, here, next, asks, clicks, Reach-Inv, Reach-gate, Reach-wake,
}

-- A policy by one table for every session, in which a pin changes nothing.
abbrev defaults : PolicyApi (Unit {0})
defaults = record { get = λ p session key. default_for key; set = λ p session key state. some p }

abbrev start : Broker (Unit {0})
start = record {
  requests = [];
  policies = tt;
  pending = [];
  pending_meta = [];
  oneshots = [];
  resumed = [];
  events = [];
}

abbrev forget_from : String → Ask
forget_from origin = record {
  kind = "forget";
  target = "t1";
  session_id = "s1";
  prompt = "Run tool: forget";
  origin = origin;
  payload = none;
  run_id = "r1";
  step = 2;
}

abbrev asked : String → Broker (Unit {0})
asked origin = (gate defaults (forget_from origin) "q1" 10 start).1

abbrev all_kinds : String → Bool
all_kinds kind = true

start-Inv : Inv start
start-Inv = record {
  logged = record { logged = λ id e. unfold Dict.get in refl };
  waits = λ id f e. absurd (unfold Dict.get in nothing f e);
  earned = λ k e. cc;
}
  where
    nothing : (f : Option Decision) → none ≡ some f → ⊥
    nothing f e = cc

no_q1 : Requests.get "q1" start.requests ≡ none
unfolding Requests.get
no_q1 = refl

abbrev to_asked : (origin : String) → Reach defaults all_kinds start (asked origin)
to_asked origin = next here (asks (forget_from origin) "q1" 10 no_q1)

asked-Inv : (origin : String) → Inv (asked origin)
asked-Inv origin = Reach-Inv defaults all_kinds (to_asked origin) start-Inv

dashboard_click :
    (resolve defaults all_kinds "q1" "approve_once" "a" 11 (asked "dashboard")).0 ≡ live
unfolding resolve gate Dict.get Dict.put Requests.get Requests.create Requests.new_request
    default_for is_approval open_subject pin settle
dashboard_click = refl

telegram_click : (resolve defaults all_kinds "q1" "approve_once" "a" 11 (asked "telegram")).0 ≡ live
unfolding resolve gate Dict.get Dict.put Requests.get Requests.create Requests.new_request
    default_for is_approval open_subject pin settle
telegram_click = refl

live_known : {r : Reply} → r ≡ live → r ≢ unknown
live_known p e = cc

deferred_known : {r : Reply} → r ≡ deferred → r ≢ unknown
deferred_known p e = cc

late_click :
    (resolve defaults all_kinds "q1" "approve_once" "a" 11 (asked "scheduled")).0 ≡ deferred
unfolding resolve gate Dict.get Dict.put Requests.get Requests.create Requests.new_request
    default_for is_approval open_subject pin settle
late_click = refl

resolve-wake_example :
    let (reply, b') = resolve defaults all_kinds "q1" "approve_once" "a" 11 (asked "telegram") in
    (reply ≡ live)
    × ((wake "q1" b').0 ≡ decided (answer_of "approve_once" "a"))
    × ((r : Request) × (Requests.get "q1" b'.requests ≡ some r)
        × (r.status ≡ status_of (is_approval "approve_once")))
unfolding resolve gate Dict.get Dict.put Requests.get Requests.create Requests.new_request
    default_for is_approval open_subject pin settle
resolve-wake_example =
    resolve-wake defaults all_kinds "q1" "approve_once" "a" 11 (asked "telegram")
      (asked-Inv "telegram").logged refl (live_known telegram_click)

abbrev question : Request
question = Requests.new_request (forget_from "scheduled") "q1" 10

resolve-gate_example :
    (gate defaults
      (forget_from "scheduled")
      "q2"
      20
      (resolve defaults all_kinds "q1" "approve_once" "a" 11 (asked "scheduled")).1).0
    ≡ decided (decision_of true false false true none)
unfolding resolve gate Dict.get Dict.put Requests.get Requests.create Requests.new_request
    default_for is_approval open_subject pin settle
resolve-gate_example =
    resolve-gate defaults all_kinds "q1" "approve_once" "a" 11 (asked "scheduled") question
      (asked-Inv "scheduled").logged refl refl refl (deferred_known late_click)
      (forget_from "scheduled") refl "q2" 20

gate-Approves_iff_example : Approves (gate defaults (forget_from "api") "q2" 20 start) ↔ (
    (elem (ask_key (forget_from "api")) start.oneshots ≡ true)
    ⊎ (defaults.get start.policies "s1" "forget" ≡ allow))
gate-Approves_iff_example = gate-Approves_iff defaults (forget_from "api") "q2" 20 start

-- An approved late click, and the call that it was for.
Reach-gate_example :
    ApprovedFor
      (ask_key (forget_from "scheduled"))
      (resolve defaults all_kinds "q1" "approve_once" "a" 11 (asked "scheduled")).1
    ⊎ (defaults.get tt "s1" "forget" ≡ allow)
Reach-gate_example =
    Reach-gate defaults all_kinds (next (to_asked "scheduled") (clicks "q1" "approve_once" "a" 11))
      start-Inv (forget_from "scheduled") "q2" 20
      (decision_of true false false true none, resolve-gate_example, refl)

Reach-wake_example :
    (q : Request) × (Requests.get "q1"
        (resolve defaults all_kinds "q1" "approve_once" "a" 11 (asked "telegram")).1.requests
      ≡ some q)
    × (q.status ≡ status_of (answer_of "approve_once" "a").approved)
Reach-wake_example =
    Reach-wake defaults all_kinds (next (to_asked "telegram") (clicks "q1" "approve_once" "a" 11))
      start-Inv "q1" (answer_of "approve_once" "a") resolve-wake_example.1

-- A policy that denies everything, and takes no pin.
abbrev denies : PolicyApi (Unit {0})
denies = record { get = λ p session key. deny; set = λ p session key state. none }

abbrev Always : Unit {0} → Type 0
Always p = Unit

deny-Permits : (key : String) → Permits key deny
unfolding states_for
deny-Permits key = ground arith

denies_laws : PolicyLaws Always denies
denies_laws = record {
  get_permits = λ p session key h. deny-Permits key;
  set_valid = λ p p' session key state h e. tt;
  get_set = λ p p' session key state h e. cc;
}

abbrev install : Ask
install = record (forget_from "api") { kind = dep_install; target = "numpy" }
