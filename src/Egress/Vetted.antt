-- ===== src/Egress/Vetted.antt =====
-- engine/sandbox and engine/tools/net_guard.py: what is connected to was vetted.
use argus_agent.Base.{
  ℕ, String, ◌≡◌, refl, sym, ◌∙◌, Bool, true, false, ◌&&◌, Option, none, some, List, [], ◌∷◌, ◌++◌,
  arith, ◌==◌, nat_eq, string_eq, elem, each_of, Bool-cases, inl, inr,
}
use argus_agent.Base.Result.{Result, ok, err}
use argus_agent.Base.Text
use argus_agent.Egress.{
  normal_host, blocked_hostnames, Info, Verdict, Net, Address, ip_is_public, bad_addrs, literal,
  judged, resolved, looked_up, resolve_allowed,
}
use argus_agent.Egress.Proxy.{
  Io, Event, denies, dials, tunnels, crashes, Dialled, reached, os_error, raised, os_error_of,
  drain_headers, tried, connect_to_vetted, tunnelled, is_connect, ruled, drained, Target, aimed,
  requested, handle, parse_connect_target,
}

module _ {W : Type 0} (net : Net W) where
  all_public : List Info → Bool
  all_public addrs = each_of (λ i. ip_is_public net i.addr) addrs

  bad_addrs-none : (infos : List Info) → bad_addrs net infos ≡ [] → all_public infos ≡ true
  unfolding bad_addrs all_public
  bad_addrs-none [] h = refl
  bad_addrs-none (i ∷ infos) h = elim (Bool-cases (ip_is_public net i.addr)) [
    | inl good ↦ rw good (bad_addrs-none infos (rw good at h))
    | inr bad ↦ let g = rw bad at h in cc
  ]

  judged-public :
      (host : String) (infos bad : List Info)
      → bad ≡ bad_addrs net infos
      → all_public (judged net host infos bad).addrs ≡ true
  unfolding judged all_public
  judged-public host [] bad e = refl
  judged-public host (i ∷ infos) [] e = bad_addrs-none (i ∷ infos) (sym e)
  judged-public host (i ∷ infos) (b ∷ bad) e = refl

  resolved-public :
      (host : String) (o : Result String (List Info))
      → all_public (resolved net host o).addrs ≡ true
  unfolding resolved all_public
  resolved-public host (err e) = refl
  resolved-public host (ok infos) = judged-public host infos _ refl

  literal-public :
      (host : String) (port : ℕ) (a : Address) → all_public (literal net host port a).addrs ≡ true
  unfolding literal all_public
  literal-public host port a = elim (Bool-cases (ip_is_public net host)) [
    | inl good ↦ rw good (ground (arith, good))
    | inr bad ↦ rw bad
  ]

  looked_up-public :
      (resolve : Bool) (host : String) (port : ℕ) (o : Option Address) (w : W)
      → all_public (looked_up net resolve host port o w).0.addrs ≡ true
  unfolding looked_up all_public
  looked_up-public resolve host port (some a) w = literal-public host port a
  looked_up-public false host port none w = refl
  looked_up-public true host port none w = resolved-public host _

  resolve_allowed-public :
      (resolve : Bool) (given : String) (port : ℕ) (w : W)
      → all_public (resolve_allowed net resolve given port w).0.addrs ≡ true
  unfolding resolve_allowed all_public
  resolve_allowed-public resolve given port w = elim (Bool-cases (normal_host net given == "")) [
    | inl none_given ↦ rw none_given
    | inr host_given ↦ elim (Bool-cases (elem (normal_host net given) blocked_hostnames)) [
      | inl blocked ↦ rw (host_given, blocked)
      | inr open_to ↦
          rw (host_given, open_to) (looked_up-public resolve (normal_host net given) port _ w)
    ]
  ]

  -- An event that connects to an address does so to a public one.
  pub is_safe : Event → Bool
  unfolding ip_is_public
  is_safe (dials i) = ip_is_public net i.addr
  is_safe (tunnels i) = ip_is_public net i.addr
  is_safe (denies code reason) = true
  is_safe (crashes e) = true

  is_safe-append :
      (xs ys : List Event) → each_of is_safe (xs ++ ys) ≡ (each_of is_safe xs && each_of is_safe ys)
  is_safe-append [] ys = refl
  is_safe-append (x ∷ xs) ys = ground (arith, is_safe-append xs ys)

  reach_safe : Result String (Result String Info) → Bool
  reach_safe (ok (ok i)) = ip_is_public net i.addr
  reach_safe (ok (err e)) = true
  reach_safe (err e) = true

  module _ (io : Io W) where
    tried-is_safe :
        (rest : W → (Result String (Result String Info) × List Event) × W) (i : Info) (d : Dialled)
        (w : W)
        → ip_is_public net i.addr ≡ true
        → (reach_safe (rest w).0.0 && each_of is_safe (rest w).0.1) ≡ true
        → (reach_safe (tried net io rest i (d, w)).0.0
            && each_of is_safe (tried net io rest i (d, w)).0.1)
          ≡ true
    unfolding tried is_safe reach_safe
    tried-is_safe rest i reached w good h = ground (arith, good)
    tried-is_safe rest i (raised e) w good h = ground (arith, good)
    tried-is_safe rest i (os_error e) w good h = ground (arith, good, h)

    connect_to_vetted-is_safe :
        (last : String) (addrs : List Info) (w : W)
        → all_public addrs ≡ true
        → (reach_safe (connect_to_vetted net io last addrs w).0.0
            && each_of is_safe (connect_to_vetted net io last addrs w).0.1)
          ≡ true
    unfolding connect_to_vetted all_public reach_safe
    connect_to_vetted-is_safe last [] w h = refl
    connect_to_vetted-is_safe last (i ∷ addrs) w h =
        tried-is_safe _ i (io.connect i w).0 (io.connect i w).1 (ground (arith, h)) (
          connect_to_vetted-is_safe (os_error_of (io.connect i w).0) addrs (io.connect i w).1
            (ground (arith, h)))

    tunnelled-is_safe :
        (host : String) (port : ℕ) (o : Result String (Result String Info)) (events : List Event)
        (w : W)
        → (reach_safe o && each_of is_safe events) ≡ true
        → each_of is_safe (tunnelled net io host port ((o, events), w)).0 ≡ true
    unfolding tunnelled is_safe reach_safe
    tunnelled-is_safe host port (err e) events w h =
        ground (arith, is_safe-append events (crashes e ∷ []), h)
    tunnelled-is_safe host port (ok (err e)) events w h =
        is_safe-append events _ ∙ ground (arith, h)
    tunnelled-is_safe host port (ok (ok i)) events w h =
        ground (arith, is_safe-append events (tunnels i ∷ []), h)

    ruled-is_safe :
        (line host : String) (port : ℕ) (v : Verdict) (w : W)
        → all_public v.addrs ≡ true
        → each_of is_safe (ruled net io line host port (v, w)).0 ≡ true
    unfolding ruled is_safe
    ruled-is_safe line host port v w h = elim (Bool-cases v.allowed) [
      | inl allowed ↦ elim (Bool-cases (is_connect net io (parse_connect_target net io line))) [
        | inl tunnel ↦
            rw (allowed, tunnel)
              (tunnelled-is_safe host port _ _ _ (connect_to_vetted-is_safe "OSError" v.addrs w h))
        | inr plain ↦ rw (allowed, plain)
      ]
      | inr denied ↦ rw denied
    ]

    drained-is_safe :
        (line host : String) (port : ℕ) (done : Bool) (w : W)
        → each_of is_safe (drained net io line host port (done, w)).0 ≡ true
    unfolding drained is_safe
    drained-is_safe line host port false w = refl
    drained-is_safe line host port true w =
        ruled-is_safe line host port _ _ (resolve_allowed-public true host port w)

    aimed-is_safe :
        (line : String) (target : Target) (w : W)
        → each_of is_safe (aimed net io line target w).0 ≡ true
    unfolding aimed is_safe
    aimed-is_safe line (err e) w = refl
    aimed-is_safe line (ok none) w = refl
    aimed-is_safe line (ok (some (host, port))) w =
        drained-is_safe line host port (drain_headers net io w).0 (drain_headers net io w).1

    requested-is_safe :
        (o : Option String) (w : W) → each_of is_safe (requested net io (o, w)).0 ≡ true
    unfolding requested is_safe
    requested-is_safe none w = refl
    requested-is_safe (some read) w = aimed-is_safe (Text.strip read) _ w

    -- Whatever a client asks for and whatever its names resolve to, now or at another time, the proxy
    -- connects to public addresses only.
    pub handle-is_safe : (w : W) → each_of is_safe (handle net io w).0 ≡ true
    unfolding handle
    handle-is_safe w = requested-is_safe (io.readline 8192 w).0 (io.readline 8192 w).1
