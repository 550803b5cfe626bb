-- ===== src/Egress/Limits.antt =====
-- engine/sandbox/proxy.py and engine/tools/net_guard.py: the loops end, and redirects are checked.
use argus_agent.Base.{
  ℕ, zero, suc, ◌+◌, ◌-◌, ◌≤◌, String, ◌≡◌, refl, sym, ap, subst, ◌∙◌, Bool, true, false, ◌||◌,
  Option, none, some, arith, nat_eq, string_eq, if◌then◌else◌, Bool-cases, inl, inr, leb,
}
use argus_agent.Base.Result.{Result, ok, err, ok_eq}
use argus_agent.Base.Text
use argus_agent.Egress.{Net, url_allowed}
use argus_agent.Egress.Fetch.{
  Client, Response, Fetched, max_redirects, redirect_of, too_large, kept, led, answered, hop, hops,
  started, safe_fetch,
}
use argus_agent.Egress.Proxy.{Io, max_header_bytes, line_read, drain_from}

module _ {W : Type 0} (net : Net W) (client : Client W) where
  -- `w` is a world that checks of URLs and `n` requests lead to from `v`, where each request for a URL
  -- comes right after a check of that URL which allows it.
  pub data Guarded (v : W) : ℕ → W → Type 0 where
    starts : Guarded v 0 v
    checks : (n : ℕ) (w : W) (url : String) → Guarded v n w → Guarded v n (url_allowed net url w).1
    gets :
        (n : ℕ) (x w : W) (url why : String)
        → Guarded v n x
        → url_allowed net url x ≡ ((true, why), w)
        → Guarded v (suc n) (client.get url w).1

module _ {W : Type 0} (net : Net W) (client : Client W) (max_bytes : Option ℕ) where
  module _ (v : W) where
    -- What a fetch comes to that makes `n` requests at most, from a world after `done` requests.
    record Keeps (done n : ℕ) (f : Fetched W) : Type 0 where
      made : ℕ
      few : made ≤ done + n
      guarded : Guarded net client v made f.1
      -- A response that is returned leads no further and is not too large.
      final : (r : Response) → f.0 ≡ ok r → (redirect_of r ≡ none) × (too_large max_bytes r ≡ false)

    -- What is kept from a URL that was just checked and may be reached.
    abbrev Goes : (String → W → Fetched W) → ℕ → Type 0
    Goes rest n =
        (done : ℕ) (x w : W) (url why : String)
        → Guarded net client v done x
        → url_allowed net url x ≡ ((true, why), w)
        → Keeps done n (rest url w)

    failed-Keeps :
        (done n : ℕ) (w : W) (e : String) → Guarded net client v done w → Keeps done n (err e, w)
    failed-Keeps done n w e g = record {
      made = done;
      few = omega arith;
      guarded = g;
      final = λ r h. cc;
    }

    kept-Keeps :
        (done n : ℕ) (r : Response) (w : W)
        → redirect_of r ≡ none
        → Guarded net client v done w
        → Keeps done n (kept net client max_bytes r w)
    unfolding kept
    kept-Keeps done n r w e g = elim (Bool-cases (too_large max_bytes r)) [
      | inl large ↦ rw large (failed-Keeps done n w "file too large" g)
      | inr small ↦ rw small (record {
        made = done;
        few = omega arith;
        guarded = g;
        final = λ q h. rw (← ok_eq h) (e, small);
      })
    ]

    led-Keeps :
        (rest : String → W → Fetched W) (done n : ℕ) (next : String) (x : W)
        (c : (Bool × String) × W)
        → Goes rest n
        → Guarded net client v done x
        → url_allowed net next x ≡ c
        → Keeps done n (led net client max_bytes rest next c)
    unfolding led
    led-Keeps rest done n next x ((true, why), w) h g e = h done x w next why g e
    led-Keeps rest done n next x ((false, why), w) h g e =
        failed-Keeps done n w _
          (subst (λ p. Guarded net client v done p.1) e (checks done x next g))

    answered-Keeps :
        (rest : String → W → Fetched W) (done n : ℕ) (current : String) (r : Response)
        (o : Option String) (w : W)
        → o ≡ redirect_of r
        → Goes rest n
        → Guarded net client v done w
        → Keeps done n (answered net client max_bytes rest current r o w)
    unfolding answered
    answered-Keeps rest done n current r none w e h g = kept-Keeps done n r w (sym e) g
    answered-Keeps rest done n current r (some l) w e h g =
        led-Keeps rest done n (client.urljoin current l) w
          (url_allowed net (client.urljoin current l) w) h g refl

    hop-Keeps :
        (rest : String → W → Fetched W) (done n : ℕ) (current : String)
        (o : Result String Response × W)
        → Goes rest n
        → Guarded net client v done o.1
        → Keeps done n (hop net client max_bytes rest current o)
    unfolding hop
    hop-Keeps rest done n current (err e, w) h g = failed-Keeps done n w e g
    hop-Keeps rest done n current (ok r, w) h g = answered-Keeps rest done n current r _ w refl h g

    more : {f : Fetched W} (done n : ℕ) → Keeps (suc done) n f → Keeps done (suc n) f
    more done n k = record {
      made = k.made;
      few = omega (arith, k.few);
      guarded = k.guarded;
      final = k.final;
    }

    hops-Keeps : (n : ℕ) → Goes (hops net client max_bytes n) n
    unfolding hops
    hops-Keeps zero done x w url why g e =
        failed-Keeps done 0 w _ (subst (λ p. Guarded net client v done p.1) e (checks done x url g))
    hops-Keeps (suc n) done x w url why g e = more done n (
        hop-Keeps (hops net client max_bytes n) (suc done) n url (client.get url w) (hops-Keeps n)
          (gets done x w url why g e))

    started-Keeps :
        (url : String) (c : (Bool × String) × W)
        → url_allowed net url v ≡ c
        → Keeps 0 max_redirects (started net client max_bytes url c)
    unfolding started
    started-Keeps url ((true, why), w) e = hops-Keeps max_redirects 0 v w url why starts e
    started-Keeps url ((false, why), w) e =
        failed-Keeps 0 max_redirects w _
          (subst (λ p. Guarded net client v 0 p.1) e (checks 0 v url starts))

  -- `safe_fetch` asks for a URL only right after a check of that URL which allows it, redirects
  -- included, and it asks at most five times.
  pub safe_fetch-Guarded :
      (url : String) (w : W)
      → (n : ℕ) × (n ≤ max_redirects)
        × Guarded net client w n (safe_fetch net client max_bytes url w).1
  unfolding safe_fetch
  safe_fetch-Guarded url w =
      let k = started-Keeps w url (url_allowed net url w) refl in (k.made, k.few, k.guarded)

  -- A response that `safe_fetch` returns leads to no other place, and is not larger than the limit.
  safe_fetch-too_large :
      (url : String) (w : W) (r : Response)
      → (safe_fetch net client max_bytes url w).0 ≡ ok r
      → (redirect_of r ≡ none) × (too_large max_bytes r ≡ false)
  unfolding safe_fetch
  safe_fetch-too_large url w r g = (started-Keeps w url (url_allowed net url w) refl).final r g

plus_suc : (a b : ℕ) → suc a + b ≡ suc (a + b)
plus_suc a b = omega arith

module _ {W : Type 0} (net : Net W) (io : Io W) where
  line_read-same :
      (f g : ℕ → W → Bool × W) (total : ℕ) (o : Option String) (w : W)
      → ((t : ℕ) (v : W) → suc total ≤ t → f t v ≡ g t v)
      → line_read net io f total (o, w) ≡ line_read net io g total (o, w)
  unfolding line_read
  line_read-same f g total none w h = refl
  line_read-same f g total (some String.[]) w h = refl
  line_read-same f g total (some (String.◌∷◌ c s)) w h =
      ground (arith, h (total + Text.length (String.◌∷◌ c s)) w (omega arith))

  drain_more :
      (fuel deadline total : ℕ) (w : W)
      → max_header_bytes ≤ fuel + total
      → drain_from net io (suc fuel) deadline total w ≡ drain_from net io fuel deadline total w
  unfolding drain_from
  drain_more zero deadline total w h = ground (arith, h)
  drain_more (suc fuel) deadline total w h =
      ap (λ x. if leb deadline (io.now w) || leb max_header_bytes total then (false, w) else x)
        (line_read-same _ _ total (io.readline (max_header_bytes - total) w).0
          (io.readline (max_header_bytes - total) w).1
          (λ t v more. drain_more fuel deadline t v (omega (arith, h, more))))

  -- The reading of headers ends: with any more fuel than the limit on their bytes, it gives the same.
  drain_enough :
      (more deadline : ℕ) (w : W)
      → drain_from net io (more + max_header_bytes) deadline 0 w
        ≡ drain_from net io max_header_bytes deadline 0 w
  drain_enough zero deadline w = refl
  drain_enough (suc more) deadline w =
      ap (λ n. drain_from net io n deadline 0 w) (plus_suc more max_header_bytes)
      ∙ drain_more (more + max_header_bytes) deadline 0 w (omega arith)
      ∙ drain_enough more deadline w
