-- ===== src/Egress/Fetch.antt =====
-- engine/tools/net_guard.py: `safe_fetch`. The client's request, the reading of `Content-Length` and
-- `urljoin` are parameters.
use argus_agent.Base.{
  ℕ, zero, suc, String, Bool, true, false, ◌||◌, Option, none, some, [], ◌∷◌, ◌==◌, string_eq,
  if◌then◌else◌, ltb,
}
use argus_agent.Base.Result.{Result, ok, err}
use argus_agent.Loop.Echo.{joined}
use argus_agent.Egress.{Net, url_allowed}

abbrev pub max_redirects : ℕ
max_redirects = 5

-- A response, as far as it is read: the length that its header states, if it is a number.
pub record Response : Type 0 where
  pub is_redirect : Bool
  pub location : Option String
  pub content_length : Option ℕ
  pub size : ℕ

pub record Client (W : Type 0) : Type 0 where
  pub get : String → W → Result String Response × W
  pub urljoin : String → String → String

-- What a fetch gives, and the world after it.
abbrev pub Fetched : Type 0 → Type 0
Fetched W = Result String Response × W

-- A location that is not empty.
location_of : Option String → Option String
location_of none = none
location_of (some l) = if l == "" then none else some l

-- The location that a redirect leads to, if the response is one.
unfoldable pub redirect_of : Response → Option String
unfolding location_of
redirect_of r = if r.is_redirect then location_of r.location else none

over : ℕ → Option ℕ → Bool
over limit none = false
over limit (some n) = ltb limit n

-- Whether the response is larger than the limit, if there is one.
unfoldable pub too_large : Option ℕ → Response → Bool
unfolding over
too_large none r = false
too_large (some limit) r = over limit r.content_length || ltb limit r.size

module _ {W : Type 0} (net : Net W) (client : Client W) (max_bytes : Option ℕ) where
  unfoldable pub kept : Response → W → Fetched W
  unfolding too_large
  kept r w = if too_large max_bytes r then (err "file too large", w) else (ok r, w)

  -- The next location is checked before it is asked for.
  unfoldable pub led : (String → W → Fetched W) → String → (Bool × String) × W → Fetched W
  led rest next ((true, why), w) = rest next w
  led rest next ((false, why), w) =
      (err (joined ("blocked redirect to non-public URL: " ∷ next ∷ [])), w)

  unfoldable pub answered :
      (String → W → Fetched W) → String → Response → Option String → W → Fetched W
  unfolding kept led
  answered rest current r none w = kept r w
  answered rest current r (some location) w =
      let next = client.urljoin current location in led rest next (url_allowed net next w)

  unfoldable pub hop : (String → W → Fetched W) → String → Result String Response × W → Fetched W
  unfolding answered redirect_of
  hop rest current (err e, w) = (err e, w)
  hop rest current (ok r, w) = answered rest current r (redirect_of r) w

  unfoldable pub hops : ℕ → String → W → Fetched W
  unfolding hop
  hops zero current w = (err "too many redirects", w)
  hops (suc n) current w = hop (hops n) current (client.get current w)

  unfoldable pub started : String → (Bool × String) × W → Fetched W
  unfolding hops
  started url ((true, why), w) = hops max_redirects url w
  started url ((false, why), w) = (err (joined ("blocked non-public URL: " ∷ url ∷ [])), w)

  unfoldable pub safe_fetch : String → W → Fetched W
  unfolding started
  safe_fetch url w = started url (url_allowed net url w)
