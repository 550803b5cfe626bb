-- ===== src/Egress.antt =====
-- engine/sandbox/egress_policy.py: which hosts may be reached. The parsers of addresses and of URLs,
-- `str.lower` and `repr` are parameters, and a lookup is an operation on a world `W`, which may answer
-- the same question differently the next time.
pub mod Fetch
pub mod Proxy
pub mod Vetted
pub mod Limits
mod Examples
use argus_agent.Base.{
  ℕ, String, Bool, true, false, not, ◌&&◌, ◌||◌, Option, none, some, List, [], ◌∷◌, ◌==◌, nat_eq,
  string_eq, elem, some_of, keep, if◌then◌else◌, ltb, leb,
}
use argus_agent.Base.Result.{Result, ok, err}
use argus_agent.Base.Text
use argus_agent.Loop.Echo.{joined, contains}
use Prim.Native.Char.{code}

abbrev pub blocked_hostnames : List String
blocked_hostnames = "localhost" ∷ "metadata" ∷ "metadata.google.internal" ∷ []

-- What `ipaddress.ip_address` gives of a text: the number and what the module says of it.
pub record Address : Type 0 where
  pub version : ℕ
  pub value : ℕ
  pub is_private : Bool
  pub is_loopback : Bool
  pub is_link_local : Bool
  pub is_reserved : Bool
  pub is_multicast : Bool
  pub is_unspecified : Bool

-- An entry of `getaddrinfo`: the version of the address, the address and the port.
pub record Info : Type 0 where
  pub family : ℕ
  pub addr : String
  pub port : ℕ

-- What `urlparse` gives; reading the port may raise.
pub record Url : Type 0 where
  pub scheme : String
  pub hostname : Option String
  pub port : Result String (Option ℕ)

pub record Net (W : Type 0) : Type 0 where
  pub address : String → Option Address
  pub lower : String → String
  pub repr : String → String
  pub urlparse : String → Result String Url
  pub getaddrinfo : String → ℕ → W → Result String (List Info) × W

-- 100.64.0.0/10
in_cgnat : ℕ → Bool
in_cgnat value = leb 1681915904 value && ltb value 1686110208

is_special : Address → Bool
is_special a =
    a.is_private || a.is_loopback || a.is_link_local || a.is_reserved || a.is_multicast
    || a.is_unspecified

unfoldable pub is_public_address : Option Address → Bool
unfolding in_cgnat is_special
is_public_address none = false
is_public_address (some a) = not (a.version == 4 && in_cgnat a.value) && not (is_special a)

-- `s.rstrip(".")`
all_dots : String → Bool
all_dots String.[] = true
all_dots (String.◌∷◌ c s) = code c == 46 && all_dots s

without_dots : String → String
unfolding all_dots
without_dots String.[] = String.[]
without_dots (String.◌∷◌ c s) =
    if code c == 46 && all_dots s then String.[] else String.◌∷◌ c (without_dots s)

-- An answer with the addresses that were vetted; there are none when it is a refusal.
pub record Verdict : Type 0 where
  pub allowed : Bool
  pub reason : String
  pub addrs : List Info

abbrev pub refusal : String → Verdict
refusal reason = record { allowed = false; reason = reason; addrs = [] }

abbrev approval : List Info → Verdict
approval addrs = record { allowed = true; reason = ""; addrs = addrs }

module _ {W : Type 0} (net : Net W) where
  unfoldable pub ip_is_public : String → Bool
  unfolding is_public_address
  ip_is_public addr = is_public_address (net.address addr)

  connect_info : String → ℕ → Address → Info
  connect_info ip port a = record { family = a.version; addr = ip; port = port }

  -- `host.strip().lower().rstrip(".")`
  unfoldable pub normal_host : String → String
  unfolding without_dots Text.strip
  normal_host host = without_dots (net.lower (Text.strip host))

  unfoldable pub literal : String → ℕ → Address → Verdict
  unfolding ip_is_public connect_info
  literal host port a =
      if ip_is_public host
      then approval (connect_info host port a ∷ [])
      else refusal (joined (host ∷ " is not a public address" ∷ []))

  -- The addresses of a name that are not public.
  unfoldable pub bad_addrs : List Info → List Info
  unfolding ip_is_public
  bad_addrs infos = keep (λ i. not (ip_is_public i.addr)) infos

  unfoldable pub judged : String → List Info → List Info → Verdict
  judged host [] bad = refusal (joined (net.repr host ∷ " resolved to nothing" ∷ []))
  judged host (i ∷ infos) [] = approval (i ∷ infos)
  judged host (i ∷ infos) (b ∷ bad) =
      refusal (joined (host ∷ " resolves to a non-public address (" ∷ b.addr ∷ ")" ∷ []))

  unfoldable pub resolved : String → Result String (List Info) → Verdict
  unfolding judged bad_addrs
  resolved host (err name) =
      refusal (joined ("could not resolve " ∷ net.repr host ∷ " (" ∷ name ∷ ")" ∷ []))
  resolved host (ok infos) = judged host infos (bad_addrs infos)

  unfoldable pub looked_up : Bool → String → ℕ → Option Address → W → Verdict × W
  unfolding literal resolved
  looked_up resolve host port (some a) w = (literal host port a, w)
  looked_up false host port none w = (
    refusal (joined (net.repr host ∷ " cannot be verified without resolving (resolve=False)" ∷ [])),
    w,
  )
  looked_up true host port none w =
      let found = net.getaddrinfo host port w in (resolved host found.0, found.1)

  unfoldable pub resolve_allowed : Bool → String → ℕ → W → Verdict × W
  unfolding looked_up normal_host
  resolve_allowed resolve given port w =
      let host = normal_host given in
      if host == ""
      then (refusal "no host", w)
      else if elem host blocked_hostnames
      then (refusal (joined ("host " ∷ net.repr host ∷ " is blocked" ∷ [])), w)
      else looked_up resolve host port (net.address host) w

  pub host_allowed : Bool → String → ℕ → W → (Bool × String) × W
  unfolding resolve_allowed
  host_allowed resolve host port w =
      let found = resolve_allowed resolve host port w in
      ((found.0.allowed, found.0.reason), found.1)

  -- `p.port or (443 if scheme == "https" else 80)`
  pub port_or : String → Option ℕ → ℕ
  port_or scheme none = if scheme == "https" then 443 else 80
  port_or scheme (some port) = if port == 0 then (if scheme == "https" then 443 else 80) else port

  pub or_no_host : Option String → String
  or_no_host none = ""
  or_no_host (some host) = host

  ported : String → Option String → Result String (Option ℕ) → W → (Bool × String) × W
  unfolding host_allowed port_or or_no_host
  ported scheme hostname (err e) w = ((false, joined ("malformed URL (" ∷ e ∷ ")" ∷ [])), w)
  ported scheme hostname (ok port) w =
      host_allowed true (or_no_host hostname) (port_or scheme port) w

  parsed : Result String Url → W → (Bool × String) × W
  unfolding ported
  parsed (err e) w = ((false, joined ("malformed URL (" ∷ e ∷ ")" ∷ [])), w)
  parsed (ok url) w =
      let scheme = net.lower url.scheme in
      if elem scheme ("http" ∷ "https" ∷ []) then ported scheme url.hostname url.port w else (
        (
          false,
          joined (
              "scheme "
              ∷ net.repr (if scheme == "" then "(none)" else scheme)
              ∷ " is not http(s)"
              ∷ []),
        ),
        w,
      )

  pub url_allowed : String → W → (Bool × String) × W
  unfolding parsed
  url_allowed url w = parsed (net.urlparse url) w

  pub looks_like_egress_failure : String → Bool
  unfolding contains
  looks_like_egress_failure text = some_of (contains (net.lower text)) (
      "tunnel connection failed" ∷ "argus egress proxy" ∷ "proxyerror" ∷ "cannot connect to proxy"
      ∷ "name or service not known" ∷ "temporary failure in name resolution"
      ∷ "nodename nor servname provided" ∷ "getaddrinfo failed" ∷ [])

  pub with_egress_hint : String → String → String
  unfolding looks_like_egress_failure
  with_egress_hint text escape =
      if looks_like_egress_failure text
      then joined (
          text
          ∷ "\n\nsandbox egress: sandboxed code reaches the network only through the egress proxy, which "
          ∷ "allows HTTPS to PUBLIC hosts and refuses plain http:// and any private/LAN/localhost address."
          ∷ " " ∷ escape ∷ [])
      else text
