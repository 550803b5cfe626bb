-- ===== src/Egress/Proxy.antt =====
-- engine/sandbox/proxy.py: `ProxyHandler.handle`. `str.upper`, `str.isdigit` and `int` are parameters, and
-- reading from the client, the clock and connecting are operations on a world; the relay of bytes is the
-- event `tunnels`.
use argus_agent.Base.{
  ℕ, zero, suc, ◌+◌, ◌-◌, String, Bool, true, false, not, ◌&&◌, ◌||◌, Option, none, some, List, [],
  ◌∷◌, ◌++◌, ◌==◌, nat_eq, string_eq, elem, if◌then◌else◌, leb,
}
use argus_agent.Base.Result.{Result, ok, err}
use argus_agent.Base.Text
use argus_agent.Loop.Echo.{joined, decimal}
use argus_agent.Egress.{Info, Url, Verdict, Net, resolve_allowed, port_or}
use Prim.Native.Char.{code}

abbrev pub max_header_bytes : ℕ
max_header_bytes = 16384

-- How a connection went: an `OSError` is one way to fail, and any other exception is not caught.
pub data Dialled : Type 0 where
  reached : Dialled
  os_error : String → Dialled
  raised : String → Dialled

pub record Io (W : Type 0) : Type 0 where
  pub upper : String → String
  pub isdigit : String → Bool
  pub int : String → Option ℕ
  pub now : W → ℕ
  pub readline : ℕ → W → Option String × W
  pub connect : Info → W → Dialled × W
  pub drain_timeout : ℕ

pub data Event : Type 0 where
  denies : ℕ → String → Event
  dials : Info → Event
  tunnels : Info → Event
  crashes : String → Event

pub os_error_of : Dialled → String
os_error_of (os_error e) = e
os_error_of _ = ""

-- The text before the last colon and the text after it.
rpartition : String → Option (String × String)
rpartition String.[] = none
rpartition (String.◌∷◌ c s) = elim (rpartition s) [
  | some p ↦ some (String.◌∷◌ c p.0, p.1)
  | none ↦ if code c == 58 then some ("", s) else none
]

is_bracket : ℕ → Bool
is_bracket c = c == 91 || c == 93

all_brackets : String → Bool
unfolding is_bracket
all_brackets String.[] = true
all_brackets (String.◌∷◌ c s) = is_bracket (code c) && all_brackets s

without_last_brackets : String → String
unfolding all_brackets
without_last_brackets String.[] = String.[]
without_last_brackets (String.◌∷◌ c s) =
    if is_bracket (code c) && all_brackets s
    then String.[]
    else String.◌∷◌ c (without_last_brackets s)

-- `s.strip("[]")`
without_brackets : String → String
unfolding without_last_brackets
without_brackets String.[] = String.[]
without_brackets (String.◌∷◌ c s) =
    if is_bracket (code c) then without_brackets s else without_last_brackets (String.◌∷◌ c s)

-- A host and a port, or none, or an exception.
abbrev pub Target : Type 0
Target = Result String (Option (String × ℕ))

module _ {W : Type 0} (net : Net W) (io : Io W) where
  numbered : String → Option ℕ → Target
  unfolding without_brackets
  numbered host none = err "ValueError"
  numbered host (some port) = ok (some (without_brackets host, port))

  host_and_port : Option (String × String) → Target
  unfolding numbered
  host_and_port none = ok none
  host_and_port (some (host, port)) =
      if host == "" || not (io.isdigit port) then ok none else numbered host (io.int port)

  connect_parts : List String → Target
  unfolding host_and_port rpartition
  connect_parts [] = ok none
  connect_parts (verb ∷ []) = ok none
  connect_parts (verb ∷ target ∷ rest) =
      if io.upper verb == "CONNECT" then host_and_port (rpartition target) else ok none

  pub parse_connect_target : String → Target
  unfolding connect_parts
  parse_connect_target line = connect_parts (Text.split line)

  with_port : String → String → Result String (Option ℕ) → Target
  unfolding port_or
  with_port scheme host (err e) = err e
  with_port scheme host (ok port) = ok (some (host, port_or net scheme port))

  with_host : String → Option String → Result String (Option ℕ) → Target
  unfolding with_port
  with_host scheme none port = ok none
  with_host scheme (some host) port = if host == "" then ok none else with_port scheme host port

  absolute_url : Result String Url → Target
  unfolding with_host
  absolute_url (err e) = err e
  absolute_url (ok url) =
      let scheme = net.lower url.scheme in
      if elem scheme ("http" ∷ "https" ∷ [])
      then with_host scheme url.hostname url.port
      else ok none

  absolute_parts : List String → Target
  unfolding absolute_url
  absolute_parts [] = ok none
  absolute_parts (verb ∷ []) = ok none
  absolute_parts (verb ∷ target ∷ rest) = absolute_url (net.urlparse target)

  pub parse_absolute_request : String → Target
  unfolding absolute_parts
  parse_absolute_request line = absolute_parts (Text.split line)

  -- What one line means, and what comes after it.
  unfoldable pub line_read : (ℕ → W → Bool × W) → ℕ → Option String × W → Bool × W
  line_read rest total (none, w) = (false, w)
  line_read rest total (some line, w) =
      if line == ""
      then (false, w)
      else if line == "\r\n" || line == "\n"
      then (true, w)
      else rest (total + Text.length line) w

  -- The header lines up to the blank one; the first argument is fuel.
  unfoldable pub drain_from : ℕ → ℕ → ℕ → W → Bool × W
  unfolding line_read
  drain_from zero deadline total w = (false, w)
  drain_from (suc fuel) deadline total w =
      let read =
        line_read (drain_from fuel deadline) total (io.readline (max_header_bytes - total) w) in
      if leb deadline (io.now w) || leb max_header_bytes total then (false, w) else read

  pub drain_headers : W → Bool × W
  unfolding drain_from
  drain_headers w = drain_from max_header_bytes (io.now w + io.drain_timeout) 0 w

  -- The address that was reached, if any, or the exception that was not caught; each try is an event.
  unfoldable pub tried :
      (W → (Result String (Result String Info) × List Event) × W)
      → Info
      → Dialled × W
      → (Result String (Result String Info) × List Event) × W
  tried rest i (reached, w) = ((ok (ok i), dials i ∷ []), w)
  tried rest i (raised e, w) = ((err e, dials i ∷ []), w)
  tried rest i (os_error e, w) =
      let (found, after) = rest w in ((found.0, dials i ∷ found.1), after)

  -- `_connect_to_vetted`, with the error of the try before.
  unfoldable pub connect_to_vetted :
      String → List Info → W → (Result String (Result String Info) × List Event) × W
  unfolding tried
  connect_to_vetted last [] w = ((ok (err last), []), w)
  connect_to_vetted last (i ∷ addrs) w =
      tried (connect_to_vetted (os_error_of (io.connect i w).0) addrs) i (io.connect i w)

  unfoldable pub tunnelled :
      String → ℕ → (Result String (Result String Info) × List Event) × W → List Event × W
  tunnelled host port ((err e, events), w) = (events ++ crashes e ∷ [], w)
  tunnelled host port ((ok (err e), events), w) = (
    events
        ++ denies 502
            (joined ("could not reach " ∷ host ∷ ":" ∷ decimal port ∷ " (" ∷ e ∷ ")" ∷ []))
          ∷ [],
    w,
  )
  tunnelled host port ((ok (ok i), events), w) = (events ++ tunnels i ∷ [], w)

  unfoldable pub is_connect : Target → Bool
  is_connect (ok (some target)) = true
  is_connect _ = false

  unfoldable pub ruled : String → String → ℕ → Verdict × W → List Event × W
  unfolding tunnelled connect_to_vetted is_connect
  ruled line host port (verdict, w) =
      if not verdict.allowed
      then (denies 403 verdict.reason ∷ [], w)
      else if is_connect (parse_connect_target line)
      then tunnelled host port (connect_to_vetted "OSError" verdict.addrs w)
      else (denies 501 "plain-HTTP proxying is not supported; use HTTPS (CONNECT)" ∷ [], w)

  unfoldable pub drained : String → String → ℕ → Bool × W → List Event × W
  unfolding ruled
  drained line host port (false, w) = (denies 400 "malformed or incomplete request headers" ∷ [], w)
  drained line host port (true, w) = ruled line host port (resolve_allowed net true host port w)

  unfoldable pub aimed : String → Target → W → List Event × W
  unfolding drained
  aimed line (err e) w = (crashes e ∷ [], w)
  aimed line (ok none) w = (denies 400 "malformed or unsupported proxy request" ∷ [], w)
  aimed line (ok (some (host, port))) w = drained line host port (drain_headers w)

  -- `parse_connect_target(line) or parse_absolute_request(line)`
  target_of : String → Target → Target
  unfolding parse_absolute_request
  target_of line (ok none) = parse_absolute_request line
  target_of line found = found

  unfoldable pub requested : Option String × W → List Event × W
  unfolding aimed target_of parse_connect_target
  requested (none, w) = ([], w)
  requested (some read, w) =
      let line = Text.strip read in aimed line (target_of line (parse_connect_target line)) w

  unfoldable pub handle : W → List Event × W
  unfolding requested
  handle w = requested (io.readline 8192 w)
