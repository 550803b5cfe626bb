-- ===== src/Egress/Examples.antt =====
-- engine/sandbox and engine/tools/net_guard.py: a name that resolves to another address every time.
use argus_agent.Base.{
  ℕ, ◌+◌, ◌%◌, ◌≤◌, String, ◌≡◌, Bool, true, false, none, some, [], ◌∷◌, ◌==◌, nat_eq, string_eq,
  each_of, if◌then◌else◌,
}
use argus_agent.Base.Result.{ok}
use argus_agent.Egress.{Address, Net}
use argus_agent.Egress.Fetch.{Client, max_redirects, safe_fetch}
use argus_agent.Egress.Proxy.{Io, reached, handle}
use argus_agent.Egress.Vetted.{is_safe, handle-is_safe}
use argus_agent.Egress.Limits.{Guarded, safe_fetch-Guarded}

abbrev address_with : Bool → Address
address_with private = record {
  version = 4;
  value = 16843009;
  is_private = private;
  is_loopback = false;
  is_link_local = false;
  is_reserved = false;
  is_multicast = false;
  is_unspecified = false;
}

abbrev same : String → String
same s = s

-- The world counts what was done; every other lookup gives an address of the local network.
abbrev flipping : Net ℕ
flipping = record {
  address = λ s.
      if s == "1.1.1.1"
      then some (address_with false)
      else if s == "10.0.0.1"
      then some (address_with true)
      else none;
  lower = same;
  repr = same;
  urlparse = λ u. ok (record { scheme = "https"; hostname = some u; port = ok none });
  getaddrinfo = λ host port w. (
    ok (
        record { family = 4; addr = if w % 2 == 0 then "1.1.1.1" else "10.0.0.1"; port = port }
        ∷ []),
    w + 1,
  );
}

-- The client sends one line and then the blank one.
abbrev client : Io ℕ
client = record {
  upper = same;
  isdigit = λ s. true;
  int = λ s. some 443;
  now = λ w. w;
  readline =
      λ n w. (if w == 0 then some "CONNECT evil.example:443 HTTP/1.1\r\n" else some "\r\n", w + 1);
  connect = λ i w. (reached, w);
  drain_timeout = 5000000;
}

handle-is_safe_example : each_of (is_safe flipping) (handle flipping client 0).0 ≡ true
handle-is_safe_example = handle-is_safe flipping client 0

abbrev page : Client ℕ
page = record {
  get = λ url w. (
    ok (record { is_redirect = false; location = none; content_length = some 10; size = 10 }),
    w,
  );
  urljoin = λ base next. next;
}

safe_fetch-Guarded_example :
    (n : ℕ) × (n ≤ max_redirects)
    × Guarded flipping page 0 n (safe_fetch flipping page none "a.example" 0).1
safe_fetch-Guarded_example = safe_fetch-Guarded flipping page none "a.example" 0
