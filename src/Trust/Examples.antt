-- ===== src/Trust/Examples.antt =====
-- engine/experimental/trust_store.py: a tool that is reviewed and approved.
use argus_agent.Base.{◌≡◌, refl, true, List, [], ◌∷◌, some_of, arith}
use argus_agent.Base.Dict
use argus_agent.Trust.{TrustStore, is_trusted}
use argus_agent.Trust.Approved.{Vouched, vouches, Call, requests, approves, run, run-is_trusted}

abbrev empty : TrustStore
empty = record { trusted = []; requests = [] }

abbrev calls : List Call
calls = requests "backup" "import os" "s1" "t1" "now" ∷ approves "t1" "later" ∷ []

empty-Vouched : Vouched empty
unfolding Dict.get
empty-Vouched = record { by = λ tool t at. ground (arith, at) }

run-is_trusted_example :
    some_of (vouches "backup" "import os") (run (λ c. c) calls empty).requests ≡ true
unfolding run is_trusted Dict.get argus_agent.Trust.approve argus_agent.Trust.request Dict.put
run-is_trusted_example = run-is_trusted (λ c. c) calls empty empty-Vouched "backup" "import os" refl
