-- ===== src/Trust/Approved.antt =====
-- engine/experimental/trust_store.py: only reviewed code is trusted.
use argus_agent.Base.{
  String, ◌≡◌, refl, sym, subst, ◌∙◌, Bool, true, ◌&&◌, ◌||◌, Option, none, some, List, [], ◌∷◌,
  ◌++◌, arith, ◌==◌, string_eq, some_of, Bool-cases, Option-cases, inl, inr, ◌⊎◌,
}
use argus_agent.Base.Dict
use argus_agent.Base.Dict.{Dict, get-put, get-remove}
use argus_agent.Trust.{
  TrustRequest, TrustStore, Trusted, is_trusted, Status, approved, denied, is_approved, is_pending,
  find, get, file_request, request, marked, mark, open_request, grant, approve, refuse, deny,
  revoke,
}

-- An approved request for this code of this tool.
abbrev pub vouches : String → String → TrustRequest → Bool
vouches tool hash r = r.tool_name == tool && r.code_hash == hash && is_approved r.status

-- Every trusted tool has an approved request for the very code that is trusted.
pub record Vouched (s : TrustStore) : Type 0 where
  pub by :
      (tool : String) (t : Trusted)
      → Dict.get tool s.trusted ≡ some t
      → some_of (vouches tool t.code_hash) s.requests ≡ true

some_of-append :
    (p : TrustRequest → Bool) (rs ss : List TrustRequest)
    → some_of p (rs ++ ss) ≡ (some_of p rs || some_of p ss)
some_of-append p [] ss = refl
some_of-append p (r ∷ rs) ss = ground (arith, some_of-append p rs ss)

-- Marking a pending request leaves the approved ones as they were.
mark_keeps :
    (tool hash req_id now : String) (status : Status) (rs : List TrustRequest) (r : TrustRequest)
    → find (λ q. q.id == req_id) rs ≡ some r
    → is_pending r.status ≡ true
    → some_of (vouches tool hash) rs ≡ true
    → some_of (vouches tool hash) (mark req_id status now rs) ≡ true
unfolding find mark marked
mark_keeps tool hash req_id now status [] r e open_status h = h
mark_keeps tool hash req_id now status (q ∷ rs) r e open_status h =
    ground (arith, mark_keeps tool hash req_id now status rs r)

mark_grants :
    (req_id now : String) (rs : List TrustRequest) (r : TrustRequest)
    → find (λ q. q.id == req_id) rs ≡ some r
    → some_of (vouches r.tool_name r.code_hash) (mark req_id approved now rs) ≡ true
unfolding find mark marked
mark_grants req_id now [] r e = ground arith
mark_grants req_id now (q ∷ rs) r e = ground (
  arith,
  mark_grants req_id now rs r,
  string_eq.same_iff q.tool_name r.tool_name,
  string_eq.same_iff q.code_hash r.code_hash,
)

trusted_by :
    (s : TrustStore) (tool hash : String)
    → Vouched s
    → is_trusted tool hash s ≡ true
    → some_of (vouches tool hash) s.requests ≡ true
unfolding is_trusted
trusted_by s tool hash h e = elim (Option-cases (Dict.get tool s.trusted)) [
  | inl gone ↦ ground (arith, gone)
  | inr (t, at) ↦
      subst (λ x. some_of (vouches tool x) s.requests ≡ true)
        ((string_eq.same_iff t.code_hash hash).0 (ground (arith, at))) (h.by tool t at)
]

put_cases :
    (k j : String) (v t : Trusted) (d : Dict String Trusted)
    → Dict.get j (Dict.put k v d) ≡ some t
    → ((k ≡ j) × (v ≡ t)) ⊎ (Dict.get j d ≡ some t)
put_cases k j v t d e =
    ground (arith, get-put k j v d, string_eq.same_iff k j, string_eq.same_iff j k)

remove_cases :
    (k j : String) (t : Trusted) (d : Dict String Trusted)
    → Dict.get j (Dict.remove k d) ≡ some t
    → Dict.get j d ≡ some t
remove_cases k j t d e =
    ground (arith, get-remove k j d, string_eq.same_iff k j, string_eq.same_iff j k)

grant-Vouched :
    (req_id now : String) (s : TrustStore) (o : Option TrustRequest)
    → o ≡ get req_id s
    → Vouched s
    → Vouched (grant req_id now (open_request o) s).1
unfolding grant get
grant-Vouched req_id now s none e h = h
grant-Vouched req_id now s (some r) e h = elim (Bool-cases (is_pending r.status)) [
  | inl pending_r ↦ rw pending_r (record {
    by = λ tool t at. elim (put_cases r.tool_name tool _ t s.trusted at) [
      | inl (same, entry) ↦
          subst
            (λ name.
              some_of (vouches name t.code_hash) (mark req_id approved now s.requests) ≡ true)
            same
            (subst
              (λ x.
                some_of (vouches r.tool_name x.code_hash) (mark req_id approved now s.requests)
                ≡ true)
              entry (mark_grants req_id now s.requests r (sym e)))
      | inr old ↦
          mark_keeps tool t.code_hash req_id now approved s.requests r (sym e) pending_r
            (h.by tool t old)
    ];
  })
  | inr other ↦ rw other h
]

refuse-Vouched :
    (req_id now : String) (s : TrustStore) (o : Option TrustRequest)
    → o ≡ get req_id s
    → Vouched s
    → Vouched (refuse req_id now (open_request o) s).1
unfolding refuse get
refuse-Vouched req_id now s none e h = h
refuse-Vouched req_id now s (some r) e h = elim (Bool-cases (is_pending r.status)) [
  | inl pending_r ↦ rw pending_r (record {
    by = λ tool t at.
        mark_keeps tool t.code_hash req_id now denied s.requests r (sym e) pending_r
          (h.by tool t at);
  })
  | inr other ↦ rw other h
]

file_request-Vouched :
    (o : Option TrustRequest) (fresh : TrustRequest) (s : TrustStore)
    → Vouched s
    → Vouched (file_request o fresh s).1
unfolding file_request
file_request-Vouched (some r) fresh s h = h
file_request-Vouched none fresh s h = record {
  by = λ tool t at.
      some_of-append (vouches tool t.code_hash) s.requests (fresh ∷ [])
      ∙ ground (arith, h.by tool t at);
}

request-Vouched :
    (code_hash : String → String) (tool_name code session_id fresh now : String) (s : TrustStore)
    → Vouched s
    → Vouched (request code_hash tool_name code session_id fresh now s).1
unfolding request
request-Vouched code_hash tool_name code session_id fresh now s h = file_request-Vouched _ _ s h

revoke-Vouched : (tool_name : String) (s : TrustStore) → Vouched s → Vouched (revoke tool_name s).1
unfolding revoke
revoke-Vouched tool_name s h = elim (Option-cases (Dict.get tool_name s.trusted)) [
  | inl e ↦ rw (e, revoke) h
  | inr (t, e) ↦
      rw (e, revoke)
        (record { by = λ tool u at. h.by tool u (remove_cases tool_name tool u s.trusted at) })
]

-- What the engine and the owner do with the store.
pub data Call : Type 0 where
  requests : String → String → String → String → String → Call
  approves denies : String → String → Call
  revokes : String → Call

unfoldable pub call : (String → String) → Call → TrustStore → TrustStore
call code_hash (requests tool_name code session_id fresh now) s =
    (request code_hash tool_name code session_id fresh now s).1
call code_hash (approves req_id now) s = (approve req_id now s).1
call code_hash (denies req_id now) s = (deny req_id now s).1
call code_hash (revokes tool_name) s = (revoke tool_name s).1

unfoldable pub run : (String → String) → List Call → TrustStore → TrustStore
unfolding call
run code_hash [] s = s
run code_hash (c ∷ cs) s = run code_hash cs (call code_hash c s)

call-Vouched :
    (code_hash : String → String) (c : Call) (s : TrustStore)
    → Vouched s
    → Vouched (call code_hash c s)
unfolding call approve deny
call-Vouched code_hash (requests tool_name code session_id fresh now) s h =
    request-Vouched code_hash tool_name code session_id fresh now s h
call-Vouched code_hash (approves req_id now) s h = grant-Vouched req_id now s (get req_id s) refl h
call-Vouched code_hash (denies req_id now) s h = refuse-Vouched req_id now s (get req_id s) refl h
call-Vouched code_hash (revokes tool_name) s h = revoke-Vouched tool_name s h

run-Vouched :
    (code_hash : String → String) (cs : List Call) (s : TrustStore)
    → Vouched s
    → Vouched (run code_hash cs s)
unfolding run
run-Vouched code_hash [] s h = h
run-Vouched code_hash (c ∷ cs) s h =
    run-Vouched code_hash cs (call code_hash c s) (call-Vouched code_hash c s h)

-- After any calls on a sound store, a tool is trusted under a hash only if the store has an approved
-- request for that tool with that hash.
pub run-is_trusted :
    (code_hash : String → String) (cs : List Call) (s : TrustStore)
    → Vouched s
    → (tool hash : String) → is_trusted tool hash (run code_hash cs s) ≡ true
    → some_of (vouches tool hash) (run code_hash cs s).requests ≡ true
unfolding is_trusted
run-is_trusted code_hash cs s h tool hash e =
    trusted_by (run code_hash cs s) tool hash (run-Vouched code_hash cs s h) e
