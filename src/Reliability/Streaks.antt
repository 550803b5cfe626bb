-- ===== src/Reliability/Streaks.antt =====
-- engine/reliability/collector.py: a tool that fails alike time after time is noted once.
use argus_agent.Base.{
  ℕ, suc, ◌<◌, ◌≤◌, String, ◌≡◌, refl, sym, ap, ◌∙◌, false, none, some, List, [], ◌∷◌, ◌++◌, map,
  take, drop, arith, ◌==◌, nat_eq, string_eq, pair_eq, length, if◌then◌else◌, Bool-cases, inl, inr,
}
use argus_agent.Base.Dict
use argus_agent.Base.Dict.{Dict, get-put}
use mathlib.Core.List.{append-nil, append_assoc}
use argus_agent.Reliability.{Collector, track_streak, counted, capped, next_count, row, stuck_row}

counted-streak :
    (tool detail : String) (ts count : ℕ) (c : Collector)
    → (counted tool detail ts count c).streak ≡ Dict.put tool (detail, count) c.streak
unfolding counted row
counted-streak tool detail ts count c = ground arith

counted-rows :
    (tool detail : String) (ts count : ℕ) (c : Collector)
    → (counted tool detail ts count c).rows
      ≡ (if count == 3 then c.rows ++ stuck_row tool detail ts ∷ [] else c.rows)
unfolding counted row
counted-rows tool detail ts count c = ground arith

capped-room : {V : Type 0} (most : ℕ) (d : Dict String V) → length d < most → capped most d ≡ d
unfolding capped
capped-room most d room = ground arith

next_count-same : (detail : String) (n : ℕ) → next_count detail (some (detail, n)) ≡ suc n
unfolding next_count
next_count-same detail n = ground (arith, string_eq.same_iff detail detail)

get-put_self :
    (tool : String) (v : String × ℕ) (d : Dict String (String × ℕ))
    → Dict.get tool (Dict.put tool v d) ≡ some v
get-put_self tool v d = ground (arith, get-put tool tool v d, string_eq.same_iff tool tool)

next_count-none : (detail : String) → next_count detail none ≡ 1
unfolding next_count
next_count-none detail = refl

three : (n : ℕ) → (suc n == 3) ≡ (n == 2)
three n = ground arith

counted-max_pending :
    (tool detail : String) (ts count : ℕ) (c : Collector)
    → (counted tool detail ts count c).max_pending ≡ c.max_pending
unfolding counted row
counted-max_pending tool detail ts count c = ground arith

track_streak-room :
    (tool detail : String) (ts : ℕ) (c : Collector)
    → (detail == "") ≡ false
    → length c.streak < c.max_pending
    → track_streak tool false detail ts c
      ≡ counted tool detail ts (next_count detail (Dict.get tool c.streak)) c
unfolding track_streak
track_streak-room tool detail ts c filled room =
    rw (filled, capped-room c.max_pending c.streak room) refl

length-put :
    (tool : String) (v w : String × ℕ) (d : Dict String (String × ℕ))
    → Dict.get tool d ≡ some w
    → length (Dict.put tool v d) ≡ length d
unfolding Dict.get Dict.put
length-put tool v w [] h = cc
length-put tool v w ((k, x) ∷ d) h = elim (Bool-cases (k == tool)) [
  | inl same ↦ rw same refl
  | inr other ↦ rw other (ap suc (length-put tool v w d (rw other at h)))
]

length-put_most :
    (tool : String) (v : String × ℕ) (d : Dict String (String × ℕ))
    → length (Dict.put tool v d) ≤ suc (length d)
unfolding Dict.put
length-put_most tool v [] = omega arith
length-put_most tool v ((k, x) ∷ d) = ground (arith, length-put_most tool v d)

-- The tool fails with the same detail at each of the times.
abbrev pub fails : String → String → List ℕ → Collector → Collector
fails tool detail [] c = c
fails tool detail (ts ∷ times) c = fails tool detail times (track_streak tool false detail ts c)

-- The times at which the count of failures, which stood at `n`, gets to three.
abbrev third : ℕ → List ℕ → List ℕ
third n [] = []
third n (ts ∷ times) = let rest = third (suc n) times in if n == 2 then ts ∷ rest else rest

third-late : (n : ℕ) (times : List ℕ) → 3 ≤ n → third n times ≡ []
third-late n [] h = refl
third-late n (ts ∷ times) h = ground (arith, third-late (suc n) times (omega arith))

third-one : (times : List ℕ) → third 1 times ≡ take 1 (drop 1 times)
third-one [] = refl
third-one (a ∷ []) = refl
third-one (a ∷ (b ∷ times)) = rw (third-late 3 times (omega arith)) refl

third-zero : (times : List ℕ) → third 0 times ≡ take 1 (drop 2 times)
third-zero [] = refl
third-zero (a ∷ times) = third-one times

counted-third :
    (tool detail : String) (n ts : ℕ) (times : List ℕ) (c : Collector)
    → (counted tool detail ts (suc n) c).rows ++ map (stuck_row tool detail) (third (suc n) times)
      ≡ c.rows ++ map (stuck_row tool detail) (third n (ts ∷ times))
counted-third tool detail n ts times c =
    let rest = map (stuck_row tool detail) (third (suc n) times) in
    ap (λ rows. rows ++ rest) (counted-rows tool detail ts (suc n) c) ∙ elim (Bool-cases (n == 2)) [
      | inl two ↦ rw (three n, two) (append_assoc c.rows (stuck_row tool detail ts ∷ []) rest)
      | inr other ↦ rw (three n, other) refl
    ]

-- Failures that follow on `n` with the same detail.
fails-on :
    (tool detail : String) (n : ℕ) (times : List ℕ) (c : Collector)
    → (detail == "") ≡ false
    → length c.streak < c.max_pending
    → Dict.get tool c.streak ≡ some (detail, n)
    → (fails tool detail times c).rows ≡ c.rows ++ map (stuck_row tool detail) (third n times)
fails-on tool detail n [] c filled room at = sym (append-nil c.rows)
fails-on tool detail n (ts ∷ times) c filled room at =
    let d = counted tool detail ts (suc n) c in
    let now : track_streak tool false detail ts c ≡ d =
      track_streak-room tool detail ts c filled room ∙ (rw (at, next_count-same detail n) refl) in
    let rest =
      fails-on tool detail (suc n) times d filled
        (rw
          (
            counted-max_pending tool detail ts (suc n) c,
            counted-streak tool detail ts (suc n) c,
            length-put tool (detail, suc n) (detail, n) c.streak at,
          )
          room)
        (ap (Dict.get tool) (counted-streak tool detail ts (suc n) c)
          ∙ get-put_self tool (detail, suc n) c.streak) in
    ap (λ e. (fails tool detail times e).rows) now ∙ (rest ∙ counted-third tool detail n ts times c)

-- While there is room for the streak of one more tool, and the tool has none, the failures of the
-- tool at `times` with one detail, which is not empty, add one row about a stuck tool, at the third
-- of these times, or none when there are fewer than three.
pub fails-stuck_once :
    (tool detail : String) (times : List ℕ) (c : Collector)
    → (detail == "") ≡ false
    → suc (length c.streak) < c.max_pending
    → Dict.get tool c.streak ≡ none
    → (fails tool detail times c).rows
      ≡ c.rows ++ map (stuck_row tool detail) (take 1 (drop 2 times))
fails-stuck_once tool detail [] c filled room at = sym (append-nil c.rows)
fails-stuck_once tool detail (ts ∷ times) c filled room at =
    let d = counted tool detail ts 1 c in
    let now : track_streak tool false detail ts c ≡ d =
      track_streak-room tool detail ts c filled (omega (arith, room))
      ∙ (rw at (ap (λ n. counted tool detail ts n c) (next_count-none detail))) in
    let rest =
      fails-on tool detail 1 times d filled
        (rw (counted-max_pending tool detail ts 1 c, counted-streak tool detail ts 1 c)
          (omega (arith, length-put_most tool (detail, 1) c.streak, room)))
        (ap (Dict.get tool) (counted-streak tool detail ts 1 c)
          ∙ get-put_self tool (detail, 1) c.streak) in
    ap (λ e. (fails tool detail times e).rows) now
    ∙ (rest
        ∙ ap (λ rows. rows ++ map (stuck_row tool detail) (third 1 times))
            (counted-rows tool detail ts 1 c)
        ∙ ap (λ more. c.rows ++ map (stuck_row tool detail) more) (third-one times))
