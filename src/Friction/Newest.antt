-- ===== src/Friction/Newest.antt =====
-- engine/friction.py: the log is bounded and keeps its newest entries.
use argus_agent.Base.{
  ℕ, zero, suc, ◌-◌, ◌≤◌, ◌≡◌, refl, ap, Bool, List, [], ◌∷◌, ◌++◌, arith, drop, length,
  length-drop, ltb, Bool-cases, inl, inr,
}
use argus_agent.Friction.{Entry, note, trimmed, shortened_entry, max_records}

trimmed-max : (records : List Entry) → length (trimmed records) ≤ max_records
unfolding trimmed
trimmed-max records = ground (arith, length-drop (length records - max_records) records)

dropped :
    (k : ℕ) (records : List Entry) → (older : List Entry) × (records ≡ older ++ drop k records)
dropped zero records = ([], refl)
dropped (suc k) [] = ([], refl)
dropped (suc k) (r ∷ rs) = let (older, e) = dropped k rs in (r ∷ older, ap (λ xs. r ∷ xs) e)

trimmed-newest :
    (records : List Entry) → (older : List Entry) × (records ≡ older ++ trimmed records)
unfolding trimmed
trimmed-newest records = elim (Bool-cases (ltb max_records (length records))) [
  | inl e ↦ rw e (dropped (length records - max_records) records)
  | inr e ↦ rw e ([], refl)
]

-- After a give-up moment is noted the log has at most `MAX_RECORDS` entries, and what it has are the
-- newest of the entries before it and then the new one.
note-max_records :
    (saved : Bool) (e : Entry) (records : List Entry)
    → (length (note saved e records).1 ≤ max_records)
      × ((older : List Entry) × (records ++ shortened_entry e ∷ []
            ≡ older ++ (note saved e records).1))
unfolding note
note-max_records saved e records = (
  trimmed-max (records ++ shortened_entry e ∷ []),
  trimmed-newest (records ++ shortened_entry e ∷ []),
)
