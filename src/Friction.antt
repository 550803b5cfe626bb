-- ===== src/Friction.antt =====
-- engine/friction.py: `FrictionLog`. The time of a record is an argument, as is whether the file could
-- be written; a log that is damaged starts empty.
pub mod Newest
use argus_agent.Base.{
  ℕ, ◌-◌, String, Bool, Option, none, some, List, [], ◌∷◌, ◌++◌, ◌==◌, string_eq, drop, length,
  if◌then◌else◌, ltb,
}
use argus_agent.Loop.Echo.{text_take}

pub record Entry : Type 0 where
  pub at : String
  pub session_id : String
  pub kind : String
  pub tool : Option String
  pub attempts : ℕ
  pub detail : String
  pub model : String

-- `DETAIL_MAX` and `MAX_RECORDS`
abbrev pub detail_max : ℕ
detail_max = 400

abbrev pub max_records : ℕ
max_records = 5000

-- The oldest are dropped past the limit.
pub trimmed : List Entry → List Entry
trimmed records =
    if ltb max_records (length records)
    then drop (length records - max_records) records
    else records

-- `str(tool) if tool else None`
named : Option String → Option String
named none = none
named (some tool) = if tool == "" then none else some tool

pub shortened_entry : Entry → Entry
unfolding text_take named
shortened_entry e = record e { tool = named e.tool; detail = text_take detail_max e.detail }

-- The entry is kept even if the file cannot be written, but it is not returned.
pub note : Bool → Entry → List Entry → Option Entry × List Entry
unfolding trimmed shortened_entry
note saved e records =
    (if saved then some (shortened_entry e) else none, trimmed (records ++ shortened_entry e ∷ []))
