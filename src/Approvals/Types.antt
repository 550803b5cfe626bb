-- ===== src/Approvals/Types.antt =====
-- engine/approvals/types.py
use argus_agent.Base.{
  String, ◌≡◌, ◌≢◌, ◌↔◌, refl, Bool, true, false, Bool-cases, inl, inr, Option, List, [], ◌∷◌,
  arith, Keyed, ◌==◌, string_eq, elem, if◌then◌else◌,
}

-- The policy states "allow", "ask" and "deny".
pub data State : Type 0 where
  allow ask deny : State

abbrev pub state_beq : State → State → Bool
state_beq allow allow = true
state_beq ask ask = true
state_beq deny deny = true
state_beq _ _ = false

pub state_beq_iff : (a b : State) → (state_beq a b ≡ true) ↔ (a ≡ b)
state_beq_iff a b = (λ h. ground arith, λ h. ground arith)

instance abbrev pub state_eq : Keyed State
state_eq = record { same = state_beq; same_iff = state_beq_iff }

abbrev pub dep_install : String
dep_install = "dep-install"

abbrev pub default_ask : List String
default_ask =
    "dep-install" ∷ "update_soul" ∷ "exec_python" ∷ "forget" ∷ "delete_row" ∷ "drop_column"
    ∷ "rename_column" ∷ "rename_table" ∷ "update_rows" ∷ []

unfoldable pub states_for : String → List State
states_for key = if key == dep_install then ask ∷ deny ∷ [] else allow ∷ ask ∷ deny ∷ []

unfoldable pub default_for : String → State
default_for key = if elem key default_ask then ask else allow

pub record Decision : Type 0 where
  pub approved : Bool
  pub denied : Bool
  pub auto : Bool
  pub one_shot : Bool
  pub actor : Option String

-- A state that `key` may have.
abbrev pub Permits : String → State → Type 0
Permits key state = elem state (states_for key) ≡ true

pub default_for-Permits : (key : String) → Permits key (default_for key)
unfolding default_for states_for
default_for-Permits key = elim (Bool-cases (key == dep_install)) [
  | inl same ↦ rw ((string_eq.same_iff key dep_install).0 same) refl
  | inr other ↦ rw other (ask_or_allow (elem key default_ask))
]
  where
    ask_or_allow : (b : Bool) → elem (if b then ask else allow) (allow ∷ ask ∷ deny ∷ []) ≡ true
    ask_or_allow b = ground arith

-- A package install is never allowed outright.
pub Permits-dep_install : (state : State) → Permits dep_install state → state ≢ allow
unfolding states_for
Permits-dep_install state h e = ground arith
