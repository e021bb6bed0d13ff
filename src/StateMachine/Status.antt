-- ===== src/StateMachine/Status.antt =====
-- `TxStatus` of engine/state_machine.rs and its transitions.
use agent_tx_protocol.Prelude.{◌≡◌, refl, ◌↔◌, Bool, true, false, Text, bytes, if◌then◌else◌}
use agent_tx_protocol.Errors.{illegal_transition, Result, ok, err}

pub data TxStatus : Type 0 where
  active executing rolling_back committing committed rolled_back failed : TxStatus

-- TxStatus::as_str
unfoldable pub status_name : TxStatus → Text
status_name active = bytes "ACTIVE"
status_name executing = bytes "EXECUTING"
status_name rolling_back = bytes "ROLLING_BACK"
status_name committing = bytes "COMMITTING"
status_name committed = bytes "COMMITTED"
status_name rolled_back = bytes "ROLLED_BACK"
status_name failed = bytes "FAILED"

unfoldable pub is_terminal : TxStatus → Bool
is_terminal committed = true
is_terminal rolled_back = true
is_terminal failed = true
is_terminal _ = false

unfoldable pub can_transition_to : TxStatus → TxStatus → Bool
can_transition_to active executing = true
can_transition_to active committing = true
can_transition_to active rolling_back = true
can_transition_to executing active = true
can_transition_to executing rolling_back = true
can_transition_to rolling_back active = true
can_transition_to rolling_back rolled_back = true
can_transition_to rolling_back failed = true
can_transition_to committing committed = true
can_transition_to committing active = true
can_transition_to committing rolling_back = true
can_transition_to _ _ = false

-- TxStatus::transition: the new status, or an error that leaves the caller's status as it was.
unfoldable pub transition : TxStatus → TxStatus → Result TxStatus
unfolding can_transition_to
transition current next =
    if can_transition_to current next
    then ok next
    else err (illegal_transition (status_name current) (status_name next))

-- A status that no accepted call leaves.
abbrev IsFinal : TxStatus → Type 0
IsFinal s = (next : TxStatus) → can_transition_to s next ≡ false

-- The terminal statuses are exactly those that no transition leaves.
pub is_terminal_iff : (s : TxStatus) → (is_terminal s ≡ true) ↔ IsFinal s
unfolding is_terminal can_transition_to
is_terminal_iff active = (λ h. cc, λ f. cc (f executing))
is_terminal_iff executing = (λ h. cc, λ f. cc (f active))
is_terminal_iff rolling_back = (λ h. cc, λ f. cc (f active))
is_terminal_iff committing = (λ h. cc, λ f. cc (f active))
is_terminal_iff committed = (λ h next. refl, λ f. refl)
is_terminal_iff rolled_back = (λ h next. refl, λ f. refl)
is_terminal_iff failed = (λ h next. refl, λ f. refl)
