-- ===== src/Engine/Settled.antt =====
-- Where the operations leave the status of a transaction.
pub mod Steps
pub mod Operations
pub mod Commit
pub mod Begin
use agent_tx_protocol.Prelude.{
  ℕ, zero, suc, ◌≡◌, refl, sym, ap, ◌∙◌, ◌⊎◌, inl, inr, Bool, true, false, Option, none, some, List,
  [], ◌∷◌, ◌++◌, Text, if◌then◌else◌, nat_eq, ◌==◌, arith,
}
use agent_tx_protocol.Json.{Value}
use agent_tx_protocol.Errors.{AgentTxError, Result, ok, err}
use agent_tx_protocol.Graph.{Dependency}
use agent_tx_protocol.Hints.{CleanHint}
use agent_tx_protocol.StateMachine.Status.{
  TxStatus, active, executing, rolling_back, committing, committed, rolled_back, failed,
  can_transition_to,
}
use agent_tx_protocol.StateMachine.Controller.{
  RollbackDecision, jump_to, backtrack_to, reset_all, abort_with,
}
use agent_tx_protocol.World.{StoreCall, Log}
use agent_tx_protocol.Saga.Ledger.{CompensationReport, record_action, stored_in}
use agent_tx_protocol.Transaction.{Transaction, truncate_from, add_constraint}
use agent_tx_protocol.Engine.Act.{
  Locked, Act, pure, raise, reads, attempt, ◌>>=◌, ◌>>◌, modify, leave_table, transition_to, store,
  world,
}
use agent_tx_protocol.Engine.Types.{
  StepRequest, StepOutcome, StepAttempt, step_succeeded, step_error, EngineConfig, Parts,
}
use agent_tx_protocol.Engine.Locked.{
  rewind_locked, compensate, record_undo, add_step, run_step, abort_locked, enter_rollback,
  fail_hard, give_up,
}
use agent_tx_protocol.Engine.Steps.{
  decide_on, clock, rewind_to, carry_out, handle_failure, finish_step, execute_locked, resume,
  rewind_after_error, recover_from, recover_step, after_attempt, execute_active, keep_step,
}
use agent_tx_protocol.Engine.Keeps.{Keeps}
use agent_tx_protocol.Transaction.Consistency.{truncate_from-status}
use agent_tx_protocol.Engine.Ensures.{
  Ensures, Outcome, At, Ensures-pure, Ensures-reads, Ensures-raise, Ensures-Keeps, Ensures-attempt,
  Ensures-bind, Ensures-modify, Ensures-transition, Ensures-weaken,
}

-- The transaction has ended with a status, and the table does not hold it.
abbrev pub Ended : TxStatus → Locked → Type 0
Ended final s = (s.tx.status ≡ final) × (s.live ≡ false)

-- An end that the diagram allows a rollback.
abbrev pub Allowed : TxStatus → Type 0
Allowed final = can_transition_to rolling_back final ≡ true

module _ (parts : Parts) where
  -- code that keeps the status, where an error may leave it
  modify-At :
      {E : Locked → Type 0} (status : TxStatus) (f : Transaction → Transaction)
      → ((tx : Transaction) → (f tx).status ≡ tx.status)
      → Ensures (At status) (modify f) (λ _. At status) E
  modify-At status f same = Ensures-modify f (λ s h. (same s.tx ∙ h.0, h.1))

  store-At :
      (status : TxStatus) (c : StoreCall)
      → Ensures (At status) (store parts.env c) (λ _. At status) (At status)
  unfolding store
  store-At status c = Ensures-Keeps _ (λ s h. h) (record { at = λ s log h. h })

  compensate-At :
      {E : Locked → Type 0} (status : TxStatus) (step : ℕ)
      → Ensures (At status) (compensate parts step) (λ _. At status) E
  unfolding compensate
  compensate-At status step = record { at = λ s log h. h }

  pub leave_table-Ended :
      {E : Locked → Type 0} (final : TxStatus) → Ensures (At final) leave_table (λ _. Ended final) E
  unfolding leave_table
  leave_table-Ended final = record { at = λ s log p. (p.0, refl) }

  enter_rollback-At :
      {E : Locked → Type 0}
      → Ensures (At rolling_back) (enter_rollback parts) (λ _. At rolling_back) E
  unfolding enter_rollback ◌>>=◌ reads pure
  enter_rollback-At = record { at = λ s log p. rw p.0 (refl, p.1) }

  pub abort_locked-Ended :
      (final : TxStatus)
      → Allowed final
      → Ensures (At rolling_back) (abort_locked parts final) (λ _. Ended final) (At rolling_back)
  unfolding abort_locked
  abort_locked-Ended final allowed = Ensures-bind _ _ enter_rollback-At λ _.
      Ensures-bind _ _ (compensate-At rolling_back 0) λ report.
        Ensures-bind _ _ (modify-At rolling_back _ (λ tx. refl)) λ _.
          Ensures-bind _ _ (Ensures-reads _ (λ s h. h)) λ id.
            Ensures-bind _ _ (store-At rolling_back _) λ _.
              Ensures-bind _ _ (modify-At rolling_back _ (truncate_from-status 0)) λ _.
                Ensures-bind _ _ (Ensures-transition rolling_back final allowed) λ _.
                  Ensures-bind _ _ (leave_table-Ended final) λ _. Ensures-pure report (λ s h. h)

  give_up-Ended :
      {E : Locked → Type 0} (r : Result CompensationReport)
      → Ensures
          (Outcome (λ _. Ended failed) (At rolling_back) r)
          (give_up parts r)
          (λ _. Ended failed)
          E
  unfolding give_up
  give_up-Ended (ok report) = Ensures-pure tt (λ s h. h)
  give_up-Ended (err e) =
      Ensures-bind _ _ (Ensures-modify _ (λ s h. (refl, h.1))) λ _. leave_table-Ended failed

  pub fail_hard-Ended :
      {E : Locked → Type 0} (status : TxStatus)
      → Ensures (At status) (fail_hard parts) (λ _. Ended failed) E
  unfolding fail_hard can_transition_to
  fail_hard-Ended status =
      Ensures-bind _ _ (Ensures-modify {Q = At rolling_back} _ (λ s h. (refl, h.1))) λ _.
        Ensures-bind _ _ (Ensures-attempt _ (abort_locked-Ended failed refl))
          λ aborted. give_up-Ended aborted
