-- ===== src/Engine/Effects.antt =====
-- What code under a transaction's lock does not do: it dispatches no staged effect, but for a commit,
-- and it never changes the transaction's id.
pub mod Operations
use agent_tx_protocol.Prelude.{
  ℕ, zero, suc, ◌≡◌, refl, ap, ◌∙◌, Bool, true, false, Option, none, some, List, [], ◌∷◌, ◌++◌,
  Text, Option-cases, inl, inr, drop, ltb, if◌then◌else◌,
}
use mathlib.Core.List.{reverse}
use agent_tx_protocol.Json.{Value, object, end}
use agent_tx_protocol.Errors.{AgentTxError, Result, ok, err, Result-cases}
use agent_tx_protocol.Graph.{Dependency}
use agent_tx_protocol.StateMachine.Status.{TxStatus, transition}
use agent_tx_protocol.World.{
  StagedEffect, StoreCall, put_saga_record, UndoAction, ToolCall, ToolRun, ToolResult, output,
  error, internal, Env, Log, call_tool,
}
use agent_tx_protocol.World.Traces.{dispatches}
use agent_tx_protocol.Saga.Ledger.{
  SagaLedger, SagaEntry, CompensationReport, run_attempts, run_one, run_all, compensate_from,
  record_action, partition_point, entry_step, empty_report,
}
use agent_tx_protocol.Transaction.{Transaction, move_to, truncate_from}
use agent_tx_protocol.Prelude.{Bool-cases, ◌==◌, nat_eq}
use agent_tx_protocol.World.{StageRequest}
use agent_tx_protocol.Engine.Act.{
  Locked, Act, pure, raise, lift, reads, attempt, ◌>>=◌, ◌>>◌, modify, leave_table, transition_to,
  moved, store, world,
}
use agent_tx_protocol.Engine.Types.{
  StepRequest, StepAttempt, Resolution, resolved, unresolved, Parsed, parsed, malformed, Parts,
  Engine,
}
use agent_tx_protocol.World
use agent_tx_protocol.Engine.Locked.{
  rewind_locked, abort_locked, fail_hard, give_up, compensate, enter_rollback, record_undo,
  record_all, stage_all, attempt_of, add_step, run_tool, resolve_and_run, run_known, run_unknown,
  run_parsed, run_step, is_blank,
}
use agent_tx_protocol.Engine.Frame.{Framed}
use agent_tx_protocol.Engine.Frame
use agent_tx_protocol.Engine.Keeps.{Keeps, keeps_rules, Keeps-pure, Keeps-bind, Keeps-raise}

-- What was dispatched so far, and the id of the transaction.
abbrev pub Memo : Type 0
Memo = List StagedEffect × Text

-- No effect was dispatched since `m`, and the transaction has its id.
abbrev pub Silent : Memo → Locked → Log → Type 0
Silent m s log = (dispatches log ≡ m.0) × (s.tx.id ≡ m.1)

module _ (env : Env) where
  run_attempts-dispatches :
      (tx : Text) (left : ℕ) (e : SagaEntry) (reason : Text) (log : Log)
      → dispatches (run_attempts env tx left e reason log).1 ≡ dispatches log
  unfolding run_attempts
  run_attempts-dispatches tx zero e reason log = refl
  run_attempts-dispatches tx (suc left) e reason log = elim (Option-cases (env.undo log e.action)) [
    | inl success ↦ rw (success, run_attempts) refl
    | inr (text, failure) ↦ rw (failure, run_attempts) (run_attempts-dispatches tx left e text _)
  ]

  run_all-dispatches :
      (l : SagaLedger) (es : List SagaEntry) (report : CompensationReport) (log : Log)
      → dispatches (run_all env l es report log).1 ≡ dispatches log
  unfolding run_all run_one
  run_all-dispatches l [] report log = refl
  run_all-dispatches l (e ∷ es) report log =
      run_all-dispatches l es _ _ ∙ run_attempts-dispatches l.tx_id l.max_attempts e [] log

moved-dispatches :
    (r : Result Transaction) (s : Locked) (log : Log)
    → dispatches (moved r s log).2 ≡ dispatches log
moved-dispatches (ok tx) s log = refl
moved-dispatches (err e) s log = refl

moved_to-id :
    (s : Locked) (next : TxStatus) (log : Log) → (moved (move_to s.tx next) s log).1.tx.id ≡ s.tx.id
unfolding move_to
moved_to-id s next log = elim (Result-cases (transition s.tx.status next)) [
  | inl (t, e) ↦ rw e refl
  | inr (t, e) ↦ rw e refl
]

pub truncate_from-id : (step : ℕ) (tx : Transaction) → (truncate_from tx step).id ≡ tx.id
unfolding truncate_from
truncate_from-id step tx = elim (Bool-cases (step == 0)) [
  | inl all ↦ rw all refl
  | inr kept ↦ rw kept refl
]

stage_all-id :
    (parts : Parts) (step : ℕ) (rs : List StageRequest) (tx : Transaction)
    → (stage_all parts step rs tx).id ≡ tx.id
unfolding stage_all
stage_all-id parts step [] tx = refl
stage_all-id parts step (r ∷ rs) tx = stage_all-id parts step rs _

module _ (parts : Parts) (d : Memo) where
  pub modify-Keeps :
      (f : Transaction → Transaction)
      → ((tx : Transaction) → (f tx).id ≡ tx.id)
      → Keeps (Silent d) (modify f)
  unfolding modify
  modify-Keeps f same = record { at = λ s log h. (h.0, same s.tx ∙ h.1) }

  pub leave_table-Keeps : Keeps (Silent d) leave_table
  unfolding leave_table
  leave_table-Keeps = record { at = λ s log h. h }

  pub transition_to-Keeps : (next : TxStatus) → Keeps (Silent d) (transition_to next)
  unfolding transition_to
  transition_to-Keeps next = record {
    at =
        λ s log h. (moved-dispatches (move_to s.tx next) s log ∙ h.0, moved_to-id s next log ∙ h.1);
  }

  pub store-Keeps : (c : StoreCall) → Keeps (Silent d) (store parts.env c)
  unfolding store
  store-Keeps c = record { at = λ s log h. h }

  pub compensate-Keeps : (step : ℕ) → Keeps (Silent d) (compensate parts step)
  unfolding compensate compensate_from
  compensate-Keeps step = record {
    at = λ s log h.
        let l = s.tx.saga in
        (
          run_all-dispatches parts.env l
                (reverse
                  (drop (partition_point (λ e. ltb (entry_step e) step) l.entries) l.entries))
                empty_report log
              ∙ h.0,
          h.1,
        );
  }

  pub ruleset silent_rules = (
    keeps_rules, modify-Keeps, leave_table-Keeps, transition_to-Keeps, store-Keeps,
    compensate-Keeps, truncate_from-id,
  )

  pub rewind_locked-Keeps : (step : ℕ) → Keeps (Silent d) (rewind_locked parts step)
  unfolding rewind_locked
  rewind_locked-Keeps step = search silent_rules depth 14

  Silent-Framed : (step : ℕ) → Framed parts step (Silent d)
  unfolding record_undo record_action add_step world modify
  Silent-Framed step = record {
    add_step-Keeps = λ tool args deps. record { at = λ s log h. h };
    call_tool-Keeps = λ c. record { at = λ s log h. h };
    record_undo-Keeps = λ a. record { at = λ s log h. h };
    stage_all-Keeps = λ rs. modify-Keeps (stage_all parts step rs) (stage_all-id parts step rs);
  }

  pub run_step-Keeps :
      (tools : List Text) (req : StepRequest) → Keeps (Silent d) (run_step parts tools req)
  run_step-Keeps tools req = Frame.run_step-Keeps parts tools req (Silent-Framed req.step_id)

  enter_rollback-Keeps : Keeps (Silent d) (enter_rollback parts)
  unfolding enter_rollback
  enter_rollback-Keeps = search (silent_rules) depth 14

  pub abort_locked-Keeps : (final : TxStatus) → Keeps (Silent d) (abort_locked parts final)
  unfolding abort_locked
  abort_locked-Keeps final = search (silent_rules, enter_rollback-Keeps) depth 14

  give_up-Keeps : (r : Result CompensationReport) → Keeps (Silent d) (give_up parts r)
  unfolding give_up
  give_up-Keeps (ok _) = search silent_rules depth 14
  give_up-Keeps (err _) = search silent_rules depth 14

  pub fail_hard-Keeps : Keeps (Silent d) (fail_hard parts)
  unfolding fail_hard
  fail_hard-Keeps = search (silent_rules, abort_locked-Keeps, give_up-Keeps) depth 14

pub abort_locked-id :
    (parts : Parts) (final : TxStatus) (s : Locked) (log : Log)
    → (abort_locked parts final s log).1.tx.id ≡ s.tx.id
abort_locked-id parts final s log =
    ((abort_locked-Keeps parts (dispatches log, s.tx.id) final).at s log (refl, refl)).1
