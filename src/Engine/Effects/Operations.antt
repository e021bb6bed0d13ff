-- ===== src/Engine/Effects/Operations.antt =====
-- The engine's operations and the effects that they dispatch.
use agent_tx_protocol.Prelude.{
  ℕ, zero, suc, ◌≡◌, refl, ◌∙◌, Bool, true, false, Option, none, some, List, [], ◌∷◌, ◌++◌, Text,
  Option-cases, inl, inr, get, nat_eq, list_eq, length, u32_mod, ◌%◌,
}
use mathlib.Core.List.{reverse}
use agent_tx_protocol.Errors.{AgentTxError, Result, ok, err, write_conflict, join}
use agent_tx_protocol.Graph.{Dependency}
use agent_tx_protocol.Hints.{CleanHint}
use agent_tx_protocol.StateMachine.Status.{TxStatus, active, committing, transition}
use agent_tx_protocol.StateMachine.Controller.{
  RollbackDecision, jump_to, backtrack_to, reset_all, abort_with,
}
use agent_tx_protocol.World.{StagedEffect, Log}
use agent_tx_protocol.World
use agent_tx_protocol.World.Traces.{dispatches}
use agent_tx_protocol.Saga.Ledger.{CompensationReport, forget_all}
use agent_tx_protocol.Saga.Staging.{FlushReport, flush, flush_lem}
use agent_tx_protocol.Prelude.{Bool-cases, contains}
use agent_tx_protocol.Transaction.{Transaction, ensure_active, move_to, add_constraint, is_active}
use agent_tx_protocol.Engine.Act.{Locked, Act, reads, attempt, ◌>>=◌, modify, transition_to, store}
use agent_tx_protocol.Engine.Types.{
  StepRequest, StepOutcome, StepAttempt, step_succeeded, step_error, EngineConfig, Parts, Engine,
}
use agent_tx_protocol.Engine.Steps.{
  decide_on, clock, rewind_to, carry_out, handle_failure, finish_step, execute_locked, resume,
  rewind_after_error, recover_from, recover_step, after_attempt, execute_active,
}
use agent_tx_protocol.Engine.Operations.{
  with_handle, ensure, expect_step, execute_under_lock, execute_step, expect_before, after_rewind,
  rollback_to, rollback_all, rollback_locked, rollback, flush_staged, publish, conclude,
  not_committed, after_commit, commit_locked, commit,
}
use agent_tx_protocol.Engine.Keeps.{Keeps, Keeps-pure, Keeps-raise}
use agent_tx_protocol.Engine.Effects.{
  Memo, Silent, silent_rules, rewind_locked-Keeps, abort_locked-Keeps, fail_hard-Keeps,
  run_step-Keeps,
}

active_status : (status : TxStatus) → is_active status ≡ true → status ≡ active
active_status active h = refl
active_status _ h = cc

add_constraint-id :
    (tx : Transaction) (hint : Text) (limit : ℕ) → (add_constraint tx hint limit).1.id ≡ tx.id
unfolding add_constraint
add_constraint-id tx hint limit = elim (Bool-cases (contains tx.constraints hint)) [
  | inl old ↦ rw old refl
  | inr fresh ↦ rw fresh refl
]

module _ (parts : Parts) (d : Memo) where
  decide_on-Keeps :
      (config : EngineConfig) (step : ℕ) (hint : CleanHint)
      → Keeps (Silent d) (decide_on parts config step hint)
  unfolding decide_on
  decide_on-Keeps config step hint = record {
    at = λ s log h. (h.0, add_constraint-id s.tx hint.text config.max_constraints ∙ h.1);
  }

  clock-Keeps : Keeps (Silent d) (clock parts)
  unfolding clock
  clock-Keeps = record { at = λ s log h. h }

  rewind_to-Keeps : (target : ℕ) (reset : Bool) → Keeps (Silent d) (rewind_to parts target reset)
  unfolding rewind_to
  rewind_to-Keeps target reset = search (silent_rules, rewind_locked-Keeps) depth 14

  carry_out-Keeps : (decision : RollbackDecision) → Keeps (Silent d) (carry_out parts decision)
  unfolding carry_out
  carry_out-Keeps (abort_with reason) = search (silent_rules, abort_locked-Keeps) depth 14
  carry_out-Keeps (reset_all reason) = rewind_to-Keeps 0 true
  carry_out-Keeps (jump_to target key) = rewind_to-Keeps target false
  carry_out-Keeps (backtrack_to target n) = rewind_to-Keeps target false

  handle_failure-Keeps :
      (config : EngineConfig) (step : ℕ) (text : Text) (deps : List Dependency)
      → Keeps (Silent d) (handle_failure parts config step text deps)
  unfolding handle_failure
  handle_failure-Keeps config step text deps =
      search (silent_rules, decide_on-Keeps, clock-Keeps, carry_out-Keeps) depth 20

  finish_step-Keeps :
      (config : EngineConfig) (req : StepRequest) (a : StepAttempt)
      → Keeps (Silent d) (finish_step parts config req a)
  unfolding finish_step
  finish_step-Keeps config req (step_succeeded arguments value deps) = search silent_rules depth 20
  finish_step-Keeps config req (step_error text deps) =
      handle_failure-Keeps config req.step_id text deps

  execute_locked-Keeps :
      (tools : List Text) (config : EngineConfig) (req : StepRequest)
      → Keeps (Silent d) (execute_locked parts tools config req)
  unfolding execute_locked
  execute_locked-Keeps tools config req =
      search (silent_rules, run_step-Keeps, finish_step-Keeps) depth 20

  resume-Keeps : (r : Result CompensationReport) → Keeps (Silent d) (resume parts r)
  unfolding resume
  resume-Keeps (ok _) = search silent_rules
  resume-Keeps (err _) = fail_hard-Keeps parts d

  rewind_after_error-Keeps : (step : ℕ) → Keeps (Silent d) (rewind_after_error parts step)
  unfolding rewind_after_error
  rewind_after_error-Keeps step = search (silent_rules, rewind_locked-Keeps, resume-Keeps) depth 14

  recover_from-Keeps :
      (status : TxStatus) (step : ℕ) → Keeps (Silent d) (recover_from parts status step)
  unfolding recover_from
  recover_from-Keeps status step =
      search (silent_rules, rewind_after_error-Keeps, fail_hard-Keeps) depth 14

  after_attempt-Keeps :
      (step : ℕ) (r : Result StepOutcome) → Keeps (Silent d) (after_attempt parts step r)
  unfolding after_attempt recover_step
  after_attempt-Keeps step (ok outcome) = Keeps-pure outcome
  after_attempt-Keeps step (err e) = search (silent_rules, recover_from-Keeps) depth 14

  execute_active-Keeps :
      (tools : List Text) (config : EngineConfig) (req : StepRequest)
      → Keeps (Silent d) (execute_active parts tools config req)
  unfolding execute_active
  execute_active-Keeps tools config req =
      search (silent_rules, clock-Keeps, execute_locked-Keeps, after_attempt-Keeps) depth 20

  ensure-Keeps : Keeps (Silent d) ensure
  ensure-Keeps = record { at = λ s log h. h }

  expect_step-Keeps : (step : ℕ) → Keeps (Silent d) (expect_step parts step)
  unfolding expect_step
  expect_step-Keeps step = record { at = λ s log h. h }

  expect_before-Keeps : (step : ℕ) → Keeps (Silent d) (expect_before parts step)
  unfolding expect_before
  expect_before-Keeps step = record { at = λ s log h. h }

  execute_under_lock-Keeps :
      (tools : List Text) (config : EngineConfig) (req : StepRequest)
      → Keeps (Silent d) (execute_under_lock parts tools config req)
  unfolding execute_under_lock
  execute_under_lock-Keeps tools config req =
      search (silent_rules, ensure-Keeps, expect_step-Keeps, execute_active-Keeps) depth 14

  after_rewind-Keeps : (r : Result CompensationReport) → Keeps (Silent d) (after_rewind parts r)
  unfolding after_rewind
  after_rewind-Keeps (ok r) = Keeps-pure r
  after_rewind-Keeps (err e) = search (silent_rules, fail_hard-Keeps) depth 14

  rollback_to-Keeps : (step : ℕ) → Keeps (Silent d) (rollback_to parts step)
  unfolding rollback_to
  rollback_to-Keeps step =
      search (silent_rules, expect_before-Keeps, rewind_locked-Keeps, after_rewind-Keeps) depth 20

  rollback_all-Keeps : Keeps (Silent d) (rollback_all parts)
  unfolding rollback_all
  rollback_all-Keeps = search (silent_rules, abort_locked-Keeps) depth 14

  rollback_locked-Keeps : (to : Option ℕ) → Keeps (Silent d) (rollback_locked parts to)
  unfolding rollback_locked
  rollback_locked-Keeps none = search (silent_rules, ensure-Keeps, rollback_all-Keeps) depth 14
  rollback_locked-Keeps (some zero) =
      search (silent_rules, ensure-Keeps, rollback_all-Keeps) depth 14
  rollback_locked-Keeps (some (suc n)) =
      search (silent_rules, ensure-Keeps, rollback_to-Keeps) depth 14

with_handle-dispatches :
    {A : Type 0} (id : Text) (m : Act A) (engine : Engine) (log : Log)
    → ((own : Text) → Keeps (Silent (dispatches log, own)) m)
    → dispatches (with_handle id m engine log).2 ≡ dispatches log
unfolding with_handle
with_handle-dispatches id m engine log k = elim (Option-cases (get engine.transactions id)) [
  | inl missing ↦ rw (missing, with_handle) refl
  | inr (tx, found) ↦
      rw (found, with_handle) ((k tx.id).at (record { tx = tx; live = true }) log (refl, refl)).0
]

-- A step dispatches no effect, whatever it returns, and neither does a rollback.
pub steps_and_rollbacks_are_silent :
    (parts : Parts) (req : StepRequest) (id : Text) (to : Option ℕ) (engine : Engine) (log : Log)
    → (dispatches (execute_step parts req engine log).2 ≡ dispatches log)
      × (dispatches (rollback parts id to engine log).2 ≡ dispatches log)
unfolding execute_step rollback
steps_and_rollbacks_are_silent parts req id to engine log = (
  with_handle-dispatches req.tx_id _ engine log
      (λ own. execute_under_lock-Keeps parts (dispatches log, own) engine.tools engine.config req),
  with_handle-dispatches id _ engine log
      (λ own. rollback_locked-Keeps parts (dispatches log, own) to),
)

-- What a commit of `tx` dispatches when the store answers as given.
abbrev pub dispatched_by : Transaction → Result ℕ → List StagedEffect
dispatched_by tx (ok keys) = reverse tx.staging
dispatched_by tx (err e) = []

module _ (parts : Parts) where
  not_committed-Keeps : (d : Memo) (e : AgentTxError) → Keeps (Silent d) (not_committed parts e)
  unfolding not_committed
  not_committed-Keeps d (write_conflict key) = search (silent_rules, abort_locked-Keeps) depth 14
  not_committed-Keeps d (join text) = Keeps-raise (join text)
  not_committed-Keeps d e = search silent_rules depth 14

  conclude-Keeps :
      (d : Memo) (keys steps : ℕ) (flushed : FlushReport)
      → Keeps (Silent d) (conclude parts keys steps flushed)
  unfolding conclude
  conclude-Keeps d keys steps flushed = search silent_rules depth 14

  publish-dispatches :
      (keys : ℕ) (s : Locked) (log : Log)
      → dispatches (publish parts keys s log).2 ≡ reverse s.tx.staging ++ dispatches log
  unfolding publish ◌>>=◌ modify reads flush_staged
  publish-dispatches keys s log =
      let r = flush parts.env s.tx.id s.tx.staging log in
      let tx = record s.tx { saga = forget_all s.tx.saga; staging = r.0.1 } in
      ((conclude-Keeps (dispatches r.1, s.tx.id) keys (length s.tx.steps % u32_mod) r.0.0).at
        (record s { tx = tx }) r.1 (refl, refl)).0
      ∙ (flush_lem parts.env s.tx.id s.tx.staging log).0

  after_commit-dispatches :
      (answer : Result ℕ) (s : Locked) (log : Log)
      → dispatches (after_commit parts answer s log).2 ≡ dispatched_by s.tx answer ++ dispatches log
  unfolding after_commit
  after_commit-dispatches (ok keys) s log = publish-dispatches keys s log
  after_commit-dispatches (err e) s log =
      ((not_committed-Keeps (dispatches log, s.tx.id) e).at s log (refl, refl)).0

  commit_locked-dispatches :
      (s : Locked) (log : Log)
      → s.tx.status ≡ active
      → dispatches (commit_locked parts s log).2
        ≡ dispatched_by s.tx (parts.env.store log (World.commit s.tx.id)) ++ dispatches log
  unfolding commit_locked ensure_active ◌>>=◌ transition_to move_to transition reads attempt store
  commit_locked-dispatches s log h = rw h (
      after_commit-dispatches (parts.env.store log (World.commit s.tx.id))
        (record s { tx = record s.tx { status = committing } })
        (World.stored (World.commit s.tx.id) ∷ log))

module _ (parts : Parts) where
  publish-id : (keys : ℕ) (s : Locked) (log : Log) → (publish parts keys s log).1.tx.id ≡ s.tx.id
  unfolding publish ◌>>=◌ modify reads flush_staged
  publish-id keys s log =
      let r = flush parts.env s.tx.id s.tx.staging log in
      let tx = record s.tx { saga = forget_all s.tx.saga; staging = r.0.1 } in
      ((conclude-Keeps parts (dispatches r.1, s.tx.id) keys (length s.tx.steps % u32_mod) r.0.0).at
        (record s { tx = tx }) r.1 (refl, refl)).1

  pub after_commit-id :
      (answer : Result ℕ) (s : Locked) (log : Log)
      → (after_commit parts answer s log).1.tx.id ≡ s.tx.id
  unfolding after_commit
  after_commit-id (ok keys) s log = publish-id keys s log
  after_commit-id (err e) s log =
      ((not_committed-Keeps parts (dispatches log, s.tx.id) e).at s log (refl, refl)).1

  pub commit_locked-id : (s : Locked) (log : Log) → (commit_locked parts s log).1.tx.id ≡ s.tx.id
  unfolding commit_locked ensure_active ◌>>=◌ transition_to move_to transition reads attempt store
  commit_locked-id s log = elim (Bool-cases (is_active s.tx.status)) [
    | inl open_tx ↦ rw (active_status s.tx.status open_tx) (
        after_commit-id (parts.env.store log (World.commit s.tx.id))
          (record s { tx = record s.tx { status = committing } })
          (World.stored (World.commit s.tx.id) ∷ log))
    | inr ended ↦ rw ended refl
  ]

  pub execute_under_lock-id :
      (tools : List Text) (config : EngineConfig) (req : StepRequest) (s : Locked) (log : Log)
      → (execute_under_lock parts tools config req s log).1.tx.id ≡ s.tx.id
  execute_under_lock-id tools config req s log =
      ((execute_under_lock-Keeps parts (dispatches log, s.tx.id) tools config req).at s log
        (refl, refl)).1

  pub rollback_locked-id :
      (to : Option ℕ) (s : Locked) (log : Log) → (rollback_locked parts to s log).1.tx.id ≡ s.tx.id
  rollback_locked-id to s log =
      ((rollback_locked-Keeps parts (dispatches log, s.tx.id) to).at s log (refl, refl)).1

-- A commit of an active transaction dispatches all of its staged effects, once each and in the
-- order of staging, if the store made the commit, and dispatches nothing if the store refused it.
pub commit-dispatches :
    (parts : Parts) (id : Text) (tx : Transaction) (engine : Engine) (log : Log)
    → get engine.transactions id ≡ some tx
    → tx.status ≡ active
    → dispatches (commit parts id engine log).2
      ≡ dispatched_by tx (parts.env.store log (World.commit tx.id)) ++ dispatches log
unfolding commit with_handle
commit-dispatches parts id tx engine log found h =
    rw (found, with_handle) (commit_locked-dispatches parts (record { tx = tx; live = true }) log h)
