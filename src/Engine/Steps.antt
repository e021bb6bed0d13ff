-- ===== src/Engine/Steps.antt =====
-- The execution of one step under the lock (engine/mod.rs): success, failure, infrastructure error.
use agent_tx_protocol.Prelude.{
  ℕ, ◌+◌, ◌-◌, ◌%◌, Bool, true, false, Option, none, some, List, [], ◌∷◌, ◌++◌, Text, if◌then◌else◌,
  nat_eq, list_eq, insert, u32_mod,
}
use agent_tx_protocol.Json.{Value}
use agent_tx_protocol.Errors.{Result, ok, err}
use agent_tx_protocol.Graph.{Dependency}
use agent_tx_protocol.Graph
use agent_tx_protocol.Hints.{CleanHint}
use agent_tx_protocol.StateMachine.Status.{TxStatus, active, executing, rolling_back, failed}
use agent_tx_protocol.StateMachine.Controller.{
  RollbackDecision, jump_to, backtrack_to, reset_all, abort_with, RollbackStrategy, no_rollback,
  strategy_of, observe_step, decide,
}
use agent_tx_protocol.World.{create_snapshot, put_output}
use agent_tx_protocol.Saga.Ledger.{CompensationReport}
use agent_tx_protocol.Transaction.{Transaction, StepRecord, ContextEntry, add_constraint, touch}
use agent_tx_protocol.Engine.Act.{
  Act, pure, raise, reads, attempt, ◌>>=◌, ◌>>◌, modify, transition_to, store,
}
use agent_tx_protocol.Engine.Types.{
  StepStatus, success, rollback_triggered, step_failed, StepRequest, StepOutcome, StepAttempt,
  step_succeeded, step_error, EngineConfig, Parts,
}
use agent_tx_protocol.Engine.Locked.{
  run_step, rewind_locked, abort_locked, fail_hard, is_executing, is_rolling_back,
}

-- The records of a successful step.
unfoldable pub keep_step : StepRequest → Value → Value → Transaction → Transaction
keep_step req arguments value tx = record tx {
  graph = Graph.record_output tx.graph req.step_id value;
  steps = insert tx.steps req.step_id step;
  context = tx.context ++ entry ∷ [];
  next_step = (req.step_id + 1) % u32_mod;
}
  where
    step : StepRecord
    step = record {
      step_id = req.step_id;
      tool_name = req.tool_name;
      arguments = arguments;
      output = value;
    }

    entry : ContextEntry
    entry = record {
      step_id = req.step_id;
      tool_name = req.tool_name;
      raw_context = req.raw_context;
    }

unfoldable pub success_outcome : Value → List Dependency → Transaction → StepOutcome
success_outcome value deps tx = record {
  status = success;
  output = some value;
  hint = none;
  strategy = no_rollback;
  rollback_to_step = 0;
  next_step = tx.next_step;
  constraints = tx.constraints;
  context_reset = false;
  rollback_latency = 0;
  abort_reason = none;
  compensation_failures = [];
  dependencies = deps;
}

-- The tuple that the three branches of `handle_failure` give.
pub record Handled : Type 0 where
  pub status : StepStatus
  pub report : CompensationReport
  pub rollback_to_step : ℕ
  pub next_step : ℕ
  pub context_reset : Bool
  pub abort_reason : Option Text

unfoldable pub failure_outcome :
    CleanHint → RollbackStrategy → List Dependency → Handled → ℕ → Transaction → StepOutcome
failure_outcome hint strategy deps h elapsed tx = record {
  status = h.status;
  output = none;
  hint = some hint;
  strategy = strategy;
  rollback_to_step = h.rollback_to_step;
  next_step = h.next_step;
  constraints = tx.constraints;
  context_reset = h.context_reset;
  rollback_latency = elapsed;
  abort_reason = h.abort_reason;
  compensation_failures = h.report.failures;
  dependencies = deps;
}

-- Notes the hint, and asks the controller.
unfoldable pub decide_on : Parts → EngineConfig → ℕ → CleanHint → Act RollbackDecision
decide_on parts config step hint s log =
    let tx = (add_constraint s.tx hint.text config.max_constraints).1 in
    let r = decide parts.floats tx.controller step hint.key tx.graph in
    (ok r.0, record s { tx = record tx { controller = r.1 } }, log)

module _ (parts : Parts) where
  -- `tx.context.now`: the time on the world's clock
  unfoldable pub clock : Act ℕ
  clock s log = (ok (parts.now log), s, log)

  unfoldable pub rewind_to : ℕ → Bool → Act Handled
  rewind_to target reset = do
    report ← rewind_locked parts target
    transition_to active
    pure (record {
      status = rollback_triggered;
      report = report;
      rollback_to_step = target;
      next_step = if reset then 1 else target;
      context_reset = reset;
      abort_reason = none;
    })

  -- The `match decision` of `handle_failure`.
  unfoldable pub carry_out : RollbackDecision → Act Handled
  unfolding rewind_to
  carry_out (abort_with reason) = do
    report ← abort_locked parts failed
    pure (record {
      status = step_failed;
      report = report;
      rollback_to_step = 0;
      next_step = 0;
      context_reset = true;
      abort_reason = some reason;
    })
  carry_out (reset_all _) = rewind_to 0 true
  carry_out (jump_to target _) = rewind_to target false
  carry_out (backtrack_to target _) = rewind_to target false

  -- handle_failure
  unfoldable pub handle_failure : EngineConfig → ℕ → Text → List Dependency → Act StepOutcome
  unfolding decide_on clock carry_out failure_outcome
  handle_failure config step raw_error deps = do
    let hint = parts.clean raw_error
    decision ← decide_on parts config step hint
    transition_to rolling_back
    started ← clock
    handled ← carry_out decision
    ended ← clock
    reads (failure_outcome hint (strategy_of decision) deps handled (ended - started))

  unfoldable pub finish_step : EngineConfig → StepRequest → StepAttempt → Act StepOutcome
  unfolding keep_step success_outcome handle_failure
  finish_step config req (step_succeeded arguments value deps) = do
    id ← reads (λ tx. tx.id)
    store parts.env (put_output id req.step_id value)
    modify (keep_step req arguments value)
    transition_to active
    reads (success_outcome value deps)
  finish_step config req (step_error error deps) = handle_failure config req.step_id error deps

  -- execute_locked
  unfoldable pub execute_locked : List Text → EngineConfig → StepRequest → Act StepOutcome
  unfolding finish_step
  execute_locked tools config req = do
    id ← reads (λ tx. tx.id)
    store parts.env (create_snapshot id req.step_id)
    modify (λ tx. record tx { controller = observe_step tx.controller req.step_id })
    attempted ← run_step parts tools req
    finish_step config req attempted

  -- The handling of an infrastructure error in `execute_step`: rewind the step, or give up.
  unfoldable pub resume : Result CompensationReport → Act (Unit {0})
  resume (ok _) = modify (λ tx. record tx { status = active })
  resume (err _) = fail_hard parts

  unfoldable pub rewind_after_error : ℕ → Act (Unit {0})
  unfolding resume
  rewind_after_error step = do
    modify (λ tx. record tx { status = rolling_back })
    rewound ← attempt (rewind_locked parts step)
    resume rewound

  -- The two tests on the status.
  unfoldable pub recover_from : TxStatus → ℕ → Act (Unit {0})
  unfolding rewind_after_error
  recover_from status step =
      if is_executing status
      then rewind_after_error step
      else if is_rolling_back status
      then fail_hard parts
      else pure tt

  unfoldable pub recover_step : ℕ → Act (Unit {0})
  unfolding recover_from
  recover_step step = do status ← reads (λ tx. tx.status); recover_from status step

  unfoldable pub after_attempt : ℕ → Result StepOutcome → Act StepOutcome
  unfolding recover_step
  after_attempt step (ok outcome) = pure outcome
  after_attempt step (err e) = do recover_step step; raise e

  -- execute_step, from the lock on
  unfoldable pub execute_active : List Text → EngineConfig → StepRequest → Act StepOutcome
  unfolding execute_locked after_attempt clock
  execute_active tools config req = do
    now ← clock
    modify (λ tx. touch tx now)
    transition_to executing
    outcome ← attempt (execute_locked tools config req)
    after_attempt req.step_id outcome
