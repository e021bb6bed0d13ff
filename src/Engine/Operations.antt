-- ===== src/Engine/Operations.antt =====
-- The operations of `Engine` (engine/mod.rs): each finds its transaction in the table, takes its
-- lock, and leaves the changed transaction in the table unless it removed it.
use agent_tx_protocol.Prelude.{
  ℕ, zero, suc, ◌%◌, true, false, Option, none, some, List, ◌++◌, Text, bytes, decimal, length, ltb,
  if◌then◌else◌, nat_eq, list_eq, ◌==◌, Map, get, insert, remove, unwrap_or, u32_mod,
}
use agent_tx_protocol.Errors.{
  AgentTxError, Result, ok, err, transaction_not_found, step_out_of_order, write_conflict, join,
  invalid_argument,
}
use agent_tx_protocol.StateMachine.Status.{
  active, committing, rolling_back, committed, rolled_back, failed,
}
use agent_tx_protocol.StateMachine.Policy.{RollbackPolicy, validate}
use agent_tx_protocol.World.{register_transaction, create_snapshot, Log, call_store}
use agent_tx_protocol.World
use agent_tx_protocol.Saga.Ledger.{new_ledger, forget_all, CompensationReport}
use agent_tx_protocol.Saga.Staging.{FlushReport, flush}
use agent_tx_protocol.Transaction.{Transaction, ensure_active, is_active}
use agent_tx_protocol.Transaction
use agent_tx_protocol.Engine.Act.{
  Locked, Act, pure, raise, reads, attempt, ◌>>=◌, ◌>>◌, modify, leave_table, transition_to, store,
}
use agent_tx_protocol.Engine.Types.{
  StepRequest, StepOutcome, BeginOutcome, CommitOutcome, RollbackOutcome, TransactionView,
  EngineConfig, Parts, Engine,
}
use agent_tx_protocol.Engine.Locked.{rewind_locked, abort_locked, fail_hard}
use agent_tx_protocol.Engine.Steps.{execute_active}

-- The table after an operation on the transaction looked up as `id`: the entry is the transaction that
-- the operation worked on, and `self.transactions.remove(&tx.id)` removes what is held under the id
-- that the transaction itself has.
unfoldable pub settle : Engine → Text → Locked → Engine
settle engine id s =
    let held = insert engine.transactions id s.tx in
    record engine { transactions = if s.live then held else remove held s.tx.id }

-- `self.handle(tx_id)?`, then the operation under the lock
unfoldable pub with_handle : {A : Type 0} → Text → Act A → Engine → Log → Result A × Engine × Log
unfolding settle
with_handle id m engine log = elim (get engine.transactions id) [
  | none ↦ (err (transaction_not_found id), engine, log)
  | some tx ↦ let r = m (record { tx = tx; live = true }) log in (r.0, settle engine id r.1, r.2)
]

abbrev pub ensure : Act (Unit {0})
ensure s log = (ensure_active s.tx, s, log)

abbrev pub max_agent_id_len : ℕ
max_agent_id_len = 256

module _ (parts : Parts) where
  -- The order of the steps: `req.step_id != tx.next_step`.
  unfoldable pub expect_step : ℕ → Act (Unit {0})
  expect_step step s log = (
    if step == s.tx.next_step then ok tt else err (step_out_of_order s.tx.next_step step),
    s,
    log,
  )

  unfoldable pub execute_under_lock : List Text → EngineConfig → StepRequest → Act StepOutcome
  unfolding expect_step
  execute_under_lock tools config req = do
    ensure
    expect_step req.step_id
    execute_active parts tools config req

  -- Engine::execute_step
  unfoldable pub execute_step : StepRequest → Engine → Log → Result StepOutcome × Engine × Log
  unfolding with_handle execute_under_lock
  execute_step req engine =
      with_handle req.tx_id (execute_under_lock engine.tools engine.config req) engine

  -- `tx.staging.flush(..)`
  unfoldable pub flush_staged : Act FlushReport
  flush_staged s log =
      let r = flush parts.env s.tx.id s.tx.staging log in
      (ok r.0.0, record s { tx = record s.tx { staging = r.0.1 } }, r.1)

  -- The end of a commit, once the effects are flushed.
  unfoldable pub conclude : ℕ → ℕ → FlushReport → Act CommitOutcome
  conclude keys steps flushed = do
    transition_to committed
    leave_table
    pure (record {
      steps_committed = steps;
      keys_published = keys;
      effects_dispatched = flushed.sent;
      dispatch_errors = flushed.errors;
    })

  -- A commit that the store has made.
  unfoldable pub publish : ℕ → Act CommitOutcome
  unfolding flush_staged conclude
  publish keys = do
    modify (λ tx. record tx { saga = forget_all tx.saga })
    steps ← reads (λ tx. length tx.steps % u32_mod)
    flushed ← flush_staged
    conclude keys steps flushed

  -- A commit that the store refused. A `join` error is the `?` on `spawn_blocking`.
  unfoldable pub not_committed : AgentTxError → Act CommitOutcome
  not_committed (write_conflict key) = do
    transition_to rolling_back
    abort_locked parts failed
    raise (write_conflict key)
  not_committed (join text) = raise (join text)
  not_committed e = do transition_to active; raise e

  -- The `match` on the store's answer.
  unfoldable pub after_commit : Result ℕ → Act CommitOutcome
  unfolding publish not_committed
  after_commit (ok keys) = publish keys
  after_commit (err e) = not_committed e

  unfoldable pub commit_locked : Act CommitOutcome
  unfolding after_commit
  commit_locked = do
    ensure
    transition_to committing
    id ← reads (λ tx. tx.id)
    answer ← attempt (store parts.env (World.commit id))
    after_commit answer

  -- Engine::commit
  unfoldable pub commit : Text → Engine → Log → Result CommitOutcome × Engine × Log
  unfolding with_handle commit_locked
  commit id = with_handle id commit_locked

  abbrev pub not_before : ℕ → ℕ → AgentTxError
  not_before step next = invalid_argument (
      bytes "to_step "
      ++ (decimal step ++ (bytes " must be lower than the next step " ++ decimal next)))

  unfoldable pub expect_before : ℕ → Act (Unit {0})
  expect_before step s log =
      (if ltb step s.tx.next_step then ok tt else err (not_before step s.tx.next_step), s, log)

  unfoldable pub after_rewind : Result CompensationReport → Act CompensationReport
  after_rewind (ok report) = pure report
  after_rewind (err e) = do fail_hard parts; raise e

  unfoldable pub rollback_to : ℕ → Act RollbackOutcome
  unfolding expect_before after_rewind
  rollback_to step = do
    expect_before step
    transition_to rolling_back
    rewound ← attempt (rewind_locked parts step)
    report ← after_rewind rewound
    transition_to active
    next ← reads (λ tx. tx.next_step)
    pure (record {
      aborted = false;
      next_step = next;
      compensations_run = report.succeeded;
      compensation_failures = report.failures;
    })

  unfoldable pub rollback_all : Act RollbackOutcome
  rollback_all = do
    report ← abort_locked parts rolled_back
    pure (record {
      aborted = true;
      next_step = 0;
      compensations_run = report.succeeded;
      compensation_failures = report.failures;
    })

  -- The `match` on the step asked for: none and 0 abort the transaction.
  unfoldable pub rollback_locked : Option ℕ → Act RollbackOutcome
  unfolding rollback_to rollback_all
  rollback_locked none = ensure >>= λ _. rollback_all
  rollback_locked (some zero) = ensure >>= λ _. rollback_all
  rollback_locked (some (suc n)) = ensure >>= λ _. rollback_to (suc n)

  -- Engine::rollback; the reason is only logged.
  unfoldable pub rollback : Text → Option ℕ → Engine → Log → Result RollbackOutcome × Engine × Log
  unfolding with_handle rollback_locked
  rollback id to_step = with_handle id (rollback_locked to_step)

  -- Engine::begin, once the policy is valid
  unfoldable pub open_transaction :
      Text → Map Text Text → RollbackPolicy → Engine → Log → Result BeginOutcome × Engine × Log
  open_transaction agent metadata policy engine log =
      let id = parts.new_id log in
      let registered = call_store parts.env (register_transaction id) log in
      elim (registered.0) [
        | err e ↦ (err e, engine, registered.1)
        | ok _ ↦
            let captured = call_store parts.env (create_snapshot id 0) registered.1 in
            elim (captured.0) [
              | err e ↦ (err e, engine, captured.1)
              | ok _ ↦
                  let tx =
                    Transaction.new id agent metadata policy
                      (new_ledger id engine.config.compensation_retries) (parts.now captured.1) in
                  (
                    ok (record { tx_id = id; next_step = 1 }),
                    record engine { transactions = insert engine.transactions id tx },
                    captured.1,
                  )
            ]
      ]

  unfoldable pub begin_with :
      Text → Map Text Text → RollbackPolicy → Engine → Log → Result BeginOutcome × Engine × Log
  unfolding open_transaction
  begin_with agent metadata policy engine log = elim (validate parts.floats policy) [
    | err e ↦ (err e, engine, log)
    | ok _ ↦ open_transaction agent metadata policy engine log
  ]

  -- Engine::begin
  unfoldable pub begin :
      Text
      → Map Text Text
      → Option RollbackPolicy
      → Engine
      → Log
      → Result BeginOutcome × Engine × Log
  unfolding begin_with
  begin agent metadata policy engine log =
      if ltb max_agent_id_len (length agent)
      then (
        err (
            invalid_argument
              (bytes "agent_id exceeds " ++ (decimal max_agent_id_len ++ bytes " bytes"))),
        engine,
        log,
      )
      else begin_with agent metadata (unwrap_or policy engine.config.default_policy) engine log

-- Engine::get
unfoldable pub view : Transaction → TransactionView
view tx = record {
  tx_id = tx.id;
  agent_id = tx.agent_id;
  status = tx.status;
  next_step = tx.next_step;
  steps_completed = length tx.steps;
  constraints = tx.constraints;
  global_resets = tx.controller.global_resets;
  context = tx.context;
  pending_effects = length tx.staging;
  created_at_ms = tx.created_at_ms;
}

unfoldable pub get_view : Text → Engine → Log → Result TransactionView × Engine × Log
unfolding with_handle view
get_view id = with_handle id (reads view)
