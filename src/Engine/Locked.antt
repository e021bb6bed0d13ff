-- ===== src/Engine/Locked.antt =====
-- The functions of engine/mod.rs that run under the transaction's lock.
use agent_tx_protocol.Prelude.{
  ℕ, Bool, true, false, ◌&&◌, ◌||◌, List, [], ◌∷◌, ◌++◌, Text, bytes, if◌then◌else◌, leb, contains,
  nat_eq, list_eq, ◌==◌, all,
}
use agent_tx_protocol.Json.{Value, null, object, end}
use agent_tx_protocol.Errors.{Result, ok, err}
use agent_tx_protocol.Graph.{Dependency}
use agent_tx_protocol.Graph
use agent_tx_protocol.StateMachine.Status.{TxStatus, executing, rolling_back, failed}
use agent_tx_protocol.World.{
  UndoAction, StoreCall, create_snapshot, restore_snapshot, put_output, discard, discard_state,
  StageRequest, stage_effect, ToolRun, ToolResult, output, error, ToolError, internal, ToolCall,
  Env, Io, call_tool,
}
use agent_tx_protocol.World
use agent_tx_protocol.Saga.Ledger.{CompensationReport, is_clean, record_action, compensate_from}
use agent_tx_protocol.Saga.Staging.{stage, discard_from, discard_all}
use agent_tx_protocol.Transaction.{Transaction, truncate_from}
use agent_tx_protocol.Engine.Act.{
  Act, pure, raise, reads, attempt, ◌>>=◌, ◌>>◌, modify, leave_table, transition_to, store, world,
}
use agent_tx_protocol.Engine.Types.{
  StepRequest, StepAttempt, step_succeeded, step_error, Resolution, resolved, unresolved, Parsed,
  parsed, malformed, Parts,
}

-- Whether a text is empty after `trim`: only white space of ASCII is modelled.
abbrev pub is_space : ℕ → Bool
is_space c = c == 32 || (leb 9 c && leb c 13)

unfoldable pub is_blank : Text → Bool
is_blank s = all is_space s

-- `names().join(", ")`
unfoldable pub join_names : List Text → Text
join_names [] = []
join_names (n ∷ []) = n
join_names (n ∷ m ∷ ns) = n ++ (bytes ", " ++ join_names (m ∷ ns))

abbrev pub is_rolling_back : TxStatus → Bool
is_rolling_back rolling_back = true
is_rolling_back _ = false

abbrev pub is_executing : TxStatus → Bool
is_executing executing = true
is_executing _ = false

-- `tx.graph.add_step(..)`, with the dependencies that it returns
unfoldable pub add_step : ℕ → Text → Value → List Dependency → Act (List Dependency)
add_step step tool args deps s log =
    let r = Graph.add_step s.tx.graph step tool args deps in
    (ok r.1, record s { tx = record s.tx { graph = r.0 } }, log)

module _ (parts : Parts) where
  -- `tx.saga.record(step, action).await?`
  unfoldable pub record_undo : ℕ → UndoAction → Act (Unit {0})
  record_undo step action s log =
      let r = record_action parts.env s.tx.saga step (parts.now log) action log in
      (r.0.0, record s { tx = record s.tx { saga = r.0.1 } }, r.1)

  unfoldable pub record_all : ℕ → List UndoAction → Act (Unit {0})
  record_all step [] = pure tt
  record_all step (a ∷ actions) = record_undo step a >>= λ _. record_all step actions

  unfoldable pub stage_all : ℕ → List StageRequest → Transaction → Transaction
  stage_all step [] tx = tx
  stage_all step (r ∷ requests) tx =
      stage_all step requests (record tx { staging = stage tx.staging (stage_effect step r) })

  -- `tx.saga.compensate_from(step).await`
  unfoldable pub compensate : ℕ → Act CompensationReport
  compensate step s log =
      let r = compensate_from parts.env s.tx.saga step log in
      (ok r.0.0, record s { tx = record s.tx { saga = r.0.1 } }, r.1)

  -- rewind_locked
  unfoldable pub rewind_locked : ℕ → Act CompensationReport
  rewind_locked target = do
    report ← compensate target
    modify (λ tx. record tx { staging = (discard_from tx.staging target).1 })
    id ← reads (λ tx. tx.id)
    store parts.env (restore_snapshot id target)
    modify (λ tx. truncate_from tx target)
    pure report

  unfoldable pub enter_rollback : Act (Unit {0})
  enter_rollback = do
    status ← reads (λ tx. tx.status)
    if is_rolling_back status then pure tt else transition_to rolling_back

  -- abort_locked
  unfoldable pub abort_locked : TxStatus → Act CompensationReport
  unfolding enter_rollback
  abort_locked final = do
    enter_rollback
    report ← compensate 0
    modify (λ tx. record tx { staging = (discard_all tx.staging).1 })
    id ← reads (λ tx. tx.id)
    store parts.env (if is_clean report then discard id else discard_state id)
    modify (λ tx. record (truncate_from tx 0) { next_step = 0 })
    transition_to final
    leave_table
    pure report

  -- The handling of an abort that may have failed, in `fail_hard`.
  unfoldable pub give_up : Result CompensationReport → Act (Unit {0})
  give_up (ok _) = pure tt
  give_up (err _) = do modify (λ tx. record tx { status = failed }); leave_table

  -- fail_hard
  unfoldable pub fail_hard : Act (Unit {0})
  unfolding give_up
  fail_hard = do
    modify (λ tx. record tx { status = rolling_back })
    aborted ← attempt (abort_locked failed)
    give_up aborted

  -- The last `match` of `run_step`, on the tool's result.
  unfoldable pub attempt_of : Value → List Dependency → ToolResult → Act StepAttempt
  attempt_of args deps (output value) = pure (step_succeeded args value deps)
  attempt_of args deps (error (World.failed text)) = pure (step_error text deps)
  attempt_of args deps (error (internal e)) = raise e

  -- The part of `run_step` once the arguments are resolved: run the tool, keep its declarations.
  unfoldable pub run_tool : ℕ → Text → Value → List Dependency → Act StepAttempt
  unfolding record_all stage_all attempt_of
  run_tool step tool args deps = do
    id ← reads (λ tx. tx.id)
    run ← world (call_tool parts.env (record { tx = id; step = step; tool = tool; args = args }))
    record_all step run.undo
    modify (stage_all step run.staged)
    attempt_of args deps run.result

  abbrev pub unknown_tool : List Text → Text → Text
  unknown_tool tools tool =
      bytes "unknown tool '" ++ (tool ++ (bytes "'; registered tools: " ++ join_names tools))

  unfoldable pub resolve_and_run : ℕ → Text → Value → Resolution → Act StepAttempt
  unfolding run_tool
  resolve_and_run step tool args (resolved value deps) = do
    dependencies ← add_step step tool value deps
    run_tool step tool value dependencies
  resolve_and_run step tool args (unresolved message deps) = do
    dependencies ← add_step step tool args deps
    pure (step_error message dependencies)

  -- a registered tool
  unfoldable pub run_known : ℕ → Text → Value → Act StepAttempt
  unfolding resolve_and_run
  run_known step tool args = do
    steps ← reads (λ tx. tx.steps)
    resolve_and_run step tool args (parts.resolve_references args step steps)

  unfoldable pub run_unknown : List Text → ℕ → Text → Value → Act StepAttempt
  unfolding join_names
  run_unknown tools step tool args = do
    add_step step tool args []
    pure (step_error (unknown_tool tools tool) [])

  unfoldable pub run_parsed : List Text → ℕ → Text → Parsed → Act StepAttempt
  unfolding run_known run_unknown
  run_parsed tools step tool (malformed text) = do
    add_step step tool null []
    pure (step_error (bytes "invalid arguments JSON: " ++ text) [])
  run_parsed tools step tool (parsed args) =
      if contains tools tool then run_known step tool args else run_unknown tools step tool args

  -- run_step
  unfoldable pub run_step : List Text → StepRequest → Act StepAttempt
  unfolding run_parsed is_blank
  run_step tools req = run_parsed tools req.step_id req.tool_name (
      if is_blank req.arguments_json
      then parsed (object end)
      else parts.parse_json req.arguments_json)
