-- ===== src/Engine/Types.antt =====
-- The requests, outcomes and parts of the engine (engine/mod.rs, engine/executor.rs, config.rs).
use agent_tx_protocol.Prelude.{ℕ, Bool, Option, List, Map, Text}
use agent_tx_protocol.Json.{Value}
use agent_tx_protocol.Graph.{Dependency}
use agent_tx_protocol.Hints.{CleanHint}
use agent_tx_protocol.StateMachine.Status.{TxStatus}
use agent_tx_protocol.StateMachine.Policy.{Floats, RollbackPolicy}
use agent_tx_protocol.StateMachine.Controller.{RollbackStrategy}
use agent_tx_protocol.World.{Env, Log}
use agent_tx_protocol.Transaction.{Transaction, StepRecord, ContextEntry}

pub data StepStatus : Type 0 where
  success rollback_triggered step_failed : StepStatus

pub record StepRequest : Type 0 where
  pub tx_id : Text
  pub step_id : ℕ
  pub tool_name : Text
  pub arguments_json : Text
  pub raw_context : Text

pub record StepOutcome : Type 0 where
  pub status : StepStatus
  pub output : Option Value
  pub hint : Option CleanHint
  pub strategy : RollbackStrategy
  pub rollback_to_step : ℕ
  pub next_step : ℕ
  pub constraints : List Text
  pub context_reset : Bool
  pub rollback_latency : ℕ
  pub abort_reason : Option Text
  pub compensation_failures : List Text
  pub dependencies : List Dependency

pub record BeginOutcome : Type 0 where
  pub tx_id : Text
  pub next_step : ℕ

pub record CommitOutcome : Type 0 where
  pub steps_committed : ℕ
  pub keys_published : ℕ
  pub effects_dispatched : ℕ
  pub dispatch_errors : List Text

pub record RollbackOutcome : Type 0 where
  pub aborted : Bool
  pub next_step : ℕ
  pub compensations_run : ℕ
  pub compensation_failures : List Text

pub record TransactionView : Type 0 where
  pub tx_id : Text
  pub agent_id : Text
  pub status : TxStatus
  pub next_step : ℕ
  pub steps_completed : ℕ
  pub constraints : List Text
  pub global_resets : ℕ
  pub context : List ContextEntry
  pub pending_effects : ℕ
  pub created_at_ms : ℕ

pub data StepAttempt : Type 0 where
  step_succeeded : (arguments output : Value) (dependencies : List Dependency) → StepAttempt
  step_error : (error : Text) (dependencies : List Dependency) → StepAttempt

-- engine/executor.rs: the two results of `resolve_references`
pub data Resolution : Type 0 where
  resolved : (value : Value) (dependencies : List Dependency) → Resolution
  unresolved : (message : Text) (dependencies : List Dependency) → Resolution

pub data Parsed : Type 0 where
  parsed : Value → Parsed
  malformed : Text → Parsed

-- config.rs: the part of the configuration that the engine reads
pub record EngineConfig : Type 0 where
  pub default_policy : RollbackPolicy
  pub tx_idle_timeout : Option ℕ
  pub compensation_retries : ℕ
  pub max_constraints : ℕ

-- What the engine is built on: the world, the float arithmetic, the JSON reader, the error cleaner,
-- the reference resolver, the clock (in milliseconds) and the source of identifiers.
pub record Parts : Type 0 where
  pub env : Env
  pub floats : Floats
  pub parse_json : Text → Parsed
  pub clean : Text → CleanHint
  pub resolve_references : Value → ℕ → Map ℕ StepRecord → Resolution
  pub now : Log → ℕ
  pub new_id : Log → Text

pub record Engine : Type 0 where
  -- the names of the registered tools, sorted
  pub tools : List Text
  pub config : EngineConfig
  pub transactions : Map Text Transaction
