-- ===== src/World.antt =====
-- What the engine does to the world outside its memory: calls of the store, of undo actions, of tools
-- and of the effect dispatcher. The log holds the calls made, the newest first, and the environment
-- answers each call by what was done before: any storage failure, any tool and any remote system is
-- such an environment.
pub mod Traces
use agent_tx_protocol.Prelude.{ℕ, ◌≡◌, Option, none, some, List, [], ◌∷◌, ◌++◌, Text, Map}
use agent_tx_protocol.Json.{Value}
use agent_tx_protocol.Errors.{AgentTxError, Result}

-- ledger/saga.rs: the part of `UndoAction` that identifies an action
pub record UndoAction : Type 0 where
  pub kind : Text
  pub description : Text
  pub payload : Value

-- ledger/saga.rs
pub record StagedEffect : Type 0 where
  pub step_id : ℕ
  pub channel : Text
  pub payload : Value
  pub idempotency_key : Text

-- The operations of `RocksStore` that the engine and the ledger call.
pub data StoreCall : Type 0 where
  register_transaction : (tx : Text) → StoreCall
  create_snapshot : (tx : Text) (step : ℕ) → StoreCall
  restore_snapshot : (tx : Text) (step : ℕ) → StoreCall
  put_output : (tx : Text) (step : ℕ) (output : Value) → StoreCall
  commit : (tx : Text) → StoreCall
  discard : (tx : Text) → StoreCall
  discard_state : (tx : Text) → StoreCall
  put_saga_record : (tx : Text) (step seq : ℕ) → StoreCall
  delete_saga_record : (tx : Text) (step seq : ℕ) → StoreCall

pub record ToolCall : Type 0 where
  pub tx : Text
  pub step : ℕ
  pub tool : Text
  pub args : Value

-- engine/executor.rs: `ToolError`
pub data ToolError : Type 0 where
  failed : Text → ToolError
  internal : AgentTxError → ToolError

pub data ToolResult : Type 0 where
  output : Value → ToolResult
  error : ToolError → ToolResult

-- The arguments of `ToolContext::stage_effect`, with the key that it returns.
pub record StageRequest : Type 0 where
  pub channel : Text
  pub payload : Value
  pub idempotency_key : Text

-- ToolContext::stage_effect stamps the effect with the step of the context.
abbrev pub stage_effect : ℕ → StageRequest → StagedEffect
stage_effect step r = record {
  step_id = step;
  channel = r.channel;
  payload = r.payload;
  idempotency_key = r.idempotency_key;
}

-- What a finished tool leaves in its `ToolContext`, and its result.
pub record ToolRun : Type 0 where
  pub undo : List UndoAction
  pub staged : List StageRequest
  pub result : ToolResult

pub data Event : Type 0 where
  stored : StoreCall → Event
  undid : UndoAction → Event
  dispatched : (tx : Text) → StagedEffect → Event
  ran : ToolCall → Event

abbrev pub Log : Type 0
Log = List Event

pub record Env : Type 0 where
  -- a count for `commit`; the other calls give no value that the engine reads
  pub store : Log → StoreCall → Result ℕ
  -- none for success, or the error's text
  pub undo : Log → UndoAction → Option Text
  pub dispatch : Log → Text → StagedEffect → Option Text
  pub run : Log → ToolCall → ToolRun

-- A computation that acts on the world.
abbrev pub Io : Type 0 → Type 0
Io A = Log → A × Log

abbrev pub pure : {A : Type 0} → A → Io A
pure a log = (a, log)

infixl 5 ◌>>=◌ ◌>>◌
abbrev pub ◌>>=◌ : {A B : Type 0} → Io A → (A → Io B) → Io B
◌>>=◌ m f log = let r = m log in f r.0 r.1

abbrev pub ◌>>◌ : {A B : Type 0} → Io A → Io B → Io B
m >> k = m >>= λ _. k

module _ (env : Env) where
  abbrev pub call_store : StoreCall → Io (Result ℕ)
  call_store c log = (env.store log c, stored c ∷ log)

  abbrev pub call_undo : UndoAction → Io (Option Text)
  call_undo a log = (env.undo log a, undid a ∷ log)

  abbrev pub call_dispatch : Text → StagedEffect → Io (Option Text)
  call_dispatch tx e log = (env.dispatch log tx e, dispatched tx e ∷ log)

  abbrev pub call_tool : ToolCall → Io ToolRun
  call_tool c log = (env.run log c, ran c ∷ log)
