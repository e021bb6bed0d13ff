-- ===== src/Grpc.antt =====
-- grpc/service.rs: the checks on requests, and the conversions of requests and answers. An answer is
-- the message of its type in the protocol; the length of the rollback stays a time.
pub mod Limits
use agent_tx_protocol.Prelude.{
  ◌⊎◌, inl, inr, ℕ, zero, suc, ◌≡◌, Bool, true, false, ◌||◌, Option, none, some, List, [], ◌∷◌,
  ◌++◌, Text, bytes, decimal, length, ltb, nat_eq, ◌==◌, if◌then◌else◌, Map, unwrap_or, map,
}
use agent_tx_protocol.Json.{Value}
use agent_tx_protocol.Errors.{
  AgentTxError, Result, ok, err, Code, invalid_status, internal, status_code, display,
}
use agent_tx_protocol.Hints.{CleanHint, category_name}
use agent_tx_protocol.StateMachine.Status.{status_name}
use agent_tx_protocol.StateMachine.Policy.{F64, RollbackPolicy}
use agent_tx_protocol.StateMachine.Controller.{RollbackStrategy}
use agent_tx_protocol.World.{Log}
use agent_tx_protocol.Transaction.{ContextEntry}
use agent_tx_protocol.Engine.Types.{
  StepStatus, StepRequest, StepOutcome, BeginOutcome, CommitOutcome, RollbackOutcome,
  TransactionView, Parts, Engine,
}
use agent_tx_protocol.Engine.Operations

-- tonic::Status
pub record Status : Type 0 where
  pub code : Code
  pub message : Text

pub data Reply (A : Type 0) : Type 0 where
  response : A → Reply A
  refused : Status → Reply A

abbrev pub max_arguments_bytes : ℕ
max_arguments_bytes = 1048576

abbrev pub max_context_bytes : ℕ
max_context_bytes = 1048576

abbrev pub max_tool_name_bytes : ℕ
max_tool_name_bytes = 128

abbrev pub max_metadata_entries : ℕ
max_metadata_entries = 64

abbrev pub invalid : Text → Status
invalid message = record { code = invalid_status; message = message }

-- `?` on an engine's result: From<AgentTxError> for Status
abbrev pub status_of : AgentTxError → Status
status_of e = record { code = status_code e; message = display e }

unfoldable pub require_tx_id : Text → Option Status
require_tx_id [] = some (invalid (bytes "transaction_id is required"))
require_tx_id (_ ∷ _) = none

pub record PolicyMessage : Type 0 where
  pub max_local_depth : Option ℕ
  pub max_global_resets : Option ℕ
  pub replay_budget_factor : Option F64

unfoldable pub policy_from_proto : PolicyMessage → RollbackPolicy → RollbackPolicy
policy_from_proto p defaults = record {
  max_local_depth = unwrap_or p.max_local_depth defaults.max_local_depth;
  max_global_resets = unwrap_or p.max_global_resets defaults.max_global_resets;
  replay_budget_factor = unwrap_or p.replay_budget_factor defaults.replay_budget_factor;
}

pub record ExecuteStepResponse : Type 0 where
  pub status : StepStatus
  pub output_json : Text
  pub clean_hint : Text
  pub strategy : RollbackStrategy
  pub rollback_to_step : ℕ
  pub next_step_id : ℕ
  pub constraints : List Text
  pub context_reset : Bool
  pub error_category : Text
  pub rollback_latency : ℕ
  pub abort_reason : Text
  pub compensation_errors : List Text

abbrev pub hint_text : Option CleanHint → Text
hint_text none = []
hint_text (some hint) = hint.text

abbrev pub hint_category : Option CleanHint → Text
hint_category none = []
hint_category (some hint) = category_name hint.category

-- serde_json::to_string: the text, or why there is none
abbrev pub Printer : Type 0
Printer = Value → Text ⊎ Text

abbrev encoded : Text ⊎ Text → Reply Text
encoded (inl json) = response json
encoded (inr reason) =
    refused (record { code = internal; message = bytes "failed to encode output: " ++ reason })

abbrev pub output_text : Printer → Option Value → Reply Text
output_text to_string none = response []
output_text to_string (some value) = encoded (to_string value)

-- step_response, with the printer of JSON
unfoldable pub step_response : Printer → StepOutcome → Reply ExecuteStepResponse
unfolding category_name
step_response to_string o = elim (output_text to_string o.output) [
  | response json ↦ response (record {
    status = o.status;
    output_json = json;
    clean_hint = hint_text o.hint;
    strategy = o.strategy;
    rollback_to_step = o.rollback_to_step;
    next_step_id = o.next_step;
    constraints = o.constraints;
    context_reset = o.context_reset;
    error_category = hint_category o.hint;
    rollback_latency = o.rollback_latency;
    abort_reason = unwrap_or o.abort_reason [];
    compensation_errors = o.compensation_failures;
  })
  | refused status ↦ refused status
]

pub record BeginTransactionResponse : Type 0 where
  pub transaction_id : Text
  pub next_step_id : ℕ

pub record CommitTransactionResponse : Type 0 where
  pub committed : Bool
  pub steps_committed : ℕ
  pub effects_dispatched : ℕ
  pub dispatch_errors : List Text

pub record RollbackTransactionResponse : Type 0 where
  pub rolled_back : Bool
  pub next_step_id : ℕ
  pub compensations_run : ℕ
  pub compensation_errors : List Text

pub record GetTransactionResponse : Type 0 where
  pub transaction_id : Text
  pub status : Text
  pub next_step_id : ℕ
  pub constraints : List Text
  pub global_resets : ℕ
  pub context : List ContextEntry
  pub agent_id : Text

abbrev pub begin_response : BeginOutcome → BeginTransactionResponse
begin_response o = record { transaction_id = o.tx_id; next_step_id = o.next_step }

abbrev pub commit_response : CommitOutcome → CommitTransactionResponse
commit_response o = record {
  committed = true;
  steps_committed = o.steps_committed;
  effects_dispatched = o.effects_dispatched;
  dispatch_errors = o.dispatch_errors;
}

abbrev pub rollback_response : RollbackOutcome → RollbackTransactionResponse
rollback_response o = record {
  rolled_back = true;
  next_step_id = o.next_step;
  compensations_run = o.compensations_run;
  compensation_errors = o.compensation_failures;
}

abbrev pub get_response : TransactionView → GetTransactionResponse
get_response v = record {
  transaction_id = v.tx_id;
  status = status_name v.status;
  next_step_id = v.next_step;
  constraints = v.constraints;
  global_resets = v.global_resets;
  context = v.context;
  agent_id = v.agent_id;
}

-- The checks of `execute_step`, in their order: the first that fails refuses the request.
unfoldable pub check_sizes : StepRequest → Option Status
check_sizes req =
    if req.step_id == 0
    then some (invalid (bytes "step_id must be >= 1"))
    else if length req.tool_name == 0 || ltb max_tool_name_bytes (length req.tool_name)
    then some
        (invalid (bytes "tool_name must be 1-" ++ (decimal max_tool_name_bytes ++ bytes " bytes")))
    else if ltb max_arguments_bytes (length req.arguments_json)
    then some (
        invalid
          (bytes "arguments_json exceeds " ++ (decimal max_arguments_bytes ++ bytes " bytes")))
    else if ltb max_context_bytes (length req.raw_context)
    then some
        (invalid (bytes "raw_context exceeds " ++ (decimal max_context_bytes ++ bytes " bytes")))
    else none

abbrev pub or_check : Option Status → Option Status → Option Status
or_check (some status) next = some status
or_check none next = next

unfoldable pub check_step : StepRequest → Option Status
unfolding require_tx_id check_sizes
check_step req = or_check (require_tx_id req.tx_id) (check_sizes req)

-- An answer of the engine, converted.
abbrev pub reply : {A B : Type 0} → (A → B) → Result A → Reply B
reply f (ok a) = response (f a)
reply f (err e) = refused (status_of e)

abbrev pub answered : {A B : Type 0} → (A → B) → Result A × Engine × Log → Reply B × Engine × Log
answered f r = (reply f r.0, r.1, r.2)

-- An answer of the engine, converted where that can fail too.
abbrev pub try_reply : {A B : Type 0} → (A → Reply B) → Result A → Reply B
try_reply f (ok a) = f a
try_reply f (err e) = refused (status_of e)

abbrev pub try_answered :
    {A B : Type 0} → (A → Reply B) → Result A × Engine × Log → Reply B × Engine × Log
try_answered f r = (try_reply f r.0, r.1, r.2)

-- The check, and what follows if it refuses nothing.
abbrev pub checked :
    {B : Type 0}
    → Option Status
    → (Engine → Log → Reply B × Engine × Log)
    → Engine
    → Log
    → Reply B × Engine × Log
checked (some status) k engine log = (refused status, engine, log)
checked none k engine log = k engine log

module _ (parts : Parts) (to_string : Printer) where
  unfoldable pub execute_step :
      StepRequest → Engine → Log → Reply ExecuteStepResponse × Engine × Log
  unfolding check_step step_response
  execute_step req = checked (check_step req) (λ engine log.
      try_answered (step_response to_string) (Operations.execute_step parts req engine log))

module _ (parts : Parts) where
  unfoldable pub check_metadata : Map Text Text → Option Status
  check_metadata metadata =
      if ltb max_metadata_entries (length metadata)
      then some (
          invalid (bytes "metadata exceeds " ++ (decimal max_metadata_entries ++ bytes " entries")))
      else none

  abbrev chosen : Option PolicyMessage → RollbackPolicy → Option RollbackPolicy
  chosen none defaults = none
  chosen (some p) defaults = some (policy_from_proto p defaults)

  unfoldable pub begin_transaction :
      Text
      → Map Text Text
      → Option PolicyMessage
      → Engine
      → Log
      → Reply BeginTransactionResponse × Engine × Log
  unfolding check_metadata policy_from_proto
  begin_transaction agent metadata policy = checked (check_metadata metadata) (λ engine log.
      answered begin_response (
        Operations.begin parts agent metadata (chosen policy engine.config.default_policy) engine
          log))

  unfoldable pub commit_transaction :
      Text → Engine → Log → Reply CommitTransactionResponse × Engine × Log
  unfolding require_tx_id
  commit_transaction id =
      checked (require_tx_id id)
        (λ engine log. answered commit_response (Operations.commit parts id engine log))

  unfoldable pub rollback_transaction :
      Text → Option ℕ → Engine → Log → Reply RollbackTransactionResponse × Engine × Log
  unfolding require_tx_id
  rollback_transaction id to_step =
      checked (require_tx_id id)
        (λ engine log. answered rollback_response (Operations.rollback parts id to_step engine log))

unfoldable pub get_transaction : Text → Engine → Log → Reply GetTransactionResponse × Engine × Log
unfolding require_tx_id
get_transaction id =
    checked (require_tx_id id)
      (λ engine log. answered get_response (Operations.get_view id engine log))
