-- ===== src/Transaction.antt =====
-- engine/transaction.rs: the memory of one transaction.
pub mod Constraints
pub mod Consistency
use agent_tx_protocol.Prelude.{
  ℕ, zero, suc, ◌+◌, ◌-◌, ◌≡◌, Bool, true, false, not, Option, none, some, List, [], ◌∷◌, ◌++◌, map,
  max, Text, bytes, ltb, leb, if◌then◌else◌, length, drop, retain, any, contains, Map, get, insert,
  nat_eq, list_eq, ◌==◌,
}
use agent_tx_protocol.Json.{Value}
use agent_tx_protocol.Errors.{AgentTxError, invalid_transaction_state, Result, ok, err, ◌>>=◌}
use agent_tx_protocol.Graph.{DependencyGraph}
use agent_tx_protocol.Graph
use agent_tx_protocol.StateMachine.Status.{TxStatus, active, status_name, transition}
use agent_tx_protocol.StateMachine.Policy.{RollbackPolicy}
use agent_tx_protocol.StateMachine.Controller.{RollbackController, new_controller}
use agent_tx_protocol.Saga.Ledger.{SagaLedger}
use agent_tx_protocol.Saga.Staging.{StagingQueue}

pub record StepRecord : Type 0 where
  pub step_id : ℕ
  pub tool_name : Text
  pub arguments : Value
  pub output : Value

pub record ContextEntry : Type 0 where
  pub step_id : ℕ
  pub tool_name : Text
  pub raw_context : Text

pub record Transaction : Type 0 where
  pub id : Text
  pub agent_id : Text
  pub metadata : Map Text Text
  pub created_at_ms : ℕ
  pub last_activity : ℕ
  pub status : TxStatus
  pub next_step : ℕ
  pub steps : Map ℕ StepRecord
  pub context : List ContextEntry
  pub constraints : List Text
  pub graph : DependencyGraph
  pub controller : RollbackController
  pub saga : SagaLedger
  pub staging : StagingQueue

-- Transaction::new, at a time
unfoldable pub new : Text → Text → Map Text Text → RollbackPolicy → SagaLedger → ℕ → Transaction
new id agent metadata policy saga now = record {
  id = id;
  agent_id = agent;
  metadata = metadata;
  created_at_ms = now;
  last_activity = now;
  status = active;
  next_step = 1;
  steps = [];
  context = [];
  constraints = [];
  graph = Graph.new;
  controller = new_controller policy;
  saga = saga;
  staging = [];
}

abbrev pub touch : Transaction → ℕ → Transaction
touch tx now = record tx { last_activity = now }

-- `self.status == TxStatus::Active`
abbrev pub is_active : TxStatus → Bool
is_active active = true
is_active _ = false

unfoldable pub ensure_active : Transaction → Result (Unit {0})
ensure_active tx =
    if is_active tx.status
    then ok tt
    else err (invalid_transaction_state tx.id (status_name tx.status) (bytes "ACTIVE"))

-- Transaction::transition
unfoldable pub move_to : Transaction → TxStatus → Result Transaction
unfolding transition
move_to tx next = transition tx.status next >>= λ s. ok (record tx { status = s })

-- add_constraint: the eviction of the oldest beyond `max`
abbrev pub evict : List Text → ℕ → List Text
evict constraints limit =
    if ltb (max limit 1) (length constraints)
    then drop (length constraints - max limit 1) constraints
    else constraints

unfoldable pub add_constraint : Transaction → Text → ℕ → Bool × Transaction
add_constraint tx hint limit =
    if contains tx.constraints hint
    then (false, tx)
    else (true, record tx { constraints = evict (tx.constraints ++ hint ∷ []) limit })

unfoldable pub truncate_from : Transaction → ℕ → Transaction
truncate_from tx step =
    if step == 0
    then record tx {
      steps = [];
      context = [];
      graph = Graph.clear tx.graph;
      next_step = max step 1;
    }
    else record tx {
      steps = retain (λ s. ltb s.0 step) tx.steps;
      context = retain (λ (c : ContextEntry). ltb c.step_id step) tx.context;
      graph = Graph.truncate_from tx.graph step;
      next_step = max step 1;
    }

-- last_step: the largest key
abbrev larger : Option ℕ → ℕ → Option ℕ
larger none k = some k
larger (some j) k = some (max j k)

unfoldable pub last_key : Option ℕ → Map ℕ StepRecord → Option ℕ
last_key found [] = found
last_key found ((k, _) ∷ steps) = last_key (larger found k) steps

unfoldable pub last_step : Transaction → Option ℕ
unfolding last_key
last_step tx = last_key none tx.steps
