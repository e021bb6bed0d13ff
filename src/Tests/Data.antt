-- ===== src/Tests/Data.antt =====
-- The data of the examples.
use agent_tx_protocol.Engine.Isolation.{IsFiled}
use agent_tx_protocol.Prelude.{
  get, list_eq, nat_eq, ◌==◌, Bool-cases, inl, inr, ◌≡◌, ◌≢◌, refl, ap, sym, ◌∙◌, none,
}
use agent_tx_protocol.Prelude.{ℕ, ◌+◌, ◌*◌, ◌/◌, true, none, some, [], ◌∷◌, Text, bytes, leb}
use agent_tx_protocol.Json.{null, string, object, end}
use agent_tx_protocol.Errors.{ok}
use agent_tx_protocol.Graph.{DependencyGraph, StepNode, EdgeLabel, explicit}
use agent_tx_protocol.Hints.{unknown}
use agent_tx_protocol.StateMachine.Status.{active, committed}
use agent_tx_protocol.StateMachine.Policy.{Floats, RollbackPolicy}
use agent_tx_protocol.StateMachine.Controller.{new_controller}
use agent_tx_protocol.World.{UndoAction, StagedEffect, Env, output}
use agent_tx_protocol.Saga.Ledger.{SagaEntry, SagaLedger}
use agent_tx_protocol.Transaction.{Transaction, StepRecord, ContextEntry}
use agent_tx_protocol.Engine.Types.{StepRequest, EngineConfig, Parts, Engine, parsed, resolved}

-- Whole numbers in place of the floats.
abbrev pub whole : Floats
whole = record {
  from_u32 = λ n. n;
  add = λ a b. a + b;
  mul = λ a b. a * b;
  log2 = λ n. n / 2;
  ceil = λ n. n;
  to_u64 = λ n. n;
  is_finite = λ n. true;
  le = leb;
  one = 1;
  two = 2;
  tenth = 0;
  thousand = 1000;
}

abbrev pub tx_id : Text
tx_id = b't' ∷ b'1' ∷ []

abbrev pub other_id : Text
other_id = b't' ∷ b'2' ∷ []

abbrev pub user_id : Text
user_id = bytes "user_id"

abbrev pub plain_policy : RollbackPolicy
plain_policy = record { max_local_depth = 2; max_global_resets = 1; replay_budget_factor = 2 }

-- no retry, no reset
abbrev pub strict_policy : RollbackPolicy
strict_policy = record { max_local_depth = 0; max_global_resets = 0; replay_budget_factor = 1 }

-- step 1 gives a user_id to step 2
abbrev pub creates : StepNode
creates = record {
  step_id = 1;
  tool = bytes "create_user";
  inputs = [];
  outputs = (user_id, string (bytes "u1")) ∷ [];
}

abbrev pub charges : StepNode
charges = record {
  step_id = 2;
  tool = bytes "charge";
  inputs = (user_id, string (bytes "u1")) ∷ [];
  outputs = [];
}

abbrev pub label : EdgeLabel
label = record { source_key = user_id; target_key = user_id; kind = explicit }

abbrev pub two_steps : DependencyGraph
two_steps = record {
  weights = creates ∷ charges ∷ [];
  edges = record { source = 0; target = 1; weight = label } ∷ [];
  nodes = (1, 0) ∷ (2, 1) ∷ [];
}

abbrev pub undo_of : Text → UndoAction
undo_of kind = record { kind = kind; description = kind; payload = null }

abbrev pub entry_of : ℕ → ℕ → SagaEntry
entry_of step seq = record {
  record_of = record {
    tx_id = tx_id;
    step_id = step;
    seq = seq;
    kind = bytes "undo";
    description = bytes "undo";
    payload = null;
    recorded_at_ms = 0;
  };
  action = undo_of (bytes "undo");
}

abbrev pub ledger : SagaLedger
ledger = record {
  tx_id = tx_id;
  entries = entry_of 1 0 ∷ entry_of 2 1 ∷ [];
  next_seq = 2;
  max_attempts = 3;
}

abbrev pub mail : ℕ → StagedEffect
mail step = record {
  step_id = step;
  channel = bytes "email";
  payload = null;
  idempotency_key = bytes "k";
}

-- A world in which everything succeeds.
abbrev pub env : Env
env = record {
  store = λ log c. ok 7;
  undo = λ log a. none;
  dispatch = λ log tx e. none;
  run = λ log c. record { undo = []; staged = []; result = output null };
}

abbrev pub parts : Parts
parts = record {
  env = env;
  floats = whole;
  parse_json = λ t. parsed (object end);
  clean = λ t. record { text = t; category = unknown; rule = none; key = none };
  resolve_references = λ v step steps. resolved v [];
  now = λ log. 0;
  new_id = λ log. other_id;
}

abbrev pub step_record : ℕ → StepRecord
step_record step = record {
  step_id = step;
  tool_name = bytes "charge";
  arguments = null;
  output = null;
}

abbrev pub context_entry : ℕ → ContextEntry
context_entry step = record { step_id = step; tool_name = bytes "charge"; raw_context = [] }

-- two steps done, each with an undo action and a staged mail
abbrev pub open_tx : Transaction
open_tx = record {
  id = tx_id;
  agent_id = bytes "a";
  metadata = [];
  created_at_ms = 0;
  last_activity = 0;
  status = active;
  next_step = 3;
  steps = (1, step_record 1) ∷ (2, step_record 2) ∷ [];
  context = context_entry 1 ∷ context_entry 2 ∷ [];
  constraints = bytes "hint" ∷ [];
  graph = two_steps;
  controller = new_controller plain_policy;
  saga = ledger;
  staging = mail 1 ∷ mail 2 ∷ [];
}

abbrev pub closed_tx : Transaction
closed_tx = record open_tx { status = committed }

abbrev pub config : EngineConfig
config = record {
  default_policy = plain_policy;
  tx_idle_timeout = some 900;
  compensation_retries = 3;
  max_constraints = 10;
}

abbrev pub engine_with : Transaction → Engine
engine_with tx = record {
  tools = bytes "charge" ∷ [];
  config = config;
  transactions = (tx_id, tx) ∷ [];
}

abbrev pub request : ℕ → StepRequest
request step = record {
  tx_id = tx_id;
  step_id = step;
  tool_name = bytes "charge";
  arguments_json = [];
  raw_context = [];
}

some-injective : {a b : Transaction} → some a ≡ some b → a ≡ b
some-injective h = cc

none≢some : {a : Transaction} → none ≢ some a
none≢some h = cc

pub engine_with-IsFiled : (tx : Transaction) → tx.id ≡ tx_id → IsFiled (engine_with tx)
unfolding get
engine_with-IsFiled tx own id other held = elim (Bool-cases (tx_id == id)) [
  | inl same ↦
      let here : get (engine_with tx).transactions id ≡ some tx = rw same refl in
      ap (λ (t : Transaction). t.id) (sym (some-injective (sym here ∙ held)))
      ∙ own
      ∙ (list_eq.same_iff tx_id id).0 same
  | inr differs ↦
      let here : get (engine_with tx).transactions id ≡ none = rw differs refl in
      absurd (none≢some (sym here ∙ held))
]
