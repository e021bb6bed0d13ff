-- ===== src/Errors.antt =====
-- errors.rs: the infrastructure errors, `Result`, and the gRPC status codes. An error that wraps
-- one of another library keeps the text of that error.
use agent_tx_protocol.Prelude.{bytes, decimal, ◌++◌, ℕ, ◌≡◌, refl, ◌⊎◌, inl, inr, Text}

pub data AgentTxError : Type 0 where
  storage : Text → AgentTxError
  missing_column_family : Text → AgentTxError
  corrupt : (key reason : Text) → AgentTxError
  serialization : Text → AgentTxError
  io : Text → AgentTxError
  transaction_not_found : Text → AgentTxError
  invalid_transaction_state : (id status expected : Text) → AgentTxError
  illegal_transition : (from to : Text) → AgentTxError
  step_out_of_order : (expected got : ℕ) → AgentTxError
  snapshot_not_found : (tx_id : Text) (step_id : ℕ) → AgentTxError
  write_conflict : (key : Text) → AgentTxError
  invalid_argument : Text → AgentTxError
  compensation : (action reason : Text) → AgentTxError
  config : Text → AgentTxError
  join : Text → AgentTxError

pub data Result {ℓ} (A : Type ℓ) : Type ℓ where
  ok : A → Result A
  err : AgentTxError → Result A

-- The operator `?`: the first error is the result.
infixl 5 ◌>>=◌
abbrev pub ◌>>=◌ : {A B : Type 0} → Result A → (A → Result B) → Result B
err e >>= next = err e
ok a >>= next = next a

-- tonic::Code, the codes that the conversion uses
pub data Code : Type 0 where
  not_found failed_precondition invalid_status aborted internal : Code

-- impl From<AgentTxError> for tonic::Status
unfoldable pub status_code : AgentTxError → Code
status_code (transaction_not_found _) = not_found
status_code (invalid_transaction_state _ _ _) = failed_precondition
status_code (illegal_transition _ _) = failed_precondition
status_code (step_out_of_order _ _) = failed_precondition
status_code (invalid_argument _) = invalid_status
status_code (write_conflict _) = aborted
status_code _ = internal

pub Result-cases {ℓ} :
    {A : Type ℓ} (r : Result A) → ((a : A) × (r ≡ ok a)) ⊎ ((e : AgentTxError) × (r ≡ err e))
Result-cases (ok a) = inl (a, refl)
Result-cases (err e) = inr (e, refl)

-- `to_string`, by the messages of the `error` attributes
unfoldable pub display : AgentTxError → Text
display (storage e) = bytes "storage error: " ++ e
display (missing_column_family name) = bytes "column family `" ++ (name ++ bytes "` is missing")
display (corrupt key reason) = bytes "corrupt record at `" ++ (key ++ (bytes "`: " ++ reason))
display (serialization e) = bytes "serialization error: " ++ e
display (io e) = bytes "I/O error: " ++ e
display (transaction_not_found id) = bytes "transaction `" ++ (id ++ bytes "` not found")
display (invalid_transaction_state id status expected) =
    bytes "transaction `"
    ++ (id ++ (bytes "` is " ++ (status ++ (bytes ", expected " ++ expected))))
display (illegal_transition from to) =
    bytes "illegal transaction state transition " ++ (from ++ (bytes " -> " ++ to))
display (step_out_of_order expected got) =
    bytes "step " ++ (decimal got ++ (bytes " is out of order: expected step " ++ decimal expected))
display (snapshot_not_found tx step) =
    bytes "snapshot for step "
    ++ (decimal step ++ (bytes " of transaction `" ++ (tx ++ bytes "` not found")))
display (write_conflict key) =
    bytes "write conflict on key `" ++ (key ++ bytes "`: it was committed by another transaction")
display (invalid_argument e) = bytes "invalid argument: " ++ e
display (compensation action reason) =
    bytes "compensation failed for `" ++ (action ++ (bytes "`: " ++ reason))
display (config e) = bytes "configuration error: " ++ e
display (join e) = bytes "background task failed: " ++ e
