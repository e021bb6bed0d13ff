-- ===== src/Engine/Table.antt =====
-- What the table of transactions holds after an operation.
use mathlib.Core.Path.{subst}
use agent_tx_protocol.Prelude.{
  sym, remove, ℕ, zero, suc, ◌≡◌, ◌≢◌, refl, inl, inr, true, false, Option, none, some, Text,
  nat_eq, list_eq, ◌==◌, arith, get, get-insert-same, get-insert-other, get-remove-same,
  get-remove-other, insert-get, insert, ◌∙◌, Bool-cases, bytes,
}
use agent_tx_protocol.Errors.{AgentTxError, err, invalid_transaction_state, step_out_of_order}
use agent_tx_protocol.World.{Log}
use agent_tx_protocol.StateMachine.Status.{status_name}
use agent_tx_protocol.Transaction.{Transaction, is_active, ensure_active}
use agent_tx_protocol.Engine.Act.{Locked, Act, ◌>>=◌}
use agent_tx_protocol.Engine.Types.{StepRequest, Parts, Engine}
use agent_tx_protocol.Engine.Operations.{
  settle, with_handle, ensure, expect_step, execute_under_lock, execute_step, commit_locked, commit,
  rollback_locked, rollback,
}

module _ (engine : Engine) (id : Text) (s : Locked) where
  pub settle-live : s.live ≡ true → get (settle engine id s).transactions id ≡ some s.tx
  unfolding settle
  settle-live h = rw h (get-insert-same engine.transactions id s.tx)

  pub settle-gone : s.live ≡ false → s.tx.id ≡ id → get (settle engine id s).transactions id ≡ none
  unfolding settle
  settle-gone h own =
      let held = insert engine.transactions id s.tx in
      rw h (subst (λ k. get (remove held k) id ≡ none) (sym own) (get-remove-same held id))

  pub settle-other :
      (other : Text)
      → id ≢ other
      → s.tx.id ≡ id
      → get (settle engine id s).transactions other ≡ get engine.transactions other
  unfolding settle
  settle-other other h own = elim (Bool-cases s.live) [
    | inl live ↦ rw live (get-insert-other engine.transactions id other s.tx h)
    | inr gone ↦
        let held = insert engine.transactions id s.tx in
        let kept =
          get-remove-other held id other h ∙ get-insert-other engine.transactions id other s.tx h in
        rw gone
          (subst (λ k. get (remove held k) other ≡ get engine.transactions other) (sym own) kept)
  ]

-- An operation that fails and changes nothing under the lock.
with_handle-refused :
    {A : Type 0} (id : Text) (tx : Transaction) (m : Act A) (e : AgentTxError) (engine : Engine)
    (log : Log)
    → get engine.transactions id ≡ some tx
    → m (record { tx = tx; live = true }) log ≡ (err e, record { tx = tx; live = true }, log)
    → with_handle id m engine log ≡ (err e, engine, log)
unfolding with_handle settle
with_handle-refused id tx m e engine log found refused =
    rw (found, with_handle) (rw refused (rw (insert-get engine.transactions id tx found) refl))

-- The error of an operation on a transaction that is not active.
abbrev pub not_active : Transaction → AgentTxError
not_active tx = invalid_transaction_state tx.id (status_name tx.status) (bytes "ACTIVE")

ensure-refused :
    {A : Type 0} (id : Text) (tx : Transaction) (k : Unit {0} → Act A) (engine : Engine) (log : Log)
    → get engine.transactions id ≡ some tx
    → is_active tx.status ≡ false
    → with_handle id (ensure >>= k) engine log ≡ (err (not_active tx), engine, log)
unfolding ensure_active ◌>>=◌
ensure-refused id tx k engine log found closed =
    with_handle-refused id tx (ensure >>= k) (not_active tx) engine log found (rw closed refl)

rollback-refused :
    (parts : Parts) (id : Text) (to : Option ℕ) (tx : Transaction) (engine : Engine) (log : Log)
    → get engine.transactions id ≡ some tx
    → is_active tx.status ≡ false
    → rollback parts id to engine log ≡ (err (not_active tx), engine, log)
unfolding rollback rollback_locked
rollback-refused parts id none tx engine log = ensure-refused id tx _ engine log
rollback-refused parts id (some zero) tx engine log = ensure-refused id tx _ engine log
rollback-refused parts id (some (suc n)) tx engine log = ensure-refused id tx _ engine log

-- A step, a commit and a rollback of a transaction that is not active fail with
-- InvalidTransactionState, act on nothing outside, and leave the engine exactly as it was.
pub refused_unless_active :
    (parts : Parts) (req : StepRequest) (to : Option ℕ) (tx : Transaction) (engine : Engine)
    (log : Log)
    → get engine.transactions req.tx_id ≡ some tx
    → is_active tx.status ≡ false
    → (execute_step parts req engine log ≡ (err (not_active tx), engine, log))
      × (commit parts req.tx_id engine log ≡ (err (not_active tx), engine, log))
      × (rollback parts req.tx_id to engine log ≡ (err (not_active tx), engine, log))
unfolding execute_step commit rollback execute_under_lock commit_locked rollback_locked
refused_unless_active parts req to tx engine log found closed = (
  ensure-refused req.tx_id tx _ engine log found closed,
  ensure-refused req.tx_id tx _ engine log found closed,
  rollback-refused parts req.tx_id to tx engine log found closed,
)

-- A step of an active transaction with another number than the one the transaction expects fails
-- with StepOutOfOrder, runs nothing, and leaves the engine exactly as it was.
pub step_out_of_order_is_refused :
    (parts : Parts) (req : StepRequest) (tx : Transaction) (engine : Engine) (log : Log)
    → get engine.transactions req.tx_id ≡ some tx
    → is_active tx.status ≡ true
    → req.step_id ≢ tx.next_step
    → execute_step parts req engine log
      ≡ (err (step_out_of_order tx.next_step req.step_id), engine, log)
unfolding execute_step execute_under_lock ensure_active expect_step ◌>>=◌
step_out_of_order_is_refused parts req tx engine log found open_tx other =
    let differs : (req.step_id == tx.next_step) ≡ false = ground arith in
    with_handle-refused req.tx_id tx (execute_under_lock parts engine.tools engine.config req)
      (step_out_of_order tx.next_step req.step_id) engine log found (rw open_tx (rw differs refl))
