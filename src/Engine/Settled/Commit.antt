-- ===== src/Engine/Settled/Commit.antt =====
-- Where a commit leaves its transaction.
use agent_tx_protocol.Prelude.{
  ℕ, ◌≡◌, refl, ◌⊎◌, inl, inr, true, none, some, ◌∷◌, Text, nat_eq, list_eq, get,
}
use agent_tx_protocol.Errors.{AgentTxError, Result, ok, err, write_conflict, join}
use agent_tx_protocol.StateMachine.Status.{
  TxStatus, active, rolling_back, committing, committed, failed, can_transition_to, transition,
}
use agent_tx_protocol.World.{Log}
use agent_tx_protocol.World
use agent_tx_protocol.Transaction.{Transaction, ensure_active, move_to}
use agent_tx_protocol.Engine.Act.{Locked, raise, reads, attempt, ◌>>=◌, transition_to, store}
use agent_tx_protocol.Engine.Types.{CommitOutcome, Parts, Engine}
use agent_tx_protocol.Engine.Operations.{
  with_handle, settle, flush_staged, conclude, publish, not_committed, after_commit, commit_locked,
  commit,
}
use agent_tx_protocol.Prelude.{◌∙◌}
use agent_tx_protocol.Engine.Effects.Operations.{after_commit-id}
use agent_tx_protocol.Engine.Table.{settle-live, settle-gone}
use agent_tx_protocol.Engine.Ensures.{
  Ensures, Outcome, At, Ensures-pure, Ensures-reads, Ensures-raise, Ensures-bind, Ensures-modify,
  Ensures-transition, Ensures-weaken,
}
use agent_tx_protocol.Engine.Settled.{Ended, abort_locked-Ended, leave_table-Ended}

-- Where the store's answer leaves the locked transaction: committed and gone; after a conflict,
-- failed and gone, or rolling back if the abort failed too; after a lost worker, committing; and
-- after another error, active.
abbrev Left : Result ℕ → Locked → Type 0
Left (ok keys) s = Ended committed s
Left (err (write_conflict key)) s = Ended failed s ⊎ At rolling_back s
Left (err (join text)) s = At committing s
Left (err e) s = At active s

-- The same of the table's entry.
abbrev Entry : Text → TxStatus → Engine → Type 0
Entry id status engine =
    (tx : Transaction) × (get engine.transactions id ≡ some tx) × (tx.status ≡ status)

abbrev pub Leaves : Result ℕ → Text → Engine → Type 0
Leaves (ok keys) id engine = get engine.transactions id ≡ none
Leaves (err (write_conflict key)) id engine =
    (get engine.transactions id ≡ none) ⊎ Entry id rolling_back engine
Leaves (err (join text)) id engine = Entry id committing engine
Leaves (err e) id engine = Entry id active engine

module _ (parts : Parts) where
  flush_staged-At :
      (status : TxStatus) {E : Locked → Type 0}
      → Ensures (At status) (flush_staged parts) (λ _. At status) E
  unfolding flush_staged
  flush_staged-At status = record { at = λ s log p. p }

  publish-Ended :
      (keys : ℕ) {E : Locked → Type 0}
      → Ensures (At committing) (publish parts keys) (λ _. Ended committed) E
  unfolding publish conclude can_transition_to
  publish-Ended keys = Ensures-bind _ _ (Ensures-modify {Q = At committing} _ (λ s h. h)) λ _.
      Ensures-bind _ _ (Ensures-reads _ (λ s h. h)) λ steps.
        Ensures-bind _ _ (flush_staged-At committing) λ flushed.
          Ensures-bind _ _ (Ensures-transition committing committed refl)
            λ _. Ensures-bind _ _ (leave_table-Ended parts committed) λ _. Ensures-pure _ (λ s h. h)

  reopened :
      (e : AgentTxError)
      → Ensures
          (At committing)
          (transition_to active >>= λ _. raise {A = CommitOutcome} e)
          (λ _. At active)
          (At active)
  unfolding can_transition_to
  reopened e =
      Ensures-bind _ _ (Ensures-transition committing active refl) λ _. Ensures-raise e (λ s h. h)

  not_committed-Left :
      (e : AgentTxError)
      → Ensures (At committing) (not_committed parts e) (λ _. Left (err e)) (Left (err e))
  unfolding not_committed can_transition_to
  not_committed-Left (write_conflict key) =
      Ensures-bind _ _ (Ensures-transition committing rolling_back refl) λ _.
        Ensures-bind _ _
          (Ensures-weaken _ (λ _ s h. h) (λ s h. inr h) (abort_locked-Ended parts failed refl))
          λ _. Ensures-raise _ (λ s h. inl h)
  not_committed-Left (join text) = Ensures-raise _ (λ s h. h)
  not_committed-Left e = reopened e

  after_commit-Left :
      (answer : Result ℕ)
      → Ensures (At committing) (after_commit parts answer) (λ _. Left answer) (Left answer)
  unfolding after_commit
  after_commit-Left (ok keys) = publish-Ended keys
  after_commit-Left (err e) = not_committed-Left e

from_outcome :
    {A : Type 0} (P : Locked → Type 0) (r : Result A) (s : Locked) → Outcome (λ _. P) P r s → P s
from_outcome P (ok a) s h = h
from_outcome P (err e) s h = h

settle-Entry :
    (engine : Engine) (id : Text) (status : TxStatus) (s : Locked)
    → At status s
    → Entry id status (settle engine id s)
settle-Entry engine id status s h = (s.tx, settle-live engine id s h.1, h.0)

settle-Leaves :
    (answer : Result ℕ) (engine : Engine) (id : Text) (s : Locked)
    → s.tx.id ≡ id
    → Left answer s
    → Leaves answer id (settle engine id s)
settle-Leaves (ok keys) engine id s own h = settle-gone engine id s h.1 own
settle-Leaves (err (write_conflict key)) engine id s own (inl h) =
    inl (settle-gone engine id s h.1 own)
settle-Leaves (err (write_conflict key)) engine id s own (inr h) =
    inr (settle-Entry engine id rolling_back s h)
settle-Leaves (err (join text)) engine id s own h = settle-Entry engine id committing s h
settle-Leaves (err e) engine id s own h = settle-Entry engine id active s h

module _ (parts : Parts) (id : Text) (tx : Transaction) (engine : Engine) (log : Log) where
  pub commit-Leaves :
      get engine.transactions id ≡ some tx
      → tx.id ≡ id
      → tx.status ≡ active
      → Leaves (parts.env.store log (World.commit tx.id)) id (commit parts id engine log).1
  unfolding commit with_handle commit_locked ensure_active ◌>>=◌ transition_to move_to transition
      can_transition_to reads attempt store
  commit-Leaves found own open_tx =
      let answer = parts.env.store log (World.commit tx.id) in
      let s : Locked = record { tx = record tx { status = committing }; live = true } in
      let after : Log = World.stored (World.commit tx.id) ∷ log in
      let r = after_commit parts answer s after in
      rw (found, with_handle)
        (rw open_tx (
          settle-Leaves answer engine id r.1 (after_commit-id parts answer s after ∙ own) (
            from_outcome (Left answer) r.0 r.1
              ((after_commit-Left parts answer).at s after (refl, refl)))))
