-- ===== src/Engine/Settled/Begin.antt =====
-- What `begin` leaves in the table.
use agent_tx_protocol.Prelude.{
  ◌≡◌, refl, inl, inr, Option, some, ◌∷◌, Text, ltb, length, nat_eq, list_eq, arith, Map, get, ◌≢◌,
  get-insert-other, get-insert-same, Bool-cases,
}
use agent_tx_protocol.Errors.{Result, ok, err, Result-cases}
use agent_tx_protocol.StateMachine.Status.{active}
use agent_tx_protocol.StateMachine.Policy.{RollbackPolicy, validate}
use agent_tx_protocol.World.{register_transaction, create_snapshot, Log, stored}
use agent_tx_protocol.Graph.Linked.{new-IsLinked}
use agent_tx_protocol.Transaction.{Transaction}
use agent_tx_protocol.Transaction
use agent_tx_protocol.Transaction.Consistency.{IsConsistent}
use agent_tx_protocol.Engine.Types.{BeginOutcome, Parts, Engine}
use agent_tx_protocol.Engine.Operations.{begin, begin_with, open_transaction, max_agent_id_len}

-- A new transaction for an answer, or no change for an error.
abbrev pub Begins : Engine → Result BeginOutcome → Engine → Type 0
Begins before (err e) after = after ≡ before
Begins before (ok outcome) after =
    (tx : Transaction) × (get after.transactions outcome.tx_id ≡ some tx)
    × (tx.status ≡ active)
    × (tx.next_step ≡ outcome.next_step)
    × IsConsistent tx
    × (tx.id ≡ outcome.tx_id)
    × ((other : Text)
        → outcome.tx_id ≢ other
        → get after.transactions other ≡ get before.transactions other)

module _ (parts : Parts) (agent : Text) (metadata : Map Text Text) where
  open_transaction-Begins :
      (policy : RollbackPolicy) (engine : Engine) (log : Log)
      → let r = open_transaction parts agent metadata policy engine log in Begins engine r.0 r.1
  unfolding open_transaction Transaction.new
  open_transaction-Begins policy engine log =
      let id = parts.new_id log in
      elim (Result-cases (parts.env.store log (register_transaction id))) [
        | inr (e, refused) ↦ rw (refused, open_transaction) refl
        | inl (k, registered) ↦
            elim (Result-cases
              (parts.env.store (stored (register_transaction id) ∷ log) (create_snapshot id 0))) [
                | inr (e, refused) ↦
                    rw (registered, open_transaction) (rw (refused, open_transaction) refl)
                | inl (j, captured) ↦
                    rw (registered, open_transaction)
                      (rw (captured, open_transaction)
                        (
                          _,
                          get-insert-same engine.transactions id _,
                          refl,
                          refl,
                          (omega arith, (tt, tt, tt, tt, tt, new-IsLinked)),
                          refl,
                          λ other h. get-insert-other engine.transactions id other _ h,
                        ))
              ]
      ]

  begin_with-Begins :
      (policy : RollbackPolicy) (engine : Engine) (log : Log)
      → let r = begin_with parts agent metadata policy engine log in Begins engine r.0 r.1
  unfolding begin_with
  begin_with-Begins policy engine log = elim (Result-cases (validate parts.floats policy)) [
    | inl (u, valid) ↦ rw (valid, begin_with) (open_transaction-Begins policy engine log)
    | inr (e, wrong) ↦ rw (wrong, begin_with) refl
  ]

-- An identifier that `begin` answers is in the table, with an active and consistent transaction that
-- expects the step that `begin` answers, under its own id and beside the other entries as they were; an
-- error of `begin` leaves the engine as it was.
pub begin-Begins :
    (parts : Parts) (agent : Text) (metadata : Map Text Text) (policy : Option RollbackPolicy)
    (engine : Engine) (log : Log)
    → let r = begin parts agent metadata policy engine log in Begins engine r.0 r.1
unfolding begin
begin-Begins parts agent metadata policy engine log =
    elim (Bool-cases (ltb max_agent_id_len (length agent))) [
      | inl long ↦ rw long refl
      | inr short ↦ rw short (begin_with-Begins parts agent metadata _ engine log)
    ]
