-- ===== src/Tests/Recoveries.antt =====
-- Examples of recovery and the reaper.
use agent_tx_protocol.Prelude.{
  ◌≡◌, refl, inl, true, some, List, [], ◌∷◌, bytes, get, list_eq, nat_eq, arith,
}
use agent_tx_protocol.Errors.{ok}
use agent_tx_protocol.Saga.Ledger.{SagaRecord}
use agent_tx_protocol.Saga.Recovery.{UndoRegistry, recover}
use agent_tx_protocol.Saga.Recovery.Faithful.{Restores, recover-Restores}
use agent_tx_protocol.Engine.Recovery.{RecoveryReport, Disk, recover_one, reap_idle}
use agent_tx_protocol.Engine.Recovery.Correct.{Recovers, recover_one-Recovers, reap_idle-spares}
use agent_tx_protocol.Tests.Data.{
  engine_with-IsFiled, parts, env, undo_of, open_tx, tx_id, engine_with, entry_of,
}

-- one kind of action can be rebuilt
abbrev registry : UndoRegistry
registry = (bytes "undo", λ payload. ok (undo_of (bytes "undo"))) ∷ []

-- kept out of step order
abbrev records : List SagaRecord
records = (entry_of 2 1).record_of ∷ (entry_of 1 0).record_of ∷ []

abbrev disk : Disk
disk = record { open_transactions = λ log. ok (tx_id ∷ []); saga_records = λ log id. ok records }

abbrev nothing : RecoveryReport
nothing = record { transactions = 0; compensations_run = 0; failures = [] }

recover-Restores_example : Restores registry records (recover tx_id registry 3 (ok records))
recover-Restores_example =
    recover-Restores tx_id registry 3 records (omega arith, (omega arith, tt))

recover_one-Recovers_example :
    Recovers env registry 3 tx_id records [] (recover_one env disk registry 3 tx_id nothing []).1
recover_one-Recovers_example =
    recover_one-Recovers env disk registry 3 tx_id nothing records [] refl
      (omega arith, (omega arith, tt))

reap_idle-spares_example :
    get (reap_idle parts (λ id. true) (engine_with open_tx) []).1.transactions tx_id ≡ some open_tx
unfolding get
reap_idle-spares_example =
    reap_idle-spares parts (λ id. true) tx_id open_tx (engine_with open_tx) [] (inl refl)
      (engine_with-IsFiled open_tx refl) refl
