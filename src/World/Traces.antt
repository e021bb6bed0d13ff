-- ===== src/World/Traces.antt =====
-- What a log shows: the undo actions attempted, the effects dispatched, the saga records deleted.
use agent_tx_protocol.Prelude.{ℕ, List, [], ◌∷◌}
use agent_tx_protocol.World.{
  UndoAction, StagedEffect, delete_saga_record, stored, undid, dispatched, ran, Log,
}

-- The undo actions attempted, the newest first.
abbrev pub attempts : Log → List UndoAction
attempts [] = []
attempts (undid a ∷ log) = a ∷ attempts log
attempts (stored _ ∷ log) = attempts log
attempts (dispatched _ _ ∷ log) = attempts log
attempts (ran _ ∷ log) = attempts log

-- The effects dispatched, the newest first.
abbrev pub dispatches : Log → List StagedEffect
dispatches [] = []
dispatches (dispatched _ e ∷ log) = e ∷ dispatches log
dispatches (stored _ ∷ log) = dispatches log
dispatches (undid _ ∷ log) = dispatches log
dispatches (ran _ ∷ log) = dispatches log

-- The (step, sequence number) of each saga record deleted, the newest first.
abbrev pub deletions : Log → List (ℕ × ℕ)
deletions [] = []
deletions (stored (delete_saga_record _ step seq) ∷ log) = (step, seq) ∷ deletions log
deletions (_ ∷ log) = deletions log
