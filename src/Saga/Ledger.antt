-- ===== src/Saga/Ledger.antt =====
-- `SagaLedger` of ledger/saga.rs.
pub mod Compensation
use agent_tx_protocol.Prelude.{
  ℕ, zero, suc, ◌+◌, ◌%◌, ◌≡◌, Bool, true, false, Option, none, some, List, [], ◌∷◌, ◌++◌, map,
  Text, bytes, ltb, leb, max, if◌then◌else◌, length, take, drop, retain, u64_mod, u32_mod,
}
use mathlib.Core.List.{reverse}
use agent_tx_protocol.Json.{Value}
use agent_tx_protocol.Errors.{AgentTxError, Result, ok, err}
use agent_tx_protocol.World.{
  UndoAction, put_saga_record, delete_saga_record, Env, Io, pure, call_store, call_undo, ◌>>=◌,
  ◌>>◌,
}

pub record SagaRecord : Type 0 where
  pub tx_id : Text
  pub step_id : ℕ
  pub seq : ℕ
  pub kind : Text
  pub description : Text
  pub payload : Value
  pub recorded_at_ms : ℕ

pub record SagaEntry : Type 0 where
  pub record_of : SagaRecord
  pub action : UndoAction

pub record CompensationReport : Type 0 where
  pub succeeded : ℕ
  pub failures : List Text

abbrev pub empty_report : CompensationReport
empty_report = record { succeeded = 0; failures = [] }

abbrev pub is_clean : CompensationReport → Bool
is_clean r = elim r.failures [ [] ↦ true | _ ∷ _ ↦ false ]

-- CompensationReport::merge
abbrev pub merge : CompensationReport → CompensationReport → CompensationReport
merge r other = record {
  succeeded = (r.succeeded + other.succeeded) % u32_mod;
  failures = r.failures ++ other.failures;
}

-- The persistent part of a ledger's fields; the store is the world's.
pub record SagaLedger : Type 0 where
  pub tx_id : Text
  pub entries : List SagaEntry
  pub next_seq : ℕ
  pub max_attempts : ℕ

-- SagaLedger::new
abbrev pub new_ledger : Text → ℕ → SagaLedger
new_ledger tx max_attempts = record {
  tx_id = tx;
  entries = [];
  next_seq = 0;
  max_attempts = max max_attempts 1;
}

abbrev pub entry_step : SagaEntry → ℕ
entry_step e = e.record_of.step_id

-- records_from
unfoldable pub records_from : SagaLedger → ℕ → List SagaRecord
records_from l step = map (λ e. e.record_of) (retain (λ e. leb step (entry_step e)) l.entries)

-- slice::partition_point. On entries in step order, as the ledger keeps them, the binary search of
-- the standard library finds the length of the longest prefix that passes the test.
unfoldable pub partition_point : (SagaEntry → Bool) → List SagaEntry → ℕ
partition_point p [] = 0
partition_point p (x ∷ xs) = if p x then suc (partition_point p xs) else 0

-- forget_all
abbrev pub forget_all : SagaLedger → SagaLedger
forget_all l = record l { entries = [] }

-- `self.store.put_saga_record(..)?`, then the entry is pushed.
unfoldable pub stored_in : SagaLedger → SagaEntry → Result ℕ → Result (Unit {0}) × SagaLedger
stored_in l entry (ok _) = (ok tt, record l { entries = l.entries ++ entry ∷ [] })
stored_in l entry (err e) = (err e, l)

module _ (env : Env) where
  -- SagaLedger::record. The sequence number is used up even if the store refuses the record.
  unfoldable pub record_action :
      SagaLedger → ℕ → ℕ → UndoAction → Io (Result (Unit {0}) × SagaLedger)
  unfolding stored_in
  record_action l step now action log =
      let bumped = record l { next_seq = (l.next_seq + 1) % u64_mod } in
      let saga_record : SagaRecord = record {
        tx_id = l.tx_id;
        step_id = step;
        seq = l.next_seq;
        kind = action.kind;
        description = action.description;
        payload = action.payload;
        recorded_at_ms = now;
      } in
      let entry : SagaEntry = record { record_of = saga_record; action = action } in
      let r = call_store env (put_saga_record l.tx_id step l.next_seq) log in
      (stored_in bumped entry r.0, r.1)

  -- The loop of `run_one` over the attempts left. The pauses between attempts are left out.
  unfoldable pub run_attempts : Text → ℕ → SagaEntry → Text → Io CompensationReport
  run_attempts tx zero entry last_error log = (
    record {
      succeeded = 0;
      failures = (entry.action.description ++ (bytes ": " ++ last_error)) ∷ [];
    },
    log,
  )
  run_attempts tx (suc left) entry last_error log =
      let undone = call_undo env entry.action log in
      elim undone.0 [
        | none ↦ (
          record { succeeded = 1; failures = [] },
          (call_store env (delete_saga_record tx (entry_step entry) entry.record_of.seq)
              undone.1).1,
        )
        | some reason ↦ run_attempts tx left entry reason undone.1
      ]

  unfoldable pub run_one : SagaLedger → SagaEntry → Io CompensationReport
  unfolding run_attempts
  run_one l entry = run_attempts l.tx_id l.max_attempts entry []

  -- The loop over the entries to run, the newest first.
  unfoldable pub run_all : SagaLedger → List SagaEntry → CompensationReport → Io CompensationReport
  unfolding run_one
  run_all l [] report log = (report, log)
  run_all l (entry ∷ more) report log =
      let r = run_one l entry log in run_all l more (merge report r.0) r.1

  unfoldable pub compensate_from : SagaLedger → ℕ → Io (CompensationReport × SagaLedger)
  unfolding partition_point run_all
  compensate_from l step log =
      let split = partition_point (λ e. ltb (entry_step e) step) l.entries in
      let r = run_all l (reverse (drop split l.entries)) empty_report log in
      ((r.0, record l { entries = take split l.entries }), r.1)

  abbrev pub compensate_all : SagaLedger → Io (CompensationReport × SagaLedger)
  compensate_all l = compensate_from l 0
