-- ===== src/Engine/Recovery.antt =====
-- `recover` and `reap_idle` of engine/mod.rs.
pub mod Correct
use agent_tx_protocol.Prelude.{
  ℕ, zero, suc, ◌+◌, ◌-◌, ◌%◌, ◌≡◌, refl, Bool, true, false, not, ◌&&◌, ◌||◌, Option, none, some,
  List, [], ◌∷◌, ◌++◌, map, Text, bytes, leb, if◌then◌else◌, nat_eq, list_eq, ◌==◌, Map, get,
  u32_mod,
}
use agent_tx_protocol.Errors.{AgentTxError, Result, ok, err}
use agent_tx_protocol.World.{discard, discard_state, Env, Io, Log, call_store}
use agent_tx_protocol.Saga.Ledger.{
  SagaRecord, SagaLedger, CompensationReport, is_clean, compensate_all,
}
use agent_tx_protocol.Saga.Recovery.{UndoRegistry}
use agent_tx_protocol.Saga.Recovery
use agent_tx_protocol.StateMachine.Status.{rolled_back}
use agent_tx_protocol.Transaction.{Transaction, is_active}
use agent_tx_protocol.Engine.Act.{Locked}
use agent_tx_protocol.Engine.Types.{EngineConfig, Parts, Engine}
use agent_tx_protocol.Engine.Locked.{abort_locked}
use agent_tx_protocol.Engine.Operations.{settle}

pub record RecoveryReport : Type 0 where
  pub transactions : ℕ
  pub compensations_run : ℕ
  pub failures : List Text

-- What the store reads from the disk: the transactions left open, and the saga records of one.
pub record Disk : Type 0 where
  pub open_transactions : Log → Result (List Text)
  pub saga_records : Log → Text → Result (List SagaRecord)

abbrev pub has_none : List Text → Bool
has_none [] = true
has_none (_ ∷ _) = false

abbrev pub is_known : Map Text Transaction → Text → Bool
is_known transactions id = elim (get transactions id) [ none ↦ false | some _ ↦ true ]

module _ (env : Env) (disk : Disk) (registry : UndoRegistry) where
  -- The report once the compensations of `id` have run, and the store has answered.
  unfoldable pub count_in :
      Text → List Text → CompensationReport → RecoveryReport → Result ℕ → Result RecoveryReport
  count_in id errors c report (err e) = err e
  count_in id errors c report (ok _) = ok (record report {
    compensations_run = (report.compensations_run + c.succeeded) % u32_mod;
    failures =
        if has_none errors && is_clean c
        then report.failures
        else report.failures ++ map (λ f. id ++ (bytes ": " ++ f)) (errors ++ c.failures);
  })

  -- The rest of the loop's body, with the ledger that was rebuilt.
  unfoldable pub recover_ledger :
      Text → RecoveryReport → Result (SagaLedger × List Text) → Io (Result RecoveryReport)
  unfolding count_in
  recover_ledger id report (err e) log = (err e, log)
  recover_ledger id report (ok (ledger, errors)) log =
      let c = compensate_all env ledger log in
      let clean = has_none errors && is_clean c.0.0 in
      let answer = call_store env (if clean then discard id else discard_state id) c.1 in
      (count_in id errors c.0.0 report answer.0, answer.1)

  -- The loop's body for a transaction that is not in memory.
  unfoldable pub recover_one : ℕ → Text → RecoveryReport → Io (Result RecoveryReport)
  unfolding recover_ledger
  recover_one retries id report log =
      recover_ledger id (record report { transactions = report.transactions + 1 })
        (Recovery.recover id registry retries (disk.saga_records log id)) log

  unfoldable pub recover_loop : Engine → List Text → RecoveryReport → Io (Result RecoveryReport)
  unfolding recover_one
  recover_loop engine [] report log = (ok report, log)
  recover_loop engine (id ∷ ids) report log =
      if is_known engine.transactions id
      then recover_loop engine ids report log
      else (let r = recover_one engine.config.compensation_retries id report log in
          elim (r.0) [ ok counted ↦ recover_loop engine ids counted r.1 | err e ↦ (err e, r.1) ])

  unfoldable pub recover_from : Engine → Result (List Text) → Io (Result RecoveryReport)
  unfolding recover_loop
  recover_from engine (err e) log = (err e, log)
  recover_from engine (ok ids) log =
      recover_loop engine ids (record { transactions = 0; compensations_run = 0; failures = [] })
        log

  -- Engine::recover
  unfoldable pub recover : Engine → Io (Result RecoveryReport)
  unfolding recover_from
  recover engine log = recover_from engine (disk.open_transactions log) log

abbrev count_of : Result CompensationReport → ℕ
count_of (ok _) = 1
count_of (err _) = 0

module _ (parts : Parts) where
  -- `busy` tells whose lock another task holds: there `try_lock` fails.
  unfoldable pub reap_found :
      (Text → Bool) → ℕ → Text → Transaction → Engine → Log → ℕ × Engine × Log
  reap_found busy timeout id tx engine log =
      if not (busy id) && (is_active tx.status && leb timeout (parts.now log - tx.last_activity))
      then (let r = abort_locked parts rolled_back (record { tx = tx; live = true }) log in
          (count_of r.0, settle engine id r.1, r.2))
      else (0, engine, log)

  unfoldable pub reap_one : (Text → Bool) → ℕ → Text → Engine → Log → ℕ × Engine × Log
  unfolding reap_found
  reap_one busy timeout id engine log = elim (get engine.transactions id) [
    | none ↦ (0, engine, log)
    | some tx ↦ reap_found busy timeout id tx engine log
  ]

  unfoldable pub reap_loop : (Text → Bool) → ℕ → List Text → Engine → Log → ℕ × Engine × Log
  unfolding reap_one
  reap_loop busy timeout [] engine log = (0, engine, log)
  reap_loop busy timeout (id ∷ ids) engine log =
      let r = reap_one busy timeout id engine log in
      let rest = reap_loop busy timeout ids r.1 r.2 in (r.0 + rest.0, rest.1, rest.2)

  -- Engine::reap_idle
  unfoldable pub reap_idle : (Text → Bool) → Engine → Log → ℕ × Engine × Log
  unfolding reap_loop
  reap_idle busy engine log = elim (engine.config.tx_idle_timeout) [
    | none ↦ (0, engine, log)
    | some timeout ↦ reap_loop busy timeout (map (λ e. e.0) engine.transactions) engine log
  ]
