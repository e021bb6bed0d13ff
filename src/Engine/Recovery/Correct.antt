-- ===== src/Engine/Recovery/Correct.antt =====
-- What recovery and the reaper do.
use agent_tx_protocol.Prelude.{
  ℕ, ◌+◌, ◌≡◌, refl, ◌⊎◌, inl, inr, Bool, true, false, not, ◌&&◌, some, List, [], ◌∷◌, ◌-◌, leb,
  ◌∙◌, map, max, Text, All, if◌then◌else◌, nat_eq, list_eq, ◌==◌, get, arith, Bool-cases,
  Option-cases,
}
use agent_tx_protocol.Errors.{Result, ok, err}
use agent_tx_protocol.World.{discard, discard_state, Env, Log, stored}
use agent_tx_protocol.Saga.Ledger.{
  SagaRecord, SagaLedger, CompensationReport, is_clean, compensate_all,
}
use agent_tx_protocol.Saga.Ledger.Compensation.{CompensatesFrom, compensate_from-CompensatesFrom}
use agent_tx_protocol.Saga.Recovery.{UndoRegistry}
use agent_tx_protocol.Saga.Recovery
use agent_tx_protocol.Saga.Recovery.Faithful.{Countable, Restores, IsRestored, recover-Restores}
use agent_tx_protocol.StateMachine.Status.{rolled_back}
use agent_tx_protocol.Transaction.{Transaction, is_active}
use agent_tx_protocol.Engine.Types.{Parts, Engine}
use agent_tx_protocol.Engine.Locked.{abort_locked}
use agent_tx_protocol.Engine.Act.{Locked}
use agent_tx_protocol.Engine.Effects.{abort_locked-id}
use agent_tx_protocol.Engine.Isolation.{IsFiled, Isolates, settle-Isolates, same_key}
use agent_tx_protocol.Engine.Recovery.{
  RecoveryReport, Disk, has_none, recover_ledger, recover_one, reap_found, reap_one, reap_loop,
  reap_idle,
}

-- The recovery of one transaction: the ledger of all of its records, its compensation, and the
-- discard that ends it.
pub record Recovers (env : Env) (registry : UndoRegistry) (retries : ℕ) (id : Text)
    (records : List SagaRecord) (before after : Log) : Type 0 where
  pub ledger : SagaLedger
  pub configured : (ledger.tx_id ≡ id) × (ledger.max_attempts ≡ max retries 1)
  pub errors : List Text
  pub restored : IsRestored registry records ledger errors
  pub report : CompensationReport
  pub emptied : SagaLedger
  pub middle : Log
  pub compensated : CompensatesFrom env ledger 0 before report emptied middle
  pub discarded :
      after
      ≡ stored (if has_none errors && is_clean report then discard id else discard_state id)
        ∷ middle

-- A rebuilt ledger is of the transaction, and grants each action the attempts of the settings, at
-- least one.
abbrev Configured : ℕ → Text → Result (SagaLedger × List Text) → Type 0
Configured retries id (ok (l, _)) = (l.tx_id ≡ id) × (l.max_attempts ≡ max retries 1)
Configured retries id (err _) = Unit {0}

recover-Configured :
    (retries : ℕ) (id : Text) (registry : UndoRegistry) (records : List SagaRecord)
    → Configured retries id (Recovery.recover id registry retries (ok records))
unfolding Recovery.recover
recover-Configured retries id registry records = (refl, refl)

module _ (env : Env) (disk : Disk) (registry : UndoRegistry) where
  recover_ledger-Recovers :
      (retries : ℕ) (id : Text) (report : RecoveryReport) (records : List SagaRecord)
      (r : Result (SagaLedger × List Text)) (log : Log)
      → Configured retries id r
      → Restores registry records r
      → Recovers env registry retries id records log
          (recover_ledger env disk registry id report r log).1
  unfolding recover_ledger
  recover_ledger-Recovers retries id report records (err e) log c h = absurd h
  recover_ledger-Recovers retries id report records (ok (ledger, errors)) log configured h =
      let c = compensate_all env ledger log in
      record {
        ledger = ledger;
        configured = configured;
        errors = errors;
        restored = h;
        report = c.0.0;
        emptied = c.0.1;
        middle = c.1;
        compensated = compensate_from-CompensatesFrom env ledger 0 log h.ordered;
        discarded = refl;
      }

  pub recover_one-Recovers :
      (retries : ℕ) (id : Text) (report : RecoveryReport) (records : List SagaRecord) (log : Log)
      → disk.saga_records log id ≡ ok records
      → All Countable records
      → Recovers env registry retries id records log
          (recover_one env disk registry retries id report log).1
  unfolding recover_one
  recover_one-Recovers retries id report records log readable countable = rw readable (
      recover_ledger-Recovers retries id (record report { transactions = report.transactions + 1 })
        records (Recovery.recover id registry retries (ok records)) log
        (recover-Configured retries id registry records)
        (recover-Restores id registry retries records countable))

module _ (parts : Parts) (busy : Text → Bool) (timeout : ℕ) (id : Text) (tx : Transaction)
    (spared : (busy id ≡ true) ⊎ (is_active tx.status ≡ false)) where
  -- one that is spared
  spared-condition : (idle : Bool) → (not (busy id) && (is_active tx.status && idle)) ≡ false
  spared-condition idle = ground arith

  reap_found-same :
      (engine : Engine) (log : Log)
      → reap_found parts busy timeout id tx engine log ≡ (0, engine, log)
  unfolding reap_found
  reap_found-same engine log =
      rw (spared-condition (leb timeout (parts.now log - tx.last_activity))) refl

  reap_found-Isolates :
      (key : Text) (other : Transaction) (engine : Engine) (log : Log)
      → get engine.transactions key ≡ some other
      → IsFiled engine
      → Isolates key engine (reap_found parts busy timeout key other engine log).1
  unfolding reap_found
  reap_found-Isolates key other engine log held filed =
      let due =
        not (busy key)
        && (is_active other.status && leb timeout (parts.now log - other.last_activity)) in
      let s : Locked = record { tx = other; live = true } in
      elim (Bool-cases due) [
        | inl idle ↦ rw idle (
            settle-Isolates engine key (abort_locked parts rolled_back s log).1 filed
              (abort_locked-id parts rolled_back s log ∙ filed key other held))
        | inr kept ↦ rw kept (λ other h. refl, filed)
      ]

  reap_one-spares :
      (key : Text) (engine : Engine) (log : Log)
      → (get engine.transactions id ≡ some tx) × IsFiled engine
      → let after = (reap_one parts busy timeout key engine log).1 in
        (get after.transactions id ≡ some tx) × IsFiled after
  unfolding reap_one
  reap_one-spares key engine log (found, filed) = elim (Bool-cases (key == id)) [
    | inl same ↦
        let e : key ≡ id = (list_eq.same_iff key id).0 same in
        rw e (rw (found, reap_one) (rw (reap_found-same engine log) (found, filed)))
    | inr differs ↦ elim (Option-cases (get engine.transactions key)) [
      | inl missing ↦ rw (missing, reap_one) (found, filed)
      | inr (other, held) ↦
          let isolated = reap_found-Isolates key other engine log held filed in
          rw (held, reap_one) (isolated.0 id (same_key key id differs) ∙ found, isolated.1)
    ]
  ]

  reap_loop-spares :
      (keys : List Text) (engine : Engine) (log : Log)
      → (get engine.transactions id ≡ some tx) × IsFiled engine
      → get (reap_loop parts busy timeout keys engine log).1.transactions id ≡ some tx
  unfolding reap_loop
  reap_loop-spares [] engine log h = h.0
  reap_loop-spares (key ∷ keys) engine log h =
      let r = reap_one parts busy timeout key engine log in
      reap_loop-spares keys r.1 r.2 (reap_one-spares key engine log h)

-- In a table that holds every transaction under its own id, the reaper leaves a transaction as it is
-- whose lock is held or which is not active.
pub reap_idle-spares :
    (parts : Parts) (busy : Text → Bool) (id : Text) (tx : Transaction) (engine : Engine)
    (log : Log)
    → (busy id ≡ true) ⊎ (is_active tx.status ≡ false)
    → IsFiled engine
    → get engine.transactions id ≡ some tx
    → get (reap_idle parts busy engine log).1.transactions id ≡ some tx
unfolding reap_idle
reap_idle-spares parts busy id tx engine log spared filed found =
    elim (Option-cases engine.config.tx_idle_timeout) [
      | inl never ↦ rw (never, reap_idle) found
      | inr (timeout, limited) ↦
          rw (limited, reap_idle)
            (reap_loop-spares parts busy timeout id tx spared (map (λ e. e.0) engine.transactions)
              engine log (found, filed))
    ]
