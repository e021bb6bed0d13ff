-- ===== src/Engine/Rewind.antt =====
-- What a rollback to a step does to the transaction.
use agent_tx_protocol.Prelude.{
  ℕ, suc, ◌<◌, ◌≡◌, refl, ◌↔◌, true, false, some, ◌∷◌, Text, ltb, nat_eq, list_eq, ◌==◌, arith,
  Elem, Elem-retain, get,
}
use agent_tx_protocol.Errors.{ok}
use agent_tx_protocol.StateMachine.Status.{active, rolling_back, transition, can_transition_to}
use agent_tx_protocol.World.{StagedEffect, Log, restore_snapshot, stored}
use agent_tx_protocol.Saga.Ledger.{SagaLedger, compensate_from}
use agent_tx_protocol.Saga.Ledger.Compensation.{CompensatesFrom, compensate_from-CompensatesFrom}
use agent_tx_protocol.Saga.Staging.{discard_from}
use agent_tx_protocol.Graph.Links.{IsLinked, IsCut}
use agent_tx_protocol.Graph.Truncation.{truncate_from-IsCut}
use agent_tx_protocol.Transaction.{
  Transaction, StepRecord, ContextEntry, truncate_from, ensure_active, move_to,
}
use agent_tx_protocol.Transaction.Consistency.{
  IsConsistent, rewind-IsConsistent, truncate_from-status,
}
use agent_tx_protocol.Engine.Act.{Locked, pure, ◌>>=◌, reads, attempt, modify, store, transition_to}
use agent_tx_protocol.Engine.Types.{Parts, Engine}
use agent_tx_protocol.Engine.Locked.{compensate, rewind_locked}
use agent_tx_protocol.Engine.Operations.{
  with_handle, expect_before, after_rewind, rollback_to, rollback_locked, rollback,
}
use agent_tx_protocol.Engine.Table.{settle-live}

-- The state before step `n` again: nothing of the steps from `n` on, all of the earlier ones, also in
-- the dependency graph (see `IsCut`), and
-- the constraints and counters that the agent has gathered.
pub record IsRewound (tx : Transaction) (n : ℕ) (tx' : Transaction) : Type 0 where
  pub status : tx'.status ≡ active
  pub next_step : tx'.next_step ≡ n
  pub steps : (s : ℕ × StepRecord) → Elem s tx'.steps ↔ (Elem s tx.steps × (ltb s.0 n ≡ true))
  pub context :
      (c : ContextEntry) → Elem c tx'.context ↔ (Elem c tx.context × (ltb c.step_id n ≡ true))
  pub staging :
      (e : StagedEffect) → Elem e tx'.staging ↔ (Elem e tx.staging × (ltb e.step_id n ≡ true))
  pub graph : IsCut tx.graph n tx'.graph
  pub learned : (tx'.constraints ≡ tx.constraints) × (tx'.controller ≡ tx.controller)

-- The transaction after a rewind, as the code computes it.
abbrev pub rewound : Transaction → ℕ → SagaLedger → Transaction
rewound tx n saga =
    record (truncate_from
      (record tx { status = rolling_back; saga = saga; staging = (discard_from tx.staging n).1 })
      n) { status = active }

rewound-IsRewound :
    (tx : Transaction) (n : ℕ) (saga : SagaLedger)
    → IsLinked tx.graph
    → IsRewound tx (suc n) (rewound tx (suc n) saga)
unfolding truncate_from discard_from
rewound-IsRewound tx n saga linked =
    let positive : (suc n == 0) ≡ false = ground arith in
    rw positive (record {
      status = refl;
      next_step = omega arith;
      steps = λ s. Elem-retain (λ (x : ℕ × StepRecord). ltb x.0 (suc n)) s tx.steps;
      context = λ c. Elem-retain (λ (x : ContextEntry). ltb x.step_id (suc n)) c tx.context;
      staging = λ e. Elem-retain (λ (x : StagedEffect). ltb x.step_id (suc n)) e tx.staging;
      graph = truncate_from-IsCut tx.graph (suc n) linked;
      learned = (refl, refl);
    })

rewound-saga :
    (tx : Transaction) (n : ℕ) (saga : SagaLedger) → (rewound tx (suc n) saga).saga ≡ saga
unfolding truncate_from
rewound-saga tx n saga = ground arith

truncate_from-next_step : (n : ℕ) (tx : Transaction) → (truncate_from tx (suc n)).next_step ≡ suc n
unfolding truncate_from
truncate_from-next_step n tx = ground arith

module _ (parts : Parts) where
  rewind_locked-ok :
      (s : Locked) (n k : ℕ) (log : Log)
      → let r = compensate_from parts.env s.tx.saga n log in
        parts.env.store r.1 (restore_snapshot s.tx.id n) ≡ ok k
        → rewind_locked parts n s log ≡ (
          ok r.0.0,
          record s {
            tx =
                truncate_from
                  (record s.tx { saga = r.0.1; staging = (discard_from s.tx.staging n).1 })
                  n;
          },
          stored (restore_snapshot s.tx.id n) ∷ r.1,
        )
  unfolding rewind_locked compensate modify reads store pure ◌>>=◌
  rewind_locked-ok s n k log answered = rw answered refl

  rollback_locked-ok :
      (tx : Transaction) (n k : ℕ) (log : Log)
      → let r = compensate_from parts.env tx.saga (suc n) log in
        tx.status ≡ active
        → suc n < tx.next_step
        → parts.env.store r.1 (restore_snapshot tx.id (suc n)) ≡ ok k
        → rollback_locked parts (some (suc n)) (record { tx = tx; live = true }) log ≡ (
          ok (record {
            aborted = false;
            next_step = suc n;
            compensations_run = r.0.0.succeeded;
            compensation_failures = r.0.0.failures;
          }),
          record { tx = rewound tx (suc n) r.0.1; live = true },
          stored (restore_snapshot tx.id (suc n)) ∷ r.1,
        )
  unfolding rollback_locked rollback_to expect_before after_rewind ensure_active transition_to
      move_to transition can_transition_to reads attempt pure ◌>>=◌
  rollback_locked-ok tx n k log open_tx below answered =
      let s : Locked = record { tx = record tx { status = rolling_back }; live = true } in
      let r = compensate_from parts.env tx.saga (suc n) log in
      let lower : ltb (suc n) tx.next_step ≡ true = ground arith in
      rw open_tx (
        rw lower (
          rw (rewind_locked-ok s (suc n) k log answered) (
            rw
              (truncate_from-status (suc n)
                (record s.tx { saga = r.0.1; staging = (discard_from tx.staging (suc n)).1 }))
              (rw
                (truncate_from-next_step n
                  (record s.tx { saga = r.0.1; staging = (discard_from tx.staging (suc n)).1 }))
                refl))))

-- A rollback to step n of an active transaction that expects a later step, whose memory
-- is consistent, where the store restores the snapshot: it reports the compensations, announces n as the
-- next step, undoes exactly the actions of the steps from n on (see `CompensatesFrom`), and leaves
-- the transaction open as it was before step n, its dependency graph included (see `IsRewound`), with
-- a consistent memory.
pub rollback-IsRewound :
    (parts : Parts) (id : Text) (tx : Transaction) (n k : ℕ) (engine : Engine) (log : Log)
    → let r = compensate_from parts.env tx.saga (suc n) log in
      let result = rollback parts id (some (suc n)) engine log in
      get engine.transactions id ≡ some tx
      → tx.status ≡ active
      → suc n < tx.next_step
      → IsConsistent tx
      → parts.env.store r.1 (restore_snapshot tx.id (suc n)) ≡ ok k
      → (result.0
          ≡ ok (record {
            aborted = false;
            next_step = suc n;
            compensations_run = r.0.0.succeeded;
            compensation_failures = r.0.0.failures;
          }))
        × (result.2 ≡ stored (restore_snapshot tx.id (suc n)) ∷ r.1)
        × CompensatesFrom parts.env tx.saga (suc n) log r.0.0 r.0.1 r.1
        × ((tx' : Transaction) × (get result.1.transactions id ≡ some tx')
            × (tx'.saga ≡ r.0.1)
            × IsRewound tx (suc n) tx'
            × IsConsistent tx')
unfolding rollback with_handle
rollback-IsRewound parts id tx n k engine log found open_tx below consistent answered =
    let (steps, context, staging, saga, ordered, linked) = consistent.1 in
    let r = compensate_from parts.env tx.saga (suc n) log in
    rw (found, with_handle)
      (rw (rollback_locked-ok parts tx n k log open_tx below answered) (
        refl,
        refl,
        compensate_from-CompensatesFrom parts.env tx.saga (suc n) log ordered,
        (
          rewound tx (suc n) r.0.1,
          settle-live engine id (record { tx = rewound tx (suc n) r.0.1; live = true }) refl,
          rewound-saga tx n r.0.1,
          rewound-IsRewound tx n r.0.1 linked,
          rewind-IsConsistent (record tx { status = rolling_back }) (suc n) parts.env log ordered
              linked,
        ),
      ))
