-- ===== src/Engine/Settled/Operations.antt =====
-- A step leaves its transaction open and consistent, or ended: never in a passing status.
use mathlib.Core.Path.{subst}
use agent_tx_protocol.Prelude.{
  ℕ, suc, ◌≤◌, ◌<◌, ◌≡◌, refl, sym, ◌∙◌, ◌⊎◌, inl, inr, true, none, some, List, Text, nat_eq,
  list_eq, ◌==◌, get, u32_mod, Bool-cases,
}
use agent_tx_protocol.Errors.{Result, ok, err}
use agent_tx_protocol.StateMachine.Status.{
  TxStatus, active, executing, rolling_back, can_transition_to,
}
use agent_tx_protocol.World.{Log}
use agent_tx_protocol.Saga.Ledger.{CompensationReport}
use agent_tx_protocol.Transaction.{Transaction}
use agent_tx_protocol.Transaction.Consistency.{
  IsConsistent, IsRewindable, IsWorking, IsConsistent-IsWorking,
}
use agent_tx_protocol.Engine.Act.{Locked}
use agent_tx_protocol.Engine.Types.{StepRequest, StepOutcome, EngineConfig, Parts, Engine}
use agent_tx_protocol.Engine.Locked.{fail_hard}
use agent_tx_protocol.Engine.Steps.{
  resume, rewind_after_error, recover_from, recover_step, after_attempt, execute_active,
}
use agent_tx_protocol.Engine.Operations.{
  with_handle, settle, ensure, expect_step, execute_under_lock, execute_step,
}
use agent_tx_protocol.Prelude.{◌∙◌}
use agent_tx_protocol.Engine.Effects.Operations.{execute_under_lock-id}
use agent_tx_protocol.Engine.Table.{settle-live, settle-gone}
use agent_tx_protocol.Engine.Ensures.{
  Ensures, Outcome, At, Ensures-pure, Ensures-reads, Ensures-raise, Ensures-Keeps, Ensures-attempt,
  Ensures-bind, Ensures-modify, Ensures-weaken,
}
use agent_tx_protocol.Engine.Settled.{fail_hard-Ended}
use agent_tx_protocol.Engine.Settled.Steps.{
  Has, IsOpen, IsSettled, IsRunning, IsBroken, transition-Has, rewind_locked-Has, clock-Has,
  IsWorking-IsRewindable, execute_locked-IsSettled,
}

-- What an error in a step leaves to be handled, told by the status.
abbrev Handled : ℕ → TxStatus → Locked → Type 0
Handled n executing s = IsRunning n s
Handled n rolling_back s = At rolling_back s
Handled n _ s = ⊥

told : (n : ℕ) (s : Locked) → IsBroken n s → Handled n s.tx.status s
told n s (inl h) = subst (λ st. Handled n st s) (sym h.0.0) h
told n s (inr h) = subst (λ st. Handled n st s) (sym h.0) h

-- Ready for step `n`.
abbrev IsReady : ℕ → Locked → Type 0
IsReady n s = IsOpen s × (s.tx.next_step ≡ n)

module _ (parts : Parts) (n : ℕ) (one : 1 ≤ n) (fits : suc n < u32_mod) where
  fail_hard-IsSettled :
      {E : Locked → Type 0} → Ensures (At rolling_back) (fail_hard parts) (λ _. IsSettled) E
  fail_hard-IsSettled =
      Ensures-weaken _ (λ _ s h. inr h) (λ s h. h) (fail_hard-Ended parts rolling_back)

  resume-IsSettled :
      {E : Locked → Type 0} (r : Result CompensationReport)
      → Ensures
          (Outcome (λ _. Has rolling_back IsConsistent) (At rolling_back) r)
          (resume parts r)
          (λ _. IsSettled)
          E
  unfolding resume
  resume-IsSettled (ok report) = Ensures-modify _ (λ s h. inl ((refl, h.0.1), h.1))
  resume-IsSettled (err e) = fail_hard-IsSettled

  recover_from-IsSettled :
      {E : Locked → Type 0} (status : TxStatus) (step : ℕ)
      → Ensures (Handled n status) (recover_from parts status step) (λ _. IsSettled) E
  unfolding recover_from rewind_after_error
  recover_from-IsSettled executing step =
      Ensures-bind _ _
        (Ensures-modify {Q = λ s. At rolling_back s × IsRewindable s.tx} _
          (λ s h. ((refl, h.0.1), IsWorking-IsRewindable parts n one fits s.tx h.1)))
        λ _.
          Ensures-bind _ _ (Ensures-attempt _ (rewind_locked-Has parts rolling_back step))
            resume-IsSettled
  recover_from-IsSettled rolling_back step = fail_hard-IsSettled
  recover_from-IsSettled _ step = record { at = λ s log p. absurd p }

  after_attempt-IsSettled :
      (step : ℕ) (r : Result StepOutcome)
      → Ensures
          (Outcome (λ _. IsSettled) (IsBroken n) r)
          (after_attempt parts step r)
          (λ _. IsSettled)
          IsSettled
  unfolding after_attempt recover_step
  after_attempt-IsSettled step (ok outcome) = Ensures-pure outcome (λ s h. h)
  after_attempt-IsSettled step (err e) =
      Ensures-bind _ _
        (Ensures-bind _ _ (Ensures-reads _ {Q = λ st s. Handled n st s} (told n))
          (λ status. recover_from-IsSettled status step))
        λ _. Ensures-raise e (λ s h. h)

  execute_active-IsSettled :
      (tools : List Text) (config : EngineConfig) (req : StepRequest)
      → req.step_id ≡ n
      → Ensures (IsReady n) (execute_active parts tools config req) (λ _. IsSettled) IsSettled
  unfolding execute_active can_transition_to
  execute_active-IsSettled tools config req own = Ensures-bind _ _ (clock-Has parts) λ now.
      Ensures-bind _ _
        (Ensures-modify {Q = Has active (IsWorking n)} _
          (λ s h. (h.0.0, subst (λ k. IsWorking k s.tx) h.1 (IsConsistent-IsWorking s.tx h.0.1))))
        λ _. Ensures-bind _ _ (transition-Has active executing (IsWorking n) (λ tx h. h) refl) λ _.
          Ensures-bind _ _
            (Ensures-attempt _ (execute_locked-IsSettled parts n one fits tools config req own))
            (after_attempt-IsSettled req.step_id)

  expect_step-IsReady :
      (step : ℕ)
      → Ensures (IsReady n) (expect_step parts step) (λ _ s. IsReady n s × (step ≡ n)) IsSettled
  unfolding expect_step
  expect_step-IsReady step = record {
    at = λ s log p. elim (Bool-cases (step == s.tx.next_step)) [
      | inl same ↦ rw same (p, (nat_eq.same_iff step s.tx.next_step).0 same ∙ p.1)
      | inr other ↦ rw other (inl p.0)
    ];
  }

  execute_under_lock-IsSettled :
      (tools : List Text) (config : EngineConfig) (req : StepRequest)
      → Ensures (IsReady n) (execute_under_lock parts tools config req) (λ _. IsSettled) IsSettled
  unfolding execute_under_lock
  execute_under_lock-IsSettled tools config req =
      Ensures-bind _ _ (Ensures-Keeps ensure (λ s h. inl h.0) (record { at = λ s log p. p })) λ _.
        Ensures-bind _ _ (expect_step-IsReady req.step_id) λ _. record {
          at = λ s log p. (execute_active-IsSettled tools config req p.1).at s log p.0;
        }

-- What the table says of a transaction: open and consistent, or no longer there.
abbrev pub IsOpenOrGone : Text → Engine → Type 0
IsOpenOrGone id engine =
    ((tx : Transaction) × (get engine.transactions id ≡ some tx)
      × (tx.status ≡ active)
      × IsConsistent tx)
    ⊎ (get engine.transactions id ≡ none)

settle-IsOpenOrGone :
    (engine : Engine) (id : Text) (s : Locked)
    → s.tx.id ≡ id
    → IsSettled s
    → IsOpenOrGone id (settle engine id s)
settle-IsOpenOrGone engine id s own (inl h) = inl (s.tx, settle-live engine id s h.0.1, h.0.0, h.1)
settle-IsOpenOrGone engine id s own (inr h) = inr (settle-gone engine id s h.1 own)

from_outcome :
    {A : Type 0} (P : Locked → Type 0) (r : Result A) (s : Locked) → Outcome (λ _. P) P r s → P s
from_outcome P (ok a) s h = h
from_outcome P (err e) s h = h

-- A step of an open transaction that is held under its own id, with a consistent memory, whose number can be counted up, leaves the
-- transaction open and consistent or out of the table, whatever it returns and whatever fails on the
-- way: it is never left in a passing status that refuses every further call.
pub execute_step-IsOpenOrGone :
    (parts : Parts) (req : StepRequest) (tx : Transaction) (engine : Engine) (log : Log)
    → get engine.transactions req.tx_id ≡ some tx
    → tx.id ≡ req.tx_id
    → tx.status ≡ active
    → IsConsistent tx
    → suc tx.next_step < u32_mod
    → IsOpenOrGone req.tx_id (execute_step parts req engine log).1
unfolding execute_step with_handle
execute_step-IsOpenOrGone parts req tx engine log found own open_tx consistent fits =
    let s : Locked = record { tx = tx; live = true } in
    let m = execute_under_lock parts engine.tools engine.config req in
    let settled =
      execute_under_lock-IsSettled parts tx.next_step consistent.0 fits engine.tools engine.config
        req in
    rw (found, with_handle)
      (settle-IsOpenOrGone engine req.tx_id (m s log).1
        (execute_under_lock-id parts engine.tools engine.config req s log ∙ own)
        (from_outcome IsSettled (m s log).0 (m s log).1
          (settled.at s log (((open_tx, refl), consistent), refl))))
