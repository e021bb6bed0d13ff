-- ===== src/Engine/Settled/Steps.antt =====
-- Where a step leaves its transaction.
use mathlib.Core.Path.{subst}
use agent_tx_protocol.Prelude.{
  ℕ, suc, ◌+◌, ◌%◌, ◌≤◌, ◌<◌, ◌≡◌, refl, sym, ◌∙◌, ◌⊎◌, inl, inr, Bool, true, false, List, [], ◌∷◌,
  ◌++◌, Text, All-append, nat_eq, arith, u32_mod, u64_mod,
}
use agent_tx_protocol.Json.{Value}
use agent_tx_protocol.Errors.{Result, ok, err}
use agent_tx_protocol.Graph.{Dependency, DependencyGraph}
use agent_tx_protocol.Graph
use agent_tx_protocol.Graph.Links.{IsLinked}
use agent_tx_protocol.Graph.Steps.{add_step-IsLinked, record_output-IsLinked}
use agent_tx_protocol.Hints.{CleanHint}
use agent_tx_protocol.StateMachine.Status.{
  TxStatus, active, executing, rolling_back, failed, can_transition_to, transition,
}
use agent_tx_protocol.StateMachine.Controller.{
  RollbackDecision, jump_to, backtrack_to, reset_all, abort_with,
}
use agent_tx_protocol.World.{StagedEffect, StageRequest, stage_effect, StoreCall, put_saga_record}
use agent_tx_protocol.Saga.Ledger.{SagaEntry, entry_step, record_action, stored_in}
use agent_tx_protocol.Saga.Staging.{discard_from}
use agent_tx_protocol.Transaction.{Transaction, ContextEntry, truncate_from, move_to}
use agent_tx_protocol.Transaction.Consistency.{
  IsConsistent, IsWorking, IsRewindable, All-insert, All-weaken, Ordered-snoc, rewind-IsConsistent,
  truncate_from-status, add_constraint-status, add_constraint-IsWorking,
}
use agent_tx_protocol.Engine.Act.{Locked, modify, transition_to, store, world}
use agent_tx_protocol.Engine.Types.{
  StepRequest, StepAttempt, step_succeeded, step_error, EngineConfig, Parts,
}
use agent_tx_protocol.Engine.Locked.{
  rewind_locked, compensate, record_undo, stage_all, add_step, run_step, abort_locked,
}
use agent_tx_protocol.Engine.Steps.{
  decide_on, clock, rewind_to, carry_out, handle_failure, finish_step, execute_locked, keep_step,
}
use agent_tx_protocol.Engine.Frame.{Framed}
use agent_tx_protocol.Engine.Frame
use agent_tx_protocol.Engine.Ensures.{
  Ensures, At, Ensures-pure, Ensures-reads, Ensures-Keeps, Ensures-bind, Ensures-modify,
  Ensures-weaken,
}
use agent_tx_protocol.Engine.Settled.{Ended, abort_locked-Ended}

-- The table holds the transaction, with this status and this of its memory.
abbrev pub Has : TxStatus → (Transaction → Type 0) → Locked → Type 0
Has status I s = At status s × I s.tx

-- Open for the next step, with a consistent memory.
abbrev pub IsOpen : Locked → Type 0
IsOpen = Has active IsConsistent

abbrev pub IsSettled : Locked → Type 0
IsSettled s = IsOpen s ⊎ Ended failed s

abbrev pub IsRunning : ℕ → Locked → Type 0
IsRunning n = Has executing (IsWorking n)

-- Where an error may stop a step.
abbrev pub IsBroken : ℕ → Locked → Type 0
IsBroken n s = IsRunning n s ⊎ At rolling_back s

pub transition-Has :
    {E : Locked → Type 0} (from to : TxStatus) (I : Transaction → Type 0)
    → ((tx : Transaction) → I tx → I (record tx { status = to }))
    → can_transition_to from to ≡ true
    → Ensures (Has from I) (transition_to to) (λ _. Has to I) E
unfolding transition_to move_to transition
transition-Has from to I keep allowed = record {
  at = λ s log p. rw (p.0.0, allowed) ((refl, p.0.1), keep s.tx p.1);
}

-- What is left of a rewind's work, before its last two changes of the memory.
abbrev Discarded : ℕ → Transaction → Transaction
Discarded target tx = record tx { staging = (discard_from tx.staging target).1 }

module _ (parts : Parts) where
  compensate-Has :
      {E : Locked → Type 0} (status : TxStatus) (target : ℕ)
      → Ensures
          (λ s. At status s × IsRewindable s.tx)
          (compensate parts target)
          (λ _. Has status (λ tx. IsConsistent (truncate_from (Discarded target tx) target)))
          E
  unfolding compensate
  compensate-Has status target = record {
    at = λ s log p. (p.0, rewind-IsConsistent s.tx target parts.env log p.1.0 p.1.1);
  }

  store-Has :
      (status : TxStatus) (I : Transaction → Type 0) (c : StoreCall)
      → Ensures (Has status I) (store parts.env c) (λ _. Has status I) (Has status I)
  unfolding store
  store-Has status I c = Ensures-Keeps _ (λ s h. h) (record { at = λ s log h. h })

  pub rewind_locked-Has :
      (status : TxStatus) (target : ℕ)
      → Ensures
          (λ s. At status s × IsRewindable s.tx)
          (rewind_locked parts target)
          (λ _. Has status IsConsistent)
          (At status)
  unfolding rewind_locked
  rewind_locked-Has status target =
      let left : Transaction → Type 0 = λ tx. IsConsistent (truncate_from tx target) in
      Ensures-bind _ _ (compensate-Has status target) λ report.
        Ensures-bind _ _ (Ensures-modify {Q = Has status left} (Discarded target) (λ s h. h)) λ _.
          Ensures-bind _ _ (Ensures-reads _ (λ s h. h)) λ id.
            Ensures-bind _ _ (Ensures-weaken _ (λ _ s h. h) (λ s h. h.0) (store-Has status left _))
              λ _.
                Ensures-bind _ _
                  (Ensures-modify {Q = Has status IsConsistent} (λ tx. truncate_from tx target)
                    (λ s h. ((truncate_from-status target s.tx ∙ h.0.0, h.0.1), h.1)))
                  λ _. Ensures-pure report (λ s h. h)

  pub clock-Has : {P E : Locked → Type 0} → Ensures P (clock parts) (λ _. P) E
  unfolding clock
  clock-Has = record { at = λ s log p. p }

module _ (parts : Parts) (n : ℕ) (one : 1 ≤ n) (fits : suc n < u32_mod) where
  pub IsWorking-IsRewindable : (tx : Transaction) → IsWorking n tx → IsRewindable tx
  IsWorking-IsRewindable tx (expects, (steps, context, staging, saga, ordered, linked)) =
      (ordered, linked)

  linked-IsWorking :
      (tx : Transaction) (g : DependencyGraph)
      → IsWorking n tx
      → IsLinked g
      → IsWorking n (record tx { graph = g })
  linked-IsWorking tx g (expects, (steps, context, staging, saga, ordered, _)) linked =
      (expects, (steps, context, staging, saga, ordered, linked))

  undo-IsWorking :
      (tx : Transaction) (e : SagaEntry) (seq : ℕ)
      → entry_step e ≡ n
      → IsWorking n tx
      → IsWorking n (record tx {
        saga = record tx.saga { next_seq = seq; entries = tx.saga.entries ++ e ∷ [] };
      })
  undo-IsWorking tx e seq own (expects, (steps, context, staging, saga, ordered, linked)) =
      let below : (x : SagaEntry) → entry_step x < suc n → entry_step x ≤ entry_step e =
        λ x lt. omega (arith, own) in
      (
        expects,
        (
          steps,
          context,
          staging,
          All-append (λ x. entry_step x < suc n) tx.saga.entries (e ∷ []) saga (omega arith, tt),
          Ordered-snoc tx.saga.entries e ordered (All-weaken below tx.saga.entries saga),
          linked,
        ),
      )

  stage_all-IsWorking :
      (rs : List StageRequest) (tx : Transaction)
      → IsWorking n tx
      → IsWorking n (stage_all parts n rs tx)
  unfolding stage_all
  stage_all-IsWorking [] tx h = h
  stage_all-IsWorking (r ∷ rs) tx (expects, (steps, context, staging, saga, ordered, linked)) =
      stage_all-IsWorking rs (record tx { staging = tx.staging ++ stage_effect n r ∷ [] })
        (
          expects,
          (
            steps,
            context,
            All-append (λ (x : StagedEffect). x.step_id < suc n) tx.staging (stage_effect n r ∷ [])
                staging (omega arith, tt),
            saga,
            ordered,
            linked,
          ),
        )

  stage_all-status :
      (rs : List StageRequest) (tx : Transaction) → (stage_all parts n rs tx).status ≡ tx.status
  unfolding stage_all
  stage_all-status [] tx = refl
  stage_all-status (r ∷ rs) tx = stage_all-status rs _

  stored_in-IsRunning :
      (answer : Result ℕ) (tx : Transaction) (live : Bool) (e : SagaEntry) (seq : ℕ)
      → entry_step e ≡ n
      → IsRunning n (record { tx = tx; live = live })
      → IsRunning n (record {
        tx = record tx { saga = (stored_in (record tx.saga { next_seq = seq }) e answer).1 };
        live = live;
      })
  unfolding stored_in
  stored_in-IsRunning (ok _) tx live e seq own h = (h.0, undo-IsWorking tx e seq own h.1)
  stored_in-IsRunning (err _) tx live e seq own h = h

  IsRunning-Framed : Framed parts n (λ s log. IsRunning n s)
  unfolding add_step world record_undo record_action modify
  IsRunning-Framed = record {
    add_step-Keeps = λ tool args deps. record {
      at = λ s log h. (
        h.0,
        linked-IsWorking s.tx (Graph.add_step s.tx.graph n tool args deps).0 h.1
            (add_step-IsLinked s.tx.graph n tool args deps (IsWorking-IsRewindable s.tx h.1).1),
      );
    };
    call_tool-Keeps = λ c. record { at = λ s log h. h };
    record_undo-Keeps = λ a. record {
      at = λ s log h.
          stored_in-IsRunning
            (parts.env.store log (put_saga_record s.tx.saga.tx_id n s.tx.saga.next_seq)) s.tx s.live
            (record {
              record_of = record {
                tx_id = s.tx.saga.tx_id;
                step_id = n;
                seq = s.tx.saga.next_seq;
                kind = a.kind;
                description = a.description;
                payload = a.payload;
                recorded_at_ms = parts.now log;
              };
              action = a;
            })
            ((s.tx.saga.next_seq + 1) % u64_mod) refl h;
    };
    stage_all-Keeps = λ rs. record {
      at = λ s log h. ((stage_all-status rs s.tx ∙ h.0.0, h.0.1), stage_all-IsWorking rs s.tx h.1);
    };
  }

  decide_on-IsRunning :
      {E : Locked → Type 0} (config : EngineConfig) (step : ℕ) (hint : CleanHint)
      → Ensures (IsRunning n) (decide_on parts config step hint) (λ _. IsRunning n) E
  unfolding decide_on
  decide_on-IsRunning config step hint = record {
    at = λ s log p. (
      (add_constraint-status s.tx hint.text config.max_constraints ∙ p.0.0, p.0.1),
      add_constraint-IsWorking n s.tx hint.text config.max_constraints p.1,
    );
  }

  rewind_locked-IsBroken :
      (target : ℕ)
      → Ensures
          (Has rolling_back (IsWorking n))
          (rewind_locked parts target)
          (λ _. Has rolling_back IsConsistent)
          (IsBroken n)
  rewind_locked-IsBroken target = record {
    at = λ s log p.
        (Ensures-weaken _ (λ _ t h. h) (λ t h. inr h)
            (rewind_locked-Has parts rolling_back target)).at
          s log (p.0, IsWorking-IsRewindable s.tx p.1);
  }

  rewind_to-IsSettled :
      (target : ℕ) (reset : Bool)
      → Ensures
          (Has rolling_back (IsWorking n))
          (rewind_to parts target reset)
          (λ _. IsSettled)
          (IsBroken n)
  unfolding rewind_to can_transition_to
  rewind_to-IsSettled target reset = Ensures-bind _ _ (rewind_locked-IsBroken target) λ report.
      Ensures-bind _ _ (transition-Has rolling_back active IsConsistent (λ tx h. h) refl)
        λ _. Ensures-pure _ (λ s h. inl h)

  abort_locked-IsSettled :
      Ensures
        (Has rolling_back (IsWorking n))
        (abort_locked parts failed)
        (λ _. IsSettled)
        (IsBroken n)
  unfolding can_transition_to
  abort_locked-IsSettled = record {
    at = λ s log p.
        (Ensures-weaken _ (λ _ t h. inr h) (λ t h. inr h) (abort_locked-Ended parts failed refl)).at
          s log p.0;
  }

  carry_out-IsSettled :
      (decision : RollbackDecision)
      → Ensures
          (Has rolling_back (IsWorking n))
          (carry_out parts decision)
          (λ _. IsSettled)
          (IsBroken n)
  unfolding carry_out
  carry_out-IsSettled (abort_with reason) =
      Ensures-bind _ _ abort_locked-IsSettled λ report. Ensures-pure _ (λ s h. h)
  carry_out-IsSettled (reset_all reason) = rewind_to-IsSettled 0 true
  carry_out-IsSettled (jump_to target key) = rewind_to-IsSettled target false
  carry_out-IsSettled (backtrack_to target back) = rewind_to-IsSettled target false

  handle_failure-IsSettled :
      (config : EngineConfig) (step : ℕ) (text : Text) (deps : List Dependency)
      → Ensures
          (IsRunning n)
          (handle_failure parts config step text deps)
          (λ _. IsSettled)
          (IsBroken n)
  unfolding handle_failure can_transition_to
  handle_failure-IsSettled config step text deps =
      Ensures-bind _ _ (decide_on-IsRunning config step (parts.clean text)) λ decision.
        Ensures-bind _ _ (transition-Has executing rolling_back (IsWorking n) (λ tx h. h) refl) λ _.
          Ensures-bind _ _ (clock-Has parts) λ started.
            Ensures-bind _ _ (carry_out-IsSettled decision)
              λ handled. Ensures-bind _ _ (clock-Has parts) λ ended. Ensures-reads _ (λ s h. h)

  keep_step-IsConsistent :
      (req : StepRequest) (arguments value : Value) (tx : Transaction)
      → req.step_id ≡ n
      → IsWorking n tx
      → IsConsistent (keep_step req arguments value tx)
  unfolding keep_step
  keep_step-IsConsistent req arguments value tx own
        (expects, (steps, context, staging, saga, ordered, linked)) =
      let up : (req.step_id + 1) % u32_mod ≡ suc n = omega (arith, own, fits) in
      let own_step : req.step_id < suc n = omega (arith, own) in
      rw up (
        omega arith,
        (
          All-insert (λ s. s.0 < suc n) tx.steps req.step_id _ own_step steps,
          All-append (λ (c : ContextEntry). c.step_id < suc n) tx.context _ context (own_step, tt),
          staging,
          saga,
          ordered,
          record_output-IsLinked tx.graph req.step_id value linked,
        ),
      )

  kept_status :
      (req : StepRequest) (arguments value : Value) (s : Locked)
      → At executing s
      → At executing (record s { tx = keep_step req arguments value s.tx })
  unfolding keep_step
  kept_status req arguments value s h = h

  run_step-IsRunning :
      (tools : List Text) (req : StepRequest)
      → req.step_id ≡ n
      → Ensures (IsRunning n) (run_step parts tools req) (λ _. IsRunning n) (IsBroken n)
  run_step-IsRunning tools req own =
      Ensures-Keeps _ (λ s h. inl h)
        (Frame.run_step-Keeps parts tools req
          (subst (λ k. Framed parts k (λ s log. IsRunning n s)) (sym own) IsRunning-Framed))

  finish_step-IsSettled :
      (config : EngineConfig) (req : StepRequest) (a : StepAttempt)
      → req.step_id ≡ n
      → Ensures (IsRunning n) (finish_step parts config req a) (λ _. IsSettled) (IsBroken n)
  unfolding finish_step can_transition_to
  finish_step-IsSettled config req (step_succeeded arguments value deps) own =
      Ensures-bind _ _ (Ensures-reads _ (λ s h. h)) λ id.
        Ensures-bind _ _
          (Ensures-weaken _ (λ _ s h. h) (λ s h. inl h) (store-Has parts executing (IsWorking n) _))
          λ _.
            Ensures-bind _ _
              (Ensures-modify {Q = Has executing IsConsistent} (keep_step req arguments value)
                (λ s h. (
                  kept_status req arguments value s h.0,
                  keep_step-IsConsistent req arguments value s.tx own h.1,
                )))
              λ _.
                Ensures-bind _ _ (transition-Has executing active IsConsistent (λ tx h. h) refl)
                  λ _. Ensures-reads _ (λ s h. inl h)
  finish_step-IsSettled config req (step_error text deps) own =
      handle_failure-IsSettled config req.step_id text deps

  pub execute_locked-IsSettled :
      (tools : List Text) (config : EngineConfig) (req : StepRequest)
      → req.step_id ≡ n
      → Ensures (IsRunning n) (execute_locked parts tools config req) (λ _. IsSettled) (IsBroken n)
  unfolding execute_locked
  execute_locked-IsSettled tools config req own =
      Ensures-bind _ _ (Ensures-reads _ (λ s h. h)) λ id.
        Ensures-bind _ _
          (Ensures-weaken _ (λ _ s h. h) (λ s h. inl h) (store-Has parts executing (IsWorking n) _))
          λ _. Ensures-bind _ _ (Ensures-modify {Q = IsRunning n} _ (λ s h. h)) λ _.
            Ensures-bind _ _ (run_step-IsRunning tools req own)
              λ attempted. finish_step-IsSettled config req attempted own
