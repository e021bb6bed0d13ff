-- ===== src/StateMachine/Controller/Termination.antt =====
-- Recovery ends: the work of the rollback controller is bounded, whatever fails and why.
use mathlib.Core.Bool.{false≢true}
use agent_tx_protocol.Prelude.{
  ℕ, suc, ◌+◌, ◌-◌, ◌*◌, ◌%◌, ◌≤◌, ◌<◌, ◌≡◌, refl, sym, inl, inr, max, Bool, true, false, Option,
  none, some, List, [], ◌∷◌, arith, Text, ltb, leb, if◌then◌else◌, nat_eq, length, All, any,
  u32_mod, u64_mod, Bool-cases, Option-cases,
}
use agent_tx_protocol.Graph.{DependencyGraph}
use agent_tx_protocol.Graph.RootCause.{find_root_cause}
use agent_tx_protocol.StateMachine.Policy.{
  Floats, RollbackPolicy, peak_budget, replay_budget-le-peak,
}
use agent_tx_protocol.StateMachine.Controller.{
  RollbackDecision, jump_to, backtrack_to, reset_all, abort_with, RollbackController,
  new_controller, EscalationReason, escalate, jump_candidate, backtrack_candidate, charge, count_up,
  retries_for, or_else, replay_cost, budget_of, decide, observe_step,
}

-- What the controller is told when a step fails.
pub record Failure : Type 0 where
  pub step : ℕ
  pub key : Option Text
  pub graph : DependencyGraph

abbrev pub is_abort : RollbackDecision → Bool
is_abort (abort_with _) = true
is_abort _ = false

-- The steps that a decision makes the agent run again: from the target to the failed step, or all
-- of them after a global reset.
abbrev pub reexecuted : ℕ → RollbackDecision → ℕ
reexecuted failed (jump_to target _) = suc failed - target
reexecuted failed (backtrack_to target _) = suc failed - target
reexecuted failed (reset_all _) = failed
reexecuted failed (abort_with _) = 0

-- The decisions over a history of failures, up to the first abort, and the steps run again.
unfoldable pub decisions : Floats → RollbackController → List Failure → List RollbackDecision
decisions fl c [] = []
decisions fl c (f ∷ fs) =
    let r = decide fl c f.step f.key f.graph in
    let more = decisions fl r.1 fs in r.0 ∷ (if is_abort r.0 then [] else more)

unfoldable pub total_reexecuted : Floats → RollbackController → List Failure → ℕ
total_reexecuted fl c [] = 0
total_reexecuted fl c (f ∷ fs) =
    let r = decide fl c f.step f.key f.graph in
    let more = total_reexecuted fl r.1 fs in
    reexecuted (max f.step 1) r.0 + (if is_abort r.0 then 0 else more)

-- A candidate goes back to a step from 1 to the failed one.
abbrev InRange : ℕ → Option RollbackDecision → Type 0
InRange failed none = Unit {0}
InRange failed (some (jump_to t k)) = t ≤ failed
InRange failed (some (backtrack_to t d)) = t ≤ failed
InRange failed (some (reset_all _)) = ⊥
InRange failed (some (abort_with _)) = ⊥

one-le-max : (m : ℕ) → 1 ≤ max m 1
one-le-max m = omega arith

reexecuted-is_abort :
    (failed : ℕ) (d : RollbackDecision) → is_abort d ≡ true → reexecuted failed d ≡ 0
reexecuted-is_abort failed (abort_with _) h = refl
reexecuted-is_abort failed _ h = cc

module _ (fl : Floats) (p : RollbackPolicy) (n : ℕ) where
  -- The work that one epoch can take: its budget, and one run of all steps.
  abbrev pub epoch : ℕ
  epoch = peak_budget fl p n + n

  -- The numbers stay clear of the wrap-around.
  pub record Fits : Type 0 where
    pub some_step : 1 ≤ n
    pub steps : suc n < u32_mod
    pub resets : p.max_global_resets < u32_mod
    pub budget : peak_budget fl p n + suc n < u64_mod

  record Inv (c : RollbackController) : Type 0 where
    policy : c.policy ≡ p
    spent : c.replayed_steps ≤ peak_budget fl p n
    resets : c.global_resets ≤ p.max_global_resets
    seen : c.horizon ≤ n

  abbrev spent_of : RollbackController → ℕ
  spent_of c = c.global_resets * epoch + c.replayed_steps

  record Advances (c : RollbackController) (failed : ℕ) (d : RollbackDecision)
      (c' : RollbackController) : Type 0 where
    inv : Inv c'
    pays : is_abort d ≡ false → spent_of c + reexecuted failed d ≤ spent_of c'
    works : is_abort d ≡ false → 1 ≤ reexecuted failed d

  -- The next count of global resets does not wrap around.
  next_reset :
      Fits
      → (c : RollbackController) → Inv c
      → leb c.policy.max_global_resets c.global_resets ≡ false
      → ((c.global_resets + 1) % u32_mod ≡ suc c.global_resets)
        × (suc c.global_resets ≤ p.max_global_resets)
  next_reset fits c v more =
      let room : c.global_resets < p.max_global_resets = rw (← v.policy) (ground arith) in
      (omega arith, room)

  escalate-Advances :
      Fits
      → (c : RollbackController) (failed : ℕ) (reason : EscalationReason) → Inv c
      → 1 ≤ failed
      → failed ≤ n
      → Advances c failed (escalate c reason).0 (escalate c reason).1
  unfolding escalate
  escalate-Advances fits c failed reason v lo hi =
      elim (Bool-cases (leb c.policy.max_global_resets c.global_resets)) [
        | inl full ↦ rw full (record {
          inv = v;
          pays = λ h. absurd (false≢true (sym h));
          works = λ h. absurd (false≢true (sym h));
        })
        | inr more ↦
            let (wraps, room) = next_reset fits c v more in
            rw (more, wraps)
              (record {
                inv = record {
                  policy = v.policy;
                  spent = omega arith;
                  resets = room;
                  seen = v.seen;
                };
                pays = λ h. omega arith;
                works = λ h. lo;
              })
      ]

  -- The cost of a replay does not wrap around, nor does the sum.
  exact_cost :
      Fits
      → (c : RollbackController) (failed t : ℕ) → Inv c
      → t ≤ failed
      → failed ≤ n
      → (c.replayed_steps + replay_cost failed t) % u64_mod ≡ c.replayed_steps + (suc failed - t)
  exact_cost fits c failed t v le hi = omega arith

  within : (c : RollbackController) → Inv c → budget_of fl c ≤ peak_budget fl p n
  within c v = rw v.policy (replay_budget-le-peak fl p c.horizon n v.seen)

  charge-Advances :
      Fits
      → (c : RollbackController) (failed : ℕ) (o : Option RollbackDecision) → Inv c
      → 1 ≤ failed
      → failed ≤ n
      → InRange failed o
      → Advances c failed (charge fl c failed o).0 (charge fl c failed o).1
  unfolding charge
  charge-Advances fits c failed none v lo hi r = escalate-Advances fits c failed _ v lo hi
  charge-Advances fits c failed (some (jump_to t k)) v lo hi r =
      elim (Bool-cases (ltb (budget_of fl c) (c.replayed_steps + (suc failed - t)))) [
        | inl over ↦
            rw (exact_cost fits c failed t v r hi, over) (escalate-Advances fits c failed _ v lo hi)
        | inr fine ↦
            rw (exact_cost fits c failed t v r hi, fine)
              (record {
                inv = record {
                  policy = v.policy;
                  spent = ground (arith, within c v);
                  resets = v.resets;
                  seen = v.seen;
                };
                pays = λ h. omega arith;
                works = λ h. omega arith;
              })
      ]
  charge-Advances fits c failed (some (backtrack_to t d)) v lo hi r =
      elim (Bool-cases (ltb (budget_of fl c) (c.replayed_steps + (suc failed - t)))) [
        | inl over ↦
            rw (exact_cost fits c failed t v r hi, over) (escalate-Advances fits c failed _ v lo hi)
        | inr fine ↦
            rw (exact_cost fits c failed t v r hi, fine)
              (record {
                inv = record {
                  policy = v.policy;
                  spent = ground (arith, within c v);
                  resets = v.resets;
                  seen = v.seen;
                };
                pays = λ h. omega arith;
                works = λ h. omega arith;
              })
      ]
  charge-Advances fits c failed (some (reset_all _)) v lo hi r = absurd r
  charge-Advances fits c failed (some (abort_with _)) v lo hi r = absurd r

  candidate-InRange :
      (c : RollbackController) (failed attempt : ℕ) (key : Option Text) (graph : DependencyGraph)
      → 1 ≤ failed
      → InRange failed
          (or_else (jump_candidate c failed key graph) (backtrack_candidate c failed attempt))
  unfolding jump_candidate backtrack_candidate
  candidate-InRange c failed attempt none graph lo = ground arith
  candidate-InRange c failed attempt (some key) graph lo =
      elim (Option-cases (find_root_cause graph failed key)) [
        | inl unknown ↦ rw (unknown, jump_candidate) (ground arith)
        | inr (root, found) ↦ rw (found, jump_candidate) (ground arith)
      ]

  -- A failure at a step of the transaction.
  abbrev OfRun : Failure → Type 0
  OfRun f = max f.step 1 ≤ n

  noted-Inv :
      (c : RollbackController) (failed : ℕ)
      → Inv c
      → failed ≤ n
      → Inv (record (observe_step c failed) { retries = count_up c.retries failed })
  unfolding observe_step
  noted-Inv c failed v hi = record {
    policy = v.policy;
    spent = v.spent;
    resets = v.resets;
    seen = omega (arith, v.seen);
  }

  decide-Advances :
      Fits
      → (c : RollbackController) (f : Failure) → Inv c
      → OfRun f
      → Advances c
          (max f.step 1)
          (decide fl c f.step f.key f.graph).0
          (decide fl c f.step f.key f.graph).1
  unfolding decide
  decide-Advances fits c f v hi =
      let failed = max f.step 1 in
      let c₂ = (record (observe_step c failed) { retries = count_up c.retries failed }) in
      let v₂ : Inv c₂ = noted-Inv c failed v hi in
      let range =
        candidate-InRange c₂ failed (retries_for c₂ failed) f.key f.graph (one-le-max f.step) in
      let adv = charge-Advances fits c₂ failed _ v₂ (one-le-max f.step) hi range in
      record { inv = adv.inv; pays = adv.pays; works = adv.works }

  bounded :
      (c : RollbackController)
      → Inv c
      → spent_of c ≤ p.max_global_resets * epoch + peak_budget fl p n
  bounded c v = grind arith

  total_reexecuted-le :
      Fits
      → (c : RollbackController) (fs : List Failure) → Inv c
      → All OfRun fs
      → spent_of c + total_reexecuted fl c fs ≤ p.max_global_resets * epoch + peak_budget fl p n
  unfolding total_reexecuted
  total_reexecuted-le fits c [] v h = omega (arith, bounded c v)
  total_reexecuted-le fits c (f ∷ fs) v h =
      let adv = decide-Advances fits c f v h.0 in
      let r = decide fl c f.step f.key f.graph in
      elim (Bool-cases (is_abort r.0)) [
        | inl stop ↦
            rw stop (omega (arith, bounded c v, reexecuted-is_abort (max f.step 1) r.0 stop))
        | inr go ↦ rw go (omega (arith, adv.pays go, total_reexecuted-le fits r.1 fs adv.inv h.1))
      ]

  aborts :
      Fits
      → (c : RollbackController) (fs : List Failure) → Inv c
      → All OfRun fs
      → suc p.max_global_resets * epoch ≤ spent_of c + length fs
      → any is_abort (decisions fl c fs) ≡ true
  unfolding decisions any
  aborts fits c [] v h long = absurd (omega (arith, bounded c v))
  aborts fits c (f ∷ fs) v h long =
      let adv = decide-Advances fits c f v h.0 in
      let r = decide fl c f.step f.key f.graph in
      elim (Bool-cases (is_abort r.0)) [
        | inl stop ↦ rw stop refl
        | inr go ↦
            rw go (aborts fits r.1 fs adv.inv h.1 (omega (arith, adv.pays go, adv.works go, long)))
      ]

  start-Inv : Inv (new_controller p)
  start-Inv = record {
    policy = refl;
    spent = omega arith;
    resets = omega arith;
    seen = omega arith;
  }

  -- Whatever steps fail, with whatever keys and graphs, the steps that all rollbacks of a transaction
  -- make the agent run again are at most (max_global_resets + 1) * (budget + n), where n bounds the
  -- step numbers and budget is the largest replay budget of a transaction of n steps. It holds for
  -- numbers that stay clear of the wrap-around.
  pub total_reexecuted_bounded :
      Fits
      → (fs : List Failure) → All OfRun fs
      → total_reexecuted fl (new_controller p) fs ≤ suc p.max_global_resets * epoch
  total_reexecuted_bounded fits fs h =
      omega (arith, total_reexecuted-le fits (new_controller p) fs start-Inv h)

  -- After at most (max_global_resets + 1) * (budget + n) failures of steps up to n the controller has
  -- decided to abort: no agent can fail for ever. It holds for numbers that stay clear of the
  -- wrap-around.
  pub decisions_abort :
      Fits
      → (fs : List Failure) → All OfRun fs
      → suc p.max_global_resets * epoch ≤ length fs
      → any is_abort (decisions fl (new_controller p) fs) ≡ true
  decisions_abort fits fs h long =
      aborts fits (new_controller p) fs start-Inv h (omega (arith, long))
