-- ===== src/StateMachine/Controller/Targets.antt =====
-- Where a decision sends the agent, and what it does to the counters.
use mathlib.Core.Path.{subst}
use agent_tx_protocol.Prelude.{
  ℕ, ◌+◌, ◌-◌, ◌%◌, ◌≤◌, ◌<◌, ◌≡◌, refl, inl, inr, max, Option, none, some, [], arith, Text, get,
  get-insert, unwrap_or, ltb, leb, nat_eq, u32_mod, u64_mod, Bool-cases, Option-cases,
}
use agent_tx_protocol.Graph.{DependencyGraph}
use agent_tx_protocol.Graph.RootCause.{find_root_cause}
use agent_tx_protocol.Graph.RootCause.Relation.{IsEarliest, Answers}
use agent_tx_protocol.Graph.RootCause.Correct.{find_root_cause-Answers}
use agent_tx_protocol.StateMachine.Policy.{Floats}
use agent_tx_protocol.StateMachine.Controller.{
  RollbackDecision, jump_to, backtrack_to, reset_all, abort_with, RollbackController,
  EscalationReason, escalate, jump_candidate, backtrack_candidate, charge, replay_cost, budget_of,
  decide, observe_step, count_up, retries_for, or_else,
}

-- What justifies a decision on the failure of `failed` (the step, at least 1) with `key`, where
-- `start` is the failed step's node, `attempt` the count of its failures in the epoch, this one
-- included, `c` the controller before and `c'` after.
abbrev pub Justified :
    RollbackController
    → ℕ
    → ℕ
    → Option Text
    → DependencyGraph
    → ℕ
    → RollbackDecision
    → RollbackController
    → Type 0
Justified c attempt failed key graph start (jump_to t k) c' =
    (key ≡ some k)
    × (t < failed)
    × IsEarliest graph (start, k) t
    × (unwrap_or (get c.jumps t) 0 < max c.policy.max_local_depth 1)
    × (c'.global_resets ≡ c.global_resets)
Justified c attempt failed key graph start (backtrack_to t d) c' =
    (t ≡ max (failed - d) 1)
    × (d ≡ attempt)
    × (d ≤ c.policy.max_local_depth)
    × (c'.global_resets ≡ c.global_resets)
Justified c attempt failed key graph start (reset_all reason) c' =
    (c.global_resets < c.policy.max_global_resets)
    × (c'.global_resets ≡ (c.global_resets + 1) % u32_mod)
    × (c'.replayed_steps ≡ 0)
    × (c'.retries ≡ [])
    × (c'.jumps ≡ [])
Justified c attempt failed key graph start (abort_with reason) c' =
    (c.policy.max_global_resets ≤ c.global_resets) × (c'.global_resets ≡ c.global_resets)

-- A candidate is justified, before its cost is charged.
abbrev Proposed :
    RollbackController → ℕ → Option Text → DependencyGraph → ℕ → Option RollbackDecision → Type 0
Proposed c failed key graph start none = Unit {0}
Proposed c failed key graph start (some (jump_to t k)) =
    (key ≡ some k)
    × (t < failed)
    × IsEarliest graph (start, k) t
    × (unwrap_or (get c.jumps t) 0 < max c.policy.max_local_depth 1)
Proposed c failed key graph start (some (backtrack_to t d)) =
    (t ≡ max (failed - d) 1) × (d ≡ retries_for c failed) × (d ≤ c.policy.max_local_depth)
Proposed c failed key graph start (some (reset_all _)) = ⊥
Proposed c failed key graph start (some (abort_with _)) = ⊥

module _ (c : RollbackController) (failed : ℕ) (graph : DependencyGraph) (start : ℕ)
    (known : get graph.nodes failed ≡ some start) where
  backtrack-Proposed :
      (key : Option Text)
      → Proposed c failed key graph start (backtrack_candidate c failed (retries_for c failed))
  unfolding backtrack_candidate
  backtrack-Proposed key = ground arith

  jump-Proposed :
      (key : Option Text) → Proposed c failed key graph start (jump_candidate c failed key graph)
  unfolding jump_candidate
  jump-Proposed none = tt
  jump-Proposed (some key) = elim (Option-cases (find_root_cause graph failed key)) [
    | inl unknown ↦ rw (unknown, jump_candidate) tt
    | inr (root, found) ↦
        let earliest : IsEarliest graph (start, key) root =
          subst (Answers graph (start, key)) found
            (find_root_cause-Answers graph failed start key known) in
        elim (Bool-cases (ltb root failed)) [
          | inl below ↦
              elim (Bool-cases
                (ltb (unwrap_or (get c.jumps root) 0) (max c.policy.max_local_depth 1))) [
                  | inl often ↦
                      rw (found, jump_candidate)
                        (rw (below, often) (refl, ground arith, earliest, ground arith))
                  | inr too_often ↦ rw (found, jump_candidate) (rw (below, too_often) tt)
                ]
          | inr above ↦ rw (found, jump_candidate) (rw above tt)
        ]
  ]

  candidate-Proposed :
      (key : Option Text)
      → Proposed c failed key graph start (
          or_else
            (jump_candidate c failed key graph)
            (backtrack_candidate c failed (retries_for c failed)))
  candidate-Proposed key = go (jump_candidate c failed key graph) (jump-Proposed key)
    where
      go :
          (o : Option RollbackDecision)
          → Proposed c failed key graph start o
          → Proposed c failed key graph start
              (or_else o (backtrack_candidate c failed (retries_for c failed)))
      go none h = backtrack-Proposed key
      go (some d) h = h

module _ (fl : Floats) (c : RollbackController) (failed : ℕ) (key : Option Text)
    (graph : DependencyGraph) (start : ℕ) where
  escalate-Justified :
      (reason : EscalationReason)
      → Justified c
          (retries_for c failed)
          failed
          key
          graph
          start
          (escalate c reason).0
          (escalate c reason).1
  unfolding escalate
  escalate-Justified reason = elim (Bool-cases (leb c.policy.max_global_resets c.global_resets)) [
    | inl full ↦ rw full (ground arith, refl)
    | inr more ↦ rw more (ground arith, refl, refl, refl, refl)
  ]

  charge-Justified :
      (o : Option RollbackDecision)
      → Proposed c failed key graph start o
      → Justified c
          (retries_for c failed)
          failed
          key
          graph
          start
          (charge fl c failed o).0
          (charge fl c failed o).1
  unfolding charge
  charge-Justified none h = escalate-Justified _
  charge-Justified (some (jump_to t k)) h =
      elim (Bool-cases
        (ltb (budget_of fl c) ((c.replayed_steps + replay_cost failed t) % u64_mod))) [
          | inl over ↦ rw over (escalate-Justified _)
          | inr fine ↦ rw fine (h.0, h.1, h.2, h.3, refl)
        ]
  charge-Justified (some (backtrack_to t d)) h =
      elim (Bool-cases
        (ltb (budget_of fl c) ((c.replayed_steps + replay_cost failed t) % u64_mod))) [
          | inl over ↦ rw over (escalate-Justified _)
          | inr fine ↦ rw fine (h.0, h.1, h.2, refl)
        ]
  charge-Justified (some (reset_all _)) h = absurd h
  charge-Justified (some (abort_with _)) h = absurd h

retries_for-count_up :
    (c : RollbackController) (k : ℕ)
    → unwrap_or (get (count_up c.retries k) k) 0 ≡ (retries_for c k + 1) % u32_mod
retries_for-count_up c k =
    ground
      (arith, get-insert c.retries k k ((retries_for c k + 1) % u32_mod), (nat_eq.same_iff k k))

-- The controller after the failure was counted.
abbrev noted : RollbackController → ℕ → RollbackController
noted c failed = record (observe_step c failed) { retries = count_up c.retries failed }

Justified-noted :
    (c : RollbackController) (attempt failed : ℕ) (key : Option Text) (graph : DependencyGraph)
    (start : ℕ) (d : RollbackDecision) (c' : RollbackController)
    → Justified (noted c failed) attempt failed key graph start d c'
    → Justified c attempt failed key graph start d c'
unfolding observe_step
Justified-noted c attempt failed key graph start (jump_to t k) c' h = h
Justified-noted c attempt failed key graph start (backtrack_to t d) c' h = h
Justified-noted c attempt failed key graph start (reset_all _) c' h = h
Justified-noted c attempt failed key graph start (abort_with _) c' h = h

pub decide-Justified :
    (fl : Floats) (c : RollbackController) (failed : ℕ) (key : Option Text)
    (graph : DependencyGraph) (start : ℕ)
    → get graph.nodes (max failed 1) ≡ some start
    → Justified c
        ((retries_for c (max failed 1) + 1) % u32_mod)
        (max failed 1)
        key
        graph
        start
        (decide fl c failed key graph).0
        (decide fl c failed key graph).1
unfolding decide observe_step
decide-Justified fl c failed key graph start known =
    let step = max failed 1 in
    let counted : RollbackController = noted c step in
    let candidate = candidate-Proposed counted step graph start known key in
    let done = charge-Justified fl counted step key graph start _ candidate in
    let r = decide fl c failed key graph in
    Justified-noted c _ step key graph start r.0 r.1 (
      subst (λ a. Justified counted a step key graph start r.0 r.1) (retries_for-count_up c step)
        done)
