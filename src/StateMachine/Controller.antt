-- ===== src/StateMachine/Controller.antt =====
-- `RollbackDecision` and `RollbackController` of engine/state_machine.rs. The counters are `u32` and
-- `u64` and wrap around, as in a release build.
pub mod Targets
pub mod Termination
use agent_tx_protocol.Prelude.{
  ℕ, zero, suc, ◌+◌, ◌-◌, ◌%◌, max, Bool, true, false, Option, none, some, List, [], ◌∷◌, ◌++◌,
  Text, bytes, decimal, Map, get, insert, unwrap_or, ltb, leb, if◌then◌else◌, nat_eq, u32_mod,
  u64_mod,
}
use agent_tx_protocol.Graph.{DependencyGraph}
use agent_tx_protocol.Graph.RootCause.{find_root_cause}
use agent_tx_protocol.StateMachine.Policy.{Floats, RollbackPolicy, replay_budget}

pub data RollbackStrategy : Type 0 where
  no_rollback local_backtrack dependency_jump global_reset manual abort : RollbackStrategy

pub data EscalationReason : Type 0 where
  local_depth_exhausted replay_budget_exceeded : EscalationReason

-- Display for EscalationReason
unfoldable pub reason_text : EscalationReason → Text
reason_text local_depth_exhausted = bytes "local backtrack depth exhausted"
reason_text replay_budget_exceeded = bytes "replay budget exceeded"

pub data RollbackDecision : Type 0 where
  jump_to : (target_step : ℕ) (root_key : Text) → RollbackDecision
  backtrack_to : (target_step depth : ℕ) → RollbackDecision
  reset_all : EscalationReason → RollbackDecision
  abort_with : Text → RollbackDecision

-- RollbackDecision::strategy
unfoldable pub strategy_of : RollbackDecision → RollbackStrategy
strategy_of (jump_to _ _) = dependency_jump
strategy_of (backtrack_to _ _) = local_backtrack
strategy_of (reset_all _) = global_reset
strategy_of (abort_with _) = abort

-- RollbackDecision::target_step
abbrev pub target_of : RollbackDecision → ℕ
target_of (jump_to target _) = target
target_of (backtrack_to target _) = target
target_of (reset_all _) = 0
target_of (abort_with _) = 0

pub record RollbackController : Type 0 where
  pub policy : RollbackPolicy
  pub retries : Map ℕ ℕ
  pub jumps : Map ℕ ℕ
  pub replayed_steps : ℕ
  pub global_resets : ℕ
  pub horizon : ℕ

-- RollbackController::new
abbrev pub new_controller : RollbackPolicy → RollbackController
new_controller p = record {
  policy = p;
  retries = [];
  jumps = [];
  replayed_steps = 0;
  global_resets = 0;
  horizon = 0;
}

-- `*map.entry(k).or_insert(0) += 1`
abbrev pub count_up : Map ℕ ℕ → ℕ → Map ℕ ℕ
count_up m k = insert m k ((unwrap_or (get m k) 0 + 1) % u32_mod)

abbrev pub retries_for : RollbackController → ℕ → ℕ
retries_for c step = unwrap_or (get c.retries step) 0

unfoldable pub observe_step : RollbackController → ℕ → RollbackController
observe_step c step = record c { horizon = max c.horizon step }

-- RollbackController::replay_budget
abbrev pub budget_of : Floats → RollbackController → ℕ
budget_of fl c = replay_budget fl c.policy c.horizon

unfoldable pub escalate :
    RollbackController → EscalationReason → RollbackDecision × RollbackController
escalate c reason =
    if leb c.policy.max_global_resets c.global_resets
    then (
      abort_with (
          reason_text reason
          ++ (bytes "; global reset budget ("
              ++ (decimal c.policy.max_global_resets ++ bytes ") exhausted"))),
      c,
    )
    else (
      reset_all reason,
      record c {
        global_resets = (c.global_resets + 1) % u32_mod;
        retries = [];
        jumps = [];
        replayed_steps = 0;
      },
    )

unfoldable pub jump_candidate :
    RollbackController → ℕ → Option Text → DependencyGraph → Option RollbackDecision
jump_candidate c failed_step none graph = none
jump_candidate c failed_step (some key) graph = elim (find_root_cause graph failed_step key) [
  | none ↦ none
  | some root ↦
      if ltb root failed_step
      then (if ltb (unwrap_or (get c.jumps root) 0) (max c.policy.max_local_depth 1)
          then some (jump_to root key)
          else none)
      else none
]

-- `.or_else`: the local backtrack, if the step has not failed too often.
unfoldable pub backtrack_candidate : RollbackController → ℕ → ℕ → Option RollbackDecision
backtrack_candidate c failed_step attempt =
    if leb attempt c.policy.max_local_depth
    then some (backtrack_to (max (failed_step - attempt) 1) attempt)
    else none

abbrev pub or_else : Option RollbackDecision → Option RollbackDecision → Option RollbackDecision
or_else none other = other
or_else (some d) other = some d

-- `u64::from(failed_step - decision.target_step() + 1)`
abbrev pub replay_cost : ℕ → ℕ → ℕ
replay_cost failed_step target = (failed_step - target + 1) % u32_mod

abbrev count_jump : RollbackController → RollbackDecision → RollbackController
count_jump c (jump_to target _) = record c { jumps = count_up c.jumps target }
count_jump c _ = c

-- The part of `decide` after a candidate was chosen.
unfoldable pub charge :
    Floats
    → RollbackController
    → ℕ
    → Option RollbackDecision
    → RollbackDecision × RollbackController
unfolding escalate
charge fl c failed_step none = escalate c local_depth_exhausted
charge fl c failed_step (some decision) =
    let spent = (c.replayed_steps + replay_cost failed_step (target_of decision)) % u64_mod in
    if ltb (budget_of fl c) spent
    then escalate c replay_budget_exceeded
    else (decision, count_jump (record c { replayed_steps = spent }) decision)

-- RollbackController::decide
unfoldable pub decide :
    Floats
    → RollbackController
    → ℕ
    → Option Text
    → DependencyGraph
    → RollbackDecision × RollbackController
unfolding observe_step jump_candidate backtrack_candidate charge
decide fl c failed error_key graph =
    let failed_step = max failed 1 in
    let c₁ = observe_step c failed_step in
    let c₂ = record c₁ { retries = count_up c₁.retries failed_step } in
    let attempt = retries_for c₂ failed_step in
    let candidate =
      or_else (jump_candidate c₂ failed_step error_key graph)
        (backtrack_candidate c₂ failed_step attempt) in
    charge fl c₂ failed_step candidate
