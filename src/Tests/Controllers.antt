-- ===== src/Tests/Controllers.antt =====
-- Examples of the rollback controller, the status diagram and the root-cause walk.
use agent_tx_protocol.Prelude.{
  suc, ◌+◌, ◌*◌, ◌%◌, ◌≤◌, ◌≡◌, refl, ◌↔◌, max, Bool, true, none, some, [], ◌∷◌, arith, any,
  u32_mod, get, nat_eq,
}
use agent_tx_protocol.Graph.RootCause.{find_root_cause}
use agent_tx_protocol.Graph.RootCause.Relation.{Answers}
use agent_tx_protocol.Graph.RootCause.Correct.{find_root_cause-Answers}
use agent_tx_protocol.StateMachine.Status.{
  TxStatus, active, executing, committed, is_terminal, is_terminal_iff,
}
use agent_tx_protocol.StateMachine.Status
use agent_tx_protocol.StateMachine.Policy.{replay_budget, peak_budget}
use agent_tx_protocol.StateMachine.Controller.{new_controller, decide, retries_for}
use agent_tx_protocol.StateMachine.Controller.Targets.{Justified, decide-Justified}
use agent_tx_protocol.StateMachine.Controller.Termination.{
  Failure, Fits, epoch, is_abort, decisions, total_reexecuted, total_reexecuted_bounded,
  decisions_abort,
}
use agent_tx_protocol.Tests.Data.{whole, user_id, plain_policy, strict_policy, two_steps}

find_root_cause-Answers_example :
    Answers two_steps (1, user_id) (find_root_cause two_steps 2 user_id)
unfolding get
find_root_cause-Answers_example = find_root_cause-Answers two_steps 2 1 user_id refl

decide-Justified_example :
    let c = new_controller plain_policy in
    let r = decide whole c 2 (some user_id) two_steps in
    Justified c
      ((retries_for c (max 2 1) + 1) % u32_mod)
      (max 2 1)
      (some user_id)
      two_steps
      1
      r.0
      r.1
unfolding get
decide-Justified_example =
    decide-Justified whole (new_controller plain_policy) 2 (some user_id) two_steps 1 refl

abbrev failure : Failure
failure = record { step = 1; key = none; graph = two_steps }

small : Fits whole strict_policy 1
unfolding peak_budget replay_budget
small = record {
  some_step = omega arith;
  steps = omega arith;
  resets = omega arith;
  budget = omega arith;
}

total_reexecuted_bounded_example :
    total_reexecuted whole (new_controller strict_policy) (failure ∷ failure ∷ [])
    ≤ suc strict_policy.max_global_resets * epoch whole strict_policy 1
total_reexecuted_bounded_example =
    total_reexecuted_bounded whole strict_policy 1 small (failure ∷ failure ∷ [])
      (omega arith, (omega arith, tt))

decisions_abort_example :
    any is_abort (decisions whole (new_controller strict_policy) (failure ∷ failure ∷ [])) ≡ true
unfolding peak_budget replay_budget
decisions_abort_example =
    decisions_abort whole strict_policy 1 small (failure ∷ failure ∷ [])
      (omega arith, (omega arith, tt)) (omega arith)

is_terminal_iff_example :
    (is_terminal committed ≡ true)
    ↔ ((next : TxStatus) → Status.can_transition_to committed next ≡ Bool.false)
is_terminal_iff_example = is_terminal_iff committed
