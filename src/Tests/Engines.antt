-- ===== src/Tests/Engines.antt =====
-- Examples of the engine's operations.
use mathlib.Core.Path.{subst}
use agent_tx_protocol.Prelude.{nat_eq, ◌==◌, inl, inr, Bool-cases, ℕ}
use agent_tx_protocol.Graph.Links.{IsLinked, StandsAt}
use agent_tx_protocol.Tests.Data.{two_steps, creates, charges}
use agent_tx_protocol.Prelude.{
  ℕ, ◌≡◌, refl, false, none, some, [], ◌∷◌, arith, get, list_eq, nat_eq,
}
use agent_tx_protocol.Errors.{ok, err, step_out_of_order}
use agent_tx_protocol.World.{restore_snapshot, stored}
use agent_tx_protocol.World.Traces.{dispatches}
use agent_tx_protocol.Saga.Ledger.{compensate_from}
use agent_tx_protocol.Saga.Ledger.Compensation.{CompensatesFrom}
use agent_tx_protocol.Transaction.{Transaction}
use agent_tx_protocol.Engine.Operations.{begin, execute_step, commit, rollback}
use agent_tx_protocol.Engine.Table.{not_active, refused_unless_active, step_out_of_order_is_refused}
use agent_tx_protocol.Engine.Isolation.{Isolates, operations_are_isolated}
use agent_tx_protocol.Engine.Rewind.{IsRewound, rollback-IsRewound}
use agent_tx_protocol.Engine.Effects.Operations.{steps_and_rollbacks_are_silent, commit-dispatches}
use agent_tx_protocol.Transaction.Consistency.{IsConsistent}
use agent_tx_protocol.Engine.Settled.Begin.{Begins, begin-Begins}
use agent_tx_protocol.Engine.Settled.Operations.{IsOpenOrGone, execute_step-IsOpenOrGone}
use agent_tx_protocol.Engine.Settled.Commit.{Leaves, commit-Leaves}
use agent_tx_protocol.Grpc
use agent_tx_protocol.Grpc.{Printer}
use agent_tx_protocol.Grpc.Limits.{Served, execute_step-Served}
use agent_tx_protocol.Tests.Data.{
  engine_with-IsFiled, parts, env, ledger, mail, open_tx, closed_tx, tx_id, engine_with, request,
}

places : (s i : ℕ) → get two_steps.nodes s ≡ some i → StandsAt two_steps.weights i s
unfolding get
places s i held = elim (Bool-cases (1 == s)) [
  | inl one ↦
      let e : 1 ≡ s = ground arith in
      let at : 0 ≡ i = ground arith in
      subst (λ s. StandsAt two_steps.weights i s) e
        (subst (λ i. StandsAt two_steps.weights i 1) at (creates, (refl, refl)))
  | inr other ↦
      let e : 2 ≡ s = ground arith in
      let at : 1 ≡ i = ground arith in
      subst (λ s. StandsAt two_steps.weights i s) e
        (subst (λ i. StandsAt two_steps.weights i 2) at (charges, (refl, refl)))
]

linked : IsLinked two_steps
unfolding get
linked = record {
  known = (refl, (refl, tt));
  points = places;
  ends = (((creates, refl), (charges, refl)), tt);
}

consistent : IsConsistent open_tx
consistent = (
  omega arith,
  (
    (omega arith, (omega arith, tt)),
    (omega arith, (omega arith, tt)),
    (omega arith, (omega arith, tt)),
    (omega arith, (omega arith, tt)),
    ((omega arith, tt), (tt, tt)),
    linked,
  ),
)

begin-Begins_example :
    let r = begin parts [] [] none (engine_with open_tx) [] in Begins (engine_with open_tx) r.0 r.1
begin-Begins_example = begin-Begins parts [] [] none (engine_with open_tx) []

execute_step-IsOpenOrGone_example :
    IsOpenOrGone tx_id (execute_step parts (request 3) (engine_with open_tx) []).1
unfolding get
execute_step-IsOpenOrGone_example =
    execute_step-IsOpenOrGone parts (request 3) open_tx (engine_with open_tx) [] refl refl refl
      consistent (omega arith)

steps_and_rollbacks_are_silent_example :
    (dispatches (execute_step parts (request 3) (engine_with open_tx) []).2 ≡ [])
    × (dispatches (rollback parts tx_id none (engine_with open_tx) []).2 ≡ [])
steps_and_rollbacks_are_silent_example =
    steps_and_rollbacks_are_silent parts (request 3) tx_id none (engine_with open_tx) []

commit-dispatches_example :
    dispatches (commit parts tx_id (engine_with open_tx) []).2 ≡ mail 2 ∷ mail 1 ∷ []
unfolding get
commit-dispatches_example = commit-dispatches parts tx_id open_tx (engine_with open_tx) [] refl refl

commit-Leaves_example : Leaves (ok 7) tx_id (commit parts tx_id (engine_with open_tx) []).1
unfolding get
commit-Leaves_example = commit-Leaves parts tx_id open_tx (engine_with open_tx) [] refl refl refl

operations_are_isolated_example :
    let engine = engine_with open_tx in
    Isolates tx_id engine (execute_step parts (request 3) engine []).1
    × Isolates tx_id engine (commit parts tx_id engine []).1
    × Isolates tx_id engine (rollback parts tx_id none engine []).1
operations_are_isolated_example =
    operations_are_isolated parts (request 3) tx_id none (engine_with open_tx) []
      (engine_with-IsFiled open_tx refl)

refused_unless_active_example :
    let engine = engine_with closed_tx in
    (execute_step parts (request 3) engine [] ≡ (err (not_active closed_tx), engine, []))
    × (commit parts tx_id engine [] ≡ (err (not_active closed_tx), engine, []))
    × (rollback parts tx_id none engine [] ≡ (err (not_active closed_tx), engine, []))
unfolding get
refused_unless_active_example =
    refused_unless_active parts (request 3) none closed_tx (engine_with closed_tx) [] refl refl

step_out_of_order_is_refused_example :
    execute_step parts (request 5) (engine_with open_tx) []
    ≡ (err (step_out_of_order 3 5), engine_with open_tx, [])
unfolding get
step_out_of_order_is_refused_example =
    step_out_of_order_is_refused parts (request 5) open_tx (engine_with open_tx) [] refl refl
      (λ e. omega arith)

rollback-IsRewound_example :
    let r = compensate_from env ledger 2 [] in
    let result = rollback parts tx_id (some 2) (engine_with open_tx) [] in
    (result.0
      ≡ ok (record {
        aborted = false;
        next_step = 2;
        compensations_run = r.0.0.succeeded;
        compensation_failures = r.0.0.failures;
      }))
    × (result.2 ≡ stored (restore_snapshot tx_id 2) ∷ r.1)
    × CompensatesFrom env ledger 2 [] r.0.0 r.0.1 r.1
    × ((tx' : Transaction) × (get result.1.transactions tx_id ≡ some tx')
        × (tx'.saga ≡ r.0.1)
        × IsRewound open_tx 2 tx'
        × IsConsistent tx')
unfolding get
rollback-IsRewound_example =
    rollback-IsRewound parts tx_id open_tx 1 7 (engine_with open_tx) [] refl refl (omega arith)
      consistent refl

execute_step-Served_example :
    let print : Printer = λ v. inl [] in
    Served print parts
      (request 0)
      (engine_with open_tx)
      []
      (Grpc.execute_step parts print (request 0) (engine_with open_tx) [])
execute_step-Served_example =
    execute_step-Served (λ v. inl []) parts (request 0) (engine_with open_tx) []
