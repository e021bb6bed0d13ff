-- ===== src/Tests/Ledgers.antt =====
-- Examples of the ledger of undo actions, the staging queue and the constraints.
use mathlib.Core.List.{reverse}
use agent_tx_protocol.Prelude.{
  ◌%◌, u32_mod, ◌≡◌, refl, not, [], ◌∷◌, ◌++◌, arith, Elem, contains, bytes, list_eq, nat_eq,
}
use agent_tx_protocol.World.Traces.{dispatches}
use agent_tx_protocol.Saga.Ledger.{compensate_from}
use agent_tx_protocol.Saga.Ledger.Compensation.{CompensatesFrom, compensate_from-CompensatesFrom}
use agent_tx_protocol.Saga.Staging.{flush, flush_lem, answers, successes, error_texts}
use agent_tx_protocol.Transaction.{add_constraint}
use agent_tx_protocol.Transaction.Constraints.{IsTidy, add_constraint-IsTidy}
use agent_tx_protocol.Tests.Data.{env, ledger, mail, open_tx, tx_id}

compensate_from-CompensatesFrom_example :
    let r = compensate_from env ledger 2 [] in CompensatesFrom env ledger 2 [] r.0.0 r.0.1 r.1
compensate_from-CompensatesFrom_example =
    compensate_from-CompensatesFrom env ledger 2 [] ((omega arith, tt), (tt, tt))

flush_lem_example :
    let q = mail 1 ∷ mail 2 ∷ [] in
    let r = flush env tx_id q [] in
    (dispatches r.1 ≡ reverse q ++ dispatches [])
    × (r.0.0.sent ≡ successes (answers env tx_id q []) % u32_mod)
    × (r.0.0.errors ≡ error_texts (answers env tx_id q []))
    × (r.0.1 ≡ [])
flush_lem_example = flush_lem env tx_id (mail 1 ∷ mail 2 ∷ []) []

tidy : IsTidy 1 open_tx.constraints
tidy = record { short = omega arith; distinct = (refl, tt) }

add_constraint-IsTidy_example :
    let r = add_constraint open_tx (bytes "other") 1 in
    IsTidy 1 r.1.constraints
    × Elem (bytes "other") r.1.constraints
    × (r.0 ≡ not (contains open_tx.constraints (bytes "other")))
add_constraint-IsTidy_example = add_constraint-IsTidy open_tx (bytes "other") 1 tidy
