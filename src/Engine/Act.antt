-- ===== src/Engine/Act.antt =====
-- Code that runs under the lock of one transaction: it changes the transaction, acts on the world,
-- and stops at the first error by `?`. What was done before the error stays done.
use agent_tx_protocol.Prelude.{ℕ, Bool, false}
use agent_tx_protocol.Errors.{AgentTxError, Result, ok, err}
use agent_tx_protocol.World.{StoreCall, Env, Io, Log, call_store}
use agent_tx_protocol.Transaction.{Transaction, move_to}
use agent_tx_protocol.StateMachine.Status.{TxStatus}

-- The locked transaction, and whether the engine's table still holds it.
pub record Locked : Type 0 where
  pub tx : Transaction
  pub live : Bool

abbrev pub Act : Type 0 → Type 0
Act A = Locked → Log → Result A × Locked × Log

module _ {A : Type 0} where
  unfoldable pub pure : A → Act A
  pure a s log = (ok a, s, log)

  unfoldable pub raise : AgentTxError → Act A
  raise e s log = (err e, s, log)

  unfoldable pub lift : Result A → Act A
  lift r s log = (r, s, log)

  unfoldable pub reads : (Transaction → A) → Act A
  reads f s log = (ok (f s.tx), s, log)

  -- `match m { Ok(..) => .., Err(..) => .. }`: the error becomes a value.
  unfoldable pub attempt : Act A → Act (Result A)
  attempt m s log = let r = m s log in (ok r.0, r.1, r.2)

module _ {A B : Type 0} where
  abbrev pub continue : Result A → (A → Act B) → Act B
  continue (ok a) f s log = f a s log
  continue (err e) f s log = (err e, s, log)

  infixl 5 ◌>>=◌ ◌>>◌
  unfoldable pub ◌>>=◌ : Act A → (A → Act B) → Act B
  ◌>>=◌ m f s log = let r = m s log in continue r.0 f r.1 r.2

  abbrev pub ◌>>◌ : Act A → Act B → Act B
  m >> k = m >>= λ _. k

unfoldable pub modify : (Transaction → Transaction) → Act (Unit {0})
modify f s log = (ok tt, record s { tx = f s.tx }, log)

-- `self.transactions.remove(&tx.id)`
unfoldable pub leave_table : Act (Unit {0})
leave_table s log = (ok tt, record s { live = false }, log)

-- `tx.transition(next)?`
abbrev pub moved : Result Transaction → Act (Unit {0})
moved (ok tx) s log = (ok tt, record s { tx = tx }, log)
moved (err e) s log = (err e, s, log)

unfoldable pub transition_to : TxStatus → Act (Unit {0})
transition_to next s log = moved (move_to s.tx next) s log

unfoldable pub store : Env → StoreCall → Act ℕ
store env c s log = let r = call_store env c log in (r.0, s, r.1)

-- An action on the world that gives a value.
unfoldable pub world : {A : Type 0} → Io A → Act A
world m s log = let r = m log in (ok r.0, s, r.1)
