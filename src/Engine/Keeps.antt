-- ===== src/Engine/Keeps.antt =====
-- Invariants of code under the lock, one rule for each way to build it.
use agent_tx_protocol.Prelude.{Bool, true, false, if◌then◌else◌}
use agent_tx_protocol.Errors.{AgentTxError, Result, ok, err}
use agent_tx_protocol.World.{Log}
use agent_tx_protocol.Transaction.{Transaction}
use agent_tx_protocol.Engine.Act.{Locked, Act, pure, raise, reads, attempt, ◌>>=◌, continue}

-- Whatever `m` returns, it keeps `P` of the locked transaction and the log.
pub record Keeps {A : Type 0} (P : Locked → Log → Type 0) (m : Act A) : Type 0 where
  pub at : (s : Locked) (log : Log) → P s log → P (m s log).1 (m s log).2

module _ {A : Type 0} {P : Locked → Log → Type 0} where
  pub Keeps-pure : (a : A) → Keeps P (pure a)
  unfolding pure
  Keeps-pure a = record { at = λ s log h. h }

  pub Keeps-raise : (e : AgentTxError) → Keeps P (raise {A = A} e)
  unfolding raise
  Keeps-raise e = record { at = λ s log h. h }

  pub Keeps-reads : (f : Transaction → A) → Keeps P (reads f)
  unfolding reads
  Keeps-reads f = record { at = λ s log h. h }

  pub Keeps-attempt : (m : Act A) → Keeps P m → Keeps P (attempt m)
  unfolding attempt
  Keeps-attempt m k = record { at = λ s log h. k.at s log h }

  pub Keeps-if : (b : Bool) (m n : Act A) → Keeps P m → Keeps P n → Keeps P (if b then m else n)
  Keeps-if true m n km kn = km
  Keeps-if false m n km kn = kn

module _ {A B : Type 0} {P : Locked → Log → Type 0} where
  continue-Keeps :
      (r : Result A) (f : A → Act B)
      → ((a : A) → Keeps P (f a))
      → (s : Locked) (log : Log) → P s log
      → P (continue r f s log).1 (continue r f s log).2
  continue-Keeps (ok a) f k s log h = (k a).at s log h
  continue-Keeps (err e) f k s log h = h

  pub Keeps-bind :
      (m : Act A) (f : A → Act B) → Keeps P m → ((a : A) → Keeps P (f a)) → Keeps P (m >>= f)
  unfolding ◌>>=◌
  Keeps-bind m f km kf = record {
    at = λ s log h. continue-Keeps (m s log).0 f kf (m s log).1 (m s log).2 (km.at s log h);
  }

  -- a case on a result, as after `attempt`
  pub Keeps-cases :
      (r : Result A) (f : A → Act B) (g : AgentTxError → Act B)
      → ((a : A) → Keeps P (f a))
      → ((e : AgentTxError) → Keeps P (g e))
      → Keeps P (elim r [ ok a ↦ f a | err e ↦ g e ])
  Keeps-cases (ok a) f g kf kg = kf a
  Keeps-cases (err e) f g kf kg = kg e

pub ruleset keeps_rules =
    (Keeps-pure, Keeps-raise, Keeps-reads, Keeps-attempt, Keeps-if, Keeps-bind, Keeps-cases)
