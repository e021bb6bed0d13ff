-- ===== src/Storage/Publish/Reads.antt =====
-- Methods that read: they fail, or give a value that a predicate holds of; they change nothing.
use agent_tx_protocol.Prelude.{◌≡◌, refl}
use agent_tx_protocol.Errors.{AgentTxError, Result, ok, err}
use agent_tx_protocol.Storage.Rocks.{RocksStore, Method, ◌>>=◌, pure}

pub failed-ne-ok :
    {Db B : Type 0} {e : AgentTxError} {b : B} {s t : RocksStore Db}
    → ◌≡◌ {A = Result B × RocksStore Db} (err e, s) (ok b, t)
    → ⊥
failed-ne-ok h = cc

pub same_result : {A : Type 0} {a b : A} → ◌≡◌ {A = Result A} (ok a) (ok b) → a ≡ b
same_result h = cc

pub same_outcome :
    {Db B : Type 0} {a b : B} {s t : RocksStore Db}
    → ◌≡◌ {A = Result B × RocksStore Db} (ok a, s) (ok b, t)
    → ◌≡◌ {A = B × RocksStore Db} (a, s) (b, t)
same_outcome h = cc

module _ {Db : Type 0} (s : RocksStore Db) where
  pub data Reads {A : Type 0} (m : Method Db A) (P : A → Type 0) : Type 0 where
    fails : (e : AgentTxError) → m s ≡ (err e, s) → Reads m P
    gives : (a : A) → m s ≡ (ok a, s) → P a → Reads m P

  pub Reads-pure : {A : Type 0} {P : A → Type 0} (a : A) → P a → Reads (pure a) P
  Reads-pure a p = gives a refl p

  pub Reads-bind :
      {A B : Type 0} {P : A → Type 0} {Q : B → Type 0} (m : Method Db A) (f : A → Method Db B)
      → Reads m P
      → ((a : A) → P a → Reads (f a) Q)
      → Reads (m >>= f) Q
  unfolding ◌>>=◌
  Reads-bind m f (fails e bad) k = fails e (rw bad)
  Reads-bind m f (gives a good p) k = elim (k a p) [
    | fails e bad ↦ fails e (rw good bad)
    | gives b done q ↦ gives b (rw good done) q
  ]
