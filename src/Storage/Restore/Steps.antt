-- ===== src/Storage/Restore/Steps.antt =====
-- Sequences of the operations of the store, and what the operations of the other transactions leave.
use agent_tx_protocol.Prelude.{
  ℕ, ◌≤◌, ◌<◌, ◌≡◌, ◌≢◌, list_eq, nat_eq, none, some, List, [], ◌∷◌, Text, u32_mod,
}
use agent_tx_protocol.Errors.{ok}
use agent_tx_protocol.Storage.Layout.Prefixes.{HasNoSlash}
use agent_tx_protocol.Storage.Values.{validate_tx_id}
use agent_tx_protocol.Storage.Database.{Bytes, Database, IsDatabase}
use agent_tx_protocol.Storage.Rocks.{SnapshotId, SnapshotMeta, Codec, RocksStore, Method}
use agent_tx_protocol.Storage.Rocks
use agent_tx_protocol.Storage.Rocks.Snapshots
use agent_tx_protocol.Storage.Rocks.Commit
use agent_tx_protocol.Storage.Restore.Gives.{Same}
use agent_tx_protocol.Storage.Restore.Others.{
  Quiet, Quiet-write_overlay, Quiet-put_output, Quiet-create_snapshot,
}
use agent_tx_protocol.Storage.Restore.Commits.{Quiet-commit, Quiet-discard, Quiet-discard_state}

-- The operations of the store that change a transaction.
pub data StoreOp : Type 0 where
  put : (key : Text) → Bytes → StoreOp
  delete : (key : Text) → StoreOp
  put_output : (step : ℕ) → Bytes → StoreOp
  create_snapshot : (step now : ℕ) → StoreOp
  restore_snapshot : (step : ℕ) → StoreOp
  commit discard discard_state : StoreOp

-- While a snapshot of `step` is kept: the operations of its transaction, and those of another.
abbrev pub IsInside : ℕ → StoreOp → Type 0
IsInside step (create_snapshot i now) = (step < i) × (i < u32_mod)
IsInside step (restore_snapshot i) = (step ≤ i) × (i < u32_mod)
IsInside step (put _ _) = Unit
IsInside step (delete _) = Unit
IsInside step (put_output _ _) = Unit
IsInside step commit = ⊥
IsInside step discard = ⊥
IsInside step discard_state = ⊥

abbrev pub IsOutside : StoreOp → Type 0
IsOutside (restore_snapshot i) = ⊥
IsOutside _ = Unit

pub record Fits (tx : Text) (step : ℕ) (o : Text) (op : StoreOp) : Type 0 where
  pub valid : validate_tx_id o ≡ ok tt
  pub inside : o ≡ tx → IsInside step op
  pub outside : o ≢ tx → IsOutside op

module _ {Db : Type 0} (d : Database Db) (metas : Codec SnapshotMeta) where
  -- the store after an operation of a transaction, whether it succeeds or fails
  unfoldable pub after : Text → StoreOp → RocksStore Db → RocksStore Db
  after tx (put key value) s = (Rocks.put d tx key value s).1
  after tx (delete key) s = (Rocks.delete d tx key s).1
  after tx (put_output step value) s = (Rocks.put_output d tx step value s).1
  after tx (create_snapshot step now) s = (Snapshots.create_snapshot d metas tx step now s).1
  after tx (restore_snapshot step) s =
      (Snapshots.restore_snapshot d metas (record { tx_id = tx; step_id = step }) s).1
  after tx commit s = (Commit.commit d tx s).1
  after tx discard s = (Commit.discard d tx s).1
  after tx discard_state s = (Commit.discard_state d tx s).1

  unfoldable pub run : List (Text × StoreOp) → RocksStore Db → RocksStore Db
  unfolding after
  run [] s = s
  run ((tx, op) ∷ ops) s = run ops (after tx op s)

module _ {Db : Type 0} (d : Database Db) (l : IsDatabase d) (metas : Codec SnapshotMeta) (tx : Text)
    (mine : HasNoSlash tx) where
  module _ (o : Text) (s : RocksStore Db) (its : HasNoSlash o) (differ : o ≢ tx) where
    Quiet-Same :
        {A : Type 0} (m : Method Db A) → Quiet d l tx o mine its differ m → Same d l tx s (m s).1
    Quiet-Same m q = (q.at s).0

    -- An operation of another transaction changes nothing of this one.
    pub outside-Same : (op : StoreOp) → IsOutside op → Same d l tx s (after d metas o op s)
    unfolding after Rocks.put Rocks.delete Rocks.write_overlay
    outside-Same (put key value) fit =
        Quiet-Same _ (Quiet-write_overlay d l tx o mine its differ key (some value))
    outside-Same (delete key) fit =
        Quiet-Same _ (Quiet-write_overlay d l tx o mine its differ key none)
    outside-Same (put_output i value) fit =
        Quiet-Same _ (Quiet-put_output d l tx o mine its differ i value)
    outside-Same (create_snapshot i now) fit =
        Quiet-Same _ (Quiet-create_snapshot d l tx o mine its differ metas i now)
    outside-Same (restore_snapshot i) fit = absurd fit
    outside-Same commit fit = Quiet-Same _ (Quiet-commit d l tx o mine its differ)
    outside-Same discard fit = Quiet-Same _ (Quiet-discard d l tx o mine its differ)
    outside-Same discard_state fit = Quiet-Same _ (Quiet-discard_state d l tx o mine its differ)
