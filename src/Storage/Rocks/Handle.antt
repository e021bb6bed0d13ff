-- ===== src/Storage/Rocks/Handle.antt =====
-- `TxStore` of storage/rocks.rs: the store as one transaction sees it. Only `restore_snapshot` adds a
-- check; the other methods pass the transaction's identifier on.
use agent_tx_protocol.Prelude.{
  ℕ, not, ◌==◌, list_eq, nat_eq, ◌++◌, Text, bytes, decimal, Option, if◌then◌else◌,
}
use agent_tx_protocol.Errors.{AgentTxError, invalid_argument, err}
use agent_tx_protocol.Storage.Values.{validate_tx_id}
use agent_tx_protocol.Storage.Database.{Bytes, Database}
use agent_tx_protocol.Storage.Rocks.{
  SnapshotId, SnapshotMeta, Codec, Method, pure, lift, ◌>>=◌, ◌>>◌,
}
use agent_tx_protocol.Storage.Rocks
use agent_tx_protocol.Storage.Rocks.Snapshots

-- impl Display for SnapshotId
unfoldable pub snapshot_name : SnapshotId → Text
snapshot_name id = id.tx_id ++ (bytes "@" ++ decimal id.step_id)

abbrev foreign_snapshot : SnapshotId → Text → AgentTxError
foreign_snapshot id tx =
    invalid_argument
      (bytes "snapshot " ++ (snapshot_name id ++ (bytes " does not belong to transaction " ++ tx)))

module _ {Db : Type 0} (d : Database Db) where
  -- RocksStore::scoped
  unfoldable pub scoped : Text → Method Db Text
  unfolding ◌>>=◌
  scoped tx = do lift (validate_tx_id tx); pure tx

  unfoldable pub get : Text → Text → Method Db (Option Bytes)
  get tx key = Rocks.read d tx key

  unfoldable pub put : Text → Text → Bytes → Method Db (Unit {0})
  put tx key value = Rocks.put d tx key value

  unfoldable pub delete : Text → Text → Method Db (Unit {0})
  delete tx key = Rocks.delete d tx key

  unfoldable pub put_output : Text → ℕ → Bytes → Method Db (Unit {0})
  put_output tx step value = Rocks.put_output d tx step value

  unfoldable pub get_output : Text → ℕ → Method Db (Option Bytes)
  get_output tx step = Rocks.get_output d tx step

  module _ (metas : Codec SnapshotMeta) where
    unfoldable pub create_snapshot : Text → ℕ → ℕ → Method Db SnapshotId
    create_snapshot tx step now = Snapshots.create_snapshot d metas tx step now

    unfoldable pub restore_snapshot : Text → SnapshotId → Method Db ℕ
    restore_snapshot tx id =
        if not (id.tx_id == tx)
        then lift (err (foreign_snapshot id tx))
        else Snapshots.restore_snapshot d metas id
