-- ===== src/Storage/Rocks/Snapshots.antt =====
-- Snapshots of storage/rocks.rs: a pointer into the undo journal, and the rewind to it.
use agent_tx_protocol.Prelude.{
  ℕ, ◌+◌, Option, none, some, List, [], ◌∷◌, ◌++◌, if◌then◌else◌, ltb, u32_mod, Text,
}
use agent_tx_protocol.Errors.{AgentTxError, snapshot_not_found, Result, ok, err}
use agent_tx_protocol.Storage.Journal.{JournalEntry, decode}
use agent_tx_protocol.Storage.Keys.{prefix_end}
use agent_tx_protocol.Storage.Layout.{snapshot, snapshot_prefix, journal, journal_prefix}
use agent_tx_protocol.Storage.Values.{validate_tx_id}
use agent_tx_protocol.Storage.Database.{
  Bytes, Entries, Database, BatchOp, put_cf, delete_cf, ColumnFamily, snapshots, from_start,
  from_end, Scan,
}
use agent_tx_protocol.Storage.Rocks.{
  SnapshotId, SnapshotMeta, Codec, RocksStore, Method, pure, lift, ◌>>=◌, ◌>>◌, set_journal_seq,
  write, peek_journal_seq, data_op,
}

-- A loop over an iterator that adds a delete for each key.
unfoldable pub delete_items : ColumnFamily → Entries → Option AgentTxError → Result (List BatchOp)
delete_items c [] none = ok []
delete_items c [] (some e) = err e
delete_items c (item ∷ rest) failure = elim (delete_items c rest failure) [
  | ok batch ↦ ok (delete_cf c item.0 ∷ batch)
  | err e ↦ err e
]

abbrev pub undo_ops : JournalEntry → Bytes → List BatchOp
undo_ops entry key = data_op entry.raw_key entry.prior ∷ delete_cf snapshots key ∷ []

-- The loop over the journal, the newest entry first; it counts the entries.
unfoldable pub revert_items :
    Entries → Option AgentTxError → List BatchOp → ℕ → Result (List BatchOp × ℕ)
unfolding data_op
revert_items [] none batch reverted = ok (batch, reverted)
revert_items [] (some e) batch reverted = err e
revert_items (item ∷ rest) failure batch reverted = elim (decode item.1) [
  | err e ↦ err e
  | ok entry ↦ revert_items rest failure (batch ++ undo_ops entry item.0) (reverted + 1)
]

module _ {Db : Type 0} (d : Database Db) where
  -- The keys of all snapshots of later steps.
  unfoldable pub later_snapshots : Text → ℕ → Method Db (List BatchOp)
  unfolding delete_items
  later_snapshots tx step s =
      let end = prefix_end (snapshot_prefix tx) in
      let scan = d.iterate s.db snapshots (snapshot tx (step + 1)) end from_start in
      if ltb (step + 1) u32_mod
      then (delete_items snapshots scan.items scan.failure, s)
      else (ok [], s)

  unfoldable pub newer_entries : Text → ℕ → RocksStore Db → Scan
  newer_entries tx seq s =
      d.iterate s.db snapshots (journal tx seq) (prefix_end (journal_prefix tx)) from_end

  module _ (metas : Codec SnapshotMeta) where
    unfoldable pub create_snapshot : Text → ℕ → ℕ → Method Db SnapshotId
    unfolding peek_journal_seq write ◌>>=◌
    create_snapshot tx step now = do
      lift (validate_tx_id tx)
      let id : SnapshotId = record { tx_id = tx; step_id = step }
      seq ← peek_journal_seq d tx
      value ← λ s. (
        metas.to_vec (record {
          id = id;
          journal_seq = seq;
          rocksdb_sequence = d.latest_sequence_number s.db;
          created_at_ms = now;
        }),
        s,
      )
      write d (put_cf snapshots (snapshot tx step) value ∷ [])
      pure id

    unfoldable pub snapshot_meta : SnapshotId → Method Db (Option SnapshotMeta)
    unfolding ◌>>=◌
    snapshot_meta id = do
      lift (validate_tx_id id.tx_id)
      raw ← λ s. (d.get_cf s.db snapshots (snapshot id.tx_id id.step_id), s)
      elim raw [
        | none ↦ pure none
        | some value ↦ do meta ← lift (metas.from_slice value); pure (some meta)
      ]

    unfoldable pub known_meta : SnapshotId → Method Db SnapshotMeta
    unfolding snapshot_meta ◌>>=◌
    known_meta id = do
      found ← snapshot_meta id
      elim found [
        | none ↦ lift (err (snapshot_not_found id.tx_id id.step_id))
        | some meta ↦ pure meta
      ]

    -- RocksStore::restore_snapshot; of the statistics, the entries reverted
    unfoldable pub restore_snapshot : SnapshotId → Method Db ℕ
    unfolding known_meta newer_entries revert_items later_snapshots write set_journal_seq ◌>>=◌
    restore_snapshot id = do
      meta ← known_meta id
      reverted ← λ s.
          let scan = newer_entries id.tx_id meta.journal_seq s in
          (revert_items scan.items scan.failure [] 0, s)
      later ← later_snapshots id.tx_id id.step_id
      write d (reverted.0 ++ later)
      set_journal_seq id.tx_id meta.journal_seq
      pure reverted.1
