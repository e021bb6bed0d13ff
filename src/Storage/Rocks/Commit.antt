-- ===== src/Storage/Rocks/Commit.antt =====
-- The commit of storage/rocks.rs, where the first committer of a key wins, and the removal of all
-- that a transaction keeps in the store.
use agent_tx_protocol.Prelude.{
  ℕ, ◌+◌, ◌%◌, ◌==◌, nat_eq, Option, none, some, List, [], ◌∷◌, ◌++◌, Text, bytes, remove, list_eq,
  if◌then◌else◌, length, drop, is_utf8, u64_mod,
}
use agent_tx_protocol.Errors.{AgentTxError, corrupt, write_conflict, ok, err}
use agent_tx_protocol.Storage.Keys.{prefix_end}
use agent_tx_protocol.Storage.Layout.{
  global, overlay_prefix, tx_data_prefix, journal_prefix, snapshot_prefix, saga_prefix, tx_record,
  commit_version_key,
}
use agent_tx_protocol.Storage.Values.{
  validate_tx_id, split_overlay, encode_versioned, le_bytes, version_len, tag_value, Overlay,
}
use agent_tx_protocol.Storage.Database.{
  Bytes, Entries, Database, BatchOp, put_cf, delete_cf, ColumnFamily, default, snapshots, saga_logs,
  from_start, Scan,
}
use agent_tx_protocol.Storage.Rocks.{
  RocksStore, Method, pure, lift, ◌>>=◌, ◌>>◌, write, committed_version,
}
use agent_tx_protocol.Storage.Rocks.Snapshots.{delete_items}

-- What the commit does to the committed value of a key.
unfoldable pub publish_op : ℕ → Text → Overlay → BatchOp
unfolding global encode_versioned
publish_op version key o =
    if o.tag == tag_value
    then put_cf default (global key) (encode_versioned version o.payload)
    else delete_cf default (global key)

module _ {Db : Type 0} (d : Database Db) where
  -- one entry of the overlay: `key` is the rest of its raw key
  unfoldable pub publish_entry : ℕ → Bytes → Text → Bytes → Method Db BatchOp
  unfolding committed_version publish_op ◌>>=◌
  publish_entry version raw_key key value =
      if is_utf8 key
      then (do
        o ← lift (split_overlay value key)
        current ← committed_version d key
        if current == o.base_version
            then pure (publish_op version key o)
            else lift (err (write_conflict key)))
      else lift (err (corrupt raw_key (bytes "non-UTF-8 key")))

  unfoldable pub publish_items :
      ℕ → ℕ → Entries → Option AgentTxError → List BatchOp → ℕ → Method Db (List BatchOp × ℕ)
  unfolding publish_entry ◌>>=◌
  publish_items version n [] none batch published = pure (batch, published)
  publish_items version n [] (some e) batch published = lift (err e)
  publish_items version n ((raw_key, value) ∷ rest) failure batch published = do
    op ← publish_entry version raw_key (drop n raw_key) value
    publish_items version n rest failure (batch ++ op ∷ []) (published + 1)

  unfoldable pub delete_prefix : ColumnFamily → Bytes → Method Db (List BatchOp)
  unfolding delete_items
  delete_prefix c prefix s =
      let scan = d.iterate s.db c prefix (prefix_end prefix) from_start in
      (delete_items c scan.items scan.failure, s)

  unfoldable pub state_cleanup : Text → Method Db (List BatchOp)
  unfolding delete_prefix ◌>>=◌
  state_cleanup tx = do
    data_keys ← delete_prefix default (tx_data_prefix tx)
    journal_keys ← delete_prefix snapshots (journal_prefix tx)
    snapshot_keys ← delete_prefix snapshots (snapshot_prefix tx)
    pure (data_keys ++ (journal_keys ++ snapshot_keys))

  unfoldable pub cleanup : Text → Method Db (List BatchOp)
  unfolding state_cleanup ◌>>=◌
  cleanup tx = do
    state_keys ← state_cleanup tx
    saga_keys ← delete_prefix saga_logs (saga_prefix tx)
    pure (state_keys ++ (saga_keys ++ delete_cf snapshots (tx_record tx) ∷ []))

  unfoldable pub forget_journal_seq : Text → Method Db (Unit {0})
  forget_journal_seq tx s = (ok tt, record s { journal_seq = remove s.journal_seq tx })

  -- The overlay as the iterator of `commit` gives it.
  unfoldable pub overlay_scan : Text → RocksStore Db → Scan
  overlay_scan tx s =
      d.iterate s.db default (overlay_prefix tx) (prefix_end (overlay_prefix tx)) from_start

  -- RocksStore::commit: the number of keys published
  unfoldable pub commit : Text → Method Db ℕ
  unfolding overlay_scan publish_items cleanup write forget_journal_seq ◌>>=◌
  commit tx = do
    lift (validate_tx_id tx)
    version ← λ s. (ok ((s.commit_version + 1) % u64_mod), s)
    scan ← λ s. (ok (overlay_scan tx s), s)
    published ← publish_items version (length (overlay_prefix tx)) scan.items scan.failure [] 0
    removed ← cleanup tx
    write d (
        published.0
        ++ (put_cf snapshots commit_version_key (le_bytes version_len version) ∷ removed))
    λ s. (ok tt, record s { commit_version = version })
    forget_journal_seq tx
    pure published.1

  -- RocksStore::discard
  unfoldable pub discard : Text → Method Db (Unit {0})
  unfolding cleanup write forget_journal_seq ◌>>=◌
  discard tx = do
    lift (validate_tx_id tx)
    removed ← cleanup tx
    write d removed
    forget_journal_seq tx

  -- RocksStore::discard_state
  unfoldable pub discard_state : Text → Method Db (Unit {0})
  unfolding state_cleanup write forget_journal_seq ◌>>=◌
  discard_state tx = do
    lift (validate_tx_id tx)
    removed ← state_cleanup tx
    write d removed
    forget_journal_seq tx
