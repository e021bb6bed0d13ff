-- ===== src/Storage/Rocks/Logs.antt =====
-- The transaction records and Saga records of storage/rocks.rs, and the opening of the store.
use agent_tx_protocol.Prelude.{Option, none, some, List, [], ◌∷◌, ℕ, Text, bytes}
use agent_tx_protocol.Errors.{Result, ok, err}
use agent_tx_protocol.Storage.Keys.{prefix_end}
use agent_tx_protocol.Storage.Layout.{
  tx_record, tx_record_prefix, saga, saga_prefix, commit_version_key,
}
use agent_tx_protocol.Storage.Values.{validate_tx_id, decode_u64}
use agent_tx_protocol.Storage.Database.{
  Bytes, Entries, Database, put_cf, delete_cf, ColumnFamily, snapshots, saga_logs, from_start, Scan,
}
use agent_tx_protocol.Storage.Rocks.{
  TxRecord, Codec, RocksStore, Method, pure, lift, ◌>>=◌, ◌>>◌, write,
}

-- `collect` of the items of an iterator.
abbrev pub collected : Scan → Result Entries
collected scan = elim scan.failure [ none ↦ ok scan.items | some e ↦ err e ]

abbrev values : Entries → List Bytes
values [] = []
values (e ∷ m) = e.1 ∷ values m

-- The first error of a list of results, or all values.
unfoldable pub parse_all : {A : Type 0} → (Bytes → Result A) → List Bytes → Result (List A)
parse_all parse [] = ok []
parse_all parse (b ∷ rest) = elim (parse b) [
  | err e ↦ err e
  | ok a ↦ elim (parse_all parse rest) [ err e ↦ err e | ok as_ ↦ ok (a ∷ as_) ]
]

module _ {Db : Type 0} (d : Database Db) where
  unfoldable pub scan_prefix : ColumnFamily → Bytes → Method Db Entries
  scan_prefix c prefix s = (collected (d.iterate s.db c prefix (prefix_end prefix) from_start), s)

  unfoldable pub register_transaction : Codec TxRecord → TxRecord → Method Db (Unit {0})
  unfolding write ◌>>=◌
  register_transaction records r = do
    lift (validate_tx_id r.tx_id)
    value ← lift (records.to_vec r)
    write d (put_cf snapshots (tx_record r.tx_id) value ∷ [])

  unfoldable pub open_transactions : Codec TxRecord → Method Db (List TxRecord)
  unfolding scan_prefix parse_all ◌>>=◌
  open_transactions records = do
    found ← scan_prefix snapshots tx_record_prefix
    lift (parse_all records.from_slice (values found))

  unfoldable pub put_saga_record : Text → ℕ → ℕ → Bytes → Method Db (Unit {0})
  unfolding write ◌>>=◌
  put_saga_record tx step seq value = do
    lift (validate_tx_id tx)
    write d (put_cf saga_logs (saga tx step seq) value ∷ [])

  unfoldable pub delete_saga_record : Text → ℕ → ℕ → Method Db (Unit {0})
  unfolding write ◌>>=◌
  delete_saga_record tx step seq = do
    lift (validate_tx_id tx)
    write d (delete_cf saga_logs (saga tx step seq) ∷ [])

  unfoldable pub saga_records : Text → Method Db (List Bytes)
  unfolding scan_prefix ◌>>=◌
  saga_records tx = do
    lift (validate_tx_id tx)
    found ← scan_prefix saga_logs (saga_prefix tx)
    pure (values found)

  abbrev opened : Db → Result ℕ → Result (RocksStore Db)
  opened db (ok version) = ok (record { db = db; journal_seq = []; commit_version = version })
  opened db (err e) = err e

  abbrev stored_version : Result (Option Bytes) → Result ℕ
  stored_version (err e) = err e
  stored_version (ok none) = ok 0
  stored_version (ok (some raw)) = decode_u64 raw (bytes "c/commit_version")

  -- RocksStore::open, once the database itself is open
  unfoldable pub open_store : Db → Result (RocksStore Db)
  open_store db = opened db (stored_version (d.get_cf db snapshots commit_version_key))
