-- ===== src/Storage/Rocks.antt =====
-- `RocksStore` of storage/rocks.rs: the state of the store, reads, and journaled writes. Its children
-- have the snapshots, the commit and the logs.
pub mod Snapshots
pub mod Commit
pub mod Logs
pub mod Handle
use agent_tx_protocol.Prelude.{
  ℕ, ◌+◌, ◌%◌, Bool, ◌==◌, list_eq, nat_eq, Option, none, some, List, [], ◌∷◌, ◌++◌, Text, bytes,
  Map, get, insert, if◌then◌else◌, u64_mod,
}
use agent_tx_protocol.Errors.{AgentTxError, corrupt, Result, ok, err}
use agent_tx_protocol.Storage.Journal.{JournalEntry, encode}
use agent_tx_protocol.Storage.Keys.{prefix_end}
use agent_tx_protocol.Storage.Layout.{
  global, overlay, output, journal, journal_prefix, journal_seq_of,
}
use agent_tx_protocol.Storage.Values.{
  validate_key, split_versioned, split_overlay, encode_overlay, tag_value, Overlay,
}
use agent_tx_protocol.Storage.Database.{
  Bytes, Entries, Database, BatchOp, put_cf, delete_cf, default, snapshots, from_end, Scan,
}

-- storage/snapshot.rs: SnapshotId, SnapshotMeta
pub record SnapshotId : Type 0 where
  pub tx_id : Text
  pub step_id : ℕ

pub record SnapshotMeta : Type 0 where
  pub id : SnapshotId
  pub journal_seq : ℕ
  pub rocksdb_sequence : ℕ
  pub created_at_ms : ℕ

pub record TxRecord : Type 0 where
  pub tx_id : Text
  pub agent_id : Text
  pub created_at_ms : ℕ

-- The derived serde_json conversions: `to_vec` and `from_slice`.
pub record Codec (A : Type 0) : Type 0 where
  pub to_vec : A → Result Bytes
  pub from_slice : Bytes → Result A

-- The fields of `RocksStore` that change; commits are serialised by the caller's order of steps.
pub record RocksStore (Db : Type 0) : Type 0 where
  pub db : Db
  pub journal_seq : Map Text ℕ
  pub commit_version : ℕ

-- A method of the store: its result, and the store after it.
abbrev pub Method : Type 0 → Type 0 → Type 0
Method Db A = RocksStore Db → Result A × RocksStore Db

module _ {Db : Type 0} where
  abbrev pub pure : {A : Type 0} → A → Method Db A
  pure a s = (ok a, s)

  abbrev pub lift : {A : Type 0} → Result A → Method Db A
  lift r s = (r, s)

  infixl 5 ◌>>=◌ ◌>>◌
  abbrev pub continue : {A B : Type 0} → Result A → (A → Method Db B) → Method Db B
  continue (ok a) f s = f a s
  continue (err e) f s = (err e, s)

  unfoldable pub ◌>>=◌ : {A B : Type 0} → Method Db A → (A → Method Db B) → Method Db B
  ◌>>=◌ m f s = let r = m s in continue r.0 f r.1

  abbrev pub ◌>>◌ : {A B : Type 0} → Method Db A → Method Db B → Method Db B
  m >> k = m >>= λ _. k

  unfoldable pub set_journal_seq : Text → ℕ → Method Db (Unit {0})
  set_journal_seq tx n s = (ok tt, record s { journal_seq = insert s.journal_seq tx n })

-- What is read of the iterator: its first item, or its end.
unfoldable pub seq_after : Scan → Result ℕ
seq_after scan = elim scan.items [
  | [] ↦ elim scan.failure [ none ↦ ok 0 | some e ↦ err e ]
  | item ∷ _ ↦ elim (journal_seq_of item.0) [
    | none ↦ err (corrupt item.0 (bytes "unparseable journal sequence"))
    | some seq ↦ ok ((seq + 1) % u64_mod)
  ]
]

unfoldable pub data_op : Bytes → Option Bytes → BatchOp
data_op raw_key (some value) = put_cf default raw_key value
data_op raw_key none = delete_cf default raw_key

module _ {Db : Type 0} (d : Database Db) where
  unfoldable pub get_cf : Bytes → Method Db (Option Bytes)
  get_cf key s = (d.get_cf s.db default key, s)

  abbrev written : Result Db → Method Db (Unit {0})
  written (ok db) s = (ok tt, record s { db = db })
  written (err e) s = (err e, s)

  -- RocksStore::write
  unfoldable pub write : List BatchOp → Method Db (Unit {0})
  write batch s = written (d.write s.db batch) s

  unfoldable pub get_committed : Text → Method Db (Option Bytes)
  unfolding get_cf ◌>>=◌
  get_committed key = do
    lift (validate_key key)
    raw ← get_cf (global key)
    elim raw [
      | none ↦ pure none
      | some value ↦ do split ← lift (split_versioned value key); pure (some split.1)
    ]

  -- RocksStore::get
  unfoldable pub read : Text → Text → Method Db (Option Bytes)
  unfolding get_cf ◌>>=◌
  read tx key = do
    lift (validate_key key)
    raw ← get_cf (overlay tx key)
    elim raw [
      | none ↦ get_committed key
      | some value ↦ do
        split ← lift (split_overlay value key)
        pure (if split.tag == tag_value then some split.payload else none)
    ]

  unfoldable pub committed_version : Text → Method Db ℕ
  unfolding get_cf ◌>>=◌
  committed_version key = do
    raw ← get_cf (global key)
    elim raw [
      | none ↦ pure 0
      | some value ↦ do split ← lift (split_versioned value key); pure split.0
    ]

  unfoldable pub load_next_journal_seq : Text → Method Db ℕ
  unfolding seq_after
  load_next_journal_seq tx s =
      let prefix = journal_prefix tx in
      (seq_after (d.iterate s.db snapshots prefix (prefix_end prefix) from_end), s)

  -- `or_try_insert_with(..)`, on the entry of the map
  unfoldable pub or_load : Text → Option ℕ → Method Db ℕ
  unfolding load_next_journal_seq ◌>>=◌ set_journal_seq
  or_load tx (some n) = pure n
  or_load tx none = do n ← load_next_journal_seq tx; set_journal_seq tx n; pure n

  unfoldable pub peek_journal_seq : Text → Method Db ℕ
  unfolding or_load
  peek_journal_seq tx s = or_load tx (get s.journal_seq tx) s

  unfoldable pub allocate_journal_seq : Text → Method Db ℕ
  unfolding peek_journal_seq ◌>>=◌ set_journal_seq
  allocate_journal_seq tx = do
    seq ← peek_journal_seq tx
    set_journal_seq tx ((seq + 1) % u64_mod)
    pure seq

  unfoldable pub journaled_write : Text → Bytes → Option Bytes → Option Bytes → Method Db (Unit {0})
  unfolding allocate_journal_seq write data_op ◌>>=◌
  journaled_write tx raw_key prior new = do
    seq ← allocate_journal_seq tx
    let entry : JournalEntry = record { raw_key = raw_key; prior = prior }
    write (put_cf snapshots (journal tx seq) (encode entry) ∷ data_op raw_key new ∷ [])

  unfoldable pub base_version : Text → Option Bytes → Method Db ℕ
  unfolding committed_version ◌>>=◌
  base_version key none = committed_version key
  base_version key (some raw) = do split ← lift (split_overlay raw key); pure split.base_version

  unfoldable pub write_overlay : Text → Text → Option Bytes → Method Db (Unit {0})
  unfolding get_cf base_version journaled_write ◌>>=◌
  write_overlay tx key value = do
    lift (validate_key key)
    prior ← get_cf (overlay tx key)
    base ← base_version key prior
    journaled_write tx (overlay tx key) prior (some (encode_overlay value base))

  unfoldable pub put : Text → Text → Bytes → Method Db (Unit {0})
  unfolding write_overlay
  put tx key value = write_overlay tx key (some value)

  unfoldable pub delete : Text → Text → Method Db (Unit {0})
  unfolding write_overlay
  delete tx key = write_overlay tx key none

  unfoldable pub put_output : Text → ℕ → Bytes → Method Db (Unit {0})
  unfolding get_cf journaled_write ◌>>=◌
  put_output tx step value = do
    prior ← get_cf (output tx step)
    journaled_write tx (output tx step) prior (some value)

  unfoldable pub get_output : Text → ℕ → Method Db (Option Bytes)
  unfolding get_cf
  get_output tx step = get_cf (output tx step)
