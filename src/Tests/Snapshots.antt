-- ===== src/Tests/Snapshots.antt =====
-- Examples of the RocksDB store: a snapshot that is restored, and the keys of its journal.
use agent_tx_protocol.Prelude.{
  ℕ, ◌≡◌, ◌≢◌, ◌==◌, refl, ap, true, none, some, List, [], ◌∷◌, Text, get, arith, inr, ◌⊎◌, list_eq,
  nat_eq, All, retain, insert,
}
use agent_tx_protocol.Errors.{AgentTxError, ok, err}
use agent_tx_protocol.Storage.Keys.{key_lt, prefix_end, starts_with}
use agent_tx_protocol.Storage.Database.Ordered.{on_key}
use agent_tx_protocol.Storage.Journal.{encode, decode}
use agent_tx_protocol.Storage.Layout.{
  journal, journal_prefix, tx_data_prefix, journal_seq_of, overlay, global, snapshot,
}
use agent_tx_protocol.Storage.Layout.Numbers.{key_lt-journal, journal_seq_of-journal}
use agent_tx_protocol.Storage.Values.{
  validate_tx_id, validate_key, split_versioned, split_overlay, encode_overlay,
}
use agent_tx_protocol.Storage.Database.{
  Bytes, ColumnFamily, default, snapshots, saga_logs, Entries, IsOrdered, apply_batch, apply_op,
}
use agent_tx_protocol.Storage.Rocks.{SnapshotId, RocksStore}
use agent_tx_protocol.Storage.Rocks
use agent_tx_protocol.Storage.Rocks.Snapshots
use agent_tx_protocol.Storage.Restore.Steps.{
  StoreOp, put, delete, create_snapshot, commit, Fits, run,
}
use agent_tx_protocol.Storage.Restore.Gives.{Same}
use agent_tx_protocol.Storage.Restore.Rewinds.{Restored, restore_snapshot-cases}
use agent_tx_protocol.Storage.Restore.Isolated.{IsForeign, run-Isolated}
use agent_tx_protocol.Storage.Restore.Returns.{IsReliable, restore_snapshot-Returns}
use agent_tx_protocol.Storage.Restore.Exact.{restore_snapshot-Exact}
use agent_tx_protocol.Tests.Databases.{
  apply_batch-IsOrdered, Ordered, ordered, ordered-IsDatabase, flat, flat-IsCodec,
}

abbrev pub tx : Text
tx = b't' ∷ []

abbrev pub other : Text
other = b'o' ∷ []

abbrev pub key : Text
key = b'k' ∷ []

key_lt-journal_example : key_lt (journal tx 9) (journal tx 10) ≡ true
key_lt-journal_example = key_lt-journal tx 9 10 (omega arith) (omega arith)

journal_seq_of-journal_example : journal_seq_of (journal tx 12) ≡ some 12
journal_seq_of-journal_example = journal_seq_of-journal tx 12 (omega arith)

-- a committed value
abbrev pub contents : ColumnFamily → Entries
contents default = (global key, 1 ∷ 0 ∷ 0 ∷ 0 ∷ 0 ∷ 0 ∷ 0 ∷ 0 ∷ 7 ∷ []) ∷ []
contents snapshots = []
contents saga_logs = []

pub contents-IsOrdered : (c : ColumnFamily) → IsOrdered (contents c)
contents-IsOrdered default = (tt, tt)
contents-IsOrdered snapshots = tt
contents-IsOrdered saga_logs = tt

abbrev pub start : RocksStore Ordered
start = record { db = (contents, contents-IsOrdered); journal_seq = []; commit_version = 1 }

abbrev pub id : SnapshotId
id = record { tx_id = tx; step_id = 0 }

abbrev taken : RocksStore Ordered
taken = (Snapshots.create_snapshot ordered flat tx 0 5 start).1

abbrev ops : List (Text × StoreOp)
ops = (tx, put key (9 ∷ [])) ∷ (other, put key (8 ∷ [])) ∷ (tx, delete key) ∷ []

abbrev later : RocksStore Ordered
later = run ordered flat ops taken

takes : Snapshots.create_snapshot ordered flat tx 0 5 start ≡ (ok id, taken)
unfolding Snapshots.create_snapshot validate_tx_id get retain
takes = refl

restored_two : (Snapshots.restore_snapshot ordered flat id later).0 ≡ ok 2
unfolding Snapshots.restore_snapshot Snapshots.create_snapshot run validate_tx_id get retain
    Rocks.delete validate_key Rocks.put apply_batch apply_op global overlay split_versioned insert
    key_lt snapshot journal prefix_end split_overlay encode_overlay decode encode
restored_two = refl

pub is_valid : (validate_tx_id tx ≡ ok tt) × (validate_tx_id other ≡ ok tt)
unfolding validate_tx_id
is_valid = (refl, refl)

ops-Fits : All (λ o. Fits tx 0 o.0 o.1) ops
ops-Fits = (
  record { valid = is_valid.0; inside = λ _. tt; outside = λ _. tt },
  (
    record { valid = is_valid.1; inside = λ _. tt; outside = λ _. tt },
    (record { valid = is_valid.0; inside = λ _. tt; outside = λ _. tt }, tt),
  ),
)

is_own : starts_with (tx_data_prefix tx) (overlay tx key) ≡ true
unfolding starts_with overlay
is_own = refl

empty_log : retain (on_key (starts_with (journal_prefix tx))) (contents snapshots) ≡ []
unfolding retain
empty_log = refl

nothing_stored : (k : Bytes) → get (contents snapshots) k ≡ none
unfolding get
nothing_stored k = refl

unknown : get start.journal_seq tx ≡ none
unfolding get
unknown = refl

restore_snapshot-Exact_example :
    get ((Snapshots.restore_snapshot ordered flat id later).1.db.0 default) (overlay tx key)
    ≡ get (contents default) (overlay tx key)
restore_snapshot-Exact_example =
    restore_snapshot-Exact ordered ordered-IsDatabase flat flat-IsCodec tx is_valid.0 0
      (omega arith) 0 start taken (Snapshots.restore_snapshot ordered flat id later).1 5 id ops 2
      (inr (refl, unknown, empty_log)) (λ i _ _. nothing_stored _) takes (omega arith) ops-Fits
      (ap (λ r. (r, (Snapshots.restore_snapshot ordered flat id later).1)) restored_two)
      (overlay tx key) is_own

abbrev foreign_ops : List (Text × StoreOp)
foreign_ops = (other, put key (8 ∷ [])) ∷ (other, create_snapshot 1 7) ∷ (other, commit) ∷ []

pub differ : other ≢ tx
differ h = let same = ap (λ k. k == other) h in cc

foreign_ops-IsForeign : All (IsForeign tx) foreign_ops
foreign_ops-IsForeign =
    ((is_valid.1, differ, tt), ((is_valid.1, differ, tt), ((is_valid.1, differ, tt), tt)))

run-Isolated_example : Same ordered ordered-IsDatabase tx start (run ordered flat foreign_ops start)
run-Isolated_example =
    run-Isolated ordered ordered-IsDatabase flat tx foreign_ops start is_valid.0
      foreign_ops-IsForeign

restore_snapshot-cases_example :
    ((e : AgentTxError) × (Snapshots.restore_snapshot ordered flat id later ≡ (err e, later)))
    ⊎ ((n : ℕ) × (t : RocksStore Ordered) × (Snapshots.restore_snapshot ordered flat id later
          ≡ (ok n, t))
        × Restored ordered ordered-IsDatabase flat tx 0 later n t)
restore_snapshot-cases_example = restore_snapshot-cases ordered ordered-IsDatabase flat tx 0 later

pub ordered-IsReliable : IsReliable ordered
ordered-IsReliable = record {
  reads = λ db c k. (get (db.0 c) k, refl);
  writes = λ db ops.
      ((λ c. apply_batch c ops (db.0 c), λ c. apply_batch-IsOrdered c ops (db.0 c) (db.1 c)), refl);
  iterates = λ db c lower upper mode. refl;
}

restore_snapshot-Returns_example :
    (m : ℕ) × (t : RocksStore Ordered) × (Snapshots.restore_snapshot ordered flat id later
      ≡ (ok m, t))
restore_snapshot-Returns_example =
    restore_snapshot-Returns ordered ordered-IsDatabase ordered-IsReliable flat flat-IsCodec tx
      is_valid.0 0 (omega arith) 0 start taken 5 id ops (inr (refl, unknown, empty_log))
      (λ i _ _. nothing_stored _) takes (omega arith) ops-Fits
