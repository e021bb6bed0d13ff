-- ===== src/Storage/Restore/Views.antt =====
-- What the database holds of one transaction, and what a written batch does to it.
use agent_tx_protocol.Prelude.{
  ◌≡◌, sym, ap, ◌∙◌, ◌⊎◌, inl, inr, Bool, true, list_eq, nat_eq, Option, none, List, [], ◌∷◌, Text,
  get, retain, All, if◌then◌else◌, arith, Bool-cases,
}
use agent_tx_protocol.Errors.{AgentTxError, ok, err, Result-cases}
use agent_tx_protocol.Storage.Keys.{key_lt, starts_with}
use agent_tx_protocol.Storage.Layout.{tx_data_prefix, journal_prefix, snapshot_prefix}
use agent_tx_protocol.Storage.Database.{
  Bytes, Entries, Database, IsDatabase, BatchOp, ColumnFamily, default, snapshots, apply_batch,
  IsOrdered,
}
use agent_tx_protocol.Storage.Database.Ordered.{on_key}
use agent_tx_protocol.Storage.Database.Batches.{Avoids, retain-apply_batch, get-retain}
use agent_tx_protocol.Storage.Rocks.{RocksStore, write}
use agent_tx_protocol.Storage.Restore.Changes.{TxView}

-- a value of a transaction's own
abbrev pub own : Text → Entries → Bytes → Option Bytes
own tx m k = if starts_with (tx_data_prefix tx) k then get m k else none

All-retain-lt :
    (k : Bytes) (q : Bytes → Bool) (m : Entries)
    → All (λ f. key_lt k f.0 ≡ true) m
    → All (λ f. key_lt k f.0 ≡ true) (retain (on_key q) m)
unfolding retain
All-retain-lt k q [] h = tt
All-retain-lt k q (e ∷ m) h = ground (arith, All-retain-lt k q m h.1)

pub IsOrdered-retain :
    (q : Bytes → Bool) (m : Entries) → IsOrdered m → IsOrdered (retain (on_key q) m)
unfolding retain
IsOrdered-retain q [] o = tt
IsOrdered-retain q (e ∷ m) o = ground (arith, IsOrdered-retain q m o.1, All-retain-lt e.0 q m o.0)

module _ {Db : Type 0} (d : Database Db) (l : IsDatabase d) where
  -- The values of the transaction's keys, its journal, and its next sequence number.
  abbrev pub view : Text → RocksStore Db → TxView
  view tx s = record {
    values = own tx (l.entries s.db default);
    log = retain (on_key (starts_with (journal_prefix tx))) (l.entries s.db snapshots);
    next = get s.journal_seq tx;
  }

  -- the snapshots of the transaction
  abbrev pub marks : Text → RocksStore Db → Entries
  marks tx s = retain (on_key (starts_with (snapshot_prefix tx))) (l.entries s.db snapshots)

  pub view-IsOrdered : (tx : Text) (s : RocksStore Db) → IsOrdered (view tx s).log
  view-IsOrdered tx s = IsOrdered-retain _ _ (l.entries-IsOrdered s.db snapshots)

  -- A batch is written, or the store is as before.
  pub write-cases :
      (batch : List BatchOp) (s : RocksStore Db)
      → ((e : AgentTxError) × (write d batch s ≡ (err e, s)))
        ⊎ ((db : Db) × (write d batch s ≡ (ok tt, record s { db = db }))
            × ((c : ColumnFamily) → l.entries db c ≡ apply_batch c batch (l.entries s.db c)))
  unfolding write
  write-cases batch s = elim (Result-cases (d.write s.db batch)) [
    | inl (db, good) ↦ inr (db, rw good, l.write_lem s.db batch db good)
    | inr (e, bad) ↦ inl (e, rw bad)
  ]

  -- No operation of the batch is on a key of the transaction.
  abbrev pub Spares : Text → List BatchOp → Type 0
  Spares tx batch =
      Avoids default (starts_with (tx_data_prefix tx)) batch
      × Avoids snapshots (starts_with (journal_prefix tx)) batch

  own-apply_batch :
      (tx : Text) (batch : List BatchOp) (m : Entries) (k : Bytes)
      → Avoids default (starts_with (tx_data_prefix tx)) batch
      → own tx (apply_batch default batch m) k ≡ own tx m k
  own-apply_batch tx batch m k h = elim (Bool-cases (starts_with (tx_data_prefix tx) k)) [
    | inl mine ↦
        let q = starts_with (tx_data_prefix tx) in
        rw mine (
          sym (get-retain q (apply_batch default batch m) k mine)
          ∙ ap (λ r. get r k) (retain-apply_batch default q batch m h)
          ∙ get-retain q m k mine)
    | inr other ↦ rw other
  ]

  -- Such a batch changes nothing of the transaction.
  module _ (tx : Text) (batch : List BatchOp) (s s' : RocksStore Db)
      (written : (c : ColumnFamily)
        → l.entries s'.db c ≡ apply_batch c batch (l.entries s.db c)) where
    pub values-unchanged :
        Avoids default (starts_with (tx_data_prefix tx)) batch
        → (k : Bytes) → (view tx s').values k ≡ (view tx s).values k
    values-unchanged h k =
        ap (λ m. own tx m k) (written default)
        ∙ own-apply_batch tx batch (l.entries s.db default) k h

    pub log-unchanged :
        Avoids snapshots (starts_with (journal_prefix tx)) batch
        → (view tx s').log ≡ (view tx s).log
    log-unchanged h =
        ap (retain (on_key (starts_with (journal_prefix tx)))) (written snapshots)
        ∙ retain-apply_batch snapshots (starts_with (journal_prefix tx)) batch
            (l.entries s.db snapshots) h

    pub marks-unchanged :
        Avoids snapshots (starts_with (snapshot_prefix tx)) batch → marks tx s' ≡ marks tx s
    marks-unchanged h =
        ap (retain (on_key (starts_with (snapshot_prefix tx)))) (written snapshots)
        ∙ retain-apply_batch snapshots (starts_with (snapshot_prefix tx)) batch
            (l.entries s.db snapshots) h
