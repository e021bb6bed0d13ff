-- ===== src/Storage/Publish/Cleanup.antt =====
-- `add_cleanup`: all that the store keeps of a transaction is deleted, and nothing else.
use mathlib.Core.List.{append-nil}
use agent_tx_protocol.Prelude.{
  ◌≡◌, refl, sym, ap, ◌∙◌, inl, inr, true, false, list_eq, nat_eq, none, List, [], ◌∷◌, ◌++◌, Text,
  get, remove, retain, if◌then◌else◌,
}
use agent_tx_protocol.Errors.{Result-cases}
use agent_tx_protocol.Storage.Keys.{starts_with, prefix_end}
use agent_tx_protocol.Storage.Layout.{
  tx_data_prefix, journal_prefix, snapshot_prefix, saga_prefix, tx_record,
}
use agent_tx_protocol.Storage.Layout.Prefixes.{is_within-prefix}
use agent_tx_protocol.Storage.Database.{
  Bytes, Entries, Database, IsDatabase, BatchOp, delete_cf, ColumnFamily, default, snapshots,
  saga_logs, apply_batch, apply_op, same_family, within, from_start,
}
use agent_tx_protocol.Storage.Database.Ordered.{on_key}
use agent_tx_protocol.Storage.Database.Batches.{
  keys, deletes, removing, retain-agree, agree, apply_batch-append,
}
use agent_tx_protocol.Storage.Database.Removals.{removing-gone, removing-kept}
use agent_tx_protocol.Storage.Rocks.{RocksStore}
use agent_tx_protocol.Storage.Rocks.Snapshots.{delete_items}
use agent_tx_protocol.Storage.Rocks.Commit.{delete_prefix, state_cleanup, cleanup}
use agent_tx_protocol.Storage.Restore.Scans.{delete_items-deletes, apply_batch-deletes}
use agent_tx_protocol.Storage.Publish.Reads.{Reads, fails, gives, Reads-pure, Reads-bind}

-- the keys with a prefix
abbrev pub keys_with : Bytes → Entries → List Bytes
keys_with prefix m = keys (retain (on_key (starts_with prefix)) m)

-- A key with the prefix is gone, if it was as when the keys were listed; the others stay.
pub removed-gone :
    (prefix : Bytes) (m₀ m : Entries) (k : Bytes)
    → starts_with prefix k ≡ true
    → get m k ≡ get m₀ k
    → get (removing (keys_with prefix m₀) m) k ≡ none
removed-gone prefix m₀ m k has same = removing-gone (starts_with prefix) m₀ m k has same

pub removed-kept :
    (prefix : Bytes) (m₀ m : Entries) (k : Bytes)
    → starts_with prefix k ≡ false
    → get (removing (keys_with prefix m₀) m) k ≡ get m k
removed-kept prefix m₀ m k lacks = removing-kept (starts_with prefix) m₀ m k lacks

other-deletes :
    (c e : ColumnFamily) (ks : List Bytes) (m : Entries)
    → same_family e c ≡ false
    → apply_batch c (deletes e ks) m ≡ m
unfolding apply_batch apply_op
other-deletes c e [] m h = refl
other-deletes c e (k ∷ ks) m h =
    ap (λ b. apply_batch c (deletes e ks) (if b then remove m k else m)) h
    ∙ other-deletes c e ks m h

-- a scan of all keys with a prefix
pub retain-prefix :
    (start : Bytes) (m : Entries)
    → retain (within (start ++ b'/' ∷ []) (prefix_end (start ++ b'/' ∷ []))) m
      ≡ retain (on_key (starts_with (start ++ b'/' ∷ []))) m
retain-prefix start m = retain-agree _ _ m (agree _ _ m (is_within-prefix start))

module _ {Db : Type 0} (d : Database Db) (l : IsDatabase d) (tx : Text) (s : RocksStore Db) where
  abbrev listed : ColumnFamily → Bytes → List Bytes
  listed c prefix = keys_with prefix (l.entries s.db c)

  abbrev deletes_of : ColumnFamily → Bytes → List BatchOp
  deletes_of c prefix = deletes c (listed c prefix)

  delete_prefix-Reads :
      (c : ColumnFamily) (start : Bytes)
      → Reads s
          (delete_prefix d c (start ++ b'/' ∷ []))
          (λ ops. ops ≡ deletes_of c (start ++ b'/' ∷ []))
  unfolding delete_prefix
  delete_prefix-Reads c start =
      let prefix = start ++ b'/' ∷ [] in
      let scan = d.iterate s.db c prefix (prefix_end prefix) from_start in
      let (rest, given, complete) = l.iterate_lem s.db c prefix (prefix_end prefix) from_start in
      elim (Result-cases (delete_items c scan.items scan.failure)) [
        | inr (e, bad) ↦ fails e (rw bad)
        | inl (ops, good) ↦
            let (whole, dels) = delete_items-deletes c scan.items scan.failure ops good in
            let all_items : scan.items ≡ retain (on_key (starts_with prefix)) (l.entries s.db c) =
              sym (append-nil scan.items)
              ∙ ap (λ r. scan.items ++ r) (sym (complete whole))
              ∙ given
              ∙ retain-prefix start (l.entries s.db c) in
            gives ops (rw good) (dels ∙ ap (λ i. deletes c (keys i)) all_items)
      ]

  abbrev mark_ops : List BatchOp
  mark_ops = deletes_of snapshots (journal_prefix tx) ++ deletes_of snapshots (snapshot_prefix tx)

  abbrev pub state_ops : List BatchOp
  state_ops = deletes_of default (tx_data_prefix tx) ++ mark_ops

  abbrev saga_ops : List BatchOp
  saga_ops = deletes_of saga_logs (saga_prefix tx)

  abbrev record_op : List BatchOp
  record_op = delete_cf snapshots (tx_record tx) ∷ []

  abbrev pub cleanup_ops : List BatchOp
  cleanup_ops = state_ops ++ (saga_ops ++ record_op)

  pub state_cleanup-Reads : Reads s (state_cleanup d tx) (λ ops. ops ≡ state_ops)
  unfolding state_cleanup tx_data_prefix journal_prefix snapshot_prefix
  state_cleanup-Reads = Reads-bind s _ _ (delete_prefix-Reads default (b'x' ∷ b'/' ∷ tx)) (λ x xe.
      Reads-bind s _ _ (delete_prefix-Reads snapshots (b'j' ∷ b'/' ∷ tx)) (λ j je.
        Reads-bind s _ _ (delete_prefix-Reads snapshots (b'm' ∷ b'/' ∷ tx))
          (λ m me. Reads-pure s (x ++ (j ++ m)) (rw (xe, je, me)))))

  pub cleanup-Reads : Reads s (cleanup d tx) (λ ops. ops ≡ cleanup_ops)
  unfolding cleanup saga_prefix
  cleanup-Reads = Reads-bind s _ _ state_cleanup-Reads (λ x xe.
      Reads-bind s _ _ (delete_prefix-Reads saga_logs (b'u' ∷ b'/' ∷ tx))
        (λ u ue. Reads-pure s (x ++ (u ++ delete_cf snapshots (tx_record tx) ∷ [])) (rw (xe, ue))))

  -- What the batch does to the data.
  pub default-cleanup :
      (m : Entries)
      → apply_batch default cleanup_ops m
        ≡ removing (keys_with (tx_data_prefix tx) (l.entries s.db default)) m
  unfolding apply_batch apply_op
  default-cleanup m =
      apply_batch-append default state_ops (saga_ops ++ record_op) m
      ∙ apply_batch-append default saga_ops record_op (apply_batch default state_ops m)
      ∙ other-deletes default saga_logs (listed saga_logs (saga_prefix tx)) _ refl
      ∙ apply_batch-append default (deletes_of default (tx_data_prefix tx)) mark_ops m
      ∙ apply_batch-append default (deletes_of snapshots (journal_prefix tx)) _ _
      ∙ other-deletes default snapshots (listed snapshots (snapshot_prefix tx)) _ refl
      ∙ other-deletes default snapshots (listed snapshots (journal_prefix tx)) _ refl
      ∙ apply_batch-deletes default _ m

  -- What it does to the journal and the snapshots.
  pub snapshots-cleanup :
      (m : Entries)
      → apply_batch snapshots cleanup_ops m
        ≡ remove
            (removing
              (keys_with (snapshot_prefix tx) (l.entries s.db snapshots))
              (removing (keys_with (journal_prefix tx) (l.entries s.db snapshots)) m))
            (tx_record tx)
  unfolding apply_batch apply_op
  snapshots-cleanup m =
      apply_batch-append snapshots state_ops (saga_ops ++ record_op) m
      ∙ apply_batch-append snapshots saga_ops record_op (apply_batch snapshots state_ops m)
      ∙ ap (λ r. remove r (tx_record tx))
          (other-deletes snapshots saga_logs (listed saga_logs (saga_prefix tx)) _ refl
            ∙ apply_batch-append snapshots (deletes_of default (tx_data_prefix tx)) mark_ops m
            ∙ apply_batch-append snapshots (deletes_of snapshots (journal_prefix tx)) _ _
            ∙ apply_batch-deletes snapshots _ _
            ∙ ap (removing (keys_with (snapshot_prefix tx) (l.entries s.db snapshots))) (
                apply_batch-deletes snapshots _ _
                ∙ ap (removing (keys_with (journal_prefix tx) (l.entries s.db snapshots)))
                    (other-deletes snapshots default (listed default (tx_data_prefix tx)) m refl)))
