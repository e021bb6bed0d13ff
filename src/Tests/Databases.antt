-- ===== src/Tests/Databases.antt =====
-- A database that the laws hold of: a map in the order of its keys for each column family.
use agent_tx_protocol.Prelude.{
  ◌≡◌, refl, sym, ap, inl, inr, ◌==◌, list_eq, nat_eq, list_same_iff, true, false, none, List, [],
  ◌∷◌, get, remove, retain, All, Bool-cases, arith,
}
use mathlib.Core.Path.{subst}
use mathlib.Core.List.{append-nil}
use agent_tx_protocol.Errors.{Result, ok, err, corrupt}
use agent_tx_protocol.Storage.Keys.{key_lt}
use agent_tx_protocol.Storage.Database.{
  Bytes, Entries, Database, IsDatabase, ColumnFamily, BatchOp, put_cf, delete_cf, same_family,
  put_entry, apply_op, apply_batch, within, in_mode, IsOrdered,
}
use agent_tx_protocol.Storage.Database.Ordered.{key_lt-total, same_key, above_trans}
use agent_tx_protocol.Storage.Rocks.{SnapshotMeta, Codec}
use agent_tx_protocol.Storage.Restore.Tracked.{IsCodec}

abbrev IsAbove : Bytes → Entries → Type 0
IsAbove k m = All (λ f. key_lt k f.0 ≡ true) m

IsAbove-put_entry :
    (b : Bytes) (m : Entries) (k v : Bytes)
    → key_lt b k ≡ true
    → IsAbove b m
    → IsAbove b (put_entry m k v)
unfolding put_entry
IsAbove-put_entry b [] k v h a = (h, tt)
IsAbove-put_entry b ((j, w) ∷ m) k v h a = elim (Bool-cases (j == k)) [
  | inl same ↦ rw same (h, a.1)
  | inr other ↦ elim (Bool-cases (key_lt k j)) [
    | inl before ↦ rw other (rw before (h, a))
    | inr after ↦ rw other (rw after (a.0, IsAbove-put_entry b m k v h a.1))
  ]
]

put_entry-IsOrdered : (m : Entries) (k v : Bytes) → IsOrdered m → IsOrdered (put_entry m k v)
unfolding put_entry
put_entry-IsOrdered [] k v h = (tt, tt)
put_entry-IsOrdered ((j, w) ∷ m) k v h = elim (Bool-cases (j == k)) [
  | inl same ↦ rw same (subst (λ x. IsAbove x m) (same_key j k same) h.0, h.1)
  | inr other ↦ elim (Bool-cases (key_lt k j)) [
    | inl before ↦ rw other (rw before ((before, above_trans m k j before h.0), h))
    | inr after ↦
        let apart : (k == j) ≡ false = ground (arith, list_same_iff j k, list_same_iff k j) in
        let above = key_lt-total k j apart after in
        rw other (rw after (IsAbove-put_entry j m k v above h.0, put_entry-IsOrdered m k v h.1))
  ]
]

IsAbove-remove : (b : Bytes) (m : Entries) (k : Bytes) → IsAbove b m → IsAbove b (remove m k)
unfolding remove
IsAbove-remove b [] k a = tt
IsAbove-remove b (e ∷ m) k a = ground (arith, IsAbove-remove b m k a.1)

remove-IsOrdered : (m : Entries) (k : Bytes) → IsOrdered m → IsOrdered (remove m k)
unfolding remove
remove-IsOrdered [] k h = tt
remove-IsOrdered (e ∷ m) k h = ground (arith, remove-IsOrdered m k h.1, IsAbove-remove e.0 m k h.0)

apply_op-IsOrdered :
    (c : ColumnFamily) (op : BatchOp) (m : Entries) → IsOrdered m → IsOrdered (apply_op c op m)
unfolding apply_op
apply_op-IsOrdered c (put_cf d k v) m h = elim (Bool-cases (same_family d c)) [
  | inl this ↦ rw this (put_entry-IsOrdered m k v h)
  | inr that ↦ rw that h
]
apply_op-IsOrdered c (delete_cf d k) m h = elim (Bool-cases (same_family d c)) [
  | inl this ↦ rw this (remove-IsOrdered m k h)
  | inr that ↦ rw that h
]

pub apply_batch-IsOrdered :
    (c : ColumnFamily) (ops : List BatchOp) (m : Entries)
    → IsOrdered m
    → IsOrdered (apply_batch c ops m)
unfolding apply_batch
apply_batch-IsOrdered c [] m h = h
apply_batch-IsOrdered c (op ∷ ops) m h =
    apply_batch-IsOrdered c ops (apply_op c op m) (apply_op-IsOrdered c op m h)

pub same_value : {A : Type 0} {a b : A} → ◌≡◌ {A = Result A} (ok a) (ok b) → a ≡ b
same_value h = cc

-- The contents of the column families, with their order.
abbrev pub Ordered : Type 0
Ordered = (m : ColumnFamily → Entries) × ((c : ColumnFamily) → IsOrdered (m c))

abbrev pub ordered : Database Ordered
ordered = record {
  get_cf = λ db c k. ok (get (db.0 c) k);
  write = λ db ops.
      ok ((λ c. apply_batch c ops (db.0 c)), (λ c. apply_batch-IsOrdered c ops (db.0 c) (db.1 c)));
  iterate = λ db c lower upper mode. record {
    items = in_mode mode (retain (within lower upper) (db.0 c));
    failure = none;
  };
  latest_sequence_number = λ db. 0;
}

abbrev pub ordered-IsDatabase : IsDatabase ordered
ordered-IsDatabase = record {
  entries = λ db. db.0;
  entries-IsOrdered = λ db. db.1;
  get_cf_lem = λ db c k v h. sym (same_value h);
  write_lem = λ db ops db' h c. ap (λ x. x.0 c) (sym (same_value h));
  iterate_lem = λ db c lower upper mode. ([], append-nil _, λ h. refl);
}

abbrev read_flat : Bytes → Result SnapshotMeta
read_flat (seq ∷ sequence ∷ at ∷ step ∷ tx) = ok (record {
  id = record { tx_id = tx; step_id = step };
  journal_seq = seq;
  rocksdb_sequence = sequence;
  created_at_ms = at;
})
read_flat raw = err (corrupt raw [])

-- A codec of the snapshots' records that keeps every field.
abbrev pub flat : Codec SnapshotMeta
flat = record {
  to_vec =
      λ m. ok (m.journal_seq ∷ m.rocksdb_sequence ∷ m.created_at_ms ∷ m.id.step_id ∷ m.id.tx_id);
  from_slice = read_flat;
}

pub flat-IsCodec : IsCodec flat
flat-IsCodec = record { from_slice-to_vec = λ a b h. ap read_flat (sym (same_value h)) }
