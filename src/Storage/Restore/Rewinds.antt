-- ===== src/Storage/Restore/Rewinds.antt =====
-- `restore_snapshot` of a transaction, as a change of what the store keeps of it.
use mathlib.Core.List.{reverse, append-nil}
use agent_tx_protocol.Prelude.{
  ℕ, ◌+◌, ◌≡◌, refl, sym, ap, ◌∙◌, inl, inr, ◌⊎◌, true, if◌then◌else◌, list_eq, nat_eq, Option,
  none, some, List, [], ◌++◌, Text, get, insert, get-insert-same, retain, arith, Bool-cases, ltb,
  u32_mod, length,
}
use agent_tx_protocol.Errors.{AgentTxError, snapshot_not_found, ok, err, Result-cases}
use agent_tx_protocol.Storage.Keys.{starts_with, prefix_end}
use agent_tx_protocol.Storage.Layout.{
  tx_data_prefix, journal_prefix, snapshot_prefix, journal, snapshot,
}
use agent_tx_protocol.Storage.Database.{
  Bytes, Database, IsDatabase, BatchOp, default, snapshots, ColumnFamily, apply_batch, within,
  from_start, from_end, Scan,
}
use agent_tx_protocol.Storage.Database.Ordered.{on_key, is_within}
use agent_tx_protocol.Storage.Database.Batches.{keys, deletes}
use agent_tx_protocol.Storage.Values.{validate_tx_id}
use agent_tx_protocol.Storage.Rocks.{
  SnapshotId, SnapshotMeta, Codec, RocksStore, ◌>>=◌, set_journal_seq,
}
use agent_tx_protocol.Storage.Rocks.Snapshots.{
  revert_items, newer_entries, later_snapshots, known_meta, restore_snapshot,
}
use agent_tx_protocol.Storage.Restore.Undo.{ops_of, revert_items-ops_of}
use agent_tx_protocol.Storage.Restore.Changes.{newer, older, undone}
use agent_tx_protocol.Storage.Restore.Views.{view, write-cases}
use agent_tx_protocol.Storage.Restore.Scans.{retain-newer, scanned-All, delete_items-deletes}
use agent_tx_protocol.Storage.Restore.RewindBatch.{
  AreMarks, later_marks, is_later, later_keys, batch, log-batch, values-batch, marks-batch,
  marks_left,
}

module _ {Db : Type 0} (d : Database Db) (l : IsDatabase d) (metas : Codec SnapshotMeta) (tx : Text)
    (step : ℕ) (s : RocksStore Db) where
  abbrev id : SnapshotId
  id = record { tx_id = tx; step_id = step }

  -- what the store has under a key of its snapshots
  abbrev stored : RocksStore Db → Bytes → Option Bytes
  stored t k = get (l.entries t.db snapshots) k

  -- The snapshot was found.
  pub record Found (meta : SnapshotMeta) : Type 0 where
    pub value : Bytes
    pub is_stored : stored s (snapshot tx step) ≡ some value
    pub is_read : metas.from_slice value ≡ ok meta

  abbrev KnownCases : Type 0
  KnownCases =
      ((e : AgentTxError) × (known_meta d metas id s ≡ (err e, s)))
      ⊎ ((meta : SnapshotMeta) × (known_meta d metas id s ≡ (ok meta, s)) × Found meta)

  read-cases :
      {u : Unit {0}} (value : Bytes)
      → validate_tx_id tx ≡ ok u
      → d.get_cf s.db snapshots (snapshot tx step) ≡ ok (some value)
      → KnownCases
  unfolding known_meta ◌>>=◌
  read-cases value valid got = elim (Result-cases (metas.from_slice value)) [
    | inl (meta, parsed) ↦ inr (
      meta,
      rw (valid, got, parsed),
      record {
        value = value;
        is_stored = sym (l.get_cf_lem s.db snapshots (snapshot tx step) (some value) got);
        is_read = parsed;
      },
    )
    | inr (e, bad) ↦ inl (e, rw (valid, got, bad))
  ]

  known_meta-cases : KnownCases
  unfolding known_meta ◌>>=◌
  known_meta-cases = elim (Result-cases (validate_tx_id tx)) [
    | inr (e, bad) ↦ inl (e, rw bad)
    | inl (u, valid) ↦ elim (Result-cases (d.get_cf s.db snapshots (snapshot tx step))) [
      | inr (e, bad) ↦ inl (e, rw (valid, bad))
      | inl (some value, got) ↦ read-cases value valid got
      | inl (none, got) ↦ inl (snapshot_not_found tx step, rw (valid, got))
    ]
  ]

  -- The outcome of a rewind that succeeds.
  pub record Restored (reverted : ℕ) (t : RocksStore Db) : Type 0 where
    pub meta : SnapshotMeta
    pub found : Found meta
    pub next : get t.journal_seq tx ≡ some meta.journal_seq
    pub values :
        (k : Bytes)
        → starts_with (tx_data_prefix tx) k ≡ true
        → (view d l tx t).values k ≡ undone tx meta.journal_seq (view d l tx s) k
    pub log : (view d l tx t).log ≡ older tx meta.journal_seq (view d l tx s).log
    -- the snapshots of later steps are gone, the others stay
    pub marks_left :
        (k : Bytes)
        → starts_with (snapshot_prefix tx) k ≡ true
        → stored t k ≡ (if is_later tx step k then none else stored s k)
    pub marks_kept : (k v : Bytes) → stored t k ≡ some v → stored s k ≡ some v
    pub count : reverted ≡ length (reverse (newer tx meta.journal_seq (view d l tx s).log))

  abbrev RestoreCases : Type 0
  RestoreCases =
      ((e : AgentTxError) × (restore_snapshot d metas id s ≡ (err e, s)))
      ⊎ ((n : ℕ) × (t : RocksStore Db) × (restore_snapshot d metas id s ≡ (ok n, t)) × Restored n t)

  module _ (meta : SnapshotMeta) (found : Found meta)
      (known : known_meta d metas id s ≡ (ok meta, s)) where
    abbrev scan : Scan
    scan = newer_entries d tx meta.journal_seq s

    -- The scan of the journal, where it did not fail.
    scan-items :
        scan.failure ≡ none
        → scan.items
          ≡ reverse (
              retain
                (within (journal tx meta.journal_seq) (prefix_end (journal_prefix tx)))
                (l.entries s.db snapshots))
    unfolding newer_entries
    scan-items whole =
        let (rest, given, complete) =
          l.iterate_lem s.db snapshots (journal tx meta.journal_seq)
            (prefix_end (journal_prefix tx)) from_end in
        sym (append-nil scan.items) ∙ ap (λ r. scan.items ++ r) (sym (complete whole)) ∙ given

    later-AreMarks :
        (ops : List BatchOp)
        → (later_snapshots d tx step s).0 ≡ ok ops
        → (ks : List Bytes) × (ops ≡ deletes snapshots ks)
          × AreMarks tx ks
          × (ks ≡ later_keys tx step (l.entries s.db snapshots))
    unfolding later_snapshots
    later-AreMarks ops h = elim (Bool-cases (ltb (step + 1) u32_mod)) [
      | inl more ↦
          let end = prefix_end (snapshot_prefix tx) in
          let start = snapshot tx (step + 1) in
          let later = d.iterate s.db snapshots start end from_start in
          let (rest, given, complete) = l.iterate_lem s.db snapshots start end from_start in
          let (whole, dels) =
            delete_items-deletes snapshots later.items later.failure ops (rw more at h) in
          (
            keys later.items,
            dels,
            scanned-All (is_within start end) (starts_with (snapshot_prefix tx)) later.items rest
                (l.entries s.db snapshots) given (later_marks tx step),
            ap keys (
                  sym (append-nil later.items)
                  ∙ ap (λ r. later.items ++ r) (sym (complete whole))
                  ∙ given)
                ∙ rw more refl,
          )
      | inr last ↦ ([], ground arith, tt, rw last refl)
    ]

    later-reads : (later_snapshots d tx step s).1 ≡ s
    unfolding later_snapshots
    later-reads = elim (Bool-cases (ltb (step + 1) u32_mod)) [
      | inl more ↦ rw more
      | inr last ↦ rw last
    ]

    restored :
        (reverted : List BatchOp × ℕ) (ks : List Bytes) (db : Db)
        → revert_items scan.items scan.failure [] 0 ≡ ok reverted
        → AreMarks tx ks
        → ks ≡ later_keys tx step (l.entries s.db snapshots)
        → ((c : ColumnFamily)
            → l.entries db c
              ≡ apply_batch c (reverted.0 ++ deletes snapshots ks) (l.entries s.db c))
        → Restored reverted.1
            (record s { db = db; journal_seq = insert s.journal_seq tx meta.journal_seq })
    restored reverted ks db rev marked later written =
        let m = l.entries s.db snapshots in
        let q = meta.journal_seq in
        let (whole, ops, count) = revert_items-ops_of scan.items scan.failure [] 0 reverted rev in
        let items = scan-items whole in
        let batched : reverted.0 ++ deletes snapshots ks ≡ batch tx q m ks marked =
          ap (λ r. r ++ deletes snapshots ks) (ops ∙ ap ops_of items) in
        let after =
          λ (c : ColumnFamily). written c ∙ ap (λ b. apply_batch c b (l.entries s.db c)) batched in
        record {
          meta = meta;
          found = found;
          next = get-insert-same s.journal_seq tx q;
          values = λ k mine. rw mine (
              ap (λ r. get r k) (after default)
              ∙ values-batch tx q m ks marked (l.entries s.db default) k);
          log =
              ap (retain (on_key (starts_with (journal_prefix tx)))) (after snapshots)
              ∙ log-batch tx q m ks marked;
          marks_left = λ k mark.
              ap (λ r. get r k) (after snapshots) ∙ marks_left tx q m ks marked step later k mark;
          marks_kept = λ k v h.
              marks-batch tx q m ks marked k v (sym (ap (λ r. get r k) (after snapshots)) ∙ h);
          count = omega (arith, count, ap length (items ∙ ap reverse (retain-newer tx q m)));
        }

    restore-written :
        (reverted : List BatchOp × ℕ) (ops : List BatchOp)
        → revert_items scan.items scan.failure [] 0 ≡ ok reverted
        → (later_snapshots d tx step s).0 ≡ ok ops
        → RestoreCases
    unfolding restore_snapshot ◌>>=◌ set_journal_seq
    restore-written reverted ops rev lat = elim (write-cases d l (reverted.0 ++ ops) s) [
      | inl (e, failed) ↦ inl (e, rw (known, rev, lat, later-reads, failed))
      | inr (db, done, written) ↦
          let (ks, dels, marked, later) = later-AreMarks ops lat in
          inr (
            reverted.1,
            record s { db = db; journal_seq = insert s.journal_seq tx meta.journal_seq },
            rw (known, rev, lat, later-reads, done),
            restored reverted ks db rev marked later (λ c.
                written c ∙ ap (λ o. apply_batch c (reverted.0 ++ o) (l.entries s.db c)) dels),
          )
    ]

  -- `restore_snapshot` fails and changes nothing; or the snapshot was found, the values of the
  -- transaction are those that undoing the journal entries from its pointer on gives, the newest
  -- first, these entries are gone and the older ones kept, the next sequence number is the pointer,
  -- the snapshots of later steps are gone and the others stay, and the number that is returned counts
  -- the entries undone.
  pub restore_snapshot-cases :
      ((e : AgentTxError) × (restore_snapshot d metas id s ≡ (err e, s)))
      ⊎ ((n : ℕ) × (t : RocksStore Db) × (restore_snapshot d metas id s ≡ (ok n, t)) × Restored n t)
  unfolding restore_snapshot ◌>>=◌
  restore_snapshot-cases = elim known_meta-cases [
    | inl (e, failed) ↦ inl (e, rw failed)
    | inr (meta, known, found) ↦
        let items = newer_entries d tx meta.journal_seq s in
        elim (Result-cases (revert_items items.items items.failure [] 0)) [
          | inr (e, bad) ↦ inl (e, rw (known, bad))
          | inl (reverted, rev) ↦ elim (Result-cases (later_snapshots d tx step s).0) [
            | inr (e, bad) ↦ inl (e, rw (known, rev, bad, later-reads meta found known))
            | inl (ops, lat) ↦ restore-written meta found known reverted ops rev lat
          ]
        ]
  ]
