-- ===== src/Storage/Publish/Commits.antt =====
-- The outcome of `commit`: the overlay is published, and the transaction leaves nothing behind.
use mathlib.Core.Path.{subst, ap₂}
use mathlib.Core.List.{append-nil}
use agent_tx_protocol.Prelude.{
  ℕ, ◌+◌, ◌%◌, ◌≡◌, refl, sym, ap, ◌∙◌, inl, inr, ◌⊎◌, true, false, none, some, List, [], ◌∷◌, ◌++◌,
  Text, get, get-remove, remove, retain, ◌==◌, if◌then◌else◌, length, u64_mod, arith, list_eq,
  nat_eq,
}
use agent_tx_protocol.Errors.{AgentTxError, ok, err, Result-cases}
use agent_tx_protocol.Storage.Keys.{starts_with, prefix_end}
use agent_tx_protocol.Storage.Layout.{
  global, overlay, overlay_prefix, tx_data_prefix, journal_prefix, snapshot_prefix, tx_record,
  commit_version_key,
}
use agent_tx_protocol.Storage.Layout.Prefixes.{starts_with-append, other_kind}
use agent_tx_protocol.Storage.Values.{validate_tx_id, split_overlay, Overlay, le_bytes, version_len}
use agent_tx_protocol.Storage.Database.{
  Bytes, Entries, Database, IsDatabase, BatchOp, put_cf, default, snapshots, ColumnFamily,
  apply_batch, apply_op, put_entry, from_start,
}
use agent_tx_protocol.Storage.Database.Ordered.{on_key, All-on_key, get-put_entry}
use agent_tx_protocol.Storage.Database.Batches.{removing, get-retain, apply_batch-append}
use agent_tx_protocol.Storage.Rocks.{RocksStore, ◌>>=◌}
use agent_tx_protocol.Storage.Rocks.Commit.{commit, overlay_scan, forget_journal_seq}
use agent_tx_protocol.Storage.Restore.Scans.{one_kind}
use agent_tx_protocol.Storage.Restore.Views.{write-cases, IsOrdered-retain}
use agent_tx_protocol.Storage.Publish.Reads.{fails, gives, failed-ne-ok, same_outcome}
use agent_tx_protocol.Storage.Publish.Items.{
  version_in, Publishes, AfterPublish, Publishes-get, Publishes-version, Publishes-own,
  Publishes-snapshots,
}
use agent_tx_protocol.Storage.Publish.Loop.{publish_items-Reads}
use agent_tx_protocol.Storage.Publish.Cleanup.{
  keys_with, removed-gone, removed-kept, retain-prefix, cleanup_ops, cleanup-Reads, default-cleanup,
  snapshots-cleanup,
}

overlay-starts : (tx key : Text) → starts_with (overlay_prefix tx) (overlay tx key) ≡ true
unfolding overlay
overlay-starts tx key = starts_with-append (overlay_prefix tx) key

other_than_version :
    (x : ℕ) (p k : Bytes)
    → (x == b'c') ≡ false
    → starts_with (x ∷ p) k ≡ true
    → (commit_version_key == k) ≡ false
unfolding starts_with
other_than_version x p [] h s = refl
other_than_version x p (c ∷ k) h s = ground arith

module _ {Db : Type 0} (d : Database Db) (l : IsDatabase d) (tx : Text) (s : RocksStore Db) where
  abbrev pub version : ℕ
  version = (s.commit_version + 1) % u64_mod

  abbrev pub data_of : RocksStore Db → Entries
  data_of t = l.entries t.db default

  abbrev overlay_items : Entries
  overlay_items = retain (on_key (starts_with (overlay_prefix tx))) (data_of s)

  -- What a commit that published `n` keys leaves.
  pub record Committed (n : ℕ) (t : RocksStore Db) : Type 0 where
    -- the number of keys of the overlay
    pub count : n ≡ length overlay_items
    -- no key was committed by another since it was first written
    pub based :
        (key raw : Bytes)
        → get (data_of s) (overlay tx key) ≡ some raw
        → (o : Overlay) × (split_overlay raw key ≡ ok o)
          × (version_in (get (data_of s) (global key)) key ≡ ok o.base_version)
    -- each key of the overlay is published under the new version, and no other key is changed
    pub published :
        (key : Text)
        → AfterPublish version key
            (get (data_of s) (overlay tx key))
            (get (data_of s) (global key))
            (get (data_of t) (global key))
    pub no_values :
        (k : Bytes) → starts_with (tx_data_prefix tx) k ≡ true → get (data_of t) k ≡ none
    pub no_journal :
        (k : Bytes)
        → starts_with (journal_prefix tx) k ≡ true
        → get (l.entries t.db snapshots) k ≡ none
    pub no_snapshots :
        (k : Bytes)
        → starts_with (snapshot_prefix tx) k ≡ true
        → get (l.entries t.db snapshots) k ≡ none
    pub versioned : t.commit_version ≡ version
    pub forgotten : t.journal_seq ≡ remove s.journal_seq tx

  pub overlay_all :
      (overlay_scan d tx s).failure ≡ none → (overlay_scan d tx s).items ≡ overlay_items
  unfolding overlay_scan overlay_prefix
  overlay_all whole =
      let prefix = overlay_prefix tx in
      let items = (overlay_scan d tx s).items in
      let (rest, given, complete) =
        l.iterate_lem s.db default prefix (prefix_end prefix) from_start in
      sym (append-nil items)
      ∙ ap (λ r. items ++ r) (sym (complete whole))
      ∙ given
      ∙ retain-prefix (tx_data_prefix tx ++ b's' ∷ []) (data_of s)

  module _ (ops : List BatchOp)
      (published_all : Publishes (data_of s) version (length (overlay_prefix tx)) overlay_items ops)
      (t : RocksStore Db) where
    abbrev batch : List BatchOp
    batch =
        ops
        ++ (put_cf snapshots commit_version_key (le_bytes version_len version)
            ∷ cleanup_ops d l tx s)

    abbrev versions : Entries
    versions =
        put_entry (l.entries s.db snapshots) commit_version_key (le_bytes version_len version)

    data_after :
        l.entries t.db default ≡ apply_batch default batch (data_of s)
        → data_of t
          ≡ removing
              (keys_with (tx_data_prefix tx) (data_of s))
              (apply_batch default ops (data_of s))
    unfolding apply_batch apply_op
    data_after written =
        written
        ∙ apply_batch-append default ops _ (data_of s)
        ∙ default-cleanup d l tx s (apply_batch default ops (data_of s))

    no_values_after :
        l.entries t.db default ≡ apply_batch default batch (data_of s)
        → (k : Bytes) → starts_with (tx_data_prefix tx) k ≡ true
        → get (data_of t) k ≡ none
    no_values_after written k own =
        ap (λ m. get m k) (data_after written)
        ∙ removed-gone (tx_data_prefix tx) (data_of s) (apply_batch default ops (data_of s)) k own
            (Publishes-own tx (data_of s) k published_all own)

    published_after :
        l.entries t.db default ≡ apply_batch default batch (data_of s)
        → (key : Text)
        → AfterPublish version key
            (get (data_of s) (overlay tx key))
            (get (data_of s) (global key))
            (get (data_of t) (global key))
    unfolding global tx_data_prefix
    published_after written key =
        let kept : get (data_of t) (global key)
            ≡ get (apply_batch default ops (data_of s)) (global key) =
          ap (λ m. get m (global key)) (data_after written)
          ∙ removed-kept (tx_data_prefix tx) (data_of s) (apply_batch default ops (data_of s))
              (global key) (other_kind _ _ b'x' b'g' refl) in
        let own : get overlay_items (overlay tx key) ≡ get (data_of s) (overlay tx key) =
          get-retain (starts_with (overlay_prefix tx)) (data_of s) (overlay tx key)
            (overlay-starts tx key) in
        subst
          (λ f.
            AfterPublish version key f (get (data_of s) (global key))
              (get (data_of t) (global key)))
          own
          (subst
            (λ r.
              AfterPublish version key (get overlay_items (overlay tx key))
                (get (data_of s) (global key)) r)
            (sym kept)
            (Publishes-get tx version (data_of s) overlay_items ops (data_of s) key published_all
              (All-on_key (starts_with (overlay_prefix tx)) (data_of s))
              (IsOrdered-retain _ _ (l.entries-IsOrdered s.db default))))

    snapshots_after :
        l.entries t.db snapshots ≡ apply_batch snapshots batch (l.entries s.db snapshots)
        → l.entries t.db snapshots
          ≡ remove
              (removing
                (keys_with (snapshot_prefix tx) (l.entries s.db snapshots))
                (removing (keys_with (journal_prefix tx) (l.entries s.db snapshots)) versions))
              (tx_record tx)
    unfolding apply_batch apply_op
    snapshots_after written =
        written
        ∙ apply_batch-append snapshots ops _ (l.entries s.db snapshots)
        ∙ ap
            (λ m.
              apply_batch snapshots
                (put_cf snapshots commit_version_key (le_bytes version_len version)
                  ∷ cleanup_ops d l tx s)
                m)
            (Publishes-snapshots (l.entries s.db snapshots) published_all)
        ∙ snapshots-cleanup d l tx s versions

    module _
        (written : l.entries t.db snapshots
          ≡ apply_batch snapshots batch (l.entries s.db snapshots))
        (k : Bytes) where
      abbrev before : Entries
      before = l.entries s.db snapshots

      -- a key that is not that of the commit version
      versions-get : (commit_version_key == k) ≡ false → get versions k ≡ get before k
      versions-get other =
          get-put_entry before commit_version_key k (le_bytes version_len version)
          ∙ ap (λ b. if b then some (le_bytes version_len version) else get before k) other

      removed_last : (m : Entries) → get m k ≡ none → get (remove m (tx_record tx)) k ≡ none
      removed_last m h = ground (arith, get-remove m (tx_record tx) k)

      no_journal_after :
          starts_with (journal_prefix tx) k ≡ true → get (l.entries t.db snapshots) k ≡ none
      unfolding journal_prefix snapshot_prefix
      no_journal_after h =
          let cleaned = removing (keys_with (journal_prefix tx) before) versions in
          ap (λ m. get m k) (snapshots_after written)
          ∙ removed_last (removing (keys_with (snapshot_prefix tx) before) cleaned) (
              removed-kept (snapshot_prefix tx) before cleaned k (one_kind _ _ k b'j' b'm' refl h)
              ∙ removed-gone (journal_prefix tx) before versions k h
                  (versions-get (other_than_version b'j' _ k refl h)))

      no_snapshots_after :
          starts_with (snapshot_prefix tx) k ≡ true → get (l.entries t.db snapshots) k ≡ none
      unfolding journal_prefix snapshot_prefix
      no_snapshots_after h =
          let cleaned = removing (keys_with (journal_prefix tx) before) versions in
          ap (λ m. get m k) (snapshots_after written)
          ∙ removed_last (removing (keys_with (snapshot_prefix tx) before) cleaned) (
              removed-gone (snapshot_prefix tx) before cleaned k h (
                removed-kept (journal_prefix tx) before versions k (one_kind _ _ k b'm' b'j' refl h)
                ∙ versions-get (other_than_version b'm' _ k refl h)))

    based_on :
        (key raw : Bytes)
        → get (data_of s) (overlay tx key) ≡ some raw
        → (o : Overlay) × (split_overlay raw key ≡ ok o)
          × (version_in (get (data_of s) (global key)) key ≡ ok o.base_version)
    based_on key raw found =
        Publishes-version tx version (data_of s) overlay_items ops key raw published_all
          (All-on_key (starts_with (overlay_prefix tx)) (data_of s))
          (get-retain (starts_with (overlay_prefix tx)) (data_of s) (overlay tx key)
              (overlay-starts tx key)
            ∙ found)

    left_behind :
        t.commit_version ≡ version
        → t.journal_seq ≡ remove s.journal_seq tx
        → ((c : ColumnFamily) → l.entries t.db c ≡ apply_batch c batch (l.entries s.db c))
        → Committed (length overlay_items) t
    left_behind v f written = record {
      count = refl;
      based = based_on;
      published = published_after (written default);
      no_values = no_values_after (written default);
      no_journal = no_journal_after (written snapshots);
      no_snapshots = no_snapshots_after (written snapshots);
      versioned = v;
      forgotten = f;
    }

  abbrev commit_batch : List BatchOp → List BatchOp → List BatchOp
  commit_batch published removed =
      published ++ (put_cf snapshots commit_version_key (le_bytes version_len version) ∷ removed)

  abbrev after_commit : Db → RocksStore Db
  after_commit db = record {
    db = db;
    journal_seq = remove s.journal_seq tx;
    commit_version = version;
  }

  outcome :
      (db : Db) (ops : List BatchOp) (r : List BatchOp × ℕ) (removed : List BatchOp)
      {items : Entries}
      → items ≡ overlay_items
      → Publishes (data_of s) version (length (overlay_prefix tx)) items ops
      → r ≡ (ops, 0 + length items)
      → removed ≡ cleanup_ops d l tx s
      → ((c : ColumnFamily)
          → l.entries db c ≡ apply_batch c (commit_batch r.0 removed) (l.entries s.db c))
      → Committed r.1 (after_commit db)
  outcome db ops r removed {items = items} items_are all r_is removed_is written =
      let all' =
        subst (λ i. Publishes (data_of s) version (length (overlay_prefix tx)) i ops) items_are
          all in
      let same_length : length items ≡ length overlay_items = ap (λ i. length i) items_are in
      let counted : r.1 ≡ 0 + length items = ap (λ x. x.1) r_is in
      let count : r.1 ≡ length overlay_items = omega arith in
      let written' : (c : ColumnFamily)
          → l.entries db c
            ≡ apply_batch c (commit_batch ops (cleanup_ops d l tx s)) (l.entries s.db c) =
        λ c.
          written c
          ∙ ap₂ (λ x y. apply_batch c (commit_batch x y) (l.entries s.db c)) (ap (λ x. x.0) r_is)
              removed_is in
      subst (λ n. Committed n (after_commit db)) (sym count)
        (left_behind ops all' (after_commit db) refl refl written')

  -- A commit fails and changes nothing; or it publishes each key of the overlay, a value under the
  -- new version or a deletion, changes no other committed key, returns the number of these keys,
  -- leaves no value, output, journal entry or snapshot of the transaction, and each key that it wrote
  -- had, when it committed, the version that the transaction was based on.
  pub commit-cases :
      ((e : AgentTxError) × (commit d tx s ≡ (err e, s)))
      ⊎ ((n : ℕ) × (t : RocksStore Db) × (commit d tx s ≡ (ok n, t)) × Committed n t)
  unfolding commit ◌>>=◌ forget_journal_seq
  commit-cases = elim (Result-cases (validate_tx_id tx)) [
    | inr (e, bad) ↦ inl (e, rw bad)
    | inl (u, valid) ↦
        let scan = overlay_scan d tx s in
        elim (publish_items-Reads d l s version (length (overlay_prefix tx)) scan.items scan.failure
          [] 0) [
            | fails e bad ↦ inl (e, rw (valid, bad))
            | gives r found (ops, all, whole, r_is) ↦ elim (cleanup-Reads d l tx s) [
              | fails e bad ↦ inl (e, rw (valid, found, bad))
              | gives removed cleaned removed_is ↦
                  elim (write-cases d l (commit_batch r.0 removed) s) [
                    | inl (e, bad) ↦ inl (e, rw (valid, found, cleaned, bad))
                    | inr (db, done, written) ↦ inr (
                      r.1,
                      after_commit db,
                      rw (valid, found, cleaned, done),
                      outcome db ops r removed (overlay_all whole) all r_is removed_is written,
                    )
                  ]
            ]
          ]
  ]

  -- The outcome of a commit that is known to succeed.
  pub commit-Committed : {t : RocksStore Db} {n : ℕ} → commit d tx s ≡ (ok n, t) → Committed n t
  commit-Committed done = elim commit-cases [
    | inl (e, failed) ↦ absurd (failed-ne-ok (sym failed ∙ done))
    | inr (n', t', done', c) ↦ subst (λ r. Committed r.0 r.1) (same_outcome (sym done' ∙ done)) c
  ]
