-- ===== src/Storage/Publish/Returns.antt =====
-- `commit` succeeds where the database does not fail and no key of the overlay has a conflict.
use mathlib.Core.Path.{subst}
use agent_tx_protocol.Prelude.{
  ℕ, ◌+◌, ◌≡◌, refl, sym, ap, ◌∙◌, inl, inr, true, nat_eq, list_eq, nat_same_iff, none, List, [],
  ◌∷◌, ◌++◌, Text, get, remove, retain, All, length, drop, is_utf8, Option-cases,
}
use agent_tx_protocol.Errors.{AgentTxError, Result, ok, err, Result-cases}
use agent_tx_protocol.Storage.Keys.{starts_with, prefix_end}
use agent_tx_protocol.Storage.Layout.{
  global, overlay_prefix, tx_data_prefix, journal_prefix, snapshot_prefix, saga_prefix, tx_record,
  commit_version_key,
}
use agent_tx_protocol.Storage.Values.{
  validate_tx_id, split_overlay, split_versioned, Overlay, le_bytes, version_len,
}
use agent_tx_protocol.Storage.Database.{
  Bytes, Entry, Entries, Database, IsDatabase, BatchOp, put_cf, delete_cf, ColumnFamily, default,
  snapshots, saga_logs, from_start,
}
use agent_tx_protocol.Storage.Database.Ordered.{on_key}
use agent_tx_protocol.Storage.Rocks.{RocksStore, ◌>>=◌, committed_version, get_cf, write}
use agent_tx_protocol.Storage.Rocks.Snapshots.{delete_items}
use agent_tx_protocol.Storage.Rocks.Commit.{
  commit, publish_items, publish_entry, publish_op, cleanup, state_cleanup, delete_prefix,
  overlay_scan, forget_journal_seq,
}
use agent_tx_protocol.Storage.Restore.Returns.{IsReliable, delete_items-Returns}
use agent_tx_protocol.Storage.Publish.Items.{version_in, version_of}
use agent_tx_protocol.Storage.Publish.Reads.{same_result}
use agent_tx_protocol.Storage.Publish.Commits.{version, overlay_all}

err-ne-ok : {A : Type 0} {e : AgentTxError} {a : A} → ◌≡◌ {A = Result A} (err e) (ok a) → ⊥
err-ne-ok h = cc

module _ {Db : Type 0} (d : Database Db) (l : IsDatabase d) (reliable : IsReliable d)
    (s : RocksStore Db) where
  abbrev committed : Entries
  committed = l.entries s.db default

  -- An entry of the overlay that can be published: `n` is the length of the overlay's prefix.
  pub record IsCurrent (n : ℕ) (e : Entry) : Type 0 where
    pub is_text : is_utf8 (drop n e.0) ≡ true
    pub value : Overlay
    pub is_read : split_overlay e.1 (drop n e.0) ≡ ok value
    pub is_current :
        version_in (get committed (global (drop n e.0))) (drop n e.0) ≡ ok value.base_version

  committed_version-Returns :
      (key : Text) (v : ℕ)
      → version_in (get committed (global key)) key ≡ ok v
      → committed_version d key s ≡ (ok v, s)
  unfolding committed_version get_cf ◌>>=◌
  committed_version-Returns key v h =
      let (found, got) = reliable.reads s.db default (global key) in
      let is = l.get_cf_lem s.db default (global key) found got in
      let h' = ap (λ o. version_in o key) is ∙ h in
      elim (Option-cases found) [
        | inl absent ↦
            rw (got, absent)
              (ap (λ n. (ok n, s)) (same_result (ap (λ o. version_in o key) (sym absent) ∙ h')))
        | inr (raw, there) ↦
            let h'' = ap (λ o. version_in o key) (sym there) ∙ h' in
            elim (Result-cases (split_versioned raw key)) [
              | inr (e, bad) ↦ absurd (err-ne-ok (sym (ap version_of bad) ∙ h''))
              | inl (w, good) ↦
                  rw (got, there, good)
                    (ap (λ n. (ok n, s)) (same_result (sym (ap version_of good) ∙ h'')))
            ]
      ]

  publish_entry-Returns :
      (v n : ℕ) (raw value : Bytes)
      → IsCurrent n (raw, value)
      → (op : BatchOp) × (publish_entry d v raw (drop n raw) value s ≡ (ok op, s))
  unfolding publish_entry ◌>>=◌
  publish_entry-Returns v n raw value h =
      let same = (nat_same_iff h.value.base_version h.value.base_version).1 refl in
      let current = committed_version-Returns (drop n raw) h.value.base_version h.is_current in
      (publish_op v (drop n raw) h.value, rw (h.is_text, h.is_read, current, same) refl)

  publish_items-Returns :
      (v n : ℕ) (items : Entries) (batch : List BatchOp) (published : ℕ)
      → All (IsCurrent n) items
      → (r : List BatchOp × ℕ) × (publish_items d v n items none batch published s ≡ (ok r, s))
  unfolding publish_items ◌>>=◌
  publish_items-Returns v n [] batch published h = ((batch, published), refl)
  publish_items-Returns v n ((raw, value) ∷ rest) batch published (first, h) =
      let (op, done) = publish_entry-Returns v n raw value first in
      let (r, all_done) = publish_items-Returns v n rest (batch ++ op ∷ []) (published + 1) h in
      (r, rw done all_done)

  -- the loop over the keys with a prefix
  prefix-Returns :
      (c : ColumnFamily) (prefix : Bytes)
      → (ops : List BatchOp) × (delete_items c
            (d.iterate s.db c prefix (prefix_end prefix) from_start).items
            (d.iterate s.db c prefix (prefix_end prefix) from_start).failure
          ≡ ok ops)
  prefix-Returns c prefix =
      let scan = d.iterate s.db c prefix (prefix_end prefix) from_start in
      let (ops, done) = delete_items-Returns c scan.items in
      (
        ops,
        ap (λ f. delete_items c scan.items f)
              (reliable.iterates s.db c prefix (prefix_end prefix) from_start)
            ∙ done,
      )

  cleanup-Returns : (tx : Text) → (ops : List BatchOp) × (cleanup d tx s ≡ (ok ops, s))
  unfolding cleanup state_cleanup delete_prefix ◌>>=◌
  cleanup-Returns tx =
      let (x, xs) = prefix-Returns default (tx_data_prefix tx) in
      let (j, js) = prefix-Returns snapshots (journal_prefix tx) in
      let (m, ms) = prefix-Returns snapshots (snapshot_prefix tx) in
      let (u, us) = prefix-Returns saga_logs (saga_prefix tx) in
      ((x ++ (j ++ m)) ++ (u ++ delete_cf snapshots (tx_record tx) ∷ []), rw (xs, js, ms, us) refl)

  -- On a database that has the laws `IsDatabase` and no call of which fails, the commit of a valid
  -- transaction succeeds, if each key of its overlay is text, its value can be read, and the key still
  -- has the committed version that the value is based on.
  pub commit-Returns :
      (tx : Text)
      → validate_tx_id tx ≡ ok tt
      → All
          (IsCurrent (length (overlay_prefix tx)))
          (retain (on_key (starts_with (overlay_prefix tx))) (l.entries s.db default))
      → (n : ℕ) × (t : RocksStore Db) × (commit d tx s ≡ (ok n, t))
  unfolding commit write forget_journal_seq ◌>>=◌ overlay_scan
  commit-Returns tx valid current =
      let scan = overlay_scan d tx s in
      let whole : scan.failure ≡ none =
        reliable.iterates s.db default (overlay_prefix tx) (prefix_end (overlay_prefix tx))
          from_start in
      let v = version d l tx s in
      let n = length (overlay_prefix tx) in
      let (r, published) =
        publish_items-Returns v n scan.items [] 0
          (subst (λ i. All (IsCurrent n) i) (sym (overlay_all d l tx s whole)) current) in
      let publishes : publish_items d v n scan.items scan.failure [] 0 s ≡ (ok r, s) =
        ap (λ f. publish_items d v n scan.items f [] 0 s) whole ∙ published in
      let (removed, cleaned) = cleanup-Returns tx in
      let (db, done) =
        reliable.writes s.db
          (r.0 ++ (put_cf snapshots commit_version_key (le_bytes version_len v) ∷ removed)) in
      (
        r.1,
        record { db = db; journal_seq = remove s.journal_seq tx; commit_version = v },
        rw (valid, publishes, cleaned, done) refl,
      )
