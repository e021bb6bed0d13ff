-- ===== src/Storage/Restore/Operations.antt =====
-- The writes and the new snapshots of a transaction keep its earlier snapshots.
use agent_tx_protocol.Prelude.{
  ℕ, ◌≤◌, ◌<◌, ◌≡◌, refl, inl, inr, ◌⊎◌, true, list_eq, nat_eq, Option, none, some, [], ◌∷◌, Text,
  get, length, length-append, u32_mod, arith,
}
use agent_tx_protocol.Errors.{AgentTxError, ok, err, Result-cases}
use agent_tx_protocol.Storage.Keys.{starts_with}
use agent_tx_protocol.Storage.Layout.{tx_data_prefix, snapshot, overlay, output, global}
use agent_tx_protocol.Storage.Values.{validate_key, validate_tx_id, encode_overlay}
use agent_tx_protocol.Storage.Database.{
  Bytes, Database, IsDatabase, put_cf, default, snapshots, ColumnFamily, apply_batch,
}
use agent_tx_protocol.Storage.Rocks.{
  SnapshotId, SnapshotMeta, Codec, RocksStore, Method, lift, ◌>>=◌, get_cf, committed_version,
  base_version, or_load, journaled_write, write_overlay, put_output,
}
use agent_tx_protocol.Storage.Rocks.Snapshots.{create_snapshot}
use agent_tx_protocol.Storage.Restore.Changes.{unchanged, IsLogged}
use agent_tx_protocol.Storage.Restore.Views.{view, marks, write-cases}
use agent_tx_protocol.Storage.Restore.Others.{overlay-starts_with, output-starts_with}
use agent_tx_protocol.Storage.Restore.Writes.{Moves, bind-reads, journaled_write-Moves}

valid-length : (tx : Text) {u : Unit {0}} → validate_tx_id tx ≡ ok u → length tx ≤ 128
unfolding validate_tx_id
valid-length tx h = ground arith

key-length : (key : Text) {u : Unit {0}} → validate_key key ≡ ok u → length key ≤ 1024
unfolding validate_key
key-length key h = ground arith

-- Keys that pass the checks fit the length of a journal entry.
overlay-short :
    (tx key : Text) {u v : Unit {0}}
    → validate_tx_id tx ≡ ok u
    → validate_key key ≡ ok v
    → length (overlay tx key) < u32_mod
unfolding overlay
overlay-short tx key h k = simp length-append (omega (arith, valid-length tx h, key-length key k))

output-short :
    (tx : Text) (step : ℕ) {u : Unit {0}}
    → validate_tx_id tx ≡ ok u
    → length (output tx step) < u32_mod
unfolding output
output-short tx step h = simp length-append (omega (arith, valid-length tx h))

module _ {Db : Type 0} (d : Database Db) where
  pub base_version-reads :
      (key : Text) (prior : Option Bytes) (s : RocksStore Db) → (base_version d key prior s).1 ≡ s
  unfolding base_version committed_version get_cf ◌>>=◌
  base_version-reads key (some raw) s = ground arith
  base_version-reads key none s = elim (Result-cases (d.get_cf s.db default (global key))) [
    | inr (e, bad) ↦ rw bad
    | inl (none, got) ↦ rw got
    | inl (some v, got) ↦ rw got (ground arith)
  ]

  module _ (l : IsDatabase d) (tx : Text) (p top n : ℕ) (s : RocksStore Db)
      (valid : validate_tx_id tx ≡ ok tt) (known : get s.journal_seq tx ≡ some n)
      (logged : IsLogged tx n (view d l tx s)) where
    -- The transaction's snapshots stay, and can all be restored.
    pub record Kept (t : RocksStore Db) : Type 0 where
      pub moves : Moves d l tx p top s t
      pub snaps : marks d l tx t ≡ marks d l tx s

    nothing_done : Kept s
    nothing_done = record { moves = (unchanged (λ k own_key. refl) refl refl, tt); snaps = refl }

    pub record Keeping {A : Type 0} (m : Method Db A) : Type 0 where
      pub at : Kept (m s).1

    Keeping-read :
        {A B : Type 0} (m : Method Db A) (f : A → Method Db B)
        → (m s).1 ≡ s
        → ((a : A) → (m s).0 ≡ ok a → Keeping (f a))
        → Keeping (m >>= f)
    Keeping-read m f same k = record {
      at = bind-reads m f s Kept same nothing_done (λ a good. (k a good).at);
    }

    kept_write :
        (raw v : Bytes) (prior : Option Bytes)
        → starts_with (tx_data_prefix tx) raw ≡ true
        → length raw < u32_mod
        → prior ≡ get (l.entries s.db default) raw
        → Keeping (journaled_write d tx raw prior (some v))
    kept_write raw v prior mine short before =
        let (moves, snaps) =
          journaled_write-Moves d l tx p top n s known logged raw v prior mine short before in
        record { at = record { moves = moves; snaps = snaps } }

    pub write_overlay-Keeping :
        (key : Text) (value : Option Bytes) → Keeping (write_overlay d tx key value)
    unfolding write_overlay get_cf
    write_overlay-Keeping key value = Keeping-read (lift (validate_key key)) _ refl (λ u good.
        Keeping-read (get_cf d (overlay tx key)) _ refl (λ prior got.
          Keeping-read (base_version d key prior) _ (base_version-reads key prior s) (λ base _.
            kept_write (overlay tx key) (encode_overlay value base) prior
              (overlay-starts_with tx key) (overlay-short tx key valid good)
              (l.get_cf_lem s.db default (overlay tx key) prior got))))

    pub put_output-Keeping : (step : ℕ) (value : Bytes) → Keeping (put_output d tx step value)
    unfolding put_output get_cf
    put_output-Keeping step value = Keeping-read (get_cf d (output tx step)) _ refl (λ prior got.
        kept_write (output tx step) value prior (output-starts_with tx step)
          (output-short tx step valid) (l.get_cf_lem s.db default (output tx step) prior got))

    -- A new snapshot points to the end of the journal.
    pub create_snapshot-cases :
        (metas : Codec SnapshotMeta) (i now : ℕ)
        → ((e : AgentTxError) × (create_snapshot d metas tx i now s ≡ (err e, s)))
          ⊎ ((id : SnapshotId) × (t : RocksStore Db) × (value : Bytes) × (meta : SnapshotMeta)
              × (create_snapshot d metas tx i now s ≡ (ok id, t))
              × (metas.to_vec meta ≡ ok value)
              × (meta.journal_seq ≡ n)
              × (get t.journal_seq tx ≡ get s.journal_seq tx)
              × ((c : ColumnFamily)
                  → l.entries t.db c
                    ≡ apply_batch c
                        (put_cf snapshots (snapshot tx i) value ∷ [])
                        (l.entries s.db c)))
    unfolding create_snapshot ◌>>=◌ or_load
    create_snapshot-cases metas i now =
        let meta : SnapshotMeta = record {
          id = record { tx_id = tx; step_id = i };
          journal_seq = n;
          rocksdb_sequence = d.latest_sequence_number s.db;
          created_at_ms = now;
        } in
        elim (Result-cases (metas.to_vec meta)) [
          | inr (e, bad) ↦ inl (e, rw (valid, known, bad))
          | inl (value, good) ↦
              elim (write-cases d l (put_cf snapshots (snapshot tx i) value ∷ []) s) [
                | inl (e, failed) ↦ inl (e, rw (valid, known, good, failed))
                | inr (db, done, written) ↦ inr (
                  meta.id,
                  record s { db = db },
                  value,
                  meta,
                  rw (valid, known, good, done),
                  good,
                  refl,
                  refl,
                  written,
                )
              ]
        ]
