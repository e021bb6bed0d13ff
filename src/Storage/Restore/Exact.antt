-- ===== src/Storage/Restore/Exact.antt =====
-- `restore_snapshot` brings back exactly what `create_snapshot` saw.
use mathlib.Core.Path.{subst}
use mathlib.Core.List.{reverse}
use agent_tx_protocol.Storage.Restore.Undo.{unwind}
use agent_tx_protocol.Storage.Restore.Writes.{own-get}
use agent_tx_protocol.Prelude.{
  ℕ, ◌+◌, ◌<◌, ◌≡◌, refl, sym, ap, ◌∙◌, inl, inr, ◌⊎◌, list_eq, nat_eq, Option, none, some, List,
  [], ◌∷◌, ◌++◌, Text, get, insert, Option-cases, get-insert-same, length, u32_mod, u64_mod, lt→ltb,
  arith, All, retain,
}
use agent_tx_protocol.Errors.{AgentTxError, Result, ok, err}
use agent_tx_protocol.Storage.Keys.{key_lt, starts_with, prefix_end}
use agent_tx_protocol.Storage.Layout.{journal_prefix, snapshot, journal}
use agent_tx_protocol.Storage.Layout.Numbers.{key_lt-journal}
use agent_tx_protocol.Storage.Values.{validate_tx_id}
use agent_tx_protocol.Storage.Database.{
  Bytes, Entries, Database, IsDatabase, put_cf, within, from_end, default, snapshots, ColumnFamily,
  apply_batch,
}
use agent_tx_protocol.Storage.Rocks.{
  SnapshotId, SnapshotMeta, Codec, RocksStore, ◌>>=◌, set_journal_seq, seq_after,
  load_next_journal_seq, or_load, peek_journal_seq,
}
use agent_tx_protocol.Storage.Database.Ordered.{on_key}
use agent_tx_protocol.Storage.Database.Batches.{retain-agree, agree}
use agent_tx_protocol.Storage.Layout.Prefixes.{is_within-prefix}
use agent_tx_protocol.Storage.Rocks.Snapshots.{create_snapshot, restore_snapshot}
use agent_tx_protocol.Storage.Restore.Changes.{IsOwn, IsEntry, IsLogged, newer, undone}
use agent_tx_protocol.Storage.Restore.Views.{view, values-unchanged, log-unchanged}
use agent_tx_protocol.Storage.Restore.Operations.{create_snapshot-cases}
use agent_tx_protocol.Storage.Restore.Rewinds.{restore_snapshot-cases}
use agent_tx_protocol.Storage.Restore.Steps.{StoreOp, Fits, run}
use agent_tx_protocol.Storage.Restore.Tracked.{
  IsCodec, Tracked, run-Tracked, stored_after, stored_put, here-seq, same_meta, snapshot-not_entry,
}

failed-ne-ok :
    {Db : Type 0} {e : AgentTxError} {n : ℕ} {s t : RocksStore Db}
    → ◌≡◌ {A = Result ℕ × RocksStore Db} (err e, s) (ok n, t)
    → ⊥
failed-ne-ok h = cc

not_created :
    {Db : Type 0} {e : AgentTxError} {i : SnapshotId} {s t : RocksStore Db}
    → ◌≡◌ {A = Result SnapshotId × RocksStore Db} (err e, s) (ok i, t)
    → ⊥
not_created h = cc

none-ne-some : {v : Bytes} → ◌≡◌ {A = Option Bytes} none (some v) → ⊥
none-ne-some h = cc

nothing_given : (xs ys : Entries) → xs ++ ys ≡ [] → xs ≡ []
nothing_given [] ys h = refl
nothing_given (x ∷ xs) ys h = cc

retain-journal :
    (tx : Text) (m : Entries)
    → retain (within (journal_prefix tx) (prefix_end (journal_prefix tx))) m
      ≡ retain (on_key (starts_with (journal_prefix tx))) m
unfolding journal_prefix
retain-journal tx m = retain-agree _ _ m (agree _ _ m (is_within-prefix (b'j' ∷ b'/' ∷ tx)))

-- nothing is newer than the end of the journal
newer-nil :
    (tx : Text) (n : ℕ) (m : Entries) → n < u64_mod → All (IsEntry tx n) m → newer tx n m ≡ []
unfolding retain
newer-nil tx n [] h a = refl
newer-nil tx n (e ∷ m) h a =
    let below =
      ap (λ k. key_lt k (journal tx n)) a.0.2
      ∙ key_lt-journal tx a.0.0 n (omega arith) h
      ∙ lt→ltb a.0.0 n a.0.1 in
    rw below (newer-nil tx n m h a.1)

module _ {Db : Type 0} (d : Database Db) (l : IsDatabase d) (metas : Codec SnapshotMeta)
    (good : IsCodec metas) (tx : Text) (valid : validate_tx_id tx ≡ ok tt) (step : ℕ)
    (small : step < u32_mod) where
  abbrev stored : RocksStore Db → Bytes → Option Bytes
  stored t k = get (l.entries t.db snapshots) k

  abbrev id : SnapshotId
  id = record { tx_id = tx; step_id = step }

  -- The values of the transaction are those at its snapshot.
  restored-base :
      (p top : ℕ) (base : Bytes → Option Bytes) (s t : RocksStore Db) (n : ℕ)
      → Tracked d l metas good tx valid step small p base top s
      → restore_snapshot d metas id s ≡ (ok n, t)
      → (k : Bytes) → IsOwn tx k
      → (view d l tx t).values k ≡ base k
  restored-base p top base s t n h done k mine = elim (restore_snapshot-cases d l metas tx step s) [
    | inl (e, failed) ↦ absurd (failed-ne-ok (sym failed ∙ done))
    | inr (n', t', done', r) ↦
        ap (λ x. (view d l tx x).values k) (sym (ap (λ x. x.1) (sym done' ∙ done)))
        ∙ r.values k mine
        ∙ ap (λ q. undone tx q (view d l tx s) k)
            (here-seq d l metas good tx valid step small p base r.found.value r.meta h
              r.found.is_stored r.found.is_read)
        ∙ h.tracks.undoes k mine
  ]

  -- No snapshot of a later step is stored, as after the begin of the transaction and each rewind.
  abbrev pub IsLatest : RocksStore Db → Type 0
  IsLatest s = (i : ℕ) → step < i → i < u32_mod → stored s (snapshot tx i) ≡ none

  module _ (n : ℕ) (s : RocksStore Db) (logged : IsLogged tx n (view d l tx s))
      (latest : IsLatest s) where
    taken :
        (t : RocksStore Db) (value : Bytes) (meta : SnapshotMeta)
        → metas.to_vec meta ≡ ok value
        → meta.journal_seq ≡ n
        → get t.journal_seq tx ≡ get s.journal_seq tx
        → ((c : ColumnFamily)
            → l.entries t.db c
              ≡ apply_batch c (put_cf snapshots (snapshot tx step) value ∷ []) (l.entries s.db c))
        → Tracked d l metas good tx valid step small n (view d l tx s).values n t
    unfolding unwind
    taken t value meta encoded seq kept written =
        let batch = put_cf snapshots (snapshot tx step) value ∷ [] in
        let base = (view d l tx s).values in
        let log =
          log-unchanged d l tx batch s t written
            (snapshot-not_entry d l metas good tx valid step small n base step, tt) in
        let read_back = same_meta d l metas good tx valid step small n base value meta encoded in
        let found_in = stored_after d l metas good tx valid step small n base s t step in
        record {
          tracks = record {
            next = n;
            reached = omega arith;
            capped = omega arith;
            logged = record {
              known = kept ∙ logged.known;
              bounded = logged.bounded;
              entries = rw log logged.entries;
            };
            undoes = λ k mine.
                ap (λ m. unwind (reverse (newer tx n m)) k ((view d l tx t).values k)) log
                ∙ ap (λ m. unwind (reverse m) k ((view d l tx t).values k))
                    (newer-nil tx n (view d l tx s).log logged.bounded logged.entries)
                ∙ values-unchanged d l tx batch s t written (refl, tt) k;
          };
          pointers = λ i v m from small_i found read.
              elim (found_in i value v small small_i written found) [
                | inl (same, new) ↦
                    let q = ap (λ x. x.journal_seq) (read_back m v new read) in
                    (omega arith, omega arith)
                | inr (later, old) ↦
                    absurd (none-ne-some (sym (latest i (omega arith) small_i) ∙ old))
              ];
          here = (
            value,
            meta,
            stored_put d l metas good tx valid step small n base s t step step value small small
                  written
                ∙ ground arith,
            good.from_slice-to_vec meta value encoded,
            seq,
          );
        }

    created-Tracked :
        (now : ℕ) (i : SnapshotId) (t : RocksStore Db)
        → create_snapshot d metas tx step now s ≡ (ok i, t)
        → Tracked d l metas good tx valid step small n (view d l tx s).values n t
    created-Tracked now i t done =
        elim (create_snapshot-cases d l tx n n n s valid logged.known logged metas step now) [
          | inl (e, failed) ↦ absurd (not_created (sym failed ∙ done))
          | inr (i', t', value, meta, done', encoded, seq, kept, written) ↦
              subst (λ x. Tracked d l metas good tx valid step small n (view d l tx s).values n x)
                (ap (λ x. x.1) (sym done' ∙ done)) (taken t' value meta encoded seq kept written)
        ]

    known-Tracked :
        (now : ℕ) (i : SnapshotId) (s₁ : RocksStore Db) (ops : List (Text × StoreOp))
        → create_snapshot d metas tx step now s ≡ (ok i, s₁)
        → n + length ops < u64_mod
        → All (λ o. Fits tx step o.0 o.1) ops
        → Tracked d l metas good tx valid step small n
            (view d l tx s).values
            (n + length ops)
            (run d metas ops s₁)
    known-Tracked now i s₁ ops done room fits =
        run-Tracked d l metas good tx valid step small n (view d l tx s).values ops n s₁ room fits
          (created-Tracked now i s₁ done)

  abbrev numbered : RocksStore Db → RocksStore Db
  numbered s = record s { journal_seq = insert s.journal_seq tx 0 }

  -- An empty journal is numbered from 0 on.
  peek-fresh :
      (s : RocksStore Db)
      → get s.journal_seq tx ≡ none
      → (view d l tx s).log ≡ []
      → ((e : AgentTxError) × (peek_journal_seq d tx s ≡ (err e, s)))
        ⊎ (peek_journal_seq d tx s ≡ (ok 0, numbered s))
  unfolding peek_journal_seq or_load load_next_journal_seq seq_after ◌>>=◌ set_journal_seq
  peek-fresh s unknown empty =
      let prefix = journal_prefix tx in
      let scan = d.iterate s.db snapshots prefix (prefix_end prefix) from_end in
      let (rest, given, complete) =
        l.iterate_lem s.db snapshots prefix (prefix_end prefix) from_end in
      let nothing : scan.items ≡ [] =
        nothing_given scan.items rest
          (given ∙ ap reverse (retain-journal tx (l.entries s.db snapshots) ∙ empty)) in
      elim (Option-cases scan.failure) [
        | inl whole ↦ inr (rw unknown (rw nothing (rw whole)))
        | inr (e, broken) ↦ inl (e, rw unknown (rw nothing (rw broken)))
      ]

  create-numbered :
      (s s₁ : RocksStore Db) (now : ℕ) (i : SnapshotId)
      → get s.journal_seq tx ≡ none
      → (view d l tx s).log ≡ []
      → create_snapshot d metas tx step now s ≡ (ok i, s₁)
      → create_snapshot d metas tx step now (numbered s) ≡ (ok i, s₁)
  unfolding create_snapshot ◌>>=◌ or_load
  create-numbered s s₁ now i unknown empty done = elim (peek-fresh s unknown empty) [
    | inl (e, failed) ↦ absurd (not_created (rw (valid, failed) at done))
    | inr numbered_now ↦
        rw (valid, get-insert-same s.journal_seq tx 0) (rw (valid, numbered_now) at done)
  ]

  -- The next sequence number is known, or the transaction has no journal yet.
  abbrev pub IsReady : ℕ → RocksStore Db → Type 0
  IsReady n s =
      IsLogged tx n (view d l tx s)
      ⊎ ((n ≡ 0) × (get s.journal_seq tx ≡ none) × ((view d l tx s).log ≡ []))

  -- The snapshot is kept through the operations.
  pub taken-Tracked :
      (n : ℕ) (s s₁ : RocksStore Db) (now : ℕ) (i : SnapshotId) (ops : List (Text × StoreOp))
      → IsReady n s
      → IsLatest s
      → create_snapshot d metas tx step now s ≡ (ok i, s₁)
      → n + length ops < u64_mod
      → All (λ o. Fits tx step o.0 o.1) ops
      → Tracked d l metas good tx valid step small n
          (view d l tx s).values
          (n + length ops)
          (run d metas ops s₁)
  taken-Tracked n s s₁ now i ops (inl logged) latest done room fits =
      known-Tracked n s logged latest now i s₁ ops done room fits
  taken-Tracked n s s₁ now i ops (inr (zero_n, unknown, empty)) latest done room fits =
      let logged : IsLogged tx n (view d l tx (numbered s)) = record {
        known = get-insert-same s.journal_seq tx 0 ∙ ap (λ x. some x) (sym zero_n);
        bounded = omega arith;
        entries = rw empty tt;
      } in
      let done' = create-numbered s s₁ now i unknown empty done in
      known-Tracked n (numbered s) logged latest now i s₁ ops done' room fits

  -- Restoring a snapshot that was taken gives each value of the transaction that was there when it was
  -- taken, whatever was done in between: the transaction may have written and deleted values,
  -- put outputs, taken snapshots of later steps, and restored this one or later ones; the other
  -- transactions may have written, taken snapshots, committed or been discarded; and any of these
  -- operations may have failed. Not among them are a rewind of another transaction and the end of
  -- this one. The database has the laws `IsDatabase`, the records of snapshots are read back as they
  -- were written, the identifiers are those the store accepts, and steps are u32. When the snapshot is
  -- taken, the journal's next sequence number is known and above its entries, which can be decoded, or
  -- the journal is empty; no snapshot of a later step is stored; and the sequence numbers do not run
  -- out.
  pub restore_snapshot-Exact :
      (n : ℕ) (s s₁ t : RocksStore Db) (now : ℕ) (i : SnapshotId) (ops : List (Text × StoreOp))
      (m : ℕ)
      → IsReady n s
      → IsLatest s
      → create_snapshot d metas tx step now s ≡ (ok i, s₁)
      → n + length ops < u64_mod
      → All (λ o. Fits tx step o.0 o.1) ops
      → restore_snapshot d metas id (run d metas ops s₁) ≡ (ok m, t)
      → (k : Bytes) → IsOwn tx k
      → get (l.entries t.db default) k ≡ get (l.entries s.db default) k
  restore_snapshot-Exact n s s₁ t now i ops m ready latest done room fits restored k mine =
      sym (own-get tx (l.entries t.db default) k mine)
      ∙ restored-base n (n + length ops) (view d l tx s).values (run d metas ops s₁) t m
          (taken-Tracked n s s₁ now i ops ready latest done room fits) restored k mine
      ∙ own-get tx (l.entries s.db default) k mine
