-- ===== src/Storage/Restore/Tracked.antt =====
-- The snapshots of a transaction through the operations of the store, its own and those of others.
use mathlib.Core.Path.{subst}
use mathlib.Core.Bool.{false≢true}
use native.Mathlib.Nat.{add-zero}
use agent_tx_protocol.Prelude.{
  ℕ, ◌+◌, ◌≤◌, ◌<◌, ◌≡◌, ◌≢◌, refl, sym, ap, ◌∙◌, inl, inr, ◌⊎◌, true, false, ◌==◌, list_eq, nat_eq,
  Option, none, some, List, [], ◌∷◌, Text, get, length, if◌then◌else◌, u32_mod, u64_mod, arith,
  list_same_iff, Bool-cases, All,
}
use agent_tx_protocol.Errors.{Result, ok}
use agent_tx_protocol.Storage.Keys.{starts_with}
use agent_tx_protocol.Storage.Layout.{journal_prefix, snapshot_prefix, snapshot}
use agent_tx_protocol.Storage.Layout.Prefixes.{other_kind, validate_tx_id-HasNoSlash}
use agent_tx_protocol.Storage.Values.{validate_tx_id}
use agent_tx_protocol.Storage.Database.{
  Bytes, Database, IsDatabase, put_cf, snapshots, ColumnFamily, apply_batch, apply_op,
}
use agent_tx_protocol.Storage.Database.Ordered.{get-put_entry}
use agent_tx_protocol.Storage.Database.Batches.{get-retain}
use agent_tx_protocol.Storage.Rocks.{SnapshotId, SnapshotMeta, Codec, RocksStore, Method}
use agent_tx_protocol.Storage.Rocks
use agent_tx_protocol.Storage.Rocks.Snapshots
use agent_tx_protocol.Storage.Restore.Changes.{unchanged, rewound, Tracks, Tracks-Change}
use agent_tx_protocol.Storage.Restore.Views.{
  view, marks, view-IsOrdered, values-unchanged, log-unchanged,
}
use agent_tx_protocol.Storage.Restore.Gives.{Same-Change}
use agent_tx_protocol.Storage.Restore.Writes.{Moves}
use agent_tx_protocol.Storage.Restore.Operations.{
  write_overlay-Keeping, put_output-Keeping, create_snapshot-cases,
}
use agent_tx_protocol.Storage.Restore.Steps.{
  StoreOp, put, delete, put_output, create_snapshot, restore_snapshot, commit, discard,
  discard_state, IsInside, IsOutside, Fits, after, run, outside-Same,
}
use agent_tx_protocol.Storage.Restore.Rewinds.{restore_snapshot-cases}
use agent_tx_protocol.Storage.Restore.SnapshotKeys.{snapshot-starts_with, same-snapshot, not_later}

-- What is decoded is what was encoded.
pub record IsCodec {A : Type 0} (c : Codec A) : Type 0 where
  pub from_slice-to_vec : (a : A) (b : Bytes) → c.to_vec a ≡ ok b → c.from_slice b ≡ ok a

some-injective : {a b : Bytes} → ◌≡◌ {A = Option Bytes} (some a) (some b) → a ≡ b
some-injective h = cc

ok-injective : {A : Type 0} {a b : A} → ◌≡◌ {A = Result A} (ok a) (ok b) → a ≡ b
ok-injective h = cc

module _ {Db : Type 0} (d : Database Db) (l : IsDatabase d) (metas : Codec SnapshotMeta)
    (good : IsCodec metas) (tx : Text) (valid : validate_tx_id tx ≡ ok tt) (step : ℕ)
    (small : step < u32_mod) (p : ℕ) (base : Bytes → Option Bytes) where
  abbrev stored : RocksStore Db → Bytes → Option Bytes
  stored t k = get (l.entries t.db snapshots) k

  -- The journal can be undone to `base`, and the snapshots of `step` and later point into it.
  pub record Tracked (top : ℕ) (s : RocksStore Db) : Type 0 where
    pub tracks : Tracks tx p top base (view d l tx s)
    pub pointers :
        (i : ℕ) (v : Bytes) (meta : SnapshotMeta)
        → step ≤ i
        → i < u32_mod
        → stored s (snapshot tx i) ≡ some v
        → metas.from_slice v ≡ ok meta
        → (p ≤ meta.journal_seq) × (meta.journal_seq ≤ top)
    pub here :
        (v : Bytes) × (meta : SnapshotMeta) × (stored s (snapshot tx step) ≡ some v)
        × (metas.from_slice v ≡ ok meta)
        × (meta.journal_seq ≡ p)

  -- the snapshot that is found is the one that is there
  pub here-seq :
      {top : ℕ} {s : RocksStore Db} (v : Bytes) (meta : SnapshotMeta)
      → Tracked top s
      → stored s (snapshot tx step) ≡ some v
      → metas.from_slice v ≡ ok meta
      → meta.journal_seq ≡ p
  here-seq v meta h found read =
      let (w, m, is_there, reads, seq) = h.here in
      let same =
        ok-injective
          (sym read ∙ ap metas.from_slice (some-injective (sym found ∙ is_there)) ∙ reads) in
      ap (λ x. x.journal_seq) same ∙ seq

  Tracked-Moves :
      (top : ℕ) (s t : RocksStore Db)
      → top + 1 < u64_mod
      → Moves d l tx p top s t
      → ((k v : Bytes)
          → starts_with (snapshot_prefix tx) k ≡ true
          → stored t k ≡ some v
          → stored s k ≡ some v)
      → stored t (snapshot tx step) ≡ stored s (snapshot tx step)
      → Tracked top s
      → Tracked (top + 1) t
  Tracked-Moves top s t room (change, allowed) kept stays h = record {
    tracks =
        Tracks-Change tx p top base (view d l tx s) (view d l tx t) change allowed room
          (view-IsOrdered d l tx s) h.tracks;
    pointers = λ i v meta late fits found read.
        let (low, high) =
          h.pointers i v meta late fits (kept _ v (snapshot-starts_with tx i) found) read in
        (low, omega arith);
    here = let (v, meta, is_there, read, seq) = h.here in (v, meta, stays ∙ is_there, read, seq);
  }

  same_marks :
      (s t : RocksStore Db)
      → marks d l tx t ≡ marks d l tx s
      → (k : Bytes) → starts_with (snapshot_prefix tx) k ≡ true
      → stored t k ≡ stored s k
  same_marks s t same k mark =
      sym (get-retain (starts_with (snapshot_prefix tx)) (l.entries t.db snapshots) k mark)
      ∙ ap (λ m. get m k) same
      ∙ get-retain (starts_with (snapshot_prefix tx)) (l.entries s.db snapshots) k mark

  -- A change of the transaction that leaves its snapshots as they are.
  Tracked-same_marks :
      (top : ℕ) (s t : RocksStore Db)
      → top + 1 < u64_mod
      → Moves d l tx p top s t
      → marks d l tx t ≡ marks d l tx s
      → Tracked top s
      → Tracked (top + 1) t
  Tracked-same_marks top s t room moves same h =
      Tracked-Moves top s t room moves (λ k v mark found. sym (same_marks s t same k mark) ∙ found)
        (same_marks s t same (snapshot tx step) (snapshot-starts_with tx step)) h

  tracked_self :
      (top : ℕ) (s : RocksStore Db) → top + 1 < u64_mod → Tracked top s → Tracked (top + 1) s
  tracked_self top s room h =
      Tracked-Moves top s s room (unchanged (λ k own_key. refl) refl refl, tt) (λ k v mark f. f)
        refl h

  -- the snapshot of `i` is the new one, all others are as before
  pub stored_put :
      (s t : RocksStore Db) (i j : ℕ) (value : Bytes)
      → i < u32_mod
      → j < u32_mod
      → ((c : ColumnFamily)
          → l.entries t.db c
            ≡ apply_batch c (put_cf snapshots (snapshot tx i) value ∷ []) (l.entries s.db c))
      → stored t (snapshot tx j) ≡ (if i == j then some value else stored s (snapshot tx j))
  unfolding apply_batch apply_op
  stored_put s t i j value hi hj written =
      ap (λ m. get m (snapshot tx j)) (written snapshots)
      ∙ get-put_entry (l.entries s.db snapshots) (snapshot tx i) (snapshot tx j) value
      ∙ ap (λ b. if b then some value else stored s (snapshot tx j)) (same-snapshot tx i j hi hj)

  pub stored_after :
      (s t : RocksStore Db) (i j : ℕ) (value v : Bytes)
      → i < u32_mod
      → j < u32_mod
      → ((c : ColumnFamily)
          → l.entries t.db c
            ≡ apply_batch c (put_cf snapshots (snapshot tx i) value ∷ []) (l.entries s.db c))
      → stored t (snapshot tx j) ≡ some v
      → ((i ≡ j) × (v ≡ value)) ⊎ ((i ≢ j) × (stored s (snapshot tx j) ≡ some v))
  stored_after s t i j value v hi hj written found =
      let is = sym (stored_put s t i j value hi hj written) ∙ found in ground arith

  -- a snapshot that is read back is the one that was written
  pub same_meta :
      (value : Bytes) (meta : SnapshotMeta)
      → metas.to_vec meta ≡ ok value
      → (m : SnapshotMeta) (v : Bytes) → v ≡ value
      → metas.from_slice v ≡ ok m
      → m ≡ meta
  same_meta value meta encoded m v e read =
      ok-injective (sym read ∙ ap metas.from_slice e ∙ good.from_slice-to_vec meta value encoded)

  pub snapshot-not_entry : (i : ℕ) → starts_with (journal_prefix tx) (snapshot tx i) ≡ false
  unfolding journal_prefix snapshot snapshot_prefix
  snapshot-not_entry i = other_kind _ _ b'j' b'm' refl

  module _ (top : ℕ) (s : RocksStore Db) (room : top + 1 < u64_mod) (h : Tracked top s) where
    abbrev tr : Tracks tx p top base (view d l tx s)
    tr = h.tracks

    abbrev next : ℕ
    next = tr.next

    put-Tracked :
        (key : Text) (value : Option Bytes)
        → Tracked (top + 1) (Rocks.write_overlay d tx key value s).1
    put-Tracked key value =
        let kept =
          (write_overlay-Keeping d l tx p top next s valid tr.logged.known tr.logged key
            value).at in
        let t = (Rocks.write_overlay d tx key value s).1 in
        Tracked-same_marks top s t room kept.moves kept.snaps h

    output-Tracked : (i : ℕ) (value : Bytes) → Tracked (top + 1) (Rocks.put_output d tx i value s).1
    output-Tracked i value =
        let kept =
          (put_output-Keeping d l tx p top next s valid tr.logged.known tr.logged i value).at in
        let t = (Rocks.put_output d tx i value s).1 in
        Tracked-same_marks top s t room kept.moves kept.snaps h

    module _ (i : ℕ) (late : step < i) (fits : i < u32_mod) (t : RocksStore Db) (value : Bytes)
        (meta : SnapshotMeta) (encoded : metas.to_vec meta ≡ ok value)
        (seq : meta.journal_seq ≡ next) (kept : get t.journal_seq tx ≡ get s.journal_seq tx)
        (written : (c : ColumnFamily)
          → l.entries t.db c
            ≡ apply_batch c (put_cf snapshots (snapshot tx i) value ∷ []) (l.entries s.db c)) where
      created : Tracked (top + 1) t
      created =
          let batch = put_cf snapshots (snapshot tx i) value ∷ [] in
          record {
            tracks =
                Tracks-Change tx p top base (view d l tx s) (view d l tx t)
                  (unchanged (λ k mine. values-unchanged d l tx batch s t written (refl, tt) k)
                    (log-unchanged d l tx batch s t written (snapshot-not_entry i, tt)) kept)
                  tt room (view-IsOrdered d l tx s) h.tracks;
            pointers = λ j v m from small_j found read.
                elim (stored_after s t i j value v fits small_j written found) [
                  | inl (same, new) ↦
                      let q = ap (λ x. x.journal_seq) (same_meta value meta encoded m v new read) in
                      let low = tr.reached in let high = tr.capped in (omega arith, omega arith)
                  | inr (other_step, old) ↦
                      let (low, high) = h.pointers j v m from small_j old read in (low, omega arith)
                ];
            here =
                let (v, m, is_there, read, seq_p) = h.here in
                (
                  v,
                  m,
                  stored_put s t i step value fits small written ∙ ground arith ∙ is_there,
                  read,
                  seq_p,
                );
          }

    create-Tracked :
        (i now : ℕ)
        → step < i
        → i < u32_mod
        → Tracked (top + 1) (Snapshots.create_snapshot d metas tx i now s).1
    create-Tracked i now late fits =
        elim (create_snapshot-cases d l tx p top next s valid tr.logged.known tr.logged metas i
          now) [
            | inl (e, failed) ↦ rw failed (tracked_self top s room h)
            | inr (id, t, value, meta, done, encoded, seq, kept, written) ↦
                rw done (created i late fits t value meta encoded seq kept written)
          ]

    restore-Tracked :
        (i : ℕ)
        → step ≤ i
        → i < u32_mod
        → Tracked
            (top + 1)
            (Snapshots.restore_snapshot d metas (record { tx_id = tx; step_id = i }) s).1
    restore-Tracked i late fits = elim (restore_snapshot-cases d l metas tx i s) [
      | inl (e, failed) ↦ rw failed (tracked_self top s room h)
      | inr (n, t, done, r) ↦
          let (low, high) =
            h.pointers i r.found.value r.meta late fits r.found.is_stored r.found.is_read in
          rw done (
            Tracked-Moves top s t room
              (rewound r.meta.journal_seq r.next r.values r.log, (low, high))
              (λ k v mark found. r.marks_kept k v found)
              (r.marks_left (snapshot tx step) (snapshot-starts_with tx step)
                ∙ ap (λ b. if b then none else stored s (snapshot tx step))
                    (not_later tx step i late fits))
              h)
    ]

    inside-Tracked : (op : StoreOp) → IsInside step op → Tracked (top + 1) (after d metas tx op s)
    unfolding after Rocks.put Rocks.delete Rocks.write_overlay
    inside-Tracked (put key value) fit = put-Tracked key (some value)
    inside-Tracked (delete key) fit = put-Tracked key none
    inside-Tracked (put_output i value) fit = output-Tracked i value
    inside-Tracked (create_snapshot i now) fit = create-Tracked i now fit.0 fit.1
    inside-Tracked (restore_snapshot i) fit = restore-Tracked i fit.0 fit.1
    inside-Tracked commit fit = absurd fit
    inside-Tracked discard fit = absurd fit
    inside-Tracked discard_state fit = absurd fit

    outside-Tracked :
        (o : Text) (op : StoreOp)
        → validate_tx_id o ≡ ok tt
        → o ≢ tx
        → IsOutside op
        → Tracked (top + 1) (after d metas o op s)
    outside-Tracked o op its differ fit =
        let t = after d metas o op s in
        let same =
          outside-Same d l metas tx (validate_tx_id-HasNoSlash tx valid) o s
            (validate_tx_id-HasNoSlash o its) differ op fit in
        Tracked-same_marks top s t room (Same-Change d l tx same, tt) same.snaps h

    after-Tracked :
        (o : Text) (op : StoreOp) → Fits tx step o op → Tracked (top + 1) (after d metas o op s)
    after-Tracked o op fits = elim (Bool-cases (o == tx)) [
      | inl own_op ↦
          let e = (list_same_iff o tx).0 own_op in
          subst (λ x. Tracked (top + 1) (after d metas x op s)) (sym e)
            (inside-Tracked op (fits.inside e))
      | inr other_op ↦
          let differ = λ (e : o ≡ tx). false≢true (sym other_op ∙ (list_same_iff o tx).1 e) in
          outside-Tracked o op fits.valid differ (fits.outside differ)
    ]

  pub run-Tracked :
      (ops : List (Text × StoreOp)) (top : ℕ) (s : RocksStore Db)
      → top + length ops < u64_mod
      → All (λ o. Fits tx step o.0 o.1) ops
      → Tracked top s
      → Tracked (top + length ops) (run d metas ops s)
  unfolding run
  run-Tracked [] top s room fits h = rw (add-zero top) h
  run-Tracked ((o, op) ∷ ops) top s room fits h =
      let next_one = after-Tracked top s (omega arith) h o op fits.0 in
      subst (λ n. Tracked n (run d metas ops (after d metas o op s))) (omega arith)
        (run-Tracked ops (top + 1) (after d metas o op s) (omega arith) fits.1 next_one)
