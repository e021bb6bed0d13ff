-- ===== src/Storage/Restore/Returns.antt =====
-- `restore_snapshot` succeeds where the database does not fail.
use mathlib.Core.Path.{subst}
use mathlib.Core.List.{reverse, reverse-cons}
use agent_tx_protocol.Prelude.{
  ℕ, ◌+◌, ◌<◌, ◌≡◌, refl, sym, ap, ◌∙◌, inl, inr, Option, none, some, List, [], ◌∷◌, ◌++◌, Text,
  insert, All, All-retain, All-append, length, u32_mod, u64_mod, ltb, Bool-cases, list_eq, nat_eq,
}
use agent_tx_protocol.Errors.{ok}
use agent_tx_protocol.Storage.Keys.{prefix_end}
use agent_tx_protocol.Storage.Journal.{JournalEntry, decode}
use agent_tx_protocol.Storage.Layout.{journal_prefix, snapshot, snapshot_prefix, journal}
use agent_tx_protocol.Storage.Values.{validate_tx_id}
use agent_tx_protocol.Storage.Database.{
  Bytes, Entry, Entries, Database, IsDatabase, BatchOp, delete_cf, ColumnFamily, snapshots, Mode,
  from_start, from_end,
}
use agent_tx_protocol.Storage.Rocks.{
  SnapshotId, SnapshotMeta, Codec, RocksStore, ◌>>=◌, write, set_journal_seq,
}
use agent_tx_protocol.Storage.Rocks.Snapshots.{
  undo_ops, revert_items, delete_items, newer_entries, later_snapshots, known_meta, create_snapshot,
  restore_snapshot,
}
use agent_tx_protocol.Storage.Restore.Changes.{IsEntry, newer}
use agent_tx_protocol.Storage.Restore.Views.{view}
use agent_tx_protocol.Storage.Restore.Scans.{retain-newer}
use agent_tx_protocol.Storage.Restore.Steps.{StoreOp, Fits, run}
use agent_tx_protocol.Storage.Restore.Tracked.{IsCodec, Tracked}
use agent_tx_protocol.Storage.Restore.Exact.{IsLatest, IsReady, taken-Tracked}

-- No call fails.
pub record IsReliable {Db : Type 0} (d : Database Db) : Type 0 where
  pub reads :
      (db : Db) (c : ColumnFamily) (k : Bytes) → (v : Option Bytes) × (d.get_cf db c k ≡ ok v)
  pub writes : (db : Db) (ops : List BatchOp) → (db' : Db) × (d.write db ops ≡ ok db')
  pub iterates :
      (db : Db) (c : ColumnFamily) (lower upper : Bytes) (mode : Mode)
      → (d.iterate db c lower upper mode).failure ≡ none

abbrev IsDecodable : Entry → Type 0
IsDecodable e = (entry : JournalEntry) × (decode e.1 ≡ ok entry)

revert_items-Returns :
    (items : Entries) (batch : List BatchOp) (n : ℕ)
    → All IsDecodable items
    → (r : List BatchOp × ℕ) × (revert_items items none batch n ≡ ok r)
unfolding revert_items
revert_items-Returns [] batch n h = ((batch, n), refl)
revert_items-Returns (item ∷ rest) batch n ((entry, good), h) =
    let (r, done) = revert_items-Returns rest (batch ++ undo_ops entry item.0) (n + 1) h in
    (r, rw (revert_items, good) done)

pub delete_items-Returns :
    (c : ColumnFamily) (items : Entries)
    → (ops : List BatchOp) × (delete_items c items none ≡ ok ops)
unfolding delete_items
delete_items-Returns c [] = ([], refl)
delete_items-Returns c (item ∷ rest) =
    let (ops, done) = delete_items-Returns c rest in (delete_cf c item.0 ∷ ops, rw done refl)

All-first : (P : Entry → Type 0) (xs ys : Entries) → All P (xs ++ ys) → All P xs
All-first P [] ys h = tt
All-first P (x ∷ xs) ys h = (h.0, All-first P xs ys h.1)

All-reverse : (P : Entry → Type 0) (xs : Entries) → All P xs → All P (reverse xs)
All-reverse P [] h = tt
All-reverse P (x ∷ xs) h =
    subst (λ r. All P r) (sym (reverse-cons x xs))
      (All-append P (reverse xs) (x ∷ []) (All-reverse P xs h.1) (h.0, tt))

decodable : (tx : Text) (n : ℕ) (m : Entries) → All (IsEntry tx n) m → All IsDecodable m
decodable tx n [] h = tt
decodable tx n (e ∷ m) h = (h.0.3, decodable tx n m h.1)

module _ {Db : Type 0} (d : Database Db) (l : IsDatabase d) (reliable : IsReliable d)
    (metas : Codec SnapshotMeta) (good : IsCodec metas) (tx : Text)
    (valid : validate_tx_id tx ≡ ok tt) (step : ℕ) (small : step < u32_mod) where
  abbrev id : SnapshotId
  id = record { tx_id = tx; step_id = step }

  later-Returns :
      (s : RocksStore Db) → (ops : List BatchOp) × (later_snapshots d tx step s ≡ (ok ops, s))
  unfolding later_snapshots
  later-Returns s = elim (Bool-cases (ltb (step + 1) u32_mod)) [
    | inr last ↦ ([], rw last refl)
    | inl more ↦
        let end = prefix_end (snapshot_prefix tx) in
        let scan = d.iterate s.db snapshots (snapshot tx (step + 1)) end from_start in
        let whole = reliable.iterates s.db snapshots (snapshot tx (step + 1)) end from_start in
        let (ops, done) = delete_items-Returns snapshots scan.items in
        (ops, rw more (rw whole (rw done refl)))
  ]

  -- the entries that a scan of the journal gives can be decoded
  scan-IsDecodable :
      (n q : ℕ) (s : RocksStore Db)
      → All (IsEntry tx n) (view d l tx s).log
      → All IsDecodable (newer_entries d tx q s).items
  unfolding newer_entries
  scan-IsDecodable n q s entries =
      let (rest, given, complete) =
        l.iterate_lem s.db snapshots (journal tx q) (prefix_end (journal_prefix tx)) from_end in
      let log = (view d l tx s).log in
      let all =
        All-reverse IsDecodable (newer tx q log)
          (All-retain IsDecodable _ log (decodable tx n log entries)) in
      All-first IsDecodable (newer_entries d tx q s).items rest (
        subst (λ m. All IsDecodable m)
          (sym (given ∙ ap reverse (retain-newer tx q (l.entries s.db snapshots)))) all)

  Tracked-Returns :
      (p top : ℕ) (base : Bytes → Option Bytes) (s : RocksStore Db)
      → Tracked d l metas good tx valid step small p base top s
      → (m : ℕ) × (t : RocksStore Db) × (restore_snapshot d metas id s ≡ (ok m, t))
  unfolding restore_snapshot known_meta newer_entries write set_journal_seq ◌>>=◌
  Tracked-Returns p top base s h =
      let (v, meta, is_there, read, seq) = h.here in
      let (found, got) = reliable.reads s.db snapshots (snapshot tx step) in
      let got_v : d.get_cf s.db snapshots (snapshot tx step) ≡ ok (some v) =
        got
        ∙ ap (λ o. ok o) (l.get_cf_lem s.db snapshots (snapshot tx step) found got ∙ is_there) in
      let known : known_meta d metas id s ≡ (ok meta, s) = rw (valid, got_v, read) refl in
      let scan = newer_entries d tx meta.journal_seq s in
      let whole : scan.failure ≡ none =
        reliable.iterates s.db snapshots (journal tx meta.journal_seq)
          (prefix_end (journal_prefix tx)) from_end in
      let (r, reverted) =
        revert_items-Returns scan.items [] 0
          (scan-IsDecodable h.tracks.next meta.journal_seq s h.tracks.logged.entries) in
      let reverts : revert_items scan.items scan.failure [] 0 ≡ ok r =
        ap (λ f. revert_items scan.items f [] 0) whole ∙ reverted in
      let (ops, later) = later-Returns s in
      let (db, done) = reliable.writes s.db (r.0 ++ ops) in
      let next : RocksStore Db = record s {
        db = db;
        journal_seq = insert s.journal_seq tx meta.journal_seq;
      } in
      (r.1, next, rw (known, reverts, later, done) refl)

  -- On a database no call of which fails, the restore of a snapshot that was taken succeeds, whatever
  -- was done in between: operations of the transaction that do not end it, rewinds to this snapshot or
  -- later ones included, and those of others but for their rewinds. The database has the laws
  -- `IsDatabase`, the records of snapshots are read back as they were written, the identifiers are
  -- valid, and steps are u32. When the snapshot is taken, the journal is empty or its next sequence
  -- number is known and above its entries, which can be decoded; no snapshot of a later step is stored;
  -- and the sequence numbers do not run out.
  pub restore_snapshot-Returns :
      (n : ℕ) (s s₁ : RocksStore Db) (now : ℕ) (i : SnapshotId) (ops : List (Text × StoreOp))
      → IsReady d l metas good tx valid step small n s
      → IsLatest d l metas good tx valid step small s
      → create_snapshot d metas tx step now s ≡ (ok i, s₁)
      → n + length ops < u64_mod
      → All (λ o. Fits tx step o.0 o.1) ops
      → (m : ℕ) × (t : RocksStore Db) × (restore_snapshot d metas id (run d metas ops s₁)
          ≡ (ok m, t))
  restore_snapshot-Returns n s s₁ now i ops ready latest done room fits =
      Tracked-Returns n (n + length ops) (view d l tx s).values (run d metas ops s₁) (
        taken-Tracked d l metas good tx valid step small n s s₁ now i ops ready latest done room
          fits)
