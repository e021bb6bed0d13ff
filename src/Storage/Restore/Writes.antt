-- ===== src/Storage/Restore/Writes.antt =====
-- A journaled write of a transaction, as a change of what the store keeps of it.
use agent_tx_protocol.Prelude.{
  ℕ, ◌+◌, ◌%◌, ◌<◌, ◌≡◌, refl, sym, ap, ◌∙◌, inl, inr, ◌⊎◌, true, false, ◌==◌, list_eq, nat_eq,
  Option, some, [], ◌∷◌, Text, get, insert, get-insert-same, retain, All, length, if◌then◌else◌,
  lt→ltb, u32_mod, u64_mod, arith, list_same_iff,
}
use agent_tx_protocol.Errors.{AgentTxError, ok, err, Result-cases}
use agent_tx_protocol.Storage.Journal.{JournalEntry, encode, decode-encode}
use agent_tx_protocol.Storage.Keys.{key_lt, starts_with}
use agent_tx_protocol.Storage.Layout.{tx_data_prefix, journal_prefix, snapshot_prefix, journal}
use agent_tx_protocol.Storage.Layout.Numbers.{key_lt-journal}
use agent_tx_protocol.Storage.Layout.Prefixes.{starts_with-append, other_kind}
use agent_tx_protocol.Storage.Database.{
  Bytes, Entries, Database, IsDatabase, put_cf, default, snapshots, ColumnFamily, put_entry,
  apply_op, apply_batch,
}
use agent_tx_protocol.Storage.Database.Ordered.{on_key, get-put_entry, retain-put_entry_last}
use agent_tx_protocol.Storage.Rocks.{
  RocksStore, Method, ◌>>=◌, or_load, allocate_journal_seq, journaled_write, data_op,
}
use agent_tx_protocol.Storage.Restore.Changes.{Change, counted, wrote, Allowed, IsEntry, IsLogged}
use agent_tx_protocol.Storage.Restore.Views.{own, view, marks, write-cases, marks-unchanged}

-- where the entries of a journal stand
below_next :
    (tx : Text) (n : ℕ) (l : Entries)
    → n < u64_mod
    → All (IsEntry tx n) l
    → All (λ e. key_lt e.0 (journal tx n) ≡ true) l
below_next tx n [] h a = tt
below_next tx n (e ∷ l) h a = (
  ap (λ k. key_lt k (journal tx n)) a.0.2
      ∙ key_lt-journal tx a.0.0 n (omega arith) h
      ∙ lt→ltb a.0.0 n a.0.1,
  below_next tx n l h a.1,
)

pub own-get :
    (tx : Text) (m : Entries) (k : Bytes)
    → starts_with (tx_data_prefix tx) k ≡ true
    → own tx m k ≡ get m k
own-get tx m k h = rw h

pub journal-starts_with :
    (tx : Text) (n : ℕ) → starts_with (journal_prefix tx) (journal tx n) ≡ true
unfolding journal
journal-starts_with tx n = starts_with-append (journal_prefix tx) _

journal-not_mark : (tx : Text) (n : ℕ) → starts_with (snapshot_prefix tx) (journal tx n) ≡ false
unfolding journal journal_prefix snapshot_prefix
journal-not_mark tx n = other_kind _ _ b'm' b'j' refl

own-put_entry :
    (tx : Text) (m : Entries) (raw v k : Bytes)
    → starts_with (tx_data_prefix tx) raw ≡ true
    → own tx (put_entry m raw v) k ≡ (if raw == k then some v else own tx m k)
own-put_entry tx m raw v k h =
    ground
      (arith, get-put_entry m raw k v, list_same_iff raw k, ap (starts_with (tx_data_prefix tx)))

-- A method that reads, and what comes after it.
pub bind-reads :
    {Db A B : Type 0} (m : Method Db A) (f : A → Method Db B) (s : RocksStore Db)
    (P : RocksStore Db → Type 0)
    → (m s).1 ≡ s
    → P s
    → ((a : A) → (m s).0 ≡ ok a → P (f a s).1)
    → P ((m >>= f) s).1
unfolding ◌>>=◌
bind-reads m f s P same p k = elim (Result-cases (m s).0) [
  | inl (a, good) ↦ rw good (rw same (k a good))
  | inr (e, bad) ↦ rw bad (rw same p)
]

-- Such a method fails and changes nothing, or hands its value on.
pub bind-split :
    {Db A B : Type 0} (m : Method Db A) (f : A → Method Db B) (s : RocksStore Db)
    → (m s).1 ≡ s
    → ((e : AgentTxError) × ((m >>= f) s ≡ (err e, s)))
      ⊎ ((a : A) × ((m s).0 ≡ ok a) × ((m >>= f) s ≡ f a s))
unfolding ◌>>=◌
bind-split m f s same = elim (Result-cases (m s).0) [
  | inl (a, good) ↦ inr (a, good, rw good (ap (f a) same))
  | inr (e, bad) ↦ inl (e, rw bad (ap (λ t. (err e, t)) same))
]

module _ {Db : Type 0} (d : Database Db) (l : IsDatabase d) (tx : Text) where
  -- From `s` to `t` the transaction is changed in a way that keeps its snapshots from `p` on.
  abbrev pub Moves : ℕ → ℕ → RocksStore Db → RocksStore Db → Type 0
  Moves p top s t = (c : Change tx (view d l tx s) (view d l tx t)) × Allowed p top c

  abbrev bumped : ℕ → RocksStore Db → RocksStore Db
  bumped n s = record s { journal_seq = insert s.journal_seq tx ((n + 1) % u64_mod) }

  pub allocate-known :
      (s : RocksStore Db) (n : ℕ)
      → get s.journal_seq tx ≡ some n
      → allocate_journal_seq d tx s ≡ (ok n, bumped n s)
  unfolding allocate_journal_seq
  allocate-known s n known = rw (known, or_load)

  module _ (p top n : ℕ) (s : RocksStore Db) (known : get s.journal_seq tx ≡ some n)
      (logged : IsLogged tx n (view d l tx s)) where
    bumped-next : get (bumped n s).journal_seq tx ≡ some ((n + 1) % u64_mod)
    bumped-next = get-insert-same s.journal_seq tx _

    written-Moves :
        (raw v : Bytes) (prior : Option Bytes) (t : RocksStore Db)
        → starts_with (tx_data_prefix tx) raw ≡ true
        → length raw < u32_mod
        → prior ≡ get (l.entries s.db default) raw
        → get t.journal_seq tx ≡ some ((n + 1) % u64_mod)
        → ((c : ColumnFamily)
            → l.entries t.db c
              ≡ apply_batch c
                  (put_cf snapshots
                      (journal tx n)
                      (encode (record { raw_key = raw; prior = prior }))
                    ∷ put_cf default raw v
                    ∷ [])
                  (l.entries s.db c))
        → Moves p top s t
    unfolding apply_batch apply_op
    written-Moves raw v prior t mine short before next written =
        let entry : JournalEntry = record { raw_key = raw; prior = prior } in
        (
          wrote n raw (some v) (encode entry) known next
              (decode-encode entry short
                ∙ ap (λ o. ok (record { raw_key = raw; prior = o }))
                    (before ∙ sym (own-get tx (l.entries s.db default) raw mine)))
              (λ k own_key.
                ap (λ m. own tx m k) (written default)
                ∙ own-put_entry tx (l.entries s.db default) raw v k mine)
              (ap (retain (on_key (starts_with (journal_prefix tx)))) (written snapshots)
                ∙ retain-put_entry_last (starts_with (journal_prefix tx)) (l.entries s.db snapshots)
                    (journal tx n) (encode entry) (l.entries-IsOrdered s.db snapshots)
                    (journal-starts_with tx n)
                    (below_next tx n (view d l tx s).log logged.bounded logged.entries)),
          tt,
        )

    -- Whether the write succeeds or fails, the transaction's snapshots stay.
    pub journaled_write-Moves :
        (raw v : Bytes) (prior : Option Bytes)
        → starts_with (tx_data_prefix tx) raw ≡ true
        → length raw < u32_mod
        → prior ≡ get (l.entries s.db default) raw
        → Moves p top s (journaled_write d tx raw prior (some v) s).1
          × (marks d l tx (journaled_write d tx raw prior (some v) s).1 ≡ marks d l tx s)
    unfolding journaled_write ◌>>=◌ data_op
    journaled_write-Moves raw v prior mine short before =
        let entry : JournalEntry = record { raw_key = raw; prior = prior } in
        let batch = put_cf snapshots (journal tx n) (encode entry) ∷ put_cf default raw v ∷ [] in
        rw (allocate-known s n known) (elim (write-cases d l batch (bumped n s)) [
          | inl (e, failed) ↦
              rw failed ((counted n known bumped-next (λ k own_key. refl) refl, tt), refl)
          | inr (db, done, written) ↦ rw done (
            written-Moves raw v prior (record (bumped n s) { db = db }) mine short before
                bumped-next written,
            marks-unchanged d l tx batch s (record (bumped n s) { db = db }) written
                (journal-not_mark tx n, (refl, tt)),
          )
        ])
