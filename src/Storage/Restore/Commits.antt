-- ===== src/Storage/Restore/Commits.antt =====
-- The commit and the removal of one transaction change nothing of another.
use agent_tx_protocol.Prelude.{
  ℕ, ◌+◌, ◌%◌, ◌≡◌, ◌≢◌, refl, sym, ◌∙◌, inl, inr, true, false, ◌==◌, list_eq, nat_eq, Option, none,
  some, List, [], ◌∷◌, ◌++◌, Text, get-remove-other, All, All-append, Bool-cases, length, drop,
  is_utf8, u64_mod,
}
use agent_tx_protocol.Errors.{AgentTxError, ok, err, Result-cases}
use agent_tx_protocol.Storage.Keys.{starts_with, prefix_end}
use agent_tx_protocol.Storage.Layout.{
  tx_data_prefix, snapshot_prefix, journal_prefix, saga_prefix, tx_record, overlay_prefix,
  commit_version_key,
}
use agent_tx_protocol.Storage.Layout.Prefixes.{HasNoSlash, other_tx, other_kind, is_within-prefix}
use agent_tx_protocol.Storage.Values.{
  validate_tx_id, split_overlay, Overlay, tag_value, le_bytes, version_len,
}
use agent_tx_protocol.Storage.Database.{
  Bytes, Entries, Database, IsDatabase, BatchOp, put_cf, delete_cf, ColumnFamily, default,
  snapshots, saga_logs, from_start,
}
use agent_tx_protocol.Storage.Database.Ordered.{is_within}
use agent_tx_protocol.Storage.Database.Batches.{touches, keys, deletes, Avoids}
use agent_tx_protocol.Storage.Rocks.{Method, write}
use agent_tx_protocol.Storage.Rocks.Snapshots.{delete_items}
use agent_tx_protocol.Storage.Rocks.Commit.{
  publish_op, publish_entry, publish_items, delete_prefix, state_cleanup, cleanup,
  forget_journal_seq, overlay_scan, commit, discard, discard_state,
}
use agent_tx_protocol.Storage.Restore.Gives.{
  Gives, Gives-bind, Gives-pure, Gives-reads, Gives-write, Outcome,
}
use agent_tx_protocol.Storage.Restore.Others.{
  Quiet, Quiet-reads, Quiet-pure, Quiet-committed_version,
}
use agent_tx_protocol.Storage.Restore.Scans.{delete_items-deletes, scanned-All, one_kind}

-- An operation on no key of the transaction.
pub record IsHarmless (tx : Text) (op : BatchOp) : Type 0 where
  pub no_value : touches default (starts_with (tx_data_prefix tx)) op ≡ false
  pub no_entry : touches snapshots (starts_with (journal_prefix tx)) op ≡ false
  pub no_mark : touches snapshots (starts_with (snapshot_prefix tx)) op ≡ false

abbrev pub AreHarmless : Text → List BatchOp → Type 0
AreHarmless tx ops = All (IsHarmless tx) ops

spared :
    (tx : Text) (ops : List BatchOp)
    → AreHarmless tx ops
    → Avoids default (starts_with (tx_data_prefix tx)) ops
      × Avoids snapshots (starts_with (journal_prefix tx)) ops
      × Avoids snapshots (starts_with (snapshot_prefix tx)) ops
spared tx [] h = (tt, tt, tt)
spared tx (op ∷ ops) h =
    let (a, b, c) = spared tx ops h.1 in ((h.0.no_value, a), (h.0.no_entry, b), (h.0.no_mark, c))

publish_op-IsHarmless :
    (tx : Text) (version : ℕ) (key : Text) (o : Overlay) → IsHarmless tx (publish_op version key o)
unfolding publish_op tx_data_prefix
publish_op-IsHarmless tx version key o =
    let apart = other_kind (b'/' ∷ (tx ++ b'/' ∷ [])) (b'/' ∷ key) b'x' b'g' refl in
    elim (Bool-cases (o.tag == tag_value)) [
      | inl value ↦ rw value (record { no_value = apart; no_entry = refl; no_mark = refl })
      | inr tombstone ↦ rw tombstone (record { no_value = apart; no_entry = refl; no_mark = refl })
    ]

deletes-AreHarmless :
    (tx : Text) (c : ColumnFamily) (ks : List Bytes)
    → All (λ k. IsHarmless tx (delete_cf c k)) ks
    → AreHarmless tx (deletes c ks)
deletes-AreHarmless tx c [] h = tt
deletes-AreHarmless tx c (k ∷ ks) h = (h.0, deletes-AreHarmless tx c ks h.1)

map-All : {P Q : Bytes → Type 0} (ks : List Bytes) → ((k : Bytes) → P k → Q k) → All P ks → All Q ks
map-All [] f h = tt
map-All (k ∷ ks) f h = (f k h.0, map-All ks f h.1)

harmless_items :
    {Db : Type 0} (d : Database Db) (l : IsDatabase d) (tx : Text) (c : ColumnFamily)
    (items : Entries) (failure : Option AgentTxError)
    → All (λ k. IsHarmless tx (delete_cf c k)) (keys items)
    → Outcome d l tx (AreHarmless tx) (delete_items c items failure)
harmless_items d l tx c items failure h = elim (Result-cases (delete_items c items failure)) [
  | inl (ops, good) ↦
      let (whole, dels) = delete_items-deletes c items failure ops good in
      rw good (rw dels (deletes-AreHarmless tx c (keys items) h))
  | inr (e, bad) ↦ rw bad tt
]

module _ {Db : Type 0} (d : Database Db) (l : IsDatabase d) (tx other : Text) (mine : HasNoSlash tx)
    (its : HasNoSlash other) (differ : other ≢ tx) where
  abbrev Harmless : Method Db (List BatchOp) → Type 0
  Harmless m = Gives d l tx (AreHarmless tx) m

  -- `p` ends in a slash.
  delete_prefix-Harmless :
      (c : ColumnFamily) (p : Bytes)
      → ((k : Bytes) → starts_with (p ++ b'/' ∷ []) k ≡ true → IsHarmless tx (delete_cf c k))
      → Harmless (delete_prefix d c (p ++ b'/' ∷ []))
  unfolding delete_prefix
  delete_prefix-Harmless c p h = Gives-reads d l tx _ (λ s.
      let prefix = p ++ b'/' ∷ [] in
      let scan = d.iterate s.db c prefix (prefix_end prefix) from_start in
      let (rest, given, complete) = l.iterate_lem s.db c prefix (prefix_end prefix) from_start in
      harmless_items d l tx c scan.items scan.failure (
        map-All (keys scan.items) h (
          scanned-All (is_within prefix (prefix_end prefix)) (starts_with prefix) scan.items rest
            (l.entries s.db c) given (λ k w. sym (is_within-prefix p k) ∙ w))))

  -- a key of the other transaction, of each kind
  data_key :
      (k : Bytes)
      → starts_with (tx_data_prefix other) k ≡ true
      → IsHarmless tx (delete_cf default k)
  unfolding tx_data_prefix
  data_key k h = record {
    no_value = other_tx b'x' other tx k its mine differ h;
    no_entry = refl;
    no_mark = refl;
  }

  journal_key :
      (k : Bytes)
      → starts_with (journal_prefix other) k ≡ true
      → IsHarmless tx (delete_cf snapshots k)
  unfolding journal_prefix snapshot_prefix
  journal_key k h = record {
    no_value = refl;
    no_entry = other_tx b'j' other tx k its mine differ h;
    no_mark = one_kind _ _ k b'j' b'm' refl h;
  }

  mark_key :
      (k : Bytes)
      → starts_with (snapshot_prefix other) k ≡ true
      → IsHarmless tx (delete_cf snapshots k)
  unfolding journal_prefix snapshot_prefix
  mark_key k h = record {
    no_value = refl;
    no_entry = one_kind _ _ k b'm' b'j' refl h;
    no_mark = other_tx b'm' other tx k its mine differ h;
  }

  saga_key : (k : Bytes) → IsHarmless tx (delete_cf saga_logs k)
  saga_key k = record { no_value = refl; no_entry = refl; no_mark = refl }

  record_key : IsHarmless tx (delete_cf snapshots (tx_record other))
  unfolding tx_record journal_prefix snapshot_prefix
  record_key = record {
    no_value = refl;
    no_entry = other_kind _ _ b'j' b't' refl;
    no_mark = other_kind _ _ b'm' b't' refl;
  }

  state_cleanup-Harmless : Harmless (state_cleanup d other)
  unfolding state_cleanup tx_data_prefix journal_prefix snapshot_prefix
  state_cleanup-Harmless =
      Gives-bind d l tx _ _ (delete_prefix-Harmless default (b'x' ∷ b'/' ∷ other) data_key) (λ a ha.
        Gives-bind d l tx _ _ (delete_prefix-Harmless snapshots (b'j' ∷ b'/' ∷ other) journal_key)
          (λ b hb.
            Gives-bind d l tx _ _ (delete_prefix-Harmless snapshots (b'm' ∷ b'/' ∷ other) mark_key)
              (λ c hc.
                Gives-pure d l tx _ (
                  All-append (IsHarmless tx) a (b ++ c) ha
                    (All-append (IsHarmless tx) b c hb hc)))))

  cleanup-Harmless : Harmless (cleanup d other)
  unfolding cleanup saga_prefix
  cleanup-Harmless = Gives-bind d l tx _ _ state_cleanup-Harmless (λ a ha.
      Gives-bind d l tx _ _
        (delete_prefix-Harmless saga_logs (b'u' ∷ b'/' ∷ other) (λ k h. saga_key k))
        (λ b hb. Gives-pure d l tx _ (
          All-append (IsHarmless tx) a (b ++ delete_cf snapshots (tx_record other) ∷ []) ha (
            All-append (IsHarmless tx) b (delete_cf snapshots (tx_record other) ∷ []) hb
              (record_key, tt)))))

  publish_entry-Harmless :
      (version : ℕ) (raw key value : Bytes)
      → Gives d l tx (IsHarmless tx) (publish_entry d version raw key value)
  unfolding publish_entry
  publish_entry-Harmless version raw key value = elim (Bool-cases (is_utf8 key)) [
    | inr no_text ↦ rw no_text (Gives-reads d l tx (λ s. err _) (λ s. tt))
    | inl text ↦ rw text (
        Gives-bind d l tx _ _
          (Quiet-reads d l tx other mine its differ (λ s. split_overlay value key))
          (λ o _.
            Gives-bind d l tx _ _ (Quiet-committed_version d l tx other mine its differ key)
              (λ current _. elim (Bool-cases (current == o.base_version)) [
                | inl same ↦ rw same (Gives-pure d l tx _ (publish_op-IsHarmless tx version key o))
                | inr stale ↦ rw stale (Gives-reads d l tx (λ s. err _) (λ s. tt))
              ])))
  ]

  publish_items-Harmless :
      (version n : ℕ) (items : Entries) (failure : Option AgentTxError) (batch : List BatchOp)
      (published : ℕ)
      → AreHarmless tx batch
      → Gives d l tx
          (λ r. AreHarmless tx r.0)
          (publish_items d version n items failure batch published)
  unfolding publish_items
  publish_items-Harmless version n [] none batch published h = Gives-pure d l tx _ h
  publish_items-Harmless version n [] (some e) batch published h =
      Gives-reads d l tx (λ s. err e) (λ s. tt)
  publish_items-Harmless version n ((raw, value) ∷ rest) failure batch published h =
      Gives-bind d l tx _ _ (publish_entry-Harmless version raw (drop n raw) value) (λ op ho.
        publish_items-Harmless version n rest failure (batch ++ op ∷ []) (published + 1)
          (All-append (IsHarmless tx) batch (op ∷ []) h (ho, tt)))

  harmless_write :
      (ops : List BatchOp) → AreHarmless tx ops → Gives d l tx (λ _. Unit {0}) (write d ops)
  harmless_write ops h = let (a, b, c) = spared tx ops h in Gives-write d l tx ops (a, b) c

  forgetting : Gives d l tx (λ _. Unit {0}) (forget_journal_seq d other)
  unfolding forget_journal_seq
  forgetting = record {
    at = λ s. (
      record {
        values = λ k. refl;
        log = refl;
        next = get-remove-other s.journal_seq other tx differ;
        snaps = refl;
      },
      tt,
    );
  }

  pub Quiet-discard : Quiet d l tx other mine its differ (discard d other)
  unfolding discard
  Quiet-discard =
      Gives-bind d l tx _ _ (Quiet-reads d l tx other mine its differ (λ s. validate_tx_id other))
        (λ _ _.
          Gives-bind d l tx _ _ cleanup-Harmless
            (λ ops h. Gives-bind d l tx _ _ (harmless_write ops h) (λ _ _. forgetting)))

  pub Quiet-discard_state : Quiet d l tx other mine its differ (discard_state d other)
  unfolding discard_state
  Quiet-discard_state =
      Gives-bind d l tx _ _ (Quiet-reads d l tx other mine its differ (λ s. validate_tx_id other))
        (λ _ _.
          Gives-bind d l tx _ _ state_cleanup-Harmless
            (λ ops h. Gives-bind d l tx _ _ (harmless_write ops h) (λ _ _. forgetting)))

  version_op : (value : Bytes) → IsHarmless tx (put_cf snapshots commit_version_key value)
  unfolding journal_prefix snapshot_prefix
  version_op value = record {
    no_value = refl;
    no_entry = other_kind _ _ b'j' b'c' refl;
    no_mark = other_kind _ _ b'm' b'c' refl;
  }

  versioned :
      (version : ℕ)
      → Gives d l tx {A = Unit {0}}
          (λ _. Unit {0})
          (λ s. (ok tt, record s { commit_version = version }))
  versioned version = record {
    at = λ s. (record { values = λ k. refl; log = refl; next = refl; snaps = refl }, tt);
  }

  pub Quiet-commit : Quiet d l tx other mine its differ (commit d other)
  unfolding commit
  Quiet-commit =
      Gives-bind d l tx _ _ (Quiet-reads d l tx other mine its differ (λ s. validate_tx_id other))
        (λ _ _.
          Gives-bind d l tx _ _
            (Quiet-reads d l tx other mine its differ (λ s. ok ((s.commit_version + 1) % u64_mod)))
            (λ version _.
              Gives-bind d l tx _ _
                (Quiet-reads d l tx other mine its differ (λ s. ok (overlay_scan d other s)))
                (λ scan _.
                  Gives-bind d l tx _ _
                    (publish_items-Harmless version (length (overlay_prefix other)) scan.items
                      scan.failure [] 0 tt)
                    (λ published h. Gives-bind d l tx _ _ cleanup-Harmless (λ removed k.
                      Gives-bind d l tx _ _
                        (harmless_write _ (
                          All-append (IsHarmless tx) published.0
                            (put_cf snapshots commit_version_key (le_bytes version_len version)
                              ∷ removed)
                            h (version_op (le_bytes version_len version), k)))
                        (λ _ _. Gives-bind d l tx _ _ (versioned version) (λ _ _.
                          Gives-bind d l tx _ _ forgetting
                            (λ _ _. Quiet-pure d l tx other mine its differ published.1))))))))
