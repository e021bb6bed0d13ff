-- ===== src/Tests/Commits.antt =====
-- Examples of the commit of the RocksDB store: two transactions that wrote the same key.
use agent_tx_protocol.Prelude.{
  drop, length, All, true, ◌≡◌, refl, sym, ◌∙◌, ap, inl, ◌⊎◌, some, none, [], ◌∷◌, Option, get,
  insert, retain, remove, arith, list_eq, nat_eq, is_utf8, ℕ,
}
use agent_tx_protocol.Errors.{AgentTxError, Result, ok, err}
use agent_tx_protocol.Storage.Keys.{starts_with, key_lt, prefix_end}
use agent_tx_protocol.Storage.Layout.{
  overlay_prefix, global, overlay, journal, journal_prefix, snapshot_prefix,
}
use agent_tx_protocol.Storage.Values.{
  validate_tx_id, validate_key, split_versioned, encode_versioned, split_overlay, encode_overlay,
}
use agent_tx_protocol.Storage.Values.RoundTrip.{
  overlay_of, split_versioned-encode_versioned, split_overlay-encode_overlay,
}
use agent_tx_protocol.Storage.Database.{Bytes, default, apply_batch, apply_op, put_entry}
use agent_tx_protocol.Storage.Rocks.{RocksStore, write_overlay, read, get_committed}
use agent_tx_protocol.Storage.Rocks.Snapshots.{delete_items}
use agent_tx_protocol.Storage.Rocks.Commit.{commit}
use agent_tx_protocol.Storage.Publish.Commits.{Committed, commit-cases}
use agent_tx_protocol.Storage.Publish.Returns.{IsCurrent, commit-Returns}
use agent_tx_protocol.Storage.Publish.Items.{version_in}
use agent_tx_protocol.Storage.Database.Ordered.{on_key}
use mathlib.Core.Path.{subst}
use agent_tx_protocol.Storage.Publish.Rivals.{first_committer_wins}
use agent_tx_protocol.Storage.Publish.ReadBack.{read-write_overlay, get_committed-commit}
use agent_tx_protocol.Tests.Databases.{Ordered, ordered, ordered-IsDatabase}
use agent_tx_protocol.Tests.Snapshots.{tx, other, key, start, is_valid, differ, ordered-IsReliable}

split_versioned-encode_versioned_example :
    split_versioned (encode_versioned 300 (7 ∷ [])) key ≡ ok (300, 7 ∷ [])
split_versioned-encode_versioned_example =
    split_versioned-encode_versioned 300 (7 ∷ []) key (omega arith)

split_overlay-encode_overlay_example :
    split_overlay (encode_overlay (some (7 ∷ [])) 300) key ≡ ok (overlay_of (some (7 ∷ [])) 300)
split_overlay-encode_overlay_example =
    split_overlay-encode_overlay (some (7 ∷ [])) 300 key (omega arith)

-- both transactions put a value of one key
abbrev ours_written : RocksStore Ordered
ours_written = (write_overlay ordered tx key (some (9 ∷ [])) start).1

abbrev both_written : RocksStore Ordered
both_written = (write_overlay ordered other key (some (8 ∷ [])) ours_written).1

abbrev theirs_committed : RocksStore Ordered
theirs_committed = (commit ordered other both_written).1

writes_ours : (write_overlay ordered tx key (some (9 ∷ [])) start).0 ≡ ok tt
unfolding write_overlay validate_key get key_lt global overlay split_versioned retain
writes_ours = refl

writes : (write_overlay ordered other key (some (8 ∷ [])) ours_written).0 ≡ ok tt
unfolding write_overlay validate_key get key_lt global overlay split_versioned retain apply_batch
    apply_op insert journal_prefix journal prefix_end
writes = refl

commits : (commit ordered other both_written).0 ≡ ok 1
unfolding commit write_overlay validate_tx_id get retain validate_key overlay split_versioned
    apply_batch apply_op key_lt insert journal_prefix journal prefix_end is_utf8 split_overlay
    encode_overlay snapshot_prefix
commits = refl

-- the two overlay values, both based on the committed version 1
abbrev theirs : Bytes
theirs = encode_overlay (some (8 ∷ [])) 1

abbrev ours : Bytes
ours = encode_overlay (some (9 ∷ [])) 1

wrote : get (both_written.db.0 default) (overlay other key) ≡ some theirs
unfolding write_overlay validate_key get key_lt global overlay split_versioned retain apply_batch
    apply_op insert journal_prefix journal prefix_end encode_overlay
wrote = refl

written : get (both_written.db.0 default) (overlay tx key) ≡ some ours
unfolding write_overlay validate_key get key_lt global overlay split_versioned retain apply_batch
    apply_op insert journal_prefix journal prefix_end encode_overlay
written = refl

version_kept : both_written.commit_version ≡ 1
unfolding write_overlay validate_key get key_lt global overlay split_versioned retain apply_batch
    apply_op insert journal_prefix journal prefix_end
version_kept = refl

first_committer_wins_example :
    (e : AgentTxError) × (commit ordered tx theirs_committed ≡ (err e, theirs_committed))
first_committer_wins_example =
    first_committer_wins ordered ordered-IsDatabase tx other is_valid.0 is_valid.1 differ key
      both_written theirs_committed 1 theirs ours (overlay_of (some (8 ∷ [])) 1)
      (overlay_of (some (9 ∷ [])) 1) wrote
      (split_overlay-encode_overlay (some (8 ∷ [])) 1 key (omega arith)) written
      (split_overlay-encode_overlay (some (9 ∷ [])) 1 key (omega arith)) (inl refl)
      (omega (arith, version_kept)) (omega (arith, version_kept))
      (ap (λ r. (r, theirs_committed)) commits)

commit-cases_example :
    ((e : AgentTxError) × (commit ordered other both_written ≡ (err e, both_written)))
    ⊎ ((n : ℕ) × (t : RocksStore Ordered) × (commit ordered other both_written ≡ (ok n, t))
        × Committed ordered ordered-IsDatabase other both_written n t)
commit-cases_example = commit-cases ordered ordered-IsDatabase other both_written

reads_theirs : (read ordered other key both_written).0 ≡ ok (some (8 ∷ []))
unfolding read validate_key get write_overlay global overlay split_versioned retain apply_batch
    apply_op key_lt insert journal_prefix journal prefix_end split_overlay encode_overlay
reads_theirs = refl

-- what a read gives
abbrev found : Result (Option Bytes) → Option Bytes
found (ok r) = r
found (err e) = none

found_in :
    {r : Result (Option Bytes) × RocksStore Ordered} {o : Option Bytes}
    → r.0 ≡ ok o
    → r ≡ (ok (found r.0), r.1)
found_in {r = r} h = ap (λ x. (x, r.1)) (h ∙ ap (λ x. ok (found x)) (sym h))

read-write_overlay_example : found (read ordered other key both_written).0 ≡ some (8 ∷ [])
read-write_overlay_example =
    read-write_overlay ordered ordered-IsDatabase other key (some (8 ∷ []))
      (found (read ordered other key both_written).0) ours_written both_written
      (read ordered other key both_written).1 tt (ap (λ r. (r, both_written)) writes)
      (found_in reads_theirs)

reads_committed : (get_committed ordered key theirs_committed).0 ≡ ok (some (8 ∷ []))
unfolding get_committed global put_entry remove delete_items commit write_overlay validate_tx_id get
    retain validate_key overlay split_versioned apply_batch apply_op key_lt insert journal_prefix
    journal prefix_end is_utf8 split_overlay encode_overlay snapshot_prefix
reads_committed = refl

get_committed-commit_example : found (get_committed ordered key theirs_committed).0 ≡ some (8 ∷ [])
get_committed-commit_example =
    get_committed-commit ordered ordered-IsDatabase other key (some (8 ∷ []))
      (found (get_committed ordered key theirs_committed).0) 1 ours_written both_written
      theirs_committed (get_committed ordered key theirs_committed).1 tt
      (ap (λ r. (r, both_written)) writes) (ap (λ r. (r, theirs_committed)) commits)
      (found_in reads_committed)

items_are :
    retain (on_key (starts_with (overlay_prefix other))) (both_written.db.0 default)
    ≡ (overlay other key, theirs) ∷ []
unfolding write_overlay validate_key get key_lt global overlay split_versioned retain apply_batch
    apply_op insert journal_prefix journal prefix_end encode_overlay starts_with overlay_prefix
items_are = refl

is_current :
    version_in
      (get
        (both_written.db.0 default)
        (global (drop (length (overlay_prefix other)) (overlay other key))))
      (drop (length (overlay_prefix other)) (overlay other key))
    ≡ ok 1
unfolding write_overlay validate_key get key_lt global overlay split_versioned retain apply_batch
    apply_op insert journal_prefix journal prefix_end encode_overlay overlay_prefix
is_current = refl

is_text : is_utf8 (drop (length (overlay_prefix other)) (overlay other key)) ≡ true
unfolding is_utf8 overlay overlay_prefix
is_text = refl

entry-IsCurrent :
    IsCurrent ordered ordered-IsDatabase ordered-IsReliable both_written
      (length (overlay_prefix other))
      (overlay other key, theirs)
entry-IsCurrent = record {
  is_text = is_text;
  value = overlay_of (some (8 ∷ [])) 1;
  is_read = split_overlay-encode_overlay (some (8 ∷ [])) 1 _ (omega arith);
  is_current = is_current;
}

commit-Returns_example :
    (n : ℕ) × (t : RocksStore Ordered) × (commit ordered other both_written ≡ (ok n, t))
commit-Returns_example =
    commit-Returns ordered ordered-IsDatabase ordered-IsReliable both_written other is_valid.1 (
      subst
        (λ m.
          All
            (IsCurrent ordered ordered-IsDatabase ordered-IsReliable both_written
              (length (overlay_prefix other)))
            m)
        (sym items_are) (entry-IsCurrent, tt))
