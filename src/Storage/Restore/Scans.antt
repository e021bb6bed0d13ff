-- ===== src/Storage/Restore/Scans.antt =====
-- What a rewind of a transaction reads from the database, and what its batch removes.
use mathlib.Core.Path.{subst}
use agent_tx_protocol.Prelude.{
  ℕ, ◌≡◌, refl, sym, ◌∙◌, inl, inr, Bool, true, false, ◌&&◌, ◌==◌, list_eq, nat_eq, Option, none,
  some, List, [], ◌∷◌, ◌++◌, Text, get, remove, get-remove, retain, All, arith,
}
use agent_tx_protocol.Errors.{AgentTxError, ok, Result-cases}
use agent_tx_protocol.Storage.Keys.{starts_with, prefix_end}
use agent_tx_protocol.Storage.Layout.{journal_prefix, journal, padded}
use agent_tx_protocol.Storage.Layout.Prefixes.{is_within-prefix, is_within-narrow}
use agent_tx_protocol.Storage.Database.{
  Bytes, Entries, BatchOp, default, snapshots, saga_logs, ColumnFamily, apply_op, apply_batch,
  within,
}
use agent_tx_protocol.Storage.Database.Ordered.{on_key, is_within, All-on_key}
use agent_tx_protocol.Storage.Database.Batches.{
  keys, deletes, removing, Avoids, retain-agree, retain-both, agree,
}
use agent_tx_protocol.Storage.Rocks.Snapshots.{delete_items}
use agent_tx_protocol.Storage.Restore.Changes.{is_newer, newer}

-- a range that starts at an entry of the journal
pub within-newer :
    (tx : Text) (p : ℕ) (k : Bytes)
    → is_within (journal tx p) (prefix_end (journal_prefix tx)) k
      ≡ (is_newer tx p k && starts_with (journal_prefix tx) k)
unfolding journal journal_prefix
within-newer tx p k =
    let start = b'j' ∷ b'/' ∷ tx in
    let prefix = start ++ b'/' ∷ [] in
    ground
      (arith, is_within-prefix start k, is_within-narrow prefix (padded 20 p) (prefix_end prefix) k)

pub retain-newer :
    (tx : Text) (p : ℕ) (m : Entries)
    → retain (within (journal tx p) (prefix_end (journal_prefix tx))) m
      ≡ newer tx p (retain (on_key (starts_with (journal_prefix tx))) m)
retain-newer tx p m =
    retain-agree (is_within (journal tx p) (prefix_end (journal_prefix tx))) _ m
      (agree _ _ m (within-newer tx p))
    ∙ sym (retain-both (is_newer tx p) (starts_with (journal_prefix tx)) m)

-- Where the loop over the later snapshots succeeds, it deletes their keys.
pub delete_items-deletes :
    (c : ColumnFamily) (items : Entries) (failure : Option AgentTxError) (batch : List BatchOp)
    → delete_items c items failure ≡ ok batch
    → (failure ≡ none) × (batch ≡ deletes c (keys items))
unfolding delete_items
delete_items-deletes c [] none batch h = ground arith
delete_items-deletes c [] (some e) batch h = cc
delete_items-deletes c (item ∷ rest) failure batch h =
    elim (Result-cases (delete_items c rest failure)) [
      | inl (more, good) ↦
          let (none_left, more_deletes) = delete_items-deletes c rest failure more good in
          (none_left, ground (arith, good, more_deletes))
      | inr (e, bad) ↦ absurd (ground arith)
    ]

pub apply_batch-deletes :
    (c : ColumnFamily) (ks : List Bytes) (m : Entries)
    → apply_batch c (deletes c ks) m ≡ removing ks m
unfolding apply_batch apply_op removing
apply_batch-deletes c [] m = refl
apply_batch-deletes default (k ∷ ks) m = apply_batch-deletes default ks (remove m k)
apply_batch-deletes snapshots (k ∷ ks) m = apply_batch-deletes snapshots ks (remove m k)
apply_batch-deletes saga_logs (k ∷ ks) m = apply_batch-deletes saga_logs ks (remove m k)

pub default-deletes :
    (ks : List Bytes) (m : Entries) → apply_batch default (deletes snapshots ks) m ≡ m
unfolding apply_batch apply_op
default-deletes [] m = refl
default-deletes (k ∷ ks) m = default-deletes ks m

pub get-removing :
    (ks : List Bytes) (m : Entries) (k v : Bytes)
    → get (removing ks m) k ≡ some v
    → get m k ≡ some v
unfolding removing
get-removing [] m k v h = h
get-removing (j ∷ ks) m k v h = ground (arith, get-removing ks (remove m j) k v h, get-remove m j k)

pub Avoids-deletes :
    (q : Bytes → Bool) (c e : ColumnFamily) (ks : List Bytes)
    → All (λ k. q k ≡ false) ks
    → Avoids c q (deletes e ks)
Avoids-deletes q c e [] h = tt
Avoids-deletes q c e (k ∷ ks) h = (ground (arith, h.0), Avoids-deletes q c e ks h.1)

-- no key has two kinds
pub one_kind :
    (p r k : Bytes) (x y : ℕ)
    → (y == x) ≡ false
    → starts_with (x ∷ p) k ≡ true
    → starts_with (y ∷ r) k ≡ false
unfolding starts_with
one_kind p r [] x y h s = refl
one_kind p r (b ∷ k) x y h s = ground arith

keys-All :
    (q : Bytes → Bool) (items rest : Entries)
    → All (λ e. q e.0 ≡ true) (items ++ rest)
    → All (λ k. q k ≡ true) (keys items)
keys-All q [] rest h = tt
keys-All q (e ∷ items) rest h = (h.0, keys-All q items rest h.1)

weaken :
    (r q : Bytes → Bool) (m : Entries)
    → ((k : Bytes) → r k ≡ true → q k ≡ true)
    → All (λ e. r e.0 ≡ true) m
    → All (λ e. q e.0 ≡ true) m
weaken r q [] h a = tt
weaken r q (e ∷ m) h a = (h e.0 a.0, weaken r q m h a.1)

-- Whatever part of a range an iterator gives, its keys are in the range.
pub scanned-All :
    (r q : Bytes → Bool) (items rest m : Entries)
    → items ++ rest ≡ retain (on_key r) m
    → ((k : Bytes) → r k ≡ true → q k ≡ true)
    → All (λ k. q k ≡ true) (keys items)
scanned-All r q items rest m e h = keys-All q items rest (
    subst (λ l. All (λ f. q f.0 ≡ true) l) (sym e)
      (weaken r q (retain (on_key r) m) h (All-on_key r m)))
