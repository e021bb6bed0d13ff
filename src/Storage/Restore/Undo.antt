-- ===== src/Storage/Restore/Undo.antt =====
-- The loop of `restore_snapshot` over the journal: the batch that it builds, and what that batch does.
use agent_tx_protocol.Prelude.{
  ℕ, ◌+◌, ◌≡◌, refl, ap, ◌∙◌, ◌==◌, list_eq, nat_eq, Option, none, some, List, [], ◌∷◌, ◌++◌, get,
  get-remove, length, if◌then◌else◌, arith, inl, inr,
}
use mathlib.Core.List.{append-nil, append_assoc}
use agent_tx_protocol.Errors.{AgentTxError, Result, ok, err, Result-cases}
use agent_tx_protocol.Storage.Journal.{JournalEntry, decode}
use agent_tx_protocol.Storage.Database.{
  Bytes, Entries, BatchOp, delete_cf, default, snapshots, apply_op, apply_batch,
}
use agent_tx_protocol.Storage.Database.Ordered.{get-put_entry}
use agent_tx_protocol.Storage.Database.Batches.{keys, removing, apply_batch-append}
use agent_tx_protocol.Storage.Rocks.{data_op}
use agent_tx_protocol.Storage.Rocks.Snapshots.{undo_ops, revert_items}

-- The operations for a journal entry, and for all entries.
abbrev decoded_ops : Result JournalEntry → Bytes → List BatchOp
decoded_ops (ok entry) key = undo_ops entry key
decoded_ops (err e) key = delete_cf snapshots key ∷ []

pub ops_of : Entries → List BatchOp
ops_of [] = []
ops_of (item ∷ rest) = decoded_ops (decode item.1) item.0 ++ ops_of rest

-- The value of a key once the entries, the newest first, are undone.
abbrev undo_entry : Result JournalEntry → Bytes → Option Bytes → Option Bytes
undo_entry (ok entry) k value = if entry.raw_key == k then entry.prior else value
undo_entry (err e) k value = value

unfoldable pub unwind : Entries → Bytes → Option Bytes → Option Bytes
unwind [] k value = value
unwind (item ∷ rest) k value = unwind rest k (undo_entry (decode item.1) k value)

pub unwind-append :
    (xs ys : Entries) (k : Bytes) (value : Option Bytes)
    → unwind (xs ++ ys) k value ≡ unwind ys k (unwind xs k value)
unfolding unwind
unwind-append [] ys k value = refl
unwind-append (x ∷ xs) ys k value = unwind-append xs ys k (undo_entry (decode x.1) k value)

pub unwind-decoded :
    (key r : Bytes) (m : Entries) (k : Bytes) (value : Option Bytes) {entry : JournalEntry}
    → decode r ≡ ok entry
    → unwind ((key, r) ∷ m) k value ≡ unwind m k (if entry.raw_key == k then entry.prior else value)
unfolding unwind
unwind-decoded key r m k value good = ap (λ d. unwind m k (undo_entry d k value)) good

get-decoded_ops :
    (r : Result JournalEntry) (key : Bytes) (m : Entries) (k : Bytes)
    → get (apply_batch default (decoded_ops r key) m) k ≡ undo_entry r k (get m k)
unfolding apply_batch apply_op data_op
get-decoded_ops (err e) key m k = refl
get-decoded_ops (ok entry) key m k =
    elim entry.prior
      as (λ o.
        get (apply_batch default (undo_ops (record entry { prior = o }) key) m) k
        ≡ undo_entry (ok (record entry { prior = o })) k (get m k)) [
          | none ↦ get-remove m entry.raw_key k
          | some v ↦ get-put_entry m entry.raw_key k v
        ]

-- The batch of the loop undoes the entries.
pub get-ops_of :
    (items m : Entries) (k : Bytes)
    → get (apply_batch default (ops_of items) m) k ≡ unwind items k (get m k)
unfolding ops_of unwind apply_batch
get-ops_of [] m k = refl
get-ops_of (item ∷ rest) m k =
    let first = decoded_ops (decode item.1) item.0 in
    ap (λ l. get l k) (apply_batch-append default first (ops_of rest) m)
    ∙ get-ops_of rest (apply_batch default first m) k
    ∙ ap (unwind rest k) (get-decoded_ops (decode item.1) item.0 m k)

removing-decoded_ops :
    (r : Result JournalEntry) (key : Bytes) (m : Entries)
    → apply_batch snapshots (decoded_ops r key) m ≡ removing (key ∷ []) m
unfolding apply_batch apply_op data_op removing
removing-decoded_ops (err e) key m = refl
removing-decoded_ops (ok entry) key m =
    elim entry.prior
      as (λ o.
        apply_batch snapshots (undo_ops (record entry { prior = o }) key) m
        ≡ removing (key ∷ []) m) [ none ↦ refl | some v ↦ refl ]

-- And it removes them from the journal.
pub removing-ops_of :
    (items m : Entries) → apply_batch snapshots (ops_of items) m ≡ removing (keys items) m
unfolding ops_of removing apply_batch
removing-ops_of [] m = refl
removing-ops_of (item ∷ rest) m =
    let first = decoded_ops (decode item.1) item.0 in
    apply_batch-append snapshots first (ops_of rest) m
    ∙ removing-ops_of rest (apply_batch snapshots first m)
    ∙ ap (removing (keys rest)) (removing-decoded_ops (decode item.1) item.0 m)

err-ne-ok : {A : Type 0} {e : AgentTxError} {a : A} → ◌≡◌ {A = Result A} (err e) (ok a) → ⊥
err-ne-ok h = cc

-- Where the loop succeeds, its batch is this one, and it has counted the entries.
pub revert_items-ops_of :
    (items : Entries) (failure : Option AgentTxError) (batch : List BatchOp) (n : ℕ)
    (result : List BatchOp × ℕ)
    → revert_items items failure batch n ≡ ok result
    → (failure ≡ none) × (result.0 ≡ batch ++ ops_of items) × (result.1 ≡ n + length items)
unfolding revert_items ops_of
revert_items-ops_of [] none batch n result h = ground (arith, append-nil batch)
revert_items-ops_of [] (some e) batch n result h = cc
revert_items-ops_of (item ∷ rest) failure batch n result h = elim (Result-cases (decode item.1)) [
  | inl (entry, good) ↦
      let (none_left, ops, count) =
        revert_items-ops_of rest failure (batch ++ undo_ops entry item.0) (n + 1) result
          (rw (good, revert_items) at h) in
      (
        none_left,
        rw good (ops ∙ append_assoc batch (undo_ops entry item.0) (ops_of rest)),
        omega arith,
      )
  | inr (e, bad) ↦ absurd (err-ne-ok (rw (bad, revert_items) at h))
]
