-- ===== src/Storage/Restore/RewindBatch.antt =====
-- What the batch of `restore_snapshot` does to the values, the journal and the snapshots.
use mathlib.Core.List.{reverse}
use agent_tx_protocol.Prelude.{
  ℕ, ◌+◌, ◌≡◌, refl, sym, ap, ◌∙◌, inl, inr, true, false, not, if◌then◌else◌, Bool, ◌&&◌, list_eq,
  nat_eq, none, some, List, [], ◌∷◌, ◌++◌, Text, get, retain, All, arith, Bool-cases, ltb, u32_mod,
}
use agent_tx_protocol.Storage.Keys.{key_lt, starts_with, prefix_end}
use agent_tx_protocol.Storage.Layout.{journal_prefix, snapshot_prefix, journal, snapshot, padded}
use agent_tx_protocol.Storage.Layout.Prefixes.{is_within-prefix, is_within-narrow}
use agent_tx_protocol.Storage.Database.{
  Bytes, Entries, BatchOp, default, snapshots, apply_batch, within,
}
use agent_tx_protocol.Storage.Database.Ordered.{on_key, is_within}
use agent_tx_protocol.Storage.Database.Batches.{
  keys, deletes, removing, retain-apply_batch, retain-removing-reverse, retain-agree, retain-both,
  agree, apply_batch-append, get-retain,
}
use agent_tx_protocol.Storage.Database.Removals.{removing-gone, removing-kept}
use agent_tx_protocol.Storage.Restore.Undo.{ops_of, unwind, get-ops_of, removing-ops_of}
use agent_tx_protocol.Storage.Restore.Changes.{newer, older}
use agent_tx_protocol.Storage.Restore.Scans.{
  within-newer, retain-newer, apply_batch-deletes, default-deletes, get-removing, Avoids-deletes,
  one_kind,
}

-- The keys of snapshots.
abbrev pub AreMarks : Text → List Bytes → Type 0
AreMarks tx ks = All (λ k. starts_with (snapshot_prefix tx) k ≡ true) ks

not_journal :
    (tx : Text) (ks : List Bytes)
    → AreMarks tx ks
    → All (λ k. starts_with (journal_prefix tx) k ≡ false) ks
unfolding snapshot_prefix journal_prefix
not_journal tx [] h = tt
not_journal tx (k ∷ ks) h = (one_kind _ _ k b'm' b'j' refl h.0, not_journal tx ks h.1)

pub later_marks :
    (tx : Text) (step : ℕ) (k : Bytes)
    → is_within (snapshot tx (step + 1)) (prefix_end (snapshot_prefix tx)) k ≡ true
    → starts_with (snapshot_prefix tx) k ≡ true
unfolding snapshot snapshot_prefix
later_marks tx step k h =
    let start = b'm' ∷ b'/' ∷ tx in
    let prefix = start ++ b'/' ∷ [] in
    sym (is_within-prefix start k)
    ∙ is_within-narrow prefix (padded 10 (step + 1)) (prefix_end prefix) k h

-- The keys of the snapshots of later steps: there are none after the last step of a u32.
abbrev pub is_later : Text → ℕ → Bytes → Bool
is_later tx step k =
    ltb (step + 1) u32_mod && is_within (snapshot tx (step + 1)) (prefix_end (snapshot_prefix tx)) k

abbrev pub later_keys : Text → ℕ → Entries → List Bytes
later_keys tx step m =
    if ltb (step + 1) u32_mod
    then keys (retain (within (snapshot tx (step + 1)) (prefix_end (snapshot_prefix tx))) m)
    else []

-- What a rewind's batch leaves of the journal.
older_left :
    (tx : Text) (p : ℕ) (k : Bytes)
    → (starts_with (journal_prefix tx) k
        && not (is_within (journal tx p) (prefix_end (journal_prefix tx)) k))
      ≡ (key_lt k (journal tx p) && starts_with (journal_prefix tx) k)
older_left tx p k = ground (arith, within-newer tx p k)

module _ (tx : Text) (p : ℕ) (m : Entries) (ks : List Bytes) (marked : AreMarks tx ks) where
  abbrev pub batch : List BatchOp
  batch =
      ops_of (reverse (retain (within (journal tx p) (prefix_end (journal_prefix tx))) m))
      ++ deletes snapshots ks

  pub log-batch :
      retain (on_key (starts_with (journal_prefix tx))) (apply_batch snapshots batch m)
      ≡ older tx p (retain (on_key (starts_with (journal_prefix tx))) m)
  log-batch =
      let q = starts_with (journal_prefix tx) in
      let r = is_within (journal tx p) (prefix_end (journal_prefix tx)) in
      let ops = ops_of (reverse (retain (on_key r) m)) in
      ap (retain (on_key q)) (apply_batch-append snapshots ops (deletes snapshots ks) m)
      ∙ retain-apply_batch snapshots q (deletes snapshots ks) (apply_batch snapshots ops m)
          (Avoids-deletes q snapshots snapshots ks (not_journal tx ks marked))
      ∙ ap (retain (on_key q)) (removing-ops_of (reverse (retain (on_key r) m)) m)
      ∙ retain-removing-reverse q r m
      ∙ retain-agree _ _ m (agree _ _ m (older_left tx p))
      ∙ sym (retain-both (λ k. key_lt k (journal tx p)) q m)

  pub values-batch :
      (values : Entries) (k : Bytes)
      → get (apply_batch default batch values) k
        ≡ unwind
            (reverse (newer tx p (retain (on_key (starts_with (journal_prefix tx))) m)))
            k
            (get values k)
  values-batch values k =
      let items = reverse (retain (within (journal tx p) (prefix_end (journal_prefix tx))) m) in
      ap (λ r. get r k) (apply_batch-append default (ops_of items) (deletes snapshots ks) values)
      ∙ ap (λ r. get r k) (default-deletes ks (apply_batch default (ops_of items) values))
      ∙ get-ops_of items values k
      ∙ ap (λ r. unwind (reverse r) k (get values k)) (retain-newer tx p m)

  pub marks-batch :
      (k v : Bytes) → get (apply_batch snapshots batch m) k ≡ some v → get m k ≡ some v
  marks-batch k v h =
      let items = reverse (retain (within (journal tx p) (prefix_end (journal_prefix tx))) m) in
      let e =
        apply_batch-append snapshots (ops_of items) (deletes snapshots ks) m
        ∙ apply_batch-deletes snapshots ks (apply_batch snapshots (ops_of items) m)
        ∙ ap (removing ks) (removing-ops_of items m) in
      get-removing (keys items) m k v
        (get-removing ks (removing (keys items) m) k v (sym (ap (λ r. get r k) e) ∙ h))

  -- The journal's scan has no snapshot.
  scan_has_no_mark :
      (k : Bytes)
      → (starts_with (snapshot_prefix tx) k
          && not (is_within (journal tx p) (prefix_end (journal_prefix tx)) k))
        ≡ starts_with (snapshot_prefix tx) k
  unfolding journal_prefix snapshot_prefix
  scan_has_no_mark k =
      let not_entry : starts_with (snapshot_prefix tx) k ≡ true
          → starts_with (journal_prefix tx) k ≡ false =
        λ h. one_kind _ _ k b'm' b'j' refl h in
      elim (Bool-cases (starts_with (snapshot_prefix tx) k)) [
        | inl mark ↦ ground (arith, within-newer tx p k, mark, not_entry mark)
        | inr other ↦ rw other refl
      ]

  get-batch :
      (k : Bytes)
      → starts_with (snapshot_prefix tx) k ≡ true
      → get
          (removing
            (keys (reverse (retain (within (journal tx p) (prefix_end (journal_prefix tx))) m)))
            m)
          k
        ≡ get m k
  get-batch k mark =
      let q = starts_with (snapshot_prefix tx) in
      let r = is_within (journal tx p) (prefix_end (journal_prefix tx)) in
      let left = removing (keys (reverse (retain (on_key r) m))) m in
      sym (get-retain q left k mark)
      ∙ ap (λ x. get x k)
          (retain-removing-reverse q r m ∙ retain-agree _ _ m (agree _ _ m scan_has_no_mark))
      ∙ get-retain q m k mark

  -- The snapshots of later steps are gone, the others stay.
  pub marks_left :
      (step : ℕ)
      → ks ≡ later_keys tx step m
      → (k : Bytes) → starts_with (snapshot_prefix tx) k ≡ true
      → get (apply_batch snapshots batch m) k ≡ (if is_later tx step k then none else get m k)
  unfolding removing
  marks_left step later k mark =
      let items = reverse (retain (within (journal tx p) (prefix_end (journal_prefix tx))) m) in
      let left = removing (keys items) m in
      let q = is_within (snapshot tx (step + 1)) (prefix_end (snapshot_prefix tx)) in
      ap (λ r. get r k)
        (apply_batch-append snapshots (ops_of items) (deletes snapshots ks) m
          ∙ apply_batch-deletes snapshots ks (apply_batch snapshots (ops_of items) m)
          ∙ ap (removing ks) (removing-ops_of items m)
          ∙ ap (λ j. removing j left) later)
      ∙ elim (Bool-cases (ltb (step + 1) u32_mod)) [
        | inr last ↦ rw last (get-batch k mark)
        | inl more ↦ elim (Bool-cases (q k)) [
          | inl listed ↦ rw more (rw listed (removing-gone q m left k listed (get-batch k mark)))
          | inr other ↦ rw more (rw other (removing-kept q m left k other ∙ get-batch k mark))
        ]
      ]
