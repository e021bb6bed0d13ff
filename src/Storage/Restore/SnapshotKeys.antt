-- ===== src/Storage/Restore/SnapshotKeys.antt =====
-- The keys of a transaction's snapshots: they differ, and stand in the order of the steps.
use agent_tx_protocol.Prelude.{
  ℕ, ◌+◌, ◌≤◌, ◌<◌, ◌≡◌, refl, ap, ◌∙◌, inl, inr, true, false, ◌==◌, list_eq, nat_eq, Text, u32_mod,
  arith, Bool-cases, ltb, lt→ltb, not, ◌&&◌,
}
use agent_tx_protocol.Storage.Keys.{starts_with, key_lt, prefix_end}
use agent_tx_protocol.Storage.Layout.{snapshot_prefix, snapshot, padded}
use agent_tx_protocol.Storage.Layout.Numbers.{
  same-padded, same_start, key_lt-same_start, key_lt-padded,
}
use agent_tx_protocol.Storage.Layout.Prefixes.{starts_with-append}
use agent_tx_protocol.Storage.Restore.RewindBatch.{is_later}

pub snapshot-starts_with :
    (tx : Text) (i : ℕ) → starts_with (snapshot_prefix tx) (snapshot tx i) ≡ true
unfolding snapshot
snapshot-starts_with tx i = starts_with-append (snapshot_prefix tx) _

-- Different steps have different snapshots.
pub same-snapshot :
    (tx : Text) (i j : ℕ) → i < u32_mod → j < u32_mod → (snapshot tx i == snapshot tx j) ≡ (i == j)
unfolding snapshot
same-snapshot tx i j hi hj =
    same_start (snapshot_prefix tx) (padded 10 i) (padded 10 j)
    ∙ same-padded 10 i j (omega arith) (omega arith)

key_lt-snapshot :
    (tx : Text) (i j : ℕ)
    → i < u32_mod
    → j < u32_mod
    → key_lt (snapshot tx i) (snapshot tx j) ≡ ltb i j
unfolding snapshot
key_lt-snapshot tx i j hi hj =
    key_lt-same_start (snapshot_prefix tx) (padded 10 i) (padded 10 j)
    ∙ key_lt-padded 10 i j (omega arith) (omega arith)

-- The snapshot of a step is not one of a later step.
pub not_later :
    (tx : Text) (step i : ℕ) → step ≤ i → i < u32_mod → is_later tx i (snapshot tx step) ≡ false
not_later tx step i late fits = elim (Bool-cases (ltb (i + 1) u32_mod)) [
  | inr last ↦ rw last refl
  | inl more ↦
      let room : i + 1 < u32_mod = ground arith in
      let before =
        key_lt-snapshot tx step (i + 1) (omega arith) room ∙ lt→ltb step (i + 1) (omega arith) in
      rw more
        (ap (λ b. not b && key_lt (snapshot tx step) (prefix_end (snapshot_prefix tx))) before)
]
