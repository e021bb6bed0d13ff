-- ===== src/Storage/Publish/ReadBack.antt =====
-- What is written is read: by the transaction at once, by all others once it has committed.
use mathlib.Core.Path.{subst}
use agent_tx_protocol.Prelude.{
  ℕ, ◌<◌, ◌≡◌, sym, ap, ◌∙◌, inl, inr, ◌==◌, nat_eq, list_eq, Option, none, some, [], ◌∷◌, Text,
  get, u64_mod, arith, Bool-cases, if◌then◌else◌,
}
use agent_tx_protocol.Errors.{ok, Result-cases}
use agent_tx_protocol.Storage.Layout.{global, overlay, journal}
use agent_tx_protocol.Storage.Journal.{encode}
use agent_tx_protocol.Storage.Values.{validate_key, Overlay, tag_value, encode_overlay}
use agent_tx_protocol.Storage.Values.RoundTrip.{
  split_versioned-encode_versioned, split_overlay-payload,
}
use agent_tx_protocol.Storage.Database.{
  Bytes, Database, IsDatabase, default, snapshots, put_cf, apply_batch, apply_op,
}
use agent_tx_protocol.Storage.Database.Ordered.{get-put_entry, key_same}
use agent_tx_protocol.Storage.Rocks.{
  RocksStore, ◌>>=◌, get_cf, read, get_committed, write_overlay, journaled_write,
  allocate_journal_seq, base_version, data_op,
}
use agent_tx_protocol.Storage.Rocks.Commit.{commit}
use agent_tx_protocol.Storage.Publish.Reads.{failed-ne-ok, same_result, same_outcome}
use agent_tx_protocol.Storage.Publish.Items.{published_value, AfterPublish}
use agent_tx_protocol.Storage.Publish.Commits.{version, commit-Committed}
use agent_tx_protocol.Storage.Restore.Operations.{base_version-reads}
use agent_tx_protocol.Storage.Restore.Views.{write-cases}

module _ {Db : Type 0} (d : Database Db) (l : IsDatabase d) where
  abbrev data_in : RocksStore Db → Bytes → Option Bytes
  data_in s k = get (l.entries s.db default) k

  -- What a journaled write that succeeds leaves.
  journaled_write-gives :
      (tx : Text) (raw v : Bytes) (prior : Option Bytes) (s t : RocksStore Db) (u : Unit {0})
      → journaled_write d tx raw prior (some v) s ≡ (ok u, t)
      → data_in t raw ≡ some v
  unfolding journaled_write data_op apply_batch apply_op ◌>>=◌
  journaled_write-gives tx raw v prior s t u h =
      elim (Result-cases (allocate_journal_seq d tx s).0) [
        | inr (e, bad) ↦ absurd (failed-ne-ok (rw bad at h))
        | inl (n, good) ↦
            let next = (allocate_journal_seq d tx s).1 in
            let batch =
              put_cf snapshots (journal tx n) (encode (record { raw_key = raw; prior = prior }))
              ∷ put_cf default raw v
              ∷ [] in
            elim (write-cases d l batch next) [
              | inl (e, failed) ↦ absurd (failed-ne-ok (sym failed ∙ rw good at h))
              | inr (db, done, written) ↦
                  ap (λ x. data_in x.1 raw) (sym (rw good at h) ∙ done)
                  ∙ ap (λ m. get m raw) (written default)
                  ∙ get-put_entry (l.entries next.db default) raw raw v
                  ∙ ap (λ b. if b then some v else get (l.entries next.db default) raw)
                      (key_same raw)
            ]
      ]

  -- An overlay write that succeeds leaves the value, under some base version.
  write_overlay-gives :
      (tx key : Text) (value : Option Bytes) (s t : RocksStore Db) (u : Unit {0})
      → write_overlay d tx key value s ≡ (ok u, t)
      → (base : ℕ) × (data_in t (overlay tx key) ≡ some (encode_overlay value base))
  unfolding write_overlay get_cf ◌>>=◌
  write_overlay-gives tx key value s t u h = elim (Result-cases (validate_key key)) [
    | inr (e, bad) ↦ absurd (failed-ne-ok (rw bad at h))
    | inl (w, good) ↦ elim (Result-cases (d.get_cf s.db default (overlay tx key))) [
      | inr (e, bad) ↦ absurd (failed-ne-ok (rw (good, bad) at h))
      | inl (prior, got) ↦ elim (Result-cases (base_version d key prior s).0) [
        | inr (e, bad) ↦ absurd (failed-ne-ok (rw (good, got, bad) at h))
        | inl (base, is_base) ↦ (
          base,
          journaled_write-gives tx (overlay tx key) (encode_overlay value base) prior s t u
              (rw (good, got, is_base, base_version-reads d key prior s) at h),
        )
      ]
    ]
  ]

  -- What a transaction has put it reads back, and what it has deleted it reads as absent, where both
  -- calls succeed.
  pub read-write_overlay :
      (tx key : Text) (value r : Option Bytes) (s t v : RocksStore Db) (u : Unit {0})
      → write_overlay d tx key value s ≡ (ok u, t)
      → read d tx key t ≡ (ok r, v)
      → r ≡ value
  unfolding read get_cf ◌>>=◌
  read-write_overlay tx key value r s t v u h k =
      let (base, stored) = write_overlay-gives tx key value s t u h in
      let (o, split, payload) = split_overlay-payload value base key in
      elim (Result-cases (validate_key key)) [
        | inr (e, bad) ↦ absurd (failed-ne-ok (rw bad at k))
        | inl (w, good) ↦ elim (Result-cases (d.get_cf t.db default (overlay tx key))) [
          | inr (e, bad) ↦ absurd (failed-ne-ok (rw (good, bad) at k))
          | inl (found, got) ↦
              let is = l.get_cf_lem t.db default (overlay tx key) found got ∙ stored in
              ap (λ x. x.0) (same_outcome (sym (rw (good, got, is, split) at k))) ∙ payload
        ]
      ]

  -- what a committed value reads as
  get_committed-published :
      (key : Text) (version : ℕ) (o : Overlay) (r : Option Bytes) (t v : RocksStore Db)
      → version < u64_mod
      → data_in t (global key) ≡ published_value version o
      → get_committed d key t ≡ (ok r, v)
      → r ≡ (if o.tag == tag_value then some o.payload else none)
  unfolding get_committed get_cf ◌>>=◌
  get_committed-published key version o r t v small now k = elim (Result-cases (validate_key key)) [
    | inr (e, bad) ↦ absurd (failed-ne-ok (rw bad at k))
    | inl (w, good) ↦ elim (Result-cases (d.get_cf t.db default (global key))) [
      | inr (e, bad) ↦ absurd (failed-ne-ok (rw (good, bad) at k))
      | inl (found, got) ↦
          let is = l.get_cf_lem t.db default (global key) found got ∙ now in
          elim (Bool-cases (o.tag == tag_value)) [
            | inr tombstone ↦
                rw tombstone
                  (ap (λ x. x.0) (same_outcome (sym (rw (good, got, is, tombstone) at k))))
            | inl value ↦
                let split = split_versioned-encode_versioned version o.payload key small in
                rw value
                  (ap (λ x. x.0) (same_outcome (sym (rw (good, got, is, value, split) at k))))
          ]
    ]
  ]

  -- What a transaction puts or deletes, and then commits, is what a read of the committed key gives
  -- after that, where the three calls succeed: the value
  -- that was put, or that there is none.
  pub get_committed-commit :
      (tx key : Text) (value r : Option Bytes) (n : ℕ) (s₀ s t v : RocksStore Db) (u : Unit {0})
      → write_overlay d tx key value s₀ ≡ (ok u, s)
      → commit d tx s ≡ (ok n, t)
      → get_committed d key t ≡ (ok r, v)
      → r ≡ value
  get_committed-commit tx key value r n s₀ s t v u h done k =
      let (base, stored) = write_overlay-gives tx key value s₀ s u h in
      let (o, split, payload) = split_overlay-payload value base key in
      let v₁ = version d l tx s in
      let (p, split', now) =
        subst (λ f. AfterPublish v₁ key f (data_in s (global key)) (data_in t (global key))) stored
          ((commit-Committed d l tx s done).published key) in
      get_committed-published key v₁ o r t v (omega arith)
        (now ∙ ap (published_value v₁) (same_result (sym split' ∙ split))) k
      ∙ payload
