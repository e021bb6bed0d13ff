-- ===== src/Storage/Publish/Rivals.antt =====
-- Of two transactions that wrote a key, the first to commit wins.
use mathlib.Core.Path.{subst}
use agent_tx_protocol.Prelude.{
  ℕ, ◌+◌, ◌≤◌, ◌<◌, ◌≡◌, ◌≢◌, refl, sym, ap, ◌∙◌, inl, inr, ◌⊎◌, ◌==◌, nat_eq, list_eq, some, Text,
  get, u64_mod, arith, Bool-cases, if◌then◌else◌,
}
use agent_tx_protocol.Errors.{AgentTxError, ok, err}
use agent_tx_protocol.Storage.Layout.{global, overlay}
use agent_tx_protocol.Storage.Layout.Prefixes.{validate_tx_id-HasNoSlash}
use agent_tx_protocol.Storage.Values.{validate_tx_id, split_overlay, Overlay, tag_value}
use agent_tx_protocol.Storage.Values.RoundTrip.{split_versioned-encode_versioned}
use agent_tx_protocol.Storage.Database.{Bytes, Database, IsDatabase, default}
use agent_tx_protocol.Storage.Rocks.{RocksStore}
use agent_tx_protocol.Storage.Rocks.Commit.{commit}
use agent_tx_protocol.Storage.Restore.Views.{view}
use agent_tx_protocol.Storage.Restore.Writes.{own-get}
use agent_tx_protocol.Storage.Restore.Others.{overlay-starts_with}
use agent_tx_protocol.Storage.Restore.Commits.{Quiet-commit}
use agent_tx_protocol.Storage.Publish.Reads.{same_result}
use agent_tx_protocol.Storage.Publish.Items.{version_in, version_of, published_value, AfterPublish}
use agent_tx_protocol.Storage.Publish.Commits.{version, commit-cases, commit-Committed}

-- The version of a published value is the commit's; that of a deleted one is 0.
published-version :
    (v : ℕ) (o : Overlay) (key : Text)
    → v < u64_mod
    → version_in (published_value v o) key ≡ ok (if o.tag == tag_value then v else 0)
published-version v o key small = elim (Bool-cases (o.tag == tag_value)) [
  | inl value ↦ rw value (ap version_of (split_versioned-encode_versioned v o.payload key small))
  | inr tombstone ↦ rw tombstone refl
]

module _ {Db : Type 0} (d : Database Db) (l : IsDatabase d) (tx other : Text)
    (valid : validate_tx_id tx ≡ ok tt) (its : validate_tx_id other ≡ ok tt)
    (differ : other ≢ tx) where
  -- What another's commit leaves in the overlay of the transaction.
  overlay_stays :
      (s t : RocksStore Db) (n : ℕ) (key : Text)
      → commit d other s ≡ (ok n, t)
      → get (l.entries t.db default) (overlay tx key)
        ≡ get (l.entries s.db default) (overlay tx key)
  overlay_stays s t n key done =
      let mine = validate_tx_id-HasNoSlash tx valid in
      let quiet = Quiet-commit d l tx other mine (validate_tx_id-HasNoSlash other its) differ in
      let own = overlay-starts_with tx key in
      sym (own-get tx (l.entries t.db default) (overlay tx key) own)
      ∙ ap (λ r. (view d l tx r.1).values (overlay tx key)) (sym done)
      ∙ (quiet.at s).0.values (overlay tx key)
      ∙ own-get tx (l.entries s.db default) (overlay tx key) own

  -- Another transaction that has written the same key, and commits first, makes the commit fail and
  -- change nothing: the key's version is no longer the one that the transaction's overlay was based on.
  -- Both identifiers are valid and differ, and both overlay values can be read. The other one put a
  -- value, or the key was committed when the transaction first wrote it; the version it was based on
  -- is not above the store's commit version, which has not run out.
  pub first_committer_wins :
      (key : Text) (s t : RocksStore Db) (n : ℕ) (theirs ours : Bytes) (o₁ o₂ : Overlay)
      → get (l.entries s.db default) (overlay other key) ≡ some theirs
      → split_overlay theirs key ≡ ok o₁
      → get (l.entries s.db default) (overlay tx key) ≡ some ours
      → split_overlay ours key ≡ ok o₂
      → (o₁.tag ≡ tag_value) ⊎ (0 < o₂.base_version)
      → o₂.base_version ≤ s.commit_version
      → s.commit_version + 1 < u64_mod
      → commit d other s ≡ (ok n, t)
      → (e : AgentTxError) × (commit d tx t ≡ (err e, t))
  first_committer_wins key s t n theirs ours o₁ o₂ wrote reads₁ written reads₂ matters based room
        done =
      let theirs_done = commit-Committed d l other s done in
      let (o, reads, now) =
        subst
          (λ f.
            AfterPublish (version d l other s) key f (get (l.entries s.db default) (global key))
              (get (l.entries t.db default) (global key)))
          wrote (theirs_done.published key) in
      let v = version d l other s in
      let now_version : version_in (get (l.entries t.db default) (global key)) key
          ≡ ok (if o₁.tag == tag_value then v else 0) =
        ap (λ r. version_in r key) (now ∙ ap (published_value v) (same_result (sym reads ∙ reads₁)))
        ∙ published-version v o₁ key (omega arith) in
      elim (commit-cases d l tx t) [
        | inl failed ↦ failed
        | inr (m, u, ours_done, c) ↦
            let (p, reads_p, base_p) = c.based key ours (overlay_stays s t n key done ∙ written) in
            let base : (if o₁.tag == tag_value then v else 0) ≡ o₂.base_version =
              same_result (sym now_version ∙ base_p)
              ∙ ap (λ q. q.base_version) (same_result (sym reads_p ∙ reads₂)) in
            absurd (ground arith)
      ]
