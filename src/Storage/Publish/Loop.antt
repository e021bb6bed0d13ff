-- ===== src/Storage/Publish/Loop.antt =====
-- What the loop of `commit` gives: an error and no change, or the operations that publish the overlay.
use agent_tx_protocol.Prelude.{
  ℕ, suc, ◌+◌, ◌≡◌, refl, sym, ap, ◌∙◌, inl, inr, ◌==◌, nat_eq, list_eq, Option, none, some, List,
  [], ◌∷◌, ◌++◌, Text, get, arith, Bool-cases, length, drop, is_utf8, bytes, nat_same_iff,
}
use mathlib.Core.Path.{subst, ap₂}
use mathlib.Core.List.{append-nil, append_assoc}
use agent_tx_protocol.Errors.{AgentTxError, corrupt, write_conflict, ok, Result-cases}
use agent_tx_protocol.Storage.Layout.{global}
use agent_tx_protocol.Storage.Values.{split_overlay, split_versioned, Overlay}
use agent_tx_protocol.Storage.Database.{Bytes, Entries, Database, IsDatabase, BatchOp, default}
use agent_tx_protocol.Storage.Rocks.{RocksStore, ◌>>=◌, committed_version, get_cf}
use agent_tx_protocol.Storage.Rocks.Commit.{publish_op, publish_entry, publish_items}
use agent_tx_protocol.Storage.Publish.Reads.{Reads, fails, gives}
use agent_tx_protocol.Storage.Publish.Items.{version_in, version_of, Publishes, none_left, publish}

counted : (a b : ℕ) → a + 1 + b ≡ a + suc b
counted a b = omega arith

module _ {Db : Type 0} (d : Database Db) (l : IsDatabase d) (s : RocksStore Db) where
  abbrev committed : Entries
  committed = l.entries s.db default

  committed_version-Reads :
      (key : Text)
      → Reads s (committed_version d key) (λ v. version_in (get committed (global key)) key ≡ ok v)
  unfolding committed_version get_cf ◌>>=◌
  committed_version-Reads key = elim (Result-cases (d.get_cf s.db default (global key))) [
    | inr (e, bad) ↦ fails e (rw bad)
    | inl (none, got) ↦
        gives 0 (rw got)
          (ap (λ o. version_in o key) (sym (l.get_cf_lem s.db default (global key) none got)))
    | inl (some raw, got) ↦
        let here = sym (l.get_cf_lem s.db default (global key) (some raw) got) in
        elim (Result-cases (split_versioned raw key)) [
          | inr (e, bad) ↦ fails e (rw (got, bad))
          | inl (v, good) ↦
              gives v.0 (rw (got, good)) (ap (λ o. version_in o key) here ∙ ap version_of good)
        ]
  ]

  publish_entry-Reads :
      (version : ℕ) (raw key value : Bytes)
      → Reads s (publish_entry d version raw key value) (λ op.
        (o : Overlay) × (split_overlay value key ≡ ok o)
        × (version_in (get committed (global key)) key ≡ ok o.base_version)
        × (op ≡ publish_op version key o))
  unfolding publish_entry ◌>>=◌
  publish_entry-Reads version raw key value = elim (Bool-cases (is_utf8 key)) [
    | inr no_text ↦ fails (corrupt raw (bytes "non-UTF-8 key")) (rw no_text)
    | inl text ↦ elim (Result-cases (split_overlay value key)) [
      | inr (e, bad) ↦ fails e (rw (text, bad))
      | inl (o, split) ↦ elim (committed_version-Reads key) [
        | fails e bad ↦ fails e (rw (text, split, bad))
        | gives v got is ↦ elim (Bool-cases (v == o.base_version)) [
          | inl same ↦
              gives (publish_op version key o) (rw (text, split, got, same))
                (o, split, is ∙ ap (λ n. ok n) ((nat_same_iff v o.base_version).0 same), refl)
          | inr stale ↦ fails (write_conflict key) (rw (text, split, got, stale))
        ]
      ]
    ]
  ]

  pub publish_items-Reads :
      (version n : ℕ) (items : Entries) (failure : Option AgentTxError) (batch : List BatchOp)
      (published : ℕ)
      → Reads s (publish_items d version n items failure batch published) (λ r.
        (ops : List BatchOp) × Publishes committed version n items ops
        × (failure ≡ none)
        × (r ≡ (batch ++ ops, published + length items)))
  unfolding publish_items ◌>>=◌
  publish_items-Reads version n [] none batch published =
      gives (batch, published) refl ([], none_left, refl, ground (arith, append-nil batch))
  publish_items-Reads version n [] (some e) batch published = fails e refl
  publish_items-Reads version n ((raw, value) ∷ rest) failure batch published =
      elim (publish_entry-Reads version raw (drop n raw) value) [
        | fails e bad ↦ fails e (rw bad)
        | gives op got (o, split, same, is) ↦
            elim (publish_items-Reads version n rest failure (batch ++ op ∷ []) (published + 1)) [
              | fails e bad ↦ fails e (rw got bad)
              | gives r done (ops, more, whole, r_is) ↦ gives r (rw got done) (
                op ∷ ops,
                subst (λ x. Publishes committed version n ((raw, value) ∷ rest) (x ∷ ops)) (sym is)
                    (publish raw value (drop n raw) o refl split same more),
                whole,
                r_is
                    ∙ ap₂ (λ b m. (b, m)) (append_assoc batch (op ∷ []) ops)
                        (counted published (length rest)),
              )
            ]
      ]
