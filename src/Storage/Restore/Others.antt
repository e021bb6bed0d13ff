-- ===== src/Storage/Restore/Others.antt =====
-- The operations of one transaction change nothing of another.
use mathlib.Core.List.{append_assoc}
use agent_tx_protocol.Prelude.{
  ℕ, ◌≡◌, ◌≢◌, refl, ap, ◌∙◌, true, false, list_eq, nat_eq, Option, none, some, [], ◌∷◌, ◌++◌, Text,
}
use agent_tx_protocol.Errors.{Result, ok}
use agent_tx_protocol.Storage.Journal.{JournalEntry, encode}
use agent_tx_protocol.Storage.Keys.{starts_with}
use agent_tx_protocol.Storage.Layout.{
  global, tx_data_prefix, snapshot_prefix, journal_prefix, journal, overlay_prefix, overlay, output,
  snapshot,
}
use agent_tx_protocol.Storage.Layout.Prefixes.{
  HasNoSlash, other_key, other_tx, other_kind, starts_with-append,
}
use agent_tx_protocol.Storage.Values.{
  validate_key, validate_tx_id, encode_overlay, split_overlay, split_versioned,
}
use agent_tx_protocol.Storage.Database.{Bytes, Database, IsDatabase, put_cf, default, snapshots}
use agent_tx_protocol.Storage.Database.Batches.{Avoids}
use agent_tx_protocol.Storage.Rocks.{
  SnapshotMeta, Codec, RocksStore, Method, pure, lift, ◌>>=◌, get_cf, committed_version,
  base_version, data_op, journaled_write, write_overlay, put_output,
}
use agent_tx_protocol.Storage.Rocks.Snapshots.{create_snapshot}
use agent_tx_protocol.Storage.Restore.Views.{Spares}
use agent_tx_protocol.Storage.Restore.Gives.{
  Gives, Gives-bind, Gives-pure, Gives-reads, trivial, Gives-write, Gives-peek, Gives-allocate,
}

pub overlay-starts_with : (tx key : Text) → starts_with (tx_data_prefix tx) (overlay tx key) ≡ true
unfolding overlay overlay_prefix tx_data_prefix
overlay-starts_with tx key =
    let p = tx_data_prefix tx in
    let inner : Bytes = b's' ∷ [] in
    let slash : Bytes = b'/' ∷ [] in
    let regrouped = append_assoc (p ++ inner) slash key ∙ append_assoc p inner (slash ++ key) in
    ap (starts_with p) regrouped ∙ starts_with-append p (inner ++ (slash ++ key))

pub output-starts_with :
    (tx : Text) (step : ℕ) → starts_with (tx_data_prefix tx) (output tx step) ≡ true
unfolding output
output-starts_with tx step = starts_with-append (tx_data_prefix tx) _

module _ {Db : Type 0} (d : Database Db) (l : IsDatabase d) (tx other : Text) (mine : HasNoSlash tx)
    (its : HasNoSlash other) (differ : other ≢ tx) where
  abbrev pub Quiet : {A : Type 0} → Method Db A → Type 0
  Quiet m = Gives d l tx (λ _. Unit {0}) m

  other_data :
      (k : Bytes)
      → starts_with (tx_data_prefix other) k ≡ true
      → starts_with (tx_data_prefix tx) k ≡ false
  unfolding tx_data_prefix
  other_data k h = other_tx b'x' other tx k its mine differ h

  write_batch_spared :
      (seq : ℕ) (raw_key record_bytes : Bytes) (new : Option Bytes)
      → starts_with (tx_data_prefix other) raw_key ≡ true
      → Spares d l tx (put_cf snapshots (journal other seq) record_bytes ∷ data_op raw_key new ∷ [])
        × Avoids snapshots
            (starts_with (snapshot_prefix tx))
            (put_cf snapshots (journal other seq) record_bytes ∷ data_op raw_key new ∷ [])
  unfolding journal journal_prefix snapshot_prefix data_op
  write_batch_spared seq raw_key r none h = (
    ((refl, (other_data raw_key h, tt)), (other_key b'j' other tx _ its mine differ, (refl, tt))),
    (other_kind _ _ b'm' b'j' refl, (refl, tt)),
  )
  write_batch_spared seq raw_key r (some v) h = (
    ((refl, (other_data raw_key h, tt)), (other_key b'j' other tx _ its mine differ, (refl, tt))),
    (other_kind _ _ b'm' b'j' refl, (refl, tt)),
  )

  pub Quiet-journaled_write :
      (raw_key : Bytes) (prior new : Option Bytes)
      → starts_with (tx_data_prefix other) raw_key ≡ true
      → Quiet (journaled_write d other raw_key prior new)
  unfolding journaled_write
  Quiet-journaled_write raw_key prior new h =
      Gives-bind d l tx _ _ (Gives-allocate d l tx other differ) (λ seq _.
        let entry : JournalEntry = record { raw_key = raw_key; prior = prior } in
        let (s, m) = write_batch_spared seq raw_key (encode entry) new h in
        Gives-write d l tx _ s m)

  pub Quiet-reads : {A : Type 0} (f : RocksStore Db → Result A) → Quiet (λ s. (f s, s))
  Quiet-reads f = Gives-reads d l tx f (λ s. trivial d l tx (f s))

  pub Quiet-pure : {A : Type 0} (a : A) → Quiet (λ s. (ok a, s))
  Quiet-pure a = Gives-pure d l tx a tt

  pub Quiet-bind :
      {A B : Type 0} (m : Method Db A) (f : A → Method Db B)
      → Quiet m
      → ((a : A) → Quiet (f a))
      → Quiet (m >>= f)
  Quiet-bind m f g k = Gives-bind d l tx m f g (λ a _. k a)

  pub Quiet-split_version :
      (value : Bytes) (key : Text)
      → Quiet (lift (split_versioned value key) >>= λ split. pure split.0)
  Quiet-split_version value key =
      Quiet-bind _ _ (Quiet-reads (λ s. split_versioned value key)) (λ v. Quiet-pure v.0)

  pub Quiet-committed_version : (key : Text) → Quiet (committed_version d key)
  unfolding committed_version get_cf
  Quiet-committed_version key =
      Quiet-bind _ _ (Quiet-reads (λ s. d.get_cf s.db default (global key))) (λ raw.
        elim raw
          as (λ o. Quiet {A = ℕ} (elim o [
            | none ↦ pure 0
            | some value ↦ lift (split_versioned value key) >>= λ split. pure split.0
          ])) [ none ↦ Quiet-pure 0 | some value ↦ Quiet-split_version value key ])

  Quiet-base_version : (key : Text) (prior : Option Bytes) → Quiet (base_version d key prior)
  unfolding base_version
  Quiet-base_version key none = Quiet-committed_version key
  Quiet-base_version key (some raw) =
      Quiet-bind _ _ (Quiet-reads (λ s. split_overlay raw key)) (λ o. Quiet-pure o.base_version)

  pub Quiet-write_overlay :
      (key : Text) (value : Option Bytes) → Quiet (write_overlay d other key value)
  unfolding write_overlay get_cf
  Quiet-write_overlay key value = Quiet-bind _ _ (Quiet-reads (λ s. validate_key key)) (λ _.
      Quiet-bind _ _ (Quiet-reads (λ s. d.get_cf s.db default (overlay other key))) (λ prior.
        Quiet-bind _ _ (Quiet-base_version key prior) (λ base.
          Quiet-journaled_write (overlay other key) prior (some (encode_overlay value base))
            (overlay-starts_with other key))))

  pub Quiet-put_output : (step : ℕ) (value : Bytes) → Quiet (put_output d other step value)
  unfolding put_output get_cf
  Quiet-put_output step value =
      Quiet-bind _ _ (Quiet-reads (λ s. d.get_cf s.db default (output other step))) (λ prior.
        Quiet-journaled_write (output other step) prior (some value)
          (output-starts_with other step))

  snapshot_of_other :
      (step : ℕ)
      → (starts_with (journal_prefix tx) (snapshot other step) ≡ false)
        × (starts_with (snapshot_prefix tx) (snapshot other step) ≡ false)
  unfolding journal_prefix snapshot snapshot_prefix
  snapshot_of_other step =
      (other_kind _ _ b'j' b'm' refl, other_key b'm' other tx _ its mine differ)

  pub Quiet-create_snapshot :
      (metas : Codec SnapshotMeta) (step now : ℕ) → Quiet (create_snapshot d metas other step now)
  unfolding create_snapshot
  Quiet-create_snapshot metas step now =
      Quiet-bind _ _ (Quiet-reads (λ s. validate_tx_id other)) (λ _.
        Quiet-bind _ _ (Gives-peek d l tx other differ) (λ seq.
          Quiet-bind _ _ (Quiet-reads _) (λ value.
            Quiet-bind _ _
              (Gives-write d l tx _ ((refl, tt), ((snapshot_of_other step).0, tt))
                ((snapshot_of_other step).1, tt))
              (λ _. Quiet-pure _))))
