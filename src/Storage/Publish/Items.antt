-- ===== src/Storage/Publish/Items.antt =====
-- The loop of `commit` over the overlay.
use mathlib.Core.Path.{subst, ap₂}
use agent_tx_protocol.Prelude.{
  ℕ, ◌≡◌, refl, sym, ap, ◌∙◌, inl, inr, true, false, ◌==◌, list_eq, nat_eq, Option, none, some,
  List, [], ◌∷◌, ◌++◌, Text, get, get-remove, if◌then◌else◌, arith, Bool-cases, length, drop, All,
}
use agent_tx_protocol.Errors.{Result, ok, err}
use agent_tx_protocol.Storage.Keys.{key_lt, starts_with}
use agent_tx_protocol.Storage.Layout.{global, overlay, overlay_prefix, tx_data_prefix}
use agent_tx_protocol.Storage.Values.{
  split_overlay, split_versioned, Overlay, tag_value, encode_versioned,
}
use agent_tx_protocol.Storage.Database.{
  Bytes, Entries, BatchOp, default, snapshots, apply_op, apply_batch, IsOrdered,
}
use agent_tx_protocol.Storage.Database.Ordered.{get-put_entry, key_lt_irrefl, same_key}
use agent_tx_protocol.Storage.Layout.Numbers.{same_start}
use agent_tx_protocol.Storage.Rocks.Commit.{publish_op}

-- The version of a committed value; 0 stands for none.
abbrev pub version_in : Option Bytes → Text → Result ℕ
version_in none key = ok 0
version_in (some raw) key = elim (split_versioned raw key) [ ok v ↦ ok v.0 | err e ↦ err e ]

-- the version that a read gives
abbrev pub version_of : Result (ℕ × Bytes) → Result ℕ
version_of (ok v) = ok v.0
version_of (err e) = err e

-- `ops` publishes the overlay's entries, each of which was based on the version that is committed.
pub data Publishes (committed : Entries) (version n : ℕ) : Entries → List BatchOp → Type 0 where
  none_left : Publishes committed version n [] []
  publish :
      (raw value key : Bytes) (o : Overlay) {rest : Entries} {ops : List BatchOp}
      → key ≡ drop n raw
      → split_overlay value key ≡ ok o
      → version_in (get committed (global key)) key ≡ ok o.base_version
      → Publishes committed version n rest ops
      → Publishes committed version n ((raw, value) ∷ rest) (publish_op version key o ∷ ops)

-- The committed value that an entry of the overlay leaves.
abbrev pub published_value : ℕ → Overlay → Option Bytes
published_value version o =
    if o.tag == tag_value then some (encode_versioned version o.payload) else none

same_global : (a b : Text) → (global a == global b) ≡ (a == b)
unfolding global
same_global a b = ground arith

get-publish_op :
    (version : ℕ) (key k : Text) (o : Overlay) (m : Entries)
    → get (apply_op default (publish_op version key o) m) (global k)
      ≡ (if key == k then published_value version o else get m (global k))
unfolding apply_op publish_op
get-publish_op version key k o m = elim (Bool-cases (o.tag == tag_value)) [
  | inl value ↦ rw value (
      get-put_entry m (global key) (global k) (encode_versioned version o.payload)
      ∙ ap (λ b. if b then some (encode_versioned version o.payload) else get m (global k))
          (same_global key k))
  | inr tombstone ↦ rw tombstone (
      get-remove m (global key) (global k)
      ∙ ap (λ b. if b then none else get m (global k)) (same_global key k))
]

same-overlay : (tx a b : Text) → (overlay tx a == overlay tx b) ≡ (a == b)
unfolding overlay
same-overlay tx a b = same_start (overlay_prefix tx) a b

pub starts_with-drop : (p k : Bytes) → starts_with p k ≡ true → k ≡ p ++ drop (length p) k
unfolding starts_with
starts_with-drop [] k h = refl
starts_with-drop (x ∷ p) [] h = cc
starts_with-drop (x ∷ p) (y ∷ k) h = ground (arith, starts_with-drop p k)

-- a key that lies before all keys of a list is not in it
get-above : (k : Bytes) (m : Entries) → All (λ e. key_lt k e.0 ≡ true) m → get m k ≡ none
unfolding get
get-above k [] h = refl
get-above k (e ∷ m) h =
    ground (arith, get-above k m h.1, key_lt_irrefl k, same_key e.0 k, ap (λ j. key_lt k j))

-- the published value of a key, by the overlay's entry for it
abbrev pub AfterPublish : ℕ → Text → Option Bytes → Option Bytes → Option Bytes → Type 0
AfterPublish version key none before now = now ≡ before
AfterPublish version key (some raw) before now =
    (o : Overlay) × (split_overlay raw key ≡ ok o) × (now ≡ published_value version o)

-- the key of an entry of the overlay
entry_key :
    (tx : Text) (raw k : Bytes)
    → starts_with (overlay_prefix tx) raw ≡ true
    → k ≡ drop (length (overlay_prefix tx)) raw
    → raw ≡ overlay tx k
unfolding overlay
entry_key tx raw k h cut =
    starts_with-drop (overlay_prefix tx) raw h ∙ ap (λ j. overlay_prefix tx ++ j) (sym cut)

module _ (tx : Text) (version : ℕ) (committed : Entries) where
  pub Publishes-get :
      (items : Entries) (ops : List BatchOp) (m : Entries) (key : Text)
      → Publishes committed version (length (overlay_prefix tx)) items ops
      → All (λ e. starts_with (overlay_prefix tx) e.0 ≡ true) items
      → IsOrdered items
      → AfterPublish version key
          (get items (overlay tx key))
          (get m (global key))
          (get (apply_batch default ops m) (global key))
  unfolding get apply_batch
  Publishes-get items ops m key none_left within ordered = refl
  Publishes-get items ops m key (publish raw value k o {rest} {ops = ops'} cut split same more)
        within ordered =
      let m' = apply_op default (publish_op version k o) m in
      let is = entry_key tx raw k within.0 cut in
      let now = get (apply_batch default ops' m') (global key) in
      let written = get-publish_op version k key o m in
      let later = Publishes-get rest ops' m' key more within.1 ordered.1 in
      let same_keys : (raw == overlay tx key) ≡ (k == key) =
        ap (λ j. j == overlay tx key) is ∙ same-overlay tx k key in
      elim (Bool-cases (raw == overlay tx key)) [
        | inl this ↦
            let mine : (k == key) ≡ true = sym same_keys ∙ this in
            let gone : get rest (overlay tx key) ≡ none =
              subst (λ j. get rest j ≡ none) (same_key raw (overlay tx key) this)
                (get-above raw rest ordered.0) in
            rw this (
              (
                o,
                ap (split_overlay value) (sym (same_key k key mine)) ∙ split,
                subst (λ f. AfterPublish version key f (get m' (global key)) now) gone later
                    ∙ written
                    ∙ ap (λ b. if b then published_value version o else get m (global key)) mine,
              ))
        | inr that ↦
            let other : (k == key) ≡ false = sym same_keys ∙ that in
            rw that (
              subst (λ b. AfterPublish version key (get rest (overlay tx key)) b now)
                (written
                  ∙ ap (λ b. if b then published_value version o else get m (global key)) other)
                later)
      ]

  -- and that it was based on the committed version
  pub Publishes-version :
      (items : Entries) (ops : List BatchOp) (key raw : Bytes)
      → Publishes committed version (length (overlay_prefix tx)) items ops
      → All (λ e. starts_with (overlay_prefix tx) e.0 ≡ true) items
      → get items (overlay tx key) ≡ some raw
      → (o : Overlay) × (split_overlay raw key ≡ ok o)
        × (version_in (get committed (global key)) key ≡ ok o.base_version)
  unfolding get
  Publishes-version items ops key raw none_left within found = cc
  Publishes-version items ops key raw (publish r value k o {rest} {ops = ops'} cut split same more)
        within found =
      elim (Bool-cases (r == overlay tx key)) [
        | inl this ↦
            let is = entry_key tx r k within.0 cut in
            let mine : k ≡ key =
              same_key k key
                (sym (ap (λ j. j == overlay tx key) is ∙ same-overlay tx k key) ∙ this) in
            let value_is : value ≡ raw = ground arith in
            (
              o,
              ap₂ split_overlay (sym value_is) (sym mine) ∙ split,
              ap (λ j. version_in (get committed (global j)) j) (sym mine) ∙ same,
            )
        | inr that ↦ Publishes-version rest ops' key raw more within.1 (rw that at found)
      ]

-- Publishing changes no value of a transaction, and nothing in the other column families.
publish_op-other :
    (version : ℕ) (key k : Bytes) (o : Overlay) (m : Entries)
    → (global key == k) ≡ false
    → get (apply_op default (publish_op version key o) m) k ≡ get m k
unfolding apply_op publish_op
publish_op-other version key k o m h = elim (Bool-cases (o.tag == tag_value)) [
  | inl value ↦ rw value (
      get-put_entry m (global key) k (encode_versioned version o.payload)
      ∙ ap (λ b. if b then some (encode_versioned version o.payload) else get m k) h)
  | inr tombstone ↦
      rw tombstone (get-remove m (global key) k ∙ ap (λ b. if b then none else get m k) h)
]

not_global :
    (tx key k : Text) → starts_with (tx_data_prefix tx) k ≡ true → (global key == k) ≡ false
unfolding starts_with tx_data_prefix global
not_global tx key [] h = cc
not_global tx key (c ∷ k) h = ground arith

publish_op-snapshots :
    (version : ℕ) (key : Bytes) (o : Overlay) (m : Entries)
    → apply_op snapshots (publish_op version key o) m ≡ m
unfolding apply_op publish_op
publish_op-snapshots version key o m = elim (Bool-cases (o.tag == tag_value)) [
  | inl value ↦ rw value refl
  | inr tombstone ↦ rw tombstone refl
]

module _ {committed : Entries} {version n : ℕ} where
  pub Publishes-own :
      (tx : Text) {items : Entries} {ops : List BatchOp} (m : Entries) (k : Bytes)
      → Publishes committed version n items ops
      → starts_with (tx_data_prefix tx) k ≡ true
      → get (apply_batch default ops m) k ≡ get m k
  unfolding apply_batch
  Publishes-own tx m k none_left h = refl
  Publishes-own tx m k (publish raw value key o {rest} {ops = ops'} cut split same more) h =
      Publishes-own tx (apply_op default (publish_op version key o) m) k more h
      ∙ publish_op-other version key k o m (not_global tx key k h)

  pub Publishes-snapshots :
      {items : Entries} {ops : List BatchOp} (m : Entries)
      → Publishes committed version n items ops
      → apply_batch snapshots ops m ≡ m
  unfolding apply_batch
  Publishes-snapshots m none_left = refl
  Publishes-snapshots m (publish raw value key o {rest} {ops = ops'} cut split same more) =
      Publishes-snapshots (apply_op snapshots (publish_op version key o) m) more
      ∙ publish_op-snapshots version key o m
