-- ===== src/Storage/Database/Batches.antt =====
-- What a batch leaves alone, and what a list of deletes removes.
use mathlib.Core.List.{reverse, reverse-cons}
use agent_tx_protocol.Prelude.{
  ◌≡◌, refl, sym, ap, ◌∙◌, Bool, true, false, not, ◌&&◌, ◌||◌, ◌==◌, list_eq, nat_eq, List, [], ◌∷◌,
  ◌++◌, get, remove, retain, contains, All, arith, Bool-cases, inl, inr, list_same_iff,
}
use agent_tx_protocol.Storage.Database.{
  Bytes, Entries, BatchOp, put_cf, delete_cf, ColumnFamily, same_family, apply_op, apply_batch,
  IsOrdered,
}
use agent_tx_protocol.Storage.Keys.{key_lt}
use agent_tx_protocol.Storage.Database.Ordered.{
  on_key, retain-put_entry_other, retain-remove_other, same_key, key_same, key_lt_trans,
}

abbrev pub touches : ColumnFamily → (Bytes → Bool) → BatchOp → Bool
touches c q (put_cf d k v) = same_family d c && q k
touches c q (delete_cf d k) = same_family d c && q k

-- No operation of the batch has a selected key of the family.
abbrev pub Avoids : ColumnFamily → (Bytes → Bool) → List BatchOp → Type 0
Avoids c q ops = All (λ op. touches c q op ≡ false) ops

module _ (c : ColumnFamily) (q : Bytes → Bool) where
  retain-apply_op :
      (op : BatchOp) (m : Entries)
      → touches c q op ≡ false
      → retain (on_key q) (apply_op c op m) ≡ retain (on_key q) m
  unfolding apply_op
  retain-apply_op (put_cf d k v) m h = elim (Bool-cases (same_family d c)) [
    | inl s ↦ rw s (retain-put_entry_other q m k v (rw s at h))
    | inr o ↦ rw o
  ]
  retain-apply_op (delete_cf d k) m h = elim (Bool-cases (same_family d c)) [
    | inl s ↦ rw s (retain-remove_other q m k (rw s at h))
    | inr o ↦ rw o
  ]

  pub retain-apply_batch :
      (ops : List BatchOp) (m : Entries)
      → Avoids c q ops
      → retain (on_key q) (apply_batch c ops m) ≡ retain (on_key q) m
  unfolding apply_batch
  retain-apply_batch [] m h = refl
  retain-apply_batch (op ∷ ops) m h =
      retain-apply_batch ops (apply_op c op m) h.1 ∙ retain-apply_op op m h.0

pub apply_batch-append :
    (c : ColumnFamily) (xs ys : List BatchOp) (m : Entries)
    → apply_batch c (xs ++ ys) m ≡ apply_batch c ys (apply_batch c xs m)
unfolding apply_batch
apply_batch-append c [] ys m = refl
apply_batch-append c (x ∷ xs) ys m = apply_batch-append c xs ys (apply_op c x m)

-- a selected key is read in the selection
pub get-retain :
    (q : Bytes → Bool) (m : Entries) (k : Bytes)
    → q k ≡ true
    → get (retain (on_key q) m) k ≡ get m k
unfolding get retain
get-retain q [] k h = refl
get-retain q ((j, v) ∷ m) k h = ground (arith, get-retain q m k h, ap q, list_same_iff j k)

abbrev pub keys : Entries → List Bytes
keys [] = []
keys (e ∷ m) = e.0 ∷ keys m

abbrev pub deletes : ColumnFamily → List Bytes → List BatchOp
deletes c [] = []
deletes c (k ∷ ks) = delete_cf c k ∷ deletes c ks

unfoldable pub removing : List Bytes → Entries → Entries
removing [] m = m
removing (k ∷ ks) m = removing ks (remove m k)

remove-retain : (m : Entries) (k : Bytes) → remove m k ≡ retain (on_key (λ j. not (j == k))) m
unfolding remove retain
remove-retain [] k = refl
remove-retain ((j, v) ∷ m) k = ground (arith, remove-retain m k)

pub retain-both :
    (p q : Bytes → Bool) (m : Entries)
    → retain (on_key p) (retain (on_key q) m) ≡ retain (on_key (λ k. p k && q k)) m
unfolding retain
retain-both p q [] = refl
retain-both p q (e ∷ m) = ground (arith, retain-both p q m)

pub retain-agree :
    (p q : Bytes → Bool) (m : Entries)
    → All (λ e. p e.0 ≡ q e.0) m
    → retain (on_key p) m ≡ retain (on_key q) m
unfolding retain
retain-agree p q [] h = refl
retain-agree p q (e ∷ m) h = ground (arith, retain-agree p q m h.1, h.0)

pub agree :
    (p q : Bytes → Bool) (m : Entries) → ((k : Bytes) → p k ≡ q k) → All (λ e. p e.0 ≡ q e.0) m
agree p q [] h = tt
agree p q (e ∷ m) h = (h e.0, agree p q m h)

retain-all : (m : Entries) → retain (on_key (λ j. true)) m ≡ m
unfolding retain
retain-all [] = refl
retain-all (e ∷ m) = ap (λ r. e ∷ r) (retain-all m)

removing-retain :
    (ks : List Bytes) (m : Entries) → removing ks m ≡ retain (on_key (λ j. not (contains ks j))) m
unfolding removing
removing-retain [] m = sym (retain-all m)
removing-retain (k ∷ ks) m =
    removing-retain ks (remove m k)
    ∙ rw (remove-retain m k) (
        retain-both (λ j. not (contains ks j)) (λ j. not (j == k)) m
        ∙ retain-agree _ _ m
            (agree _ _ m (λ j. ground (arith, list_same_iff j k, list_same_iff k j))))

agree_removed :
    (ks : List Bytes) (p q : Bytes → Bool) (m : Entries)
    → ((k : Bytes) → contains ks k ≡ true → q k ≡ true)
    → All (λ e. q e.0 ≡ true → contains ks e.0 ≡ true) m
    → All (λ e. (p e.0 && not (contains ks e.0)) ≡ (p e.0 && not (q e.0))) m
agree_removed ks p q [] only each = tt
agree_removed ks p q (e ∷ m) only each =
    (ground (arith, only e.0, each.0), agree_removed ks p q m only each.1)

-- Removing exactly the keys of a scan leaves what the scan did not select.
pub retain-removing :
    (ks : List Bytes) (p q : Bytes → Bool) (m : Entries)
    → ((k : Bytes) → contains ks k ≡ true → q k ≡ true)
    → All (λ e. q e.0 ≡ true → contains ks e.0 ≡ true) m
    → retain (on_key p) (removing ks m) ≡ retain (on_key (λ k. p k && not (q k))) m
retain-removing ks p q m only each =
    ap (retain (on_key p)) (removing-retain ks m)
    ∙ retain-both p (λ j. not (contains ks j)) m
    ∙ retain-agree _ _ m (agree_removed ks p q m only each)

contains-append :
    (xs ys : List Bytes) (k : Bytes) → contains (xs ++ ys) k ≡ (contains xs k || contains ys k)
contains-append [] ys k = refl
contains-append (x ∷ xs) ys k = ground (arith, contains-append xs ys k)

keys-append : (xs ys : Entries) → keys (xs ++ ys) ≡ keys xs ++ keys ys
keys-append [] ys = refl
keys-append (x ∷ xs) ys = ap (λ r. x.0 ∷ r) (keys-append xs ys)

contains-keys-reverse :
    (m : Entries) (k : Bytes) → contains (keys (reverse m)) k ≡ contains (keys m) k
contains-keys-reverse [] k = refl
contains-keys-reverse (e ∷ m) k =
    ap (λ r. contains (keys r) k) (reverse-cons e m)
    ∙ ap (λ r. contains r k) (keys-append (reverse m) (e ∷ []))
    ∙ contains-append (keys (reverse m)) (e.0 ∷ []) k
    ∙ ground (arith, contains-keys-reverse m k)

scanned :
    (q : Bytes → Bool) (m : Entries) (k : Bytes)
    → contains (keys (retain (on_key q) m)) k ≡ true
    → q k ≡ true
unfolding retain
scanned q [] k h = cc
scanned q (e ∷ m) k h = ground (arith, scanned q m k, same_key e.0 k, ap q)

all_scanned :
    (q : Bytes → Bool) (m : Entries) (ks : List Bytes)
    → ((k : Bytes) → contains (keys (retain (on_key q) m)) k ≡ true → contains ks k ≡ true)
    → All (λ e. q e.0 ≡ true → contains ks e.0 ≡ true) m
unfolding retain
all_scanned q [] ks h = tt
all_scanned q (e ∷ m) ks h =
    (λ qe. ground (arith, qe, h e.0, key_same e.0), all_scanned q m ks (λ k c. ground (arith, h k)))

-- the keys of a scan from the start, and of one from the end
pub retain-removing_scan :
    (p q : Bytes → Bool) (m : Entries)
    → retain (on_key p) (removing (keys (retain (on_key q) m)) m)
      ≡ retain (on_key (λ k. p k && not (q k))) m
retain-removing_scan p q m =
    retain-removing (keys (retain (on_key q) m)) p q m (scanned q m) (all_scanned q m _ (λ k h. h))

pub retain-removing-reverse :
    (p q : Bytes → Bool) (m : Entries)
    → retain (on_key p) (removing (keys (reverse (retain (on_key q) m))) m)
      ≡ retain (on_key (λ k. p k && not (q k))) m
retain-removing-reverse p q m =
    let l = retain (on_key q) m in
    retain-removing (keys (reverse l)) p q m
      (λ k h. scanned q m k (sym (contains-keys-reverse l k) ∙ h))
      (all_scanned q m _ (λ k h. contains-keys-reverse l k ∙ h))

none_below :
    (p : Bytes → Bool) (k e : Bytes) (m : Entries)
    → key_lt e k ≡ false
    → All (λ f. key_lt e f.0 ≡ true) m
    → retain (on_key (λ j. p j && key_lt j k)) m ≡ []
unfolding retain
none_below p k e [] h a = refl
none_below p k e (f ∷ m) h a = ground (arith, none_below p k e m h a.1, key_lt_trans e f.0 k a.0)

-- A scan from a key on is the part before another key and the part from that key on.
pub retain-split :
    (p : Bytes → Bool) (k : Bytes) (m : Entries)
    → IsOrdered m
    → retain (on_key p) m
      ≡ retain (on_key (λ j. p j && key_lt j k)) m
        ++ retain (on_key (λ j. p j && not (key_lt j k))) m
unfolding retain
retain-split p k [] o = refl
retain-split p k (e ∷ m) o = elim (Bool-cases (key_lt e.0 k)) [
  | inl below ↦ ground (arith, below, retain-split p k m o.1)
  | inr above ↦ ground (arith, above, retain-split p k m o.1, none_below p k e.0 m above o.0)
]
