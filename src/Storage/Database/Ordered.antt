-- ===== src/Storage/Database/Ordered.antt =====
-- The order of keys, and reads and scans of an ordered map after a write.
use agent_tx_protocol.Prelude.{
  ◌≡◌, refl, ap, Bool, true, false, not, ◌&&◌, ◌==◌, list_eq, nat_eq, some, [], ◌∷◌, ◌++◌, get,
  remove, retain, All, if◌then◌else◌, arith, Bool-cases, inl, inr, list_same_iff,
}
use agent_tx_protocol.Storage.Keys.{key_lt}
use agent_tx_protocol.Storage.Database.{Bytes, Entry, Entries, put_entry, IsOrdered}

pub key_lt_irrefl : (k : Bytes) → key_lt k k ≡ false
unfolding key_lt
key_lt_irrefl [] = refl
key_lt_irrefl (x ∷ k) = ground (arith, key_lt_irrefl k)

pub key_lt_trans : (a b c : Bytes) → key_lt a b ≡ true → key_lt b c ≡ true → key_lt a c ≡ true
unfolding key_lt
key_lt_trans a b [] h k = ground arith
key_lt_trans a [] (z ∷ c) h k = ground arith
key_lt_trans [] (y ∷ b) (z ∷ c) h k = refl
key_lt_trans (x ∷ a) (y ∷ b) (z ∷ c) h k = ground (arith, key_lt_trans a b c)

pub key_lt-asym : (a b : Bytes) → key_lt a b ≡ true → key_lt b a ≡ false
unfolding key_lt
key_lt-asym a [] h = ground arith
key_lt-asym [] (y ∷ b) h = refl
key_lt-asym (x ∷ a) (y ∷ b) h = ground (arith, key_lt-asym a b)

-- of two different keys one comes first
pub key_lt-total : (a b : Bytes) → (a == b) ≡ false → key_lt a b ≡ false → key_lt b a ≡ true
unfolding key_lt
key_lt-total [] [] h k = cc
key_lt-total (x ∷ a) [] h k = refl
key_lt-total [] (y ∷ b) h k = cc
key_lt-total (x ∷ a) (y ∷ b) h k = ground (arith, key_lt-total a b)

pub same_key : (a b : Bytes) → (a == b) ≡ true → a ≡ b
same_key a b h = (list_same_iff a b).0 h

pub key_same : (a : Bytes) → (a == a) ≡ true
key_same a = (list_same_iff a a).1 refl

pub get-put_entry :
    (m : Entries) (k j : Bytes) (v : Bytes)
    → get (put_entry m k v) j ≡ (if k == j then some v else get m j)
unfolding get put_entry
get-put_entry [] k j v = refl
get-put_entry ((i, w) ∷ m) k j v =
    ground (arith, list_same_iff k j, list_same_iff i k, list_same_iff i j, get-put_entry m k j v)

pub above_trans :
    (m : Entries) (k j : Bytes)
    → key_lt k j ≡ true
    → All (λ e. key_lt j e.0 ≡ true) m
    → All (λ e. key_lt k e.0 ≡ true) m
above_trans [] k j h a = tt
above_trans (e ∷ m) k j h a = (key_lt_trans k j e.0 h a.0, above_trans m k j h a.1)

-- a scan selects entries by their keys
abbrev pub on_key : (Bytes → Bool) → Entry → Bool
on_key q e = q e.0

abbrev pub is_within : Bytes → Bytes → Bytes → Bool
is_within lower upper k = not (key_lt k lower) && key_lt k upper

module _ (q : Bytes → Bool) where
  pub retain-put_entry_other :
      (m : Entries) (k v : Bytes)
      → q k ≡ false
      → retain (on_key q) (put_entry m k v) ≡ retain (on_key q) m
  unfolding retain put_entry
  retain-put_entry_other [] k v h = ground arith
  retain-put_entry_other ((j, w) ∷ m) k v h =
      ground (arith, retain-put_entry_other m k v h, ap q, list_same_iff j k)

  pub retain-remove_other :
      (m : Entries) (k : Bytes) → q k ≡ false → retain (on_key q) (remove m k) ≡ retain (on_key q) m
  unfolding retain remove
  retain-remove_other [] k h = refl
  retain-remove_other ((j, w) ∷ m) k h =
      ground (arith, retain-remove_other m k h, ap q, list_same_iff j k)

  -- nothing is selected above a key that all selected keys lie below
  retain-nil :
      (m : Entries) (k : Bytes)
      → All (λ e. key_lt k e.0 ≡ true) m
      → All (λ e. key_lt e.0 k ≡ true) (retain (on_key q) m)
      → retain (on_key q) m ≡ []
  unfolding retain
  retain-nil [] k above below = refl
  retain-nil (e ∷ m) k above below =
      ground (arith, retain-nil m k above.1, key_lt-asym k e.0 above.0)

  -- An entry with a new last key stands at the end of the scan.
  pub retain-put_entry_last :
      (m : Entries) (k v : Bytes)
      → IsOrdered m
      → q k ≡ true
      → All (λ e. key_lt e.0 k ≡ true) (retain (on_key q) m)
      → retain (on_key q) (put_entry m k v) ≡ retain (on_key q) m ++ (k, v) ∷ []
  unfolding retain put_entry
  retain-put_entry_last [] k v o h below = ground arith
  retain-put_entry_last ((j, w) ∷ m) k v o h below = elim (Bool-cases (j == k)) [
    | inl eq ↦ ground (
      arith,
      eq,
      same_key j k eq,
      ap q (same_key j k eq),
      key_lt_irrefl k,
      ap (λ i. key_lt i k) (same_key j k eq),
    )
    | inr ne ↦ elim (Bool-cases (key_lt k j)) [
      | inl first ↦
          ground
            (arith, ne, first, key_lt-asym k j first, retain-nil m k (above_trans m k j first o.0))
      | inr later ↦ ground (arith, ne, later, retain-put_entry_last m k v o.1 h)
    ]
  ]

  -- removing an entry removes it from the scan
  pub retain-remove :
      (m : Entries) (k : Bytes) → retain (on_key q) (remove m k) ≡ remove (retain (on_key q) m) k
  unfolding retain remove
  retain-remove [] k = refl
  retain-remove ((j, w) ∷ m) k = ground (arith, retain-remove m k)

  -- what is selected has a selected key
  pub All-on_key : (m : Entries) → All (λ e. q e.0 ≡ true) (retain (on_key q) m)
  unfolding retain
  All-on_key [] = tt
  All-on_key (e ∷ m) = ground (arith, All-on_key m)

-- a scan within a scan
pub retain-retain :
    (q r : Bytes → Bool) (m : Entries)
    → ((k : Bytes) → q k ≡ true → r k ≡ true)
    → retain (on_key q) (retain (on_key r) m) ≡ retain (on_key q) m
unfolding retain
retain-retain q r [] h = refl
retain-retain q r (e ∷ m) h = ground (arith, retain-retain q r m h, h e.0)
