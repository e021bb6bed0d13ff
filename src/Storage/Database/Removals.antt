-- ===== src/Storage/Database/Removals.antt =====
-- Removing the keys of a scan: the selected keys are gone, the others stay.
use agent_tx_protocol.Prelude.{
  ◌≡◌, refl, sym, ap, ◌∙◌, inl, inr, Bool, true, false, list_eq, nat_eq, list_same_iff, none, List,
  [], ◌∷◌, get, get-remove, remove, retain, contains, if◌then◌else◌, arith, Bool-cases,
}
use agent_tx_protocol.Storage.Database.{Bytes, Entries}
use agent_tx_protocol.Storage.Database.Ordered.{on_key}
use agent_tx_protocol.Storage.Database.Batches.{keys, removing, get-retain}

get-absent : (m : Entries) (k : Bytes) → contains (keys m) k ≡ false → get m k ≡ none
unfolding get
get-absent [] k h = refl
get-absent (e ∷ m) k h = ground (arith, get-absent m k, list_same_iff k e.0, list_same_iff e.0 k)

get-removed :
    (ks : List Bytes) (m : Entries) (k : Bytes)
    → get (removing ks m) k ≡ (if contains ks k then none else get m k)
unfolding removing
get-removed [] m k = refl
get-removed (j ∷ ks) m k =
    get-removed ks (remove m j) k
    ∙ ground (arith, get-remove m j k, list_same_iff j k, list_same_iff k j)

contains-keys_with :
    (q : Bytes → Bool) (m : Entries) (k : Bytes)
    → q k ≡ false
    → contains (keys (retain (on_key q) m)) k ≡ false
unfolding retain
contains-keys_with q [] k h = refl
contains-keys_with q (e ∷ m) k h =
    ground (arith, contains-keys_with q m k h, ap q, list_same_iff e.0 k, list_same_iff k e.0)

-- A selected key is gone, if it was as when the keys were listed.
pub removing-gone :
    (q : Bytes → Bool) (m₀ m : Entries) (k : Bytes)
    → q k ≡ true
    → get m k ≡ get m₀ k
    → get (removing (keys (retain (on_key q) m₀)) m) k ≡ none
removing-gone q m₀ m k has same =
    let ks = keys (retain (on_key q) m₀) in
    get-removed ks m k ∙ elim (Bool-cases (contains ks k)) [
      | inl listed ↦ rw listed
      | inr absent ↦
          rw absent
            (same ∙ sym (get-retain q m₀ k has) ∙ get-absent (retain (on_key q) m₀) k absent)
    ]

-- The other keys stay.
pub removing-kept :
    (q : Bytes → Bool) (m₀ m : Entries) (k : Bytes)
    → q k ≡ false
    → get (removing (keys (retain (on_key q) m₀)) m) k ≡ get m k
removing-kept q m₀ m k lacks =
    get-removed (keys (retain (on_key q) m₀)) m k ∙ rw (contains-keys_with q m₀ k lacks)
