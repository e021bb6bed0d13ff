-- ===== src/Storage/Layout/Prefixes.antt =====
-- The ranges that the store scans, and that those of two transactions have no key in common.
use mathlib.Core.List.{reverse, reverse-reverse, reverse-append}
use agent_tx_protocol.Prelude.{
  ℕ, ◌≡◌, refl, ◌∙◌, ◌≢◌, true, false, ◌==◌, nat_eq, [], ◌∷◌, ◌++◌, Text, All, all, arith,
}
use agent_tx_protocol.Storage.Database.{Bytes}
use agent_tx_protocol.Storage.Database.Ordered.{is_within}
use agent_tx_protocol.Errors.{ok}
use agent_tx_protocol.Storage.Values.{validate_tx_id, id_byte}
use agent_tx_protocol.Storage.Keys.{key_lt, starts_with, pop_loop, prefix_end}
use agent_tx_protocol.Storage.Layout.{tx_prefix}

-- the end of a range whose prefix ends in a slash, as all of them do
pub prefix_end-slash : (p : Bytes) → prefix_end (p ++ b'/' ∷ []) ≡ p ++ b'0' ∷ []
unfolding prefix_end pop_loop
prefix_end-slash p =
    rw (reverse-append p (b'/' ∷ []))
      (reverse-append (b'0' ∷ []) (reverse p) ∙ rw (reverse-reverse p))

pub starts_with-append : (p x : Bytes) → starts_with p (p ++ x) ≡ true
unfolding starts_with
starts_with-append [] x = refl
starts_with-append (b ∷ p) x = ground (arith, starts_with-append p x)

-- For a prefix that ends in a slash the scan gives exactly the keys with the prefix.
is_within-slash :
    (p k : Bytes) → is_within (p ++ b'/' ∷ []) (p ++ b'0' ∷ []) k ≡ starts_with (p ++ b'/' ∷ []) k
unfolding key_lt starts_with
is_within-slash [] [] = refl
is_within-slash [] (c ∷ []) = ground arith
is_within-slash [] (c ∷ d ∷ k) = ground arith
is_within-slash (b ∷ p) [] = ground arith
is_within-slash (b ∷ p) (c ∷ k) = ground (arith, is_within-slash p k)

pub is_within-prefix :
    (p k : Bytes)
    → is_within (p ++ b'/' ∷ []) (prefix_end (p ++ b'/' ∷ [])) k ≡ starts_with (p ++ b'/' ∷ []) k
is_within-prefix p k = rw (prefix_end-slash p) (is_within-slash p k)

-- a slash in no transaction id
abbrev pub HasNoSlash : Text → Type 0
HasNoSlash tx = All (λ b. (b == b'/') ≡ false) tx

-- No key starts with the prefixes of two transactions.
same_tx :
    (a b k : Text)
    → HasNoSlash a
    → HasNoSlash b
    → starts_with (a ++ b'/' ∷ []) k ≡ true
    → starts_with (b ++ b'/' ∷ []) k ≡ true
    → a ≡ b
unfolding starts_with
same_tx [] [] k ha hb sa sb = refl
same_tx [] (y ∷ b) [] ha hb sa sb = cc
same_tx [] (y ∷ b) (c ∷ k) ha hb sa sb = ground arith
same_tx (x ∷ a) [] [] ha hb sa sb = cc
same_tx (x ∷ a) [] (c ∷ k) ha hb sa sb = ground arith
same_tx (x ∷ a) (y ∷ b) [] ha hb sa sb = cc
same_tx (x ∷ a) (y ∷ b) (c ∷ k) ha hb sa sb = ground (arith, same_tx a b k ha.1 hb.1)

pub other_tx :
    (kind : ℕ) (a b k : Text)
    → HasNoSlash a
    → HasNoSlash b
    → a ≢ b
    → starts_with (tx_prefix kind a) k ≡ true
    → starts_with (tx_prefix kind b) k ≡ false
unfolding starts_with
other_tx kind a b [] ha hb ne h = ground arith
other_tx kind a b (c ∷ []) ha hb ne h = ground arith
other_tx kind a b (c ∷ d ∷ k) ha hb ne h = ground (arith, same_tx a b k ha hb)

-- what lies before a prefix lies before all keys with it
key_lt-append : (k p x : Bytes) → key_lt k p ≡ true → key_lt k (p ++ x) ≡ true
unfolding key_lt
key_lt-append k [] x h = ground arith
key_lt-append [] (b ∷ p) x h = refl
key_lt-append (c ∷ k) (b ∷ p) x h = ground (arith, key_lt-append k p x)

-- A range from a key with a prefix on lies in the range of the prefix.
pub is_within-narrow :
    (p x upper k : Bytes) → is_within (p ++ x) upper k ≡ true → is_within p upper k ≡ true
is_within-narrow p x upper k h = ground (arith, key_lt-append k p x)

-- a key with the prefix of one transaction has not that of another
pub other_key :
    (kind : ℕ) (a b x : Text)
    → HasNoSlash a
    → HasNoSlash b
    → a ≢ b
    → starts_with (tx_prefix kind b) (tx_prefix kind a ++ x) ≡ false
other_key kind a b x ha hb ne =
    other_tx kind a b (tx_prefix kind a ++ x) ha hb ne (starts_with-append (tx_prefix kind a) x)

-- nor has a key of one kind the prefix of another kind
pub other_kind : (p r : Bytes) (x y : ℕ) → (x == y) ≡ false → starts_with (x ∷ p) (y ∷ r) ≡ false
unfolding starts_with
other_kind p r x y h = rw h

-- The identifiers that the store accepts have no slash.
id_bytes : (tx : Text) → all id_byte tx ≡ true → HasNoSlash tx
unfolding all
id_bytes [] h = tt
id_bytes (b ∷ tx) h = (ground arith, id_bytes tx (ground arith))

pub validate_tx_id-HasNoSlash : (tx : Text) → validate_tx_id tx ≡ ok tt → HasNoSlash tx
unfolding validate_tx_id
validate_tx_id-HasNoSlash tx h = id_bytes tx (ground arith)
