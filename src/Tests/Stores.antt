-- ===== src/Tests/Stores.antt =====
-- Examples of the journal's format and the ranges of keys.
use agent_tx_protocol.Prelude.{ℕ, ◌≡◌, refl, ◌↔◌, true, false, some, List, [], ◌∷◌, arith, any}
use agent_tx_protocol.Errors.{ok}
use agent_tx_protocol.Storage.Journal.{JournalEntry, encode, decode, decode-encode}
use agent_tx_protocol.Storage.Keys.{prefix_end, key_lt, starts_with, prefix_end-bounds}

abbrev entry : JournalEntry
entry = record { raw_key = b'x' ∷ b'/' ∷ []; prior = some (b'h' ∷ b'i' ∷ []) }

decode-encode_example : decode (encode entry) ≡ ok entry
decode-encode_example = decode-encode entry (omega arith)

abbrev prefix : List ℕ
prefix = b'j' ∷ 255 ∷ []

abbrev key : List ℕ
key = b'j' ∷ 255 ∷ 3 ∷ []

prefix_end-bounds_example :
    (starts_with prefix key ≡ true)
    ↔ ((key_lt key prefix ≡ false) × (key_lt key (prefix_end prefix) ≡ true))
unfolding any
prefix_end-bounds_example =
    prefix_end-bounds prefix key (omega arith, (omega arith, tt))
      (omega arith, (omega arith, (omega arith, tt))) refl
