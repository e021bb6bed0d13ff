-- ===== src/Storage/Journal.antt =====
-- `JournalEntry` of storage/snapshot.rs: its binary format.
use agent_tx_protocol.Prelude.{
  ℕ, zero, suc, ◌+◌, ◌*◌, ◌/◌, ◌%◌, ◌<◌, ◌≡◌, refl, ap, false, Option, none, some, List, [], ◌∷◌,
  ◌++◌, Text, bytes, ltb, if◌then◌else◌, length, length-append, take, drop, u32_mod, nat_eq, arith,
}
use agent_tx_protocol.Errors.{AgentTxError, corrupt, Result, ok, err}

pub record JournalEntry : Type 0 where
  pub raw_key : List ℕ
  pub prior : Option (List ℕ)

-- u32::to_le_bytes, u32::from_le_bytes
abbrev pub to_le_bytes : ℕ → List ℕ
to_le_bytes n = n % 256 ∷ n / 256 % 256 ∷ n / 65536 % 256 ∷ n / 16777216 % 256 ∷ []

abbrev pub from_le_bytes : ℕ → ℕ → ℕ → ℕ → ℕ
from_le_bytes a b c d = a + 256 * b + 65536 * c + 16777216 * d

from_le_bytes-to_le_bytes :
    (n : ℕ)
    → n < u32_mod
    → from_le_bytes (n % 256) (n / 256 % 256) (n / 65536 % 256) (n / 16777216 % 256) ≡ n
from_le_bytes-to_le_bytes n h = omega arith

-- The part after the key: the tag and the prior value.
abbrev pub tagged : Option (List ℕ) → List ℕ
tagged (some prior) = 1 ∷ prior
tagged none = 0 ∷ []

-- JournalEntry::encode: `raw_key.len() as u32` wraps around
unfoldable pub encode : JournalEntry → List ℕ
encode e = to_le_bytes (length e.raw_key % u32_mod) ++ (e.raw_key ++ tagged e.prior)

abbrev corrupted : Text → AgentTxError
corrupted reason = corrupt (bytes "journal entry") reason

-- The `match *tag` of `decode`.
unfoldable pub prior_of : ℕ → List ℕ → Result (Option (List ℕ))
prior_of zero [] = ok none
prior_of zero (_ ∷ _) = err (corrupted (bytes "absent tag with trailing bytes"))
prior_of (suc zero) body = ok (some body)
prior_of (suc (suc _)) body = err (corrupted (bytes "unknown tag"))

abbrev with_key : List ℕ → Result (Option (List ℕ)) → Result JournalEntry
with_key key (ok prior) = ok (record { raw_key = key; prior = prior })
with_key key (err e) = err e

unfoldable pub decode_tag : List ℕ → List ℕ → Result JournalEntry
unfolding prior_of
decode_tag key [] = err (corrupted (bytes "missing tag"))
decode_tag key (tag ∷ body) = with_key key (prior_of tag body)

unfoldable pub decode_key : ℕ → List ℕ → Result JournalEntry
unfolding decode_tag
decode_key key_len rest =
    if ltb (length rest) (key_len + 1)
    then err (corrupted (bytes "truncated key"))
    else decode_tag (take key_len rest) (drop key_len rest)

-- JournalEntry::decode
unfoldable pub decode : List ℕ → Result JournalEntry
unfolding decode_key
decode (a ∷ b ∷ c ∷ d ∷ rest) = decode_key (from_le_bytes a b c d) rest
decode _ = err (corrupted (bytes "truncated length header"))

take-append : (xs ys : List ℕ) → take (length xs) (xs ++ ys) ≡ xs
take-append [] ys = refl
take-append (x ∷ xs) ys = ap (λ zs. x ∷ zs) (take-append xs ys)

drop-append : (xs ys : List ℕ) → drop (length xs) (xs ++ ys) ≡ ys
drop-append [] ys = refl
drop-append (x ∷ xs) ys = drop-append xs ys

decode_tag-tagged :
    (key : List ℕ) (prior : Option (List ℕ))
    → decode_tag key (tagged prior) ≡ ok (record { raw_key = key; prior = prior })
unfolding decode_tag prior_of
decode_tag-tagged key none = refl
decode_tag-tagged key (some p) = refl

tagged-length : (prior : Option (List ℕ)) → 0 < length (tagged prior)
tagged-length none = omega arith
tagged-length (some p) = omega arith

decode_key-tagged :
    (key : List ℕ) (prior : Option (List ℕ))
    → decode_key (length key) (key ++ tagged prior) ≡ ok (record { raw_key = key; prior = prior })
unfolding decode_key
decode_key-tagged key prior =
    let long : ltb (length (key ++ tagged prior)) (length key + 1) ≡ false =
      ground (arith, length-append key (tagged prior), tagged-length prior) in
    rw long (
      rw (take-append key (tagged prior))
        (rw (drop-append key (tagged prior)) (decode_tag-tagged key prior)))

-- A record of the journal whose key is shorter than 4 GiB decodes to itself.
pub decode-encode : (e : JournalEntry) → length e.raw_key < u32_mod → decode (encode e) ≡ ok e
unfolding decode encode decode_key
decode-encode e h =
    let fits : length e.raw_key % u32_mod ≡ length e.raw_key = omega arith in
    let size = from_le_bytes-to_le_bytes (length e.raw_key) h in
    rw fits (rw size (decode_key-tagged e.raw_key e.prior))
