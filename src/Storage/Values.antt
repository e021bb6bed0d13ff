-- ===== src/Storage/Values.antt =====
-- The values of storage/rocks.rs, and its checks of identifiers and keys.
pub mod RoundTrip
use agent_tx_protocol.Prelude.{
  ℕ, zero, suc, ◌+◌, ◌*◌, ◌/◌, ◌%◌, ◌^◌, ◌<◌, ◌≡◌, refl, ap, Bool, true, false, not, ◌&&◌, ◌||◌,
  ◌==◌, nat_eq, Option, none, some, List, [], ◌∷◌, ◌++◌, Text, bytes, ltb, leb, if◌then◌else◌, all,
  length, take, drop, u64_mod, arith,
}
use agent_tx_protocol.Errors.{AgentTxError, corrupt, invalid_argument, Result, ok, err, ◌>>=◌}
use agent_tx_protocol.Storage.Database.{Bytes}

-- u64::to_le_bytes, u64::from_le_bytes
unfoldable pub le_bytes : ℕ → ℕ → Bytes
le_bytes zero n = []
le_bytes (suc k) n = n % 256 ∷ le_bytes k (n / 256)

unfoldable pub of_le_bytes : Bytes → ℕ
of_le_bytes [] = 0
of_le_bytes (b ∷ rest) = b + 256 * of_le_bytes rest

abbrev pub version_len : ℕ
version_len = 8

abbrev pub tag_tombstone : ℕ
tag_tombstone = 0

abbrev pub tag_value : ℕ
tag_value = 1

abbrev pub is_alphanumeric : ℕ → Bool
is_alphanumeric b =
    (leb b'0' b && leb b b'9') || (leb b'A' b && leb b b'Z') || (leb b'a' b && leb b b'z')

abbrev pub id_byte : ℕ → Bool
id_byte b = is_alphanumeric b || b == b'-' || b == b'_'

unfoldable pub validate_tx_id : Text → Result (Unit {0})
unfolding all
validate_tx_id tx =
    if not (length tx == 0) && leb (length tx) 128 && all id_byte tx
    then ok tt
    else err (
        invalid_argument (
          bytes "invalid transaction id `"
          ++ (tx ++ bytes "`: expected 1-128 chars of [A-Za-z0-9_-]")))

unfoldable pub validate_key : Text → Result (Unit {0})
validate_key key =
    if length key == 0 || ltb 1024 (length key)
    then err (invalid_argument (bytes "state keys must be 1-1024 bytes"))
    else ok tt

unfoldable pub decode_u64 : Bytes → Text → Result ℕ
unfolding of_le_bytes
decode_u64 raw key =
    if length raw == version_len
    then ok (of_le_bytes raw)
    else err (corrupt key (bytes "expected 8-byte integer"))

-- a committed value: its version and the payload
unfoldable pub split_versioned : Bytes → Text → Result (ℕ × Bytes)
unfolding decode_u64
split_versioned raw key =
    if ltb (length raw) version_len
    then err (corrupt key (bytes "committed value shorter than version header"))
    else do version ← decode_u64 (take version_len raw) key; ok (version, drop version_len raw)

pub record Overlay : Type 0 where
  pub tag : ℕ
  pub base_version : ℕ
  pub payload : Bytes

abbrev malformed : Text → Result Overlay
malformed key = err (corrupt key (bytes "malformed overlay header"))

unfoldable pub split_overlay : Bytes → Text → Result Overlay
unfolding decode_u64
split_overlay [] key = malformed key
split_overlay (tag ∷ rest) key =
    if ltb (length rest) version_len || ltb tag_value tag then malformed key else do
      base ← decode_u64 (take version_len rest) key
      ok (record { tag = tag; base_version = base; payload = drop version_len rest })

-- The `encoded` of `write_overlay`.
unfoldable pub encode_overlay : Option Bytes → ℕ → Bytes
unfolding le_bytes
encode_overlay (some v) base = tag_value ∷ (le_bytes version_len base ++ v)
encode_overlay none base = tag_tombstone ∷ le_bytes version_len base

-- The `stamped` of `commit`.
unfoldable pub encode_versioned : ℕ → Bytes → Bytes
unfolding le_bytes
encode_versioned version payload = le_bytes version_len version ++ payload
