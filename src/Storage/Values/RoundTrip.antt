-- ===== src/Storage/Values/RoundTrip.antt =====
-- The values of storage/rocks.rs are read back as they were written.
use agent_tx_protocol.Prelude.{
  ℕ, zero, suc, ◌/◌, ◌^◌, ◌<◌, ◌≡◌, refl, ap, ◌==◌, nat_eq, Option, none, some, [], ◌++◌, Text,
  length, arith, ltb, if◌then◌else◌, u64_mod, false,
}
use native.Mathlib.Nat.{pow-suc}
use agent_tx_protocol.Errors.{ok}
use agent_tx_protocol.Storage.Database.{Bytes}
use agent_tx_protocol.Storage.Values.{
  le_bytes, of_le_bytes, version_len, split_versioned, encode_versioned, Overlay, split_overlay,
  encode_overlay, tag_value, tag_tombstone,
}

length-le_bytes : (w n : ℕ) → length (le_bytes w n) ≡ w
unfolding le_bytes
length-le_bytes zero n = refl
length-le_bytes (suc w) n = ap (λ k. suc k) (length-le_bytes w (n / 256))

-- the lowest byte aside
byte_lt : (w n : ℕ) → n < 256 ^ suc w → n / 256 < 256 ^ w
byte_lt w n h = let h' = rw (pow-suc 256 w) at h in omega arith

of_le_bytes-le_bytes : (w n : ℕ) → n < 256 ^ w → of_le_bytes (le_bytes w n) ≡ n
unfolding le_bytes of_le_bytes
of_le_bytes-le_bytes zero n h = omega arith
of_le_bytes-le_bytes (suc w) n h =
    let high = of_le_bytes-le_bytes w (n / 256) (byte_lt w n h) in omega arith

fits_bytes : (n : ℕ) → n < u64_mod → n < 256 ^ 8
fits_bytes n h = omega arith

-- A committed value, of any version that is a u64, is read back as its version and its payload.
pub split_versioned-encode_versioned :
    (version : ℕ) (payload : Bytes) (key : Text)
    → version < u64_mod
    → split_versioned (encode_versioned version payload) key ≡ ok (version, payload)
unfolding split_versioned encode_versioned le_bytes
split_versioned-encode_versioned version payload key h =
    let long : ltb (length (encode_versioned version payload)) version_len ≡ false = ground arith in
    rw long (ap (λ n. ok (n, payload)) (of_le_bytes-le_bytes 8 version (fits_bytes version h)))

-- What the value of an overlay says: a value that was put, or a deletion.
abbrev pub overlay_of : Option Bytes → ℕ → Overlay
overlay_of (some v) base = record { tag = tag_value; base_version = base; payload = v }
overlay_of none base = record { tag = tag_tombstone; base_version = base; payload = [] }

-- The value of an overlay, of any base version that is a u64, is read back: a value that was put with
-- its base version and its payload, a deletion with its base version.
pub split_overlay-encode_overlay :
    (value : Option Bytes) (base : ℕ) (key : Text)
    → base < u64_mod
    → split_overlay (encode_overlay value base) key ≡ ok (overlay_of value base)
unfolding split_overlay encode_overlay le_bytes
split_overlay-encode_overlay (some v) base key h =
    let long : ltb (length (le_bytes version_len base ++ v)) version_len ≡ false = ground arith in
    rw long (
      ap (λ n. ok (record { tag = tag_value; base_version = n; payload = v }))
        (of_le_bytes-le_bytes 8 base (fits_bytes base h)))
split_overlay-encode_overlay none base key h =
    ap (λ n. ok (record { tag = tag_tombstone; base_version = n; payload = [] }))
      (of_le_bytes-le_bytes 8 base (fits_bytes base h))

-- The tag and the payload are read back whatever the base version.
pub split_overlay-payload :
    (value : Option Bytes) (base : ℕ) (key : Text)
    → (o : Overlay) × (split_overlay (encode_overlay value base) key ≡ ok o)
      × ((if o.tag == tag_value then some o.payload else none) ≡ value)
unfolding split_overlay encode_overlay le_bytes
split_overlay-payload (some v) base key =
    let long : ltb (length (le_bytes version_len base ++ v)) version_len ≡ false = ground arith in
    (
      record {
        tag = tag_value;
        base_version = of_le_bytes (le_bytes version_len base);
        payload = v;
      },
      rw long refl,
      refl,
    )
split_overlay-payload none base key = (
  record {
    tag = tag_tombstone;
    base_version = of_le_bytes (le_bytes version_len base);
    payload = [];
  },
  refl,
  refl,
)
