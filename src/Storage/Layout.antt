-- ===== src/Storage/Layout.antt =====
-- The module `keys` of storage/snapshot.rs: the layout of the keys. Numbers are padded with zeros so
-- that the order of the keys is that of the numbers.
pub mod Numbers
pub mod Prefixes
use agent_tx_protocol.Prelude.{
  ℕ, zero, suc, ◌+◌, ◌*◌, ◌-◌, ◌/◌, ◌%◌, Bool, ◌||◌, ◌==◌, nat_eq, Option, none, some, List, [],
  ◌∷◌, ◌++◌, Text, if◌then◌else◌, ltb, u64_mod,
}
use agent_tx_protocol.Storage.Database.{Bytes}

-- `{n:0w}` for a number of at most `w` digits, as each u32 is for 10 and each u64 for 20.
unfoldable pub padded : ℕ → ℕ → Bytes
padded zero n = []
padded (suc w) n = padded w (n / 10) ++ (48 + n % 10) ∷ []

abbrev pub tx_record_prefix : Bytes
tx_record_prefix = b't' ∷ b'/' ∷ []

-- b"c/commit_version"
abbrev pub commit_version_key : Bytes
commit_version_key =
    b'c' ∷ b'/' ∷ b'c' ∷ b'o' ∷ b'm' ∷ b'm' ∷ b'i' ∷ b't' ∷ b'_' ∷ b'v' ∷ b'e' ∷ b'r' ∷ b's' ∷ b'i'
    ∷ b'o' ∷ b'n' ∷ []

unfoldable pub global : Text → Bytes
global key = b'g' ∷ b'/' ∷ key

-- "{kind}/{tx}/", the form of the prefixes below
abbrev pub tx_prefix : ℕ → Text → Bytes
tx_prefix kind tx = (kind ∷ b'/' ∷ tx) ++ b'/' ∷ []

unfoldable pub tx_data_prefix : Text → Bytes
tx_data_prefix tx = tx_prefix b'x' tx

unfoldable pub overlay_prefix : Text → Bytes
unfolding tx_data_prefix
overlay_prefix tx = (tx_data_prefix tx ++ b's' ∷ []) ++ b'/' ∷ []

unfoldable pub overlay : Text → Text → Bytes
unfolding overlay_prefix
overlay tx key = overlay_prefix tx ++ key

unfoldable pub output : Text → ℕ → Bytes
unfolding tx_data_prefix padded
output tx step = tx_data_prefix tx ++ (b'o' ∷ b'/' ∷ padded 10 step)

unfoldable pub tx_record : Text → Bytes
tx_record tx = b't' ∷ b'/' ∷ tx

unfoldable pub snapshot_prefix : Text → Bytes
snapshot_prefix tx = tx_prefix b'm' tx

unfoldable pub snapshot : Text → ℕ → Bytes
unfolding snapshot_prefix padded
snapshot tx step = snapshot_prefix tx ++ padded 10 step

unfoldable pub journal_prefix : Text → Bytes
journal_prefix tx = tx_prefix b'j' tx

unfoldable pub journal : Text → ℕ → Bytes
unfolding journal_prefix padded
journal tx seq = journal_prefix tx ++ padded 20 seq

unfoldable pub saga_prefix : Text → Bytes
saga_prefix tx = tx_prefix b'u' tx

unfoldable pub saga : Text → ℕ → ℕ → Bytes
unfolding saga_prefix padded
saga tx step seq = saga_prefix tx ++ (padded 10 step ++ (b'/' ∷ padded 20 seq))

-- `rsplit` by a slash: the bytes after the last one
unfoldable pub last_segment : Bytes → Bytes → Bytes
last_segment segment [] = segment
last_segment segment (b ∷ rest) = last_segment (if b == b'/' then [] else segment ++ b ∷ []) rest

-- `str::parse::<u64>`: digits behind an optional plus sign; a number that does not fit is refused.
abbrev pub next_digit : ℕ → Option ℕ → Option ℕ
next_digit c none = none
next_digit c (some n) =
    if ltb c 48 || ltb 57 c
    then none
    else if ltb (n * 10 + (c - 48)) u64_mod
    then some (n * 10 + (c - 48))
    else none

unfoldable pub parse_digits : Option ℕ → Bytes → Option ℕ
parse_digits n [] = n
parse_digits n (c ∷ rest) = parse_digits (next_digit c n) rest

unfoldable pub parse_unsigned : Bytes → Option ℕ
unfolding parse_digits
parse_unsigned [] = none
parse_unsigned (c ∷ rest) = parse_digits (some 0) (c ∷ rest)

unfoldable pub parse_u64 : Bytes → Option ℕ
unfolding parse_unsigned
parse_u64 [] = none
parse_u64 (c ∷ rest) = if c == b'+' then parse_unsigned rest else parse_unsigned (c ∷ rest)

unfoldable pub journal_seq_of : Bytes → Option ℕ
unfolding last_segment parse_u64
journal_seq_of key = parse_u64 (last_segment [] key)
