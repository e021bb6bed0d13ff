-- ===== src/Storage/Layout/Numbers.antt =====
-- Padded numbers: their order, and how the sequence number of a journal key is read back.
use agent_tx_protocol.Prelude.{
  ℕ, zero, suc, ◌+◌, ◌/◌, ◌%◌, ◌^◌, ◌<◌, ◌≡◌, refl, sym, ap, ◌∙◌, false, ◌&&◌, ◌||◌, ◌==◌, nat_eq,
  list_eq, Option, some, [], ◌∷◌, ◌++◌, Text, All, All-append, ltb, length, length-append, u64_mod,
  if◌then◌else◌, arith,
}
use native.Mathlib.Nat.{pow-suc, pow-zero}
use mathlib.Core.List.{append-nil, append_assoc}
use agent_tx_protocol.Storage.Database.{Bytes}
use agent_tx_protocol.Storage.Keys.{key_lt}
use agent_tx_protocol.Storage.Layout.{
  padded, last_segment, next_digit, parse_digits, parse_u64, journal_seq_of, journal,
  journal_prefix,
}

pub length-padded : (w n : ℕ) → length (padded w n) ≡ w
unfolding padded
length-padded zero n = refl
length-padded (suc w) n =
    omega (arith, length-append (padded w (n / 10)) ((48 + n % 10) ∷ []), length-padded w (n / 10))

-- the order of two texts of one length that end in a byte each
key_lt-snoc :
    (xs ys : Bytes) (x y : ℕ)
    → length xs ≡ length ys
    → key_lt (xs ++ x ∷ []) (ys ++ y ∷ []) ≡ (key_lt xs ys || (xs == ys && ltb x y))
unfolding key_lt
key_lt-snoc [] [] x y h = ground arith
key_lt-snoc [] (b ∷ ys) x y h = absurd (omega arith)
key_lt-snoc (a ∷ xs) [] x y h = absurd (omega arith)
key_lt-snoc (a ∷ xs) (b ∷ ys) x y h = ground (arith, key_lt-snoc xs ys x y (omega arith))

same-snoc :
    (xs ys : Bytes) (x y : ℕ) → ((xs ++ x ∷ []) == (ys ++ y ∷ [])) ≡ ((xs == ys) && (x == y))
same-snoc [] [] x y = ground arith
same-snoc [] (b ∷ []) x y = ground arith
same-snoc [] (b ∷ c ∷ ys) x y = ground arith
same-snoc (a ∷ []) [] x y = ground arith
same-snoc (a ∷ c ∷ xs) [] x y = ground arith
same-snoc (a ∷ xs) (b ∷ ys) x y = ground (arith, same-snoc xs ys x y)

tenth_lt : (w n : ℕ) → n < 10 ^ suc w → n / 10 < 10 ^ w
tenth_lt w n h = let h' = rw (pow-suc 10 w) at h in omega arith

pub same-padded : (w a b : ℕ) → a < 10 ^ w → b < 10 ^ w → (padded w a == padded w b) ≡ (a == b)
unfolding padded
same-padded zero a b ha hb = ground (arith, pow-zero 10)
same-padded (suc w) a b ha hb =
    same-snoc (padded w (a / 10)) (padded w (b / 10)) (48 + a % 10) (48 + b % 10)
    ∙ ground (arith, same-padded w (a / 10) (b / 10) (tenth_lt w a ha) (tenth_lt w b hb))

-- Padded numbers stand in the order of the numbers.
pub key_lt-padded :
    (w a b : ℕ) → a < 10 ^ w → b < 10 ^ w → key_lt (padded w a) (padded w b) ≡ ltb a b
unfolding padded key_lt
key_lt-padded zero a b ha hb = ground (arith, pow-zero 10)
key_lt-padded (suc w) a b ha hb =
    let p = padded w (a / 10) in
    let q = padded w (b / 10) in
    let la = tenth_lt w a ha in
    let lb = tenth_lt w b hb in
    key_lt-snoc p q (48 + a % 10) (48 + b % 10)
      (length-padded w (a / 10) ∙ sym (length-padded w (b / 10)))
    ∙ ground (arith, key_lt-padded w (a / 10) (b / 10) la lb, same-padded w (a / 10) (b / 10) la lb)

-- a key that two keys share a beginning with
pub key_lt-same_start : (p a b : Bytes) → key_lt (p ++ a) (p ++ b) ≡ key_lt a b
unfolding key_lt
key_lt-same_start [] a b = refl
key_lt-same_start (x ∷ p) a b = ground (arith, key_lt-same_start p a b)

pub same_start : (p a b : Bytes) → ((p ++ a) == (p ++ b)) ≡ (a == b)
same_start [] a b = refl
same_start (x ∷ p) a b = ground (arith, same_start p a b)

abbrev pub fits_u64 : (n : ℕ) → n < u64_mod → n < 10 ^ 20
fits_u64 n h = omega arith

-- The keys of a transaction's journal stand in the order of their sequence numbers.
pub key_lt-journal :
    (tx : Text) (a b : ℕ)
    → a < u64_mod
    → b < u64_mod
    → key_lt (journal tx a) (journal tx b) ≡ ltb a b
unfolding journal
key_lt-journal tx a b ha hb =
    key_lt-same_start (journal_prefix tx) (padded 20 a) (padded 20 b)
    ∙ key_lt-padded 20 a b (fits_u64 a ha) (fits_u64 b hb)

parse_digits-append :
    (n : Option ℕ) (xs ys : Bytes) → parse_digits n (xs ++ ys) ≡ parse_digits (parse_digits n xs) ys
unfolding parse_digits
parse_digits-append n [] ys = refl
parse_digits-append n (x ∷ xs) ys = parse_digits-append (next_digit x n) xs ys

parse_digits-padded :
    (w n : ℕ) → n < 10 ^ w → n < u64_mod → parse_digits (some 0) (padded w n) ≡ some n
unfolding padded parse_digits
parse_digits-padded zero n h fits = ground (arith, pow-zero 10)
parse_digits-padded (suc w) n h fits =
    parse_digits-append (some 0) (padded w (n / 10)) ((48 + n % 10) ∷ [])
    ∙ ground (arith, parse_digits-padded w (n / 10) (tenth_lt w n h) (omega arith))

-- no slash and no sign stands in a padded number
IsDigit : ℕ → Type 0
IsDigit c = ((c == b'/') ≡ false) × ((c == b'+') ≡ false)

digits-padded : (w n : ℕ) → All IsDigit (padded w n)
unfolding padded IsDigit
digits-padded zero n = tt
digits-padded (suc w) n =
    All-append IsDigit (padded w (n / 10)) ((48 + n % 10) ∷ []) (digits-padded w (n / 10))
      (ground arith)

last_segment-digits : (cur ds : Bytes) → All IsDigit ds → last_segment cur ds ≡ cur ++ ds
unfolding last_segment IsDigit
last_segment-digits cur [] h = sym (append-nil cur)
last_segment-digits cur (d ∷ ds) h =
    rw h.0.0 (last_segment-digits (cur ++ d ∷ []) ds h.1 ∙ append_assoc cur (d ∷ []) ds)

last_segment-slash :
    (cur pre ds : Bytes) → last_segment cur ((pre ++ b'/' ∷ []) ++ ds) ≡ last_segment [] ds
unfolding last_segment
last_segment-slash cur [] ds = refl
last_segment-slash cur (b ∷ pre) ds =
    last_segment-slash (if b == b'/' then [] else cur ++ b ∷ []) pre ds

parse_u64-digits :
    (ds : Bytes) → All IsDigit ds → 0 < length ds → parse_u64 ds ≡ parse_digits (some 0) ds
unfolding parse_u64 IsDigit
parse_u64-digits [] h l = absurd (omega arith)
parse_u64-digits (d ∷ ds) h l = rw h.0.1

-- The sequence number in the key of a journal entry is read back from it, for any u64.
pub journal_seq_of-journal :
    (tx : Text) (seq : ℕ) → seq < u64_mod → journal_seq_of (journal tx seq) ≡ some seq
unfolding journal_seq_of journal
journal_seq_of-journal tx seq h =
    let ds = padded 20 seq in
    let d = digits-padded 20 seq in
    ap parse_u64 (last_segment-slash [] (b'j' ∷ b'/' ∷ tx) ds ∙ last_segment-digits [] ds d)
    ∙ parse_u64-digits ds d (omega (arith, length-padded 20 seq))
    ∙ parse_digits-padded 20 seq (fits_u64 seq h) h
