-- ===== src/Prelude/Utf8.antt =====
-- std::str::from_utf8: which bytes are text.
use Prim.Native.Nat.{ℕ, zero, suc}
use mathlib.Core.Bool.{Bool, false, ◌&&◌}
use mathlib.Core.List.{List, [], ◌∷◌}
use mathlib.Core.Option.{Option, none, some}
use agent_tx_protocol.Prelude.Tests.{leb, if◌then◌else◌, nat_eq, ◌==◌}

-- How many bytes the character still wants, and the range of the next one.
pub record Wanted : Type 0 where
  pub more : ℕ
  pub least : ℕ
  pub greatest : ℕ

abbrev tail_of : ℕ → Wanted
tail_of n = record { more = n; least = 0x80; greatest = 0xBF }

abbrev between : ℕ → ℕ → ℕ → Bool
between lo hi b = leb lo b && leb b hi

-- the first byte of a character
unfoldable pub first_byte : ℕ → Option Wanted
first_byte b =
    if leb b 0x7F
    then some (tail_of 0)
    else if between 0xC2 0xDF b
    then some (tail_of 1)
    else if b == 0xE0
    then some (record { more = 2; least = 0xA0; greatest = 0xBF })
    else if b == 0xED
    then some (record { more = 2; least = 0x80; greatest = 0x9F })
    else if between 0xE1 0xEF b
    then some (tail_of 2)
    else if b == 0xF0
    then some (record { more = 3; least = 0x90; greatest = 0xBF })
    else if between 0xF1 0xF3 b
    then some (tail_of 3)
    else if b == 0xF4
    then some (record { more = 3; least = 0x80; greatest = 0x8F })
    else none

abbrev next_wanted : ℕ → Wanted → ℕ → Option Wanted
next_wanted zero w b = first_byte b
next_wanted (suc n) w b = if between w.least w.greatest b then some (tail_of n) else none

abbrev next_byte : Option Wanted → ℕ → Option Wanted
next_byte none b = none
next_byte (some w) b = next_wanted w.more w b

abbrev is_whole : Option Wanted → Bool
is_whole none = false
is_whole (some w) = w.more == 0

unfoldable pub utf8_from : Option Wanted → List ℕ → Bool
unfolding first_byte
utf8_from w [] = is_whole w
utf8_from w (b ∷ rest) = utf8_from (next_byte w b) rest

unfoldable pub is_utf8 : List ℕ → Bool
unfolding utf8_from
is_utf8 bytes = utf8_from (some (tail_of 0)) bytes
