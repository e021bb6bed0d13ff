-- ===== src/Prelude/Words.antt =====
-- Fixed-width integers keep their wrap-around, and text is its UTF-8 bytes.
use Prim.Native.Nat.{ℕ, zero, suc, ◌+◌, ◌/◌, ◌%◌}
use Prim.Native.Char.{code}
use Prim.Native.String.{String}
use mathlib.Core.List.{List, [], ◌∷◌}
use agent_tx_protocol.Prelude.Tests.{nat_eq, ◌==◌, if◌then◌else◌}

abbrev pub u32_mod : ℕ
u32_mod = 4294967296

abbrev pub u64_mod : ℕ
u64_mod = 18446744073709551616

-- The UTF-8 bytes of a `String` or `&str`.
abbrev pub Text : Type 0
Text = List ℕ

-- The bytes of an ASCII literal.
unfoldable pub bytes : String → Text
bytes String.[] = []
bytes (String.◌∷◌ c s) = code c ∷ bytes s

-- Decimal digits, as `format!("{n}")` writes them; 20 rounds are enough for a u64.
unfoldable pub decimal_loop : ℕ → ℕ → Text → Text
decimal_loop zero n acc = acc
decimal_loop (suc f) n acc =
    let digits = (48 + n % 10) ∷ acc in
    let rest = decimal_loop f (n / 10) digits in if n / 10 == 0 then digits else rest

unfoldable pub decimal : ℕ → Text
unfolding decimal_loop
decimal n = decimal_loop 20 n []
