-- ===== src/Prelude/Int64.antt =====
-- Go's int64 by its bit pattern: a number below 2^64, of which those from 2^63 on are negative.
use Prim.Native.Nat.{ℕ, ◌+◌, ◌-◌, ◌/◌, ◌%◌, ◌^◌}
use mathlib.Core.Bool.{Bool}
use chatflow.Prelude.Tests.{ltb, if◌then◌else◌}
use chatflow.Prelude.Store.{int64_mod}

abbrev pub Int64 : Type 0
Int64 = ℕ

-- The order of the signed numbers as an order of natural ones.
unfoldable pub biased : Int64 → ℕ
biased a = (a + 2 ^ 63) % int64_mod

abbrev pub less_int64 : Int64 → Int64 → Bool
less_int64 a b = ltb (biased a) (biased b)

abbrev pub add_int64 : Int64 → Int64 → Int64
add_int64 a b = (a + b) % int64_mod

-- a / n for a positive n, which rounds towards zero.
unfoldable pub div_int64 : Int64 → ℕ → Int64
div_int64 a n = if ltb a (2 ^ 63) then a / n else (int64_mod - (int64_mod - a) / n) % int64_mod
