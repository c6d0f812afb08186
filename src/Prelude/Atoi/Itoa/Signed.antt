-- ===== src/Prelude/Atoi/Itoa/Signed.antt =====
-- strconv.Itoa for a signed 64-bit `int`, given by its bit pattern.
use Prim.Native.Nat.{ℕ, ◌-◌, ◌^◌, ◌≤◌, ◌<◌}
use Prim.Native.String.{String, char_at}
use mathlib.Core.Bool.{true}
use mathlib.Core.Logic.{inl, inr}
use mathlib.Core.Option.{some}
use mathlib.Core.Path.{◌≡◌, refl, ap, ◌∙◌, sym}
use native.Mathlib.Omega.{arith}
use chatflow.Prelude.Tests.{ltb, leb, if◌then◌else◌, Bool-cases}
use chatflow.Prelude.Int.{ℤ, pos, neg}
use chatflow.Prelude.Int64.{Int64}
use chatflow.Prelude.Atoi.{codes, magnitude, within, signed, digits, atoi}
use chatflow.Prelude.Atoi.Itoa.{itoa, atoi-itoa, itoa-IsNumeral, digits-itoa}

-- The number that a bit pattern stands for.
abbrev pub to_ℤ : Int64 → ℤ
to_ℤ a = if ltb a (2 ^ 63) then pos a else neg (2 ^ 64 - a)

unfoldable pub itoa_signed : Int64 → String
itoa_signed a = if ltb a (2 ^ 63) then itoa a else String.◌∷◌ (char_at "-" 0) (itoa (2 ^ 64 - a))

itoa_signed-minus : itoa_signed (2 ^ 64 - 7) ≡ "-7"
unfolding itoa_signed itoa
itoa_signed-minus = refl

magnitude-itoa : (n : ℕ) → n ≤ 2 ^ 63 → magnitude (codes (itoa n)) ≡ some n
unfolding magnitude
magnitude-itoa n h =
    let num = itoa-IsNumeral 18 n (omega arith) (omega arith) in
    rw num.begins (ap (digits 0) (sym num.begins) ∙ digits-itoa n h)

atoi-minus_itoa : (n : ℕ) → n ≤ 2 ^ 63 → atoi (String.◌∷◌ (char_at "-" 0) (itoa n)) ≡ some (neg n)
unfolding atoi signed within
atoi-minus_itoa n h = rw (magnitude-itoa n h, is_within) refl
  where
    is_within : leb n (2 ^ 63) ≡ true
    is_within = ground arith

-- What is printed is read back, the sign too.
pub atoi-itoa_signed : (a : Int64) → a < 2 ^ 64 → atoi (itoa_signed a) ≡ some (to_ℤ a)
unfolding itoa_signed
atoi-itoa_signed a h = elim (Bool-cases (ltb a (2 ^ 63))) [
  | inl e ↦ rw e (atoi-itoa a (ground arith))
  | inr e ↦ rw e (atoi-minus_itoa (2 ^ 64 - a) (ground arith))
]
