-- ===== src/Prelude/Atoi.antt =====
-- strconv.Atoi of Go's standard library for a 64-bit `int`: an optional sign, then one or more
-- decimal digits, with the value in range.
pub mod Itoa
use Prim.Native.Nat.{ℕ, ◌+◌, ◌-◌, ◌*◌, ◌^◌}
use Prim.Native.Char.{code}
use Prim.Native.String.{String}
use mathlib.Core.Bool.{◌&&◌}
use mathlib.Core.Option.{Option, none, some}
use mathlib.Core.Path.{◌≡◌, refl}
use mathlib.Core.List.{List, [], ◌∷◌}
use chatflow.Prelude.Tests.{leb, eqb, if◌then◌else◌}
use chatflow.Prelude.Int.{ℤ, pos, neg}

-- The code points of a text.
abbrev pub codes : String → List ℕ
codes String.[] = []
codes (String.◌∷◌ c s) = code c ∷ codes s

digits : ℕ → List ℕ → Option ℕ
digits n [] = some n
digits n (c ∷ cs) =
    let rest = digits (n * 10 + (c - 48)) cs in if leb 48 c && leb c 57 then rest else none

-- One digit at least.
magnitude : List ℕ → Option ℕ
unfolding digits
magnitude [] = none
magnitude (c ∷ cs) = digits 0 (c ∷ cs)

-- The value with its sign, if it is within the bound.
within : ℕ → (ℕ → ℤ) → Option ℕ → Option ℤ
within bound sign none = none
within bound sign (some n) = if leb n bound then some (sign n) else none

signed : List ℕ → Option ℤ
unfolding magnitude within
signed [] = none
signed (c ∷ cs) =
    if eqb c b'-'
    then within (2 ^ 63) neg (magnitude cs)
    else if eqb c b'+'
    then within (2 ^ 63 - 1) pos (magnitude cs)
    else within (2 ^ 63 - 1) pos (magnitude (c ∷ cs))

unfoldable pub atoi : String → Option ℤ
unfolding signed
atoi s = signed (codes s)

atoi-plain : atoi "00120" ≡ some (pos 120)
unfolding atoi
atoi-plain = refl

atoi-minus : atoi "-7" ≡ some (neg 7)
unfolding atoi
atoi-minus = refl

atoi-refused : atoi "9223372036854775808" ≡ none
unfolding atoi
atoi-refused = refl

atoi-sign_alone : atoi "+" ≡ none
unfolding atoi
atoi-sign_alone = refl
