-- ===== src/Prelude/Atoi/Itoa.antt =====
-- strconv.Itoa of Go's standard library, for numbers of at most twenty digits: `int` has fewer.
pub mod Signed
use Prim.Native.Nat.{ℕ, zero, suc, ◌+◌, ◌-◌, ◌*◌, ◌/◌, ◌%◌, ◌^◌, ◌≤◌, ◌<◌}
use Prim.Native.Char.{Char, code, len_utf8}
use Prim.Native.String.{String, char_at, len}
use Prim.Native.String.len.{cons}
use mathlib.Core.Bool.{true, false}
use mathlib.Core.Logic.{inl, inr}
use mathlib.Core.Option.{some}
use mathlib.Core.Path.{◌≡◌, refl, ap, ◌∙◌, sym}
use mathlib.Core.List.{List, ◌∷◌}
use native.Mathlib.Omega.{arith}
use chatflow.Prelude.Tests.{ltb, leb, eqb, if◌then◌else◌, Bool-cases, lt→ltb}
use chatflow.Prelude.Int.{pos}
use chatflow.Prelude.Atoi.{codes, digits, magnitude, within, signed, atoi}

digit : ℕ → Char
digit d = char_at "0123456789" d

itoa_from : ℕ → ℕ → String → String
unfolding digit
itoa_from zero n acc = acc
itoa_from (suc fuel) n acc =
    let rest = itoa_from fuel (n / 10) (String.◌∷◌ (digit (n % 10)) acc) in
    if ltb n 10 then String.◌∷◌ (digit n) acc else rest

unfoldable pub itoa : ℕ → String
unfolding itoa_from
itoa n = itoa_from 20 n ""

itoa-plain : itoa 100000 ≡ "100000"
unfolding itoa
itoa-plain = refl

digit_lem : (d : ℕ) → d < 10 → (code (digit d) ≡ 48 + d) × (len_utf8 (digit d) ≡ 1)
unfolding digit
digit_lem zero h = (refl, refl)
digit_lem (suc zero) h = (refl, refl)
digit_lem (suc (suc zero)) h = (refl, refl)
digit_lem (suc (suc (suc zero))) h = (refl, refl)
digit_lem (suc (suc (suc (suc zero)))) h = (refl, refl)
digit_lem (suc (suc (suc (suc (suc zero))))) h = (refl, refl)
digit_lem (suc (suc (suc (suc (suc (suc zero)))))) h = (refl, refl)
digit_lem (suc (suc (suc (suc (suc (suc (suc zero))))))) h = (refl, refl)
digit_lem (suc (suc (suc (suc (suc (suc (suc (suc zero)))))))) h = (refl, refl)
digit_lem (suc (suc (suc (suc (suc (suc (suc (suc (suc zero))))))))) h = (refl, refl)
digit_lem (suc (suc (suc (suc (suc (suc (suc (suc (suc (suc d)))))))))) h = absurd (omega arith)

digits-step : (n d : ℕ) (cs : List ℕ) → d < 10 → digits n ((48 + d) ∷ cs) ≡ digits (n * 10 + d) cs
unfolding digits
digits-step n d cs h = ground arith

digits-digit :
    (n d : ℕ) (acc : String)
    → d < 10
    → digits n (codes (String.◌∷◌ (digit d) acc)) ≡ digits (n * 10 + d) (codes acc)
digits-digit n d acc h = rw (digit_lem d h).0 (digits-step n d (codes acc) h)

-- The digits in front of `acc` are read as the number.
digits-itoa_from :
    (fuel n : ℕ) (acc : String)
    → n < 10 ^ suc fuel
    → digits 0 (codes (itoa_from (suc fuel) n acc)) ≡ digits n (codes acc)
unfolding itoa_from
digits-itoa_from zero n acc h =
    rw (lt→ltb n 10 h) (digits-digit 0 n acc h ∙ ap (λ m. digits m (codes acc)) (omega arith))
digits-itoa_from (suc f) n acc h = elim (Bool-cases (ltb n 10)) [
  | inl e ↦
      rw e (digits-digit 0 n acc (ground arith) ∙ ap (λ m. digits m (codes acc)) (omega arith))
  | inr e ↦ rw e (
      digits-itoa_from f (n / 10) (String.◌∷◌ (digit (n % 10)) acc) (omega arith)
      ∙ digits-digit (n / 10) (n % 10) acc (omega arith)
      ∙ ap (λ m. digits m (codes acc)) (omega arith))
]

-- A text that begins with a digit, and is by one to `fuel` characters longer than `acc`.
record IsNumeral (fuel : ℕ) (acc text : String) : Type 0 where
  first : ℕ
  rest : List ℕ
  begins : codes text ≡ (48 + first) ∷ rest
  is_digit : first < 10
  longer : suc (len acc) ≤ len text
  no_longer : len text ≤ fuel + len acc

one_digit : (d : ℕ) (acc : String) → d < 10 → IsNumeral 1 acc (String.◌∷◌ (digit d) acc)
one_digit d acc h = record {
  first = d;
  rest = codes acc;
  begins = rw (digit_lem d h).0 refl;
  is_digit = h;
  longer = omega (arith, (digit_lem d h).1, cons (digit d) acc);
  no_longer = omega (arith, (digit_lem d h).1, cons (digit d) acc);
}

more_digits :
    (fuel d : ℕ) (acc text : String)
    → d < 10
    → IsNumeral fuel (String.◌∷◌ (digit d) acc) text
    → IsNumeral (suc fuel) acc text
more_digits fuel d acc text h num = record {
  first = num.first;
  rest = num.rest;
  begins = num.begins;
  is_digit = num.is_digit;
  longer = omega (arith, num.longer, (digit_lem d h).1, cons (digit d) acc);
  no_longer = omega (arith, num.no_longer, (digit_lem d h).1, cons (digit d) acc);
}

longer_limit : (fuel : ℕ) (acc text : String) → IsNumeral 1 acc text → IsNumeral (suc fuel) acc text
longer_limit fuel acc text num = record {
  first = num.first;
  rest = num.rest;
  begins = num.begins;
  is_digit = num.is_digit;
  longer = num.longer;
  no_longer = omega (arith, num.no_longer);
}

itoa_from-IsNumeral :
    (fuel k n : ℕ) (acc : String)
    → k ≤ fuel
    → n < 10 ^ suc k
    → IsNumeral (suc k) acc (itoa_from (suc fuel) n acc)
unfolding itoa_from
itoa_from-IsNumeral fuel zero n acc le h = rw (lt→ltb n 10 h) (one_digit n acc h)
itoa_from-IsNumeral zero (suc k) n acc le h = absurd (omega arith)
itoa_from-IsNumeral (suc fuel) (suc k) n acc le h = elim (Bool-cases (ltb n 10)) [
  | inl e ↦ rw e (longer_limit (suc k) acc _ (one_digit n acc (ground arith)))
  | inr e ↦ rw e (
      more_digits (suc k) (n % 10) acc _ (omega arith) (
        itoa_from-IsNumeral fuel k (n / 10) (String.◌∷◌ (digit (n % 10)) acc) (omega arith)
          (omega arith)))
]

itoa-IsNumeral : (k n : ℕ) → k < 20 → n < 10 ^ suc k → IsNumeral (suc k) "" (itoa n)
unfolding itoa
itoa-IsNumeral k n small h = itoa_from-IsNumeral 19 k n "" (omega arith) h

digits-itoa : (n : ℕ) → n ≤ 2 ^ 63 → digits 0 (codes (itoa n)) ≡ some n
unfolding itoa digits
digits-itoa n h = digits-itoa_from 19 n "" (omega arith)

signed-digits :
    (first : ℕ) (rest : List ℕ) (n : ℕ)
    → first < 10
    → digits 0 ((48 + first) ∷ rest) ≡ some n
    → n < 2 ^ 63
    → signed ((48 + first) ∷ rest) ≡ some (pos n)
unfolding signed magnitude within
signed-digits first rest n h e small =
    rw
      (not_eq (48 + first) b'-' (omega arith), not_eq (48 + first) b'+' (omega arith), e, not_above)
      refl
  where
    not_eq : (a b : ℕ) → b < a → eqb a b ≡ false
    not_eq a b h = ground arith

    not_above : leb n (2 ^ 63 - 1) ≡ true
    not_above = ground arith

-- What is printed is read back.
pub atoi-itoa : (n : ℕ) → n < 2 ^ 63 → atoi (itoa n) ≡ some (pos n)
unfolding atoi
atoi-itoa n h =
    let num = itoa-IsNumeral 18 n (omega arith) (omega arith) in
    rw num.begins (
      signed-digits num.first num.rest n num.is_digit
        (ap (digits 0) (sym num.begins) ∙ digits-itoa n (omega arith)) h)

-- A number below `10 ^ (k + 1)` has at most `k + 1` digits.
pub len-itoa : (k n : ℕ) → k < 20 → n < 10 ^ suc k → (1 ≤ len (itoa n)) × (len (itoa n) ≤ suc k)
len-itoa k n small h =
    let num = itoa-IsNumeral k n small h in
    (omega (arith, num.longer), omega (arith, num.no_longer))
