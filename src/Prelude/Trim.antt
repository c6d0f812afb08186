-- ===== src/Prelude/Trim.antt =====
-- Of Go's package strings: TrimSpace, TrimPrefix and TrimSuffix.
use Prim.Native.Nat.{ℕ}
use Prim.Native.Char.{Char, code}
use Prim.Native.String.{String, ◌++◌}
use mathlib.Core.Bool.{Bool, false, ◌&&◌, ◌||◌}
use mathlib.Core.Logic.{inl, inr}
use mathlib.Core.Option.{Option, none, some}
use mathlib.Core.Path.{◌≡◌, refl, ap, ◌∙◌}
use native.Mathlib.Omega.{arith}
use text.Mathlib.Text.{◌==◌}
use text.Mathlib.TextEquality.{eq_iff}
use text.Mathlib.TextPositions.{eq_refl}
use text.Mathlib.TextLemmas.{
  nil-append, cons-append, cons-ne-nil, append-ne-nil_of_right_ne-nil, tail-eq_of_cons-eq,
}
use chatflow.Prelude.Tests.{leb, eqb, if◌then◌else◌, Bool-cases}

-- unicode.IsSpace
unfoldable pub is_space : ℕ → Bool
is_space c =
    leb 9 c && leb c 13
    || eqb c 32
    || eqb c 133
    || eqb c 160
    || eqb c 5760
    || leb 8192 c && leb c 8202
    || eqb c 8232
    || eqb c 8233
    || eqb c 8239
    || eqb c 8287
    || eqb c 12288

trim_left : String → String
trim_left String.[] = String.[]
trim_left (String.◌∷◌ c s) =
    let rest = trim_left s in if is_space (code c) then rest else String.◌∷◌ c s

-- A space is dropped if nothing is left behind it.
cons_unless : Char → String → String
cons_unless c String.[] = if is_space (code c) then String.[] else String.◌∷◌ c String.[]
cons_unless c (String.◌∷◌ d s) = String.◌∷◌ c (String.◌∷◌ d s)

trim_right : String → String
unfolding cons_unless
trim_right String.[] = String.[]
trim_right (String.◌∷◌ c s) = cons_unless c (trim_right s)

unfoldable pub trim_space : String → String
unfolding trim_left trim_right
trim_space s = trim_right (trim_left s)

-- What is behind the prefix, if it is one.
unfoldable pub behind : String → String → Option String
behind String.[] s = some s
behind (String.◌∷◌ c p) String.[] = none
behind (String.◌∷◌ c p) (String.◌∷◌ d s) =
    let rest = behind p s in if eqb (code c) (code d) then rest else none

unfoldable pub trim_prefix : String → String → String
unfolding behind
trim_prefix s prefix = elim (behind prefix s) [ none ↦ s | some rest ↦ rest ]

unfoldable pub trim_suffix : String → String → String
trim_suffix String.[] suffix = String.[]
trim_suffix (String.◌∷◌ c s) suffix =
    let rest = trim_suffix s suffix in
    if String.◌∷◌ c s == suffix then String.[] else String.◌∷◌ c rest

-- A text without spaces.
abbrev pub NoSpace : String → Type 0
NoSpace String.[] = Unit
NoSpace (String.◌∷◌ c s) = (is_space (code c) ≡ false) × NoSpace s

trim_left-NoSpace : (s : String) → NoSpace s → trim_left s ≡ s
unfolding trim_left
trim_left-NoSpace String.[] h = refl
trim_left-NoSpace (String.◌∷◌ c s) h = rw h.0 refl

cons_unless-NoSpace :
    (c : Char) (s : String) → is_space (code c) ≡ false → cons_unless c s ≡ String.◌∷◌ c s
unfolding cons_unless
cons_unless-NoSpace c String.[] h = rw h refl
cons_unless-NoSpace c (String.◌∷◌ d s) h = refl

trim_right-NoSpace : (s : String) → NoSpace s → trim_right s ≡ s
unfolding trim_right
trim_right-NoSpace String.[] h = refl
trim_right-NoSpace (String.◌∷◌ c s) h =
    ap (cons_unless c) (trim_right-NoSpace s h.1) ∙ cons_unless-NoSpace c s h.0

pub trim_space-NoSpace : (s : String) → NoSpace s → trim_space s ≡ s
unfolding trim_space
trim_space-NoSpace s h = ap trim_right (trim_left-NoSpace s h) ∙ trim_right-NoSpace s h

pub append-NoSpace : (s t : String) → NoSpace s → NoSpace t → NoSpace (s ++ t)
append-NoSpace String.[] t h k = rw (nil-append t) k
append-NoSpace (String.◌∷◌ c s) t h k = rw (cons-append c s t) (h.0, append-NoSpace s t h.1 k)

pub behind-append : (p s : String) → behind p (p ++ s) ≡ some s
unfolding behind
behind-append String.[] s = rw (nil-append s) refl
behind-append (String.◌∷◌ c p) s = rw (cons-append c p s) (ground (arith, behind-append p s))

pub trim_prefix-append : (p s : String) → trim_prefix (p ++ s) p ≡ s
unfolding trim_prefix
trim_prefix-append p s = rw (trim_prefix, behind-append p s) refl

pub trim_prefix-absent : (p s : String) → behind p s ≡ none → trim_prefix s p ≡ s
unfolding trim_prefix
trim_prefix-absent p s h = rw (h, trim_prefix) refl

pub trim_suffix-append :
    (s : String) (c : Char) → trim_suffix (s ++ String.◌∷◌ c String.[]) (String.◌∷◌ c String.[]) ≡ s
unfolding trim_suffix
trim_suffix-append String.[] c =
    rw (nil-append (String.◌∷◌ c String.[]), trim_suffix, eq_refl (String.◌∷◌ c String.[])) refl
trim_suffix-append (String.◌∷◌ d s) c =
    elim (Bool-cases (String.◌∷◌ d (s ++ String.◌∷◌ c String.[]) == String.◌∷◌ c String.[])) [
      | inl e ↦ absurd (
          append-ne-nil_of_right_ne-nil s (cons-ne-nil c String.[])
            (tail-eq_of_cons-eq ((eq_iff _ _).0 e)))
      | inr e ↦
          rw (cons-append d s (String.◌∷◌ c String.[]), trim_suffix, e)
            (ap (String.◌∷◌ d) (trim_suffix-append s c))
    ]
