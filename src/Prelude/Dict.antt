-- ===== src/Prelude/Dict.antt =====
-- Go's maps with string keys, as association lists. A loop over a map visits the entries of the
-- list; the order of the list stands for the order that Go leaves open.
use mathlib.Core.Path.{◌≡◌, refl}
use mathlib.Core.List.{List, [], ◌∷◌, map}
use mathlib.Core.Option.{Option, none, some}
use Prim.Native.String.{String}
use native.Mathlib.Omega.{arith}
use text.Mathlib.Text.{◌==◌}
use text.Mathlib.TextEquality.{eq_iff}
use text.Mathlib.TextPositions.{eq_refl}
use chatflow.Prelude.Seq.{All}
use chatflow.Prelude.Tests.{if◌then◌else◌}

abbrev pub Dict {ℓ} : Type ℓ → Type ℓ
Dict V = List (String × V)

module _ {ℓ} {V : Type ℓ} where
  unfoldable pub get : Dict V → String → Option V
  get [] k = none
  get ((j, v) ∷ d) k = if j == k then some v else get d k

  -- delete(d, k)
  unfoldable pub remove : Dict V → String → Dict V
  remove [] k = []
  remove ((j, v) ∷ d) k = let rest = remove d k in if j == k then rest else (j, v) ∷ rest

  -- d[k] = v
  unfoldable pub put : Dict V → String → V → Dict V
  unfolding remove
  put d k v = (k, v) ∷ remove d k

  abbrev pub keys : Dict V → List String
  keys = map (λ e. e.0)

  -- No key twice.
  abbrev pub IsMap : Dict V → Type ℓ
  IsMap [] = Unit
  IsMap ((k, v) ∷ d) = (get d k ≡ none) × IsMap d

  pub get-remove :
      (d : Dict V) (k j : String) → get (remove d k) j ≡ (if k == j then none else get d j)
  unfolding get remove
  get-remove [] k j = ground arith
  get-remove ((i, v) ∷ d) k j = ground (arith, get-remove d k j, eq_iff i k, eq_iff i j, eq_iff k j)

  pub get-put :
      (d : Dict V) (k j : String) (v : V) → get (put d k v) j ≡ (if k == j then some v else get d j)
  unfolding get put
  get-put d k j v = ground (arith, get-remove d k j)

  pub get-put_self : (d : Dict V) (k : String) (v : V) → get (put d k v) k ≡ some v
  get-put_self d k v = simp (get-put, eq_refl)

  pub get-remove_self : (d : Dict V) (k : String) → get (remove d k) k ≡ none
  get-remove_self d k = simp (get-remove, eq_refl)

  pub remove-IsMap : (d : Dict V) (k : String) → IsMap d → IsMap (remove d k)
  unfolding remove
  remove-IsMap [] k h = tt
  remove-IsMap ((j, v) ∷ d) k h = ground (arith, remove-IsMap d k h.1, get-remove d k j)

  pub put-IsMap : (d : Dict V) (k : String) (v : V) → IsMap d → IsMap (put d k v)
  unfolding put
  put-IsMap d k v h = (get-remove_self d k, remove-IsMap d k h)

  -- Removing a key that is not there changes nothing.
  pub remove_absent : (d : Dict V) (k : String) → get d k ≡ none → remove d k ≡ d
  unfolding get remove
  remove_absent [] k h = refl
  remove_absent ((j, v) ∷ d) k h = ground (arith, remove_absent d k)

pub ruleset dict_laws = (get-put, get-remove, get-put_self, get-remove_self)

-- What holds of each key with its value holds of each entry that a loop visits.
pub All-entries {ℓ κ} :
    {V : Type ℓ} (P : String × V → Type κ) (d : Dict V)
    → IsMap d
    → ((k : String) (v : V) → get d k ≡ some v → P (k, v))
    → All P d
unfolding get
All-entries P [] m f = tt
All-entries P ((j, v) ∷ d) m f =
    (f j v (rw (eq_refl j) refl), All-entries P d m.1 λ k w e. f k w (later k w e))
  where
    later : (k : String) (w : _) → get d k ≡ some w → get ((j, v) ∷ d) k ≡ some w
    later k w e = ground (arith, eq_iff j k, m.0)
