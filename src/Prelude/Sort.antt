-- ===== src/Prelude/Sort.antt =====
-- sort.Slice of Go's standard library, for an order by numbers.
use Prim.Native.Nat.{ℕ, zero, suc, ◌+◌, ◌≤◌, ◌<◌}
use mathlib.Core.Logic.{inl, inr}
use mathlib.Core.Bool.{Bool, true}
use mathlib.Core.List.{List, [], ◌∷◌}
use mathlib.Core.Option.{Option, none, some, some-injective}
use mathlib.Core.Path.{◌≡◌, refl, subst, sym}
use native.Mathlib.Omega.{arith}
use chatflow.Prelude.Tests.{ltb, leb, if◌then◌else◌, Bool-cases}
use chatflow.Prelude.Seq.{length, All}

module _ {A : Type 0} (less : A → A → Bool) where
  insert : A → List A → List A
  insert x [] = x ∷ []
  insert x (y ∷ ys) = let rest = insert x ys in if less y x then y ∷ rest else x ∷ y ∷ ys

  unfoldable pub sort_slice : List A → List A
  unfolding insert
  sort_slice [] = []
  sort_slice (x ∷ xs) = insert x (sort_slice xs)

-- xs[k], which panics out of range.
unfoldable pub get_elem? : {A : Type 0} → List A → ℕ → Option A
get_elem? [] k = none
get_elem? (x ∷ xs) zero = some x
get_elem? (x ∷ xs) (suc k) = get_elem? xs k

unfoldable pub count : {A : Type 0} → (A → Bool) → List A → ℕ
count test [] = 0
count test (x ∷ xs) = let rest = count test xs in if test x then rest + 1 else rest

module _ {A : Type 0} (key : A → ℕ) where
  abbrev pub by_key : A → A → Bool
  by_key a b = ltb (key a) (key b)

  -- How many are below a value, and how many are not above it.
  abbrev pub below : A → List A → ℕ
  below v xs = count (λ x. ltb (key x) (key v)) xs

  abbrev pub upto : A → List A → ℕ
  upto v xs = count (λ x. leb (key x) (key v)) xs

  abbrev IsSorted : List A → Type 0
  IsSorted [] = Unit
  IsSorted (x ∷ xs) = All (λ y. key x ≤ key y) xs × IsSorted xs

  insert-All : (P : A → Type 0) (x : A) (xs : List A) → P x → All P xs → All P (insert by_key x xs)
  unfolding insert
  insert-All P x [] p h = (p, tt)
  insert-All P x (y ∷ ys) p h = ground (arith, insert-All P x ys p h.1)

  All-weaken : (m n : ℕ) (xs : List A) → m ≤ n → All (λ y. n ≤ key y) xs → All (λ y. m ≤ key y) xs
  All-weaken m n [] le h = tt
  All-weaken m n (x ∷ xs) le h = (omega (arith, h.0), All-weaken m n xs le h.1)

  insert-IsSorted : (x : A) (xs : List A) → IsSorted xs → IsSorted (insert by_key x xs)
  unfolding insert
  insert-IsSorted x [] h = (tt, tt)
  insert-IsSorted x (y ∷ ys) h = elim (Bool-cases (ltb (key y) (key x))) [
    | inl e ↦
        rw e (insert-All (λ z. key y ≤ key z) x ys (ground arith) h.0, insert-IsSorted x ys h.1)
    | inr e ↦ rw e ((ground arith, All-weaken (key x) (key y) ys (ground arith) h.0), h)
  ]

  sort_slice-IsSorted : (xs : List A) → IsSorted (sort_slice by_key xs)
  unfolding sort_slice
  sort_slice-IsSorted [] = tt
  sort_slice-IsSorted (x ∷ xs) = insert-IsSorted x (sort_slice by_key xs) (sort_slice-IsSorted xs)

module _ {A : Type 0} (less : A → A → Bool) (test : A → Bool) where
  count-insert : (x : A) (xs : List A) → count test (insert less x xs) ≡ count test (x ∷ xs)
  unfolding count insert
  count-insert x [] = refl
  count-insert x (y ∷ ys) = ground (arith, count-insert x ys)

  count-sort_slice : (xs : List A) → count test (sort_slice less xs) ≡ count test xs
  unfolding count sort_slice
  count-sort_slice [] = refl
  count-sort_slice (x ∷ xs) =
      ground (arith, count-insert x (sort_slice less xs), count-sort_slice xs)

module _ {A : Type 0} (less : A → A → Bool) where
  length-insert : (x : A) (xs : List A) → length (insert less x xs) ≡ suc (length xs)
  unfolding insert
  length-insert x [] = refl
  length-insert x (y ∷ ys) = ground (arith, length-insert x ys)

  pub length-sort_slice : (xs : List A) → length (sort_slice less xs) ≡ length xs
  unfolding sort_slice
  length-sort_slice [] = refl
  length-sort_slice (x ∷ xs) =
      omega (arith, length-insert x (sort_slice less xs), length-sort_slice xs)

module _ {A : Type 0} where
  pub get_elem?-All :
      (P : A → Type 0) (xs : List A) (k : ℕ) (v : A) → All P xs → get_elem? xs k ≡ some v → P v
  unfolding get_elem?
  get_elem?-All P [] k v h e = cc
  get_elem?-All P (x ∷ xs) zero v h e = subst P (some-injective x v e) h.0
  get_elem?-All P (x ∷ xs) (suc k) v h e = get_elem?-All P xs k v h.1 e

  pub get_elem?-exists : (xs : List A) (k : ℕ) → k < length xs → (v : A) × (get_elem? xs k ≡ some v)
  unfolding get_elem?
  get_elem?-exists [] k h = absurd (omega (arith, h))
  get_elem?-exists (x ∷ xs) zero h = (x, refl)
  get_elem?-exists (x ∷ xs) (suc k) h = get_elem?-exists xs k (omega (arith, h))

-- An entry that a test accepts is counted.
get_elem?-count :
    {A : Type 0} (test : A → Bool) (xs : List A) (k : ℕ) (v : A)
    → test v ≡ true
    → get_elem? xs k ≡ some v
    → 0 < count test xs
unfolding get_elem? count
get_elem?-count test [] k v t e = cc
get_elem?-count test (x ∷ xs) zero v t e =
    let accepted : test x ≡ true = subst (λ w. test w ≡ true) (sym (some-injective x v e)) t in
    ground arith
get_elem?-count test (x ∷ xs) (suc k) v t e = ground (arith, get_elem?-count test xs k v t e)

pub sort_slice-count :
    {A : Type 0} (less : A → A → Bool) (test : A → Bool) (xs : List A) (k : ℕ) (v : A)
    → test v ≡ true
    → get_elem? (sort_slice less xs) k ≡ some v
    → 0 < count test xs
sort_slice-count less test xs k v t e =
    rw (count-sort_slice less test xs) at (get_elem?-count test (sort_slice less xs) k v t e)

module _ {A : Type 0} (key : A → ℕ) where
  below-none : (v : A) (xs : List A) → All (λ y. key v ≤ key y) xs → below key v xs ≡ 0
  unfolding count
  below-none v [] h = refl
  below-none v (x ∷ xs) h = ground (arith, below-none v xs h.1, h.0)

  first-rank :
      (x : A) (xs : List A)
      → IsSorted key (x ∷ xs)
      → (below key x (x ∷ xs) ≤ 0) × (0 < upto key x (x ∷ xs))
  unfolding count
  first-rank x xs h = let none_below = below-none x xs h.0 in (ground arith, ground arith)

  -- In a sorted list, the entry at an index has at most that many below it, and more not above it.
  get_elem?-rank :
      (xs : List A) (k : ℕ) (v : A)
      → IsSorted key xs
      → get_elem? xs k ≡ some v
      → (below key v xs ≤ k) × (k < upto key v xs)
  unfolding get_elem? count
  get_elem?-rank [] k v h e = cc
  get_elem?-rank (x ∷ xs) zero v h e =
      subst (λ w. (below key w (x ∷ xs) ≤ 0) × (0 < upto key w (x ∷ xs))) (some-injective x v e)
        (first-rank x xs h)
  get_elem?-rank (x ∷ xs) (suc k) v h e =
      let (b, u) = get_elem?-rank xs k v h.1 e in
      let le = get_elem?-All (λ y. key x ≤ key y) xs k v h.0 e in (ground arith, ground arith)

  -- The entry at an index of the sorted list, by its rank in the list as it was.
  pub sort_slice-rank :
      (xs : List A) (k : ℕ) (v : A)
      → get_elem? (sort_slice (by_key key) xs) k ≡ some v
      → (below key v xs ≤ k) × (k < upto key v xs)
  sort_slice-rank xs k v e =
      let (b, u) = get_elem?-rank (sort_slice (by_key key) xs) k v (sort_slice-IsSorted key xs) e in
      (rw (count-sort_slice (by_key key) _ xs) at b, rw (count-sort_slice (by_key key) _ xs) at u)

  -- What nothing is below bounds the list from below, and what all are not above, from above.
  pub below-All : (v : A) (xs : List A) → below key v xs ≤ 0 → All (λ x. key v ≤ key x) xs
  unfolding count
  below-All v [] h = tt
  below-All v (x ∷ xs) h = (ground arith, below-All v xs (ground arith))

  upto-bounded : (v : A) (xs : List A) → upto key v xs ≤ length xs
  unfolding count
  upto-bounded v [] = omega arith
  upto-bounded v (x ∷ xs) = ground (arith, upto-bounded v xs)

  pub upto-All : (v : A) (xs : List A) → length xs ≤ upto key v xs → All (λ x. key x ≤ key v) xs
  unfolding count
  upto-All v [] h = tt
  upto-All v (x ∷ xs) h =
      (ground (arith, upto-bounded v xs), upto-All v xs (ground (arith, upto-bounded v xs)))
