-- ===== src/Client/Stats/Mean.antt =====
-- client/ws/client.go: the mean of `sendStats`.
use native.Mathlib.Nat.{le-div_iff_mul-le, div-le_of_le-mul, suc-mul, mul_comm}
use chatflow.Prelude.{
  ℕ, suc, ◌+◌, ◌-◌, ◌*◌, ◌^◌, ◌≤◌, ◌<◌, ◌≡◌, subst, ap, ◌∙◌, List, [], ◌∷◌, arith, eqb, lt→ltb, inl,
  inr, Bool-cases,
}
use chatflow.Prelude.Int64.{Int64, biased, div_int64}
use chatflow.Prelude.Seq.{length, All, All-map}
use chatflow.Prelude.Store.{eqb→eq}
use chatflow.Prelude.Sort.{count}
use chatflow.Client.Stats.{Quantiles, total_of}
use chatflow.Client.Stats.Percentiles.{IsSummary}

-- Some 278 years in milliseconds; so many latencies of at most that length sum up to less than
-- `2 ^ 63`.
abbrev pub max_latency : ℕ
max_latency = 2 ^ 43

abbrev pub max_count : ℕ
max_count = 2 ^ 20

abbrev pub sum : List ℕ → ℕ
sum [] = 0
sum (l ∷ ls) = l + sum ls

sum-le : (g : ℕ) (ls : List ℕ) → All (λ l. l ≤ g) ls → sum ls ≤ length ls * g
sum-le g [] h = omega arith
sum-le g (l ∷ ls) h = omega (arith, suc-mul (length ls) g, sum-le g ls h.1, h.0)

le-sum : (m : ℕ) (ls : List ℕ) → All (λ l. m ≤ l) ls → m * length ls ≤ sum ls
le-sum m [] h = omega arith
le-sum m (l ∷ ls) h = omega (
  arith,
  mul_comm m (suc (length ls)),
  mul_comm m (length ls),
  suc-mul (length ls) m,
  le-sum m ls h.1,
  h.0,
)

total_of_lem : (acc : ℕ) (ls : List ℕ) → acc + sum ls < 2 ^ 64 → total_of acc ls ≡ acc + sum ls
unfolding total_of
total_of_lem acc [] h = omega arith
total_of_lem acc (l ∷ ls) h =
    ap (λ a. total_of a ls) (omega arith) ∙ total_of_lem (acc + l) ls (omega arith) ∙ omega arith

-- What holds of all entries holds of one that is counted among them.
count-All : (P : ℕ → Type 0) (v : ℕ) (xs : List ℕ) → All P xs → 0 < count (λ x. eqb x v) xs → P v
unfolding count
count-All P v [] h c = absurd (omega (arith, c))
count-All P v (x ∷ xs) h c = elim (Bool-cases (eqb x v)) [
  | inl e ↦ subst P (eqb→eq x v e) h.0
  | inr e ↦ count-All P v xs h.1 (rw e at c)
]

All-and :
    (P Q T : ℕ → Type 0) (xs : List ℕ)
    → ((x : ℕ) → P x → Q x → T x)
    → All P xs
    → All Q xs
    → All T xs
All-and P Q T [] f h k = tt
All-and P Q T (x ∷ xs) f h k = (f x h.0 k.0, All-and P Q T xs f h.1 k.1)

biased_small : (x : ℕ) → x < max_latency → biased x ≡ x + 2 ^ 63
unfolding biased
biased_small x h = omega arith

mean_bounds :
    (ls : List ℕ) (least greatest : ℕ)
    → 1 ≤ length ls
    → sum ls < 2 ^ 63
    → All (λ l. least ≤ l) ls
    → All (λ l. l ≤ greatest) ls
    → (least ≤ div_int64 (sum ls) (length ls)) × (div_int64 (sum ls) (length ls) ≤ greatest)
unfolding div_int64
mean_bounds ls least greatest some_left small low high = rw (lt→ltb (sum ls) (2 ^ 63) small) (
  (le-div_iff_mul-le some_left).1 (le-sum least ls low),
  div-le_of_le-mul (length ls) (sum-le greatest ls high),
)

small-sum : (ls : List ℕ) → length ls ≤ max_count → All (λ l. l < max_latency) ls → sum ls < 2 ^ 63
small-sum ls few small = omega (
  arith,
  few,
  sum-le (max_latency - 1) ls (
      All-map (λ l. l < max_latency) (λ l. l ≤ max_latency - 1) ls (λ l h. omega (arith, h)) small),
)

-- The figures of latencies that are short and few.
pub IsSummary-mean :
    (ls : List Int64) (q : Quantiles)
    → 1 ≤ length ls
    → length ls ≤ max_count
    → All (λ l. l < max_latency) ls
    → IsSummary ls q
    → q.mean ≡ div_int64 (total_of 0 ls) (length ls)
    → (q.least ≤ q.mean) × (q.mean ≤ q.greatest)
IsSummary-mean ls q some_left few small h e =
    let total : sum ls < 2 ^ 63 = small-sum ls few small in
    let least_small = count-All (λ l. l < max_latency) q.least ls small h.least_rank.taken in
    let greatest_small =
      count-All (λ l. l < max_latency) q.greatest ls small h.greatest_rank.taken in
    let exact : total_of 0 ls ≡ sum ls = total_of_lem 0 ls (omega (arith, total)) ∙ omega arith in
    rw (e, exact)
      (mean_bounds ls q.least q.greatest some_left total
        (All-and (λ l. l < max_latency) (λ l. biased q.least ≤ biased l) (λ l. q.least ≤ l) ls
          (λ l s b. omega (arith, b, biased_small l s, biased_small q.least least_small)) small
          h.least_bounds)
        (All-and (λ l. l < max_latency) (λ l. biased l ≤ biased q.greatest) (λ l. l ≤ q.greatest) ls
          (λ l s b. omega (arith, b, biased_small l s, biased_small q.greatest greatest_small))
          small h.greatest_bounds))
