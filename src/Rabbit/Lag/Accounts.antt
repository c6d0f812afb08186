-- ===== src/Rabbit/Lag/Accounts.antt =====
-- internal/rabbitmq/server.go: what the reported lags add up to.
use chatflow.Prelude.{
  ℕ, zero, suc, ◌+◌, ◌%◌, ◌^◌, ◌<◌, ◌≤◌, ◌≡◌, refl, subst, sym, ap, ◌∙◌, true, false, Option, none,
  some, List, [], ◌∷◌, arith, ◌⊎◌, inl, inr, Bool-cases, if◌then◌else◌,
}
use chatflow.Prelude.Seq.{length, All}
use chatflow.Prelude.Int64.{Int64, add_int64, less_int64, biased}
use chatflow.Prelude.Store.{incr, int64_mod}
use chatflow.Rabbit.Lag.{
  LagReport, LagMeter, LagEvent, adds_lag, counts_sample, swaps_count, swaps_total, new_lag_meter,
  count_sample, swap_count, swap_total, meter_step, run_meter,
}

-- The lags that are measured.
abbrev pub lags : List LagEvent → List Int64
lags [] = []
lags (adds_lag lag ∷ events) = lag ∷ lags events
lags (counts_sample ∷ events) = lags events
lags (swaps_count ∷ events) = lags events
lags (swaps_total ∷ events) = lags events

abbrev pub sum : List Int64 → ℕ
sum [] = 0
sum (lag ∷ rest) = lag + sum rest

abbrev pub lag_sums : List LagReport → ℕ
lag_sums [] = 0
lag_sums (r ∷ reports) = r.lag_sum + lag_sums reports

abbrev pub all_samples : List LagReport → ℕ
all_samples [] = 0
all_samples (r ∷ reports) = r.samples + all_samples reports

abbrev pub taken : Option Int64 → ℕ
taken none = 0
taken (some count) = count

abbrev HasSample : Option Int64 → Type 0
HasSample none = Unit
HasSample (some count) = 1 ≤ count

abbrev pub IsDivisor : LagReport → Type 0
IsDivisor r = 1 ≤ r.samples

-- The books after `n` lags with the sum `total`.
record IsMetered (total n : ℕ) (m : LagMeter) : Type 0 where
  summed : (lag_sums m.reports + m.total_lag_ms) % int64_mod ≡ total % int64_mod
  counted : all_samples m.reports + taken m.swapped + m.lag_sample_count + m.uncounted ≡ n
  divides : All IsDivisor m.reports
  sampled : HasSample m.swapped

recount :
    {m : LagMeter} (total other n k : ℕ)
    → total ≡ other
    → n ≡ k
    → IsMetered total n m
    → IsMetered other k m
recount total other n k e f d = record {
  summed = d.summed ∙ ap (λ x. x % int64_mod) e;
  counted = d.counted ∙ f;
  divides = d.divides;
  sampled = d.sampled;
}

biased_small : (count : Int64) → count < 2 ^ 63 → biased count ≡ count + 2 ^ 63
unfolding biased
biased_small count h = omega arith

-- Below 2^63, a count is positive or zero.
sample_or_none :
    (count : Int64)
    → count < 2 ^ 63
    → ((less_int64 0 count ≡ true) × (1 ≤ count)) ⊎ ((less_int64 0 count ≡ false) × (count ≡ 0))
sample_or_none count h = elim (Bool-cases (less_int64 0 count)) [
  | inl e ↦ inl (e, ground (arith, biased_small count h, biased_small 0 (omega arith)))
  | inr e ↦ inr (e, ground (arith, biased_small count h, biased_small 0 (omega arith)))
]

sum_mod :
    (reported left total lag : ℕ)
    → (reported + left) % int64_mod ≡ total % int64_mod
    → (reported + add_int64 left lag) % int64_mod ≡ (lag + total) % int64_mod
sum_mod reported left total lag h = omega arith

count_sample-IsMetered :
    (total n : ℕ) (m : LagMeter) (k : ℕ)
    → n < 2 ^ 63
    → m.uncounted ≡ k
    → IsMetered total n m
    → IsMetered total n (count_sample m k)
unfolding count_sample incr
count_sample-IsMetered total n m zero h e d = d
count_sample-IsMetered total n m (suc k) h e d = record {
  summed = d.summed;
  counted = omega (arith, d.counted, h, e);
  divides = d.divides;
  sampled = d.sampled;
}

swap_count-IsMetered :
    (total n : ℕ) (m : LagMeter) (o : Option Int64)
    → n < 2 ^ 63
    → m.swapped ≡ o
    → IsMetered total n m
    → IsMetered total n (swap_count m o)
unfolding swap_count
swap_count-IsMetered total n m (some count) h e d = d
swap_count-IsMetered total n m none h e d =
    elim (sample_or_none m.lag_sample_count (omega (arith, h, d.counted))) [
      | inl (b, some_left) ↦
          subst
            (λ c. IsMetered total n (record m {
              lag_sample_count = 0;
              swapped = if c then some m.lag_sample_count else none;
            }))
            (sym b)
            (record {
              summed = d.summed;
              counted = omega (arith, d.counted, ap taken e);
              divides = d.divides;
              sampled = some_left;
            })
      | inr (b, zero_left) ↦
          subst
            (λ c. IsMetered total n (record m {
              lag_sample_count = 0;
              swapped = if c then some m.lag_sample_count else none;
            }))
            (sym b)
            (record {
              summed = d.summed;
              counted = omega (arith, d.counted, zero_left, ap taken e);
              divides = d.divides;
              sampled = tt;
            })
    ]

swap_total-IsMetered :
    (total n : ℕ) (m : LagMeter) (o : Option Int64)
    → m.swapped ≡ o
    → IsMetered total n m
    → IsMetered total n (swap_total m o)
unfolding swap_total
swap_total-IsMetered total n m none e d = d
swap_total-IsMetered total n m (some count) e d = record {
  summed = omega (arith, d.summed);
  counted = omega (arith, d.counted, ap taken e);
  divides = (subst HasSample e d.sampled, d.divides);
  sampled = tt;
}

meter_step-IsMetered :
    (total n : ℕ) (m : LagMeter) (e : LagEvent)
    → n + length (lags (e ∷ [])) < 2 ^ 63
    → IsMetered total n m
    → IsMetered (sum (lags (e ∷ [])) + total) (n + length (lags (e ∷ []))) (meter_step m e)
unfolding meter_step
meter_step-IsMetered total n m (adds_lag lag) h d = record {
  summed =
      sum_mod (lag_sums m.reports) m.total_lag_ms total lag d.summed
      ∙ ap (λ x. x % int64_mod) (omega arith);
  counted = omega (arith, d.counted);
  divides = d.divides;
  sampled = d.sampled;
}
meter_step-IsMetered total n m counts_sample h d =
    recount total _ n _ (omega arith) (omega arith)
      (count_sample-IsMetered total n m m.uncounted (omega arith) refl d)
meter_step-IsMetered total n m swaps_count h d =
    recount total _ n _ (omega arith) (omega arith)
      (swap_count-IsMetered total n m m.swapped (omega arith) refl d)
meter_step-IsMetered total n m swaps_total h d =
    recount total _ n _ (omega arith) (omega arith)
      (swap_total-IsMetered total n m m.swapped refl d)

lags_cons :
    (e : LagEvent) (events : List LagEvent)
    → (sum (lags (e ∷ events)) ≡ sum (lags events) + sum (lags (e ∷ [])))
      × (length (lags (e ∷ events)) ≡ length (lags (e ∷ [])) + length (lags events))
lags_cons (adds_lag lag) events = (omega arith, omega arith)
lags_cons counts_sample events = (omega arith, omega arith)
lags_cons swaps_count events = (omega arith, omega arith)
lags_cons swaps_total events = (omega arith, omega arith)

run_meter-IsMetered :
    (total n : ℕ) (m : LagMeter) (events : List LagEvent)
    → n + length (lags events) < 2 ^ 63
    → IsMetered total n m
    → IsMetered (sum (lags events) + total) (n + length (lags events)) (run_meter m events)
unfolding run_meter
run_meter-IsMetered total n m [] h d = recount total _ n _ (omega arith) (omega arith) d
run_meter-IsMetered total n m (e ∷ events) h d =
    let (sums, lengths) = lags_cons e events in
    let first = meter_step-IsMetered total n m e (omega (arith, h, lengths)) d in
    let rest =
      run_meter-IsMetered (sum (lags (e ∷ [])) + total) (n + length (lags (e ∷ [])))
        (meter_step m e) events (omega (arith, h, lengths)) first in
    recount (sum (lags events) + (sum (lags (e ∷ [])) + total)) (sum (lags (e ∷ events)) + total)
      (n + length (lags (e ∷ [])) + length (lags events)) (n + length (lags (e ∷ events)))
      (omega (arith, sums)) (omega (arith, lengths)) rest

-- If fewer than 2^63 lags are measured, then whatever the interleaving of the goroutines that measure them and
-- the monitor, the sums of the reports and the sum that waits are, modulo 2^64, the sum of all lags; their
-- samples, those that wait and the lags without one yet are as many as the lags; and every report has a sample,
-- so that its average does not divide by zero.
pub run_meter-accounts :
    (events : List LagEvent)
    → length (lags events) < 2 ^ 63
    → let m = run_meter new_lag_meter events in
      ((lag_sums m.reports + m.total_lag_ms) % int64_mod ≡ sum (lags events) % int64_mod)
      × (all_samples m.reports + taken m.swapped + m.lag_sample_count + m.uncounted
          ≡ length (lags events))
      × All IsDivisor m.reports
run_meter-accounts events h =
    let d = run_meter-IsMetered 0 0 new_lag_meter events (omega arith) new_lag_meter-IsMetered in
    (d.summed ∙ ap (λ x. x % int64_mod) (omega arith), d.counted ∙ omega arith, d.divides)
  where
    new_lag_meter-IsMetered : IsMetered 0 0 new_lag_meter
    new_lag_meter-IsMetered = record { summed = refl; counted = refl; divides = tt; sampled = tt }
