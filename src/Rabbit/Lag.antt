-- ===== src/Rabbit/Lag.antt =====
-- internal/rabbitmq/server.go: the lag that the consumer goroutines measure and `startMonitoring`
-- logs. The two counters are atomic one by one, so that the goroutines interleave between them.
pub mod Accounts
use chatflow.Prelude.{
  ℕ, zero, suc, ◌+◌, ◌%◌, Bool, Option, none, some, List, [], ◌∷◌, if◌then◌else◌,
}
use chatflow.Prelude.Int64.{Int64, add_int64, less_int64, div_int64}
use chatflow.Prelude.Store.{incr}

-- What `startMonitoring` took out of the two counters for a line of its log.
pub record LagReport : Type 0 where
  pub lag_sum : Int64
  pub samples : Int64

-- `uncounted` goroutines have added their lag, but not yet their sample; `swapped` is the count that
-- `startMonitoring` has taken, but not yet its lag. The last report comes first.
pub record LagMeter : Type 0 where
  pub total_lag_ms : Int64
  pub lag_sample_count : Int64
  pub uncounted : ℕ
  pub swapped : Option Int64
  pub reports : List LagReport

abbrev pub new_lag_meter : LagMeter
new_lag_meter = record {
  total_lag_ms = 0;
  lag_sample_count = 0;
  uncounted = 0;
  swapped = none;
  reports = [];
}

pub data LagEvent : Type 0 where
  adds_lag : Int64 → LagEvent
  counts_sample : LagEvent
  swaps_count : LagEvent
  swaps_total : LagEvent

unfoldable pub count_sample : LagMeter → ℕ → LagMeter
count_sample m zero = m
count_sample m (suc others) = record m {
  lag_sample_count = incr m.lag_sample_count;
  uncounted = others;
}

-- A tick: without a sample, there is no report.
unfoldable pub swap_count : LagMeter → Option Int64 → LagMeter
swap_count m (some count) = m
swap_count m none = record m {
  lag_sample_count = 0;
  swapped = if less_int64 0 m.lag_sample_count then some m.lag_sample_count else none;
}

unfoldable pub swap_total : LagMeter → Option Int64 → LagMeter
swap_total m none = m
swap_total m (some count) = record m {
  total_lag_ms = 0;
  swapped = none;
  reports = record { lag_sum = m.total_lag_ms; samples = count } ∷ m.reports;
}

abbrev pub avg_lag : LagReport → Int64
avg_lag r = div_int64 r.lag_sum r.samples

unfoldable pub meter_step : LagMeter → LagEvent → LagMeter
unfolding count_sample swap_count swap_total
meter_step m (adds_lag lag) = record m {
  total_lag_ms = add_int64 m.total_lag_ms lag;
  uncounted = suc m.uncounted;
}
meter_step m counts_sample = count_sample m m.uncounted
meter_step m swaps_count = swap_count m m.swapped
meter_step m swaps_total = swap_total m m.swapped

unfoldable pub run_meter : LagMeter → List LagEvent → LagMeter
unfolding meter_step
run_meter m [] = m
run_meter m (e ∷ events) = run_meter (meter_step m e) events
