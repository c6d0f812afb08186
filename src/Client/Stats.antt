-- ===== src/Client/Stats.antt =====
-- client/ws/client.go: what `sendStats` computes from the latencies of one connection, and
-- `GetOverAllStats` from the statistics of all. `F` stands for float64.
pub mod Percentiles
pub mod Mean
use chatflow.Prelude.{
  ℕ, ◌+◌, ◌-◌, ◌*◌, ◌/◌, String, Bool, true, false, Option, none, some, List, [], ◌∷◌, ◌++◌, map,
  ltb, eqb, if◌then◌else◌,
}
use chatflow.Prelude.Chan.{Chan, Offer, sent, full, panicked, try_send}
use chatflow.Prelude.Dict.{Dict, get, put}
use chatflow.Prelude.Int64.{Int64, biased, add_int64, div_int64}
use chatflow.Prelude.Seq.{length}
use chatflow.Prelude.Sort.{by_key, sort_slice, get_elem?}

pub record RoomStats (F : Type 0) : Type 0 where
  pub room_id : String
  pub user_id : String
  pub message_count : ℕ
  pub mean_latency : Int64
  pub median_latency : Int64
  pub percentile95_latency : Int64
  pub percentile99_latency : Int64
  pub min_latency : Int64
  pub max_latency : Int64
  pub through_put : F
  pub message_types : Dict ℕ

-- `int(float64(n) * 0.95)`. The factors are the doubles next to 0.95 and 0.99, and below `2 ^ 40` the
-- products are rounded down to these quotients.
abbrev pub percentile95 : ℕ → ℕ
percentile95 n = n * 95 / 100

abbrev pub percentile99 : ℕ → ℕ
percentile99 n = n * 99 / 100

-- `for _, l := range ls { total += l }`
unfoldable pub total_of : Int64 → List Int64 → Int64
total_of total [] = total
total_of total (l ∷ ls) = total_of (add_int64 total l) ls

-- `sort.Slice` with `latencies[i] < latencies[j]`.
abbrev pub sorted : List Int64 → List Int64
sorted latencies = sort_slice (by_key biased) latencies

pub record Quantiles : Type 0 where
  pub mean : Int64
  pub median : Int64
  pub p95 : Int64
  pub p99 : Int64
  pub least : Int64
  pub greatest : Int64

infixl 5 ◌>>=◌
abbrev pub ◌>>=◌ : {A B : Type 0} → Option A → (A → Option B) → Option B
none >>= f = none
some a >>= f = f a

-- The statistics of `n` sorted latencies with their total; `none` is the panic of an index out of
-- range.
unfoldable pub quantiles : Int64 → ℕ → List Int64 → Option Quantiles
unfolding get_elem?
quantiles total n latencies = do
  median ← get_elem? latencies (n / 2)
  p95 ← get_elem? latencies (percentile95 n)
  p99 ← get_elem? latencies (percentile99 n)
  least ← get_elem? latencies 0
  greatest ← get_elem? latencies (n - 1)
  some (record {
    mean = div_int64 total n;
    median = median;
    p95 = p95;
    p99 = p99;
    least = least;
    greatest = greatest;
  })

-- What the messages of one connection came to, when `sendStats` is called.
pub record Tally : Type 0 where
  pub users_seen : Dict (Unit {0})
  pub received : ℕ
  pub total_latency : Int64
  pub latencies : List Int64
  pub message_types : Dict ℕ

abbrev pub room_stats : {F : Type 0} → String → String → Tally → F → Quantiles → RoomStats F
room_stats room_id user_id t through_put q = record {
  room_id = room_id;
  user_id = user_id;
  message_count = t.received;
  mean_latency = q.mean;
  median_latency = q.median;
  percentile95_latency = q.p95;
  percentile99_latency = q.p99;
  min_latency = q.least;
  max_latency = q.greatest;
  through_put = through_put;
  message_types = t.message_types;
}

-- What comes of `sendStats`: no latency and nothing sent, the statistics in `statsChan`, a send that
-- waits for space in it, or the panic of an index out of range or of a send into the closed channel.
pub data StatsSend (F : Type 0) : Type 0 where
  no_stats : StatsSend F
  passed_on : Chan (RoomStats F) → StatsSend F
  stuck : RoomStats F → StatsSend F
  panics : StatsSend F

abbrev pub offer_stats : {F : Type 0} → RoomStats F → Offer (RoomStats F) → StatsSend F
offer_stats stats (sent chan) = passed_on chan
offer_stats stats full = stuck stats
offer_stats stats panicked = panics

-- `through_put` is the number of latencies by the time that the clock says has passed, and the last
-- argument is `statsChan` as the send finds it.
unfoldable pub send_stats :
    {F : Type 0} → String → String → (ℕ → F) → Tally → Chan (RoomStats F) → StatsSend F
unfolding quantiles
send_stats room_id user_id through_put t stats_chan =
    let n = length t.latencies in
    elim (eqb n 0) [
      | true ↦ no_stats
      | false ↦ elim (quantiles t.total_latency n (sorted t.latencies)) [
        | none ↦ panics
        | some q ↦
            let stats = room_stats room_id user_id t (through_put n) q in
            offer_stats stats (try_send stats_chan stats)
      ]
    ]
