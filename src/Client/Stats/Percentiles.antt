-- ===== src/Client/Stats/Percentiles.antt =====
-- client/ws/client.go: what the figures of `sendStats` say of the latencies.
use chatflow.Prelude.{
  ℕ, ◌-◌, ◌*◌, ◌/◌, ◌≤◌, ◌<◌, String, ◌≡◌, refl, sym, subst, some, List, [], ◌∷◌, arith, eqb, inl,
  inr, Bool-cases, ltb, true, false,
}
use chatflow.Prelude.Chan.{Chan, push, try_send, try_send-cases}
use chatflow.Prelude.Int64.{Int64, biased, div_int64}
use chatflow.Prelude.Store.{eqb_refl}
use chatflow.Prelude.Seq.{length, All}
use chatflow.Prelude.Sort.{
  by_key, get_elem?, get_elem?-exists, below, upto, count, length-sort_slice, sort_slice-rank,
  sort_slice-count, below-All, upto-All,
}
use chatflow.Client.Stats.{
  RoomStats, StatsSend, passed_on, stuck, panics, offer_stats, Quantiles, Tally, quantiles,
  send_stats, room_stats, sorted, percentile95, percentile99,
}

-- `v` is one of the values; at most `k` of them are below it, and more than `k` not above it.
pub record HasRank (xs : List Int64) (k : ℕ) (v : Int64) : Type 0 where
  pub taken : 0 < count (λ x. eqb x v) xs
  pub few_below : below biased v xs ≤ k
  pub many_upto : k < upto biased v xs

pub record IsSummary (xs : List Int64) (q : Quantiles) : Type 0 where
  pub median_rank : HasRank xs (length xs / 2) q.median
  pub p95_rank : HasRank xs (length xs * 95 / 100) q.p95
  pub p99_rank : HasRank xs (length xs * 99 / 100) q.p99
  pub least_rank : HasRank xs 0 q.least
  pub greatest_rank : HasRank xs (length xs - 1) q.greatest
  pub least_bounds : All (λ x. biased q.least ≤ biased x) xs
  pub greatest_bounds : All (λ x. biased x ≤ biased q.greatest) xs
  pub median_p95 : biased q.median ≤ biased q.p95
  pub p95_p99 : biased q.p95 ≤ biased q.p99

upto-below :
    (v w : Int64) (xs : List Int64) → biased v < biased w → upto biased v xs ≤ below biased w xs
unfolding count
upto-below v w [] h = omega arith
upto-below v w (x ∷ xs) h = ground (arith, upto-below v w xs h)

-- A higher rank is held by no lower value.
HasRank-ordered :
    (xs : List Int64) (j k : ℕ) (v w : Int64)
    → j ≤ k
    → HasRank xs j v
    → HasRank xs k w
    → biased v ≤ biased w
HasRank-ordered xs j k v w le a b = elim (Bool-cases (ltb (biased w) (biased v))) [
  | inl e ↦ absurd (omega (arith, upto-below w v xs (ground arith), a.few_below, b.many_upto, le))
  | inr e ↦ ground arith
]

pub sorted-elem :
    (xs : List Int64) (k : ℕ)
    → k < length xs
    → (v : Int64) × (get_elem? (sorted xs) k ≡ some v) × HasRank xs k v
sorted-elem xs k h =
    let (v, e) = get_elem?-exists (sorted xs) k (rw (length-sort_slice (by_key biased) xs) h) in
    let (b, u) = sort_slice-rank biased xs k v e in
    (
      v,
      e,
      record {
        taken = sort_slice-count (by_key biased) (λ x. eqb x v) xs k v (eqb_refl v) e;
        few_below = b;
        many_upto = u;
      },
    )

pub quantiles-IsSummary :
    (total : Int64) (xs : List Int64)
    → 1 ≤ length xs
    → (q : Quantiles) × (quantiles total (length xs) (sorted xs) ≡ some q)
      × IsSummary xs q
      × (q.mean ≡ div_int64 total (length xs))
unfolding quantiles
quantiles-IsSummary total xs some_left =
    let n = length xs in
    let (median, e1, r1) = sorted-elem xs (n / 2) (omega (arith, some_left)) in
    let (p95, e2, r2) = sorted-elem xs (percentile95 n) (omega (arith, some_left)) in
    let (p99, e3, r3) = sorted-elem xs (percentile99 n) (omega (arith, some_left)) in
    let (least, e4, r4) = sorted-elem xs 0 (omega (arith, some_left)) in
    let (greatest, e5, r5) = sorted-elem xs (n - 1) (omega (arith, some_left)) in
    let q : Quantiles = record {
      mean = div_int64 total n;
      median = median;
      p95 = p95;
      p99 = p99;
      least = least;
      greatest = greatest;
    } in
    (
      q,
      rw (e1, e2, e3, e4, e5) refl,
      record {
        median_rank = r1;
        p95_rank = r2;
        p99_rank = r3;
        least_rank = r4;
        greatest_rank = r5;
        least_bounds = below-All biased least xs r4.few_below;
        greatest_bounds = upto-All biased greatest xs (omega (arith, r5.many_upto));
        median_p95 = HasRank-ordered xs _ _ median p95 (omega arith) r1 r2;
        p95_p99 = HasRank-ordered xs _ _ p95 p99 (omega arith) r2 r3;
      },
      refl,
    )

eqb_pos : (n : ℕ) → 1 ≤ n → eqb n 0 ≡ false
eqb_pos n h = ground arith

-- With a latency, only the channel decides.
pub send_stats-offer :
    {F : Type 0} (room_id user_id : String) (through_put : ℕ → F) (t : Tally)
    (stats_chan : Chan (RoomStats F))
    → 1 ≤ length t.latencies
    → (q : Quantiles) × (let stats =
          room_stats room_id user_id t (through_put (length t.latencies)) q in
        send_stats room_id user_id through_put t stats_chan
        ≡ offer_stats stats (try_send stats_chan stats))
      × IsSummary t.latencies q
      × (q.mean ≡ div_int64 t.total_latency (length t.latencies))
unfolding send_stats
send_stats-offer room_id user_id through_put t stats_chan some_left =
    let (q, e, h, mean) = quantiles-IsSummary t.total_latency t.latencies some_left in
    (q, rw (eqb_pos (length t.latencies) some_left, send_stats, e) refl, h, mean)

-- What a send of `stats` comes to: it panics into a closed channel, waits for space in a full one,
-- and else puts the statistics behind what is in the channel.
pub data IsSent {F : Type 0} (chan : Chan (RoomStats F)) (stats : RoomStats F)
    : StatsSend F → Type 0 where
  goes :
      chan.closed ≡ false
      → length chan.queue < chan.cap
      → IsSent chan stats (passed_on (push chan stats))
  waits : chan.closed ≡ false → chan.cap ≤ length chan.queue → IsSent chan stats (stuck stats)
  fails : chan.closed ≡ true → IsSent chan stats panics

offer_stats-IsSent :
    {F : Type 0} (chan : Chan (RoomStats F)) (stats : RoomStats F)
    → IsSent chan stats (offer_stats stats (try_send chan stats))
unfolding try_send
offer_stats-IsSent chan stats = elim (Bool-cases chan.closed) [
  | inl closed ↦ subst (IsSent chan stats) (sym (rw (try_send, closed) refl)) (fails closed)
  | inr open_still ↦ elim (try_send-cases chan stats open_still) [
    | inl (e, room) ↦
        subst (λ o. IsSent chan stats (offer_stats stats o)) (sym e) (goes open_still room)
    | inr (e, no_room) ↦
        subst (λ o. IsSent chan stats (offer_stats stats o)) (sym e) (waits open_still no_room)
  ]
]

-- If there are n latencies and n is not 0, `sendStats` sends one element into `statsChan`, where it
-- panics exactly if the channel is closed, and waits if it is full. In the element, the
-- median, 95th and 99th percentile, minimum and maximum are latencies that were taken, with at most
-- n/2, n*95/100, n*99/100, 0 and n-1 of them below and more than that not above; the minimum and
-- the maximum bound all; median and percentiles are in order; and the mean is the total by n.
pub send_stats-IsSummary :
    {F : Type 0} (room_id user_id : String) (through_put : ℕ → F) (t : Tally)
    (stats_chan : Chan (RoomStats F))
    → 1 ≤ length t.latencies
    → (q : Quantiles) × IsSent stats_chan
        (room_stats room_id user_id t (through_put (length t.latencies)) q)
        (send_stats room_id user_id through_put t stats_chan)
      × IsSummary t.latencies q
      × (q.mean ≡ div_int64 t.total_latency (length t.latencies))
send_stats-IsSummary room_id user_id through_put t stats_chan some_left =
    let (q, e, h, mean) = send_stats-offer room_id user_id through_put t stats_chan some_left in
    let stats = room_stats room_id user_id t (through_put (length t.latencies)) q in
    (q, subst (IsSent stats_chan stats) (sym e) (offer_stats-IsSent stats_chan stats), h, mean)
