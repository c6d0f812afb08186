-- ===== src/Client/Reader/Figures.antt =====
-- client/ws/client.go: the figures that the goroutine that reads sends, by what it has received.
use chatflow.Prelude.{ℕ, ◌≤◌, ◌<◌, ◌≡◌, ◌∙◌, ap, List}
use chatflow.Prelude.Int64.{div_int64}
use chatflow.Prelude.Seq.{length, All}
use chatflow.Client.Stats.{RoomStats, Quantiles, send_stats, offer_stats, room_stats}
use chatflow.Prelude.Chan.{Chan, try_send}
use chatflow.Client.Stats.Percentiles.{send_stats-offer}
use chatflow.Client.Stats.Mean.{max_latency, max_count, IsSummary-mean}
use chatflow.Client.Reader.{Listener, ReadEvent, new_reader}
use chatflow.Client.Reader.Ends.{take_all}
use chatflow.Client.Reader.Books.{take_all-Books, no_books}

-- If at least one and at most 2^20 latencies were taken, each non-negative and below 2^43
-- milliseconds, then `sendStats` offers one element to `statsChan`, and the mean in it lies between the least and
-- the greatest latency.
pub send_stats-mean :
    {F : Type 0} (l : Listener) (through_put : ℕ → F) (events : List ReadEvent)
    (stats_chan : Chan (RoomStats F))
    → 1 ≤ length (take_all l new_reader events).tally.latencies
    → length (take_all l new_reader events).tally.latencies ≤ max_count
    → All (λ latency. latency < max_latency) (take_all l new_reader events).tally.latencies
    → let t = (take_all l new_reader events).tally in
      (q : Quantiles) × (let stats =
          room_stats l.room_id l.user_id t (through_put (length t.latencies)) q in
        send_stats l.room_id l.user_id through_put t stats_chan
        ≡ offer_stats stats (try_send stats_chan stats))
      × (q.least ≤ q.mean)
      × (q.mean ≤ q.greatest)
send_stats-mean l through_put events stats_chan some_left few small =
    let t = (take_all l new_reader events).tally in
    let books = take_all-Books l 0 new_reader events (no_books l) in
    let (q, e, h, mean) = send_stats-offer l.room_id l.user_id through_put t stats_chan some_left in
    let (low, high) =
      IsSummary-mean t.latencies q some_left few small h
        (mean ∙ ap (λ total. div_int64 total (length t.latencies)) books.summed) in
    (q, e, low, high)
