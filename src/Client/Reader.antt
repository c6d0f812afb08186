-- ===== src/Client/Reader.antt =====
-- client/ws/client.go: the goroutine of `WriteMessages` that reads what the server answers on one
-- connection, up to the user's own LEAVE.
pub mod Ends
pub mod Books
pub mod Figures
use chatflow.Prelude.{
  ℕ, String, ◌==◌, ◌&&◌, Bool, Option, none, some, List, [], ◌∷◌, ◌++◌, if◌then◌else◌,
}
use chatflow.Prelude.Dict.{Dict, get, put}
use chatflow.Prelude.Store.{incr}
use chatflow.Prelude.Int64.{Int64, add_int64}
use chatflow.Models.{MessageType, Response, message_type_join, message_type_leave}
use chatflow.Models.Metric.{Metric, new_metric}
use chatflow.Client.Stats.{
  RoomStats, StatsSend, no_stats, passed_on, stuck, panics, Tally, send_stats,
}
use chatflow.Prelude.Chan.{Chan, Offer, sent, full, panicked, try_send}

-- What the goroutine knows of its connection: `collect_metrics` is a field of the client.
pub record Listener : Type 0 where
  pub room_id : String
  pub user_id : String
  pub collect_metrics : Bool

-- `metrics` is what was sent to `metricChan`, in order.
pub record Reader : Type 0 where
  pub tally : Tally
  pub metrics : List Metric

-- What the `select` finds: a response in `Send`, with the milliseconds that the clock says have
-- passed since the time that a text stands for, if it stands for one, and with `metricChan` as a
-- send into it then finds it, by the time it has space or for good; `Send` closed; or the context
-- done.
pub data ReadEvent : Type 0 where
  delivers : Response → (String → Option Int64) → Chan Metric → ReadEvent
  send_closed : ReadEvent
  context_done : ReadEvent

abbrev pub no_tally : Tally
no_tally = record {
  users_seen = [];
  received = 0;
  total_latency = 0;
  latencies = [];
  message_types = [];
}

abbrev pub new_reader : Reader
new_reader = record { tally = no_tally; metrics = [] }

abbrev pub count_of : Option ℕ → ℕ
count_of none = 0
count_of (some n) = n

-- `received++`, `messageTypes[resp.MessageType]++`, and the note of a user who joined.
unfoldable pub count_response : Tally → Response → Tally
unfolding incr
count_response t resp =
    let msg = resp.message in
    let kind = msg.message_type in
    record t {
      received = incr t.received;
      message_types = put t.message_types kind (incr (count_of (get t.message_types kind)));
      users_seen =
          if kind == message_type_join then put t.users_seen msg.user_id tt else t.users_seen;
    }

-- `WriteMetricToChan`
unfoldable pub write_metric : Listener → Response → Int64 → List Metric → List Metric
unfolding new_metric
write_metric l resp latency metrics =
    let msg = resp.message in
    metrics ++ new_metric msg.timestamp msg.message_type latency resp.status l.room_id ∷ []

-- The send of `WriteMetricToChan`, if there is one.
unfoldable pub offer_metric :
    Listener → Response → Option Int64 → Chan Metric → Option (Offer Metric)
unfolding new_metric
offer_metric l resp none chan = none
offer_metric l resp (some latency) chan =
    let msg = resp.message in
    if l.collect_metrics
    then some
        (try_send chan (new_metric msg.timestamp msg.message_type latency resp.status l.room_id))
    else none

-- `sendTimeErr == nil`
unfoldable pub record_latency : Listener → Response → Option Int64 → Reader → Reader
unfolding write_metric
record_latency l resp none r = r
record_latency l resp (some latency) r =
    let t = r.tally in
    record {
      tally = record t {
        latencies = t.latencies ++ latency ∷ [];
        total_latency = add_int64 t.total_latency latency;
      };
      metrics = if l.collect_metrics then write_metric l resp latency r.metrics else r.metrics;
    }

unfoldable pub take_response : Listener → Reader → Response → (String → Option Int64) → Reader
unfolding count_response record_latency
take_response l r resp since =
    let msg = resp.message in
    record_latency l resp (since msg.timestamp) (record r { tally = count_response r.tally resp })

unfoldable pub is_own_leave : Listener → Response → Bool
is_own_leave l resp =
    let msg = resp.message in msg.message_type == message_type_leave && msg.user_id == l.user_id

-- Still reading; waiting in a send to `metricChan` or to `statsChan`, which stays full; returned,
-- with what was sent to `statsChan`; or a panic.
pub data Reading (F : Type 0) : Type 0 where
  reads : Reader → Reading F
  waits_metric : Reader → Reading F
  waits_stats : Reader → RoomStats F → Reading F
  returned : Reader → Option (Chan (RoomStats F)) → Reading F
  crashed : Reading F

abbrev pub end_by : {F : Type 0} → Reader → StatsSend F → Reading F
end_by r no_stats = returned r none
end_by r (passed_on chan) = returned r (some chan)
end_by r (stuck stats) = waits_stats r stats
end_by r panics = crashed

-- `stats_chan` is `statsChan` as the one send of the goroutine finds it, by the time it has space or
-- for good.
module _ {F : Type 0} (l : Listener) (through_put : ℕ → F) (stats_chan : Chan (RoomStats F)) where
  unfoldable pub end_reader : Reader → Reading F
  unfolding send_stats
  end_reader r = end_by r (send_stats l.room_id l.user_id through_put r.tally stats_chan)

  -- The end of the iteration.
  unfoldable pub after_response : Reader → Response → Reading F
  unfolding is_own_leave end_reader
  after_response r resp = if is_own_leave l resp then end_reader r else reads r

  -- `r` is the reader behind the send, `before` the one that still has it before it.
  unfoldable pub after_metric : Reader → Reader → Response → Option (Offer Metric) → Reading F
  unfolding after_response
  after_metric before r resp none = after_response r resp
  after_metric before r resp (some (sent chan)) = after_response r resp
  after_metric before r resp (some full) = waits_metric before
  after_metric before r resp (some panicked) = crashed

  unfoldable pub read_event : Reader → ReadEvent → Reading F
  unfolding take_response after_metric end_reader offer_metric
  read_event r (delivers resp since metric_chan) =
      let msg = resp.message in
      let r' = take_response l r resp since in
      after_metric (record r' { metrics = r.metrics }) r' resp
        (offer_metric l resp (since msg.timestamp) metric_chan)
  read_event r send_closed = end_reader r
  read_event r context_done = end_reader r

  -- The loop. When nothing is left to select, it waits.
  unfoldable pub read_events : Reader → List ReadEvent → Reading F
  unfolding read_event
  read_events r [] = reads r
  read_events r (e ∷ events) = elim (read_event r e) [
    | reads r' ↦ read_events r' events
    | waits_metric r' ↦ waits_metric r'
    | waits_stats r' stats ↦ waits_stats r' stats
    | returned r' stats ↦ returned r' stats
    | crashed ↦ crashed
  ]
