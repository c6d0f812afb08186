-- ===== src/Rabbit.antt =====
-- internal/rabbitmq/server.go: the publish queue, its workers, the buffer for the time when the
-- circuit is open, and the routing of deliveries. The AMQP client and the circuit breaker are
-- libraries: what they answer is the argument `Answer` of a worker's step.
pub mod Lag
pub mod Ledger
pub mod Routing
pub mod Setup
use Prim.Native.String.{◌++◌, len}
use chatflow.Prelude.{
  ℕ, zero, suc, ◌+◌, ◌%◌, String, Bool, true, false, Option, none, some, List, [], ◌∷◌, eqb,
  if◌then◌else◌,
}
use chatflow.Prelude.Atoi.Itoa.{itoa}
use chatflow.Prelude.Dict.{Dict, get, put}
use chatflow.Prelude.Chan.{Chan, Offer, sent, full, panicked, make, push, try_send}
use chatflow.Prelude.Store.{incr, int64_mod}
use chatflow.Models.{QueueMessage}

pub record PendingMessage : Type 0 where
  pub room_id : String
  pub message : QueueMessage

-- The values of `consumers` and `handlers` are the rooms that they serve: a consumer's name is the
-- key of its room in `handlers`, and a handler is the callback that `consumeMessages` makes for
-- the room. `total_lag_ms` is the bit pattern of an int64.
pub record Rabbit : Type 0 where
  pub server_id : String
  pub temp_buffer : Chan PendingMessage
  pub publish_chan : Chan PendingMessage
  pub consumers : Dict String
  pub handlers : Dict String
  pub dropped_messages : ℕ
  pub total_lag_ms : ℕ
  pub lag_sample_count : ℕ

-- for r := 1; r <= roomCount; r++, from the last room down.
unfoldable pub room_consumers : ℕ → Dict String
room_consumers zero = []
room_consumers (suc r) = put (room_consumers r) ("room." ++ itoa (suc r)) (itoa (suc r))

unfoldable pub new_rabbit_mq : String → ℕ → ℕ → ℕ → Rabbit
unfolding make room_consumers
new_rabbit_mq server_id temp_buffer_size publish_chan_size room_count = record {
  server_id = server_id;
  temp_buffer = make temp_buffer_size;
  publish_chan = make publish_chan_size;
  consumers = room_consumers room_count;
  handlers = [];
  dropped_messages = 0;
  total_lag_ms = 0;
  lag_sample_count = 0;
}

-- The send of a `select`: `none` while the channel is full. The channels are never closed.
pub offered : Rabbit → Offer PendingMessage → Option Rabbit
offered r (sent c) = some (record r { publish_chan = c })
offered r full = none
offered r panicked = none

-- `Publish` if its send is taken.
unfoldable pub publish : Rabbit → String → QueueMessage → Option Rabbit
unfolding offered
publish r room_id message =
    offered r (try_send r.publish_chan (record { room_id = room_id; message = message }))

-- The cancelled context is taken.
unfoldable pub abandon : Rabbit → Rabbit
abandon r = record r { dropped_messages = incr r.dropped_messages }

-- How the marshalling, the making of the AMQP message, and the breaker's `Execute` end.
pub data Answer : Type 0 where
  marshal_failed : Answer
  address_failed : Answer
  delivered : Answer
  open_state : Answer
  too_many_requests : Answer
  publish_failed : Answer

-- What became of the message of a `publishDirect`.
pub data Fate : Type 0 where
  accepted : Fate
  buffered : Fate
  dropped : Fate
  discarded : Fate

-- The non-blocking send into `tempBuffer`.
pub buffer : Rabbit → Offer PendingMessage → Rabbit × Fate
buffer r (sent c) = (record r { temp_buffer = c }, buffered)
buffer r full = (record r { dropped_messages = incr r.dropped_messages }, dropped)
buffer r panicked = (r, discarded)

unfoldable pub publish_direct : Rabbit → PendingMessage → Answer → Rabbit × Fate
unfolding buffer
publish_direct r pm marshal_failed = (r, discarded)
publish_direct r pm address_failed = (r, discarded)
publish_direct r pm delivered = (r, accepted)
publish_direct r pm open_state = buffer r (try_send r.temp_buffer pm)
publish_direct r pm too_many_requests = buffer r (try_send r.temp_buffer pm)
publish_direct r pm publish_failed = (r, discarded)

-- `Consume`; the answer says whether it returned nil.
unfoldable pub consume : Rabbit → String → Rabbit × Bool
consume r room_id = elim (get r.consumers ("room." ++ room_id)) [
  | none ↦ (r, false)
  | some c ↦ (record r { handlers = put r.handlers room_id room_id }, true)
]

-- `s[n:]`, of a text that is long enough: the keys of the consumers begin with "room.".
slice_from : ℕ → String → String
slice_from zero s = s
slice_from (suc n) String.[] = String.[]
slice_from (suc n) (String.◌∷◌ c s) = slice_from n s

-- `roomId[len("room."):]`
short_id_of : String → String
unfolding slice_from
short_id_of room_id = slice_from (len "room.") room_id

-- The two atomic additions. What comes in between them is in Lag.
add_lag : ℕ → Rabbit → Rabbit
add_lag lag r = record r { total_lag_ms = (r.total_lag_ms + lag) % int64_mod }

count_lag : Rabbit → Rabbit
count_lag r = record r { lag_sample_count = incr r.lag_sample_count }

measure_lag : Option ℕ → Rabbit → Rabbit
unfolding add_lag count_lag
measure_lag none r = r
measure_lag (some lag) r = count_lag (add_lag lag r)

-- One round of the consumer goroutine of a room, by the key of its consumer: the lag that was
-- measured, if the timestamp could be read, and the handler that is called.
unfoldable pub deliver : Rabbit → String → Option ℕ → Rabbit × Option String
unfolding short_id_of measure_lag
deliver r room_id lag = (measure_lag lag r, get r.handlers (short_id_of room_id))
