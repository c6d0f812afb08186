-- ===== src/Examples/Broker.antt =====
-- Runs of the RabbitMQ side.
use Prim.Native.String.{◌++◌}
use chatflow.Prelude.{
  ℕ, map, arith, not, Bool, ◌+◌, ◌%◌, ◌≤◌, String, ◌≡◌, ◌≢◌, ◌==◌, refl, ◌⊎◌, ◌↔◌, eq_iff,
  of_eq_false, true, false, none, some, List, [], ◌∷◌,
}
use chatflow.Prelude.Atoi.Itoa.{itoa}
use chatflow.Prelude.Dict.{get}
use chatflow.Prelude.Seq.{length, All}
use chatflow.Prelude.Store.{int64_mod, incr}
use chatflow.Models.{QueueMessage, zero_message}
use chatflow.Rabbit.Setup.{Operation, declare_queue, set_up}
use chatflow.Rabbit.Setup.Plan.{Follows, plan, set_up-Follows}
use chatflow.Rabbit.{
  PendingMessage, new_rabbit_mq, room_consumers, consume, deliver, open_state, publish_failed,
}
use chatflow.Rabbit.Lag.{
  LagEvent, adds_lag, counts_sample, swaps_count, swaps_total, new_lag_meter, run_meter, avg_lag,
  meter_step, count_sample, swap_count, swap_total,
}
use chatflow.Rabbit.Lag.Accounts.{lag_sums, all_samples, taken, IsDivisor, run_meter-accounts}
use chatflow.Prelude.Int64.{div_int64, biased}
use chatflow.Rabbit.Routing.{consume-deliver, room_consumers_lem}
use chatflow.Rabbit.Ledger.{Event, published, gave_up, worked, watched, run_all}
use chatflow.Rabbit.Ledger.Balance.{total, in_hands, watched_over}
use chatflow.Rabbit.Ledger.Accounts.{new_plant, run_all-accounts, run_all-dropped_messages}
use chatflow.Examples.Setting.{rabbit}

abbrev message : QueueMessage
message = record {
  message_id = "m";
  room_id = "1";
  username = "user-7";
  message = zero_message;
  timestamp = "now";
  message_type = "TEXT";
  server_id = "s1";
  client_ip = "ip";
}

-- The circuit opens on the first message, and is closed again for the second.
abbrev outage : List Event
outage =
    published "1" message
    ∷ published "2" message
    ∷ worked 0 open_state
    ∷ worked 0 open_state
    ∷ worked 1 publish_failed
    ∷ worked 1 publish_failed
    ∷ watched
    ∷ watched
    ∷ gave_up
    ∷ []

run_all-accounts_example :
    let w : PendingMessage → ℕ = λ pm. 1 in
    let g = run_all (new_plant (new_rabbit_mq "s1" 1 2 3) 2) outage in
    total w g.books.ledger.taken
    ≡ total w g.books.ledger.sent_out
      + total w g.books.ledger.thrown_away
      + total w g.books.ledger.lost
      + total w g.books.rabbit.publish_chan.queue
      + total w g.books.rabbit.temp_buffer.queue
      + (in_hands w g.workers + watched_over w g.watcher)
run_all-accounts_example = run_all-accounts (λ pm. 1) "s1" 1 2 3 2 outage

run_all-dropped_messages_example :
    let g = run_all (new_plant (new_rabbit_mq "s1" 1 2 3) 2) outage in
    g.books.rabbit.dropped_messages
    ≡ (length g.books.ledger.thrown_away + g.books.ledger.given_up) % int64_mod
run_all-dropped_messages_example = run_all-dropped_messages "s1" 1 2 3 2 outage

one_two : ◌≢◌ {A = String} "1" "2"
one_two e = of_eq_false {b = "1" == "2"} refl ((eq_iff "1" "2").1 e)

consume-deliver_example :
    let c = consume rabbit "1" in
    (((get rabbit.consumers ("room." ++ "1") ≢ none)
        × (c.1 ≡ true)
        × ((deliver c.0 "room.1" none).1 ≡ some "1"))
      ⊎ ((get rabbit.consumers ("room." ++ "1") ≡ none) × (c.1 ≡ false) × (c.0 ≡ rabbit)))
    × ((deliver c.0 "room.2" none).1 ≡ (deliver rabbit "room.2" none).1)
consume-deliver_example = consume-deliver rabbit "1" "2" none one_two

room_consumers_lem_example :
    (get (room_consumers 3) ("room." ++ "2") ≢ none)
    ↔ ((r : ℕ) × (1 ≤ r) × (r ≤ 3) × ("2" ≡ itoa r))
room_consumers_lem_example = room_consumers_lem 3 "2"

-- The second queue is refused.
abbrev refusing : List Operation → Operation → Bool
refusing done (declare_queue queue) = not (queue == "room.2.s1")
refusing done op = true

set_up-Follows_example : Follows refusing (plan "s1" 3 2) 3 (set_up refusing "s1" 3 2)
set_up-Follows_example = set_up-Follows refusing "s1" 3 2

-- The monitor takes the count between the two additions of the second lag, and reports an average of
-- 20 for two lags of 10 milliseconds; the sample of the second makes a report without a lag.
abbrev overlapping : List LagEvent
overlapping =
    adds_lag 10
    ∷ counts_sample
    ∷ adds_lag 10
    ∷ swaps_count
    ∷ swaps_total
    ∷ counts_sample
    ∷ swaps_count
    ∷ swaps_total
    ∷ []

overlapping_averages : map avg_lag (run_meter new_lag_meter overlapping).reports ≡ 0 ∷ 20 ∷ []
unfolding run_meter meter_step count_sample swap_count swap_total div_int64 biased incr
overlapping_averages = refl

run_meter-accounts_example :
    let m = run_meter new_lag_meter overlapping in
    ((lag_sums m.reports + m.total_lag_ms) % int64_mod ≡ 20 % int64_mod)
    × (all_samples m.reports + taken m.swapped + m.lag_sample_count + m.uncounted ≡ 2)
    × All IsDivisor m.reports
run_meter-accounts_example = run_meter-accounts overlapping (omega arith)
