-- ===== src/Examples/Rosters.antt =====
-- Runs of the chat server seen as a roster.
use chatflow.Prelude.{◌+◌, ◌≡◌, refl, some, [], ◌∷◌}
use chatflow.Prelude.Dict.{get, put}
use chatflow.Prelude.Chan.{make, try_send}
use chatflow.Server.Rooms.{add_user_to_room}
use chatflow.Models.{Message}
use chatflow.Server.{Room, new_server, ok, err, panic}
use chatflow.Server.UserRooms.{rooms_of}
use chatflow.Server.Broadcast.{message_event, removal_event, broadcast_round, broadcast}
use chatflow.Server.Handler.{upgraded, received, chat_room_handler}
use chatflow.Server.System.{
  System, Action, no_handler, perform, rounds, boot, Reach, later, here, connects, handles,
}
use chatflow.Server.Roster.{roster_of, AtMostOne, occurrences}
use chatflow.Server.Roster.Agreement.{perform-refines_roster, listed_once, ones}
use chatflow.Server.Metrics.{metrics_handler}
use chatflow.Server.Metrics.Consistency.{metrics_handler-consistent, all_users, users_in}
use chatflow.Rabbit.{Rabbit}
use chatflow.Rabbit.Routing.{rabbit_broker}
use chatflow.Models.Respond.{new_response}
use chatflow.Examples.Setting.{room_with, parse_time, rabbit, server_with, clock, join_message}

abbrev leaving : System Rabbit
leaving = record {
  server = server_with (removal_event "7" ∷ []);
  handlers = λ k. no_handler;
  next_conn = 0;
}

-- The state that a step leads to.
after : System Rabbit → Action → System Rabbit
unfolding perform
after w a = elim (perform rabbit_broker parse_time w a) [ ok v ↦ v | err e ↦ w | panic ↦ w ]

taken_out : perform rabbit_broker parse_time leaving (rounds "1") ≡ ok (after leaving (rounds "1"))
unfolding after perform broadcast_round get
taken_out = refl

perform-refines_roster_example :
    AtMostOne (roster_of leaving.server) (roster_of (after leaving (rounds "1")).server)
perform-refines_roster_example =
    perform-refines_roster rabbit_broker parse_time leaving (after leaving (rounds "1"))
      (rounds "1") taken_out

abbrev first : System Rabbit
first = boot "s1" 2 (some rabbit) 0

abbrev second : System Rabbit
second = after first (connects "1" "ip")

abbrev third : System Rabbit
third = after second (handles 0 clock upgraded)

abbrev joined : System Rabbit
joined = after third (handles 0 clock (received join_message))

joined-Reach : Reach rabbit_broker parse_time first joined
unfolding after perform chat_room_handler add_user_to_room get new_server put broadcast try_send
joined-Reach =
    later {w = third}
      (later {w = second} (later here (connects "1" "ip") refl) (handles 0 clock upgraded) refl)
      (handles 0 clock (received join_message)) refl

joined_in : (roster_of joined.server).listed "1" "7" ≡ 1
unfolding after perform chat_room_handler occurrences rooms_of add_user_to_room get new_server put
    broadcast try_send
joined_in = refl

listed_once_example :
    (roster_of joined.server).listed "1" "7"
    ≡ ones ((roster_of joined.server).present "1" "7")
      + ones ((roster_of joined.server).leaving "1" "7")
listed_once_example =
    listed_once rabbit_broker parse_time "s1" 2 (some rabbit) 0 joined "1" "7" joined-Reach

-- Another user enters between the reading of the room and that of the sessions.
abbrev next_message : Message
next_message = record join_message { user_id = "8"; username = "user-8" }

abbrev fourth : System Rabbit
fourth = after joined (connects "1" "ip")

abbrev fifth : System Rabbit
fifth = after fourth (handles 1 clock upgraded)

abbrev both_in : System Rabbit
both_in = after fifth (handles 1 clock (received next_message))

both_in-Reach : Reach rabbit_broker parse_time first both_in
unfolding after perform chat_room_handler add_user_to_room get new_server put broadcast try_send
both_in-Reach =
    later {w = fifth}
      (later {w = fourth} (later joined-Reach (connects "1" "ip") refl) (handles 1 clock upgraded)
        refl)
      (handles 1 clock (received next_message)) refl

abbrev room_then : Room
room_then = room_with (message_event (new_response parse_time "r" join_message) ∷ [])

room_there : (let s = joined.server in get s.rooms "1") ≡ some room_then
unfolding after perform chat_room_handler add_user_to_room get new_server put broadcast try_send
    make
room_there = refl

metrics_handler-consistent_example :
    let m =
      metrics_handler rabbit_broker joined.server
        (λ k. joined.server)
        both_in.server
        both_in.server in
    (m.total_connections ≡ all_users m.rooms)
    × (occurrences "8" (users_in m.rooms "1") ≡ ones ((roster_of joined.server).present "1" "8"))
    × (occurrences "1" (rooms_of m.user_sessions "8")
        ≡ ones ((roster_of both_in.server).present "1" "8")
          + ones ((roster_of both_in.server).leaving "1" "8"))
metrics_handler-consistent_example =
    metrics_handler-consistent rabbit_broker parse_time "s1" 2 (some rabbit) 0 joined (λ k. joined)
      both_in both_in "1" "8" room_then joined-Reach joined-Reach both_in-Reach room_there
