-- ===== src/Examples/Chat.antt =====
-- Runs of the chat server and of the validation.
use chatflow.Prelude.{
  ℕ, String, ◌≡◌, ◌≢◌, ◌==◌, refl, ◌∙◌, inl, ◌⊎◌, eq_iff, of_eq_false, false, none, some, [], ◌∷◌,
  arith,
}
use chatflow.Prelude.Int.{pos}
use chatflow.Prelude.Atoi.{atoi}
use chatflow.Prelude.Dict.{get, put, remove}
use chatflow.Prelude.Chan.{push, try_send}
use chatflow.Prelude.Store.{update}
use chatflow.Models.{Response, QueueMessage, zero_message, message_type_leave}
use chatflow.Models.Validate.Exact.{IsWellFormed}
use chatflow.Models.Respond.{new_response, status_unprocessable_entity}
use chatflow.Models.Respond.Verdict.{IsEcho}
use chatflow.Server.{Server, ok, err, panic, user_exists, no_such_room, no_such_user, new_server}
use chatflow.Server.Rooms.{add_user_to_room, remove_user_from_room}
use chatflow.Server.Broadcast.{
  broadcast, message_event, removal_event, set_room, broadcast_round, consume_message, fan_out,
}
use chatflow.Server.Broadcast.FanOut.{fan_out_lem, fanned, drops}
use chatflow.Server.Handler.{
  origin, Session, Handler, after_text, publishing, reading, writing, announce, synthetic_leave,
  queue_message, upgraded,
}
use chatflow.Server.Invariant.{Safely}
use chatflow.Server.Invariant.Rounds.{with_queue}
use chatflow.Server.System.{
  no_handler, new_handler, System, perform, Reach, here, later, boot, connects, handles, rounds,
}
use chatflow.Server.System.Safety.{SystemInv, perform-SystemInv, Reach-ne-panic}
use chatflow.Server.Leave.{go_rounds, Removed, leave_in_order}
use chatflow.Server.Members.{
  member, MemberSet, add_user_to_room-MemberSet, remove_user_from_room-MemberSet,
}
use chatflow.Server.Loss.{synthetic_leave-refused, broadcast_round-unnamed}
use chatflow.Server.Echo.{announce-consume_message, consume_message-foreign}
use chatflow.Rabbit.{Rabbit, new_rabbit_mq}
use chatflow.Rabbit.Routing.{rabbit_broker, rabbit_broker-server_id}
use chatflow.Examples.Setting.{
  parse_time, rabbit, clock, hello, join_message, room_with, server_with, server_with-Inv,
}

differ : (a b : String) → (a == b) ≡ false → a ≢ b
differ a b h e = of_eq_false h ((eq_iff a b).1 e)

leave_in_order_example :
    (t : Server Rabbit) × (go_rounds 2
        (server_with (message_event hello ∷ removal_event "7" ∷ []))
        "1"
      ≡ ok t)
    × Removed
        (server_with (message_event hello ∷ removal_event "7" ∷ []))
        t
        "1"
        "7"
        0
        (hello ∷ [])
        []
leave_in_order_example =
    leave_in_order (hello ∷ []) (server_with (message_event hello ∷ removal_event "7" ∷ [])) "1"
      (room_with (message_event hello ∷ removal_event "7" ∷ [])) "7" 0 []
      (server_with-Inv (message_event hello ∷ removal_event "7" ∷ []) (omega arith))
      (unfold get in refl) refl refl (differ "7" "" refl) (unfold get in refl) (omega arith)

fan_out_lem_example :
    fan_out (some hello) (("7", 0) ∷ []) (server_with []).clients 0
    ≡ ok (
      fanned (some hello) (("7", 0) ∷ []) (server_with []).clients,
      drops (server_with []).clients (("7", 0) ∷ []) 0,
    )
fan_out_lem_example =
    fan_out_lem (some hello) (("7", 0) ∷ []) (server_with []).clients 0 (unfold get in (refl, tt))
      ((refl, refl), tt)

broadcast_round-unnamed_example :
    broadcast_round (server_with (removal_event "" ∷ [])) "1"
    ≡ ok (
        set_room
          (let s = server_with (removal_event "" ∷ []) in
            record s { clients = fanned none (("7", 0) ∷ []) s.clients })
          "1"
          (let room = with_queue (room_with (removal_event "" ∷ [])) [] in
            record room { dropped_send = drops (server_with []).clients (("7", 0) ∷ []) 0 }))
broadcast_round-unnamed_example =
    broadcast_round-unnamed (server_with (removal_event "" ∷ [])) "1"
      (room_with (removal_event "" ∷ [])) [] (server_with-Inv (removal_event "" ∷ []) (omega arith))
      (unfold get in refl) refl refl

synthetic_leave-refused_example :
    let resp =
      synthetic_leave rabbit_broker parse_time clock
        (record { user_id = "7"; username = "user-7"; client = 0 }) in
    (resp.status ≡ status_unprocessable_entity)
    × (resp.message ≡ zero_message)
    × (resp.message.message_type ≢ message_type_leave)
synthetic_leave-refused_example =
    synthetic_leave-refused parse_time refl rabbit_broker clock
      (record { user_id = "7"; username = "user-7"; client = 0 })

-- The first action is a request for the room "1".
abbrev connected : System Rabbit
connected = record {
  server = new_server "s1" 2 (some rabbit) 0;
  handlers = update (λ k. no_handler) 0 (new_handler 0 "1" "ip");
  next_conn = 1;
}

connected-Reach : Reach rabbit_broker parse_time (boot "s1" 2 (some rabbit) 0) connected
unfolding perform
connected-Reach = later here (connects "1" "ip") refl

Reach-ne-panic_example :
    perform rabbit_broker parse_time connected (handles 0 clock upgraded) ≢ panic
Reach-ne-panic_example =
    Reach-ne-panic rabbit_broker parse_time "s1" 2 (some rabbit) 0 connected connected-Reach
      (handles 0 clock upgraded)

abbrev populated : System Rabbit
populated = record {
  server = server_with (message_event hello ∷ []);
  handlers = λ k. no_handler;
  next_conn = 0;
}

perform-SystemInv_example :
    Safely SystemInv (perform rabbit_broker parse_time populated (rounds "1"))
perform-SystemInv_example =
    perform-SystemInv rabbit_broker parse_time populated (rounds "1") (record {
      server_inv = server_with-Inv (message_event hello ∷ []) (omega arith);
      sessions = λ k. tt;
    })

add_user_to_room-MemberSet_example :
    ((member (server_with []) "1" "8" ≡ none)
      × ((t : Server Rabbit) × (p : ℕ) × (add_user_to_room rabbit_broker (server_with []) "8" "1" 5
            ≡ ok (t, p))
          × MemberSet (server_with []) t "1" "8" (some p)))
    ⊎ ((member (server_with []) "1" "8" ≢ none)
        × (add_user_to_room rabbit_broker (server_with []) "8" "1" 5 ≡ err (user_exists "8" "1")))
add_user_to_room-MemberSet_example =
    add_user_to_room-MemberSet rabbit_broker (server_with []) "8" "1" 5

remove_user_from_room-MemberSet_example :
    ((member (server_with []) "1" "7" ≢ none)
      × ((t : Server Rabbit) × (remove_user_from_room (server_with []) "7" "1" ≡ ok t)
          × MemberSet (server_with []) t "1" "7" none))
    ⊎ ((member (server_with []) "1" "7" ≡ none)
        × ((remove_user_from_room (server_with []) "7" "1" ≡ err (no_such_room "1"))
            ⊎ (remove_user_from_room (server_with []) "7" "1" ≡ err (no_such_user "7" "1"))))
remove_user_from_room-MemberSet_example = remove_user_from_room-MemberSet (server_with []) "7" "1"

abbrev handler : Handler
handler = record {
  conn = 0;
  room_id = "1";
  client_ip = "ip";
  phase = reading (record { user_id = "7"; username = "user-7"; client = 0 });
  writer = writing 0;
}

abbrev session : Session
session = record { user_id = "7"; username = "user-7"; client = 0 }

abbrev announced : QueueMessage
announced = queue_message clock "s1" "1" hello "ip"

announce_runs :
    announce rabbit_broker parse_time clock (server_with []) handler session hello after_text
    ≡ ok (
      server_with (message_event hello ∷ []),
      record handler { phase = publishing session announced after_text },
    )
unfolding announce broadcast get try_send put set_room origin new_rabbit_mq remove queue_message
announce_runs = rw (rabbit_broker-server_id rabbit) refl

announce-consume_message_example :
    (q : QueueMessage) × (publishing session announced after_text ≡ publishing session q after_text)
    × (consume_message parse_time (server_with []) "1" "n" (some q) ≡ ok (server_with []))
announce-consume_message_example =
    announce-consume_message rabbit_broker parse_time clock (server_with []) handler session hello
      after_text rabbit (server_with (message_event hello ∷ []))
      (record handler { phase = publishing session announced after_text }) refl
      (rabbit_broker-server_id rabbit ∙ unfold new_rabbit_mq in refl) announce_runs (server_with [])
      "1" "n" refl

join_message-IsWellFormed : IsWellFormed parse_time join_message
join_message-IsWellFormed = (
  (7, unfold atoi in refl, omega arith, omega arith),
  (omega arith, omega arith),
  inl refl,
  (pos 0, refl),
  λ text. absurd (differ "JOIN" "TEXT" refl text),
)

consume_message-foreign_example :
    (echo : Response) × IsEcho join_message echo
    × (echo.server_timestamp ≡ "q")
    × (consume_message parse_time
          (server_with [])
          "1"
          "n"
          (some (queue_message clock "s2" "1" (new_response parse_time "r" join_message) "ip"))
        ≡ ok (
            set_room (server_with []) "1" (
              let room = room_with [] in
              record room { broadcast = push room.broadcast (message_event echo) })))
consume_message-foreign_example =
    consume_message-foreign parse_time clock "s2" "ip" "1" "n" join_message (server_with [])
      (room_with []) join_message-IsWellFormed (differ "s2" "s1" refl) (unfold get in refl) refl
      (omega arith)
