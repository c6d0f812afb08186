-- ===== src/Server/Loss.antt =====
-- internal/server/chatRoomHandler.go, the branch of a failed read, and what server.go makes of a
-- user with an empty name.
use chatflow.Prelude.{String, ◌≡◌, ◌≢◌, refl, sym, ◌∙◌, ap, Option, none, some, List, ◌∷◌}
use chatflow.Prelude.Int.{ℤ}
use chatflow.Prelude.Dict.{get}
use chatflow.Models.{Message, zero_message, new_message, message_type_leave}
use chatflow.Models.Respond.{new_response, status_unprocessable_entity}
use chatflow.Models.Respond.Verdict.{IsRefusal, new_response_answers}
use chatflow.Server.{Room, RoomEvent, Server, Broker, running, ok}
use chatflow.Server.Broadcast.{
  set_room, broadcast_round, receive_event, handle_event, send_event, removal_event,
}
use chatflow.Server.Broadcast.FanOut.{fanned, drops, fan_out_lem}
use chatflow.Server.Handler.{Readings, Session, synthetic_leave}
use chatflow.Server.Invariant.{Inv, is_live}
use chatflow.Server.Invariant.Rounds.{open_entries, with_queue}
use chatflow.Server.Leave.{round_of}

unlike : ¬ ("" ≡ message_type_leave)
unlike e = cc

module _ (parse_time : String → Option ℤ) (no_empty_time : parse_time "" ≡ none) where
  untimed_refused :
      (now : String) (m : Message) → m.timestamp ≡ "" → IsRefusal (new_response parse_time now m)
  untimed_refused now m untimed = (new_response_answers parse_time now m).1 λ good.
      let (at, timed) = good.3 in
      absurd_time at (sym (ap parse_time untimed ∙ no_empty_time) ∙ timed)
    where
      absurd_time : (at : ℤ) → ¬ (none ≡ some at)
      absurd_time at e = cc

  -- What is made up for a lost client is a refusal, not a LEAVE: `NewMessage` sets no time, so if
  -- `time.Parse` refuses the empty text the message does not validate. It has status 422, the
  -- message in it is the zero value, and its type is not LEAVE.
  pub synthetic_leave-refused :
      {R : Type 0} (b : Broker R) (t : Readings) (session : Session)
      → let resp = synthetic_leave b parse_time t session in
        (resp.status ≡ status_unprocessable_entity)
        × (resp.message ≡ zero_message)
        × (resp.message.message_type ≢ message_type_leave)
  unfolding synthetic_leave new_message
  synthetic_leave-refused b t session =
      let refused =
        untimed_refused t.response_time
          (new_message session.user_id session.username "" message_type_leave) refl in
      (
        refused.status,
        refused.message,
        λ leave. unlike (sym (ap (λ (x : Message). x.message_type) refused.message) ∙ leave),
      )

module _ {R : Type 0} where
  -- If the removal of the user with the empty name stands at the head of a room's channel, the
  -- room's goroutine takes it for a message: no user is removed, and every user whose buffer has
  -- room is sent the nil response.
  pub broadcast_round-unnamed :
      (s : Server R) (room_id : String) (room : Room) (rest : List RoomEvent)
      → Inv s
      → get s.rooms room_id ≡ some room
      → room.loop ≡ running
      → room.broadcast.queue ≡ removal_event "" ∷ rest
      → broadcast_round s room_id
        ≡ ok (
            set_room
              (record s { clients = fanned none room.users s.clients })
              room_id
              (record (with_queue room rest) {
                dropped_send = drops s.clients room.users room.dropped_send;
              }))
  unfolding receive_event handle_event send_event
  broadcast_round-unnamed s room_id room rest h found loop queue =
      round_of s room_id room (removal_event "") rest found loop queue ∙ receives
    where
      receives :
          receive_event s room_id room (removal_event "" ∷ rest)
          ≡ ok (
              set_room
                (record s { clients = fanned none room.users s.clients })
                room_id
                (record (with_queue room rest) {
                  dropped_send = drops s.clients room.users room.dropped_send;
                }))
      receives =
          let here = h.rooms_inv room_id room found in
          rw
            (fan_out_lem none room.users s.clients room.dropped_send here.distinct
              (open_entries room (ap is_live loop) here))
            refl
