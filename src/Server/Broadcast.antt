-- ===== src/Server/Broadcast.antt =====
-- internal/server/server.go: the broadcast goroutine of a room and the broker's callback.
-- internal/server/chatRoomHandler.go: the sends into `Broadcast` and the writer goroutine.
pub mod FanOut
use chatflow.Prelude.{
  ℕ, String, ◌==◌, Bool, true, false, Option, none, some, List, [], ◌∷◌, ◌++◌, if◌then◌else◌,
}
use chatflow.Prelude.Int.{ℤ}
use chatflow.Prelude.Dict.{Dict, get, put, remove}
use chatflow.Prelude.Chan.{Offer, sent, full, panicked, try_send, close}
use chatflow.Prelude.Store.{update, incr}
use chatflow.Models.{Message, Response, QueueMessage}
use chatflow.Models.Respond.{new_response}
use chatflow.Server.{
  Client, Conn, RoomEvent, Room, Server, Broker, Outcome, ok, err, panic, ◌>>=◌, Loop, running,
  removing, stopped, no_such_room,
}
use chatflow.Server.Rooms.{close_send, close_conn, remove_from_user_rooms, remove_user_from_room}

abbrev pub message_event : Response → RoomEvent
message_event resp = record { resp = some resp; remove_user_id = "" }

abbrev pub removal_event : String → RoomEvent
removal_event user = record { resp = none; remove_user_id = user }

-- One `select { case u.Send <- event.resp: … default: … }` of the fan-out: the stores, and the
-- drop counter.
unfoldable pub offer_client :
    Offer (Option Response) → (ℕ → Client) → ℕ → ℕ → Outcome ((ℕ → Client) × ℕ)
unfolding incr
offer_client (sent c) clients dropped p =
    let client = clients p in ok (update clients p (record client { send = c }), dropped)
offer_client full clients dropped p = ok (clients, incr dropped)
offer_client panicked clients dropped p = panic

-- for _, u := range r.Users
unfoldable pub fan_out : Option Response → Dict ℕ → (ℕ → Client) → ℕ → Outcome ((ℕ → Client) × ℕ)
unfolding offer_client
fan_out resp [] clients dropped = ok (clients, dropped)
fan_out resp ((user, p) ∷ users) clients dropped =
    offer_client (try_send (clients p).send resp) clients dropped p >>= λ r.
    fan_out resp users r.0 r.1

module _ {R : Type 0} where
  unfoldable pub set_room : Server R → String → Room → Server R
  set_room s room_id room = record s { rooms = put s.rooms room_id room }

  -- `event.removeUserId != ""`: under the lock the channel is closed and the user deleted.
  -- `removeFromUserRooms` follows when the lock is released.
  unfoldable pub remove_event : Server R → String → Room → String → Server R
  unfolding close_send set_room
  remove_event s room_id room user = elim (get room.users user) [
    | none ↦ set_room s room_id room
    | some p ↦
        set_room (close_send s p) room_id
          (record room { users = remove room.users user; loop = removing user })
  ]

  unfoldable pub send_event : Server R → String → Room → Option Response → Outcome (Server R)
  unfolding fan_out set_room
  send_event s room_id room resp = fan_out resp room.users s.clients room.dropped_send >>= λ r.
      ok (set_room (record s { clients = r.0 }) room_id (record room { dropped_send = r.1 }))

  -- One round of the loop for the event received, with the rest of the channel in `room`.
  unfoldable pub handle_event : Server R → String → Room → RoomEvent → Outcome (Server R)
  unfolding remove_event send_event
  handle_event s room_id room event =
      if event.remove_user_id == ""
      then send_event s room_id room event.resp
      else ok (remove_event s room_id room event.remove_user_id)

  unfoldable pub receive_event : Server R → String → Room → List RoomEvent → Outcome (Server R)
  unfolding handle_event
  receive_event s room_id room [] = ok s
  receive_event s room_id room (event ∷ rest) =
      let chan = room.broadcast in
      handle_event s room_id (record room { broadcast = record chan { queue = rest } }) event

  -- case <-r.Ctx.Done()
  unfoldable pub close_users : Server R → Dict ℕ → Server R
  unfolding close_send close_conn
  close_users s [] = s
  close_users s ((user, p) ∷ users) =
      close_users (close_send (close_conn s (s.clients p).conn) p) users

  unfoldable pub loop_round : Server R → String → Room → Loop → Outcome (Server R)
  unfolding receive_event set_room remove_from_user_rooms
  loop_round s room_id room running = receive_event s room_id room room.broadcast.queue
  loop_round s room_id room (removing user) =
      ok (remove_from_user_rooms (set_room s room_id (record room { loop = running })) user room_id)
  loop_round s room_id room stopped = ok s

  -- The goroutine's next step, but for the end of its context; with nothing to receive it waits.
  unfoldable pub broadcast_round : Server R → String → Outcome (Server R)
  unfolding loop_round
  broadcast_round s room_id = elim (get s.rooms room_id) [
    | none ↦ ok s
    | some room ↦ loop_round s room_id room room.loop
  ]

  unfoldable pub stop_loop : Server R → String → Room → Loop → Server R
  unfolding close_users set_room
  stop_loop s room_id room running =
      set_room (close_users s room.users) room_id (record room { loop = stopped })
  stop_loop s room_id room other = s

  -- The goroutine's step if the context is cancelled and it stands at its `select`.
  unfoldable pub broadcast_done : Server R → String → Server R
  unfolding stop_loop
  broadcast_done s room_id = elim (get s.rooms room_id) [
    | none ↦ s
    | some room ↦ if s.cancelled then stop_loop s room_id room room.loop else s
  ]

  -- A non-blocking send into `Broadcast`, with what the `default` case does.
  abbrev pub on_offer :
      Server R → String → Room → Offer RoomEvent → Outcome (Server R) → Outcome (Server R)
  on_offer s room_id room (sent c) dropped = ok (set_room s room_id (record room { broadcast = c }))
  on_offer s room_id room full dropped = dropped
  on_offer s room_id room panicked dropped = panic

  -- Without the room there is no callback.
  unfoldable pub forward : Server R → String → Response → Outcome (Server R)
  unfolding set_room
  forward s room_id resp = elim (get s.rooms room_id) [
    | none ↦ ok s
    | some room ↦ on_offer s room_id room (try_send room.broadcast (message_event resp)) (ok s)
  ]

  -- The callback `consumeMessages` of a room, for what `json.Unmarshal` made of the body.
  unfoldable pub consume_message :
      (String → Option ℤ) → Server R → String → String → Option QueueMessage → Outcome (Server R)
  unfolding forward new_response
  consume_message parse_time s room_id now none = ok s
  consume_message parse_time s room_id now (some q) =
      if q.server_id == s.id
      then ok s
      else let resp = new_response parse_time now q.message in
        forward s room_id (record resp { server_timestamp = q.timestamp })

  -- The first half of `broadcastAndPublish`.
  unfoldable pub broadcast : Server R → String → Response → Outcome (Server R)
  unfolding set_room incr
  broadcast s room_id resp = elim (get s.rooms room_id) [
    | none ↦ panic
    | some room ↦
        on_offer s room_id room (try_send room.broadcast (message_event resp)) (
          ok (set_room s room_id (record room { dropped_broadcast = incr room.dropped_broadcast })))
  ]

  -- `RemoveUserFromRoom` called for its effect: the error is dropped.
  unfoldable pub ignore_error : Server R → Outcome (Server R) → Outcome (Server R)
  ignore_error s (ok s') = ok s'
  ignore_error s (err e) = ok s
  ignore_error s panic = panic

  unfoldable pub remove_directly : Server R → ℕ → Outcome (Server R)
  unfolding close_conn remove_user_from_room ignore_error
  remove_directly s p =
      let s' = close_conn s (s.clients p).conn in
      ignore_error s' (remove_user_from_room s' (s.clients p).user_id (s.clients p).room)

  unfoldable pub schedule_remove_user : Server R → ℕ → Outcome (Server R)
  unfolding set_room remove_directly
  schedule_remove_user s p =
      let client = s.clients p in
      elim (get s.rooms client.room) [
        | none ↦ panic
        | some room ↦
            on_offer s client.room room (try_send room.broadcast (removal_event client.user_id))
              (remove_directly s p)
      ]
