-- ===== src/Server/Rooms.antt =====
-- internal/server/server.go: rooms and their users. A method holds its locks to the end, and is
-- one step here; only the broadcast goroutine lets go of a lock half way (Broadcast.antt).
use chatflow.Prelude.{ℕ, ◌+◌, String, true, Option, none, some, [], ◌∷◌, if◌then◌else◌}
use chatflow.Prelude.Dict.{Dict, get, put, remove}
use chatflow.Prelude.Chan.{make, close}
use chatflow.Prelude.Store.{update, incr}
use chatflow.Server.UserRooms.{unindex, index_user}
use chatflow.Server.{
  Room, Server, Broker, Outcome, ok, err, panic, user_exists, no_such_room, no_such_user, running,
  new_client,
}

abbrev pub new_room : ℕ → Room
new_room buffer_size = record {
  users = [];
  broadcast = make buffer_size;
  loop = running;
  dropped_broadcast = 0;
  dropped_send = 0;
}

module _ {R : Type 0} where
  unfoldable pub record_success : Server R → Server R
  unfolding incr
  record_success s = record s { successful_requests = incr s.successful_requests }

  unfoldable pub record_failure : Server R → Server R
  unfolding incr
  record_failure s = record s { failed_requests = incr s.failed_requests }

  unfoldable pub remove_from_user_rooms : Server R → String → String → Server R
  unfolding unindex
  remove_from_user_rooms s user room = record s { user_rooms = unindex s.user_rooms user room }

  module _ (b : Broker R) where
    -- An error of `Consume` is only logged.
    consume_room : Option R → String → Option R
    consume_room none room_id = none
    consume_room (some rabbit) room_id = some (b.consume rabbit room_id).0

    unfoldable pub add_new_room : Server R → String → Server R
    unfolding consume_room make
    add_new_room s room_id = elim (get s.rooms room_id) [
      | some room ↦ s
      | none ↦ record s {
        rabbit = consume_room s.rabbit room_id;
        rooms = put s.rooms room_id (new_room s.buffer_size);
      }
    ]

    -- The part of `AddUserToRoom` under the room's lock. The result is the pointer to the client.
    unfoldable pub register : Server R → String → String → ℕ → Option Room → Outcome (Server R × ℕ)
    unfolding new_client index_user
    register s user room_id conn none = panic
    register s user room_id conn (some room) = elim (get room.users user) [
      | some p ↦ err (user_exists user room_id)
      | none ↦ ok (
        record s {
          clients = update s.clients s.next_client (new_client user room_id conn s.buffer_size);
          next_client = s.next_client + 1;
          rooms = put s.rooms room_id (record room { users = put room.users user s.next_client });
          user_rooms = index_user s.user_rooms user room_id;
        },
        s.next_client,
      )
    ]

    unfoldable pub add_user_to_room : Server R → String → String → ℕ → Outcome (Server R × ℕ)
    unfolding register add_new_room
    add_user_to_room s user room_id conn =
        let s' = add_new_room s room_id in register s' user room_id conn (get s'.rooms room_id)

  -- client.closeOnce.Do(func() { close(client.Send) })
  unfoldable pub close_send : Server R → ℕ → Server R
  unfolding close
  close_send s p =
      let client = s.clients p in
      record s { clients = update s.clients p (record client { send = close client.send }) }

  -- client.Conn.Close()
  unfoldable pub close_conn : Server R → ℕ → Server R
  close_conn s c =
      let conn = s.conns c in record s { conns = update s.conns c (record conn { closed = true }) }

  -- The goroutine of `Start` that waits for the context: it closes the connections of all users.
  unfoldable pub close_user_conns : Server R → Dict ℕ → Server R
  unfolding close_conn
  close_user_conns s [] = s
  close_user_conns s ((user, p) ∷ users) = close_user_conns (close_conn s (s.clients p).conn) users

  unfoldable pub close_room_conns : Server R → Dict Room → Server R
  unfolding close_user_conns
  close_room_conns s [] = s
  close_room_conns s ((room_id, room) ∷ rooms) =
      close_room_conns (close_user_conns s room.users) rooms

  unfoldable pub shut_down : Server R → Server R
  unfolding close_room_conns
  shut_down s = if s.cancelled then close_room_conns s s.rooms else s

  unfoldable pub unregister : Server R → String → String → Room → Option ℕ → Outcome (Server R)
  unfolding close_send remove_from_user_rooms
  unregister s user room_id room none = err (no_such_user user room_id)
  unregister s user room_id room (some p) =
      let s' = close_send s p in
      let s'' = record s' {
        rooms = put s'.rooms room_id (record room { users = remove room.users user });
      } in
      ok (remove_from_user_rooms s'' user room_id)

  unfoldable pub remove_user_from_room : Server R → String → String → Outcome (Server R)
  unfolding unregister
  remove_user_from_room s user room_id = elim (get s.rooms room_id) [
    | none ↦ err (no_such_room room_id)
    | some room ↦ unregister s user room_id room (get room.users user)
  ]
