-- ===== src/Server/Roster/Conns.antt =====
-- internal/server/server.go: what the closing of connections leaves alone.
use chatflow.Prelude.{ℕ, ◌≡◌, refl, ◌∙◌, true, false, [], ◌∷◌, if◌then◌else◌}
use chatflow.Prelude.Dict.{Dict}
use chatflow.Server.{Room, Server}
use chatflow.Server.Rooms.{close_conn, close_user_conns, close_room_conns, shut_down}

pub record OnlyConns {R : Type 0} (s t : Server R) : Type 0 where
  pub rooms : t.rooms ≡ s.rooms
  pub clients : t.clients ≡ s.clients
  pub next_client : t.next_client ≡ s.next_client
  pub user_rooms : t.user_rooms ≡ s.user_rooms

module _ {R : Type 0} where
  OnlyConns-refl : (s : Server R) → OnlyConns s s
  OnlyConns-refl s = record { rooms = refl; clients = refl; next_client = refl; user_rooms = refl }

  OnlyConns-trans : {s t u : Server R} → OnlyConns s t → OnlyConns t u → OnlyConns s u
  OnlyConns-trans f g = record {
    rooms = g.rooms ∙ f.rooms;
    clients = g.clients ∙ f.clients;
    next_client = g.next_client ∙ f.next_client;
    user_rooms = g.user_rooms ∙ f.user_rooms;
  }

  close_user_conns-OnlyConns :
      (s : Server R) (users : Dict ℕ) → OnlyConns s (close_user_conns s users)
  unfolding close_user_conns close_conn
  close_user_conns-OnlyConns s [] = OnlyConns-refl s
  close_user_conns-OnlyConns s ((user, p) ∷ users) =
      OnlyConns-trans {t = close_conn s (s.clients p).conn}
        (record { rooms = refl; clients = refl; next_client = refl; user_rooms = refl })
        (close_user_conns-OnlyConns (close_conn s (s.clients p).conn) users)

  close_room_conns-OnlyConns :
      (s : Server R) (rooms : Dict Room) → OnlyConns s (close_room_conns s rooms)
  unfolding close_room_conns
  close_room_conns-OnlyConns s [] = OnlyConns-refl s
  close_room_conns-OnlyConns s ((room_id, room) ∷ rooms) =
      OnlyConns-trans (close_user_conns-OnlyConns s room.users)
        (close_room_conns-OnlyConns (close_user_conns s room.users) rooms)

  pub shut_down-OnlyConns : (s : Server R) → OnlyConns s (shut_down s)
  unfolding shut_down
  shut_down-OnlyConns s =
      elim s.cancelled as (λ b. OnlyConns s (if b then close_room_conns s s.rooms else s)) [
        | true ↦ close_room_conns-OnlyConns s s.rooms
        | false ↦ OnlyConns-refl s
      ]
