-- ===== src/Server/Metrics.antt =====
-- internal/server/metricsHandler.go: what /metrics answers with. The loops over the
-- maps visit the entries from the end of the list.
pub mod Consistency
use chatflow.Prelude.{ℕ, ◌+◌, String, Option, none, some, List, [], ◌∷◌, map}
use chatflow.Prelude.Dict.{Dict, get, keys, put}
use chatflow.Prelude.Seq.{length}
use chatflow.Server.{Room, Server, Broker}

pub record RoomMetrics : Type 0 where
  pub users : List String
  pub dropped_broadcast : ℕ
  pub dropped_send : ℕ

pub record MetricsResponse : Type 0 where
  pub rooms : Dict RoomMetrics
  pub user_sessions : Dict (List String)
  pub total_connections : ℕ
  pub successful_msgs : ℕ
  pub failed_msgs : ℕ
  pub rabbit_dropped : ℕ
  pub circuit_state : String

abbrev pub room_metrics : Room → RoomMetrics
room_metrics room = record {
  users = keys room.users;
  dropped_broadcast = room.dropped_broadcast;
  dropped_send = room.dropped_send;
}

-- The loop over `Rooms`: `rooms` and `totalConns`. `now` is the state in which a room's mutex is
-- held. The lock of `Rooms` is held around the loop, and no room is ever removed.
unfoldable pub collect_rooms : {R : Type 0} → (String → Server R) → Dict Room → Dict RoomMetrics × ℕ
collect_rooms now [] = ([], 0)
collect_rooms now ((id, old) ∷ d) =
    let (rooms, total_conns) = collect_rooms now d in
    let s = now id in
    elim (get s.rooms id) [
      | none ↦ (rooms, total_conns)
      | some room ↦
          let users = keys room.users in
          (put rooms id (room_metrics room), total_conns + length users)
    ]

-- The loop over `UserRooms`; a copied slice is the same list.
unfoldable pub copy_sessions : Dict (List String) → Dict (List String)
copy_sessions [] = []
copy_sessions ((uid, room_list) ∷ d) = put (copy_sessions d) uid room_list

abbrev pub rabbit_dropped_of : {R : Type 0} → Broker R → Option R → ℕ
rabbit_dropped_of b none = 0
rabbit_dropped_of b (some rabbit) = b.dropped_messages rabbit

-- The handler reads `Rooms` in the state `s`, each room in a state of its own, `UserRooms` in the
-- state `listing` and the counters in the state `counting`: other goroutines run in between.
unfoldable pub metrics_handler :
    {R : Type 0} → Broker R → Server R → (String → Server R) → Server R → Server R → MetricsResponse
unfolding collect_rooms copy_sessions
metrics_handler b s now listing counting =
    let (rooms, total_conns) = collect_rooms now s.rooms in
    record {
      rooms = rooms;
      user_sessions = copy_sessions listing.user_rooms;
      total_connections = total_conns;
      successful_msgs = counting.successful_requests;
      failed_msgs = counting.failed_requests;
      rabbit_dropped = rabbit_dropped_of b counting.rabbit;
      circuit_state = "";
    }
