-- ===== src/Server.antt =====
-- internal/server/server.go: the types. Pointers to clients and connections are addresses in the
-- stores of `Server`; rooms are never taken out of `Rooms`, so a pointer to one is its key.
pub mod UserRooms
pub mod Rooms
pub mod Broadcast
pub mod Handler
pub mod Invariant
pub mod System
pub mod Leave
pub mod Members
pub mod Loss
pub mod Echo
pub mod Roster
pub mod Metrics
use chatflow.Prelude.{ℕ, String, ◌≡◌, Bool, false, Option, none, some, List, []}
use chatflow.Prelude.Dict.{Dict}
use chatflow.Prelude.Chan.{Chan, make}
use chatflow.Models.{Response, QueueMessage}

-- A WebSocket connection: whether it was closed, and what was written to it.
pub record Conn : Type 0 where
  pub closed : Bool
  pub written : List (Option Response)

-- `send` carries pointers, and `none` is the nil pointer.
pub record Client : Type 0 where
  pub conn : ℕ
  pub send : Chan (Option Response)
  pub room : String
  pub user_id : String

pub record RoomEvent : Type 0 where
  pub resp : Option Response
  pub remove_user_id : String

-- Where a room's broadcast goroutine stands: at its `select`; between the removal of a user and
-- the call of `removeFromUserRooms`; or returned.
pub data Loop : Type 0 where
  running : Loop
  removing : String → Loop
  stopped : Loop

pub record Room : Type 0 where
  pub users : Dict ℕ
  pub broadcast : Chan RoomEvent
  pub loop : Loop
  pub dropped_broadcast : ℕ
  pub dropped_send : ℕ

-- `cancelled` is the state of `Ctx`, which every room's context derives from. `R` is the type of
-- the message broker.
pub record Server (R : Type 0) : Type 0 where
  pub id : String
  pub cancelled : Bool
  pub buffer_size : ℕ
  pub rooms : Dict Room
  pub rabbit : Option R
  pub user_rooms : Dict (List String)
  pub max_rooms : ℕ
  pub successful_requests : ℕ
  pub failed_requests : ℕ
  pub clients : ℕ → Client
  pub next_client : ℕ
  pub conns : ℕ → Conn

pub data Error : Type 0 where
  user_exists : String → String → Error
  no_such_room : String → Error
  no_such_user : String → String → Error

-- A Go function's end: a return, an error value, or a panic.
pub data Outcome (A : Type 0) : Type 0 where
  ok : A → Outcome A
  err : Error → Outcome A
  panic : Outcome A

infixl 5 ◌>>=◌
abbrev pub ◌>>=◌ : {A B : Type 0} → Outcome A → (A → Outcome B) → Outcome B
ok a >>= f = f a
err e >>= f = err e
panic >>= f = panic

-- The interface `RabbitMQServer` of pkg/rabbitmq/server.go. `publish` is the send to the publish
-- queue, `none` while that is full; `abandon` is its other end, when the context is cancelled.
-- `consume` says whether the room has a consumer.
pub record Broker (R : Type 0) : Type 0 where
  pub server_id : R → String
  pub dropped_messages : R → ℕ
  pub publish : R → String → QueueMessage → Option R
  pub abandon : R → R
  pub consume : R → String → R × Bool
  pub server_id-publish :
      (r : R) (room : String) (q : QueueMessage) {r' : R}
      → publish r room q ≡ some r'
      → server_id r' ≡ server_id r
  pub server_id-abandon : (r : R) → server_id (abandon r) ≡ server_id r
  pub server_id-consume : (r : R) (room : String) → server_id (consume r room).0 ≡ server_id r

-- An address that was never allocated.
abbrev pub no_client : Client
no_client = record {
  conn = 0;
  send = record { cap = 0; queue = []; closed = false };
  room = "";
  user_id = "";
}

abbrev pub fresh_conn : Conn
fresh_conn = record { closed = false; written = [] }

unfoldable pub new_server : {R : Type 0} → String → ℕ → Option R → ℕ → Server R
new_server id buffer_size rabbit max_rooms = record {
  id = id;
  cancelled = false;
  buffer_size = buffer_size;
  rooms = [];
  rabbit = rabbit;
  user_rooms = [];
  max_rooms = max_rooms;
  successful_requests = 0;
  failed_requests = 0;
  clients = λ p. no_client;
  next_client = 0;
  conns = λ c. fresh_conn;
}

unfoldable pub new_client : String → String → ℕ → ℕ → Client
unfolding make
new_client user_id room conn buffer_size = record {
  conn = conn;
  send = make buffer_size;
  room = room;
  user_id = user_id;
}
