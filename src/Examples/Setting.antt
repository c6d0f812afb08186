-- ===== src/Examples/Setting.antt =====
-- A chat server with one room, "1", and one user in it, "7".
use chatflow.Prelude.{
  ◌≤◌, String, ◌≡◌, ◌==◌, refl, subst, eq_iff, inl, inr, false, Option, none, some, List, [], ◌∷◌,
  arith, if◌then◌else◌, Bool-cases,
}
use chatflow.Prelude.Int.{ℤ, pos}
use chatflow.Prelude.Dict.{get}
use chatflow.Prelude.Seq.{length}
use chatflow.Models.{Message, Response, zero_message, message_type_join}
use chatflow.Server.{Client, RoomEvent, Room, Server, running, fresh_conn}
use chatflow.Server.Handler.{Readings}
use chatflow.Server.Invariant.{RoomInv, Inv}
use chatflow.Rabbit.{Rabbit, new_rabbit_mq}

abbrev pub parse_time : String → Option ℤ
parse_time s = if s == "" then none else some (pos 0)

abbrev pub rabbit : Rabbit
rabbit = new_rabbit_mq "s1" 2 2 3

abbrev pub clock : Readings
clock = record {
  response_time = "r";
  leave_time = "l";
  queue_time = "q";
  message_id = "m";
  fallback_id = "f";
}

abbrev pub hello : Response
hello = record {
  message = zero_message;
  server_timestamp = "now";
  status = 200;
  error = "";
  payload = none;
}

abbrev pub join_message : Message
join_message = record {
  user_id = "7";
  username = "user-7";
  message = "";
  timestamp = "now";
  message_type = message_type_join;
}

abbrev pub seven : Client
seven = record {
  conn = 0;
  send = record { cap = 2; queue = []; closed = false };
  room = "1";
  user_id = "7";
}

-- The room with the events that wait in its channel.
abbrev pub room_with : List RoomEvent → Room
room_with events = record {
  users = ("7", 0) ∷ [];
  broadcast = record { cap = 2; queue = events; closed = false };
  loop = running;
  dropped_broadcast = 0;
  dropped_send = 0;
}

abbrev pub server_with : List RoomEvent → Server Rabbit
server_with events = record {
  id = "s1";
  cancelled = false;
  buffer_size = 2;
  rooms = ("1", room_with events) ∷ [];
  rabbit = some rabbit;
  user_rooms = ("7", "1" ∷ []) ∷ [];
  max_rooms = 0;
  successful_requests = 0;
  failed_requests = 0;
  clients = λ p. seven;
  next_client = 1;
  conns = λ c. fresh_conn;
}

disjoint : {A : Type 0} {a : A} → ¬ (none ≡ some a)
disjoint e = cc

some_eq : {A : Type 0} {a b : A} → some a ≡ some b → a ≡ b
some_eq e = cc

-- What is found in a map with one entry is that entry.
only : {V : Type 0} (k j : String) (v w : V) → get ((k, v) ∷ []) j ≡ some w → (k ≡ j) × (v ≡ w)
unfolding get
only k j v w e = elim (Bool-cases (k == j)) [
  | inl same ↦ ((eq_iff k j).0 same, some_eq (rw same at e))
  | inr other ↦ absurd (disjoint (rw other at e))
]

room_with-RoomInv :
    (events : List RoomEvent)
    → length events ≤ 2
    → RoomInv (server_with events).clients 1 "1" (room_with events)
unfolding get
room_with-RoomInv events short = record {
  distinct = (refl, tt);
  entries = λ user p e.
      let (named, addressed) = only "7" user 0 p e in
      record {
        below = omega (arith, addressed);
        user_matches = named;
        room_matches = refl;
        send_open = λ live. refl;
      };
  broadcast_open = refl;
  broadcast_bounded = short;
}

pub server_with-Inv : (events : List RoomEvent) → length events ≤ 2 → Inv (server_with events)
unfolding get
server_with-Inv events short = record {
  distinct_rooms = (refl, tt);
  rooms_inv = λ room_id room e.
      let (named, found) = only "1" room_id (room_with events) room e in
      subst (λ i. RoomInv (server_with events).clients 1 i room) named
        (subst (RoomInv (server_with events).clients 1 "1") found (room_with-RoomInv events short));
}
