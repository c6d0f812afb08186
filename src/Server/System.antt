-- ===== src/Server/System.antt =====
-- The whole server process: any number of connections, each with its handler and its writer, the
-- broadcast goroutine of each room, the broker's callbacks, and the cancellation of the context, in
-- any order.
pub mod Sessions
pub mod Steps
pub mod Dispatch
pub mod Writes
pub mod Safety
use chatflow.Prelude.{ℕ, ◌+◌, String, ◌≡◌, Bool, true, Option, if◌then◌else◌}
use chatflow.Prelude.Int.{ℤ}
use chatflow.Prelude.Store.{update}
use chatflow.Models.{QueueMessage}
use chatflow.Server.{Server, Broker, Outcome, ok, err, panic, ◌>>=◌, new_server}
use chatflow.Server.Rooms.{shut_down}
use chatflow.Server.Broadcast.{broadcast_round, broadcast_done, consume_message}
use chatflow.Server.Handler.{
  Readings, Handler, Input, upgrading, returned, no_writer, writing, write_done, Writer,
  chat_room_handler, handle_client_writes,
}

-- Handlers are numbered by their connections.
pub record System (R : Type 0) : Type 0 where
  pub server : Server R
  pub handlers : ℕ → Handler
  pub next_conn : ℕ

pub data Action : Type 0 where
  -- a request for /chat/{roomId}
  connects : String → String → Action
  -- the handler of a connection takes an input
  handles : ℕ → Readings → Input → Action
  -- the writer of a connection goes a round; the flag is whether the network takes the write
  writes : ℕ → Bool → Action
  -- the writer of a connection sees that the context is cancelled
  stops_writing : ℕ → Action
  -- the broadcast goroutine of a room goes a round, or sees that the context is cancelled
  rounds : String → Action
  stops : String → Action
  -- the broker calls back with a message, or with a body that is none
  delivers : String → String → Option QueueMessage → Action
  -- the process is interrupted, and the server closes the connections of the users in its rooms
  cancels : Action
  shuts_down : Action

abbrev pub new_handler : ℕ → String → String → Handler
new_handler conn room_id client_ip = record {
  conn = conn;
  room_id = room_id;
  client_ip = client_ip;
  phase = upgrading;
  writer = no_writer;
}

-- A connection that was never made.
abbrev pub no_handler : Handler
no_handler = record { conn = 0; room_id = ""; client_ip = ""; phase = returned; writer = no_writer }

abbrev pub boot : {R : Type 0} → String → ℕ → Option R → ℕ → System R
boot id buffer_size rabbit max_rooms = record {
  server = new_server id buffer_size rabbit max_rooms;
  handlers = λ k. no_handler;
  next_conn = 0;
}

stop_writer : Bool → Writer → Writer
stop_writer cancelled (writing p) = if cancelled then write_done else writing p
stop_writer cancelled writer = writer

abbrev pub set_handler : {R : Type 0} → System R → ℕ → Server R → Handler → System R
set_handler w k s h = record w { server = s; handlers = update w.handlers k h }

module _ {R : Type 0} (b : Broker R) (parse_time : String → Option ℤ) where
  unfoldable pub perform : System R → Action → Outcome (System R)
  unfolding stop_writer
  perform w (connects room_id client_ip) = ok (record w {
    handlers = update w.handlers w.next_conn (new_handler w.next_conn room_id client_ip);
    next_conn = w.next_conn + 1;
  })
  perform w (handles k t input) =
      chat_room_handler b parse_time t w.server (w.handlers k) input >>= λ r.
      ok (set_handler w k r.0 r.1)
  perform w (writes k accepts) =
      let h = w.handlers k in
      let (s, writer) = handle_client_writes w.server accepts h.writer in
      ok (set_handler w k s (record h { writer = writer }))
  perform w (stops_writing k) =
      let h = w.handlers k in
      ok (set_handler w k w.server (record h { writer = stop_writer w.server.cancelled h.writer }))
  perform w (rounds room_id) =
      broadcast_round w.server room_id >>= λ s. ok (record w { server = s })
  perform w (stops room_id) = ok (record w { server = broadcast_done w.server room_id })
  perform w (delivers room_id now q) =
      consume_message parse_time w.server room_id now q >>= λ s. ok (record w { server = s })
  perform w shuts_down = ok (record w { server = shut_down w.server })
  perform w cancels = let s = w.server in ok (record w { server = record s { cancelled = true } })

  -- The states that some interleaving leads to.
  pub data Reach (start : System R) : System R → Type 0 where
    here : Reach start start
    later : {w v : System R} → Reach start w → (a : Action) → perform w a ≡ ok v → Reach start v
