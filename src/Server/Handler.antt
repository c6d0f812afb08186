-- ===== src/Server/Handler.antt =====
-- internal/server/chatRoomHandler.go: one connection, from the upgrade to the return of
-- `ChatRoomHandler`, with its writer goroutine. A step ends where the code waits: for a read, for
-- the broker's publish queue, and for the writer to finish.
use chatflow.Prelude.{
  ℕ, String, ◌==◌, Bool, not, ◌&&◌, Option, none, some, List, [], ◌∷◌, ◌++◌, if◌then◌else◌,
}
use chatflow.Prelude.Int.{ℤ}
use chatflow.Prelude.Store.{update}
use chatflow.Models.{
  Message, Response, QueueMessage, new_message, message_type_join, message_type_text,
  message_type_leave,
}
use chatflow.Models.Respond.{new_response}
use chatflow.Server.{Client, Server, Broker, Outcome, ok, err, panic, ◌>>=◌}
use chatflow.Server.Rooms.{record_success, record_failure, add_user_to_room, close_conn}
use chatflow.Server.Broadcast.{broadcast, schedule_remove_user}

-- What a step reads from the clock (as texts in RFC 3339) and from the generator of UUIDs.
pub record Readings : Type 0 where
  pub response_time : String
  pub leave_time : String
  pub queue_time : String
  pub message_id : String
  pub fallback_id : String

-- The writer goroutine: not started, at work for a client, or returned with `writeDone` closed.
pub data Writer : Type 0 where
  no_writer : Writer
  writing : ℕ → Writer
  write_done : Writer

-- `userId`, the client, and `resp.Username` of the JOIN response.
pub record Session : Type 0 where
  pub user_id : String
  pub username : String
  pub client : ℕ

-- What follows a `broadcastAndPublish`.
pub data Next : Type 0 where
  after_join : Next
  after_text : Next
  after_leave : Next
  after_loss : Next

pub data Phase : Type 0 where
  upgrading : Phase
  joining : Phase
  publishing : Session → QueueMessage → Next → Phase
  reading : Session → Phase
  waiting : Phase
  returned : Phase

pub record Handler : Type 0 where
  pub conn : ℕ
  pub room_id : String
  pub client_ip : String
  pub phase : Phase
  pub writer : Writer

-- What a handler waits for. `read_failed true` is one of the close errors of `IsCloseError`.
pub data Input : Type 0 where
  upgraded : Input
  upgrade_failed : Input
  received : Message → Input
  read_failed : Bool → Input
  published : Input
  context_done : Input
  writer_exited : Input

unfoldable pub queue_message : Readings → String → String → Response → String → QueueMessage
queue_message t server_id room_id resp client_ip = record {
  message_id = t.message_id;
  room_id = room_id;
  username = resp.message.username;
  message = resp.message;
  timestamp = t.queue_time;
  message_type = resp.message.message_type;
  server_id = server_id;
  client_ip = client_ip;
}

module _ {R : Type 0} where
  -- defer conn.Close()
  unfoldable pub finish : Server R → Handler → Server R × Handler
  unfolding close_conn
  finish s h = (close_conn s h.conn, record h { phase = returned })

  -- The end of a step that sent nothing.
  abbrev pub fail : Server R → Handler → Outcome (Server R × Handler)
  fail s h = ok (finish (record_failure s) h)

  -- `serverId` of `broadcastAndPublish`.
  unfoldable pub origin : Broker R → Option R → Readings → String
  origin b none t = t.fallback_id
  origin b (some rabbit) t = b.server_id rabbit

  -- What is left after the publish of `broadcastAndPublish`.
  unfoldable pub resume : Server R → Handler → Session → Next → Outcome (Server R × Handler)
  resume s h session after_join = ok (record_success s, record h { phase = reading session })
  resume s h session after_text = ok (record_success s, record h { phase = reading session })
  resume s h session after_leave = schedule_remove_user s session.client >>= λ s'.
      ok (record_success s', record h { phase = waiting })
  resume s h session after_loss =
      schedule_remove_user s session.client >>= λ s'. ok (s', record h { phase = waiting })

module _ {R : Type 0} (b : Broker R) (parse_time : String → Option ℤ) where
  -- `broadcastAndPublish` up to the call of `Publish`.
  unfoldable pub announce :
      Readings → Server R → Handler → Session → Response → Next → Outcome (Server R × Handler)
  unfolding origin queue_message
  announce t s h session resp next = broadcast s h.room_id resp >>= λ s'.
      let q = queue_message t (origin b s.rabbit t) h.room_id resp h.client_ip in
      ok (s', record h { phase = publishing session q next })

  -- `AddUserToRoom` and what follows it; the writer goroutine starts.
  unfoldable pub start_session :
      Readings
      → Server R
      → Handler
      → Message
      → Outcome (Server R × ℕ)
      → Outcome (Server R × Handler)
  unfolding announce
  start_session t s h msg (ok (s', p)) =
      let resp = new_response parse_time t.response_time msg in
      let session : Session = record {
        user_id = msg.user_id;
        username = resp.message.username;
        client = p;
      } in
      announce t s' (record h { writer = writing p }) session resp after_join
  start_session t s h msg (err e) = fail s h
  start_session t s h msg panic = panic

  unfoldable pub handle_join :
      Readings → Server R → Handler → Message → Outcome (Server R × Handler)
  unfolding start_session
  handle_join t s h msg =
      if msg.message_type == message_type_join
      then start_session t s h msg (add_user_to_room b s msg.user_id h.room_id h.conn)
      else fail s h

  -- The `switch` of the read loop.
  unfoldable pub handle_message :
      Readings → Server R → Handler → Session → Message → Outcome (Server R × Handler)
  unfolding announce
  handle_message t s h session msg =
      let resp = new_response parse_time t.response_time msg in
      if msg.message_type == message_type_join
      then ok (s, h)
      else if msg.message_type == message_type_text
      then announce t s h session resp after_text
      else if msg.message_type == message_type_leave
      then announce t s h session resp after_leave
      else ok (s, h)

  -- The LEAVE that is made up for a client whose connection is gone.
  unfoldable pub synthetic_leave : Readings → Session → Response
  unfolding new_message
  synthetic_leave t session =
      let msg = new_message session.user_id session.username "" message_type_leave in
      let resp = new_response parse_time t.response_time msg in
      record resp { server_timestamp = t.leave_time }

  unfoldable pub handle_loss :
      Readings → Server R → Handler → Session → Bool → Outcome (Server R × Handler)
  unfolding announce synthetic_leave
  handle_loss t s h session clean =
      let s' = if clean then s else record_failure s in
      announce t s' h session (synthetic_leave t session) after_loss

  unfoldable pub publish_to :
      Server R → Handler → Session → QueueMessage → Next → Option R → Outcome (Server R × Handler)
  unfolding resume
  publish_to s h session q next none = resume s h session next
  publish_to s h session q next (some rabbit) = elim (b.publish rabbit h.room_id q) [
    | none ↦ ok (s, h)
    | some rabbit' ↦ resume (record s { rabbit = some rabbit' }) h session next
  ]

  unfoldable pub abandon_publish :
      Server R → Handler → Session → Next → Option R → Outcome (Server R × Handler)
  unfolding resume
  abandon_publish s h session next none = ok (s, h)
  abandon_publish s h session next (some rabbit) =
      if s.cancelled
      then resume (record s { rabbit = some (b.abandon rabbit) }) h session next
      else ok (s, h)

  -- An input that the phase does not wait for is not taken.
  unfoldable pub dispatch :
      Readings → Server R → Handler → Phase → Input → Outcome (Server R × Handler)
  unfolding handle_join handle_message handle_loss publish_to abandon_publish finish
  dispatch t s h upgrading upgraded = ok (s, record h { phase = joining })
  dispatch t s h upgrading upgrade_failed = ok (record_failure s, record h { phase = returned })
  dispatch t s h joining (received msg) = handle_join t s h msg
  dispatch t s h joining (read_failed clean) = fail s h
  dispatch t s h (publishing session q next) published = publish_to s h session q next s.rabbit
  dispatch t s h (publishing session q next) context_done =
      abandon_publish s h session next s.rabbit
  dispatch t s h (reading session) (received msg) = handle_message t s h session msg
  dispatch t s h (reading session) (read_failed clean) = handle_loss t s h session clean
  dispatch t s h waiting writer_exited = elim h.writer [
    | no_writer ↦ ok (s, h)
    | writing p ↦ ok (s, h)
    | write_done ↦ ok (finish s h)
  ]
  dispatch t s h phase input = ok (s, h)

  unfoldable pub chat_room_handler :
      Readings → Server R → Handler → Input → Outcome (Server R × Handler)
  unfolding dispatch
  chat_room_handler t s h input = dispatch t s h h.phase input

module _ {R : Type 0} where
  -- `WriteJSON`: a closed connection refuses, and an open one may.
  unfoldable pub write_response :
      Server R → ℕ → Client → Bool → Option Response → List (Option Response) → Server R × Writer
  unfolding close_conn
  write_response s p client accepts resp rest =
      let conn = s.conns client.conn in
      let chan = client.send in
      let s' = record s {
        clients = update s.clients p (record client { send = record chan { queue = rest } });
      } in
      if accepts && not conn.closed
      then (
        record s' {
          conns = update s.conns client.conn (record conn { written = conn.written ++ resp ∷ [] });
        },
        writing p,
      )
      else (close_conn s' client.conn, write_done)

  unfoldable pub drain_send :
      Server R → ℕ → Client → Bool → List (Option Response) → Server R × Writer
  unfolding write_response
  drain_send s p client accepts [] = (s, if client.send.closed then write_done else writing p)
  drain_send s p client accepts (resp ∷ rest) = write_response s p client accepts resp rest

  -- One round of `handleClientWrites`, but for the end of the context. With nothing to receive it
  -- waits.
  unfoldable pub handle_client_writes : Server R → Bool → Writer → Server R × Writer
  unfolding drain_send
  handle_client_writes s accepts (writing p) =
      let client = s.clients p in drain_send s p client accepts client.send.queue
  handle_client_writes s accepts writer = (s, writer)
