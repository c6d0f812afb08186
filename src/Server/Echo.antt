-- ===== src/Server/Echo.antt =====
-- internal/server: what `consumeMessages` makes of a message that `broadcastAndPublish` published,
-- on the same server and on another one.
use chatflow.Prelude.{
  ◌<◌, String, ◌≡◌, ◌≢◌, refl, ap, ◌==◌, eq_iff, eq_refl, false, Option, some, arith, lt→ltb,
}
use chatflow.Prelude.Int.{ℤ}
use chatflow.Prelude.Seq.{length}
use chatflow.Prelude.Chan.{push, try_send-open}
use chatflow.Prelude.Dict.{get}
use chatflow.Models.{Message, Response, QueueMessage}
use chatflow.Models.Validate.Exact.{IsWellFormed}
use chatflow.Models.Respond.{new_response}
use chatflow.Models.Respond.Verdict.{IsEcho, new_response_answers}
use chatflow.Server.{Room, Server, Broker, Outcome, ok, err, panic, ◌>>=◌}
use chatflow.Server.Broadcast.{broadcast, set_room, consume_message, forward, message_event}
use chatflow.Server.Handler.{
  Readings, Session, Handler, Next, publishing, announce, origin, queue_message,
}

eq_false : (a b : String) → a ≢ b → (a == b) ≡ false
eq_false a b h = ground (arith, eq_iff a b)

paired :
    {R : Type 0} (g : Handler) (o : Outcome (Server R)) {s1 : Server R} {h1 : Handler}
    → ◌>>=◌ {B = Server R × Handler} o (λ s'. ok (s', g)) ≡ ok (s1, h1)
    → h1 ≡ g
paired g (ok s') e = cc
paired g (err x) e = cc
paired g panic e = cc

module _ {R : Type 0} (b : Broker R) (parse_time : String → Option ℤ) where
  -- If a server's broker carries the server's own id, then what the server publishes is dropped
  -- by every consumer of a server with that id, whatever its state: it is left as it was.
  pub announce-consume_message :
      (t : Readings) (s : Server R) (h : Handler) (session : Session) (resp : Response)
      (next : Next) (rabbit : R) (s1 : Server R) (h1 : Handler)
      → s.rabbit ≡ some rabbit
      → b.server_id rabbit ≡ s.id
      → announce b parse_time t s h session resp next ≡ ok (s1, h1)
      → (receiver : Server R) (room_id now : String) → receiver.id ≡ s.id
      → (q : QueueMessage) × (h1.phase ≡ publishing session q next)
        × (consume_message parse_time receiver room_id now (some q) ≡ ok receiver)
  unfolding announce consume_message queue_message origin
  announce-consume_message t s h session resp next rabbit s1 h1 linked own e receiver room_id now
        same =
      (
        queue_message t (origin b s.rabbit t) h.room_id resp h.client_ip,
        ap (λ (g : Handler). g.phase) (paired _ (broadcast s h.room_id resp) e),
        rw (linked, own, same, eq_refl s.id) refl,
      )

module _ {R : Type 0} (parse_time : String → Option ℤ) where
  -- If a server publishes the response to a well-formed message, and another server has the room
  -- with space in its channel, then the consumer there puts one response at the end of that
  -- channel, and does nothing else: the message is echoed, with the time of the publishing server.
  pub consume_message-foreign :
      (t : Readings) (s_id ip room_id now : String) (msg : Message) (receiver : Server R)
      (room : Room)
      → IsWellFormed parse_time msg
      → s_id ≢ receiver.id
      → get receiver.rooms room_id ≡ some room
      → room.broadcast.closed ≡ false
      → length room.broadcast.queue < room.broadcast.cap
      → let resp = new_response parse_time t.response_time msg in
        let q = queue_message t s_id room_id resp ip in
        (echo : Response) × IsEcho msg echo
        × (echo.server_timestamp ≡ t.queue_time)
        × (consume_message parse_time receiver room_id now (some q)
            ≡ ok (
                set_room receiver room_id
                  (record room { broadcast = push room.broadcast (message_event echo) })))
  unfolding consume_message queue_message forward
  consume_message-foreign t s_id ip room_id now msg receiver room good other found opened space =
      let first = (new_response_answers parse_time t.response_time msg).0 good in
      let again = (new_response_answers parse_time now msg).0 good in
      let resp = new_response parse_time now msg in
      let echo : Response = record resp { server_timestamp = t.queue_time } in
      (
        echo,
        record {
          status = again.status;
          message = again.message;
          error = again.error;
          payload = again.payload;
        },
        refl,
        rw
            (
              eq_false s_id receiver.id other,
              forward,
              found,
              first.message,
              try_send-open room.broadcast (message_event echo) opened,
              lt→ltb _ _ space,
            )
            refl,
      )
