-- ===== src/Server/Roster/Handlers.antt =====
-- A step of a connection's handler, and a round of its writer, as steps of the roster.
use chatflow.Prelude.{
  ℕ, String, refl, ◌==◌, inl, inr, Bool, true, false, not, ◌&&◌, Option, none, some, List, [], ◌∷◌,
  if◌then◌else◌, Bool-cases, Option-cases,
}
use chatflow.Prelude.Int.{ℤ}
use chatflow.Models.{
  Message, Response, QueueMessage, message_type_join, message_type_text, message_type_leave,
}
use chatflow.Models.Respond.{new_response}
use chatflow.Server.{Server, Broker, Outcome, ok, err, panic}
use chatflow.Server.Rooms.{record_success, record_failure, close_conn, add_user_to_room}
use chatflow.Server.Broadcast.{broadcast, schedule_remove_user}
use chatflow.Server.Handler.{
  Readings, Session, Phase, Next, Handler, Input, Writer, no_writer, writing, write_done, upgrading,
  joining, publishing, reading, waiting, upgraded, upgrade_failed, received, read_failed, published,
  context_done, writer_exited, after_join, after_text, after_leave, after_loss, publish_to,
  abandon_publish, dispatch, start_session, handle_join, handle_message, handle_loss, announce,
  resume, finish, chat_room_handler, drain_send, write_response, handle_client_writes,
}
use chatflow.Server.Invariant.{OnReturn, OnReturn-bind}
use chatflow.Server.Roster.{stays}
use chatflow.Server.Roster.Rounds.{Still, Stirs, Stirs-Still, Still-Stirs}
use chatflow.Server.Roster.Joins.{
  broadcast-Still, schedule_remove_user-Stirs, add_user_to_room-Stirs,
}

module _ {R : Type 0} where
  -- A step that returns leaves the roster as it is, or takes one step of it.
  abbrev pub Turns : Server R → Outcome (Server R × Handler) → Type 0
  Turns s o = OnReturn (λ r. Stirs s r.0) o

  resume-Turns :
      (s t : Server R) (h : Handler) (session : Session) (n : Next)
      → Still s t
      → Turns s (resume t h session n)
  unfolding resume record_success
  resume-Turns s t h session after_join e = stays e
  resume-Turns s t h session after_text e = stays e
  resume-Turns s t h session after_leave e =
      OnReturn-bind (Stirs t) (λ r. Stirs s r.0) (schedule_remove_user t session.client) _
        (schedule_remove_user-Stirs t session.client) λ u h. Still-Stirs s t u e h
  resume-Turns s t h session after_loss e =
      OnReturn-bind (Stirs t) (λ r. Stirs s r.0) (schedule_remove_user t session.client) _
        (schedule_remove_user-Stirs t session.client) λ u h. Still-Stirs s t u e h

  fail-Stays : (s : Server R) (h : Handler) → Stirs s (finish (record_failure s) h).0
  unfolding finish record_failure close_conn
  fail-Stays s h = stays refl

module _ {R : Type 0} (b : Broker R) (parse_time : String → Option ℤ) where
  -- The broadcast of a response moves nobody.
  announce-Turns :
      (t : Readings) (s u : Server R) (h : Handler) (session : Session) (resp : Response) (n : Next)
      → Stirs s u
      → Turns s (announce b parse_time t u h session resp n)
  unfolding announce
  announce-Turns t s u h session resp n moved =
      OnReturn-bind (Still u) (λ r. Stirs s r.0) (broadcast u h.room_id resp) _
        (broadcast-Still u h.room_id resp) λ v e. Stirs-Still s u v moved e

  start_session-Turns :
      (t : Readings) (s : Server R) (h : Handler) (msg : Message) (o : Outcome (Server R × ℕ))
      → OnReturn (λ r. Stirs s r.0) o
      → Turns s (start_session b parse_time t s h msg o)
  unfolding start_session
  start_session-Turns t s h msg (ok (s', p)) moved =
      announce-Turns t s s' (record h { writer = writing p }) _ _ after_join moved
  start_session-Turns t s h msg (err e) moved = fail-Stays s h
  start_session-Turns t s h msg panic moved = tt

  join-Turns :
      (t : Readings) (s : Server R) (h : Handler) (msg : Message)
      → Turns s (handle_join b parse_time t s h msg)
  unfolding handle_join
  join-Turns t s h msg =
      let joined = add_user_to_room b s msg.user_id h.room_id h.conn in
      elim (msg.message_type == message_type_join)
        as (λ c. Turns s (
          if c
          then start_session b parse_time t s h msg joined
          else ok (finish (record_failure s) h))) [
            | true ↦
                start_session-Turns t s h msg joined
                  (add_user_to_room-Stirs b s msg.user_id h.room_id h.conn)
            | false ↦ fail-Stays s h
          ]

  message-Turns :
      (t : Readings) (s : Server R) (h : Handler) (session : Session) (msg : Message)
      → Turns s (handle_message b parse_time t s h session msg)
  unfolding handle_message
  message-Turns t s h session msg =
      let resp = new_response parse_time t.response_time msg in
      let send = λ (n : Next). announce b parse_time t s h session resp n in
      let sent = λ (n : Next). announce-Turns t s s h session resp n (stays refl) in
      elim (msg.message_type == message_type_join)
        as (λ c. Turns s (
          if c
          then ok (s, h)
          else if msg.message_type == message_type_text
          then send after_text
          else if msg.message_type == message_type_leave
          then send after_leave
          else ok (s, h))) [
            | true ↦ stays refl
            | false ↦
                elim (msg.message_type == message_type_text)
                  as (λ c. Turns s (
                    if c
                    then send after_text
                    else if msg.message_type == message_type_leave
                    then send after_leave
                    else ok (s, h))) [
                      | true ↦ sent after_text
                      | false ↦
                          elim (msg.message_type == message_type_leave)
                            as (λ c. Turns s (if c then send after_leave else ok (s, h))) [
                              | true ↦ sent after_leave
                              | false ↦ stays refl
                            ]
                    ]
          ]

  loss-Turns :
      (t : Readings) (s : Server R) (h : Handler) (session : Session) (clean : Bool)
      → Turns s (handle_loss b parse_time t s h session clean)
  unfolding handle_loss
  loss-Turns t s h session true = announce-Turns t s s h session _ after_loss (stays refl)
  loss-Turns t s h session false =
      announce-Turns t s (record_failure s) h session _ after_loss
        (unfold record_failure in stays refl)

  publish-Turns :
      (s : Server R) (h : Handler) (session : Session) (q : QueueMessage) (n : Next) (o : Option R)
      → Turns s (publish_to b parse_time s h session q n o)
  unfolding publish_to
  publish-Turns s h session q n none = resume-Turns s s h session n refl
  publish-Turns s h session q n (some rabbit) = elim (Option-cases (b.publish rabbit h.room_id q)) [
    | inl e ↦ rw (e, publish_to, OnReturn) (stays refl)
    | inr (rabbit', e) ↦ rw (e, publish_to) (resume-Turns s _ h session n refl)
  ]

  abandon-Turns :
      (s : Server R) (h : Handler) (session : Session) (n : Next) (o : Option R)
      → Turns s (abandon_publish b parse_time s h session n o)
  unfolding abandon_publish
  abandon-Turns s h session n none = stays refl
  abandon-Turns s h session n (some rabbit) =
      elim s.cancelled
        as (λ c. Turns s (
          if c
          then resume (record s { rabbit = some (b.abandon rabbit) }) h session n
          else ok (s, h))) [ true ↦ resume-Turns s _ h session n refl | false ↦ stays refl ]

  dispatch-Turns :
      (t : Readings) (s : Server R) (h : Handler) (phase : Phase) (input : Input)
      → Turns s (dispatch b parse_time t s h phase input)
  unfolding dispatch
  dispatch-Turns t s h upgrading upgraded = stays refl
  dispatch-Turns t s h upgrading upgrade_failed = unfold record_failure in stays refl
  dispatch-Turns t s h joining (received msg) = join-Turns t s h msg
  dispatch-Turns t s h joining (read_failed clean) = fail-Stays s h
  dispatch-Turns t s h (publishing session q n) published = publish-Turns s h session q n s.rabbit
  dispatch-Turns t s h (publishing session q n) context_done = abandon-Turns s h session n s.rabbit
  dispatch-Turns t s h (reading session) (received msg) = message-Turns t s h session msg
  dispatch-Turns t s h (reading session) (read_failed clean) = loss-Turns t s h session clean
  dispatch-Turns t s h waiting writer_exited =
      elim h.writer
        as (λ w. Turns s (elim w [
          | no_writer ↦ ok (s, h)
          | writing p ↦ ok (s, h)
          | write_done ↦ ok (finish s h)
        ])) [
          | no_writer ↦ stays refl
          | writing p ↦ stays refl
          | write_done ↦ unfold finish close_conn in stays refl
        ]
  dispatch-Turns t s h phase input = stays refl

  pub chat_room_handler-Turns :
      (t : Readings) (s : Server R) (h : Handler) (input : Input)
      → Turns s (chat_room_handler b parse_time t s h input)
  unfolding chat_room_handler
  chat_room_handler-Turns t s h input = dispatch-Turns t s h h.phase input

module _ {R : Type 0} where
  write_response-Still :
      (s : Server R) (p : ℕ) (accepts : Bool) (resp : Option Response)
      (rest : List (Option Response))
      → Still s (write_response s p (s.clients p) accepts resp rest).0
  unfolding write_response close_conn
  write_response-Still s p accepts resp rest =
      elim (Bool-cases (accepts && not (s.conns (s.clients p).conn).closed)) [
        | inl e ↦ simp e
        | inr e ↦ simp e
      ]

  drain_send-Still :
      (s : Server R) (p : ℕ) (accepts : Bool) (queue : List (Option Response))
      → Still s (drain_send s p (s.clients p) accepts queue).0
  unfolding drain_send
  drain_send-Still s p accepts [] = refl
  drain_send-Still s p accepts (resp ∷ rest) = write_response-Still s p accepts resp rest

  pub handle_client_writes-Still :
      (s : Server R) (accepts : Bool) (writer : Writer)
      → Still s (handle_client_writes s accepts writer).0
  unfolding handle_client_writes
  handle_client_writes-Still s accepts (writing p) =
      drain_send-Still s p accepts (s.clients p).send.queue
  handle_client_writes-Still s accepts no_writer = refl
  handle_client_writes-Still s accepts write_done = refl
