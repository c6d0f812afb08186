-- ===== src/Server/System/Steps.antt =====
-- Every step of a handler keeps the invariant, and does not panic.
use chatflow.Prelude.{
  ℕ, String, ◌≡◌, ◌≢◌, refl, ◌==◌, inl, inr, Bool, true, false, Option, none, if◌then◌else◌,
  Option-cases,
}
use chatflow.Prelude.Int.{ℤ}
use chatflow.Prelude.Dict.{get}
use chatflow.Models.{Message, Response, message_type_join, message_type_text, message_type_leave}
use chatflow.Models.Respond.{new_response}
use chatflow.Server.{Server, Broker, Outcome, ok, err, panic, running}
use chatflow.Server.Rooms.{record_success, record_failure, add_user_to_room}
use chatflow.Server.Broadcast.{broadcast, schedule_remove_user}
use chatflow.Server.Handler.{
  Readings, Session, Next, Handler, writing, after_join, after_text, after_leave, after_loss,
  start_session, handle_join, handle_message, handle_loss, announce, resume, finish,
}
use chatflow.Server.Invariant.{IsEntry, Inv, Safely, OnReturn, Safely-bind, Safely-and}
use chatflow.Server.Invariant.Joins.{add_user_to_room-Inv, add_user_to_room-Entry}
use chatflow.Server.Invariant.Sends.{broadcast-Inv, schedule_remove_user-Inv, close_conn-Inv}
use chatflow.Server.Invariant.Growth.{
  Grows, Grows-refl, Grows-trans, Grows-close_conn, add_user_to_room-Grows,
}
use chatflow.Server.Invariant.GrowthRounds.{broadcast-Grows, schedule_remove_user-Grows}
use chatflow.Server.System.Sessions.{
  SessionInv, PhaseInv, StepOk, SessionInv-Grows, Inv-counts, Grows-counts,
}

module _ {R : Type 0} where
  broadcast-Step :
      (s : Server R) (room_id : String) (resp : Response)
      → get s.rooms room_id ≢ none
      → Inv s
      → Safely (λ t. Inv t × Grows s t) (broadcast s room_id resp)
  broadcast-Step s room_id resp exists h = elim (Option-cases (get s.rooms room_id)) [
    | inl e ↦ absurd (exists e)
    | inr (room, e) ↦
        Safely-and Inv (Grows s) (broadcast s room_id resp) (broadcast-Inv s room_id room resp e h)
          (broadcast-Grows s room_id resp)
  ]

  schedule-Step :
      (s : Server R) (room_id : String) (session : Session)
      → SessionInv s room_id session
      → Inv s
      → Safely (λ t. Inv t × Grows s t) (schedule_remove_user s session.client)
  schedule-Step s room_id session si h =
      elim (Option-cases (get s.rooms (s.clients session.client).room)) [
        | inl e ↦ absurd (si.room_exists (rw si.in_room at e))
        | inr (room, e) ↦
            Safely-and Inv (Grows s) (schedule_remove_user s session.client)
              (schedule_remove_user-Inv s session.client room e h)
              (schedule_remove_user-Grows s session.client)
      ]

  pub finish-StepOk :
      (s t : Server R) (h h' : Handler)
      → h'.room_id ≡ h.room_id
      → Grows s t
      → Inv t
      → StepOk s h (finish t h')
  unfolding finish
  finish-StepOk s t h h' same g i = record {
    inv = close_conn-Inv t h'.conn i;
    grows = Grows-trans g (Grows-close_conn t h'.conn);
    same_room = same;
    phase_inv = tt;
  }

  pub resume-Step :
      (s t : Server R) (h : Handler) (session : Session) (n : Next)
      → Grows s t
      → Inv t
      → SessionInv t h.room_id session
      → Safely (StepOk s h) (resume t h session n)
  unfolding resume record_success
  resume-Step s t h session after_join g i si = record {
    inv = Inv-counts refl refl refl i;
    grows = Grows-trans g (Grows-counts refl refl refl);
    same_room = refl;
    phase_inv = SessionInv-Grows (Grows-counts refl refl refl) si;
  }
  resume-Step s t h session after_text g i si = record {
    inv = Inv-counts refl refl refl i;
    grows = Grows-trans g (Grows-counts refl refl refl);
    same_room = refl;
    phase_inv = SessionInv-Grows (Grows-counts refl refl refl) si;
  }
  resume-Step s t h session after_leave g i si =
      Safely-bind (λ u. Inv u × Grows t u) (StepOk s h) (schedule_remove_user t session.client) _
        (schedule-Step t h.room_id session si i)
        λ u (iu, gu). record {
          inv = Inv-counts refl refl refl iu;
          grows = Grows-trans g (Grows-trans gu (Grows-counts refl refl refl));
          same_room = refl;
          phase_inv = tt;
        }
  resume-Step s t h session after_loss g i si =
      Safely-bind (λ u. Inv u × Grows t u) (StepOk s h) (schedule_remove_user t session.client) _
        (schedule-Step t h.room_id session si i)
        λ u (iu, gu). record {
          inv = iu;
          grows = Grows-trans g gu;
          same_room = refl;
          phase_inv = tt;
        }

module _ {R : Type 0} (b : Broker R) (parse_time : String → Option ℤ) where
  announce-Step :
      (t : Readings) (s u : Server R) (h h' : Handler) (session : Session) (resp : Response)
      (n : Next)
      → h'.room_id ≡ h.room_id
      → Grows s u
      → Inv u
      → SessionInv u h'.room_id session
      → Safely (StepOk s h) (announce b parse_time t u h' session resp n)
  unfolding announce
  announce-Step t s u h h' session resp n same g i si =
      Safely-bind (λ v. Inv v × Grows u v) (StepOk s h) (broadcast u h'.room_id resp) _
        (broadcast-Step u h'.room_id resp si.room_exists i)
        λ v (iv, gv). record {
          inv = iv;
          grows = Grows-trans g gv;
          same_room = same;
          phase_inv = SessionInv-Grows gv si;
        }

  pub fail-StepOk : (s : Server R) (h : Handler) → Inv s → StepOk s h (finish (record_failure s) h)
  unfolding record_failure
  fail-StepOk s h i =
      finish-StepOk s _ h h refl (Grows-counts refl refl refl) (Inv-counts refl refl refl i)

  start_session-Step :
      (t : Readings) (s : Server R) (h : Handler) (msg : Message) (o : Outcome (Server R × ℕ))
      → Inv s
      → Safely (λ r. Inv r.0) o
      → OnReturn (λ r. Grows s r.0) o
      → OnReturn
          (λ r.
            IsEntry r.0.clients r.0.next_client h.room_id running msg.user_id r.1
            × (get r.0.rooms h.room_id ≢ none))
          o
      → Safely (StepOk s h) (start_session b parse_time t s h msg o)
  unfolding start_session
  start_session-Step t s h msg (ok (s', p)) i inv grows (entry, exists) =
      announce-Step t s s' h (record h { writer = writing p }) _ _ after_join refl grows inv
        (record {
          allocated = entry.below;
          owner = entry.user_matches;
          in_room = entry.room_matches;
          room_exists = exists;
        })
  start_session-Step t s h msg (err e) i inv grows entry = fail-StepOk s h i
  start_session-Step t s h msg panic i inv grows entry = inv

  pub join-Step :
      (t : Readings) (s : Server R) (h : Handler) (msg : Message)
      → Inv s
      → Safely (StepOk s h) (handle_join b parse_time t s h msg)
  unfolding handle_join
  join-Step t s h msg i =
      let joined = add_user_to_room b s msg.user_id h.room_id h.conn in
      elim (msg.message_type == message_type_join)
        as (λ c. Safely (StepOk s h) (
          if c
          then start_session b parse_time t s h msg joined
          else ok (finish (record_failure s) h))) [
            | true ↦
                start_session-Step t s h msg joined i
                  (add_user_to_room-Inv b s msg.user_id h.room_id h.conn i)
                  (add_user_to_room-Grows b s msg.user_id h.room_id h.conn)
                  (add_user_to_room-Entry b s msg.user_id h.room_id h.conn)
            | false ↦ fail-StepOk s h i
          ]

  pub stay : (s : Server R) (h : Handler) → Inv s → PhaseInv s h.room_id h.phase → StepOk s h (s, h)
  stay s h i pi = record { inv = i; grows = Grows-refl s; same_room = refl; phase_inv = pi }

  pub message-Step :
      (t : Readings) (s : Server R) (h : Handler) (session : Session) (msg : Message)
      → Inv s
      → SessionInv s h.room_id session
      → PhaseInv s h.room_id h.phase
      → Safely (StepOk s h) (handle_message b parse_time t s h session msg)
  unfolding handle_message
  message-Step t s h session msg i si pi =
      let resp = new_response parse_time t.response_time msg in
      let send = λ (n : Next). announce b parse_time t s h session resp n in
      let sent = λ (n : Next). announce-Step t s s h h session resp n refl (Grows-refl s) i si in
      elim (msg.message_type == message_type_join)
        as (λ c. Safely (StepOk s h) (
          if c
          then ok (s, h)
          else if msg.message_type == message_type_text
          then send after_text
          else if msg.message_type == message_type_leave
          then send after_leave
          else ok (s, h))) [
            | true ↦ stay s h i pi
            | false ↦
                elim (msg.message_type == message_type_text)
                  as (λ c. Safely (StepOk s h) (
                    if c
                    then send after_text
                    else if msg.message_type == message_type_leave
                    then send after_leave
                    else ok (s, h))) [
                      | true ↦ sent after_text
                      | false ↦
                          elim (msg.message_type == message_type_leave)
                            as (λ c.
                              Safely (StepOk s h) (if c then send after_leave else ok (s, h))) [
                                | true ↦ sent after_leave
                                | false ↦ stay s h i pi
                              ]
                    ]
          ]

  pub loss-Step :
      (t : Readings) (s : Server R) (h : Handler) (session : Session) (clean : Bool)
      → Inv s
      → SessionInv s h.room_id session
      → Safely (StepOk s h) (handle_loss b parse_time t s h session clean)
  unfolding handle_loss
  loss-Step t s h session true i si =
      announce-Step t s s h h session _ after_loss refl (Grows-refl s) i si
  loss-Step t s h session false i si =
      let g : Grows s (record_failure s) = unfold record_failure in Grows-counts refl refl refl in
      announce-Step t s (record_failure s) h h session _ after_loss refl g
        (unfold record_failure in Inv-counts refl refl refl i) (SessionInv-Grows g si)
