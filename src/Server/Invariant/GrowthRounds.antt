-- ===== src/Server/Invariant/GrowthRounds.antt =====
-- The broadcast goroutine and the sends into `Broadcast` keep rooms and owners.
use chatflow.Prelude.{
  ℕ, String, ◌≡◌, refl, ◌∙◌, ◌==◌, inl, inr, true, false, Option, none, some, List, [], ◌∷◌, arith,
  eqb, if◌then◌else◌, Bool-cases, Option-cases,
}
use chatflow.Prelude.Int.{ℤ}
use chatflow.Prelude.Dict.{Dict, get}
use chatflow.Prelude.Store.{eqb→eq}
use chatflow.Prelude.Chan.{try_send, Offer, sent, full, panicked}
use chatflow.Models.{Response, QueueMessage}
use chatflow.Models.Respond.{new_response}
use chatflow.Server.{
  Client, Room, RoomEvent, Server, Loop, running, removing, stopped, Outcome, ok, err, panic,
}
use chatflow.Server.Rooms.{close_send, close_conn}
use chatflow.Server.Broadcast.{
  offer_client, fan_out, send_event, remove_event, handle_event, receive_event, loop_round,
  broadcast_round, close_users, stop_loop, broadcast_done, on_offer, forward, consume_message,
  broadcast, ignore_error, remove_directly, schedule_remove_user, message_event, removal_event,
}
use chatflow.Server.Invariant.{OnReturn, OnReturn-map, OnReturn-bind}
use chatflow.Server.Invariant.Growth.{
  Grows, Grows-refl, Grows-trans, Grows-set_room, Grows-close_send, Grows-close_conn,
  remove_from_user_rooms-Grows, remove_user_from_room-Grows,
}

-- Every client keeps its owner.
SameOwners : (ℕ → Client) → (ℕ → Client) → Type 0
SameOwners f g = (p : ℕ) → ((g p).user_id ≡ (f p).user_id) × ((g p).room ≡ (f p).room)

offer_client-SameOwners :
    (o : Offer (Option Response)) (clients : ℕ → Client) (dropped p : ℕ)
    → OnReturn (λ r. SameOwners clients r.0) (offer_client o clients dropped p)
unfolding offer_client SameOwners
offer_client-SameOwners (sent c) clients dropped p = λ q. elim (Bool-cases (eqb p q)) [
  | inl e ↦ rw (e, eqb→eq p q e) (refl, refl)
  | inr e ↦ rw e (refl, refl)
]
offer_client-SameOwners full clients dropped p = λ q. (refl, refl)
offer_client-SameOwners panicked clients dropped p = tt

fan_out-SameOwners :
    (resp : Option Response) (users : Dict ℕ) (clients : ℕ → Client) (dropped : ℕ)
    → OnReturn (λ r. SameOwners clients r.0) (fan_out resp users clients dropped)
unfolding fan_out
fan_out-SameOwners resp [] clients dropped = unfold SameOwners in λ p. (refl, refl)
fan_out-SameOwners resp ((user, p) ∷ users) clients dropped =
    OnReturn-bind (λ r. SameOwners clients r.0) (λ r. SameOwners clients r.0)
      (offer_client (try_send (clients p).send resp) clients dropped p)
      (λ r. fan_out resp users r.0 r.1)
      (offer_client-SameOwners (try_send (clients p).send resp) clients dropped p)
      λ r first.
        OnReturn-map (λ x. SameOwners r.0 x.0) (λ x. SameOwners clients x.0)
          (fan_out resp users r.0 r.1)
          (λ x later.
            unfold SameOwners in λ q. ((later q).0 ∙ (first q).0, (later q).1 ∙ (first q).1))
          (fan_out-SameOwners resp users r.0 r.1)

module _ {R : Type 0} where
  send_event-Grows :
      (s : Server R) (room_id : String) (room : Room) (resp : Option Response)
      → OnReturn (Grows s) (send_event s room_id room resp)
  unfolding send_event
  send_event-Grows s room_id room resp =
      OnReturn-bind (λ r. SameOwners s.clients r.0) (Grows s)
        (fan_out resp room.users s.clients room.dropped_send) _
        (fan_out-SameOwners resp room.users s.clients room.dropped_send)
        λ r owners.
          Grows-set_room s (record s { clients = r.0 }) room_id (record room { dropped_send = r.1 })
            (unfold SameOwners in
              record {
                next_grows = omega arith;
                rooms_stay = λ i h. h;
                user_stays = λ p h. (owners p).0;
                room_stays = λ p h. (owners p).1;
              })

  remove_event-Grows :
      (s : Server R) (room_id : String) (room : Room) (user : String)
      → Grows s (remove_event s room_id room user)
  unfolding remove_event
  remove_event-Grows s room_id room user = elim (Option-cases (get room.users user)) [
    | inl e ↦ rw (e, remove_event) (Grows-set_room s s room_id room (Grows-refl s))
    | inr (p, e) ↦
        rw (e, remove_event) (Grows-set_room s (close_send s p) room_id _ (Grows-close_send s p))
  ]

  receive_event-Grows :
      (s : Server R) (room_id : String) (room : Room) (queue : List RoomEvent)
      → OnReturn (Grows s) (receive_event s room_id room queue)
  unfolding receive_event handle_event
  receive_event-Grows s room_id room [] = Grows-refl s
  receive_event-Grows s room_id room (event ∷ rest) =
      let chan = room.broadcast in
      let room' = record room { broadcast = record chan { queue = rest } } in
      elim (event.remove_user_id == "")
        as (λ b. OnReturn (Grows s) (
          if b
          then send_event s room_id room' event.resp
          else ok (remove_event s room_id room' event.remove_user_id))) [
            | true ↦ send_event-Grows s room_id room' event.resp
            | false ↦ remove_event-Grows s room_id room' event.remove_user_id
          ]

  loop_round-Grows :
      (s : Server R) (room_id : String) (room : Room) (loop : Loop)
      → OnReturn (Grows s) (loop_round s room_id room loop)
  unfolding loop_round
  loop_round-Grows s room_id room running = receive_event-Grows s room_id room room.broadcast.queue
  loop_round-Grows s room_id room (removing user) =
      remove_from_user_rooms-Grows s _ user room_id
        (Grows-set_room s s room_id (record room { loop = running }) (Grows-refl s))
  loop_round-Grows s room_id room stopped = Grows-refl s

  pub broadcast_round-Grows :
      (s : Server R) (room_id : String) → OnReturn (Grows s) (broadcast_round s room_id)
  unfolding broadcast_round
  broadcast_round-Grows s room_id = elim (Option-cases (get s.rooms room_id)) [
    | inl e ↦ rw (e, broadcast_round, OnReturn) (Grows-refl s)
    | inr (room, e) ↦ rw (e, broadcast_round) (loop_round-Grows s room_id room room.loop)
  ]

  close_users-Grows : (s : Server R) (users : Dict ℕ) → Grows s (close_users s users)
  unfolding close_users
  close_users-Grows s [] = Grows-refl s
  close_users-Grows s ((user, p) ∷ users) =
      let t = close_conn s (s.clients p).conn in
      Grows-trans (Grows-trans (Grows-close_conn s (s.clients p).conn) (Grows-close_send t p))
        (close_users-Grows (close_send t p) users)

  stop_loop-Grows :
      (s : Server R) (room_id : String) (room : Room) (loop : Loop)
      → Grows s (stop_loop s room_id room loop)
  unfolding stop_loop
  stop_loop-Grows s room_id room running =
      Grows-set_room s _ room_id (record room { loop = stopped }) (close_users-Grows s room.users)
  stop_loop-Grows s room_id room (removing user) = Grows-refl s
  stop_loop-Grows s room_id room stopped = Grows-refl s

  pub broadcast_done-Grows : (s : Server R) (room_id : String) → Grows s (broadcast_done s room_id)
  unfolding broadcast_done
  broadcast_done-Grows s room_id = elim (Option-cases (get s.rooms room_id)) [
    | inl e ↦ rw (e, broadcast_done) (Grows-refl s)
    | inr (room, e) ↦
        rw (e, broadcast_done)
          (elim s.cancelled
            as (λ b. Grows s (if b then stop_loop s room_id room room.loop else s)) [
              | true ↦ stop_loop-Grows s room_id room room.loop
              | false ↦ Grows-refl s
            ])
  ]

  on_offer-Grows :
      (s : Server R) (room_id : String) (room : Room) (o : Offer RoomEvent)
      (dropped : Outcome (Server R))
      → OnReturn (Grows s) dropped
      → OnReturn (Grows s) (on_offer s room_id room o dropped)
  on_offer-Grows s room_id room (sent c) dropped h =
      Grows-set_room s s room_id (record room { broadcast = c }) (Grows-refl s)
  on_offer-Grows s room_id room full dropped h = h
  on_offer-Grows s room_id room panicked dropped h = tt

  forward-Grows :
      (s : Server R) (room_id : String) (resp : Response)
      → OnReturn (Grows s) (forward s room_id resp)
  unfolding forward
  forward-Grows s room_id resp = elim (Option-cases (get s.rooms room_id)) [
    | inl e ↦ rw (e, forward, OnReturn) (Grows-refl s)
    | inr (room, e) ↦
        rw (e, forward)
          (on_offer-Grows s room_id room (try_send room.broadcast (message_event resp)) (ok s)
            (Grows-refl s))
  ]

  pub consume_message-Grows :
      (parse_time : String → Option ℤ) (s : Server R) (room_id now : String)
      (q : Option QueueMessage)
      → OnReturn (Grows s) (consume_message parse_time s room_id now q)
  unfolding consume_message
  consume_message-Grows parse_time s room_id now none = Grows-refl s
  consume_message-Grows parse_time s room_id now (some q) =
      let resp = new_response parse_time now q.message in
      let resp' = record resp { server_timestamp = q.timestamp } in
      elim (q.server_id == s.id)
        as (λ b. OnReturn (Grows s) (if b then ok s else forward s room_id resp')) [
          | true ↦ Grows-refl s
          | false ↦ forward-Grows s room_id resp'
        ]

  pub broadcast-Grows :
      (s : Server R) (room_id : String) (resp : Response)
      → OnReturn (Grows s) (broadcast s room_id resp)
  unfolding broadcast
  broadcast-Grows s room_id resp = elim (Option-cases (get s.rooms room_id)) [
    | inl e ↦ rw (e, broadcast, OnReturn) tt
    | inr (room, e) ↦
        rw (e, broadcast)
          (on_offer-Grows s room_id room (try_send room.broadcast (message_event resp)) _
            (Grows-set_room s s room_id _ (Grows-refl s)))
  ]

  ignore_error-Grows :
      (s t : Server R) (o : Outcome (Server R))
      → Grows s t
      → OnReturn (Grows t) o
      → OnReturn (Grows s) (ignore_error t o)
  unfolding ignore_error
  ignore_error-Grows s t (ok u) g h = Grows-trans g h
  ignore_error-Grows s t (err e) g h = g
  ignore_error-Grows s t panic g h = tt

  pub schedule_remove_user-Grows :
      (s : Server R) (p : ℕ) → OnReturn (Grows s) (schedule_remove_user s p)
  unfolding schedule_remove_user remove_directly
  schedule_remove_user-Grows s p = elim (Option-cases (get s.rooms (s.clients p).room)) [
    | inl e ↦ rw (e, schedule_remove_user, OnReturn) tt
    | inr (room, e) ↦
        rw (e, schedule_remove_user)
          (on_offer-Grows s (s.clients p).room room
            (try_send room.broadcast (removal_event (s.clients p).user_id)) _
            (ignore_error-Grows s _ _ (Grows-close_conn s (s.clients p).conn)
              (remove_user_from_room-Grows _ (s.clients p).user_id (s.clients p).room)))
  ]
