-- ===== src/Server/Roster/Joins.antt =====
-- The sends into `Broadcast`, the end of a goroutine, joins and removals, as steps of the roster.
use chatflow.Prelude.{
  ℕ, String, ◌≡◌, refl, sym, fun_ext, ◌==◌, inl, inr, true, false, Option, none, some, [], ◌∷◌,
  if◌then◌else◌, Bool-cases, Option-cases, subst,
}
use chatflow.Prelude.Int.{ℤ}
use chatflow.Prelude.Dict.{Dict, get, put, remove, get-put}
use chatflow.Prelude.Chan.{try_send, Offer, sent, full, panicked}
use chatflow.Models.{Response, QueueMessage}
use chatflow.Models.Respond.{new_response}
use chatflow.Server.{
  Room, RoomEvent, Server, Loop, running, removing, stopped, Outcome, ok, err, panic,
}
use chatflow.Server.Rooms.{
  close_send, close_conn, remove_from_user_rooms, unregister, remove_user_from_room,
}
use chatflow.Server.Broadcast.{
  set_room, close_users, stop_loop, broadcast_done, on_offer, forward, consume_message, broadcast,
  ignore_error, remove_directly, schedule_remove_user, message_event, removal_event,
}
use chatflow.Server.Invariant.{OnReturn, OnReturn-map}
use chatflow.Server.Roster.{
  enters, expelled, AtMostOne, stays, moves, is_some, present_in, leaves_by, leaving_from,
  roster_of,
}
use chatflow.Server.Roster.Faces.{roster_path, faces_fresh, faces_marked, faces_unmarked}
use chatflow.Server.Roster.Index.{occurrences-unindex}
use chatflow.Server.{Broker}
use chatflow.Server.Rooms.{new_room, add_new_room, register, add_user_to_room}
use chatflow.Server.Roster.Index.{occurrences-index_user}
use chatflow.Server.Roster.Rounds.{
  Still, Stirs, Still-Stirs, set_room-Still, present_found, present_without,
}

users_with :
    (users : Dict ℕ) (user u : String) (p : ℕ)
    → is_some (get (put users user p) u) ≡ (if user == u then true else is_some (get users u))
unfolding is_some
users_with users user u p = elim (Bool-cases (user == u)) [
  | inl e ↦ rw (get-put users user u p, e) refl
  | inr e ↦ rw (get-put users user u p, e) refl
]

module _ {R : Type 0} where
  on_offer-Still :
      (s : Server R) (id : String) (room : Room) (o : Offer RoomEvent)
      (dropped : Outcome (Server R))
      → get s.rooms id ≡ some room
      → OnReturn (Still s) dropped
      → OnReturn (Still s) (on_offer s id room o dropped)
  on_offer-Still s id room (sent c) dropped found h =
      set_room-Still s s id room (record room { broadcast = c }) found refl refl refl refl
  on_offer-Still s id room full dropped found h = h
  on_offer-Still s id room panicked dropped found h = tt

  forward-Still :
      (s : Server R) (id : String) (resp : Response) → OnReturn (Still s) (forward s id resp)
  unfolding forward
  forward-Still s id resp = elim (Option-cases (get s.rooms id)) [
    | inl e ↦ rw (e, forward, OnReturn) refl
    | inr (room, e) ↦
        rw (e, forward)
          (on_offer-Still s id room (try_send room.broadcast (message_event resp)) (ok s) e refl)
  ]

  pub consume_message-Still :
      (parse_time : String → Option ℤ) (s : Server R) (id now : String) (q : Option QueueMessage)
      → OnReturn (Still s) (consume_message parse_time s id now q)
  unfolding consume_message
  consume_message-Still parse_time s id now none = refl
  consume_message-Still parse_time s id now (some q) =
      let resp = new_response parse_time now q.message in
      let resp' = record resp { server_timestamp = q.timestamp } in
      elim (q.server_id == s.id)
        as (λ b. OnReturn (Still s) (if b then ok s else forward s id resp')) [
          | true ↦ refl
          | false ↦ forward-Still s id resp'
        ]

  pub broadcast-Still :
      (s : Server R) (id : String) (resp : Response) → OnReturn (Still s) (broadcast s id resp)
  unfolding broadcast
  broadcast-Still s id resp = elim (Option-cases (get s.rooms id)) [
    | inl e ↦ rw (e, broadcast, OnReturn) tt
    | inr (room, e) ↦
        rw (e, broadcast)
          (on_offer-Still s id room (try_send room.broadcast (message_event resp)) _ e
            (set_room-Still s s id room _ e refl refl refl refl))
  ]

  unregister-Stirs :
      (s : Server R) (user id : String) (room : Room) (o : Option ℕ)
      → get s.rooms id ≡ some room
      → get room.users user ≡ o
      → OnReturn (Stirs s) (unregister s user id room o)
  unfolding unregister is_some
  unregister-Stirs s user id room none found e = tt
  unregister-Stirs s user id room (some p) found e =
      let room' = record room { users = remove room.users user } in
      subst (λ r. AtMostOne (roster_of s) r)
        (unfold close_send remove_from_user_rooms in
          roster_path (sym (present_without s id room room' user found refl))
            (sym (
              faces_unmarked s.rooms id room room' found leaving_from
                (λ u. unfold leaving_from in refl)))
            (fun_ext λ r. fun_ext λ u. sym (occurrences-unindex s.user_rooms user id r u)))
        (moves (expelled (roster_of s) id user (present_found s id room user (some p) found e)))

  remove_user_from_room-Stirs :
      (s : Server R) (user id : String) → OnReturn (Stirs s) (remove_user_from_room s user id)
  unfolding remove_user_from_room
  remove_user_from_room-Stirs s user id = elim (Option-cases (get s.rooms id)) [
    | inl e ↦ rw (e, remove_user_from_room, OnReturn) tt
    | inr (room, e) ↦
        rw (e, remove_user_from_room) (unregister-Stirs s user id room (get room.users user) e refl)
  ]

  ignore_error-Stirs :
      (s t : Server R) (o : Outcome (Server R))
      → Still s t
      → OnReturn (Stirs t) o
      → OnReturn (Stirs s) (ignore_error t o)
  unfolding ignore_error
  ignore_error-Stirs s t (ok u) e h = Still-Stirs s t u e h
  ignore_error-Stirs s t (err x) e h = stays e
  ignore_error-Stirs s t panic e h = tt

  pub schedule_remove_user-Stirs :
      (s : Server R) (p : ℕ) → OnReturn (Stirs s) (schedule_remove_user s p)
  unfolding schedule_remove_user remove_directly
  schedule_remove_user-Stirs s p = elim (Option-cases (get s.rooms (s.clients p).room)) [
    | inl e ↦ rw (e, schedule_remove_user, OnReturn) tt
    | inr (room, e) ↦
        rw (e, schedule_remove_user)
          (offered s (s.clients p).room room
            (try_send room.broadcast (removal_event (s.clients p).user_id)) _ e
            (unfold close_conn in
              ignore_error-Stirs s _ _ refl
                (remove_user_from_room-Stirs _ (s.clients p).user_id (s.clients p).room)))
  ]
    where
      offered :
          (s : Server R) (id : String) (room : Room) (o : Offer RoomEvent)
          (dropped : Outcome (Server R))
          → get s.rooms id ≡ some room
          → OnReturn (Stirs s) dropped
          → OnReturn (Stirs s) (on_offer s id room o dropped)
      offered s id room (sent c) dropped found h =
          stays
            (set_room-Still s s id room (record room { broadcast = c }) found refl refl refl refl)
      offered s id room full dropped found h = h
      offered s id room panicked dropped found h = tt

  close_users-rooms :
      (s : Server R) (users : Dict ℕ)
      → ((close_users s users).rooms ≡ s.rooms) × ((close_users s users).user_rooms ≡ s.user_rooms)
  unfolding close_users close_send close_conn
  close_users-rooms s [] = (refl, refl)
  close_users-rooms s ((user, p) ∷ users) =
      close_users-rooms (close_send (close_conn s (s.clients p).conn) p) users

  stop_loop-Still :
      (s : Server R) (id : String) (room : Room) (loop : Loop)
      → get s.rooms id ≡ some room
      → room.loop ≡ loop
      → Still s (stop_loop s id room loop)
  unfolding stop_loop set_room
  stop_loop-Still s id room running found e =
      let (rooms, index) = close_users-rooms s room.users in
      let room' = record room { loop = stopped } in
      rw (rooms, index)
        (roster_path
          (faces_unmarked s.rooms id room room' found present_in (λ u. unfold present_in in refl))
          (faces_unmarked s.rooms id room room' found leaving_from
            (λ u. unfold leaving_from leaves_by in rw e refl))
          refl)
  stop_loop-Still s id room (removing user) found e = refl
  stop_loop-Still s id room stopped found e = refl

  pub broadcast_done-Still : (s : Server R) (id : String) → Still s (broadcast_done s id)
  unfolding broadcast_done
  broadcast_done-Still s id = elim (Option-cases (get s.rooms id)) [
    | inl e ↦ rw (e, broadcast_done) refl
    | inr (room, e) ↦
        rw (e, broadcast_done)
          (elim s.cancelled as (λ b. Still s (if b then stop_loop s id room room.loop else s)) [
            | true ↦ stop_loop-Still s id room room.loop e refl
            | false ↦ refl
          ])
  ]

  module _ (b : Broker R) where
    add_new_room-Still : (s : Server R) (id : String) → Still s (add_new_room b s id)
    unfolding add_new_room
    add_new_room-Still s id = elim (Option-cases (get s.rooms id)) [
      | inl e ↦
          rw (e, add_new_room)
            (roster_path
              (faces_fresh s.rooms id (new_room s.buffer_size) present_in e
                (λ u. unfold present_in is_some get in refl))
              (faces_fresh s.rooms id (new_room s.buffer_size) leaving_from e
                (λ u. unfold leaving_from leaves_by in refl))
              refl)
      | inr (room, e) ↦ rw (e, add_new_room) refl
    ]

    register-Stirs :
        (s : Server R) (user id : String) (conn : ℕ) (o : Option Room)
        → get s.rooms id ≡ o
        → OnReturn (λ r. Stirs s r.0) (register b s user id conn o)
    unfolding register is_some
    register-Stirs s user id conn none found = tt
    register-Stirs s user id conn (some room) found = elim (Option-cases (get room.users user)) [
      | inr (p, e) ↦ rw (e, register, OnReturn) tt
      | inl e ↦
          let room' = record room { users = put room.users user s.next_client } in
          rw (e, register, OnReturn)
            (subst (λ r. AtMostOne (roster_of s) r)
              (roster_path
                (sym (
                  faces_marked s.rooms id room room' found present_in user true
                    (λ u. unfold present_in in users_with room.users user u s.next_client)))
                (sym (
                  faces_unmarked s.rooms id room room' found leaving_from
                    (λ u. unfold leaving_from in refl)))
                (fun_ext λ r. fun_ext λ u. sym (occurrences-index_user s.user_rooms user id r u)))
              (moves (enters (roster_of s) id user (present_found s id room user none found e))))
    ]

    pub add_user_to_room-Stirs :
        (s : Server R) (user id : String) (conn : ℕ)
        → OnReturn (λ r. Stirs s r.0) (add_user_to_room b s user id conn)
    unfolding add_user_to_room
    add_user_to_room-Stirs s user id conn =
        let s' = add_new_room b s id in
        OnReturn-map (λ r. Stirs s' r.0) (λ r. Stirs s r.0)
          (register b s' user id conn (get s'.rooms id))
          (λ r h. Still-Stirs s s' r.0 (add_new_room-Still s id) h)
          (register-Stirs s' user id conn (get s'.rooms id) refl)
