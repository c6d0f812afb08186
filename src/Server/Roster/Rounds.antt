-- ===== src/Server/Roster/Rounds.antt =====
-- The goroutine of a room, the removal of a user and the sends into `Broadcast`, as steps of the roster.
use chatflow.Prelude.{
  ℕ, String, ◌≡◌, refl, sym, ap, ◌∙◌, fun_ext, ◌==◌, eq_refl, inl, inr, true, false, Option, some,
  List, [], ◌∷◌, if◌then◌else◌, Bool-cases, Option-cases, subst,
}
use chatflow.Prelude.Dict.{Dict, get, put, remove, get-remove}
use chatflow.Models.{Response}
use chatflow.Server.{
  Room, RoomEvent, Server, Loop, running, removing, stopped, Outcome, ok, err, panic,
}
use chatflow.Server.Rooms.{close_send, remove_from_user_rooms}
use chatflow.Server.Broadcast.{
  fan_out, set_room, send_event, remove_event, handle_event, receive_event, loop_round,
  broadcast_round,
}
use chatflow.Server.Invariant.{OnReturn, OnReturn-map, OnReturn-bind}
use chatflow.Server.Roster.{
  mark, departs, settles, AtMostOne, stays, moves, face, is_some, present_in, leaves_by,
  leaving_from, roster, roster_of,
}
use chatflow.Server.Roster.Faces.{roster_path, faces_same, faces_marked, faces_unmarked}
use chatflow.Server.Roster.Index.{occurrences-unindex}

users_without :
    (users : Dict ℕ) (user u : String)
    → is_some (get (remove users user) u) ≡ (if user == u then false else is_some (get users u))
unfolding is_some
users_without users user u = elim (Bool-cases (user == u)) [
  | inl e ↦ rw (get-remove users user u, e) refl
  | inr e ↦ rw (get-remove users user u, e) refl
]

-- The loop has begun to remove the user, and nobody else.
leaves_only :
    (loop : Loop) (user u : String)
    → loop ≡ running
    → (user == u) ≡ (if user == u then true else leaves_by loop u)
unfolding leaves_by
leaves_only loop user u e = elim (Bool-cases (user == u)) [
  | inl same ↦ rw same refl
  | inr other ↦ rw (other, e) refl
]

leaves_no_more :
    (loop : Loop) (user u : String)
    → loop ≡ removing user
    → false ≡ (if user == u then false else leaves_by loop u)
unfolding leaves_by
leaves_no_more loop user u e = elim (Bool-cases (user == u)) [
  | inl same ↦ rw same refl
  | inr other ↦ rw (other, e, leaves_by, other) refl
]

returned : {A : Type 0} (o : Outcome A) → OnReturn (λ a. Unit {0}) o
returned (ok a) = tt
returned (err e) = tt
returned panic = tt

module _ {R : Type 0} where
  -- The roster stands still.
  abbrev pub Still : Server R → Server R → Type 0
  Still s t = roster_of t ≡ roster_of s

  abbrev pub Stirs : Server R → Server R → Type 0
  Stirs s t = AtMostOne (roster_of s) (roster_of t)

  pub Stirs-Still : (s t u : Server R) → Stirs s t → Still t u → Stirs s u
  Stirs-Still s t u h e = subst (λ r. AtMostOne (roster_of s) r) (sym e) h

  pub Still-Stirs : (s t u : Server R) → Still s t → Stirs t u → Stirs s u
  Still-Stirs s t u e h = subst (λ r. AtMostOne r (roster_of u)) e h

  -- A room is written back with its users and its loop.
  pub set_room-Still :
      (s t : Server R) (id : String) (room room' : Room)
      → get s.rooms id ≡ some room
      → t.rooms ≡ s.rooms
      → t.user_rooms ≡ s.user_rooms
      → room'.users ≡ room.users
      → room'.loop ≡ room.loop
      → Still s (set_room t id room')
  unfolding set_room
  set_room-Still s t id room room' found rooms index users loop =
      rw (rooms, index)
        (ap (λ f. roster f s.user_rooms) (faces_same s.rooms id room room' found users loop))

  pub present_found :
      (s : Server R) (id : String) (room : Room) (user : String) (o : Option ℕ)
      → get s.rooms id ≡ some room
      → get room.users user ≡ o
      → (roster_of s).present id user ≡ is_some o
  unfolding present_in
  present_found s id room user o found e = rw (found, e) refl

  leaving_found :
      (s : Server R) (id : String) (room : Room) (loop : Loop) (user : String)
      → get s.rooms id ≡ some room
      → room.loop ≡ loop
      → (roster_of s).leaving id user ≡ leaves_by loop user
  unfolding leaving_from
  leaving_found s id room loop user found e = rw (found, e) refl

  -- The entry of a user is taken out of the room.
  pub present_without :
      (s : Server R) (id : String) (room room' : Room) (user : String)
      → get s.rooms id ≡ some room
      → room'.users ≡ remove room.users user
      → (λ r. present_in (face (get (put s.rooms id room') r)))
        ≡ mark (roster_of s).present id user false
  unfolding present_in
  present_without s id room room' user found users =
      faces_marked s.rooms id room room' found present_in user false
        λ u. ap (λ d. is_some (get d u)) users ∙ users_without room.users user u

  remove_event-Stirs :
      (s : Server R) (id : String) (room room' : Room) (user : String)
      → get s.rooms id ≡ some room
      → room.loop ≡ running
      → room'.users ≡ room.users
      → room'.loop ≡ running
      → Stirs s (remove_event s id room' user)
  unfolding remove_event set_room close_send is_some leaves_by
  remove_event-Stirs s id room room' user found loop users loop' =
      elim (Option-cases (get room'.users user)) [
        | inl e ↦
            rw (e, remove_event)
              (stays (set_room-Still s s id room room' found refl refl users (loop' ∙ sym loop)))
        | inr (p, e) ↦
            let room'' = record room' { users = remove room'.users user; loop = removing user } in
            rw (e, remove_event)
              (subst (λ r. AtMostOne (roster_of s) r)
                (roster_path
                  (sym
                    (present_without s id room room'' user found (ap (λ d. remove d user) users)))
                  (sym (
                    faces_marked s.rooms id room room'' found leaving_from user true
                      λ u. unfold leaving_from leaves_by in leaves_only room.loop user u loop))
                  refl)
                (moves (
                  departs (roster_of s) id user
                    (present_found s id room user (some p) found
                      (sym (ap (λ d. get d user) users) ∙ e))
                    (λ u. leaving_found s id room running u found loop))))
      ]

  send_event-Still :
      (s : Server R) (id : String) (room room' : Room) (resp : Option Response)
      → get s.rooms id ≡ some room
      → room'.users ≡ room.users
      → room'.loop ≡ room.loop
      → OnReturn (Still s) (send_event s id room' resp)
  unfolding send_event
  send_event-Still s id room room' resp found users loop =
      OnReturn-bind (λ r. Unit {0}) (Still s)
        (fan_out resp room'.users s.clients room'.dropped_send) _
        (returned (fan_out resp room'.users s.clients room'.dropped_send))
        λ r _.
          set_room-Still s (record s { clients = r.0 }) id room
            (record room' { dropped_send = r.1 }) found refl refl users loop

  receive_event-Stirs :
      (s : Server R) (id : String) (room : Room) (queue : List RoomEvent)
      → get s.rooms id ≡ some room
      → room.loop ≡ running
      → OnReturn (Stirs s) (receive_event s id room queue)
  unfolding receive_event handle_event
  receive_event-Stirs s id room [] found loop = stays refl
  receive_event-Stirs s id room (event ∷ rest) found loop =
      let chan = room.broadcast in
      let room' = record room { broadcast = record chan { queue = rest } } in
      elim (event.remove_user_id == "")
        as (λ b. OnReturn (Stirs s) (
          if b
          then send_event s id room' event.resp
          else ok (remove_event s id room' event.remove_user_id))) [
            | true ↦
                OnReturn-map (Still s) (Stirs s) (send_event s id room' event.resp) (λ t e. stays e)
                  (send_event-Still s id room room' event.resp found refl refl)
            | false ↦ remove_event-Stirs s id room room' event.remove_user_id found loop refl loop
          ]

  settle-Stirs :
      (s : Server R) (id : String) (room : Room) (user : String)
      → get s.rooms id ≡ some room
      → room.loop ≡ removing user
      → Stirs s (remove_from_user_rooms (set_room s id (record room { loop = running })) user id)
  unfolding remove_from_user_rooms set_room
  settle-Stirs s id room user found loop =
      let room' = record room { loop = running } in
      subst (λ r. AtMostOne (roster_of s) r)
        (roster_path
          (sym (
            faces_unmarked s.rooms id room room' found present_in (λ u. unfold present_in in refl)))
          (sym (
            faces_marked s.rooms id room room' found leaving_from user false
              λ u. unfold leaving_from leaves_by in leaves_no_more room.loop user u loop))
          (fun_ext λ r. fun_ext λ u. sym (occurrences-unindex s.user_rooms user id r u)))
        (moves (
          settles (roster_of s) id user (
            leaving_found s id room (removing user) user found loop
            ∙ unfold leaves_by in eq_refl user)))

  loop_round-Stirs :
      (s : Server R) (id : String) (room : Room) (loop : Loop)
      → get s.rooms id ≡ some room
      → room.loop ≡ loop
      → OnReturn (Stirs s) (loop_round s id room loop)
  unfolding loop_round
  loop_round-Stirs s id room running found e =
      receive_event-Stirs s id room room.broadcast.queue found e
  loop_round-Stirs s id room (removing user) found e = settle-Stirs s id room user found e
  loop_round-Stirs s id room stopped found e = stays refl

  pub broadcast_round-Stirs :
      (s : Server R) (id : String) → OnReturn (Stirs s) (broadcast_round s id)
  unfolding broadcast_round
  broadcast_round-Stirs s id = elim (Option-cases (get s.rooms id)) [
    | inl e ↦ rw (e, broadcast_round, OnReturn) (stays refl)
    | inr (room, e) ↦ rw (e, broadcast_round) (loop_round-Stirs s id room room.loop e refl)
  ]
