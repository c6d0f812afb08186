-- ===== src/Server/Leave.antt =====
-- A leaving user is removed in order: `scheduleRemoveUser` puts the removal into `Broadcast` behind
-- the messages that are there, and the broadcast goroutine comes to it last.
use chatflow.Prelude.{
  ℕ, zero, suc, ◌+◌, ◌<◌, ◌≤◌, String, ◌≡◌, ◌≢◌, refl, sym, ◌∙◌, ap, subst, ◌==◌, eq_iff, true,
  false, Option, none, some, List, [], ◌∷◌, ◌++◌, map, arith, lt→ltb,
}
use mathlib.Core.List.{append_assoc, append-nil}
use chatflow.Prelude.Dict.{Dict, get, remove, get-put_self, get-remove_self}
use chatflow.Prelude.Seq.{length, length-append}
use chatflow.Prelude.Chan.{close}
use chatflow.Prelude.Store.{eqb_refl}
use chatflow.Models.{Response}
use chatflow.Server.{Client, Room, RoomEvent, Server, running, removing, Outcome, ok, ◌>>=◌}
use chatflow.Server.Rooms.{close_send}
use chatflow.Server.Broadcast.{
  set_room, broadcast_round, loop_round, receive_event, handle_event, send_event, remove_event,
  message_event, removal_event,
}
use chatflow.Server.Broadcast.FanOut.{holds, fanned, drops, fan_out_lem}
use chatflow.Server.Invariant.{Inv, is_live}
use chatflow.Server.Invariant.Rounds.{open_entries, with_queue, broadcast_round-Inv}

holds_of_get :
    (users : Dict ℕ) (user : String) (p : ℕ) → get users user ≡ some p → holds p users ≡ true
unfolding get
holds_of_get [] user p e = cc
holds_of_get ((k, q) ∷ users) user p e = ground (arith, holds_of_get users user p)

ne_empty : (user : String) → user ≢ "" → (user == "") ≡ false
ne_empty user h = ground (arith, eq_iff user "")

module _ {R : Type 0} where
  -- The goroutine of a room goes so many rounds, and nobody else moves.
  pub go_rounds : ℕ → Server R → String → Outcome (Server R)
  go_rounds zero s room_id = ok s
  go_rounds (suc n) s room_id = broadcast_round s room_id >>= λ s'. go_rounds n s' room_id

  -- The server after a round that fanned a message out.
  abbrev after_message : Server R → String → Room → Response → List RoomEvent → Server R
  after_message s room_id room resp rest =
      set_room (record s { clients = fanned (some resp) room.users s.clients }) room_id
        (record (with_queue room rest) {
          dropped_send = drops s.clients room.users room.dropped_send;
        })

  message_receive :
      (s : Server R) (room_id : String) (room : Room) (resp : Response) (rest : List RoomEvent)
      → Inv s
      → get s.rooms room_id ≡ some room
      → room.loop ≡ running
      → receive_event s room_id room (message_event resp ∷ rest)
        ≡ ok (after_message s room_id room resp rest)
  unfolding receive_event handle_event send_event
  message_receive s room_id room resp rest h found loop =
      let here = h.rooms_inv room_id room found in
      rw
        (fan_out_lem (some resp) room.users s.clients room.dropped_send here.distinct
          (open_entries room (ap is_live loop) here))
        refl

  -- A round at the head of whose channel stands `event`.
  pub round_of :
      (s : Server R) (room_id : String) (room : Room) (event : RoomEvent) (rest : List RoomEvent)
      → get s.rooms room_id ≡ some room
      → room.loop ≡ running
      → room.broadcast.queue ≡ event ∷ rest
      → broadcast_round s room_id ≡ receive_event s room_id room (event ∷ rest)
  unfolding broadcast_round loop_round
  round_of s room_id room event rest found loop queue =
      rw (found, broadcast_round)
        (subst (λ l. loop_round s room_id room l ≡ receive_event s room_id room (event ∷ rest))
          (sym loop) (ap (receive_event s room_id room) queue))

  -- The client behind the user's entry, when the message has gone out.
  client_after_message :
      (s : Server R) (room_id : String) (room : Room) (resp : Response) (rest : List RoomEvent)
      (user : String) (p : ℕ)
      → get room.users user ≡ some p
      → length (s.clients p).send.queue < (s.clients p).send.cap
      → (after_message s room_id room resp rest).clients p ≡ (
          let client = s.clients p in
          let chan = client.send in
          record client { send = record chan { queue = chan.queue ++ some resp ∷ [] } })
  unfolding set_room
  client_after_message s room_id room resp rest user p e fits =
      rw (holds_of_get room.users user p e, lt→ltb _ _ fits) refl

  -- What the removal does, once its turn has come.
  removal_receive :
      (s : Server R) (room_id : String) (room : Room) (user : String) (p : ℕ)
      (rest : List RoomEvent)
      → user ≢ ""
      → get room.users user ≡ some p
      → receive_event s room_id room (removal_event user ∷ rest)
        ≡ ok (
            set_room (close_send s p) room_id (record (with_queue room rest) {
              users = remove room.users user;
              loop = removing user;
            }))
  unfolding receive_event handle_event remove_event
  removal_receive s room_id room user p rest named e =
      rw (ne_empty user named, e, remove_event) refl

  -- What holds once the user has been removed: everything that was queued before the removal is
  -- in the buffer of the client `p`, in order, the channel is closed behind it, the user is no
  -- longer in the room, and the rest of the channel waits.
  pub record Removed (s t : Server R) (room_id user : String) (p : ℕ) (resps : List Response)
      (rest : List RoomEvent) : Type 0 where
    pub delivered :
        (t.clients p).send.queue ≡ (s.clients p).send.queue ++ map {B = Option Response} some resps
    pub closed : (t.clients p).send.closed ≡ true
    pub room : Room
    pub found : get t.rooms room_id ≡ some room
    pub gone : get room.users user ≡ none
    pub next_events : room.broadcast.queue ≡ rest

  removal_round :
      (s : Server R) (room_id : String) (room : Room) (user : String) (p : ℕ)
      (rest : List RoomEvent)
      → get s.rooms room_id ≡ some room
      → room.loop ≡ running
      → room.broadcast.queue ≡ removal_event user ∷ rest
      → user ≢ ""
      → get room.users user ≡ some p
      → (t : Server R) × (broadcast_round s room_id ≡ ok t) × Removed s t room_id user p [] rest
  removal_round s room_id room user p rest found loop queue named e = (
    set_room (close_send s p) room_id
        (record (with_queue room rest) { users = remove room.users user; loop = removing user }),
    round_of s room_id room (removal_event user) rest found loop queue
        ∙ removal_receive s room_id room user p rest named e,
    unfold set_room close_send close in
        record {
          delivered = rw (eqb_refl p) (sym (append-nil (s.clients p).send.queue));
          closed = rw (eqb_refl p) refl;
          room = record (with_queue room rest) {
            users = remove room.users user;
            loop = removing user;
          };
          found = get-put_self s.rooms room_id _;
          gone = get-remove_self room.users user;
          next_events = refl;
        },
  )

  -- If a removal of `user` stands in the channel of a room behind the messages `resps`, and the
  -- user's buffer has room for these, then after one round for each message and one more the user
  -- has been removed, and lost none of the messages.
  pub leave_in_order :
      (resps : List Response) (s : Server R) (room_id : String) (room : Room) (user : String)
      (p : ℕ) (rest : List RoomEvent)
      → Inv s
      → get s.rooms room_id ≡ some room
      → room.loop ≡ running
      → room.broadcast.queue ≡ map message_event resps ++ removal_event user ∷ rest
      → user ≢ ""
      → get room.users user ≡ some p
      → length (s.clients p).send.queue + length resps ≤ (s.clients p).send.cap
      → (t : Server R) × (go_rounds (suc (length resps)) s room_id ≡ ok t)
        × Removed s t room_id user p resps rest
  unfolding go_rounds
  leave_in_order [] s room_id room user p rest h found loop queue named e fits =
      let (t, ran, removed) = removal_round s room_id room user p rest found loop queue named e in
      (t, rw ran refl, removed)
  leave_in_order (resp ∷ resps) s room_id room user p rest h found loop queue named e fits =
      let later = map message_event resps ++ removal_event user ∷ rest in
      let s1 = after_message s room_id room resp later in
      let room1 = record (with_queue room later) {
        dropped_send = drops s.clients room.users room.dropped_send;
      } in
      let first : broadcast_round s room_id ≡ ok s1 =
        round_of s room_id room (message_event resp) later found loop queue
        ∙ message_receive s room_id room resp later h found loop in
      let client1 = client_after_message s room_id room resp later user p e (omega arith) in
      let queue1 : (s1.clients p).send.queue ≡ (s.clients p).send.queue ++ some resp ∷ [] =
        ap (λ (c : Client). c.send.queue) client1 in
      let cap1 : (s1.clients p).send.cap ≡ (s.clients p).send.cap =
        ap (λ (c : Client). c.send.cap) client1 in
      let (t, ran, removed) =
        leave_in_order resps s1 room_id room1 user p rest
          (rw first at (broadcast_round-Inv s room_id h))
          (unfold set_room in get-put_self s.rooms room_id room1) loop refl named e
          (omega (
            arith,
            cap1,
            ap length queue1,
            length-append (s.clients p).send.queue (some resp ∷ []),
          )) in
      (
        t,
        rw (first, ◌>>=◌) ran,
        record {
          delivered =
              removed.delivered
              ∙ ap (λ q. q ++ map {B = Option Response} some resps) queue1
              ∙ append_assoc (s.clients p).send.queue (some resp ∷ []) (map some resps);
          closed = removed.closed;
          room = removed.room;
          found = removed.found;
          gone = removed.gone;
          next_events = removed.next_events;
        },
      )
