-- ===== src/Server/Invariant/Sends.antt =====
-- The sends into `Broadcast` and the writer goroutine keep the invariant.
use chatflow.Prelude.{
  ℕ, String, ◌≡◌, refl, ◌==◌, inl, inr, true, false, Option, none, some, if◌then◌else◌,
  Option-cases,
}
use chatflow.Prelude.Int.{ℤ}
use chatflow.Prelude.Dict.{get}
use chatflow.Prelude.Chan.{IsWithin, try_send, try_send-cases, try_send-IsWithin}
use chatflow.Models.{Response, QueueMessage}
use chatflow.Models.Respond.{new_response}
use chatflow.Server.{Room, RoomEvent, Server, Outcome, ok, err, panic}
use chatflow.Server.Rooms.{close_conn}
use chatflow.Server.Broadcast.{
  set_room, on_offer, forward, consume_message, broadcast, ignore_error, remove_directly,
  schedule_remove_user,
}
use chatflow.Server.Invariant.{Inv, Safely}
use chatflow.Server.Invariant.Entries.{Inv-put}
use chatflow.Server.Invariant.Joins.{remove_user_from_room-Inv}

module _ {R : Type 0} where
  -- Only the channel and the counters of a room change.
  set_room-Inv :
      (s : Server R) (room_id : String) (room room' : Room)
      → get s.rooms room_id ≡ some room
      → Inv s
      → room'.users ≡ room.users
      → room'.loop ≡ room.loop
      → room'.broadcast.closed ≡ false
      → IsWithin room'.broadcast
      → Inv (set_room s room_id room')
  unfolding set_room
  set_room-Inv s room_id room room' found h users loop closed within =
      let here = h.rooms_inv room_id room found in
      Inv-put s _ room_id room' refl h
        (record {
          distinct = rw users here.distinct;
          entries = λ u p e. rw loop (here.entries u p (rw users at e));
          broadcast_open = closed;
          broadcast_bounded = within;
        })
        (λ other r ne there. h.rooms_inv other r there)

  offer-Inv :
      (s : Server R) (room_id : String) (room : Room) (event : RoomEvent)
      (dropped : Outcome (Server R))
      → get s.rooms room_id ≡ some room
      → Inv s
      → Safely Inv dropped
      → Safely Inv (on_offer s room_id room (try_send room.broadcast event) dropped)
  offer-Inv s room_id room event dropped found h d =
      let here = h.rooms_inv room_id room found in
      elim (try_send-cases room.broadcast event here.broadcast_open) [
        | inl (e, fits) ↦
            rw (e, on_offer, Safely)
              (set_room-Inv s room_id room _ found h refl refl here.broadcast_open
                (try_send-IsWithin room.broadcast event e))
        | inr (e, tight) ↦ rw (e, on_offer) d
      ]

  forward-Inv :
      (s : Server R) (room_id : String) (resp : Response)
      → Inv s
      → Safely Inv (forward s room_id resp)
  unfolding forward
  forward-Inv s room_id resp h = elim (Option-cases (get s.rooms room_id)) [
    | inl e ↦ rw (e, forward, Safely) h
    | inr (room, e) ↦ rw (e, forward) (offer-Inv s room_id room _ (ok s) e h h)
  ]

  -- A message from the broker never makes the server panic.
  pub consume_message-Inv :
      (parse_time : String → Option ℤ) (s : Server R) (room_id now : String)
      (q : Option QueueMessage)
      → Inv s
      → Safely Inv (consume_message parse_time s room_id now q)
  unfolding consume_message
  consume_message-Inv parse_time s room_id now none h = h
  consume_message-Inv parse_time s room_id now (some q) h =
      let resp = new_response parse_time now q.message in
      elim (q.server_id == s.id)
        as (λ b. Safely Inv (
          if b then ok s else forward s room_id (record resp { server_timestamp = q.timestamp }))) [
            | true ↦ h
            | false ↦ forward-Inv s room_id _ h
          ]

  pub broadcast-Inv :
      (s : Server R) (room_id : String) (room : Room) (resp : Response)
      → get s.rooms room_id ≡ some room
      → Inv s
      → Safely Inv (broadcast s room_id resp)
  unfolding broadcast
  broadcast-Inv s room_id room resp e h =
      let here = h.rooms_inv room_id room e in
      rw (e, broadcast)
        (offer-Inv s room_id room _ _ e h
          (set_room-Inv s room_id room _ e h refl refl here.broadcast_open here.broadcast_bounded))

  ignore_error-Inv :
      (s : Server R) (o : Outcome (Server R)) → Inv s → Safely Inv o → Safely Inv (ignore_error s o)
  unfolding ignore_error
  ignore_error-Inv s (ok t) h k = k
  ignore_error-Inv s (err e) h k = h
  ignore_error-Inv s panic h k = k

  pub close_conn-Inv : (s : Server R) (c : ℕ) → Inv s → Inv (close_conn s c)
  unfolding close_conn
  close_conn-Inv s c h = record { distinct_rooms = h.distinct_rooms; rooms_inv = h.rooms_inv }

  pub schedule_remove_user-Inv :
      (s : Server R) (p : ℕ) (room : Room)
      → get s.rooms (s.clients p).room ≡ some room
      → Inv s
      → Safely Inv (schedule_remove_user s p)
  unfolding schedule_remove_user remove_directly
  schedule_remove_user-Inv s p room e h =
      rw (e, schedule_remove_user)
        (offer-Inv s (s.clients p).room room _ _ e h (
          ignore_error-Inv _ _ (close_conn-Inv s _ h)
            (remove_user_from_room-Inv _ _ _ (close_conn-Inv s _ h))))
