-- ===== src/Server/Invariant/Rounds.antt =====
-- The broadcast goroutine keeps the invariant, and never sends on a closed channel.
use chatflow.Prelude.{
  ℕ, String, ◌≡◌, refl, ap, ◌==◌, inl, inr, true, Option, some, List, [], ◌∷◌, arith, Bool-cases,
  Option-cases,
}
use chatflow.Prelude.Dict.{Dict, get, All-entries}
use chatflow.Prelude.Seq.{All, length}
use chatflow.Models.{Response}
use chatflow.Server.{Client, Room, RoomEvent, Server, Loop, running, removing, stopped}
use chatflow.Server.Rooms.{close_send, remove_from_user_rooms}
use chatflow.Server.Broadcast.{
  set_room, send_event, remove_event, handle_event, receive_event, loop_round, broadcast_round,
}
use chatflow.Server.Broadcast.FanOut.{IsOpenEntry, fanned, fan_out_lem}
use chatflow.Server.Invariant.{RoomInv, Inv, Safely, is_live}
use chatflow.Server.Invariant.Entries.{
  SameClient, RoomInv-same, RoomInv-other, Inv-put, entry_differs,
}
use chatflow.Server.Invariant.Joins.{leave-RoomInv}

-- While the goroutine is live, its sends meet open channels.
pub open_entries :
    {clients : ℕ → Client} {next : ℕ} {room_id : String} (room : Room)
    → is_live room.loop ≡ true
    → RoomInv clients next room_id room
    → All (IsOpenEntry clients) room.users
open_entries room live h =
    All-entries _ room.users h.distinct
      λ user p e. let entry = h.entries user p e in (entry.user_matches, entry.send_open live)

fanned-same :
    (resp : Option Response) (users : Dict ℕ) (clients : ℕ → Client) (p : ℕ)
    → SameClient (clients p) (fanned resp users clients p)
fanned-same resp users clients p = ground arith

-- The rest of the channel after a receive.
abbrev pub with_queue : Room → List RoomEvent → Room
with_queue room rest =
    let chan = room.broadcast in record room { broadcast = record chan { queue = rest } }

pub with_queue-RoomInv :
    {clients : ℕ → Client} {next : ℕ} {room_id : String} (room : Room) (event : RoomEvent)
    (rest : List RoomEvent)
    → room.broadcast.queue ≡ event ∷ rest
    → RoomInv clients next room_id room
    → RoomInv clients next room_id (with_queue room rest)
with_queue-RoomInv room event rest e h = record {
  distinct = h.distinct;
  entries = h.entries;
  broadcast_open = h.broadcast_open;
  broadcast_bounded = omega (arith, h.broadcast_bounded, ap length e);
}

module _ {R : Type 0} where
  send_event-Inv :
      (s : Server R) (room_id : String) (old room : Room) (resp : Option Response)
      → get s.rooms room_id ≡ some old
      → is_live room.loop ≡ true
      → Inv s
      → RoomInv s.clients s.next_client room_id room
      → Safely Inv (send_event s room_id room resp)
  unfolding send_event
  send_event-Inv s room_id old room resp found live h here =
      rw
        (fan_out_lem resp room.users s.clients room.dropped_send here.distinct
          (open_entries room live here))
        (Inv-put s _ room_id _ refl h
          (let same = RoomInv-same (fanned-same resp room.users s.clients) here in
            record {
              distinct = same.distinct;
              entries = same.entries;
              broadcast_open = same.broadcast_open;
              broadcast_bounded = same.broadcast_bounded;
            })
          λ other r ne there.
            RoomInv-same (fanned-same resp room.users s.clients) (h.rooms_inv other r there))

  remove_event-Inv :
      (s : Server R) (room_id : String) (room : Room) (user : String)
      → is_live room.loop ≡ true
      → Inv s
      → RoomInv s.clients s.next_client room_id room
      → Inv (remove_event s room_id room user)
  unfolding remove_event set_room close_send
  remove_event-Inv s room_id room user live h here = elim (Option-cases (get room.users user)) [
    | inl e ↦
        rw (e, remove_event)
          (Inv-put s _ room_id room refl h here (λ other r ne there. h.rooms_inv other r there))
    | inr (p, e) ↦
        rw (e, remove_event)
          (Inv-put s _ room_id _ refl h
            (leave-RoomInv s.clients s.next_client room_id user p _ room (removing user) (λ l. live)
              e here)
            λ other r ne there.
              RoomInv-other p _
                (λ u q at_q.
                  entry_differs (here.entries user p e)
                    ((h.rooms_inv other r there).entries u q at_q) (inl ne))
                (h.rooms_inv other r there))
  ]

  handle_event-Inv :
      (s : Server R) (room_id : String) (old room : Room) (event : RoomEvent)
      → get s.rooms room_id ≡ some old
      → is_live room.loop ≡ true
      → Inv s
      → RoomInv s.clients s.next_client room_id room
      → Safely Inv (handle_event s room_id room event)
  unfolding handle_event
  handle_event-Inv s room_id old room event found live h here =
      elim (Bool-cases (event.remove_user_id == "")) [
        | inl e ↦
            rw (e, handle_event, Safely)
              (send_event-Inv s room_id old room event.resp found live h here)
        | inr e ↦
            rw (e, handle_event, Safely)
              (remove_event-Inv s room_id room event.remove_user_id live h here)
      ]

  loop_round-Inv :
      (s : Server R) (room_id : String) (room : Room) (loop : Loop)
      → room.loop ≡ loop
      → get s.rooms room_id ≡ some room
      → Inv s
      → Safely Inv (loop_round s room_id room loop)
  unfolding loop_round receive_event set_room remove_from_user_rooms
  loop_round-Inv s room_id room running at found h = receive-Inv room.broadcast.queue refl
    where
      receive-Inv :
          (queue : List RoomEvent)
          → room.broadcast.queue ≡ queue
          → Safely Inv (receive_event s room_id room queue)
      receive-Inv [] e = h
      receive-Inv (event ∷ rest) e =
          handle_event-Inv s room_id room (with_queue room rest) event found (rw at refl) h
            (with_queue-RoomInv room event rest e (h.rooms_inv room_id room found))
  loop_round-Inv s room_id room (removing user) at found h =
      let here = h.rooms_inv room_id room found in
      Inv-put s _ room_id _ refl h
        (record {
          distinct = here.distinct;
          entries = λ u p e.
              let entry = here.entries u p e in
              record {
                below = entry.below;
                user_matches = entry.user_matches;
                room_matches = entry.room_matches;
                send_open = λ l. entry.send_open (rw at refl);
              };
          broadcast_open = here.broadcast_open;
          broadcast_bounded = here.broadcast_bounded;
        })
        (λ other r ne there. h.rooms_inv other r there)
  loop_round-Inv s room_id room stopped at found h = h

  -- A round of the broadcast goroutine never panics, and keeps the invariant.
  pub broadcast_round-Inv :
      (s : Server R) (room_id : String) → Inv s → Safely Inv (broadcast_round s room_id)
  unfolding broadcast_round
  broadcast_round-Inv s room_id h = elim (Option-cases (get s.rooms room_id)) [
    | inl e ↦ rw (e, broadcast_round, Safely) h
    | inr (room, e) ↦
        rw (e, broadcast_round, Safely) (loop_round-Inv s room_id room room.loop refl e h)
  ]
