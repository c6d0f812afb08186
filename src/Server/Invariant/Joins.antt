-- ===== src/Server/Invariant/Joins.antt =====
-- Rooms are created, and users enter and leave them, without harm to the invariant.
use chatflow.Prelude.{
  ℕ, ◌+◌, String, ◌≡◌, ◌≢◌, refl, subst, ◌==◌, eq_iff, inl, inr, true, Option, none, some, arith,
  if◌then◌else◌, Bool-cases, Option-cases,
}
use mathlib.Core.Option.{some-injective, none-ne-some}
use chatflow.Prelude.Dict.{
  get, put, remove, get-put, get-put_self, get-remove, put-IsMap, remove-IsMap,
}
use chatflow.Prelude.Chan.{make}
use chatflow.Prelude.Store.{update, eqb_refl}
use chatflow.Server.{Client, Room, Server, Broker, Loop, running, new_client}
use chatflow.Server.Rooms.{
  new_room, register, unregister, add_new_room, add_user_to_room, remove_user_from_room,
}
use chatflow.Server.Invariant.{IsEntry, RoomInv, Inv, Safely, OnReturn, is_live}
use chatflow.Server.Invariant.Entries.{
  RoomInv-other, RoomInv-alloc, IsEntry-other, Inv-put, entry_differs,
}

new_room-RoomInv :
    (clients : ℕ → Client) (next : ℕ) (room_id : String) (cap : ℕ)
    → RoomInv clients next room_id (new_room cap)
unfolding get make
new_room-RoomInv clients next room_id cap = record {
  distinct = tt;
  entries = λ user p e. cc;
  broadcast_open = refl;
  broadcast_bounded = omega arith;
}

-- A user enters a room as the client at the next address.
enter-RoomInv :
    (clients : ℕ → Client) (next : ℕ) (room_id user : String) (conn size : ℕ) (room : Room)
    → RoomInv clients next room_id room
    → RoomInv
        (update clients next (new_client user room_id conn size))
        (next + 1)
        room_id
        (record room { users = put room.users user next })
enter-RoomInv clients next room_id user conn size room h = record {
  distinct = put-IsMap room.users user next h.distinct;
  entries = λ u q e. at u q (rw get-put at e);
  broadcast_open = h.broadcast_open;
  broadcast_bounded = h.broadcast_bounded;
}
  where
    entered :
        IsEntry
          (update clients next (new_client user room_id conn size))
          (next + 1)
          room_id
          room.loop
          user
          next
    entered = record {
      below = omega arith;
      user_matches = rw (eqb_refl next) (unfold new_client in refl);
      room_matches = rw (eqb_refl next) (unfold new_client in refl);
      send_open = λ live. rw (eqb_refl next) (unfold new_client make in refl);
    }

    at :
        (u : String) (q : ℕ)
        → (if user == u then some next else get room.users u) ≡ some q
        → IsEntry
            (update clients next (new_client user room_id conn size))
            (next + 1)
            room_id
            room.loop
            u
            q
    at u q e = elim (Bool-cases (user == u)) [
      | inl same ↦
          subst
            (λ v.
              IsEntry (update clients next (new_client user room_id conn size)) (next + 1) room_id
                room.loop v q)
            ((eq_iff user u).0 same)
            (subst
              (λ x.
                IsEntry (update clients next (new_client user room_id conn size)) (next + 1) room_id
                  room.loop user x)
              (some-injective next q (rw same at e)) entered)
      | inr differ ↦
          (RoomInv-alloc (new_client user room_id conn size) h).entries u q (rw differ at e)
    ]

-- A user leaves a room, and the channel of the client is closed.
pub leave-RoomInv :
    (clients : ℕ → Client) (next : ℕ) (room_id user : String) (p : ℕ) (c : Client) (room : Room)
    (loop : Loop)
    → (is_live loop ≡ true → is_live room.loop ≡ true)
    → get room.users user ≡ some p
    → RoomInv clients next room_id room
    → RoomInv
        (update clients p c)
        next
        room_id
        (record room { users = remove room.users user; loop = loop })
leave-RoomInv clients next room_id user p c room loop live found h = record {
  distinct = remove-IsMap room.users user h.distinct;
  entries = λ u q e. at u q (rw get-remove at e);
  broadcast_open = h.broadcast_open;
  broadcast_bounded = h.broadcast_bounded;
}
  where
    relax :
        {u : String} {q : ℕ}
        → IsEntry clients next room_id room.loop u q
        → IsEntry clients next room_id loop u q
    relax e = record {
      below = e.below;
      user_matches = e.user_matches;
      room_matches = e.room_matches;
      send_open = λ l. e.send_open (live l);
    }

    at :
        (u : String) (q : ℕ)
        → (if user == u then none else get room.users u) ≡ some q
        → IsEntry (update clients p c) next room_id loop u q
    at u q e = elim (Bool-cases (user == u)) [
      | inl same ↦ absurd (none-ne-some q (rw same at e))
      | inr differ ↦
          let left = h.entries u q (rw differ at e) in
          IsEntry-other p c
            (entry_differs (h.entries user p found) left
              (inr (λ x. cc (differ, (eq_iff user u).1 x))))
            (relax left)
    ]

module _ {R : Type 0} (b : Broker R) where
  pub add_new_room-Inv : (s : Server R) (room_id : String) → Inv s → Inv (add_new_room b s room_id)
  unfolding add_new_room
  add_new_room-Inv s room_id h = elim (Option-cases (get s.rooms room_id)) [
    | inl e ↦
        rw (e, add_new_room)
          (Inv-put s _ room_id (new_room s.buffer_size) refl h
            (new_room-RoomInv s.clients s.next_client room_id s.buffer_size)
            (λ other r ne found. h.rooms_inv other r found))
    | inr (room, e) ↦ rw (e, add_new_room) h
  ]

  -- The room that was asked for is there.
  pub get-add_new_room :
      (s : Server R) (room_id : String)
      → (room : Room) × (get (add_new_room b s room_id).rooms room_id ≡ some room)
  unfolding add_new_room
  get-add_new_room s room_id = elim (Option-cases (get s.rooms room_id)) [
    | inl e ↦ (new_room s.buffer_size, rw (e, add_new_room) (get-put_self s.rooms room_id _))
    | inr (room, e) ↦ (room, rw (e, add_new_room) e)
  ]

  register-Inv :
      (s : Server R) (user room_id : String) (conn : ℕ) (room : Room)
      → get s.rooms room_id ≡ some room
      → Inv s
      → Safely (λ r. Inv r.0) (register b s user room_id conn (some room))
  unfolding register
  register-Inv s user room_id conn room found h = elim (Option-cases (get room.users user)) [
    | inl e ↦
        rw (e, register, Safely)
          (Inv-put s _ room_id _ refl h
            (enter-RoomInv s.clients s.next_client room_id user conn s.buffer_size room
              (h.rooms_inv room_id room found))
            (λ other r ne there. RoomInv-alloc _ (h.rooms_inv other r there)))
    | inr (p, e) ↦ rw (e, register, Safely) tt
  ]

  register-Entry :
      (s : Server R) (user room_id : String) (conn : ℕ) (o : Option Room)
      → OnReturn
          (λ r.
            IsEntry r.0.clients r.0.next_client room_id running user r.1
            × (get r.0.rooms room_id ≢ none))
          (register b s user room_id conn o)
  unfolding register
  register-Entry s user room_id conn none = tt
  register-Entry s user room_id conn (some room) = elim (Option-cases (get room.users user)) [
    | inl e ↦
        rw (e, register, OnReturn)
          (
            record {
              below = omega arith;
              user_matches = rw (eqb_refl s.next_client) (unfold new_client in refl);
              room_matches = rw (eqb_refl s.next_client) (unfold new_client in refl);
              send_open = λ live. rw (eqb_refl s.next_client) (unfold new_client make in refl);
            },
            λ gone. cc (
              gone,
              get-put_self s.rooms room_id
                  (record room { users = put room.users user s.next_client }),
            ),
          )
    | inr (p, e) ↦ rw (e, register, OnReturn) tt
  ]

  -- The client that a join returns belongs to the user and the room.
  pub add_user_to_room-Entry :
      (s : Server R) (user room_id : String) (conn : ℕ)
      → OnReturn
          (λ r.
            IsEntry r.0.clients r.0.next_client room_id running user r.1
            × (get r.0.rooms room_id ≢ none))
          (add_user_to_room b s user room_id conn)
  unfolding add_user_to_room
  add_user_to_room-Entry s user room_id conn =
      let s' = add_new_room b s room_id in
      register-Entry s' user room_id conn (get s'.rooms room_id)

  -- `AddUserToRoom` never panics, and keeps the invariant.
  pub add_user_to_room-Inv :
      (s : Server R) (user room_id : String) (conn : ℕ)
      → Inv s
      → Safely (λ r. Inv r.0) (add_user_to_room b s user room_id conn)
  unfolding add_user_to_room
  add_user_to_room-Inv s user room_id conn h =
      let (room, found) = get-add_new_room s room_id in
      rw found (
        register-Inv (add_new_room b s room_id) user room_id conn room found
          (add_new_room-Inv s room_id h))

module _ {R : Type 0} where
  unregister-Inv :
      (s : Server R) (user room_id : String) (room : Room) (o : Option ℕ)
      → get room.users user ≡ o
      → get s.rooms room_id ≡ some room
      → Inv s
      → Safely Inv (unregister s user room_id room o)
  unfolding unregister
  unregister-Inv s user room_id room none e found h = tt
  unregister-Inv s user room_id room (some p) e found h =
      Inv-put s _ room_id _ refl h
        (leave-RoomInv s.clients s.next_client room_id user p _ room room.loop (λ l. l) e
          (h.rooms_inv room_id room found))
        λ other r ne there.
          RoomInv-other p _
            (λ u q at_q.
              entry_differs ((h.rooms_inv room_id room found).entries user p e)
                ((h.rooms_inv other r there).entries u q at_q) (inl ne))
            (h.rooms_inv other r there)

  -- `RemoveUserFromRoom` never panics, and keeps the invariant.
  pub remove_user_from_room-Inv :
      (s : Server R) (user room_id : String)
      → Inv s
      → Safely Inv (remove_user_from_room s user room_id)
  unfolding remove_user_from_room
  remove_user_from_room-Inv s user room_id h = elim (Option-cases (get s.rooms room_id)) [
    | inl e ↦ rw (e, remove_user_from_room, Safely) tt
    | inr (room, e) ↦
        rw (e, remove_user_from_room, Safely)
          (unregister-Inv s user room_id room (get room.users user) refl e h)
  ]
