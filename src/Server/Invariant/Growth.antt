-- ===== src/Server/Invariant/Growth.antt =====
-- What a pointer held elsewhere may rely on, whatever the other goroutines do meanwhile: its room
-- stays, and its client keeps its owner.
use chatflow.Prelude.{
  ℕ, ◌<◌, ◌≤◌, String, ◌≡◌, ◌≢◌, refl, ◌∙◌, inl, inr, Option, none, some, arith, eqb, Bool-cases,
  Option-cases,
}
use chatflow.Prelude.Dict.{Dict, get, put, remove, get-put}
use chatflow.Prelude.Store.{eqb→eq, eqb_of_lt}
use chatflow.Server.{Room, Server, Broker}
use chatflow.Server.Rooms.{
  new_room, register, add_new_room, add_user_to_room, close_send, close_conn,
  remove_from_user_rooms, unregister, remove_user_from_room,
}
use chatflow.Server.Broadcast.{set_room}
use chatflow.Server.Invariant.{OnReturn, OnReturn-map}

put_stays :
    (rooms : Dict Room) (room_id : String) (room : Room) (other : String)
    → get rooms other ≢ none
    → get (put rooms room_id room) other ≢ none
put_stays rooms room_id room other h e = ground (arith, get-put rooms room_id other room)

pub record Grows {R : Type 0} (s t : Server R) : Type 0 where
  pub next_grows : s.next_client ≤ t.next_client
  pub rooms_stay : (room_id : String) → get s.rooms room_id ≢ none → get t.rooms room_id ≢ none
  pub user_stays : (p : ℕ) → p < s.next_client → (t.clients p).user_id ≡ (s.clients p).user_id
  pub room_stays : (p : ℕ) → p < s.next_client → (t.clients p).room ≡ (s.clients p).room

module _ {R : Type 0} where
  pub Grows-refl : (s : Server R) → Grows s s
  Grows-refl s = record {
    next_grows = omega arith;
    rooms_stay = λ i h. h;
    user_stays = λ p h. refl;
    room_stays = λ p h. refl;
  }

  pub Grows-trans : {s t u : Server R} → Grows s t → Grows t u → Grows s u
  Grows-trans g h = record {
    next_grows = omega (arith, g.next_grows, h.next_grows);
    rooms_stay = λ i at. h.rooms_stay i (g.rooms_stay i at);
    user_stays = λ p lt. h.user_stays p (omega (arith, g.next_grows)) ∙ g.user_stays p lt;
    room_stays = λ p lt. h.room_stays p (omega (arith, g.next_grows)) ∙ g.room_stays p lt;
  }

  -- A room is written back, and the clients keep their owners.
  pub Grows-set_room :
      (s t : Server R) (room_id : String) (room : Room)
      → Grows s t
      → Grows s (set_room t room_id room)
  unfolding set_room
  Grows-set_room s t room_id room g = record {
    next_grows = g.next_grows;
    rooms_stay = λ i h. put_stays t.rooms room_id room i (g.rooms_stay i h);
    user_stays = g.user_stays;
    room_stays = g.room_stays;
  }

  pub Grows-close_send : (s : Server R) (p : ℕ) → Grows s (close_send s p)
  unfolding close_send
  Grows-close_send s p = record {
    next_grows = omega arith;
    rooms_stay = λ i h. h;
    user_stays = λ q h. elim (Bool-cases (eqb p q)) [
      | inl e ↦ rw (e, eqb→eq p q e) refl
      | inr e ↦ rw e refl
    ];
    room_stays = λ q h. elim (Bool-cases (eqb p q)) [
      | inl e ↦ rw (e, eqb→eq p q e) refl
      | inr e ↦ rw e refl
    ];
  }

  pub Grows-close_conn : (s : Server R) (c : ℕ) → Grows s (close_conn s c)
  unfolding close_conn
  Grows-close_conn s c = record {
    next_grows = omega arith;
    rooms_stay = λ i h. h;
    user_stays = λ p h. refl;
    room_stays = λ p h. refl;
  }

  pub remove_from_user_rooms-Grows :
      (s t : Server R) (user room_id : String)
      → Grows s t
      → Grows s (remove_from_user_rooms t user room_id)
  unfolding remove_from_user_rooms
  remove_from_user_rooms-Grows s t user room_id g = record {
    next_grows = g.next_grows;
    rooms_stay = g.rooms_stay;
    user_stays = g.user_stays;
    room_stays = g.room_stays;
  }

  module _ (b : Broker R) where
    add_new_room-Grows : (s : Server R) (room_id : String) → Grows s (add_new_room b s room_id)
    unfolding add_new_room
    add_new_room-Grows s room_id = elim (Option-cases (get s.rooms room_id)) [
      | inl e ↦
          rw (e, add_new_room)
            (record {
              next_grows = omega arith;
              rooms_stay = λ i h. put_stays s.rooms room_id (new_room s.buffer_size) i h;
              user_stays = λ p h. refl;
              room_stays = λ p h. refl;
            })
      | inr (room, e) ↦ rw (e, add_new_room) (Grows-refl s)
    ]

    register-Grows :
        (s : Server R) (user room_id : String) (conn : ℕ) (room : Option Room)
        → OnReturn (λ r. Grows s r.0) (register b s user room_id conn room)
    unfolding register
    register-Grows s user room_id conn none = tt
    register-Grows s user room_id conn (some room) = elim (Option-cases (get room.users user)) [
      | inl e ↦
          rw (e, register, OnReturn)
            (record {
              next_grows = omega arith;
              rooms_stay = λ i h.
                  put_stays s.rooms room_id
                    (record room { users = put room.users user s.next_client }) i h;
              user_stays = λ p h. rw (eqb_of_lt h) refl;
              room_stays = λ p h. rw (eqb_of_lt h) refl;
            })
      | inr (p, e) ↦ rw (e, register, OnReturn) tt
    ]

    pub add_user_to_room-Grows :
        (s : Server R) (user room_id : String) (conn : ℕ)
        → OnReturn (λ r. Grows s r.0) (add_user_to_room b s user room_id conn)
    unfolding add_user_to_room
    add_user_to_room-Grows s user room_id conn =
        let s' = add_new_room b s room_id in
        OnReturn-map (λ r. Grows s' r.0) (λ r. Grows s r.0)
          (register b s' user room_id conn (get s'.rooms room_id))
          (λ r g. Grows-trans (add_new_room-Grows s room_id) g)
          (register-Grows s' user room_id conn (get s'.rooms room_id))

  unregister-Grows :
      (s : Server R) (user room_id : String) (room : Room) (o : Option ℕ)
      → OnReturn (Grows s) (unregister s user room_id room o)
  unfolding unregister
  unregister-Grows s user room_id room none = tt
  unregister-Grows s user room_id room (some p) = remove_from_user_rooms-Grows s _ user room_id (
      unfold set_room in
      Grows-set_room s (close_send s p) room_id (record room { users = remove room.users user })
        (Grows-close_send s p))

  pub remove_user_from_room-Grows :
      (s : Server R) (user room_id : String)
      → OnReturn (Grows s) (remove_user_from_room s user room_id)
  unfolding remove_user_from_room
  remove_user_from_room-Grows s user room_id = elim (Option-cases (get s.rooms room_id)) [
    | inl e ↦ rw (e, remove_user_from_room, OnReturn) tt
    | inr (room, e) ↦
        rw (e, remove_user_from_room) (unregister-Grows s user room_id room (get room.users user))
  ]
