-- ===== src/Server/Invariant/Shutdown.antt =====
-- When its context is cancelled, the broadcast goroutine closes the clients of its room and returns.
use chatflow.Prelude.{
  ℕ, String, ◌≡◌, ◌≢◌, refl, ◌∙◌, sym, ap, inl, inr, true, false, some, [], ◌∷◌, eqb, if◌then◌else◌,
  Bool-cases, or_false, Option-cases,
}
use chatflow.Prelude.Dict.{Dict, get, All-entries}
use chatflow.Prelude.Store.{eqb→eq}
use chatflow.Prelude.Seq.{All}
use chatflow.Server.{Client, Room, Server, Loop, running, removing, stopped}
use chatflow.Server.Rooms.{close_send, close_conn}
use chatflow.Server.Broadcast.{set_room, close_users, stop_loop, broadcast_done}
use chatflow.Server.Broadcast.FanOut.{holds}
use chatflow.Server.Invariant.{RoomInv, Inv}
use chatflow.Server.Invariant.Entries.{SameClient, IsEntry-same, Inv-put}

-- No entry of a room points to a client of another one.
holds_elsewhere :
    (clients : ℕ → Client) (room_id : String) (users : Dict ℕ) (q : ℕ)
    → All (λ e. (clients e.1).room ≡ room_id) users
    → (clients q).room ≢ room_id
    → holds q users ≡ false
holds_elsewhere clients room_id [] q h ne = refl
holds_elsewhere clients room_id ((user, p) ∷ users) q h ne = elim (Bool-cases (eqb p q)) [
  | inl e ↦ absurd (ne (ap (λ x. (clients x).room) (sym (eqb→eq p q e)) ∙ h.0))
  | inr e ↦ rw e (holds_elsewhere clients room_id users q h.1 ne)
]

module _ {R : Type 0} where
  abbrev kicked : Server R → ℕ → Server R
  kicked s p = close_send (close_conn s (s.clients p).conn) p

  kicked-user_id :
      (s : Server R) (p q : ℕ) → ((kicked s p).clients q).user_id ≡ (s.clients q).user_id
  unfolding close_send close_conn
  kicked-user_id s p q = elim (Bool-cases (eqb p q)) [
    | inl e ↦ rw (e, eqb→eq p q e) refl
    | inr e ↦ rw e refl
  ]

  kicked-room : (s : Server R) (p q : ℕ) → ((kicked s p).clients q).room ≡ (s.clients q).room
  unfolding close_send close_conn
  kicked-room s p q = elim (Bool-cases (eqb p q)) [
    | inl e ↦ rw (e, eqb→eq p q e) refl
    | inr e ↦ rw e refl
  ]

  kicked-closed :
      (s : Server R) (p q : ℕ)
      → eqb p q ≡ false
      → ((kicked s p).clients q).send.closed ≡ (s.clients q).send.closed
  unfolding close_send close_conn
  kicked-closed s p q e = rw e refl

  -- What closing the clients of a room leaves alone.
  record Closed (s t : Server R) (users : Dict ℕ) : Type 0 where
    rooms_same : t.rooms ≡ s.rooms
    next_same : t.next_client ≡ s.next_client
    user_id_same : (q : ℕ) → (t.clients q).user_id ≡ (s.clients q).user_id
    room_same : (q : ℕ) → (t.clients q).room ≡ (s.clients q).room
    closed_same :
        (q : ℕ) → holds q users ≡ false → (t.clients q).send.closed ≡ (s.clients q).send.closed

  close_users-Closed : (s : Server R) (users : Dict ℕ) → Closed s (close_users s users) users
  unfolding close_users
  close_users-Closed s [] = record {
    rooms_same = refl;
    next_same = refl;
    user_id_same = λ q. refl;
    room_same = λ q. refl;
    closed_same = λ q e. refl;
  }
  close_users-Closed s ((user, p) ∷ users) =
      let rest = close_users-Closed (kicked s p) users in
      record {
        rooms_same = rest.rooms_same ∙ unfold close_send close_conn in refl;
        next_same = rest.next_same ∙ unfold close_send close_conn in refl;
        user_id_same = λ q. rest.user_id_same q ∙ kicked-user_id s p q;
        room_same = λ q. rest.room_same q ∙ kicked-room s p q;
        closed_same = λ q e.
            let (first, later) = or_false (eqb p q) (holds q users) e in
            rest.closed_same q later ∙ kicked-closed s p q first;
      }

  stopped-RoomInv :
      (s t : Server R) (room_id : String) (room : Room)
      → Closed s t room.users
      → RoomInv s.clients s.next_client room_id room
      → RoomInv t.clients t.next_client room_id (record room { loop = stopped })
  stopped-RoomInv s t room_id room c h = record {
    distinct = h.distinct;
    entries = λ user p e.
        let entry = h.entries user p e in
        record {
          below = rw c.next_same entry.below;
          user_matches = c.user_id_same p ∙ entry.user_matches;
          room_matches = c.room_same p ∙ entry.room_matches;
          send_open = λ live. cc;
        };
    broadcast_open = h.broadcast_open;
    broadcast_bounded = h.broadcast_bounded;
  }

  other-RoomInv :
      (s t : Server R) (room_id other : String) (room r : Room)
      → Closed s t room.users
      → room_id ≢ other
      → RoomInv s.clients s.next_client room_id room
      → RoomInv s.clients s.next_client other r
      → RoomInv t.clients t.next_client other r
  other-RoomInv s t room_id other room r c ne h there = record {
    distinct = there.distinct;
    entries = λ user q e. rw c.next_same (IsEntry-same (same user q e) (there.entries user q e));
    broadcast_open = there.broadcast_open;
    broadcast_bounded = there.broadcast_bounded;
  }
    where
      same :
          (user : String) (q : ℕ)
          → get r.users user ≡ some q
          → SameClient (s.clients q) (t.clients q)
      same user q e = record {
        user_id = c.user_id_same q;
        room = c.room_same q;
        closed = c.closed_same q (
            holds_elsewhere s.clients room_id room.users q
              (All-entries _ room.users h.distinct λ u p f. (h.entries u p f).room_matches)
              (λ at. ne (sym at ∙ (there.entries user q e).room_matches)));
      }

  stop_loop-Inv :
      (s : Server R) (room_id : String) (room : Room) (loop : Loop)
      → get s.rooms room_id ≡ some room
      → Inv s
      → Inv (stop_loop s room_id room loop)
  unfolding stop_loop set_room
  stop_loop-Inv s room_id room running found h =
      let c = close_users-Closed s room.users in
      let here = h.rooms_inv room_id room found in
      Inv-put s _ room_id _ (rw c.rooms_same) h (stopped-RoomInv s _ room_id room c here)
        (λ other r ne there.
          other-RoomInv s _ room_id other room r c ne here (h.rooms_inv other r there))
  stop_loop-Inv s room_id room (removing user) found h = h
  stop_loop-Inv s room_id room stopped found h = h

  -- The end of the broadcast goroutine keeps the invariant.
  pub broadcast_done-Inv :
      (s : Server R) (room_id : String) → Inv s → Inv (broadcast_done s room_id)
  unfolding broadcast_done
  broadcast_done-Inv s room_id h = elim (Option-cases (get s.rooms room_id)) [
    | inl e ↦ rw (e, broadcast_done) h
    | inr (room, e) ↦
        rw (e, broadcast_done)
          (elim s.cancelled as (λ b. Inv (if b then stop_loop s room_id room room.loop else s)) [
            | true ↦ stop_loop-Inv s room_id room room.loop e h
            | false ↦ h
          ])
  ]
