-- ===== src/Server/Invariant/Entries.antt =====
-- How the invariant of a room survives a change of the clients' store, or of the room.
use chatflow.Prelude.{
  ℕ, ◌+◌, String, ◌≡◌, ◌≢◌, sym, ◌∙◌, ◌⊎◌, ap, subst, ◌==◌, eq_iff, inl, inr, some, arith, eqb,
  if◌then◌else◌, Bool-cases,
}
use mathlib.Core.Option.{some-injective}
use chatflow.Prelude.Dict.{get, put, get-put, put-IsMap}
use chatflow.Prelude.Store.{update, eqb→eq}
use chatflow.Server.{Client, Room, Server, Loop}
use chatflow.Server.Invariant.{IsEntry, RoomInv, Inv}

-- All that the entries see of a client.
pub record SameClient (c d : Client) : Type 0 where
  pub user_id : d.user_id ≡ c.user_id
  pub room : d.room ≡ c.room
  pub closed : d.send.closed ≡ c.send.closed

module _ {clients clients' : ℕ → Client} {next : ℕ} {room_id : String} where
  pub IsEntry-same :
      {loop : Loop} {user : String} {p : ℕ}
      → SameClient (clients p) (clients' p)
      → IsEntry clients next room_id loop user p
      → IsEntry clients' next room_id loop user p
  IsEntry-same same e = ground arith

  pub RoomInv-same :
      {room : Room}
      → ((p : ℕ) → SameClient (clients p) (clients' p))
      → RoomInv clients next room_id room
      → RoomInv clients' next room_id room
  RoomInv-same same h = record {
    distinct = h.distinct;
    entries = λ user p e. IsEntry-same (same p) (h.entries user p e);
    broadcast_open = h.broadcast_open;
    broadcast_bounded = h.broadcast_bounded;
  }

-- A client that no entry of the room points to may change at will.
module _ {clients : ℕ → Client} {next : ℕ} {room_id : String} where
  pub IsEntry-other :
      {loop : Loop} {user : String} {q : ℕ} (p : ℕ) (c : Client)
      → p ≢ q
      → IsEntry clients next room_id loop user q
      → IsEntry (update clients p c) next room_id loop user q
  IsEntry-other {q} p c ne e = elim (Bool-cases (eqb p q)) [
    | inl same ↦ absurd (ne (eqb→eq p q same))
    | inr other ↦ IsEntry-same (record { user_id = rw other; room = rw other; closed = rw other }) e
  ]

  pub RoomInv-other :
      {room : Room} (p : ℕ) (c : Client)
      → ((user : String) (q : ℕ) → get room.users user ≡ some q → p ≢ q)
      → RoomInv clients next room_id room
      → RoomInv (update clients p c) next room_id room
  RoomInv-other p c ne h = record {
    distinct = h.distinct;
    entries = λ user q e. IsEntry-other p c (ne user q e) (h.entries user q e);
    broadcast_open = h.broadcast_open;
    broadcast_bounded = h.broadcast_bounded;
  }

  -- A new client takes the next address.
  pub RoomInv-alloc :
      {room : Room} (c : Client)
      → RoomInv clients next room_id room
      → RoomInv (update clients next c) (next + 1) room_id room
  RoomInv-alloc {room} c h = record {
    distinct = h.distinct;
    entries = λ user q e. grow (h.entries user q e);
    broadcast_open = h.broadcast_open;
    broadcast_bounded = h.broadcast_bounded;
  }
    where
      grow :
          {user : String} {q : ℕ}
          → IsEntry clients next room_id room.loop user q
          → IsEntry (update clients next c) (next + 1) room_id room.loop user q
      grow {q} e =
          let moved = IsEntry-other next c (omega (arith, e.below)) e in
          record {
            below = omega (arith, e.below);
            user_matches = moved.user_matches;
            room_matches = moved.room_matches;
            send_open = moved.send_open;
          }

module _ {R : Type 0} where
  -- One room is written back: it has to be shown for that room, and the others have to be carried.
  pub Inv-put :
      (s s' : Server R) (room_id : String) (room : Room)
      → s'.rooms ≡ put s.rooms room_id room
      → Inv s
      → RoomInv s'.clients s'.next_client room_id room
      → ((other : String) (r : Room)
          → room_id ≢ other
          → get s.rooms other ≡ some r
          → RoomInv s'.clients s'.next_client other r)
      → Inv s'
  Inv-put s s' room_id room e h here there = record {
    distinct_rooms = rw e (put-IsMap s.rooms room_id room h.distinct_rooms);
    rooms_inv = λ other r found. at other r (rw (e, get-put) at found);
  }
    where
      at :
          (other : String) (r : Room)
          → (if room_id == other then some room else get s.rooms other) ≡ some r
          → RoomInv s'.clients s'.next_client other r
      at other r found = elim (Bool-cases (room_id == other)) [
        | inl same ↦
            subst (λ i. RoomInv s'.clients s'.next_client i r) ((eq_iff room_id other).0 same)
              (subst (λ x. RoomInv s'.clients s'.next_client room_id x)
                (some-injective room r (rw same at found)) here)
        | inr differ ↦
            there other r (λ p. cc (differ, (eq_iff room_id other).1 p)) (rw differ at found)
      ]

-- A client of another room, or of another user, is another client.
pub entry_differs :
    {clients : ℕ → Client} {next next' : ℕ} {room_id room_id' : String} {loop loop' : Loop}
    {user user' : String} {p q : ℕ}
    → IsEntry clients next room_id loop user p
    → IsEntry clients next' room_id' loop' user' q
    → (room_id ≢ room_id') ⊎ (user ≢ user')
    → p ≢ q
entry_differs {clients} e f (inl differ) same =
    differ (sym e.room_matches ∙ ap (λ x. (clients x).room) same ∙ f.room_matches)
entry_differs {clients} e f (inr differ) same =
    differ (sym e.user_matches ∙ ap (λ x. (clients x).user_id) same ∙ f.user_matches)
