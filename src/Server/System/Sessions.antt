-- ===== src/Server/System/Sessions.antt =====
-- What a handler knows of its session between its steps.
use chatflow.Prelude.{◌<◌, String, ◌≡◌, ◌≢◌, refl, ◌∙◌, none, arith}
use chatflow.Prelude.Dict.{get}
use chatflow.Server.{Server}
use chatflow.Server.Handler.{
  Session, Phase, Handler, upgrading, joining, publishing, reading, waiting, returned,
}
use chatflow.Server.Invariant.{Inv}
use chatflow.Server.Invariant.Growth.{Grows}

-- The client of a session belongs to the session's user and to the handler's room.
pub record SessionInv {R : Type 0} (s : Server R) (room_id : String) (session : Session)
    : Type 0 where
  pub allocated : session.client < s.next_client
  pub owner : (s.clients session.client).user_id ≡ session.user_id
  pub in_room : (s.clients session.client).room ≡ room_id
  pub room_exists : get s.rooms room_id ≢ none

abbrev pub PhaseInv : {R : Type 0} → Server R → String → Phase → Type 0
PhaseInv s room_id (publishing session q next) = SessionInv s room_id session
PhaseInv s room_id (reading session) = SessionInv s room_id session
PhaseInv s room_id upgrading = Unit
PhaseInv s room_id joining = Unit
PhaseInv s room_id waiting = Unit
PhaseInv s room_id returned = Unit

-- What one step of a handler achieves.
pub record StepOk {R : Type 0} (s : Server R) (h : Handler) (r : Server R × Handler) : Type 0 where
  pub inv : Inv r.0
  pub grows : Grows s r.0
  pub same_room : r.1.room_id ≡ h.room_id
  pub phase_inv : PhaseInv r.0 r.1.room_id r.1.phase

module _ {R : Type 0} where
  pub SessionInv-Grows :
      {s t : Server R} {room_id : String} {session : Session}
      → Grows s t
      → SessionInv s room_id session
      → SessionInv t room_id session
  SessionInv-Grows {session} g h = record {
    allocated = omega (arith, g.next_grows, h.allocated);
    owner = g.user_stays session.client h.allocated ∙ h.owner;
    in_room = g.room_stays session.client h.allocated ∙ h.in_room;
    room_exists = g.rooms_stay _ h.room_exists;
  }

  pub PhaseInv-Grows :
      {s t : Server R} (room_id : String) (phase : Phase)
      → Grows s t
      → PhaseInv s room_id phase
      → PhaseInv t room_id phase
  PhaseInv-Grows room_id (publishing session q next) g h = SessionInv-Grows g h
  PhaseInv-Grows room_id (reading session) g h = SessionInv-Grows g h
  PhaseInv-Grows room_id upgrading g h = tt
  PhaseInv-Grows room_id joining g h = tt
  PhaseInv-Grows room_id waiting g h = tt
  PhaseInv-Grows room_id returned g h = tt

  -- Fields that the invariant does not read.
  pub Inv-counts :
      {s t : Server R}
      → t.rooms ≡ s.rooms
      → t.clients ≡ s.clients
      → t.next_client ≡ s.next_client
      → Inv s
      → Inv t
  Inv-counts rooms clients next h = record {
    distinct_rooms = rw rooms h.distinct_rooms;
    rooms_inv = λ i r e. rw (clients, next) (h.rooms_inv i r (rw rooms at e));
  }

  pub Grows-counts :
      {s t : Server R}
      → t.rooms ≡ s.rooms
      → t.clients ≡ s.clients
      → t.next_client ≡ s.next_client
      → Grows s t
  Grows-counts rooms clients next = record {
    next_grows = omega (arith, next);
    rooms_stay = λ i e. rw rooms e;
    user_stays = λ p lt. rw clients refl;
    room_stays = λ p lt. rw clients refl;
  }
