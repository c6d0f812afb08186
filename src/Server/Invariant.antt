-- ===== src/Server/Invariant.antt =====
-- The invariant of the server between two steps: what the code relies on when it sends into a
-- client's channel without looking whether it is closed.
pub mod Entries
pub mod Joins
pub mod Rounds
pub mod Shutdown
pub mod Sends
pub mod Growth
pub mod GrowthRounds
use chatflow.Prelude.{ℕ, ◌<◌, String, ◌≡◌, ◌≢◌, Bool, true, false, some}
use chatflow.Prelude.Dict.{IsMap, get}
use chatflow.Prelude.Chan.{IsWithin}
use chatflow.Server.{
  Client, Room, Server, Loop, running, removing, stopped, Outcome, ok, err, panic, ◌>>=◌,
}

-- The goroutine has not returned.
abbrev pub is_live : Loop → Bool
is_live running = true
is_live (removing user) = true
is_live stopped = false

-- The entry `user ↦ p` of a room: the client behind the pointer knows its user and its room, and
-- its channel is open while the goroutine may send to it.
pub record IsEntry (clients : ℕ → Client) (next : ℕ) (room_id : String) (loop : Loop)
    (user : String) (p : ℕ) : Type 0 where
  pub below : p < next
  pub user_matches : (clients p).user_id ≡ user
  pub room_matches : (clients p).room ≡ room_id
  pub send_open : is_live loop ≡ true → (clients p).send.closed ≡ false

pub record RoomInv (clients : ℕ → Client) (next : ℕ) (room_id : String) (room : Room) : Type 0 where
  pub distinct : IsMap room.users
  pub entries :
      (user : String) (p : ℕ)
      → get room.users user ≡ some p
      → IsEntry clients next room_id room.loop user p
  pub broadcast_open : room.broadcast.closed ≡ false
  pub broadcast_bounded : IsWithin room.broadcast

pub record Inv {R : Type 0} (s : Server R) : Type 0 where
  pub distinct_rooms : IsMap s.rooms
  pub rooms_inv :
      (room_id : String) (room : Room)
      → get s.rooms room_id ≡ some room
      → RoomInv s.clients s.next_client room_id room

-- A result that is no panic, and keeps `P` if it is a return.
abbrev pub Safely : {A : Type 0} → (A → Type 0) → Outcome A → Type 0
Safely P (ok a) = P a
Safely P (err e) = Unit
Safely P panic = ⊥

-- `P` of what a function returns, if it returns.
abbrev pub OnReturn : {A : Type 0} → (A → Type 0) → Outcome A → Type 0
OnReturn P (ok a) = P a
OnReturn P (err e) = Unit
OnReturn P panic = Unit

pub OnReturn-map :
    {A : Type 0} (P Q : A → Type 0) (o : Outcome A)
    → ((a : A) → P a → Q a)
    → OnReturn P o
    → OnReturn Q o
OnReturn-map P Q (ok a) f h = f a h
OnReturn-map P Q (err e) f h = tt
OnReturn-map P Q panic f h = tt

pub OnReturn-bind :
    {A B : Type 0} (P : A → Type 0) (Q : B → Type 0) (o : Outcome A) (f : A → Outcome B)
    → OnReturn P o
    → ((a : A) → P a → OnReturn Q (f a))
    → OnReturn Q (o >>= f)
OnReturn-bind P Q (ok a) f h k = k a h
OnReturn-bind P Q (err e) f h k = tt
OnReturn-bind P Q panic f h k = tt

pub Safely-bind :
    {A B : Type 0} (P : A → Type 0) (Q : B → Type 0) (o : Outcome A) (f : A → Outcome B)
    → Safely P o
    → ((a : A) → P a → Safely Q (f a))
    → Safely Q (o >>= f)
Safely-bind P Q (ok a) f h k = k a h
Safely-bind P Q (err e) f h k = tt
Safely-bind P Q panic f h k = h

pub Safely-and :
    {A : Type 0} (P Q : A → Type 0) (o : Outcome A)
    → Safely P o
    → OnReturn Q o
    → Safely (λ a. P a × Q a) o
Safely-and P Q (ok a) h k = (h, k)
Safely-and P Q (err e) h k = tt
Safely-and P Q panic h k = h
