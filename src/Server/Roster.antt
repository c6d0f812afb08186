-- ===== src/Server/Roster.antt =====
-- What the rooms, the loops and the map `UserRooms` of internal/server/server.go say together of the
-- users: an abstract roster, and the steps that it takes.
pub mod Conns
pub mod Index
pub mod Faces
pub mod Rounds
pub mod Joins
pub mod Handlers
pub mod Agreement
use chatflow.Prelude.{
  ℕ, ◌+◌, ◌-◌, String, ◌≡◌, ◌==◌, Bool, true, false, ◌&&◌, Option, none, some, List, [], ◌∷◌,
  if◌then◌else◌,
}
use chatflow.Prelude.Dict.{Dict, get}
use chatflow.Server.{Room, Server, Loop, running, removing, stopped}
use chatflow.Server.UserRooms.{rooms_of}

-- Who is in which room; whose removal from a room has begun and not ended; and how often a room
-- stands among a user's rooms.
pub record Roster : Type 0 where
  pub present : String → String → Bool
  pub leaving : String → String → Bool
  pub listed : String → String → ℕ

-- One value of a function of a room and a user.
abbrev pub mark : {A : Type 0} → (String → String → A) → String → String → A → String → String → A
mark f room user v r u = if room == r && user == u then v else f r u

-- The steps: a user enters a room; a removal begins, and ends; a user is removed at once.
pub data Move : Roster → Roster → Type 0 where
  enters :
      (a : Roster) (room user : String)
      → a.present room user ≡ false
      → Move a (record {
        present = mark a.present room user true;
        leaving = a.leaving;
        listed = mark a.listed room user (a.listed room user + 1);
      })
  departs :
      (a : Roster) (room user : String)
      → a.present room user ≡ true
      → ((u : String) → a.leaving room u ≡ false)
      → Move a (record {
        present = mark a.present room user false;
        leaving = mark a.leaving room user true;
        listed = a.listed;
      })
  settles :
      (a : Roster) (room user : String)
      → a.leaving room user ≡ true
      → Move a (record {
        present = a.present;
        leaving = mark a.leaving room user false;
        listed = mark a.listed room user (a.listed room user - 1);
      })
  expelled :
      (a : Roster) (room user : String)
      → a.present room user ≡ true
      → Move a (record {
        present = mark a.present room user false;
        leaving = a.leaving;
        listed = mark a.listed room user (a.listed room user - 1);
      })

-- No step, or one.
pub data AtMostOne (a b : Roster) : Type 0 where
  stays : b ≡ a → AtMostOne a b
  moves : Move a b → AtMostOne a b

-- What of a room the roster depends on.
abbrev pub face : Option Room → Option (Dict ℕ × Loop)
face none = none
face (some room) = some (room.users, room.loop)

unfoldable pub is_some : {A : Type 0} → Option A → Bool
is_some none = false
is_some (some a) = true

unfoldable pub present_in : Option (Dict ℕ × Loop) → String → Bool
unfolding is_some
present_in none user = false
present_in (some f) user = is_some (get f.0 user)

unfoldable pub leaves_by : Loop → String → Bool
leaves_by running user = false
leaves_by (removing u) user = u == user
leaves_by stopped user = false

unfoldable pub leaving_from : Option (Dict ℕ × Loop) → String → Bool
unfolding leaves_by
leaving_from none user = false
leaving_from (some f) user = leaves_by f.1 user

unfoldable pub occurrences : String → List String → ℕ
occurrences r [] = 0
occurrences r (x ∷ xs) = let rest = occurrences r xs in if x == r then rest + 1 else rest

abbrev pub roster : (String → Option (Dict ℕ × Loop)) → Dict (List String) → Roster
roster faces index = record {
  present = λ room. present_in (faces room);
  leaving = λ room. leaving_from (faces room);
  listed = λ room user. occurrences room (rooms_of index user);
}

abbrev pub faces : {R : Type 0} → Server R → String → Option (Dict ℕ × Loop)
faces s room = face (get s.rooms room)

abbrev pub roster_of : {R : Type 0} → Server R → Roster
roster_of s = roster (faces s) s.user_rooms
