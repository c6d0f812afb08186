-- ===== src/Server/Roster/Agreement.antt =====
-- internal/server/server.go and chatRoomHandler.go: the server as an implementation of the abstract
-- roster, and `UserRooms` beside the rooms.
use chatflow.Prelude.{ℕ, ◌+◌, String, ◌≡◌, refl, eq_iff, Bool, true, false, Option, arith}
use chatflow.Prelude.Int.{ℤ}
use chatflow.Prelude.Dict.{get}
use chatflow.Server.{Broker, ok, new_server}
use chatflow.Server.UserRooms.{rooms_of}
use chatflow.Server.Broadcast.{broadcast_round, consume_message}
use chatflow.Server.Handler.{chat_room_handler}
use chatflow.Server.Invariant.{OnReturn, OnReturn-bind}
use chatflow.Server.System.{
  System, Action, perform, Reach, here, later, boot, connects, handles, writes, stops_writing,
  rounds, stops, delivers, cancels, shuts_down,
}
use chatflow.Server.Roster.{
  Roster, Move, enters, departs, settles, expelled, AtMostOne, stays, moves, roster_of, present_in,
  leaving_from, occurrences,
}
use chatflow.Server.Roster.Conns.{shut_down-OnlyConns}
use chatflow.Server.Roster.Rounds.{Still, Stirs, broadcast_round-Stirs}
use chatflow.Server.Roster.Joins.{broadcast_done-Still, consume_message-Still}
use chatflow.Server.Roster.Handlers.{chat_room_handler-Turns, handle_client_writes-Still}

module _ {R : Type 0} (b : Broker R) (parse_time : String → Option ℤ) where
  perform-OnReturn :
      (w : System R) (a : Action)
      → OnReturn (λ v. Stirs w.server v.server) (perform b parse_time w a)
  unfolding perform
  perform-OnReturn w (connects room_id client_ip) = stays refl
  perform-OnReturn w (handles k t input) =
      OnReturn-bind (λ r. Stirs w.server r.0) (λ v. Stirs w.server v.server)
        (chat_room_handler b parse_time t w.server (w.handlers k) input) _
        (chat_room_handler-Turns b parse_time t w.server (w.handlers k) input) λ r h. h
  perform-OnReturn w (writes k accepts) =
      stays (handle_client_writes-Still w.server accepts (w.handlers k).writer)
  perform-OnReturn w (stops_writing k) = stays refl
  perform-OnReturn w (rounds room_id) =
      OnReturn-bind (Stirs w.server) (λ v. Stirs w.server v.server)
        (broadcast_round w.server room_id) _ (broadcast_round-Stirs w.server room_id) λ s h. h
  perform-OnReturn w (stops room_id) = stays (broadcast_done-Still w.server room_id)
  perform-OnReturn w (delivers room_id now q) =
      OnReturn-bind (Still w.server) (λ v. Stirs w.server v.server)
        (consume_message parse_time w.server room_id now q) _
        (consume_message-Still parse_time w.server room_id now q) λ s e. stays e
  perform-OnReturn w shuts_down =
      let same = shut_down-OnlyConns w.server in stays (rw (same.rooms, same.user_rooms) refl)
  perform-OnReturn w cancels = stays refl

  -- A step of the server that returns leaves the roster as it is, or takes exactly one of its
  -- steps: a user enters a room that does not have them; the removal of a user begins while no
  -- other is under way in the room, and ends; or a user is removed at once.
  pub perform-refines_roster :
      (w v : System R) (a : Action)
      → perform b parse_time w a ≡ ok v
      → AtMostOne (roster_of w.server) (roster_of v.server)
  perform-refines_roster w v a e = rw e at (perform-OnReturn w a)

unfoldable pub ones : Bool → ℕ
ones true = 1
ones false = 0

abbrev pub Agrees : Roster → Type 0
unfolding ones
Agrees a =
    (room user : String)
    → a.listed room user ≡ ones (a.present room user) + ones (a.leaving room user)

Move-Agrees : {a b : Roster} → Move a b → Agrees a → Agrees b
unfolding ones
Move-Agrees (enters a room user p) h r u = ground (arith, h r u, eq_iff room r, eq_iff user u)
Move-Agrees (departs a room user p l) h r u =
    ground (arith, h r u, l user, eq_iff room r, eq_iff user u)
Move-Agrees (settles a room user l) h r u = ground (arith, h r u, eq_iff room r, eq_iff user u)
Move-Agrees (expelled a room user p) h r u = ground (arith, h r u, eq_iff room r, eq_iff user u)

AtMostOne-Agrees : {a b : Roster} → AtMostOne a b → Agrees a → Agrees b
AtMostOne-Agrees (stays e) h = rw e h
AtMostOne-Agrees (moves m) h = Move-Agrees m h

boot-Agrees :
    {R : Type 0} (id : String) (buffer_size : ℕ) (rabbit : Option R) (max_rooms : ℕ)
    → Agrees (roster_of (boot id buffer_size rabbit max_rooms).server)
unfolding new_server get rooms_of occurrences present_in leaving_from ones
boot-Agrees id buffer_size rabbit max_rooms room user = refl

module _ {R : Type 0} (b : Broker R) (parse_time : String → Option ℤ) where
  Reach-Agrees :
      {start w : System R}
      → Agrees (roster_of start.server)
      → Reach b parse_time start w
      → Agrees (roster_of w.server)
  Reach-Agrees h here = h
  Reach-Agrees h (later {w} {v} r a e) =
      AtMostOne-Agrees (perform-refines_roster b parse_time w v a e) (Reach-Agrees h r)

  -- In every state that some interleaving leads to, a room stands among a user's entry of
  -- `UserRooms` once if the user is in the room, and once more while the goroutine of the room has
  -- taken the user out and not yet called `removeFromUserRooms`; and else not at all.
  pub listed_once :
      (id : String) (buffer_size : ℕ) (rabbit : Option R) (max_rooms : ℕ) (w : System R)
      (room user : String)
      → Reach b parse_time (boot id buffer_size rabbit max_rooms) w
      → (roster_of w.server).listed room user
        ≡ ones ((roster_of w.server).present room user)
          + ones ((roster_of w.server).leaving room user)
  unfolding ones
  listed_once id buffer_size rabbit max_rooms w room user r =
      Reach-Agrees (boot-Agrees id buffer_size rabbit max_rooms) r room user
