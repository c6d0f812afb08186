-- ===== src/Client/FanOut.antt =====
-- client/fanout.go: one user of `RunFanOutLoadTest`, who goes through the rooms one after the other.
pub mod Leaks
pub mod Waiting
use chatflow.Prelude.{
  ℕ, zero, suc, ◌+◌, ◌*◌, ◌%◌, String, ◌==◌, Bool, true, false, Option, none, some, List, [], ◌∷◌,
  ◌++◌, leb, if◌then◌else◌,
}
use chatflow.Prelude.Dict.{Dict, put}
use chatflow.Prelude.Store.{incr, int64_mod}
use chatflow.Prelude.Int64.{Int64, less_int64, div_int64}
use chatflow.Models.{Message, Response, message_type_join}
use chatflow.Generate.{new_join_message, new_leave_message, new_text_message}

-- `generate.TotalRooms`
abbrev pub total_rooms : ℕ
total_rooms = 20

unfoldable pub expected_msgs : Int64 → Int64 → Int64 → Int64
unfolding div_int64
expected_msgs message_count user_count room_count =
    div_int64 ((message_count + 2) * user_count * room_count % int64_mod) total_rooms

-- The goroutine that reads; `done` says that it has closed `msgDone` and returned.
pub record FanReader : Type 0 where
  pub received_msgs : Int64
  pub users_seen : Dict (Unit {0})
  pub done : Bool

abbrev pub new_fan_reader : FanReader
new_fan_reader = record { received_msgs = 0; users_seen = []; done = false }

unfoldable pub note_response : FanReader → Response → FanReader
unfolding incr
note_response r resp =
    let msg = resp.message in
    record r {
      received_msgs = incr r.received_msgs;
      users_seen =
          if msg.message_type == message_type_join
          then put r.users_seen msg.user_id tt
          else r.users_seen;
    }

-- `for resp := range conn.Send`, over the responses that come; the test compares signed integers.
unfoldable pub fan_read : Int64 → FanReader → List Response → FanReader
unfolding note_response
fan_read expected r [] = r
fan_read expected r (resp ∷ responses) =
    let r' = note_response r resp in
    let rest = fan_read expected r' responses in
    if less_int64 r'.received_msgs expected then rest else record r' { done = true }

-- The pool's counters, what went out on the user's connections, and the connections that the user
-- holds.
pub record FanRun : Type 0 where
  pub successful_messages : ℕ
  pub failed_messages : ℕ
  pub wire : List Message
  pub held : List ℕ

-- One `Write`, which the network takes or not.
unfoldable pub fan_write : Bool → Message → FanRun → FanRun
unfolding incr
fan_write true m s = record s {
  successful_messages = incr s.successful_messages;
  wire = s.wire ++ m ∷ [];
}
fan_write false m s = record s { failed_messages = incr s.failed_messages }

-- The texts from the index on; the first write of a room is the JOIN.
unfoldable pub fan_texts : (ℕ → Bool) → (ℕ → String) → (ℕ → ℕ) → String → ℕ → ℕ → FanRun → FanRun
unfolding fan_write new_text_message
fan_texts accepts now draw id i zero s = s
fan_texts accepts now draw id i (suc n) s =
    let m = new_text_message (draw i) id in
    fan_texts accepts now draw id (suc i) n
      (fan_write (accepts (suc i)) (record m { timestamp = now (suc i) }) s)

-- What follows a JOIN that went out: the texts, the LEAVE, the wait, and the removal of the
-- connection from the pool.
unfoldable pub fan_stay :
    (ℕ → Bool) → (ℕ → String) → (ℕ → ℕ) → String → String → ℕ → List ℕ → FanRun → FanRun
unfolding fan_texts fan_write new_leave_message
fan_stay accepts now draw id room_id message_count held s =
    let s' = fan_texts accepts now draw id 0 message_count s in
    let s'' =
      fan_write (accepts (suc message_count))
        (new_leave_message (now (suc message_count)) id room_id) s' in
    record s'' { held = held }

-- One room with its connection. A JOIN that fails is counted, and the next room follows.
unfoldable pub fan_room :
    (ℕ → Bool) → (ℕ → String) → (ℕ → ℕ) → String → String → ℕ → ℕ → FanRun → FanRun
unfolding fan_stay fan_write new_join_message
fan_room accepts now draw id room_id message_count conn s =
    let join = new_join_message (now 0) id room_id in
    let connected = record s { held = conn ∷ s.held } in
    elim (accepts 0) [
      | true ↦
          fan_stay accepts now draw id room_id message_count s.held (fan_write true join connected)
      | false ↦ fan_write false join connected
    ]

-- The loop over the rooms; the pool, the network, the clock and the draws answer by room.
unfoldable pub fan_rooms :
    (String → Option ℕ)
    → (String → ℕ → Bool)
    → (String → ℕ → String)
    → (String → ℕ → ℕ)
    → String
    → ℕ
    → List String
    → FanRun
    → FanRun
unfolding fan_room
fan_rooms connect accepts now draw id message_count [] s = s
fan_rooms connect accepts now draw id message_count (room_id ∷ rooms) s = elim (connect room_id) [
  | none ↦ fan_rooms connect accepts now draw id message_count rooms s
  | some conn ↦
      fan_rooms connect accepts now draw id message_count rooms
        (fan_room (accepts room_id) (now room_id) (draw room_id) id room_id message_count conn s)
]
