-- ===== src/Client/Writer.antt =====
-- client/ws/client.go: the goroutine of `WriteMessages` that writes the messages of one connection,
-- with at most five attempts for each, and the messages that `GenerateConnElements` makes for it.
pub mod Attempts
pub mod Order
use chatflow.Prelude.{
  ℕ, zero, suc, ◌+◌, ◌-◌, ◌*◌, String, Bool, true, false, Option, none, some, List, [], ◌∷◌, ◌++◌,
  eqb, if◌then◌else◌,
}
use chatflow.Prelude.Store.{incr}
use chatflow.Models.{Message}
use chatflow.Generate.{new_join_message, new_leave_message, texts}

-- What `Write` returns: no error; one that says that the connection is gone; or another.
pub data WriteResult : Type 0 where
  accepted : WriteResult
  connection_gone : WriteResult
  refused : WriteResult

-- An attempt: the time that is put into the message, what `Write` returns, and whether the context
-- is done before the backoff has passed.
pub record Attempt : Type 0 where
  pub now : String
  pub result : WriteResult
  pub cancelled : Bool

-- What was written to the connection, the counters of the pool, and the seconds waited.
pub record Sending : Type 0 where
  pub wire : List Message
  pub successful_messages : ℕ
  pub failed_messages : ℕ
  pub failed_connections : ℕ
  pub waited : ℕ

-- How the attempts for a message end. The first two go on with the next message, and the others
-- return.
pub data Attempted : Type 0 where
  written : Attempted
  given_up : Attempted
  lost : Attempted
  interrupted : Attempted

abbrev pub max_attempts : ℕ
max_attempts = 5

unfoldable pub write_accepted : Sending → Message → String → Sending
unfolding incr
write_accepted s m now = record s {
  wire = s.wire ++ record m { timestamp = now } ∷ [];
  successful_messages = incr s.successful_messages;
}

unfoldable pub write_lost : Sending → Sending
unfolding incr
write_lost s = record s { failed_connections = incr s.failed_connections }

-- The wait, and the count of a message whose last attempt has failed.
unfoldable pub wait_backoff : Sending → ℕ → ℕ → Sending
unfolding incr
wait_backoff s attempt backoff = record s {
  waited = s.waited + backoff;
  failed_messages =
      if eqb attempt (max_attempts - 1) then incr s.failed_messages else s.failed_messages;
}

-- The loop over the attempts, of which `left` are left.
unfoldable pub write_attempts : (ℕ → Attempt) → Message → ℕ → ℕ → ℕ → Sending → Sending × Attempted
unfolding write_accepted write_lost wait_backoff
write_attempts answers m zero attempt backoff s = (s, given_up)
write_attempts answers m (suc left) attempt backoff s = elim (answers attempt).result [
  | accepted ↦ (write_accepted s m (answers attempt).now, written)
  | connection_gone ↦ (write_lost s, lost)
  | refused ↦ elim (answers attempt).cancelled [
    | true ↦ (s, interrupted)
    | false ↦
        write_attempts answers m left (attempt + 1) (backoff * 2) (wait_backoff s attempt backoff)
  ]
]

-- What follows the attempts for a message, `rest` being the loop over the others.
unfoldable pub proceed : (Sending → Sending × Bool) → Sending → Attempted → Sending × Bool
proceed rest s written = rest s
proceed rest s given_up = rest s
proceed rest s lost = (s, false)
proceed rest s interrupted = (s, false)

-- The loop over the messages, with the answers by message and attempt. The flag is whether it runs
-- to its end, where it waits for the reader.
unfoldable pub write_messages : (ℕ → ℕ → Attempt) → ℕ → List Message → Sending → Sending × Bool
unfolding write_attempts proceed
write_messages answers i [] s = (s, true)
write_messages answers i (m ∷ messages) s =
    let (s', attempted) = write_attempts (answers i) m max_attempts 0 1 s in
    proceed (λ t. write_messages answers (i + 1) messages t) s' attempted

-- The messages for one room: JOIN, the texts, LEAVE.
unfoldable pub conn_messages : (ℕ → String) → (ℕ → ℕ) → String → String → ℕ → List Message
unfolding texts new_join_message new_leave_message
conn_messages now draw user_id room_id message_count =
    new_join_message (now 0) user_id room_id
    ∷ texts draw user_id 0 message_count (new_leave_message (now 1) user_id room_id ∷ [])

-- A `ConnElement`; `conn` is the address of the client of the pool.
pub record ConnElement : Type 0 where
  pub user_id : String
  pub room_id : String
  pub messages : List Message
  pub conn : ℕ

-- `GenerateConnElements`: what goes into `roomChan`, in order. A room that cannot be connected to is
-- left out; the clock, the draws and the pool answer by room.
unfoldable pub generate_conn_elements :
    (String → Option ℕ)
    → (String → ℕ → String)
    → (String → ℕ → ℕ)
    → String
    → ℕ
    → List String
    → List ConnElement
unfolding conn_messages
generate_conn_elements connect now draw user_id message_count [] = []
generate_conn_elements connect now draw user_id message_count (room_id ∷ rooms) =
    let rest = generate_conn_elements connect now draw user_id message_count rooms in
    elim (connect room_id) [
      | none ↦ rest
      | some conn ↦
          (record {
            user_id = user_id;
            room_id = room_id;
            messages = conn_messages (now room_id) (draw room_id) user_id room_id message_count;
            conn = conn;
          })
          ∷ rest
    ]
