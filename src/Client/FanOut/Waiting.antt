-- ===== src/Client/FanOut/Waiting.antt =====
-- client/fanout.go: when the reader closes `msgDone`.
use chatflow.Prelude.{
  ℕ, ◌+◌, ◌<◌, ◌^◌, ◌≡◌, refl, inl, inr, false, List, [], ◌∷◌, arith, leb, ltb, ◌&&◌, if◌then◌else◌,
  Bool-cases,
}
use chatflow.Prelude.Seq.{length}
use chatflow.Models.{Response}
use chatflow.Client.FanOut.{FanReader, new_fan_reader, note_response, fan_read}
use chatflow.Prelude.Int64.{Int64, less_int64, biased}
use chatflow.Prelude.Store.{incr}

-- The responses that the reader takes before it returns: one at least, also for a negative number.
abbrev pub goal : Int64 → ℕ
goal expected = if leb 1 expected && ltb expected (2 ^ 63) then expected else 1

fan_read-from :
    (expected : Int64) (r : FanReader) (responses : List Response)
    → expected < 2 ^ 64
    → r.done ≡ false
    → r.received_msgs < goal expected
    → ((fan_read expected r responses).done
        ≡ leb (goal expected) (r.received_msgs + length responses))
      × ((fan_read expected r responses).received_msgs ≡ (
          if leb (goal expected) (r.received_msgs + length responses)
          then goal expected
          else r.received_msgs + length responses))
unfolding fan_read note_response incr biased
fan_read-from expected r [] small not_done below = (ground arith, ground arith)
fan_read-from expected r (resp ∷ responses) small not_done below =
    elim (Bool-cases (less_int64 (note_response r resp).received_msgs expected)) [
      | inr e ↦ rw e (ground arith, ground arith)
      | inl e ↦
          let (done, received) =
            fan_read-from expected (note_response r resp) responses small not_done (ground arith) in
          rw e (ground (arith, done), ground (arith, received))
    ]

-- The reader closes `msgDone` exactly if as many responses come as are expected, and at least one,
-- where a negative number, as a 64-bit integer, counts as one; it takes that many and leaves the others.
pub fan_read-waits :
    (expected : Int64) (responses : List Response)
    → expected < 2 ^ 64
    → ((fan_read expected new_fan_reader responses).done ≡ leb (goal expected) (length responses))
      × ((fan_read expected new_fan_reader responses).received_msgs
          ≡ (if leb (goal expected) (length responses) then goal expected else length responses))
fan_read-waits expected responses small =
    let (done, received) =
      fan_read-from expected new_fan_reader responses small refl (ground arith) in
    (ground (arith, done), ground (arith, received))
