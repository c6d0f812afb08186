-- ===== src/Client/Writer/Order.antt =====
-- client/ws/client.go: what goes out of the messages of one connection, and what is counted.
use mathlib.Core.List.{append_assoc, append-nil}
use chatflow.Prelude.{
  ℕ, ◌+◌, ◌*◌, ◌%◌, ◌^◌, ◌≤◌, ◌<◌, ◌≡◌, refl, ap, subst, sym, ◌∙◌, Bool, true, false, List, [], ◌∷◌,
  ◌++◌, arith,
}
use chatflow.Prelude.Store.{incr}
use chatflow.Prelude.Seq.{length}
use chatflow.Models.{Message}
use chatflow.Client.Writer.{
  Attempt, Sending, Attempted, written, given_up, lost, interrupted, max_attempts, write_accepted,
  write_lost, write_attempts, proceed, write_messages,
}
use chatflow.Client.Writer.Attempts.{Ended, write_attempts-Ended}

-- `sent` are some of the messages, in their order, each with the time of its writing.
pub data Goes : List Message → List Message → Type 0 where
  stops : (messages : List Message) → Goes [] messages
  sends :
      (m : Message) (now : _) {sent messages : List Message}
      → Goes sent messages
      → Goes (record m { timestamp = now } ∷ sent) (m ∷ messages)
  skips :
      (m : Message) {sent messages : List Message} → Goes sent messages → Goes sent (m ∷ messages)

-- All the messages are accounted for, or the loop has returned before.
abbrev pub Accounted : Bool → ℕ → ℕ → Type 0
Accounted true counted all = counted ≡ all
Accounted false counted all = counted < all

-- What the loop over the messages has done to `s`: `sent` went out, and `failures` were given up.
pub record Outcome (messages : List Message) (s t : Sending) (done : Bool) (sent : List Message)
    (failures : ℕ) : Type 0 where
  pub wire : t.wire ≡ s.wire ++ sent
  pub in_order : Goes sent messages
  pub successes : t.successful_messages % 2 ^ 64 ≡ (s.successful_messages + length sent) % 2 ^ 64
  pub given_up : t.failed_messages % 2 ^ 64 ≡ (s.failed_messages + failures) % 2 ^ 64
  pub accounted : Accounted done (length sent + failures) (length messages)
  pub waits : t.waited ≤ s.waited + 31 * length messages

Accounted-suc :
    (done : Bool) (a b c d : ℕ) → c ≡ a + 1 → d ≡ b + 1 → Accounted done a b → Accounted done c d
Accounted-suc true a b c d e f h = omega (arith, e, f, h)
Accounted-suc false a b c d e f h = omega (arith, e, f, h)

written-Outcome :
    (m : Message) (messages : List Message) (s t : Sending) (done : Bool) (sent : List Message)
    (failures : ℕ) (now : _) (w : ℕ)
    → w ≤ 31
    → Outcome messages
        (record (write_accepted s m now) { waited = s.waited + w })
        t
        done
        sent
        failures
    → Outcome (m ∷ messages) s t done (record m { timestamp = now } ∷ sent) failures
unfolding write_accepted incr
written-Outcome m messages s t done sent failures now w le h = record {
  wire = h.wire ∙ append_assoc s.wire (record m { timestamp = now } ∷ []) sent;
  in_order = sends m now h.in_order;
  successes = omega (arith, h.successes);
  given_up = h.given_up;
  accounted = Accounted-suc done _ _ _ _ (omega arith) (omega arith) h.accounted;
  waits = omega (arith, h.waits, le);
}

given_up-Outcome :
    (m : Message) (messages : List Message) (s t : Sending) (done : Bool) (sent : List Message)
    (failures : ℕ)
    → Outcome messages
        (record s { failed_messages = incr s.failed_messages; waited = s.waited + 31 })
        t
        done
        sent
        failures
    → Outcome (m ∷ messages) s t done sent (failures + 1)
unfolding incr
given_up-Outcome m messages s t done sent failures h = record {
  wire = h.wire;
  in_order = skips m h.in_order;
  successes = h.successes;
  given_up = omega (arith, h.given_up);
  accounted = Accounted-suc done _ _ _ _ (omega arith) (omega arith) h.accounted;
  waits = omega (arith, h.waits);
}

stopped-Outcome :
    (m : Message) (messages : List Message) (s t : Sending)
    → t.wire ≡ s.wire
    → t.successful_messages ≡ s.successful_messages
    → t.failed_messages ≡ s.failed_messages
    → t.waited ≤ s.waited + 31
    → Outcome (m ∷ messages) s t false [] 0
stopped-Outcome m messages s t wire successes failures waits = record {
  wire = wire ∙ sym (append-nil s.wire);
  in_order = stops (m ∷ messages);
  successes = omega (arith, successes);
  given_up = omega (arith, failures);
  accounted = omega arith;
  waits = omega (arith, waits);
}

abbrev pub Settles : List Message → Sending → Sending × Bool → Type 0
Settles messages s r =
    (sent : List Message) × (failures : ℕ) × Outcome messages s r.0 r.1 sent failures

proceed-Settles :
    (m : Message) (messages : List Message) (rest : Sending → Sending × Bool) (s t : Sending)
    (attempted : Attempted)
    → Ended m 31 s t attempted
    → ((u : Sending) → Settles messages u (rest u))
    → Settles (m ∷ messages) s (proceed rest t attempted)
unfolding proceed
proceed-Settles m messages rest s t written (now, w, le, e) h =
    let (sent, failures, o) = h t in
    (
      _,
      failures,
      written-Outcome m messages s (rest t).0 (rest t).1 sent failures now w le
          (subst (λ u. Outcome messages u (rest t).0 (rest t).1 sent failures) e o),
    )
proceed-Settles m messages rest s t given_up e h =
    let (sent, failures, o) = h t in
    (
      sent,
      failures + 1,
      given_up-Outcome m messages s (rest t).0 (rest t).1 sent failures
          (subst (λ u. Outcome messages u (rest t).0 (rest t).1 sent failures) e o),
    )
proceed-Settles m messages rest s t lost (w, le, e) h = (
  [],
  0,
  stopped-Outcome m messages s t (unfold write_lost in ap (λ u. u.wire) e)
      (unfold write_lost in ap (λ u. u.successful_messages) e)
      (unfold write_lost in ap (λ u. u.failed_messages) e)
      (unfold write_lost in rw e (omega (arith, le))),
)
proceed-Settles m messages rest s t interrupted (w, le, e) h = (
  [],
  0,
  stopped-Outcome m messages s t (ap (λ u. u.wire) e) (ap (λ u. u.successful_messages) e)
      (ap (λ u. u.failed_messages) e) (rw e (omega (arith, le))),
)

-- Whatever `Write` answers, the messages that go out are some of the messages, in order and each
-- once; as many are counted as successful and those given up as failed, modulo 2^64, and if the
-- loop runs to its end these are all, and else fewer; and at most 31 seconds of backoff are waited
-- per message.
pub write_messages-Outcome :
    (answers : ℕ → ℕ → Attempt) (i : ℕ) (messages : List Message) (s : Sending)
    → (sent : List Message) × (failures : ℕ) × Outcome messages s
        (write_messages answers i messages s).0
        (write_messages answers i messages s).1
        sent
        failures
unfolding write_messages
write_messages-Outcome answers i [] s = (
  [],
  0,
  record {
    wire = sym (append-nil s.wire);
    in_order = stops [];
    successes = omega arith;
    given_up = omega arith;
    accounted = refl;
    waits = omega arith;
  },
)
write_messages-Outcome answers i (m ∷ messages) s =
    let r = write_attempts (answers i) m max_attempts 0 1 s in
    proceed-Settles m messages (λ t. write_messages answers (i + 1) messages t) s r.0 r.1
      (write_attempts-Ended (answers i) m s) λ t. write_messages-Outcome answers (i + 1) messages t
