-- ===== src/Client/Writer/Attempts.antt =====
-- client/ws/client.go: how the attempts for one message end.
use chatflow.Prelude.{
  ℕ, zero, suc, ◌+◌, ◌-◌, ◌*◌, ◌≤◌, String, ◌≡◌, refl, ap, ◌∙◌, true, false, arith, eqb,
}
use chatflow.Prelude.Store.{incr}
use chatflow.Models.{Message}
use chatflow.Client.Writer.{
  accepted, connection_gone, refused, Attempt, Sending, Attempted, written, given_up, lost,
  interrupted, max_attempts, write_accepted, write_lost, wait_backoff, write_attempts,
}

-- The waits of that many failing attempts.
abbrev pub backoffs : ℕ → ℕ → ℕ
backoffs zero backoff = 0
backoffs (suc left) backoff = backoff + backoffs left (backoff * 2)

-- The end of the attempts for a message, with at most `most` seconds waited: one of four.
abbrev pub Ended : Message → ℕ → Sending → Sending → Attempted → Type 0
Ended m most s t written =
    (now : String) × (w : ℕ) × (w ≤ most)
    × (t ≡ record (write_accepted s m now) { waited = s.waited + w })
Ended m most s t given_up =
    t ≡ record s { failed_messages = incr s.failed_messages; waited = s.waited + most }
Ended m most s t lost = (w : ℕ) × (w ≤ most) × (t ≡ record (write_lost s) { waited = s.waited + w })
Ended m most s t interrupted = (w : ℕ) × (w ≤ most) × (t ≡ record s { waited = s.waited + w })

no_wait : (s : Sending) → s ≡ record s { waited = s.waited + 0 }
no_wait s = ap (λ n. record s { waited = n }) (omega arith)

-- A wait before the attempts that are left.
waited-Ended :
    (m : Message) (most backoff : ℕ) (s t : Sending) (a : Attempted)
    → Ended m most (record s { waited = s.waited + backoff }) t a
    → Ended m (backoff + most) s t a
unfolding write_accepted write_lost
waited-Ended m most backoff s t written (now, w, le, e) = (
  now,
  backoff + w,
  omega (arith, le),
  e ∙ ap (λ n. record (write_accepted s m now) { waited = n }) (omega arith),
)
waited-Ended m most backoff s t given_up e =
    e ∙ ap (λ n. record s { failed_messages = incr s.failed_messages; waited = n }) (omega arith)
waited-Ended m most backoff s t lost (w, le, e) = (
  backoff + w,
  omega (arith, le),
  e ∙ ap (λ n. record (write_lost s) { waited = n }) (omega arith),
)
waited-Ended m most backoff s t interrupted (w, le, e) =
    (backoff + w, omega (arith, le), e ∙ ap (λ n. record s { waited = n }) (omega arith))

module _ (answers : ℕ → Attempt) (m : Message) where
  attempt-Ended :
      (left attempt backoff : ℕ) (s : Sending)
      → (let r =
            write_attempts answers m left
              (attempt + 1)
              (backoff * 2)
              (wait_backoff s attempt backoff) in
          Ended m (backoff + backoffs left (backoff * 2)) s r.0 r.1)
      → let r = write_attempts answers m (suc left) attempt backoff s in
        Ended m (backoffs (suc left) backoff) s r.0 r.1
  unfolding write_attempts
  attempt-Ended left attempt backoff s again =
      elim (answers attempt).result
        as (λ result.
          let r : Sending × Attempted = elim result [
            | accepted ↦ (write_accepted s m (answers attempt).now, written)
            | connection_gone ↦ (write_lost s, lost)
            | refused ↦ elim (answers attempt).cancelled [
              | true ↦ (s, interrupted)
              | false ↦
                  write_attempts answers m left (attempt + 1) (backoff * 2)
                    (wait_backoff s attempt backoff)
            ]
          ] in
          Ended m (backoffs (suc left) backoff) s r.0 r.1) [
            | accepted ↦ (
              (answers attempt).now,
              0,
              omega arith,
              no_wait (write_accepted s m (answers attempt).now),
            )
            | connection_gone ↦ (0, omega arith, no_wait (write_lost s))
            | refused ↦
                elim (answers attempt).cancelled
                  as (λ c.
                    let r : Sending × Attempted = elim c [
                      | true ↦ (s, interrupted)
                      | false ↦
                          write_attempts answers m left (attempt + 1) (backoff * 2)
                            (wait_backoff s attempt backoff)
                    ] in
                    Ended m (backoffs (suc left) backoff) s r.0 r.1) [
                      | true ↦ (0, omega arith, no_wait s)
                      | false ↦ again
                    ]
          ]

  last_wait :
      (attempt backoff : ℕ) (s : Sending)
      → attempt + 1 ≡ max_attempts
      → wait_backoff s attempt backoff
        ≡ record s { failed_messages = incr s.failed_messages; waited = s.waited + (backoff + 0) }
  unfolding wait_backoff
  last_wait attempt backoff s h = rw (is_last, last_wait_sum) refl
    where
      is_last : eqb attempt (max_attempts - 1) ≡ true
      is_last = ground arith

      last_wait_sum : s.waited + (backoff + 0) ≡ s.waited + backoff
      last_wait_sum = omega arith

  other_wait :
      (left attempt backoff : ℕ) (s : Sending)
      → attempt + suc (suc left) ≡ max_attempts
      → wait_backoff s attempt backoff ≡ record s { waited = s.waited + backoff }
  unfolding wait_backoff
  other_wait left attempt backoff s h = rw not_last refl
    where
      not_last : eqb attempt (max_attempts - 1) ≡ false
      not_last = ground arith

  attempts-Ended :
      (left attempt backoff : ℕ) (s : Sending)
      → attempt + suc left ≡ max_attempts
      → let r = write_attempts answers m (suc left) attempt backoff s in
        Ended m (backoffs (suc left) backoff) s r.0 r.1
  attempts-Ended zero attempt backoff s h =
      attempt-Ended zero attempt backoff s (unfold write_attempts in last_wait attempt backoff s h)
  attempts-Ended (suc left) attempt backoff s h = attempt-Ended (suc left) attempt backoff s (
      rw (other_wait left attempt backoff s h) (
        waited-Ended m (backoffs (suc left) (backoff * 2)) backoff s _ _ (
          attempts-Ended left (attempt + 1) (backoff * 2) (record s { waited = s.waited + backoff })
            (omega (arith, h)))))

-- The attempts for a message end in one of four ways, after at most 31 seconds of backoff: the
-- message was written once; it was given up after exactly 31 seconds and counted as failed; the
-- connection was lost and counted; or the context was done. Nothing else changes.
pub write_attempts-Ended :
    (answers : ℕ → Attempt) (m : Message) (s : Sending)
    → let r = write_attempts answers m max_attempts 0 1 s in Ended m 31 s r.0 r.1
write_attempts-Ended answers m s = attempts-Ended answers m 4 0 1 s refl
