-- ===== src/Models/Respond/Verdict.antt =====
-- A response says whether the message was well formed.
use chatflow.Prelude.{String, ◌≡◌, refl, inl, inr, Option, some, Option-cases}
use chatflow.Prelude.Int.{ℤ}
use chatflow.Models.{Message, Response, zero_message, of_message}
use chatflow.Models.Validate.{validate}
use chatflow.Models.Validate.Exact.{IsWellFormed, validate-eq-none_iff}
use chatflow.Models.Respond.{respond, new_response, status_ok, status_unprocessable_entity}

-- The message is echoed.
pub record IsEcho (m : Message) (r : Response) : Type 0 where
  pub status : r.status ≡ status_ok
  pub message : r.message ≡ m
  pub error : r.error ≡ ""
  pub payload : r.payload ≡ some (of_message m)

-- Nothing of the message is left.
pub record IsRefusal (r : Response) : Type 0 where
  pub status : r.status ≡ status_unprocessable_entity
  pub message : r.message ≡ zero_message

module _ (parse_time : String → Option ℤ) (now : String) (m : Message) where
  -- What each kind of message is answered with.
  pub new_response_answers :
      (IsWellFormed parse_time m → IsEcho m (new_response parse_time now m))
      × (¬ IsWellFormed parse_time m → IsRefusal (new_response parse_time now m))
  unfolding new_response
  new_response_answers = (
    λ good.
        rw ((validate-eq-none_iff parse_time m).1 good, respond)
          (record { status = refl; message = refl; error = refl; payload = refl }),
    λ bad. elim (Option-cases (validate parse_time (some m))) [
      | inl e ↦ absurd (bad ((validate-eq-none_iff parse_time m).0 e))
      | inr (x, e) ↦ rw (e, respond) (record { status = refl; message = refl })
    ],
  )
