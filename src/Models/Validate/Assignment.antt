-- ===== src/Models/Validate/Assignment.antt =====
-- The rules of assignments/assignment1.md beside the validation of pkg/models/message.go. Lengths are
-- in bytes, as in the code.
use Prim.Native.Char.{code}
use Prim.Native.String.{len}
use chatflow.Prelude.{
  ℕ, ◌≤◌, String, ◌≡◌, ◌≢◌, ◌&&◌, ◌||◌, ◌⊎◌, inl, inr, Bool, true, false, Bool-cases, Option, some,
  arith, leb,
}
use chatflow.Prelude.Int.{ℤ, pos}
use chatflow.Prelude.Atoi.{atoi}
use chatflow.Models.{Message}
use chatflow.Models.Validate.Exact.{IsWellFormed, BodyOk}

abbrev pub between : ℕ → ℕ → ℕ → Bool
between low high n = leb low n && leb n high

-- Digits and the letters of ASCII.
pub alphanumeric : String → Bool
alphanumeric String.[] = true
alphanumeric (String.◌∷◌ c s) =
    (between 48 57 (code c) || between 65 90 (code c) || between 97 122 (code c)) && alphanumeric s

-- "userId must be between 1 and 100000, username must be 3-20 alphanumeric characters, message must
-- be 1-500 characters, timestamp must be valid ISO-8601, messageType must be one of the specified
-- values"
pub record IsAssigned (parse_time : String → Option ℤ) (m : Message) : Type 0 where
  pub user_id : (id : ℕ) × (atoi m.user_id ≡ some (pos id)) × (1 ≤ id) × (id ≤ 100000)
  pub username_length : (3 ≤ len m.username) × (len m.username ≤ 20)
  pub username_characters : alphanumeric m.username ≡ true
  pub body_length : between 1 500 (len m.message) ≡ true
  pub timestamp : (t : ℤ) × (parse_time m.timestamp ≡ some t)
  pub message_type :
      (m.message_type ≡ "JOIN") ⊎ (m.message_type ≡ "TEXT") ⊎ (m.message_type ≡ "LEAVE")

-- What the code lets through beyond the assignment: other characters in the username, and on a JOIN or
-- a LEAVE a body of any length.
abbrev pub Beyond : Message → Type 0
Beyond m =
    (alphanumeric m.username ≡ false)
    ⊎ ((m.message_type ≢ "TEXT") × (between 1 500 (len m.message) ≡ false))

module _ (parse_time : String → Option ℤ) (m : Message) where
  pub IsAssigned-IsWellFormed : IsAssigned parse_time m → IsWellFormed parse_time m
  IsAssigned-IsWellFormed a = (
    a.user_id,
    a.username_length,
    a.message_type,
    a.timestamp,
    λ text. (ground (arith, a.body_length), ground (arith, a.body_length)),
  )

  IsWellFormed-IsAssigned :
      alphanumeric m.username ≡ true
      → between 1 500 (len m.message) ≡ true
      → IsWellFormed parse_time m
      → IsAssigned parse_time m
  IsWellFormed-IsAssigned characters body (id_ok, name_ok, type_ok, time_ok, body_ok) = record {
    user_id = id_ok;
    username_length = name_ok;
    username_characters = characters;
    body_length = body;
    timestamp = time_ok;
    message_type = type_ok;
  }

  BodyOk-of : IsWellFormed parse_time m → BodyOk m
  BodyOk-of (_, _, _, _, body_ok) = body_ok

  -- A message that the code accepts meets the assignment or goes beyond it.
  pub IsWellFormed-cases : IsWellFormed parse_time m → IsAssigned parse_time m ⊎ Beyond m
  IsWellFormed-cases ok = elim (Bool-cases (alphanumeric m.username)) [
    | inr other ↦ inr (inl other)
    | inl characters ↦ elim (Bool-cases (between 1 500 (len m.message))) [
      | inl body ↦ inl (IsWellFormed-IsAssigned characters body ok)
      | inr body ↦ inr (
          inr (
            λ text. absurd (let (low, high) = BodyOk-of ok text in ground (arith, low, high, body)),
            body,
          ))
    ]
  ]
