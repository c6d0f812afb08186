-- ===== src/Models/Validate/Exact.antt =====
-- What the validation of pkg/models accepts and reports.
use Prim.Native.String.{len}
use chatflow.Prelude.{
  ℕ, ◌≤◌, String, ◌≡◌, refl, ◌==◌, ◌∙◌, eq_iff, ◌↔◌, ◌⊎◌, false, Option, none, some, [], ◌∷◌, arith,
}
use chatflow.Prelude.Int.{ℤ, pos, negsuc}
use chatflow.Prelude.Atoi.{atoi}
use chatflow.Prelude.Dict.{Dict, get, get-put}
use chatflow.Models.{
  Message, message_type_join, message_type_text, message_type_leave, min_user_id, max_user_id,
  min_username_length, max_username_length, min_message_length, max_message_length,
}
use chatflow.Models.Validate.{
  check_user_id, validate_user_id, with_body, report, check_timestamp, validate_username,
  validate_message, validate_message_type, validate_timestamp, validation_errors, validate,
}

-- A decimal number between the two bounds.
abbrev pub UserIdOk : Message → Type 0
UserIdOk m = (id : ℕ) × (atoi m.user_id ≡ some (pos id)) × (min_user_id ≤ id) × (id ≤ max_user_id)

abbrev pub UsernameOk : Message → Type 0
UsernameOk m = (min_username_length ≤ len m.username) × (len m.username ≤ max_username_length)

abbrev pub TypeOk : Message → Type 0
TypeOk m =
    (m.message_type ≡ message_type_join)
    ⊎ (m.message_type ≡ message_type_text)
    ⊎ (m.message_type ≡ message_type_leave)

abbrev pub TimestampOk : (String → Option ℤ) → Message → Type 0
TimestampOk parse_time m = (t : ℤ) × (parse_time m.timestamp ≡ some t)

-- Only the body of a TEXT message is constrained.
abbrev pub BodyOk : Message → Type 0
BodyOk m =
    m.message_type ≡ message_type_text
    → (min_message_length ≤ len m.message) × (len m.message ≤ max_message_length)

-- The entry that each check writes, and the entries that it leaves alone.
user_id_key_at :
    (o : Option ℤ) (e : Dict String)
    → get e "UserID" ≡ none
    → (get (check_user_id o e) "UserID" ≡ none)
      ↔ ((id : ℕ) × (o ≡ some (pos id)) × (min_user_id ≤ id) × (id ≤ max_user_id))
unfolding check_user_id
user_id_key_at none e h = (λ p. absurd (grind (arith, get-put)), λ q. cc q.1)
user_id_key_at (some (pos n)) e h =
    (λ p. (n, refl, grind (arith, get-put), grind (arith, get-put)), λ q. ground arith)
user_id_key_at (some (negsuc n)) e h = (λ p. absurd (grind (arith, get-put)), λ q. ground arith)

user_id_key :
    (m : Message) (e : Dict String)
    → get e "UserID" ≡ none
    → (get (validate_user_id m e) "UserID" ≡ none) ↔ UserIdOk m
unfolding validate_user_id
user_id_key m e h = user_id_key_at (atoi m.user_id) e h

user_id_rest :
    (m : Message) (e : Dict String) (j : String)
    → ("UserID" == j) ≡ false
    → get (validate_user_id m e) j ≡ get e j
unfolding validate_user_id
user_id_rest m e j h = ground (
  arith,
  get-put e "UserID" j "UserID must be a valid integer",
  get-put e "UserID" j "UserID must be greater than 1",
  get-put e "UserID" j "UserID must be less than 100000",
)

username_key :
    (m : Message) (e : Dict String)
    → get e "Username" ≡ none
    → (get (validate_username m e) "Username" ≡ none) ↔ UsernameOk m
unfolding validate_username
username_key m e h = grind (arith, get-put)

username_rest :
    (m : Message) (e : Dict String) (j : String)
    → ("Username" == j) ≡ false
    → get (validate_username m e) j ≡ get e j
unfolding validate_username
username_rest m e j h = grind (arith, get-put)

type_key :
    (m : Message) (e : Dict String)
    → get e "MessageType" ≡ none
    → (get (validate_message_type m e) "MessageType" ≡ none) ↔ TypeOk m
unfolding validate_message_type
type_key m e h = ground (
  arith,
  get-put e "MessageType" "MessageType" "Invalid MessageType",
  eq_iff m.message_type message_type_join,
  eq_iff m.message_type message_type_text,
  eq_iff m.message_type message_type_leave,
)

type_rest :
    (m : Message) (e : Dict String) (j : String)
    → ("MessageType" == j) ≡ false
    → get (validate_message_type m e) j ≡ get e j
unfolding validate_message_type
type_rest m e j h = grind (arith, get-put)

body_key :
    (m : Message) (e : Dict String)
    → get e "Message" ≡ none
    → (get (with_body m e) "Message" ≡ none) ↔ BodyOk m
unfolding with_body validate_message
body_key m e h = grind (arith, get-put, eq_iff m.message_type message_type_text)

body_rest :
    (m : Message) (e : Dict String) (j : String)
    → ("Message" == j) ≡ false
    → get (with_body m e) j ≡ get e j
unfolding with_body validate_message
body_rest m e j h = grind (arith, get-put)

time_key_at :
    (o : Option ℤ) (e : Dict String)
    → get e "Timestamp" ≡ none
    → (get (check_timestamp o e) "Timestamp" ≡ none) ↔ ((t : ℤ) × (o ≡ some t))
unfolding check_timestamp
time_key_at none e h = (λ p. absurd (grind (arith, get-put)), λ q. cc q.1)
time_key_at (some t) e h = (λ p. (t, refl), λ q. h)

-- A check that finds nothing wrong returns the map that it was given.
user_id_same : (m : Message) (e : Dict String) → UserIdOk m → validate_user_id m e ≡ e
unfolding validate_user_id
user_id_same m e ok = ground arith

username_same : (m : Message) (e : Dict String) → UsernameOk m → validate_username m e ≡ e
unfolding validate_username
username_same m e ok = ground arith

type_same : (m : Message) (e : Dict String) → TypeOk m → validate_message_type m e ≡ e
unfolding validate_message_type
type_same m e ok = ground (
  arith,
  eq_iff m.message_type message_type_join,
  eq_iff m.message_type message_type_text,
  eq_iff m.message_type message_type_leave,
)

body_same : (m : Message) (e : Dict String) → BodyOk m → with_body m e ≡ e
unfolding with_body
body_same m e ok = ground (arith, eq_iff m.message_type message_type_text)

module _ (parse_time : String → Option ℤ) where
  time_key :
      (m : Message) (e : Dict String)
      → get e "Timestamp" ≡ none
      → (get (validate_timestamp parse_time m e) "Timestamp" ≡ none) ↔ TimestampOk parse_time m
  unfolding validate_timestamp
  time_key m e h = time_key_at (parse_time m.timestamp) e h

  time_rest :
      (m : Message) (e : Dict String) (j : String)
      → ("Timestamp" == j) ≡ false
      → get (validate_timestamp parse_time m e) j ≡ get e j
  unfolding validate_timestamp
  time_rest m e j h = ground (arith, get-put e "Timestamp" j "Timestamp cannot be empty")

  time_same :
      (m : Message) (e : Dict String)
      → TimestampOk parse_time m
      → validate_timestamp parse_time m e ≡ e
  unfolding validate_timestamp
  time_same m e ok = ground arith

  pub validation_errors-exact :
      (m : Message)
      → ((get (validation_errors parse_time m) "UserID" ≡ none) ↔ UserIdOk m)
        × ((get (validation_errors parse_time m) "Username" ≡ none) ↔ UsernameOk m)
        × ((get (validation_errors parse_time m) "MessageType" ≡ none) ↔ TypeOk m)
        × ((get (validation_errors parse_time m) "Timestamp" ≡ none) ↔ TimestampOk parse_time m)
        × ((get (validation_errors parse_time m) "Message" ≡ none) ↔ BodyOk m)
  unfolding validation_errors
  validation_errors-exact m = (
    rw
        (
          body_rest m _ "UserID" refl,
          time_rest m _ "UserID" refl,
          type_rest m _ "UserID" refl,
          username_rest m _ "UserID" refl,
        )
        (user_id_key m [] (unfold get in refl)),
    rw (body_rest m _ "Username" refl, time_rest m _ "Username" refl, type_rest m _ "Username" refl)
        (username_key m _ (user_id_rest m [] "Username" refl ∙ unfold get in refl)),
    rw (body_rest m _ "MessageType" refl, time_rest m _ "MessageType" refl)
        (type_key m _ (
          username_rest m _ "MessageType" refl
          ∙ user_id_rest m [] "MessageType" refl
          ∙ unfold get in refl)),
    rw (body_rest m _ "Timestamp" refl) (
        time_key m _ (
          type_rest m _ "Timestamp" refl
          ∙ username_rest m _ "Timestamp" refl
          ∙ user_id_rest m [] "Timestamp" refl
          ∙ unfold get in refl)),
    body_key m _ (
        time_rest m _ "Message" refl
        ∙ type_rest m _ "Message" refl
        ∙ username_rest m _ "Message" refl
        ∙ user_id_rest m [] "Message" refl
        ∙ unfold get in refl),
  )

  abbrev pub IsWellFormed : Message → Type 0
  IsWellFormed m = UserIdOk m × UsernameOk m × TypeOk m × TimestampOk parse_time m × BodyOk m

  report-eq-none : (e : Dict String) → report e ≡ none → e ≡ []
  unfolding report
  report-eq-none [] h = refl
  report-eq-none (x ∷ e) h = cc

  no_errors : (m : Message) → IsWellFormed m → validation_errors parse_time m ≡ []
  unfolding validation_errors
  no_errors m (id_ok, name_ok, type_ok, time_ok, body_ok) =
      body_same m _ body_ok
      ∙ time_same m _ time_ok
      ∙ type_same m _ type_ok
      ∙ username_same m _ name_ok
      ∙ user_id_same m [] id_ok

  IsWellFormed-of_no_errors : (m : Message) → validation_errors parse_time m ≡ [] → IsWellFormed m
  IsWellFormed-of_no_errors m e =
      let (id_iff, name_iff, type_iff, time_iff, body_iff) = validation_errors-exact m in
      (
        id_iff.0 (absent "UserID"),
        name_iff.0 (absent "Username"),
        type_iff.0 (absent "MessageType"),
        time_iff.0 (absent "Timestamp"),
        body_iff.0 (absent "Message"),
      )
    where
      absent : (j : String) → get (validation_errors parse_time m) j ≡ none
      absent j = rw e (unfold get in refl)

  -- A message is accepted exactly when every field is well formed.
  pub validate-eq-none_iff : (m : Message) → (validate parse_time (some m) ≡ none) ↔ IsWellFormed m
  unfolding validate
  validate-eq-none_iff m =
      (λ h. IsWellFormed-of_no_errors m (report-eq-none _ h), λ ok. rw (no_errors m ok, report))
