-- ===== src/Models/Validate.antt =====
-- The validation of pkg/models/message.go. `time.Parse` is an argument, `parse_time`: all that is
-- used of it here is whether it accepts a text.
pub mod Exact
pub mod Assignment
use Prim.Native.String.{len}
use chatflow.Prelude.{
  String, ◌==◌, Bool, not, ◌&&◌, ◌||◌, Option, none, some, List, [], ◌∷◌, ltb, if◌then◌else◌,
}
use chatflow.Prelude.Int.{ℤ, pos, ltb_ℤ}
use chatflow.Prelude.Atoi.{atoi}
use chatflow.Prelude.Dict.{Dict, put}
use chatflow.Models.{
  Message, Error, nil_message, validation_error, message_type_join, message_type_text,
  message_type_leave, min_user_id, max_user_id, min_username_length, max_username_length,
  min_message_length, max_message_length,
}

check_user_id : Option ℤ → Dict String → Dict String
check_user_id none errors = put errors "UserID" "UserID must be a valid integer"
check_user_id (some id) errors =
    if ltb_ℤ id (pos min_user_id)
    then put errors "UserID" "UserID must be greater than 1"
    else if ltb_ℤ (pos max_user_id) id
    then put errors "UserID" "UserID must be less than 100000"
    else errors

pub validate_user_id : Message → Dict String → Dict String
unfolding check_user_id
validate_user_id m errors = check_user_id (atoi m.user_id) errors

pub validate_username : Message → Dict String → Dict String
validate_username m errors =
    if ltb (len m.username) min_username_length
    then put errors "Username" "Username must be at least 3 characters long"
    else if ltb max_username_length (len m.username)
    then put errors "Username" "Username must be less than 20 characters long"
    else errors

pub validate_message : Message → Dict String → Dict String
validate_message m errors =
    if ltb (len m.message) min_message_length
    then put errors "Message" "Message cannot be empty"
    else if ltb max_message_length (len m.message)
    then put errors "Message" "Message must be less than 500 characters long"
    else errors

pub validate_message_type : Message → Dict String → Dict String
validate_message_type m errors =
    if not (m.message_type == message_type_join)
      && not (m.message_type == message_type_text)
      && not (m.message_type == message_type_leave)
    then put errors "MessageType" "Invalid MessageType"
    else errors

-- The body is checked only in a TEXT message.
with_body : Message → Dict String → Dict String
unfolding validate_message
with_body m errors =
    if m.message_type == message_type_text then validate_message m errors else errors

report : Dict String → Option Error
report [] = none
report (e ∷ errors) = some (validation_error (e ∷ errors))

check_timestamp : Option ℤ → Dict String → Dict String
check_timestamp none errors = put errors "Timestamp" "Timestamp cannot be empty"
check_timestamp (some t) errors = errors

module _ (parse_time : String → Option ℤ) where
  pub validate_timestamp : Message → Dict String → Dict String
  unfolding check_timestamp
  validate_timestamp m errors = check_timestamp (parse_time m.timestamp) errors

  -- The error map when all the checks have run.
  pub validation_errors : Message → Dict String
  validation_errors m =
      let errors = validate_user_id m [] in
      let errors = validate_username m errors in
      let errors = validate_message_type m errors in
      let errors = validate_timestamp m errors in with_body m errors

  -- `none` is the nil error, and a nil receiver is the argument `none`.
  pub validate : Option Message → Option Error
  unfolding report
  validate none = some nil_message
  validate (some m) = report (validation_errors m)
