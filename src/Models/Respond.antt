-- ===== src/Models/Respond.antt =====
-- pkg/models/response.go. `now` is the text of `time.Now().UTC().Format(time.RFC3339Nano)`.
pub mod Verdict
use chatflow.Prelude.{ℕ, String, Option, none, some}
use chatflow.Prelude.Int.{ℤ}
use chatflow.Models.{Message, zero_message, Error, of_error, of_message, Response}
use chatflow.Models.Validate.{validate}

abbrev pub status_ok : ℕ
status_ok = 200

abbrev pub status_unprocessable_entity : ℕ
status_unprocessable_entity = 422

respond : String → Message → Option Error → Response
respond now message (some err) = record {
  message = zero_message;
  server_timestamp = now;
  status = status_unprocessable_entity;
  error = "Incorrect message format";
  payload = some (of_error err);
}
respond now message none = record {
  message = message;
  server_timestamp = now;
  status = status_ok;
  error = "";
  payload = some (of_message message);
}

unfoldable pub new_response : (String → Option ℤ) → String → Message → Response
unfolding respond
new_response parse_time now message = respond now message (validate parse_time (some message))
