-- ===== src/Models.antt =====
-- pkg/models: the messages that clients, servers and the broker exchange.
pub mod Validate
pub mod Respond
pub mod Metric
use chatflow.Prelude.{ℕ, String, Option}
use chatflow.Prelude.Dict.{Dict}

-- `type MessageType string`: any text, with three known values.
abbrev pub MessageType : Type 0
MessageType = String

abbrev pub message_type_join : MessageType
message_type_join = "JOIN"

abbrev pub message_type_text : MessageType
message_type_text = "TEXT"

abbrev pub message_type_leave : MessageType
message_type_leave = "LEAVE"

abbrev pub min_user_id : ℕ
min_user_id = 1

abbrev pub max_user_id : ℕ
max_user_id = 100000

abbrev pub min_username_length : ℕ
min_username_length = 3

abbrev pub max_username_length : ℕ
max_username_length = 20

abbrev pub min_message_length : ℕ
min_message_length = 1

abbrev pub max_message_length : ℕ
max_message_length = 500

pub record Message : Type 0 where
  pub user_id : String
  pub username : String
  pub message : String
  pub timestamp : String
  pub message_type : MessageType

-- The zero value of the struct.
abbrev pub zero_message : Message
zero_message = record {
  user_id = "";
  username = "";
  message = "";
  timestamp = "";
  message_type = "";
}

unfoldable pub new_message : String → String → String → MessageType → Message
new_message user_id username message message_type = record {
  user_id = user_id;
  username = username;
  message = message;
  timestamp = "";
  message_type = message_type;
}

-- What `Validate` returns if it is not nil: `errors.New` for a nil receiver, or a
-- `ValidationError` with its map.
pub data Error : Type 0 where
  nil_message : Error
  validation_error : Dict String → Error

-- The dynamic type of the field `Data any`.
pub data Data : Type 0 where
  of_error : Error → Data
  of_message : Message → Data

-- `message` is the embedded struct.
pub record Response : Type 0 where
  pub message : Message
  pub server_timestamp : String
  pub status : ℕ
  pub error : String
  pub payload : Option Data

pub record QueueMessage : Type 0 where
  pub message_id : String
  pub room_id : String
  pub username : String
  pub message : Message
  pub timestamp : String
  pub message_type : MessageType
  pub server_id : String
  pub client_ip : String
