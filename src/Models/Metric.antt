-- ===== src/Models/Metric.antt =====
-- pkg/models/metric.go
pub mod Csv
use chatflow.Prelude.{ℕ, String, List, [], ◌∷◌}
use chatflow.Prelude.Int64.{Int64}
use chatflow.Prelude.Atoi.Itoa.Signed.{itoa_signed}
use chatflow.Models.{MessageType}

pub record Metric : Type 0 where
  pub timestamp : String
  pub message_type : MessageType
  pub latency : Int64
  pub status_code : Int64
  pub room_id : String

unfoldable pub new_metric : String → MessageType → Int64 → Int64 → String → Metric
new_metric timestamp message_type latency status_code room_id = record {
  timestamp = timestamp;
  message_type = message_type;
  latency = latency;
  status_code = status_code;
  room_id = room_id;
}

-- `Metric.String`
unfoldable pub string : Metric → List String
string m =
    m.timestamp
    ∷ m.message_type
    ∷ itoa_signed m.latency
    ∷ itoa_signed m.status_code
    ∷ m.room_id
    ∷ []
