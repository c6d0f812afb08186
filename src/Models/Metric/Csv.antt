-- ===== src/Models/Metric/Csv.antt =====
-- pkg/utils/csvWriter.go. The writer of encoding/csv is an argument: `encode` is what it makes of a
-- record, and `spill` which beginning of its buffer it writes to the file by itself when a record has
-- been put in, with what stays in the buffer.
pub mod File
use Prim.Native.String.{◌++◌}
use chatflow.Prelude.{String, List, [], ◌∷◌}
use chatflow.Models.Metric.{Metric, string}

-- What is in the file and what in the buffer.
pub record CsvWriter : Type 0 where
  pub fd : String
  pub buffered : String

abbrev pub new_csv_writer : CsvWriter
new_csv_writer = record { fd = ""; buffered = "" }

abbrev pub header : List String
header = "Timestamp" ∷ "MessageType" ∷ "Latency" ∷ "StatusCode" ∷ "RoomId" ∷ []

pub data CsvCall : Type 0 where
  writes_header : CsvCall
  writes : Metric → CsvCall
  writes_all : List Metric → CsvCall
  flushes : CsvCall

unfoldable pub flush : CsvWriter → CsvWriter
flush w = record { fd = w.fd ++ w.buffered; buffered = "" }

-- The loop of `WriteAll` over its metrics.
unfoldable pub records_of : List Metric → List (List String)
unfolding string
records_of [] = []
records_of (m ∷ metrics) = string m ∷ records_of metrics

-- A write that fails is only logged; here none fails.
module _ (encode : List String → String) (spill : String → String × String) where
  -- `csv.Writer.Write`
  unfoldable pub put_record : CsvWriter → List String → CsvWriter
  put_record w row =
      let (out, kept) = spill (w.buffered ++ encode row) in
      record { fd = w.fd ++ out; buffered = kept }

  unfoldable pub put_records : CsvWriter → List (List String) → CsvWriter
  unfolding put_record
  put_records w [] = w
  put_records w (row ∷ rows) = put_records (put_record w row) rows

  unfoldable pub write_header : CsvWriter → CsvWriter
  unfolding put_record
  write_header w = put_record w header

  unfoldable pub write : CsvWriter → Metric → CsvWriter
  unfolding put_record string
  write w metric = put_record w (string metric)

  -- `csv.Writer.WriteAll` flushes behind the records.
  unfoldable pub write_all : CsvWriter → List Metric → CsvWriter
  unfolding put_records records_of flush
  write_all w metrics = flush (put_records w (records_of metrics))

  unfoldable pub csv_step : CsvWriter → CsvCall → CsvWriter
  unfolding write_header write write_all flush
  csv_step w writes_header = write_header w
  csv_step w (writes metric) = write w metric
  csv_step w (writes_all metrics) = write_all w metrics
  csv_step w flushes = flush w

  unfoldable pub csv_run : CsvWriter → List CsvCall → CsvWriter
  unfolding csv_step
  csv_run w [] = w
  csv_run w (c ∷ calls) = csv_run (csv_step w c) calls
