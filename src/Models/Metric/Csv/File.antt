-- ===== src/Models/Metric/Csv/File.antt =====
-- pkg/utils/csvWriter.go: what comes into the file.
use Prim.Native.String.{◌++◌}
use text.Mathlib.TextLemmas.{append_assoc, append-nil, nil-append}
use chatflow.Prelude.{
  ◌^◌, ◌<◌, String, ◌≡◌, refl, sym, ◌∙◌, ap, ◌⊎◌, inl, inr, Bool, true, false, some, List, [], ◌∷◌,
}
use chatflow.Prelude.Seq.{All}
use chatflow.Prelude.Atoi.{atoi}
use chatflow.Prelude.Atoi.Itoa.Signed.{to_ℤ, atoi-itoa_signed}
use chatflow.Models.Metric.{Metric, string}
use chatflow.Models.Metric.Csv.{
  CsvWriter, new_csv_writer, header, CsvCall, writes_header, writes, writes_all, flushes, flush,
  records_of, put_record, put_records, write_header, write, write_all, csv_step, csv_run,
}

-- The columns of a metric, of which strconv.Atoi reads the numbers back, negative ones included.
pub data IsRow (m : Metric) : List String → Type 0 where
  row_of :
      (latency status_code : String)
      → atoi latency ≡ some (to_ℤ m.latency)
      → atoi status_code ≡ some (to_ℤ m.status_code)
      → IsRow m (m.timestamp ∷ m.message_type ∷ latency ∷ status_code ∷ m.room_id ∷ [])

-- The records that the calls are to write, in order.
pub data IsLog : List CsvCall → List (List String) → Type 0 where
  no_calls : IsLog [] []
  header_row :
      {calls : List CsvCall} {rows : List (List String)}
      → IsLog calls rows
      → IsLog
          (writes_header ∷ calls)
          (("Timestamp" ∷ "MessageType" ∷ "Latency" ∷ "StatusCode" ∷ "RoomId" ∷ []) ∷ rows)
  metric_row :
      {calls : List CsvCall} {rows : List (List String)} (m : Metric) {row : List String}
      → IsRow m row
      → IsLog calls rows
      → IsLog (writes m ∷ calls) (row ∷ rows)
  rows_end :
      {calls : List CsvCall} {rows : List (List String)}
      → IsLog calls rows
      → IsLog (writes_all [] ∷ calls) rows
  rows_next :
      {calls : List CsvCall} {rows : List (List String)} (m : Metric) (metrics : List Metric)
      {row : List String}
      → IsRow m row
      → IsLog (writes_all metrics ∷ calls) rows
      → IsLog (writes_all (m ∷ metrics) ∷ calls) (row ∷ rows)
  no_row :
      {calls : List CsvCall} {rows : List (List String)}
      → IsLog calls rows
      → IsLog (flushes ∷ calls) rows

-- Both numbers are 64-bit integers.
abbrev pub Fits : Metric → Type 0
Fits m = (m.latency < 2 ^ 64) × (m.status_code < 2 ^ 64)

abbrev pub CallFits : CsvCall → Type 0
CallFits writes_header = Unit
CallFits (writes m) = Fits m
CallFits (writes_all metrics) = All Fits metrics
CallFits flushes = Unit

-- The last call is `Flush` or `WriteAll`; `done` stands for the calls before.
abbrev pub ends_flushed : Bool → List CsvCall → Bool
ends_flushed done [] = done
ends_flushed done (writes_header ∷ calls) = ends_flushed false calls
ends_flushed done (writes m ∷ calls) = ends_flushed false calls
ends_flushed done (writes_all metrics ∷ calls) = ends_flushed true calls
ends_flushed done (flushes ∷ calls) = ends_flushed true calls

string-IsRow : (m : Metric) → Fits m → IsRow m (string m)
unfolding string
string-IsRow m (l, s) = row_of _ _ (atoi-itoa_signed m.latency l) (atoi-itoa_signed m.status_code s)

abbrev pub contents : (List String → String) → List (List String) → String
contents encode [] = ""
contents encode (row ∷ rows) = encode row ++ contents encode rows

module _ (encode : List String → String) (spill : String → String × String) where
  -- What was put in, wherever it is.
  abbrev total : CsvWriter → String
  total w = w.fd ++ w.buffered

  abbrev Keeps : Type 0
  Keeps = (s : String) → (spill s).0 ++ (spill s).1 ≡ s

  total-put_record :
      (keeps : Keeps) (w : CsvWriter) (row : List String)
      → total (put_record encode spill w row) ≡ total w ++ encode row
  unfolding put_record
  total-put_record keeps w row =
      append_assoc w.fd _ _
      ∙ ap (λ s. w.fd ++ s) (keeps (w.buffered ++ encode row))
      ∙ sym (append_assoc w.fd w.buffered (encode row))

  total-put_records :
      (keeps : Keeps) (w : CsvWriter) (rows : List (List String))
      → total (put_records encode spill w rows) ≡ total w ++ contents encode rows
  unfolding put_records
  total-put_records keeps w [] = sym (append-nil (total w))
  total-put_records keeps w (row ∷ rows) =
      total-put_records keeps (put_record encode spill w row) rows
      ∙ ap (λ s. s ++ contents encode rows) (total-put_record keeps w row)
      ∙ append_assoc (total w) (encode row) (contents encode rows)

  total-flush : (w : CsvWriter) → total (flush w) ≡ total w
  unfolding flush
  total-flush w = append-nil (total w)

  logged_records :
      (metrics : List Metric) {calls : List CsvCall} {rows : List (List String)}
      → All Fits metrics
      → IsLog calls rows
      → (more : List (List String)) × IsLog (writes_all metrics ∷ calls) more
        × (contents encode more ≡ contents encode (records_of metrics) ++ contents encode rows)
  unfolding records_of
  logged_records [] {calls} {rows} fits log =
      (rows, rows_end log, sym (nil-append (contents encode rows)))
  logged_records (m ∷ metrics) {calls} {rows} fits log =
      let (more, next, e) = logged_records metrics fits.1 log in
      (
        string m ∷ more,
        rows_next m metrics (string-IsRow m fits.0) next,
        ap (λ s. encode (string m) ++ s) e
            ∙ sym (
                append_assoc (encode (string m)) (contents encode (records_of metrics))
                  (contents encode rows)),
      )

  total-csv_run :
      (keeps : Keeps) (w : CsvWriter) (calls : List CsvCall)
      → All CallFits calls
      → (rows : List (List String)) × IsLog calls rows
        × (total (csv_run encode spill w calls) ≡ total w ++ contents encode rows)
  unfolding csv_run csv_step
  total-csv_run keeps w [] fits = ([], no_calls, sym (append-nil (total w)))
  total-csv_run keeps w (writes_header ∷ calls) fits =
      let t = put_record encode spill w header in
      let (rows, log, e) = total-csv_run keeps t calls fits.1 in
      (
        header ∷ rows,
        header_row log,
        e
            ∙ ap (λ s. s ++ contents encode rows) (total-put_record keeps w header)
            ∙ append_assoc (total w) (encode header) (contents encode rows),
      )
  total-csv_run keeps w (writes m ∷ calls) fits =
      let t = put_record encode spill w (string m) in
      let (rows, log, e) = total-csv_run keeps t calls fits.1 in
      (
        string m ∷ rows,
        metric_row m (string-IsRow m fits.0) log,
        e
            ∙ ap (λ s. s ++ contents encode rows) (total-put_record keeps w (string m))
            ∙ append_assoc (total w) (encode (string m)) (contents encode rows),
      )
  total-csv_run keeps w (writes_all metrics ∷ calls) fits =
      let t = put_records encode spill w (records_of metrics) in
      let (rows, log, e) = total-csv_run keeps (flush t) calls fits.1 in
      let (more, log', e') = logged_records metrics fits.0 log in
      (
        more,
        log',
        e
            ∙ ap (λ s. s ++ contents encode rows)
                (total-flush t ∙ total-put_records keeps w (records_of metrics))
            ∙ append_assoc (total w) (contents encode (records_of metrics)) (contents encode rows)
            ∙ ap (λ s. total w ++ s) (sym e'),
      )
  total-csv_run keeps w (flushes ∷ calls) fits =
      let (rows, log, e) = total-csv_run keeps (flush w) calls fits.1 in
      (rows, no_row log, e ∙ ap (λ s. s ++ contents encode rows) (total-flush w))

  buffer-csv_run :
      (done : Bool) (w : CsvWriter) (calls : List CsvCall)
      → (done ≡ false) ⊎ (w.buffered ≡ "")
      → (ends_flushed done calls ≡ false)
        ⊎ (let t = csv_run encode spill w calls in t.buffered ≡ "")
  unfolding csv_run csv_step write_header write write_all flush
  buffer-csv_run done w [] h = h
  buffer-csv_run done w (writes_header ∷ calls) h = buffer-csv_run false _ calls (inl refl)
  buffer-csv_run done w (writes m ∷ calls) h = buffer-csv_run false _ calls (inl refl)
  buffer-csv_run done w (writes_all metrics ∷ calls) h = buffer-csv_run true _ calls (inr refl)
  buffer-csv_run done w (flushes ∷ calls) h = buffer-csv_run true _ calls (inr refl)

  file-csv_run :
      (t : CsvWriter) (all : String) (flushed : Bool)
      → total t ≡ all
      → (flushed ≡ false) ⊎ (t.buffered ≡ "")
      → (flushed ≡ false) ⊎ (t.fd ≡ all)
  file-csv_run t all flushed e (inl not_flushed) = inl not_flushed
  file-csv_run t all flushed e (inr clean) =
      inr (sym (append-nil t.fd) ∙ sym (ap (λ s. t.fd ++ s) clean) ∙ e)

  -- If the writer of encoding/csv keeps in its buffer what it has not written yet, and latencies and
  -- status codes are 64-bit integers, then after any calls of `WriteHeader`, `Write`, `WriteAll` and
  -- `Flush`, the file with the buffer behind it holds the records of the calls, once and in order,
  -- with numbers that strconv.Atoi reads back; and the file alone holds them all if the last
  -- call is `Flush` or `WriteAll`.
  pub csv_run-file :
      (calls : List CsvCall)
      → ((s : String) → (spill s).0 ++ (spill s).1 ≡ s)
      → All CallFits calls
      → let t = csv_run encode spill new_csv_writer calls in
        (rows : List (List String)) × IsLog calls rows
        × (t.fd ++ t.buffered ≡ contents encode rows)
        × ((ends_flushed true calls ≡ false) ⊎ (t.fd ≡ contents encode rows))
  csv_run-file calls keeps fits =
      let t = csv_run encode spill new_csv_writer calls in
      let (rows, log, e) = total-csv_run keeps new_csv_writer calls fits in
      let whole : total t ≡ contents encode rows = e ∙ nil-append (contents encode rows) in
      (
        rows,
        log,
        whole,
        file-csv_run t (contents encode rows) (ends_flushed true calls) whole
            (buffer-csv_run true new_csv_writer calls (inr refl)),
      )
