-- ===== src/Examples/Load.antt =====
-- Runs of the load-testing client's readers, writers and statistics.
use chatflow.Prelude.{
  ℕ, ◌+◌, ◌-◌, ◌==◌, ◌%◌, ◌^◌, ◌≤◌, ◌<◌, ◌⊎◌, not, ◌++◌, String, ◌≡◌, ◌↔◌, refl, Bool, true, false,
  Option, none, some, List, [], ◌∷◌, map, arith, of_eq_false, eq_iff, inr, leb, ltb, if◌then◌else◌,
}
use chatflow.Prelude.Int64.{Int64, div_int64}
use chatflow.Prelude.Seq.{length}
use chatflow.Prelude.Trim.{is_space, behind, trim_suffix}
use chatflow.Models.{Message, Response, message_type_leave}
use chatflow.Models.Metric.{Metric}
use chatflow.Models.Metric.Csv.{CsvCall, writes_header, writes, writes_all, new_csv_writer, csv_run}
use chatflow.Models.Metric.Csv.File.{csv_run-file, IsLog, contents}
use text.Mathlib.TextLemmas.{nil-append}
use Prim.Native.String as Text
use chatflow.Client.Stats.{
  RoomStats, Tally, Quantiles, send_stats, offer_stats, room_stats, total_of,
}
use chatflow.Prelude.Chan.{Chan, try_send}
use chatflow.Client.Stats.Percentiles.{send_stats-IsSummary, IsSent, IsSummary}
use chatflow.Client.Reader.{
  Listener, ReadEvent, delivers, send_closed, new_reader, no_tally, returned, read_events,
  take_response,
}
use chatflow.Client.Reader.Ends.{IsLast, own_leave, IsReport, take_all, read_events-ends}
use chatflow.Client.Reader.Books.{take_all-books, sum_counts, deliveries}
use chatflow.Client.Reader.Figures.{send_stats-mean}
use chatflow.Client.Writer.{Attempt, Sending, accepted, refused, write_messages, conn_messages}
use chatflow.Client.Writer.Order.{Outcome, write_messages-Outcome}
use chatflow.Client.Overall.{Report, get_overall_stats, mean_latencies}
use chatflow.Client.Overall.Totals.{get_overall_stats-report, users_of}
use chatflow.Client.Pipeline.{PipelineEvent, run_pipeline, start_pipeline}
use chatflow.Client.Pipeline.Capacity.{with_stats, run_pipeline-reports}
use chatflow.Client.Socket.{
  Socket, SocketEvent, frame, read_fails, receives, new_ws_client, run_socket,
}
use chatflow.Client.Socket.Delivery.{Some, run_socket-delivers}
use chatflow.Client.FanOut.{FanRun, fan_rooms, fan_read, new_fan_reader}
use chatflow.Client.FanOut.Leaks.{fan_rooms-leaks}
use chatflow.Client.FanOut.Waiting.{fan_read-waits}
use mathlib.Core.List.Memᴰ.{head, tail}
use chatflow.Env.{Environment, load_env_from_file, load_first, load_server_env, rabbit_env_of}
use chatflow.Env.Spellings.{load_server_env-spellings, IsHost, IsPort}
use chatflow.Examples.Setting.{hello, join_message}

abbrev metric : Metric
metric = record {
  timestamp = "t";
  message_type = "TEXT";
  latency = 2 ^ 64 - 7;
  status_code = 200;
  room_id = "1";
}

-- A record is its first column, and the buffer never spills.
abbrev first_column : List String → String
first_column [] = ""
first_column (column ∷ row) = column

abbrev no_spill : String → String × String
no_spill s = ("", s)

abbrev calls : List CsvCall
calls = writes_header ∷ writes metric ∷ writes_all (metric ∷ []) ∷ []

csv_run-file_example :
    let t = csv_run first_column no_spill new_csv_writer calls in
    (rows : List (List String)) × IsLog calls rows
    × (Text.◌++◌ t.fd t.buffered ≡ contents first_column rows)
    × ((true ≡ false) ⊎ (t.fd ≡ contents first_column rows))
csv_run-file_example =
    csv_run-file first_column no_spill calls nil-append
      (tt, ((omega arith, omega arith), (((omega arith, omega arith), tt), tt)))

-- The throughput is a number here.
abbrev as_is : ℕ → ℕ
as_is n = n

-- Channels with space for two more.
abbrev two_free : {A : Type 0} → Chan A
two_free = record { cap = 2; queue = []; closed = false }

abbrev tally : Tally
tally = record no_tally { received = 3; total_latency = 17; latencies = 5 ∷ 3 ∷ 9 ∷ [] }

send_stats-IsSummary_example :
    (q : Quantiles) × IsSent two_free
      (room_stats "1" "7" tally 3 q)
      (send_stats "1" "7" as_is tally two_free)
    × IsSummary tally.latencies q
    × (q.mean ≡ div_int64 17 3)
send_stats-IsSummary_example = send_stats-IsSummary "1" "7" as_is tally two_free (omega arith)

abbrev listener : Listener
listener = record { room_id = "1"; user_id = "7"; collect_metrics = true }

abbrev own_message : Response
own_message = record hello { message = record join_message { message_type = message_type_leave } }

-- The LEAVE of another user.
abbrev others_message : Response
others_message = record hello {
  message = record join_message { message_type = message_type_leave; user_id = "8" };
}

abbrev events : List ReadEvent
events =
    delivers others_message (λ t. some 4) two_free
    ∷ delivers own_message (λ t. some 8) two_free
    ∷ []

latencies_taken : (take_all listener new_reader events).tally.latencies ≡ 4 ∷ 8 ∷ []
unfolding take_all take_response
latencies_taken = refl

others_message-goes_on : ¬ IsLast listener (delivers others_message (λ t. some 4) two_free)
others_message-goes_on (own_leave _ _ _ kind user) =
    of_eq_false {b = "8" == "7"} refl ((eq_iff "8" "7").1 user)

read_events-ends_example :
    let t = take_all listener new_reader events in
    (reported : Option (Chan (RoomStats ℕ))) × (read_events listener as_is two_free new_reader
        (events ++ send_closed ∷ [])
      ≡ returned t reported)
    × IsReport listener as_is two_free t reported
read_events-ends_example =
    read_events-ends listener as_is two_free new_reader
      (delivers others_message (λ t. some 4) two_free ∷ [])
      (delivers own_message (λ t. some 8) two_free) (send_closed ∷ [])
      ((others_message-goes_on, inr (refl, omega arith)), tt)
      (own_leave own_message (λ t. some 8) two_free refl refl) (inr (refl, omega arith))
      (refl, omega arith)

take_all-books_example :
    let r = take_all listener new_reader events in
    (r.tally.received ≡ deliveries events % 2 ^ 64)
    × (sum_counts r.tally.message_types % 2 ^ 64 ≡ r.tally.received)
    × (r.tally.total_latency ≡ total_of 0 r.tally.latencies)
    × (map (λ m. m.latency) r.metrics ≡ r.tally.latencies)
take_all-books_example = take_all-books listener events

send_stats-mean_example :
    let t = (take_all listener new_reader events).tally in
    (q : Quantiles) × (let stats = room_stats "1" "7" t (length t.latencies) q in
      send_stats "1" "7" as_is t two_free ≡ offer_stats stats (try_send two_free stats))
    × (q.least ≤ q.mean)
    × (q.mean ≤ q.greatest)
send_stats-mean_example =
    send_stats-mean listener as_is events two_free (rw latencies_taken (omega arith))
      (rw latencies_taken (omega arith)) (rw latencies_taken (omega arith, (omega arith, tt)))

-- The first attempt for each message is refused.
abbrev flaky : ℕ → ℕ → Attempt
flaky i k = record {
  now = "now";
  result = if leb 1 k then accepted else refused;
  cancelled = false;
}

abbrev sending : Sending
sending = record {
  wire = [];
  successful_messages = 0;
  failed_messages = 0;
  failed_connections = 0;
  waited = 0;
}

abbrev three : List Message
three = conn_messages (λ k. "now") (λ k. k) "7" "1" 1

write_messages-Outcome_example :
    (sent : List Message) × (failures : ℕ) × Outcome three sending
      (write_messages flaky 0 three sending).0
      (write_messages flaky 0 three sending).1
      sent
      failures
write_messages-Outcome_example = write_messages-Outcome flaky 0 three sending

abbrev stats_of : String → Int64 → RoomStats ℕ
stats_of room_id mean = record {
  room_id = room_id;
  user_id = "7";
  message_count = 3;
  mean_latency = mean;
  median_latency = mean;
  percentile95_latency = mean;
  percentile99_latency = mean;
  min_latency = mean;
  max_latency = mean;
  through_put = 1;
  message_types = ("TEXT", 1) ∷ [];
}

abbrev collected : List (RoomStats ℕ)
collected = stats_of "1" 5 ∷ stats_of "2" 4 ∷ stats_of "1" 6 ∷ []

get_overall_stats-report_example :
    (r : Report ℕ) × (get_overall_stats ltb 0 (λ a b. a + b) collected ≡ some (some r))
    × IsSummary (mean_latencies collected) r.overall
    × (users_of r.rooms ≡ 3)
get_overall_stats-report_example =
    get_overall_stats-report ltb 0 (λ a b. a + b) collected (omega arith)

-- Two connections send statistics, and the channel takes one element.
run_pipeline-reports_example :
    with_stats (some (stats_of "1" 5) ∷ none ∷ some (stats_of "2" 4) ∷ []) ≤ 1 ↔ (
      (events : List PipelineEvent) × ((run_pipeline
          (start_pipeline (some (stats_of "1" 5) ∷ none ∷ some (stats_of "2" 4) ∷ []) 1)
          events).reporting
        ≡ true))
run_pipeline-reports_example =
    run_pipeline-reports (some (stats_of "1" 5) ∷ none ∷ some (stats_of "2" 4) ∷ []) 1

abbrev fan_run : FanRun
fan_run = record { successful_messages = 0; failed_messages = 0; wire = []; held = [] }

-- All rooms can be connected to, and nothing can be written in the first.
abbrev connect : String → Option ℕ
connect room_id = some 0

abbrev accepts : String → ℕ → Bool
accepts room_id k = if room_id == "1" then false else true

fan_rooms-leaks_example :
    let t = fan_rooms connect accepts (λ r k. "now") (λ r k. k) "7" 3 ("1" ∷ "2" ∷ []) fan_run in
    ((t.successful_messages + t.failed_messages) % 2 ^ 64 ≡ 6 % 2 ^ 64) × (length t.held ≡ 1)
fan_rooms-leaks_example =
    fan_rooms-leaks connect accepts (λ r k. "now") (λ r k. k) "7" 3 ("1" ∷ "2" ∷ []) fan_run

fan_read-waits_example :
    ((fan_read 2 new_fan_reader (hello ∷ hello ∷ hello ∷ [])).done ≡ true)
    × ((fan_read 2 new_fan_reader (hello ∷ hello ∷ hello ∷ [])).received_msgs ≡ 2)
fan_read-waits_example = fan_read-waits 2 (hello ∷ hello ∷ hello ∷ []) (omega arith)

local : IsHost "10.0.0.1"
unfolding is_space behind trim_suffix
local = record {
  no_space = (refl, (refl, (refl, (refl, (refl, (refl, (refl, (refl, tt))))))));
  no_http = refl;
  no_https = refl;
  no_slash = refl;
}

port : IsPort "8080"
unfolding is_space behind
port = record { no_space = (refl, (refl, (refl, (refl, tt)))); no_colon = refl }

-- The file `.env` sets these; the others are empty.
abbrev settings : Environment
settings key =
    if key == "NAME"
    then "server"
    else if key == "PORT"
    then ":8080"
    else if key == "SERVER_HOST"
    then "http://10.0.0.1"
    else ""

abbrev loads : String → Option Environment
loads file = if file == ".env" then some settings else none

found : load_env_from_file loads ≡ some settings
unfolding load_env_from_file load_first
found = refl

load_server_env-spellings_example :
    load_server_env loads
    ≡ some (record {
      name = "server";
      port = "8080";
      server_host = "10.0.0.1";
      rabbit_env = rabbit_env_of settings;
    })
load_server_env-spellings_example =
    load_server_env-spellings loads settings "10.0.0.1" "8080" local port found (tail (head refl))
      (tail (head refl))

-- The buffer has space for one response: the second is lost, the third comes after the connection.
abbrev crowded : List SocketEvent
crowded = frame hello ∷ frame hello ∷ receives ∷ read_fails ∷ frame hello ∷ []

run_socket-delivers_example :
    (t : Socket) × (run_socket (new_ws_client 1) crowded ≡ some t)
    × Some (t.taken ++ t.send.queue) (hello ∷ hello ∷ [])
    × ((1 < 2) ⊎ (t.taken ++ t.send.queue ≡ hello ∷ hello ∷ []))
    × (length t.send.queue ≤ 1)
    × (t.send.closed ≡ not t.reading)
run_socket-delivers_example = run_socket-delivers 1 crowded
