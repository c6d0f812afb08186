-- ===== src/Client/Overall.antt =====
-- client/ws/client.go: `GetOverAllStats`, by the numbers it prints. `F` stands for float64, with the
-- order and the sum of its numbers.
pub mod Totals
use chatflow.Prelude.{
  ℕ, ◌+◌, ◌/◌, ◌%◌, String, Bool, true, false, Option, none, some, List, [], ◌∷◌, ◌++◌, map, eqb,
  if◌then◌else◌,
}
use chatflow.Prelude.Dict.{Dict, get, put}
use chatflow.Prelude.Store.{int64_mod}
use chatflow.Prelude.Int64.{Int64, add_int64, div_int64}
use chatflow.Prelude.Seq.{length}
use chatflow.Prelude.Sort.{sort_slice, get_elem?}
use chatflow.Client.Stats.{RoomStats, Quantiles, quantiles, sorted, total_of, ◌>>=◌}
use chatflow.Client.Reader.{count_of}

pub record RoomReport (F : Type 0) : Type 0 where
  pub users : ℕ
  pub through_put : F
  pub mean_latency : Int64
  pub median_latency : Int64
  pub message_types : Dict ℕ

pub record Report (F : Type 0) : Type 0 where
  pub overall : Quantiles
  pub median_throughput : F
  pub rooms : Dict (RoomReport F)

-- The slice behind a key, nil if there is none.
abbrev pub slice_of : {A : Type 0} → Option (List A) → List A
slice_of none = []
slice_of (some xs) = xs

-- for mt, count := range rs.MessageTypes { totalMsgTypes[mt] += count }
unfoldable pub add_types : Dict ℕ → Dict ℕ → Dict ℕ
add_types total [] = total
add_types total ((mt, n) ∷ types) =
    add_types (put total mt ((count_of (get total mt) + n) % int64_mod)) types

unfoldable pub total_types : {F : Type 0} → Dict ℕ → List (RoomStats F) → Dict ℕ
unfolding add_types
total_types total [] = total
total_types total (rs ∷ stats) = total_types (add_types total rs.message_types) stats

-- roomStatsMap[rs.RoomID] = append(roomStatsMap[rs.RoomID], rs), for all that `statsChan` carries.
unfoldable pub group_stats :
    {F : Type 0} → Dict (List (RoomStats F)) → List (RoomStats F) → Dict (List (RoomStats F))
group_stats groups [] = groups
group_stats groups (rs ∷ stats) =
    group_stats (put groups rs.room_id (slice_of (get groups rs.room_id) ++ rs ∷ [])) stats

abbrev pub mean_latencies : {F : Type 0} → List (RoomStats F) → List Int64
mean_latencies stats = map (λ rs. rs.mean_latency) stats

module _ {F : Type 0} (less : F → F → Bool) (zero_f : F) (add_f : F → F → F) where
  abbrev pub sum_throughput : F → List (RoomStats F) → F
  sum_throughput total [] = total
  sum_throughput total (rs ∷ stats) = sum_throughput (add_f total rs.through_put) stats

  -- One round of the loop over the rooms; `none` is the panic of a division or of an index.
  unfoldable pub room_report : List (RoomStats F) → Option (RoomReport F)
  unfolding total_types total_of get_elem?
  room_report stats =
      let latencies = mean_latencies stats in
      let rn = length latencies in
      elim (eqb rn 0) [
        | true ↦ none
        | false ↦ do
          median ← get_elem? (sorted latencies) (rn / 2)
          some (record {
            users = rn;
            through_put = sum_throughput zero_f stats;
            mean_latency = div_int64 (total_of 0 (sorted latencies)) rn;
            median_latency = median;
            message_types = total_types [] stats;
          })
      ]

  unfoldable pub room_reports : Dict (List (RoomStats F)) → Option (Dict (RoomReport F))
  unfolding room_report
  room_reports [] = some []
  room_reports ((room_id, stats) ∷ groups) = do
    report ← room_report stats
    reports ← room_reports groups
    some ((room_id, report) ∷ reports)

  -- `some none` is "No stats collected".
  unfoldable pub get_overall_stats : List (RoomStats F) → Option (Option (Report F))
  unfolding room_reports group_stats quantiles total_of get_elem?
  get_overall_stats stats =
      let latencies = mean_latencies stats in
      let n = length latencies in
      elim (eqb n 0) [
        | true ↦ some none
        | false ↦ do
          q ← quantiles (total_of 0 (sorted latencies)) n (sorted latencies)
          median ← get_elem? (sort_slice less (map (λ rs. rs.through_put) stats)) (n / 2)
          rooms ← room_reports (group_stats [] stats)
          some (some (record { overall = q; median_throughput = median; rooms = rooms }))
      ]
