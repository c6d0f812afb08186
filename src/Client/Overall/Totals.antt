-- ===== src/Client/Overall/Totals.antt =====
-- client/ws/client.go: the report of `GetOverAllStats`.
use chatflow.Prelude.{
  ℕ, ◌+◌, ◌/◌, ◌≤◌, String, ◌≡◌, refl, ap, subst, ◌∙◌, sym, ◌==◌, eq_iff, inl, inr, false, Bool,
  some, List, [], ◌∷◌, ◌++◌, map, arith, eqb, Bool-cases,
}
use chatflow.Prelude.Dict.{Dict, IsMap, get, put, remove, put-IsMap, remove_absent}
use chatflow.Prelude.Seq.{length, length-append, All}
use chatflow.Prelude.Sort.{sort_slice, get_elem?-exists, length-sort_slice}
use chatflow.Prelude.Int64.{div_int64}
use chatflow.Client.Stats.{RoomStats, sorted, total_of}
use chatflow.Client.Stats.Percentiles.{IsSummary, quantiles-IsSummary, sorted-elem}
use chatflow.Client.Overall.{
  RoomReport, Report, slice_of, group_stats, mean_latencies, sum_throughput, room_report,
  room_reports, get_overall_stats, total_types,
}

length-map : {A B : Type 0} (f : A → B) (xs : List A) → length (map f xs) ≡ length xs
length-map f [] = refl
length-map f (x ∷ xs) = omega (arith, length-map f xs)

eqb_pos : (n : ℕ) → 1 ≤ n → eqb n 0 ≡ false
eqb_pos n h = ground arith

-- The connections in all groups, and in all reports.
unfoldable pub grouped : {A : Type 0} → Dict (List A) → ℕ
grouped [] = 0
grouped ((k, xs) ∷ d) = grouped d + length xs

unfoldable pub users_of : {F : Type 0} → Dict (RoomReport F) → ℕ
users_of [] = 0
users_of ((k, r) ∷ d) = users_of d + r.users

module _ {A : Type 0} where
  abbrev NoneEmpty : Dict (List A) → Type 0
  NoneEmpty d = All (λ e. 1 ≤ length e.1) d

  grouped-remove :
      (d : Dict (List A)) (k : String)
      → IsMap d
      → grouped (remove d k) + length (slice_of (get d k)) ≡ grouped d
  unfolding grouped remove get
  grouped-remove [] k m = refl
  grouped-remove ((j, xs) ∷ d) k m = elim (Bool-cases (j == k)) [
    | inl e ↦ rw (e, remove_absent d k (ap (get d) (sym ((eq_iff j k).0 e)) ∙ m.0)) refl
    | inr e ↦ rw e (omega (arith, grouped-remove d k m.1))
  ]

  remove-NoneEmpty : (d : Dict (List A)) (k : String) → NoneEmpty d → NoneEmpty (remove d k)
  unfolding remove
  remove-NoneEmpty [] k h = tt
  remove-NoneEmpty ((j, xs) ∷ d) k h = ground (arith, remove-NoneEmpty d k h.1)

module _ {F : Type 0} where
  record Grouping (n : ℕ) (d : Dict (List (RoomStats F))) : Type 0 where
    is_map : IsMap d
    none_empty : NoneEmpty d
    all_grouped : grouped d ≡ n

  put-Grouping :
      (n : ℕ) (d : Dict (List (RoomStats F))) (rs : RoomStats F)
      → Grouping n d
      → Grouping (n + 1) (put d rs.room_id (slice_of (get d rs.room_id) ++ rs ∷ []))
  unfolding put grouped
  put-Grouping n d rs g = record {
    is_map = put-IsMap d rs.room_id (slice_of (get d rs.room_id) ++ rs ∷ []) g.is_map;
    none_empty = (
      omega (arith, length-append (slice_of (get d rs.room_id)) (rs ∷ [])),
      remove-NoneEmpty d rs.room_id g.none_empty,
    );
    all_grouped = omega (
      arith,
      length-append (slice_of (get d rs.room_id)) (rs ∷ []),
      grouped-remove d rs.room_id g.is_map,
      g.all_grouped,
    );
  }

  group_stats-Grouping :
      (n : ℕ) (d : Dict (List (RoomStats F))) (stats : List (RoomStats F))
      → Grouping n d
      → Grouping (n + length stats) (group_stats d stats)
  unfolding group_stats
  group_stats-Grouping n d [] g = subst (λ k. Grouping k d) (omega arith) g
  group_stats-Grouping n d (rs ∷ stats) g =
      subst
        (λ k.
          Grouping k
            (group_stats (put d rs.room_id (slice_of (get d rs.room_id) ++ rs ∷ [])) stats))
        (omega arith) (group_stats-Grouping (n + 1) _ stats (put-Grouping n d rs g))

  no_groups : Grouping 0 []
  unfolding grouped
  no_groups = record { is_map = tt; none_empty = tt; all_grouped = refl }

  module _ (less : F → F → Bool) (zero_f : F) (add_f : F → F → F) where
    room_report-users :
        (stats : List (RoomStats F))
        → 1 ≤ length stats
        → (r : RoomReport F) × (room_report less zero_f add_f stats ≡ some r)
          × (r.users ≡ length stats)
    unfolding room_report
    room_report-users stats some_left =
        let same = length-map (λ rs. rs.mean_latency) stats in
        let n = length (mean_latencies stats) in
        let (median, e, rank) =
          sorted-elem (mean_latencies stats) (n / 2) (omega (arith, same, some_left)) in
        let r : RoomReport F = record {
          users = n;
          through_put = sum_throughput less zero_f add_f zero_f stats;
          mean_latency = div_int64 (total_of 0 (sorted (mean_latencies stats))) n;
          median_latency = median;
          message_types = total_types [] stats;
        } in
        (r, rw (eqb_pos n (omega (arith, same, some_left)), room_report, e) refl, same)

    room_reports-users :
        (groups : Dict (List (RoomStats F)))
        → NoneEmpty groups
        → (rs : Dict (RoomReport F)) × (room_reports less zero_f add_f groups ≡ some rs)
          × (users_of rs ≡ grouped groups)
    unfolding room_reports users_of grouped
    room_reports-users [] h = ([], refl, refl)
    room_reports-users ((room_id, stats) ∷ groups) h =
        let (r, e, n) = room_report-users stats h.0 in
        let (rs, e', n') = room_reports-users groups h.1 in
        ((room_id, r) ∷ rs, rw (e, e') refl, omega (arith, n, n'))

    -- If statistics were collected, `GetOverAllStats` prints its report without a panic: its
    -- figures are those of the mean latencies of all connections, and the users of its rooms add
    -- up to the number of connections.
    pub get_overall_stats-report :
        (stats : List (RoomStats F))
        → 1 ≤ length stats
        → (r : Report F) × (get_overall_stats less zero_f add_f stats ≡ some (some r))
          × IsSummary (mean_latencies stats) r.overall
          × (users_of r.rooms ≡ length stats)
    unfolding get_overall_stats
    get_overall_stats-report stats some_left =
        let same = length-map (λ rs. rs.mean_latency) stats in
        let n = length (mean_latencies stats) in
        let some_means : 1 ≤ n = omega (arith, same, some_left) in
        let (q, e, h, mean) =
          quantiles-IsSummary (total_of 0 (sorted (mean_latencies stats))) (mean_latencies stats)
            some_means in
        let throughputs = map (λ rs. rs.through_put) stats in
        let (median, e') = get_elem?-exists (sort_slice less throughputs) (n / 2) (
          omega (
            arith,
            same,
            length-sort_slice less throughputs,
            length-map (λ rs. rs.through_put) stats,
            some_left,
          )) in
        let g = group_stats-Grouping 0 [] stats no_groups in
        let (rooms, e'', users) = room_reports-users (group_stats [] stats) g.none_empty in
        let r : Report F = record { overall = q; median_throughput = median; rooms = rooms } in
        (
          r,
          rw (eqb_pos n some_means, get_overall_stats, e, e', e'') refl,
          h,
          omega (arith, users, g.all_grouped),
        )
