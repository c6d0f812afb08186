-- ===== src/Client/Reader/Books.antt =====
-- client/ws/client.go: the counters of the goroutine that reads.
use mathlib.Core.List.{map-append}
use chatflow.Prelude.{
  ℕ, ◌+◌, ◌%◌, ◌^◌, String, ◌≡◌, refl, ap, ◌∙◌, sym, subst, ◌==◌, eq_iff, inl, inr, Bool, true,
  false, Option, none, some, List, [], ◌∷◌, ◌++◌, map, arith, if◌then◌else◌, Bool-cases,
}
use chatflow.Prelude.Dict.{Dict, IsMap, get, put, remove, put-IsMap, remove_absent}
use chatflow.Prelude.Store.{incr}
use chatflow.Prelude.Int64.{Int64, add_int64}
use chatflow.Models.{Response}
use chatflow.Models.Metric.{Metric, new_metric}
use chatflow.Client.Stats.{total_of}
use chatflow.Client.Reader.{
  Listener, Reader, ReadEvent, delivers, send_closed, context_done, new_reader, count_of,
  count_response, write_metric, record_latency, take_response,
}
use chatflow.Client.Reader.Ends.{take_all}

unfoldable pub sum_counts : Dict ℕ → ℕ
sum_counts [] = 0
sum_counts ((k, n) ∷ d) = sum_counts d + n

sum_counts-remove :
    (d : Dict ℕ) (k : String)
    → IsMap d
    → sum_counts (remove d k) + count_of (get d k) ≡ sum_counts d
unfolding sum_counts remove get
sum_counts-remove [] k m = refl
sum_counts-remove ((j, n) ∷ d) k m = elim (Bool-cases (j == k)) [
  | inl e ↦ rw (e, remove_absent d k (ap (get d) (sym ((eq_iff j k).0 e)) ∙ m.0)) refl
  | inr e ↦ rw e (omega (arith, sum_counts-remove d k m.1))
]

total_of-append :
    (total : Int64) (ls : List Int64) (l : Int64)
    → total_of total (ls ++ l ∷ []) ≡ add_int64 (total_of total ls) l
unfolding total_of
total_of-append total [] l = refl
total_of-append total (x ∷ ls) l = total_of-append (add_int64 total x) ls l

-- The responses among the events.
unfoldable pub deliveries : List ReadEvent → ℕ
deliveries [] = 0
deliveries (delivers resp since chan ∷ events) = deliveries events + 1
deliveries (send_closed ∷ events) = deliveries events
deliveries (context_done ∷ events) = deliveries events

-- The books of a reader that has taken `n` responses.
pub record Books (l : Listener) (n : ℕ) (r : Reader) : Type 0 where
  pub distinct_types : IsMap r.tally.message_types
  pub counted : r.tally.received ≡ n % 2 ^ 64
  pub by_type : sum_counts r.tally.message_types % 2 ^ 64 ≡ r.tally.received
  pub summed : r.tally.total_latency ≡ total_of 0 r.tally.latencies
  pub measured :
      map (λ m. m.latency) r.metrics ≡ (if l.collect_metrics then r.tally.latencies else [])

count_response-Books :
    (l : Listener) (n : ℕ) (r : Reader) (resp : Response)
    → Books l n r
    → Books l (n + 1) (record r { tally = count_response r.tally resp })
unfolding count_response incr sum_counts put
count_response-Books l n r resp h = record {
  distinct_types =
      put-IsMap r.tally.message_types resp.message.message_type
        (incr (count_of (get r.tally.message_types resp.message.message_type))) h.distinct_types;
  counted = omega (arith, h.counted);
  by_type = omega (
    arith,
    h.by_type,
    sum_counts-remove r.tally.message_types resp.message.message_type h.distinct_types,
  );
  summed = h.summed;
  measured = h.measured;
}

measured-one :
    (l : Listener) (resp : Response) (latency : Int64) (collect : Bool) (metrics : List Metric)
    (latencies : List Int64)
    → map (λ m. m.latency) metrics ≡ (if collect then latencies else [])
    → map (λ m. m.latency) (if collect then write_metric l resp latency metrics else metrics)
      ≡ (if collect then latencies ++ latency ∷ [] else [])
unfolding write_metric new_metric
measured-one l resp latency true metrics latencies h =
    map-append (λ (m : Metric). m.latency) metrics (_ ∷ []) ∙ ap (λ ls. ls ++ latency ∷ []) h
measured-one l resp latency false metrics latencies h = h

record_latency-Books :
    (l : Listener) (n : ℕ) (r : Reader) (resp : Response) (o : Option Int64)
    → Books l n r
    → Books l n (record_latency l resp o r)
unfolding record_latency
record_latency-Books l n r resp none h = h
record_latency-Books l n r resp (some latency) h = record {
  distinct_types = h.distinct_types;
  counted = h.counted;
  by_type = h.by_type;
  summed =
      ap (λ t. add_int64 t latency) h.summed ∙ sym (total_of-append 0 r.tally.latencies latency);
  measured = measured-one l resp latency l.collect_metrics r.metrics r.tally.latencies h.measured;
}

take_response-Books :
    (l : Listener) (n : ℕ) (r : Reader) (resp : Response) (since : String → Option Int64)
    → Books l n r
    → Books l (n + 1) (take_response l r resp since)
unfolding take_response
take_response-Books l n r resp since h =
    record_latency-Books l (n + 1) _ resp (since resp.message.timestamp)
      (count_response-Books l n r resp h)

pub take_all-Books :
    (l : Listener) (n : ℕ) (r : Reader) (events : List ReadEvent)
    → Books l n r
    → Books l (n + deliveries events) (take_all l r events)
unfolding take_all deliveries
take_all-Books l n r [] h = subst (λ k. Books l k r) (omega arith) h
take_all-Books l n r (delivers resp since chan ∷ events) h =
    subst (λ k. Books l k (take_all l (take_response l r resp since) events)) (omega arith)
      (take_all-Books l (n + 1) (take_response l r resp since) events
        (take_response-Books l n r resp since h))
take_all-Books l n r (send_closed ∷ events) h = take_all-Books l n r events h
take_all-Books l n r (context_done ∷ events) h = take_all-Books l n r events h

pub no_books : (l : Listener) → Books l 0 new_reader
unfolding sum_counts total_of
no_books l = record {
  distinct_types = tt;
  counted = refl;
  by_type = refl;
  summed = refl;
  measured = none_measured l.collect_metrics;
}
  where
    none_measured : (collect : Bool) → ◌≡◌ {A = List Int64} [] (if collect then [] else [])
    none_measured true = refl
    none_measured false = refl

-- After any events, the number of messages received is the number of responses delivered and the
-- sum of the numbers by message type, modulo 2^64; the total latency is the wrapped sum of the
-- latencies; and if metrics are collected, one was written for each latency, with it and in order,
-- and none otherwise.
pub take_all-books :
    (l : Listener) (events : List ReadEvent)
    → let r = take_all l new_reader events in
      (r.tally.received ≡ deliveries events % 2 ^ 64)
      × (sum_counts r.tally.message_types % 2 ^ 64 ≡ r.tally.received)
      × (r.tally.total_latency ≡ total_of 0 r.tally.latencies)
      × (map (λ m. m.latency) r.metrics ≡ (if l.collect_metrics then r.tally.latencies else []))
take_all-books l events =
    let b = take_all-Books l 0 new_reader events (no_books l) in
    (omega (arith, b.counted), b.by_type, b.summed, b.measured)
