-- ===== src/Client/Reader/Ends.antt =====
-- client/ws/client.go: when the goroutine that reads returns, and what it has taken by then.
use chatflow.Prelude.{
  String, ◌&&◌, ℕ, ◌≡◌, refl, sym, ◌∙◌, Bool, true, false, Option, none, some, List, [], ◌∷◌, ◌++◌,
  of_eq_false, ◌==◌, eq_iff, ◌<◌, ◌⊎◌, inl, inr, Bool-cases, arith,
}
use chatflow.Prelude.Chan.{Chan, sent, push, try_send, try_send-cases}
use chatflow.Prelude.Int64.{Int64}
use chatflow.Prelude.Seq.{length, All}
use chatflow.Models.{Response, message_type_leave}
use chatflow.Models.Metric.{Metric}
use chatflow.Client.Stats.{Quantiles, RoomStats, room_stats, send_stats}
use chatflow.Client.Stats.Percentiles.{IsSummary, send_stats-offer}
use chatflow.Client.Reader.{
  Listener, Reader, ReadEvent, delivers, send_closed, context_done, reads, returned, take_response,
  is_own_leave, end_reader, offer_metric, after_response, after_metric, read_event, read_events,
}

-- The user's own LEAVE, the end of the connection, or the end of the context.
pub data IsLast (l : Listener) : ReadEvent → Type 0 where
  own_leave :
      (resp : Response) (since : String → Option Int64) (chan : Chan Metric)
      → (let msg = resp.message in msg.message_type) ≡ message_type_leave
      → (let msg = resp.message in msg.user_id) ≡ l.user_id
      → IsLast l (delivers resp since chan)
  end_of_send : IsLast l send_closed
  end_of_context : IsLast l context_done

abbrev pub HasSpace : {A : Type 0} → Chan A → Type 0
HasSpace c = (c.closed ≡ false) × (length c.queue < c.cap)

-- The metric of the response, if metrics are collected, does not wait for ever.
abbrev pub Flows : Listener → ReadEvent → Type 0
Flows l (delivers resp since chan) = (l.collect_metrics ≡ false) ⊎ HasSpace chan
Flows l send_closed = Unit
Flows l context_done = Unit

-- All the responses are taken.
unfoldable pub take_all : Listener → Reader → List ReadEvent → Reader
take_all l r [] = r
take_all l r (delivers resp since chan ∷ events) = take_all l (take_response l r resp since) events
take_all l r (send_closed ∷ events) = take_all l r events
take_all l r (context_done ∷ events) = take_all l r events

try_send-HasSpace : {A : Type 0} (c : Chan A) (a : A) → HasSpace c → try_send c a ≡ sent (push c a)
try_send-HasSpace c a (open_still, room) = elim (try_send-cases c a open_still) [
  | inl (e, _) ↦ e
  | inr (_, no_room) ↦ absurd (omega (arith, room, no_room))
]

both : (a b : Bool) → (a && b) ≡ true → (a ≡ true) × (b ≡ true)
both true b h = (refl, h)
both false b h = absurd (of_eq_false refl h)

is_own_leave-IsLast :
    (l : Listener) (resp : Response) (since : String → Option Int64) (chan : Chan Metric)
    → is_own_leave l resp ≡ true
    → IsLast l (delivers resp since chan)
unfolding is_own_leave
is_own_leave-IsLast l resp since chan h =
    let msg = resp.message in
    let (t, u) = both (msg.message_type == message_type_leave) (msg.user_id == l.user_id) h in
    own_leave resp since chan ((eq_iff msg.message_type message_type_leave).0 t)
      ((eq_iff msg.user_id l.user_id).0 u)

IsLast-is_own_leave :
    (l : Listener) (resp : Response) (since : String → Option Int64) (chan : Chan Metric)
    → IsLast l (delivers resp since chan)
    → is_own_leave l resp ≡ true
unfolding is_own_leave
IsLast-is_own_leave l resp since chan (own_leave _ _ _ t u) =
    let msg = resp.message in
    rw ((eq_iff msg.message_type message_type_leave).1 t, (eq_iff msg.user_id l.user_id).1 u) refl

take_all-cons :
    (l : Listener) (r : Reader) (e : ReadEvent) (events : List ReadEvent)
    → take_all l r (e ∷ events) ≡ take_all l (take_all l r (e ∷ [])) events
unfolding take_all
take_all-cons l r (delivers resp since chan) events = refl
take_all-cons l r send_closed events = refl
take_all-cons l r context_done events = refl

module _ {F : Type 0} (l : Listener) (through_put : ℕ → F) (stats_chan : Chan (RoomStats F)) where
  metric_passes :
      (before r : Reader) (resp : Response) (latency : Option Int64) (chan : Chan Metric)
      → (l.collect_metrics ≡ false) ⊎ HasSpace chan
      → after_metric l through_put stats_chan before r resp (offer_metric l resp latency chan)
        ≡ after_response l through_put stats_chan r resp
  unfolding offer_metric after_metric
  metric_passes before r resp none chan h = refl
  metric_passes before r resp (some latency) chan (inl off) =
      rw (offer_metric, off, after_metric) refl
  metric_passes before r resp (some latency) chan (inr space) =
      elim (Bool-cases l.collect_metrics) [
        | inl on ↦ rw (offer_metric, on, try_send-HasSpace chan _ space, after_metric) refl
        | inr off ↦ rw (offer_metric, off, after_metric) refl
      ]

  read_event-last :
      (r : Reader) (e : ReadEvent)
      → IsLast l e
      → Flows l e
      → read_event l through_put stats_chan r e
        ≡ end_reader l through_put stats_chan (take_all l r (e ∷ []))
  unfolding read_event take_all after_response
  read_event-last r (delivers resp since chan) h flows =
      metric_passes _ (take_response l r resp since) resp (since resp.message.timestamp) chan flows
      ∙ rw (after_response, IsLast-is_own_leave l resp since chan h) refl
  read_event-last r send_closed h flows = refl
  read_event-last r context_done h flows = refl

  read_event-not_last :
      (r : Reader) (e : ReadEvent)
      → ¬ IsLast l e
      → Flows l e
      → read_event l through_put stats_chan r e ≡ reads (take_all l r (e ∷ []))
  unfolding read_event take_all after_response
  read_event-not_last r (delivers resp since chan) h flows =
      metric_passes _ (take_response l r resp since) resp (since resp.message.timestamp) chan flows
      ∙ elim (Bool-cases (is_own_leave l resp)) [
        | inl own ↦ absurd (h (is_own_leave-IsLast l resp since chan own))
        | inr other ↦ rw (after_response, other) refl
      ]
  read_event-not_last r send_closed h flows = absurd (h end_of_send)
  read_event-not_last r context_done h flows = absurd (h end_of_context)

  reaches_end :
      (r : Reader) (before : List ReadEvent) (last : ReadEvent) (after : List ReadEvent)
      (t : Reader) (reported : Option (Chan (RoomStats F)))
      → All (λ e. (¬ IsLast l e) × Flows l e) before
      → IsLast l last
      → Flows l last
      → end_reader l through_put stats_chan (take_all l r (before ++ last ∷ []))
        ≡ returned t reported
      → read_events l through_put stats_chan r (before ++ last ∷ after) ≡ returned t reported
  unfolding read_events
  reaches_end r [] last after t reported h e flows ends =
      rw (read_events, read_event-last r last e flows, ends) refl
  reaches_end r (b ∷ before) last after t reported h e flows ends =
      rw (read_events, read_event-not_last r b h.0.0 h.0.1)
        (reaches_end (take_all l r (b ∷ [])) before last after t reported h.1 e flows
          (rw (sym (take_all-cons l r b (before ++ last ∷ []))) ends))

  -- What a reader that has returned has put into `statsChan`.
  pub data IsReport (r : Reader) : Option (Chan (RoomStats F)) → Type 0 where
    no_report : r.tally.latencies ≡ [] → IsReport r none
    one_report :
        (q : Quantiles)
        → IsSummary r.tally.latencies q
        → IsReport r (
            some (
              push stats_chan (
                room_stats l.room_id l.user_id r.tally (through_put (length r.tally.latencies)) q)))

  end_reader-returns :
      (r : Reader) (latencies : List Int64)
      → r.tally.latencies ≡ latencies
      → HasSpace stats_chan
      → (reported : Option (Chan (RoomStats F))) × (end_reader l through_put stats_chan r
          ≡ returned r reported)
        × IsReport r reported
  unfolding end_reader send_stats
  end_reader-returns r [] e space = (none, rw e refl, no_report e)
  end_reader-returns r (x ∷ xs) e space =
      let (q, sends, summary, _) =
        send_stats-offer l.room_id l.user_id through_put r.tally stats_chan (rw e (omega arith)) in
      (_, rw (end_reader, sends, try_send-HasSpace stats_chan _ space) refl, one_report q summary)

  -- If `metricChan` takes each metric up to there and `statsChan` has space, the goroutine returns at
  -- the first of the user's own LEAVE, the closing of `Send` and the end of the context, whatever
  -- follows, with all the responses up to it taken and a summary of their latencies put into
  -- `statsChan`, or nothing if there is no latency.
  pub read_events-ends :
      (r : Reader) (before : List ReadEvent) (last : ReadEvent) (after : List ReadEvent)
      → All (λ e. (¬ IsLast l e) × Flows l e) before
      → IsLast l last
      → Flows l last
      → HasSpace stats_chan
      → let t = take_all l r (before ++ last ∷ []) in
        (reported : Option (Chan (RoomStats F))) × (read_events l through_put stats_chan r
            (before ++ last ∷ after)
          ≡ returned t reported)
        × IsReport t reported
  read_events-ends r before last after h e flows space =
      let t = take_all l r (before ++ last ∷ []) in
      let (reported, ends, report) = end_reader-returns t t.tally.latencies refl space in
      (reported, reaches_end r before last after t reported h e flows ends, report)
