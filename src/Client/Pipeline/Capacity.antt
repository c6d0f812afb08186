-- ===== src/Client/Pipeline/Capacity.antt =====
-- client/pipeline.go: `statsChan` and the number of connections.
use chatflow.Prelude.{
  ℕ, zero, suc, ◌+◌, ◌≤◌, ◌<◌, ◌≡◌, ◌↔◌, refl, subst, sym, ◌∙◌, Bool, true, false, Option, none,
  some, List, [], ◌∷◌, arith, lt→ltb, of_eq_false,
}
use mathlib.Core.Option.{some-injective}
use chatflow.Prelude.Seq.{length, length-append}
use chatflow.Prelude.Chan.{
  Chan, Offer, sent, full, panicked, make, try_send, try_send-open, close, push,
}
use chatflow.Client.Stats.{RoomStats}
use chatflow.Client.Pipeline.{
  Pipeline, PipelineEvent, finishes, waits, start_pipeline, without, entry, sent_stats, finish,
  wait_all, happens, run_pipeline,
}

-- What a report needs.
Enough : Bool → ℕ → ℕ → Type 0
Enough true n size = n ≤ size
Enough false n size = Unit

reported-Enough :
    (reporting : Bool) (n size : ℕ) → Enough reporting n size → reporting ≡ true → n ≤ size
unfolding Enough
reported-Enough true n size h e = h
reported-Enough false n size h e = absurd (of_eq_false refl e)

-- What a send that goes through has found and left.
try_send-sent :
    {A : Type 0} (c d : Chan A) (a : A)
    → try_send c a ≡ sent d
    → (d.cap ≡ c.cap) × (length d.queue ≡ length c.queue + 1) × (length c.queue < c.cap)
unfolding try_send
try_send-sent c d a e =
    let more = length-append c.queue (a ∷ []) in (ground arith, ground (arith, more), ground arith)

module _ {F : Type 0} where
  abbrev pub one_stats : Option (RoomStats F) → ℕ
  one_stats none = 0
  one_stats (some stats) = 1

  -- The connections that send statistics.
  abbrev pub with_stats : List (Option (RoomStats F)) → ℕ
  with_stats [] = 0
  with_stats (a ∷ active) = one_stats a + with_stats active

  with_stats-without :
      (active : List (Option (RoomStats F))) (i : ℕ) (a : Option (RoomStats F))
      → entry active i ≡ some a
      → one_stats a + with_stats (without active i) ≡ with_stats active
  with_stats-without [] i a e = cc
  with_stats-without (x ∷ active) zero a e =
      subst (λ y. one_stats y + with_stats active ≡ one_stats x + with_stats active)
        (some-injective x a e) refl
  with_stats-without (x ∷ active) (suc i) a e = omega (arith, with_stats-without active i a e)

  -- Nothing is lost between the connections and the channel, and the channel keeps to its size.
  record Held (n size : ℕ) (p : Pipeline F) : Type 0 where
    kept : with_stats p.active + length p.stats_chan.queue ≡ n
    sized : p.stats_chan.cap ≡ size
    within : length p.stats_chan.queue ≤ size
    ended : Enough p.reporting n size

  sent_stats-Held :
      (n size i : ℕ) (p : Pipeline F) (stats : RoomStats F) (o : Offer (RoomStats F))
      → try_send p.stats_chan stats ≡ o
      → entry p.active i ≡ some (some stats)
      → Held n size p
      → Held n size (sent_stats p i o)
  unfolding sent_stats
  sent_stats-Held n size i p stats (sent c) t e h =
      let (same, longer, room) = try_send-sent p.stats_chan c stats t in
      record {
        kept = omega (arith, h.kept, longer, with_stats-without p.active i (some stats) e);
        sized = same ∙ h.sized;
        within = omega (arith, longer, room, h.sized);
        ended = h.ended;
      }
  sent_stats-Held n size i p stats full t e h = h
  sent_stats-Held n size i p stats panicked t e h = h

  finish-Held :
      (n size i : ℕ) (p : Pipeline F) (o : Option (Option (RoomStats F)))
      → entry p.active i ≡ o
      → Held n size p
      → Held n size (finish p i o)
  unfolding finish
  finish-Held n size i p none e h = h
  finish-Held n size i p (some none) e h = record {
    kept = omega (arith, h.kept, with_stats-without p.active i none e);
    sized = h.sized;
    within = h.within;
    ended = h.ended;
  }
  finish-Held n size i p (some (some stats)) e h =
      sent_stats-Held n size i p stats (try_send p.stats_chan stats) refl e h

  wait_all-Held :
      (n size : ℕ) (p : Pipeline F) (active : List (Option (RoomStats F)))
      → p.active ≡ active
      → Held n size p
      → Held n size (wait_all p active)
  unfolding wait_all close Enough
  wait_all-Held n size p [] e h = record {
    kept = h.kept;
    sized = h.sized;
    within = h.within;
    ended = omega (arith, h.within, rw e at h.kept);
  }
  wait_all-Held n size p (a ∷ active) e h = h

  run_pipeline-Held :
      (n size : ℕ) (p : Pipeline F) (events : List PipelineEvent)
      → Held n size p
      → Held n size (run_pipeline p events)
  unfolding run_pipeline happens
  run_pipeline-Held n size p [] h = h
  run_pipeline-Held n size p (finishes i ∷ events) h =
      run_pipeline-Held n size (finish p i (entry p.active i)) events
        (finish-Held n size i p (entry p.active i) refl h)
  run_pipeline-Held n size p (waits ∷ events) h =
      run_pipeline-Held n size (wait_all p p.active) events (wait_all-Held n size p p.active refl h)

  start-Held :
      (active : List (Option (RoomStats F))) (size : ℕ)
      → Held (with_stats active) size (start_pipeline active size)
  unfolding make Enough
  start-Held active size = record {
    kept = omega arith;
    sized = refl;
    within = omega arith;
    ended = tt;
  }

  -- The connections end one after the other, the first of the list first.
  finish_all : List (Option (RoomStats F)) → List PipelineEvent
  finish_all [] = waits ∷ []
  finish_all (a ∷ active) = finishes 0 ∷ finish_all active

  finish_all-reports :
      (active : List (Option (RoomStats F))) (chan : Chan (RoomStats F)) (reporting : Bool)
      → chan.closed ≡ false
      → with_stats active + length chan.queue ≤ chan.cap
      → (run_pipeline
          (record { active = active; stats_chan = chan; reporting = reporting })
          (finish_all active)).reporting
        ≡ true
  unfolding run_pipeline happens finish_all finish wait_all sent_stats
  finish_all-reports [] chan reporting c h = refl
  finish_all-reports (none ∷ active) chan reporting c h =
      finish_all-reports active chan reporting c (omega (arith, h))
  finish_all-reports (some stats ∷ active) chan reporting c h =
      let taken : try_send chan stats ≡ sent (push chan stats) =
        try_send-open chan stats c
        ∙ rw (lt→ltb (length chan.queue) chan.cap (omega (arith, h))) refl in
      let p : Pipeline F = record {
        active = some stats ∷ active;
        stats_chan = chan;
        reporting = reporting;
      } in
      subst (λ o. (run_pipeline (sent_stats p 0 o) (finish_all active)).reporting ≡ true)
        (sym taken)
        (finish_all-reports active (push chan stats) reporting c
          (omega (arith, h, length-append chan.queue (stats ∷ []))))

  -- Of connections whose write loops wait for their readers: if no more than `MessageBuffer` of them
  -- send statistics, some order of their ends leads to the report; and if any order leads to it,
  -- they are no more than that: with more, the test never comes to its report.
  pub run_pipeline-reports :
      (active : List (Option (RoomStats F))) (message_buffer : ℕ)
      → with_stats active ≤ message_buffer ↔ (
          (events : List PipelineEvent) × ((run_pipeline
              (start_pipeline active message_buffer)
              events).reporting
            ≡ true))
  unfolding make
  run_pipeline-reports active message_buffer = (
    λ few. (
      finish_all active,
      finish_all-reports active (make message_buffer) false refl (omega (arith, few)),
    ),
    λ (events, e).
        reported-Enough _ (with_stats active) message_buffer
          ((run_pipeline-Held (with_stats active) message_buffer
            (start_pipeline active message_buffer) events (start-Held active message_buffer)).ended)
          e,
  )
