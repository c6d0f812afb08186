-- ===== src/Client/Pipeline.antt =====
-- client/pipeline.go with the goroutines of `WriteMessages` in client/ws/client.go: the connections end,
-- in any order, and send their statistics; when all have, the channels are closed and
-- `GetOverAllStats` drains `statsChan`. A write loop that returns early does not wait for its reader,
-- and its connection is none of these.
pub mod Capacity
use chatflow.Prelude.{ℕ, zero, suc, Bool, true, false, Option, none, some, List, [], ◌∷◌}
use chatflow.Prelude.Chan.{Chan, Offer, sent, full, panicked, make, try_send, close}
use chatflow.Client.Stats.{RoomStats}

-- `active` has, for each connection that has not ended, the statistics that its reader will send, if
-- it sends any; `reporting` says that `c.Wg.Wait()` has returned and the channels are closed.
pub record Pipeline (F : Type 0) : Type 0 where
  pub active : List (Option (RoomStats F))
  pub stats_chan : Chan (RoomStats F)
  pub reporting : Bool

-- The reader of the connection at an index calls `sendStats` and ends; or the main goroutine looks
-- whether all have ended.
pub data PipelineEvent : Type 0 where
  finishes : ℕ → PipelineEvent
  waits : PipelineEvent

abbrev pub start_pipeline : {F : Type 0} → List (Option (RoomStats F)) → ℕ → Pipeline F
start_pipeline active message_buffer = record {
  active = active;
  stats_chan = make message_buffer;
  reporting = false;
}

abbrev pub without : {A : Type 0} → List A → ℕ → List A
without [] i = []
without (x ∷ xs) zero = xs
without (x ∷ xs) (suc i) = x ∷ without xs i

abbrev pub entry : {A : Type 0} → List A → ℕ → Option A
entry [] i = none
entry (x ∷ xs) zero = some x
entry (x ∷ xs) (suc i) = entry xs i

module _ {F : Type 0} where
  -- `c.statsChan <- stats` waits while the channel is full. The channel is closed only when no
  -- connection is left.
  unfoldable pub sent_stats : Pipeline F → ℕ → Offer (RoomStats F) → Pipeline F
  sent_stats p i (sent c) = record p { active = without p.active i; stats_chan = c }
  sent_stats p i full = p
  sent_stats p i panicked = p

  unfoldable pub finish : Pipeline F → ℕ → Option (Option (RoomStats F)) → Pipeline F
  unfolding sent_stats try_send
  finish p i none = p
  finish p i (some none) = record p { active = without p.active i }
  finish p i (some (some stats)) = sent_stats p i (try_send p.stats_chan stats)

  unfoldable pub wait_all : Pipeline F → List (Option (RoomStats F)) → Pipeline F
  unfolding close
  wait_all p [] = record p { stats_chan = close p.stats_chan; reporting = true }
  wait_all p (a ∷ active) = p

  unfoldable pub happens : Pipeline F → PipelineEvent → Pipeline F
  unfolding finish wait_all
  happens p (finishes i) = finish p i (entry p.active i)
  happens p waits = wait_all p p.active

  unfoldable pub run_pipeline : Pipeline F → List PipelineEvent → Pipeline F
  unfolding happens
  run_pipeline p [] = p
  run_pipeline p (e ∷ events) = run_pipeline (happens p e) events
