-- ===== src/Rabbit/Ledger/Accounts.antt =====
-- internal/rabbitmq/server.go: the accounts of the messages that `Publish` took, however the
-- goroutines interleave.
use chatflow.Prelude.{
  ℕ, zero, suc, ◌+◌, ◌%◌, String, ◌≡◌, refl, ap, ◌∙◌, inl, inr, none, List, [], ◌∷◌, arith,
}
use chatflow.Prelude.Seq.{length, replicate}
use chatflow.Prelude.Chan.{make, try_send-cases}
use chatflow.Prelude.Store.{int64_mod}
use chatflow.Models.{QueueMessage}
use chatflow.Rabbit.{PendingMessage, Rabbit, new_rabbit_mq, offered, publish, abandon}
use chatflow.Rabbit.Ledger.{
  Books, Watcher, watching, draining, republishing, Plant, put_back, watch, watch_done, take_call,
  Event, published, gave_up, worked, watched, watch_ended, happen, run_all,
}
use chatflow.Rabbit.Ledger.Balance.{
  total, in_hands, watched_over, incr-counted, IsBalanced, rehold, drop-IsBalanced,
  worker_at-IsBalanced, take_buffered-IsBalanced, enqueue-IsBalanced,
}

abbrev pub new_plant : Rabbit → ℕ → Plant
new_plant rabbit num_publish_workers = record {
  books = record {
    rabbit = rabbit;
    ledger = record { taken = []; sent_out = []; thrown_away = []; lost = []; given_up = 0 };
  };
  workers = replicate num_publish_workers none;
  watcher = watching;
}

module _ (w : PendingMessage → ℕ) where
  abbrev Balanced : Plant → Type 0
  Balanced g = IsBalanced w (in_hands w g.workers + watched_over w g.watcher) g.books

  put_back-IsBalanced :
      (b : Books) (pm : PendingMessage) (others : ℕ)
      → IsBalanced w (w pm + others) b
      → let r = put_back b pm (publish b.rabbit pm.room_id pm.message) in
        IsBalanced w (watched_over w r.1 + others) r.0
  unfolding put_back publish offered
  put_back-IsBalanced b pm others h =
      elim (try_send-cases b.rabbit.publish_chan pm h.publish_open) [
        | inl (e, fits) ↦ rw e (
            enqueue-IsBalanced w b b.ledger pm (w pm + others) (0 + others) fits h (omega arith)
              refl refl refl refl)
        | inr (e, tight) ↦ rw e h
      ]

  watch-IsBalanced :
      (b : Books) (watcher : Watcher) (others : ℕ)
      → IsBalanced w (watched_over w watcher + others) b
      → let r = watch b watcher in IsBalanced w (watched_over w r.1 + others) r.0
  unfolding watch
  watch-IsBalanced b watching others h = h
  watch-IsBalanced b draining others h =
      take_buffered-IsBalanced w b b.rabbit.temp_buffer.queue others refl (rehold w (omega arith) h)
  watch-IsBalanced b (republishing pm) others h = put_back-IsBalanced b pm others h

  watch_done-IsBalanced :
      (b : Books) (watcher : Watcher) (others : ℕ)
      → IsBalanced w (watched_over w watcher + others) b
      → let r = watch_done b watcher in IsBalanced w (watched_over w r.1 + others) r.0
  unfolding watch_done
  watch_done-IsBalanced b watching others h = h
  watch_done-IsBalanced b draining others h = h
  watch_done-IsBalanced b (republishing pm) others h =
      rehold w (omega arith) (drop-IsBalanced w b pm others h)

  take_call-IsBalanced :
      (b : Books) (room_id : String) (message : QueueMessage) (held : ℕ)
      → IsBalanced w held b
      → IsBalanced w held (
          take_call b
            (record { room_id = room_id; message = message })
            (publish b.rabbit room_id message))
  unfolding take_call publish offered
  take_call-IsBalanced b room_id message held h =
      let pm : PendingMessage = record { room_id = room_id; message = message } in
      let l = b.ledger in
      elim (try_send-cases b.rabbit.publish_chan pm h.publish_open) [
        | inl (e, fits) ↦ rw e (
            enqueue-IsBalanced w b (record l { taken = pm ∷ l.taken }) pm held held fits h
              (omega arith) refl refl refl refl)
        | inr (e, tight) ↦ rw e h
      ]

  gave_up-IsBalanced :
      (b : Books) (held : ℕ)
      → IsBalanced w held b
      → IsBalanced w held (record {
        rabbit = abandon b.rabbit;
        ledger = (let l = b.ledger in record l { given_up = l.given_up + 1 });
      })
  unfolding abandon
  gave_up-IsBalanced b held h = record {
    balance = h.balance;
    counted =
        incr-counted b.rabbit.dropped_messages _ h.counted ∙ ap (λ n. n % int64_mod) (omega arith);
    publish_bounded = h.publish_bounded;
    temp_bounded = h.temp_bounded;
    publish_open = h.publish_open;
    temp_open = h.temp_open;
  }

  happen-Balanced : (g : Plant) (e : Event) → Balanced g → Balanced (happen g e)
  unfolding happen
  happen-Balanced g (published room_id message) h = take_call-IsBalanced g.books room_id message _ h
  happen-Balanced g gave_up h = gave_up-IsBalanced g.books _ h
  happen-Balanced g (worked i answer) h =
      worker_at-IsBalanced w answer g.books i g.workers (watched_over w g.watcher) h
  happen-Balanced g watched h =
      rehold w (omega arith)
        (watch-IsBalanced g.books g.watcher (in_hands w g.workers) (rehold w (omega arith) h))
  happen-Balanced g watch_ended h =
      rehold w (omega arith)
        (watch_done-IsBalanced g.books g.watcher (in_hands w g.workers) (rehold w (omega arith) h))

  run_all-Balanced : (g : Plant) (events : List Event) → Balanced g → Balanced (run_all g events)
  unfolding run_all
  run_all-Balanced g [] h = h
  run_all-Balanced g (e ∷ events) h = run_all-Balanced (happen g e) events (happen-Balanced g e h)

  idle_hands : (n : ℕ) → in_hands w (replicate n none) ≡ 0
  unfolding in_hands
  idle_hands zero = refl
  idle_hands (suc n) = omega (arith, idle_hands n)

  new_plant-Balanced :
      (id : String) (temp_size publish_size rooms workers : ℕ)
      → Balanced (new_plant (new_rabbit_mq id temp_size publish_size rooms) workers)
  unfolding new_rabbit_mq make
  new_plant-Balanced id temp_size publish_size rooms workers = record {
    balance = omega (arith, idle_hands workers);
    counted = refl;
    publish_bounded = omega arith;
    temp_bounded = omega arith;
    publish_open = refl;
    temp_open = refl;
  }

-- However the callers of `Publish`, the workers and the watcher interleave, every message that
-- `Publish` took is, as often as it was taken, in exactly one place: at the broker, dropped with a
-- count, lost without one, in one of the two channels, or in the hands of a goroutine.
pub run_all-accounts :
    (w : PendingMessage → ℕ) (id : String) (temp_size publish_size rooms workers : ℕ)
    (events : List Event)
    → let g = run_all (new_plant (new_rabbit_mq id temp_size publish_size rooms) workers) events in
      total w g.books.ledger.taken
      ≡ total w g.books.ledger.sent_out
        + total w g.books.ledger.thrown_away
        + total w g.books.ledger.lost
        + total w g.books.rabbit.publish_chan.queue
        + total w g.books.rabbit.temp_buffer.queue
        + (in_hands w g.workers + watched_over w g.watcher)
run_all-accounts w id temp_size publish_size rooms workers events =
    (run_all-Balanced w _ events
      (new_plant-Balanced w id temp_size publish_size rooms workers)).balance

-- `DroppedMessages` counts, modulo `2 ^ 64`, the messages that found `tempBuffer` full or the
-- context cancelled, and the calls of `Publish` that ended with the context. It does not count
-- the messages that were lost to any other error.
pub run_all-dropped_messages :
    (id : String) (temp_size publish_size rooms workers : ℕ) (events : List Event)
    → let g = run_all (new_plant (new_rabbit_mq id temp_size publish_size rooms) workers) events in
      g.books.rabbit.dropped_messages
      ≡ (length g.books.ledger.thrown_away + g.books.ledger.given_up) % int64_mod
run_all-dropped_messages id temp_size publish_size rooms workers events =
    (run_all-Balanced (λ pm. 0) _ events
      (new_plant-Balanced (λ pm. 0) id temp_size publish_size rooms workers)).counted
