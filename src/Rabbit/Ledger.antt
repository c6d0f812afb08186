-- ===== src/Rabbit/Ledger.antt =====
-- internal/rabbitmq/server.go: the goroutines around the publish queue, with a ledger of the
-- messages.
pub mod Balance
pub mod Accounts
use chatflow.Prelude.{ℕ, zero, suc, ◌+◌, String, Option, none, some, List, [], ◌∷◌}
use chatflow.Prelude.Chan.{Chan}
use chatflow.Models.{QueueMessage}
use chatflow.Rabbit.{
  PendingMessage, Rabbit, publish, abandon, Answer, Fate, accepted, buffered, dropped, discarded,
  publish_direct,
}

-- What `Publish` took from its callers, and what became of it. `given_up` counts the calls of
-- `Publish` that ended with the context.
pub record Ledger : Type 0 where
  pub taken : List PendingMessage
  pub sent_out : List PendingMessage
  pub thrown_away : List PendingMessage
  pub lost : List PendingMessage
  pub given_up : ℕ

pub record Books : Type 0 where
  pub rabbit : Rabbit
  pub ledger : Ledger

-- The goroutine that watches the connection: at its `select`, in the loop `drain`, or in the
-- `Publish` of a message that it took out of `tempBuffer`.
pub data Watcher : Type 0 where
  watching : Watcher
  draining : Watcher
  republishing : PendingMessage → Watcher

-- A worker at its `select` holds nothing.
pub record Plant : Type 0 where
  pub books : Books
  pub workers : List (Option PendingMessage)
  pub watcher : Watcher

-- case pm := <-r.publishChan
receive : Books → List PendingMessage → Books × Option PendingMessage
receive b [] = (b, none)
receive b (pm ∷ rest) =
    let r = b.rabbit in
    let c = r.publish_chan in
    (record b { rabbit = record r { publish_chan = record c { queue = rest } } }, some pm)

pub record_fate : Ledger → PendingMessage → Fate → Ledger
record_fate l pm accepted = record l { sent_out = pm ∷ l.sent_out }
record_fate l pm buffered = l
record_fate l pm dropped = record l { thrown_away = pm ∷ l.thrown_away }
record_fate l pm discarded = record l { lost = pm ∷ l.lost }

direct : Books → PendingMessage → Answer → Books
unfolding record_fate
direct b pm answer =
    let r = publish_direct b.rabbit pm answer in
    record { rabbit = r.0; ledger = record_fate b.ledger pm r.1 }

-- One step of `publishWorker`: `answer` is used if it holds a message.
unfoldable pub publish_worker :
    Answer → Books → Option PendingMessage → Books × Option PendingMessage
unfolding receive direct
publish_worker answer b none = receive b b.rabbit.publish_chan.queue
publish_worker answer b (some pm) = (direct b pm answer, none)

pub record Shift : Type 0 where
  pub books : Books
  pub workers : List (Option PendingMessage)

unfoldable pub worker_at : Answer → Books → ℕ → List (Option PendingMessage) → Shift
unfolding publish_worker
worker_at answer b i [] = record { books = b; workers = [] }
worker_at answer b zero (w ∷ workers) =
    let r = publish_worker answer b w in record { books = r.0; workers = r.1 ∷ workers }
worker_at answer b (suc i) (w ∷ workers) =
    let r = worker_at answer b i workers in record { books = r.books; workers = w ∷ r.workers }

-- case msg := <-r.tempBuffer, or the end of the loop.
pub take_buffered : Books → List PendingMessage → Books × Watcher
take_buffered b [] = (b, watching)
take_buffered b (pm ∷ rest) =
    let r = b.rabbit in
    let c = r.temp_buffer in
    (record b { rabbit = record r { temp_buffer = record c { queue = rest } } }, republishing pm)

put_back : Books → PendingMessage → Option Rabbit → Books × Watcher
put_back b pm none = (b, republishing pm)
put_back b pm (some r) = (record b { rabbit = r }, draining)

-- One step of the watcher, once the breaker is closed.
unfoldable pub watch : Books → Watcher → Books × Watcher
unfolding take_buffered put_back
watch b watching = (b, draining)
watch b draining = take_buffered b b.rabbit.temp_buffer.queue
watch b (republishing pm) = put_back b pm (publish b.rabbit pm.room_id pm.message)

-- The context is cancelled while the watcher publishes.
unfoldable pub watch_done : Books → Watcher → Books × Watcher
unfolding record_fate
watch_done b watching = (b, watching)
watch_done b draining = (b, draining)
watch_done b (republishing pm) =
    (record { rabbit = abandon b.rabbit; ledger = record_fate b.ledger pm dropped }, draining)

take_call : Books → PendingMessage → Option Rabbit → Books
take_call b pm none = b
take_call b pm (some r) =
    let l = b.ledger in record { rabbit = r; ledger = record l { taken = pm ∷ l.taken } }

pub data Event : Type 0 where
  published : String → QueueMessage → Event
  gave_up : Event
  worked : ℕ → Answer → Event
  watched : Event
  watch_ended : Event

-- What cannot happen in the state leaves it as it is: its goroutine waits.
unfoldable pub happen : Plant → Event → Plant
unfolding take_call worker_at watch watch_done
happen g (published room_id message) = record g {
  books =
      take_call g.books (record { room_id = room_id; message = message })
        (publish g.books.rabbit room_id message);
}
happen g gave_up =
    let b = g.books in
    let l = b.ledger in
    record g {
      books = record { rabbit = abandon b.rabbit; ledger = record l { given_up = l.given_up + 1 } };
    }
happen g (worked i answer) =
    let r = worker_at answer g.books i g.workers in
    record g { books = r.books; workers = r.workers }
happen g watched = let r = watch g.books g.watcher in record g { books = r.0; watcher = r.1 }
happen g watch_ended =
    let r = watch_done g.books g.watcher in record g { books = r.0; watcher = r.1 }

unfoldable pub run_all : Plant → List Event → Plant
unfolding happen
run_all g [] = g
run_all g (e ∷ events) = run_all (happen g e) events
