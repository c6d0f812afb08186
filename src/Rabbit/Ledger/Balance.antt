-- ===== src/Rabbit/Ledger/Balance.antt =====
-- internal/rabbitmq/server.go: where the messages are that `Publish` took.
use chatflow.Prelude.{
  ℕ, zero, suc, ◌+◌, ◌%◌, ◌<◌, ◌≡◌, refl, ap, ◌∙◌, subst, inl, inr, false, Option, none, some, List,
  [], ◌∷◌, ◌++◌, arith,
}
use chatflow.Prelude.Seq.{length, length-append}
use chatflow.Prelude.Chan.{push, try_send, try_send-cases, IsWithin}
use chatflow.Prelude.Store.{incr, int64_mod}
use chatflow.Rabbit.{
  PendingMessage, abandon, Answer, marshal_failed, address_failed, delivered, open_state,
  too_many_requests, publish_failed, dropped, discarded, buffer, publish_direct,
}
use chatflow.Rabbit.Ledger.{
  Ledger, Books, Watcher, watching, draining, republishing, receive, record_fate, direct,
  publish_worker, worker_at, take_buffered,
}

-- The sum of a weight over a list: for the weight that is 1 at one message it counts that message.
abbrev pub total : (PendingMessage → ℕ) → List PendingMessage → ℕ
total w [] = 0
total w (pm ∷ pms) = w pm + total w pms

abbrev held_by : (PendingMessage → ℕ) → Option PendingMessage → ℕ
held_by w none = 0
held_by w (some pm) = w pm

unfoldable pub in_hands : (PendingMessage → ℕ) → List (Option PendingMessage) → ℕ
in_hands w [] = 0
in_hands w (o ∷ workers) = held_by w o + in_hands w workers

abbrev pub watched_over : (PendingMessage → ℕ) → Watcher → ℕ
watched_over w watching = 0
watched_over w draining = 0
watched_over w (republishing pm) = w pm

-- `held` is the weight of the messages that the goroutines hold.
pub record IsBalanced (w : PendingMessage → ℕ) (held : ℕ) (b : Books) : Type 0 where
  pub balance :
      total w b.ledger.taken
      ≡ total w b.ledger.sent_out
        + total w b.ledger.thrown_away
        + total w b.ledger.lost
        + total w b.rabbit.publish_chan.queue
        + total w b.rabbit.temp_buffer.queue
        + held
  pub counted :
      b.rabbit.dropped_messages ≡ (length b.ledger.thrown_away + b.ledger.given_up) % int64_mod
  pub publish_bounded : IsWithin b.rabbit.publish_chan
  pub temp_bounded : IsWithin b.rabbit.temp_buffer
  pub publish_open : b.rabbit.publish_chan.closed ≡ false
  pub temp_open : b.rabbit.temp_buffer.closed ≡ false

total-push :
    (w : PendingMessage → ℕ) (pms : List PendingMessage) (pm : PendingMessage)
    → total w (pms ++ pm ∷ []) ≡ total w pms + w pm
total-push w [] pm = omega arith
total-push w (q ∷ pms) pm = omega (arith, total-push w pms pm)

pub incr-counted : (a b : ℕ) → a ≡ b % int64_mod → incr a ≡ (b + 1) % int64_mod
unfolding incr
incr-counted a b h = omega (arith, h)

module _ (w : PendingMessage → ℕ) where
  pub rehold : {a b : ℕ} {books : Books} → a ≡ b → IsBalanced w a books → IsBalanced w b books
  rehold {a} {b} {books} e h = subst (λ n. IsBalanced w n books) e h

  receive-IsBalanced :
      (b : Books) (queue : List PendingMessage) (held : ℕ)
      → b.rabbit.publish_chan.queue ≡ queue
      → IsBalanced w held b
      → let r = receive b queue in IsBalanced w (held_by w r.1 + held) r.0
  unfolding receive
  receive-IsBalanced b [] held e h = rehold (omega arith) h
  receive-IsBalanced b (pm ∷ rest) held e h = record {
    balance = omega (arith, h.balance, ap (total w) e);
    counted = h.counted;
    publish_bounded = omega (arith, h.publish_bounded, ap length e);
    temp_bounded = h.temp_bounded;
    publish_open = h.publish_open;
    temp_open = h.temp_open;
  }

  discard-IsBalanced :
      (b : Books) (pm : PendingMessage) (held : ℕ)
      → IsBalanced w (w pm + held) b
      → IsBalanced w held (record b { ledger = record_fate b.ledger pm discarded })
  unfolding record_fate
  discard-IsBalanced b pm held h = record {
    balance = omega (arith, h.balance);
    counted = h.counted;
    publish_bounded = h.publish_bounded;
    temp_bounded = h.temp_bounded;
    publish_open = h.publish_open;
    temp_open = h.temp_open;
  }

  pub drop-IsBalanced :
      (b : Books) (pm : PendingMessage) (held : ℕ)
      → IsBalanced w (w pm + held) b
      → IsBalanced w held
          (record { rabbit = abandon b.rabbit; ledger = record_fate b.ledger pm dropped })
  unfolding record_fate abandon
  drop-IsBalanced b pm held h = record {
    balance = omega (arith, h.balance);
    counted =
        incr-counted b.rabbit.dropped_messages _ h.counted ∙ ap (λ n. n % int64_mod) (omega arith);
    publish_bounded = h.publish_bounded;
    temp_bounded = h.temp_bounded;
    publish_open = h.publish_open;
    temp_open = h.temp_open;
  }

  buffer-IsBalanced :
      (b : Books) (pm : PendingMessage) (held : ℕ)
      → IsBalanced w (w pm + held) b
      → let r = buffer b.rabbit (try_send b.rabbit.temp_buffer pm) in
        IsBalanced w held (record { rabbit = r.0; ledger = record_fate b.ledger pm r.1 })
  unfolding buffer record_fate
  buffer-IsBalanced b pm held h = elim (try_send-cases b.rabbit.temp_buffer pm h.temp_open) [
    | inl (e, fits) ↦ rw e (record {
      balance = omega (arith, h.balance, total-push w b.rabbit.temp_buffer.queue pm);
      counted = h.counted;
      publish_bounded = h.publish_bounded;
      temp_bounded = omega (arith, fits, length-append b.rabbit.temp_buffer.queue (pm ∷ []));
      publish_open = h.publish_open;
      temp_open = h.temp_open;
    })
    | inr (e, tight) ↦ rw e (unfold abandon in drop-IsBalanced b pm held h)
  ]

  direct-IsBalanced :
      (b : Books) (pm : PendingMessage) (answer : Answer) (held : ℕ)
      → IsBalanced w (w pm + held) b
      → IsBalanced w held (direct b pm answer)
  unfolding direct publish_direct
  direct-IsBalanced b pm marshal_failed held h = discard-IsBalanced b pm held h
  direct-IsBalanced b pm address_failed held h = discard-IsBalanced b pm held h
  direct-IsBalanced b pm delivered held h =
      (unfold record_fate in
        record {
          balance = omega (arith, h.balance);
          counted = h.counted;
          publish_bounded = h.publish_bounded;
          temp_bounded = h.temp_bounded;
          publish_open = h.publish_open;
          temp_open = h.temp_open;
        })
  direct-IsBalanced b pm open_state held h = buffer-IsBalanced b pm held h
  direct-IsBalanced b pm too_many_requests held h = buffer-IsBalanced b pm held h
  direct-IsBalanced b pm publish_failed held h = discard-IsBalanced b pm held h

  -- `others` is what the other goroutines hold.
  pub worker_at-IsBalanced :
      (answer : Answer) (b : Books) (i : ℕ) (workers : List (Option PendingMessage)) (others : ℕ)
      → IsBalanced w (in_hands w workers + others) b
      → let r = worker_at answer b i workers in IsBalanced w (in_hands w r.workers + others) r.books
  unfolding worker_at in_hands publish_worker
  worker_at-IsBalanced answer b i [] others h = h
  worker_at-IsBalanced answer b zero (none ∷ workers) others h =
      let r = receive b b.rabbit.publish_chan.queue in
      let after : IsBalanced w (held_by w r.1 + (in_hands w workers + others)) r.0 =
        receive-IsBalanced b b.rabbit.publish_chan.queue _ refl (rehold (omega arith) h) in
      rehold (omega arith) after
  worker_at-IsBalanced answer b zero (some pm ∷ workers) others h =
      rehold (omega arith)
        (direct-IsBalanced b pm answer (in_hands w workers + others) (rehold (omega arith) h))
  worker_at-IsBalanced answer b (suc i) (o ∷ workers) others h =
      rehold (omega arith)
        (worker_at-IsBalanced answer b i workers (held_by w o + others) (rehold (omega arith) h))

  pub take_buffered-IsBalanced :
      (b : Books) (queue : List PendingMessage) (others : ℕ)
      → b.rabbit.temp_buffer.queue ≡ queue
      → IsBalanced w others b
      → let r = take_buffered b queue in IsBalanced w (watched_over w r.1 + others) r.0
  unfolding take_buffered
  take_buffered-IsBalanced b [] others e h = rehold (omega arith) h
  take_buffered-IsBalanced b (pm ∷ rest) others e h = record {
    balance = omega (arith, h.balance, ap (total w) e);
    counted = h.counted;
    publish_bounded = h.publish_bounded;
    temp_bounded = omega (arith, h.temp_bounded, ap length e);
    publish_open = h.publish_open;
    temp_open = h.temp_open;
  }

  -- A message that goes into the publish queue, with what it adds to the ledger.
  pub enqueue-IsBalanced :
      (b : Books) (l : Ledger) (pm : PendingMessage) (a c : ℕ)
      → length b.rabbit.publish_chan.queue < b.rabbit.publish_chan.cap
      → IsBalanced w a b
      → total w l.taken + a ≡ total w b.ledger.taken + w pm + c
      → l.sent_out ≡ b.ledger.sent_out
      → l.thrown_away ≡ b.ledger.thrown_away
      → l.lost ≡ b.ledger.lost
      → l.given_up ≡ b.ledger.given_up
      → IsBalanced w c (record {
        rabbit = (let r = b.rabbit in record r { publish_chan = push r.publish_chan pm });
        ledger = l;
      })
  enqueue-IsBalanced b l pm a c fits h taken sent_out thrown_away lost given_up = record {
    balance = omega (
      arith,
      h.balance,
      taken,
      ap (total w) sent_out,
      ap (total w) thrown_away,
      ap (total w) lost,
      total-push w b.rabbit.publish_chan.queue pm,
    );
    counted = rw (thrown_away, given_up) h.counted;
    publish_bounded = omega (arith, fits, length-append b.rabbit.publish_chan.queue (pm ∷ []));
    temp_bounded = h.temp_bounded;
    publish_open = h.publish_open;
    temp_open = h.temp_open;
  }
