-- ===== src/Rabbit/Setup/Plan.antt =====
-- internal/rabbitmq/server.go: the operations of `NewRabbitMQ` beside their list.
use mathlib.Core.List.{append_assoc, append-nil}
use chatflow.Prelude.{
  ℕ, zero, suc, ◌+◌, String, ◌≡◌, refl, sym, ap, ◌∙◌, Bool, false, List, [], ◌∷◌, ◌++◌, arith, inl,
  inr, Bool-cases,
}
use chatflow.Prelude.Seq.{replicate}
use chatflow.Prelude.Dict.{put}
use chatflow.Prelude.Atoi.Itoa.{itoa}
use chatflow.Rabbit.{room_consumers}
use chatflow.Rabbit.Setup.{
  Operation, new_publisher_connection, new_consumer_connection, declare_exchange, declare_queue,
  bind_queue, new_consumer, new_publisher, Setup, Started, ready, failed, exchange_name, queue_name,
  binding_key, ask, declare_rooms, start_workers, set_up,
}

-- For each room its queue, the binding of the queue, and the consumer.
abbrev pub room_plan : String → ℕ → ℕ → List Operation
room_plan server_id r zero = []
room_plan server_id r (suc left) =
    let queue = queue_name server_id (suc r) in
    declare_queue queue
    ∷ bind_queue exchange_name queue (binding_key (suc r))
    ∷ new_consumer queue
    ∷ room_plan server_id (suc r) left

abbrev pub plan : String → ℕ → ℕ → List Operation
plan server_id room_count publish_workers =
    new_publisher_connection
    ∷ new_consumer_connection
    ∷ declare_exchange exchange_name
    ∷ (room_plan server_id 0 room_count ++ replicate publish_workers new_publisher)

module _ (accepts : List Operation → Operation → Bool) where
  -- All of the plan was done, and the rooms have their consumers; or the first operation that was
  -- refused is the next one of the plan after those that were done.
  abbrev pub Follows : List Operation → ℕ → Started → Type 0
  Follows all n (ready s) = (s.done ≡ all) × (s.consumers ≡ room_consumers n)
  Follows all n (failed done op) =
      (rest : List Operation) × (done ++ op ∷ rest ≡ all) × (accepts done op ≡ false)

  ask-Follows :
      (all : List Operation) (n : ℕ) (op : Operation) (rest : List Operation) (s : Setup)
      (next_step : Setup → Started)
      → s.done ++ op ∷ rest ≡ all
      → ((t : Setup)
          → t.done ++ rest ≡ all
          → t.consumers ≡ s.consumers
          → Follows all n (next_step t))
      → Follows all n (ask accepts op s next_step)
  unfolding ask
  ask-Follows all n op rest s next_step e h = elim (Bool-cases (accepts s.done op)) [
    | inl granted ↦
        rw (ask, granted)
          (h (record s { done = s.done ++ op ∷ [] }) (append_assoc s.done (op ∷ []) rest ∙ e) refl)
    | inr no_more ↦ rw (ask, no_more) (rest, e, no_more)
  ]

  start_workers-Follows :
      (all : List Operation) (n workers : ℕ) (s : Setup)
      → s.done ++ replicate workers new_publisher ≡ all
      → s.consumers ≡ room_consumers n
      → Follows all n (start_workers accepts workers s)
  unfolding start_workers
  start_workers-Follows all n zero s e c = (sym (append-nil s.done) ∙ e, c)
  start_workers-Follows all n (suc workers) s e c =
      ask-Follows all n new_publisher (replicate workers new_publisher) s _ e
        λ t e' c'. start_workers-Follows all n workers t e' (c' ∙ c)

  declare_rooms-Follows :
      (all : List Operation) (n : ℕ) (server_id : String) (r left : ℕ) (s : Setup)
      (next_step : Setup → Started) (rest : List Operation)
      → r + left ≡ n
      → s.done ++ (room_plan server_id r left ++ rest) ≡ all
      → s.consumers ≡ room_consumers r
      → ((t : Setup)
          → t.done ++ rest ≡ all
          → t.consumers ≡ room_consumers n
          → Follows all n (next_step t))
      → Follows all n (declare_rooms accepts server_id r left s next_step)
  unfolding declare_rooms
  declare_rooms-Follows all n server_id r zero s next_step rest m e c h =
      h s e (c ∙ ap room_consumers (omega (arith, m)))
  declare_rooms-Follows all n server_id r (suc left) s next_step rest m e c h =
      ask-Follows all n _ _ s _ e λ s1 e1 c1. ask-Follows all n _ _ s1 _ e1 λ s2 e2 c2.
        ask-Follows all n _ _ s2 _ e2 λ s3 e3 c3.
          declare_rooms-Follows all n server_id (suc r) left
            (record s3 { consumers = put s3.consumers (binding_key (suc r)) (itoa (suc r)) })
            next_step rest (omega (arith, m)) e3 (unfold room_consumers in rw (c3, c2, c1, c) refl)
            h

-- Whatever the AMQP client answers, `NewRabbitMQ` either does all of its plan, and the consumers are
-- those of the rooms; or it fails with the error of the first operation that is refused, after
-- exactly the operations that the plan has before it.
pub set_up-Follows :
    (accepts : List Operation → Operation → Bool) (server_id : String)
    (room_count publish_workers : ℕ)
    → Follows accepts
        (plan server_id room_count publish_workers)
        room_count
        (set_up accepts server_id room_count publish_workers)
unfolding set_up room_consumers
set_up-Follows accepts server_id room_count publish_workers =
    let all = plan server_id room_count publish_workers in
    ask-Follows accepts all room_count _ _ _ _ refl λ s1 e1 c1.
      ask-Follows accepts all room_count _ _ s1 _ e1 λ s2 e2 c2.
        ask-Follows accepts all room_count _ _ s2 _ e2 λ s3 e3 c3.
          declare_rooms-Follows accepts all room_count server_id 0 room_count s3
            (λ s4. start_workers accepts publish_workers s4)
            (replicate publish_workers new_publisher) (omega arith) e3 (c3 ∙ c2 ∙ c1)
            λ s4 e4 c4. start_workers-Follows accepts all room_count publish_workers s4 e4 c4
