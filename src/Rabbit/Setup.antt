-- ===== src/Rabbit/Setup.antt =====
-- internal/rabbitmq/server.go: what `NewRabbitMQ` asks of the AMQP client, up to the first error.
pub mod Plan
use Prim.Native.String.{◌++◌}
use mathlib.Core.List as L
use chatflow.Prelude.{ℕ, zero, suc, ◌+◌, String, Bool, true, false, List, [], ◌∷◌}
use chatflow.Prelude.Atoi.Itoa.{itoa}
use chatflow.Prelude.Dict.{Dict, put}

pub data Operation : Type 0 where
  new_publisher_connection : Operation
  new_consumer_connection : Operation
  declare_exchange : String → Operation
  declare_queue : String → Operation
  bind_queue : String → String → String → Operation
  new_consumer : String → Operation
  new_publisher : Operation

-- What has been done so far, and the map `consumers`.
pub record Setup : Type 0 where
  pub done : List Operation
  pub consumers : Dict String

-- The end of the function: its return, or the error of an operation after those that were done.
pub data Started : Type 0 where
  ready : Setup → Started
  failed : List Operation → Operation → Started

abbrev pub exchange_name : String
exchange_name = "chat.exchange"

abbrev pub queue_name : String → ℕ → String
queue_name server_id r = "room." ++ (itoa r ++ ("." ++ server_id))

abbrev pub binding_key : ℕ → String
binding_key r = "room." ++ itoa r

-- The answers of the client may depend on what was done before. The name that the declaration of a
-- queue answers with is the one that was asked for.
module _ (accepts : List Operation → Operation → Bool) where
  -- `if err != nil { return nil, err }`
  unfoldable pub ask : Operation → Setup → (Setup → Started) → Started
  ask op s next_step = elim (accepts s.done op) [
    | true ↦ next_step (record s { done = L.◌++◌ s.done (op ∷ []) })
    | false ↦ failed s.done op
  ]

  -- The loop over the rooms: the next is `suc r`, and `left` are left.
  unfoldable pub declare_rooms : String → ℕ → ℕ → Setup → (Setup → Started) → Started
  unfolding ask
  declare_rooms server_id r zero s next_step = next_step s
  declare_rooms server_id r (suc left) s next_step =
      let queue = queue_name server_id (suc r) in
      let key = binding_key (suc r) in
      ask (declare_queue queue) s λ s1. ask (bind_queue exchange_name queue key) s1 λ s2.
        ask (new_consumer queue) s2 λ s3.
          declare_rooms server_id (suc r) left
            (record s3 { consumers = put s3.consumers key (itoa (suc r)) }) next_step

  -- The loop over the publish workers.
  unfoldable pub start_workers : ℕ → Setup → Started
  unfolding ask
  start_workers zero s = ready s
  start_workers (suc n) s = ask new_publisher s λ t. start_workers n t

  unfoldable pub set_up : String → ℕ → ℕ → Started
  unfolding declare_rooms start_workers
  set_up server_id room_count publish_workers =
      ask new_publisher_connection (record { done = []; consumers = [] })
        λ s1. ask new_consumer_connection s1 λ s2.
          ask (declare_exchange exchange_name) s2
            λ s3. declare_rooms server_id 0 room_count s3 λ s4. start_workers publish_workers s4
