-- ===== src/Client/Socket.antt =====
-- client/ws/wsClient.go: the goroutine `Read` with the channel `Send`, and whoever receives from it.
pub mod Delivery
use chatflow.Prelude.{ℕ, Bool, true, false, Option, none, some, List, [], ◌∷◌, ◌++◌, if◌then◌else◌}
use chatflow.Prelude.Chan.{Chan, Offer, sent, full, panicked, make, try_send, close}
use chatflow.Models.{Response}

-- `taken` is what was received from `Send` so far; `reading` says that `Read` has not returned.
pub record Socket : Type 0 where
  pub send : Chan Response
  pub reading : Bool
  pub taken : List Response

-- `ReadJSON` reads a response, or fails; or a reader receives from `Send`.
pub data SocketEvent : Type 0 where
  frame : Response → SocketEvent
  read_fails : SocketEvent
  receives : SocketEvent

abbrev pub new_ws_client : ℕ → Socket
new_ws_client message_buffer = record { send = make message_buffer; reading = true; taken = [] }

-- The `select` with its `default`; `none` is the panic of a send into a closed channel.
unfoldable pub forward_frame : Socket → Offer Response → Option Socket
forward_frame s (sent c) = some (record s { send = c })
forward_frame s full = some s
forward_frame s panicked = none

-- `return` with the deferred `CloseSend`.
unfoldable pub end_read : Socket → Socket
unfolding close
end_read s = record s { send = close s.send; reading = false }

unfoldable pub receive : Socket → List Response → Socket
receive s [] = s
receive s (resp ∷ rest) =
    let chan = s.send in
    record s { send = record chan { queue = rest }; taken = s.taken ++ resp ∷ [] }

-- A goroutine that has returned reads no more.
unfoldable pub socket_step : Socket → SocketEvent → Option Socket
unfolding forward_frame end_read receive try_send
socket_step s (frame resp) = if s.reading then forward_frame s (try_send s.send resp) else some s
socket_step s read_fails = some (if s.reading then end_read s else s)
socket_step s receives = let chan = s.send in some (receive s chan.queue)

unfoldable pub run_socket : Socket → List SocketEvent → Option Socket
unfolding socket_step
run_socket s [] = some s
run_socket s (e ∷ events) = elim (socket_step s e) [ none ↦ none | some t ↦ run_socket t events ]
