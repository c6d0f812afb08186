-- ===== src/Client/Pool.antt =====
-- client/ws/pool.go. Callers of the pool run concurrently: each call is a state of its own, and one
-- step goes as far as the next lock, channel operation or dialing.
pub mod Slots
pub mod Bounds
use Prim.Native.String.{◌++◌}
use chatflow.Prelude.{
  ℕ, zero, suc, ◌+◌, ◌-◌, String, Bool, true, false, Option, none, some, List, [], ◌∷◌, ltb,
  if◌then◌else◌,
}
use chatflow.Prelude.Dict.{Dict, get, put, remove}
use chatflow.Prelude.Store.{update, incr}
use chatflow.Client.Dial.{Dialed, dial}

-- `in_use` is the number of tokens in the channel `Sem`, and `size` its capacity. Clients are
-- addresses; `closed` says which connections were closed, `owner` and `room` are the fields.
pub record Pool : Type 0 where
  pub conns : Dict ℕ
  pub in_use : ℕ
  pub size : ℕ
  pub closed : ℕ → Bool
  pub owner : ℕ → String
  pub next_client : ℕ
  pub total_connections : ℕ
  pub reconnections : ℕ
  pub failed_connections : ℕ

-- Where a call of `GetOrCreateNewWsClient` or `Remove` stands. A `releasing` call is about to take
-- a token out of `Sem`; `returned` carries the client of the first, if there is one.
pub data Call : Type 0 where
  looking : String → String → Call
  acquiring : String → String → Call
  dialing : String → String → Call
  installing : String → String → ℕ → Call
  removing : String → String → Call
  releasing : Option ℕ → Call
  returned : Option ℕ → Call

unfoldable pub new_ws_client_pool : ℕ → Pool
new_ws_client_pool size = record {
  conns = [];
  in_use = 0;
  size = size;
  closed = λ p. false;
  owner = λ p. "";
  next_client = 0;
  total_connections = 0;
  reconnections = 0;
  failed_connections = 0;
}

abbrev pub get_key : String → String → String
get_key user_id room_id = user_id ++ ":" ++ room_id

unfoldable pub close_client : Pool → ℕ → Pool
close_client p c = record p { closed = update p.closed c true }

-- The lookup under `RLock`.
look : Pool → String → String → Call
look p user_id room_id = elim (get p.conns (get_key user_id room_id)) [
  | none ↦ acquiring user_id room_id
  | some c ↦ returned (some c)
]

-- `p.Sem <- struct{}{}` waits while the channel is full.
acquire : Pool → String → String → Pool × Call
acquire p user_id room_id =
    if ltb p.in_use p.size
    then (record p { in_use = p.in_use + 1 }, dialing user_id room_id)
    else (p, acquiring user_id room_id)

connect : Pool → String → String → Dialed → Pool × Call
connect p user_id room_id d =
    if d.connected
    then (
      record p {
        total_connections = incr p.total_connections;
        reconnections = if ltb 2 d.retries then incr p.reconnections else p.reconnections;
        owner = update p.owner p.next_client user_id;
        next_client = p.next_client + 1;
      },
      installing user_id room_id p.next_client,
    )
    else (record p { failed_connections = incr p.failed_connections }, releasing none)

-- The second lookup, under `Lock`.
install : Pool → String → String → ℕ → Pool × Call
unfolding close_client
install p user_id room_id c = elim (get p.conns (get_key user_id room_id)) [
  | none ↦ (record p { conns = put p.conns (get_key user_id room_id) c }, returned (some c))
  | some existing ↦ (close_client p c, releasing (some existing))
]

-- `Remove` up to `<-p.Sem`.
take_out : Pool → String → String → Pool × Call
unfolding close_client
take_out p user_id room_id =
    let key = get_key user_id room_id in
    elim (get p.conns key) [
      | none ↦ (record p { conns = remove p.conns key }, returned none)
      | some c ↦ (close_client (record p { conns = remove p.conns key }) c, releasing none)
    ]

-- `<-p.Sem` waits while the channel is empty.
release : Pool → Option ℕ → Pool × Call
release p result =
    if ltb 0 p.in_use
    then (record p { in_use = p.in_use - 1 }, returned result)
    else (p, releasing result)

-- One step of a call; `accepts` is what the dialer does, should the step dial.
unfoldable pub advance : (ℕ → Bool) → Pool → Call → Pool × Call
unfolding look acquire connect install take_out release
advance accepts p (looking user_id room_id) = (p, look p user_id room_id)
advance accepts p (acquiring user_id room_id) = acquire p user_id room_id
advance accepts p (dialing user_id room_id) = connect p user_id room_id (dial accepts)
advance accepts p (installing user_id room_id c) = install p user_id room_id c
advance accepts p (removing user_id room_id) = take_out p user_id room_id
advance accepts p (releasing result) = release p result
advance accepts p (returned result) = (p, returned result)

close_clients : Pool → Dict ℕ → Pool
unfolding close_client
close_clients p [] = p
close_clients p ((key, c) ∷ conns) = close_clients (close_client p c) conns

unfoldable pub close_all : Pool → Pool
unfolding close_clients
close_all p = record (close_clients p p.conns) { conns = [] }

-- A pool with the calls that were made of it.
pub record Run : Type 0 where
  pub pool : Pool
  pub calls : List Call

unfoldable pub advance_at : (ℕ → Bool) → Pool → ℕ → List Call → Run
unfolding advance
advance_at accepts p i [] = record { pool = p; calls = [] }
advance_at accepts p zero (c ∷ calls) =
    let r = advance accepts p c in record { pool = r.0; calls = r.1 ∷ calls }
advance_at accepts p (suc i) (c ∷ calls) =
    let r = advance_at accepts p i calls in record { pool = r.pool; calls = c ∷ r.calls }

-- What can happen next: a new call of either function, a step of the call at an index, and
-- `CloseAll`.
pub data Event : Type 0 where
  get_or_create : String → String → Event
  remove_client : String → String → Event
  step : ℕ → (ℕ → Bool) → Event
  shut : Event

unfoldable pub happen : Run → Event → Run
unfolding advance_at close_all
happen r (get_or_create user_id room_id) = record r { calls = looking user_id room_id ∷ r.calls }
happen r (remove_client user_id room_id) = record r { calls = removing user_id room_id ∷ r.calls }
happen r (step i accepts) = advance_at accepts r.pool i r.calls
happen r shut = record r { pool = close_all r.pool }

unfoldable pub run_all : Run → List Event → Run
unfolding happen
run_all r [] = r
run_all r (e ∷ events) = run_all (happen r e) events
