-- ===== src/Server/System/Safety.antt =====
-- No interleaving of the goroutines makes the server panic.
use chatflow.Prelude.{ℕ, String, ◌≢◌, refl, inl, inr, Option, eqb, Bool-cases}
use chatflow.Prelude.Int.{ℤ}
use chatflow.Prelude.Dict.{get}
use chatflow.Server.{Server, Broker, Outcome, ok, err, panic, new_server}
use chatflow.Server.Broadcast.{broadcast_round, consume_message}
use chatflow.Server.Handler.{Handler, chat_room_handler}
use chatflow.Server.Invariant.{Inv, Safely, Safely-bind, Safely-and}
use chatflow.Server.Invariant.Rounds.{broadcast_round-Inv}
use chatflow.Server.Invariant.Shutdown.{broadcast_done-Inv}
use chatflow.Server.Invariant.Sends.{consume_message-Inv}
use chatflow.Server.Invariant.Growth.{Grows, Grows-refl}
use chatflow.Server.Invariant.GrowthRounds.{
  broadcast_round-Grows, broadcast_done-Grows, consume_message-Grows,
}
use chatflow.Server.Roster.Conns.{shut_down-OnlyConns}
use chatflow.Server.System.Sessions.{PhaseInv, StepOk, PhaseInv-Grows, Inv-counts, Grows-counts}
use chatflow.Server.System.{
  System, Action, perform, Reach, here, later, boot, set_handler, connects, handles, writes,
  stops_writing, rounds, stops, delivers, cancels, shuts_down,
}
use chatflow.Server.System.Dispatch.{chat_room_handler-Step}
use chatflow.Server.System.Writes.{writes-Step}

pub record SystemInv {R : Type 0} (w : System R) : Type 0 where
  pub server_inv : Inv w.server
  pub sessions : (k : ℕ) → PhaseInv w.server (w.handlers k).room_id (w.handlers k).phase

module _ {R : Type 0} where
  -- The server moves, and the handlers stay.
  move-SystemInv :
      (w : System R) (s : Server R)
      → SystemInv w
      → Inv s
      → Grows w.server s
      → SystemInv (record w { server = s })
  move-SystemInv w s h i g = record {
    server_inv = i;
    sessions = λ k. PhaseInv-Grows (w.handlers k).room_id (w.handlers k).phase g (h.sessions k);
  }

  -- One handler moves too.
  set_handler-SystemInv :
      (w : System R) (k : ℕ) (s : Server R) (h' : Handler)
      → SystemInv w
      → Inv s
      → Grows w.server s
      → PhaseInv s h'.room_id h'.phase
      → SystemInv (set_handler w k s h')
  set_handler-SystemInv w k s h' h i g pi = record {
    server_inv = i;
    sessions = λ j. elim (Bool-cases (eqb k j)) [
      | inl e ↦ rw e pi
      | inr e ↦ rw e (PhaseInv-Grows (w.handlers j).room_id (w.handlers j).phase g (h.sessions j))
    ];
  }

module _ {R : Type 0} (b : Broker R) (parse_time : String → Option ℤ) where
  -- A step keeps the invariant of the system, and does not panic.
  pub perform-SystemInv :
      (w : System R) (a : Action) → SystemInv w → Safely SystemInv (perform b parse_time w a)
  unfolding perform
  perform-SystemInv w (connects room_id client_ip) h = record {
    server_inv = h.server_inv;
    sessions = λ j. elim (Bool-cases (eqb w.next_conn j)) [
      | inl e ↦ rw e tt
      | inr e ↦ rw e (h.sessions j)
    ];
  }
  perform-SystemInv w (handles k t input) h =
      Safely-bind (StepOk w.server (w.handlers k)) SystemInv
        (chat_room_handler b parse_time t w.server (w.handlers k) input) _
        (chat_room_handler-Step b parse_time t w.server (w.handlers k) input h.server_inv
          (h.sessions k))
        λ r step. set_handler-SystemInv w k r.0 r.1 h step.inv step.grows step.phase_inv
  perform-SystemInv w (writes k accepts) h =
      let (i, g) = writes-Step w.server accepts (w.handlers k).writer h.server_inv in
      set_handler-SystemInv w k _ _ h i g
        (PhaseInv-Grows (w.handlers k).room_id (w.handlers k).phase g (h.sessions k))
  perform-SystemInv w (stops_writing k) h =
      set_handler-SystemInv w k w.server _ h h.server_inv (Grows-refl w.server) (h.sessions k)
  perform-SystemInv w (rounds room_id) h =
      Safely-bind (λ s. Inv s × Grows w.server s) SystemInv (broadcast_round w.server room_id) _
        (Safely-and Inv (Grows w.server) (broadcast_round w.server room_id)
          (broadcast_round-Inv w.server room_id h.server_inv)
          (broadcast_round-Grows w.server room_id))
        λ s (i, g). move-SystemInv w s h i g
  perform-SystemInv w (stops room_id) h =
      move-SystemInv w _ h (broadcast_done-Inv w.server room_id h.server_inv)
        (broadcast_done-Grows w.server room_id)
  perform-SystemInv w (delivers room_id now q) h =
      Safely-bind (λ s. Inv s × Grows w.server s) SystemInv
        (consume_message parse_time w.server room_id now q) _
        (Safely-and Inv (Grows w.server) (consume_message parse_time w.server room_id now q)
          (consume_message-Inv parse_time w.server room_id now q h.server_inv)
          (consume_message-Grows parse_time w.server room_id now q))
        λ s (i, g). move-SystemInv w s h i g
  perform-SystemInv w shuts_down h =
      let same = shut_down-OnlyConns w.server in
      move-SystemInv w _ h (Inv-counts same.rooms same.clients same.next_client h.server_inv)
        (Grows-counts same.rooms same.clients same.next_client)
  perform-SystemInv w cancels h =
      move-SystemInv w _ h (Inv-counts refl refl refl h.server_inv) (Grows-counts refl refl refl)

  pub boot-SystemInv :
      (id : String) (buffer_size : ℕ) (rabbit : Option R) (max_rooms : ℕ)
      → SystemInv (boot id buffer_size rabbit max_rooms)
  unfolding new_server get
  boot-SystemInv id buffer_size rabbit max_rooms = record {
    server_inv = record { distinct_rooms = tt; rooms_inv = λ i r e. cc };
    sessions = λ k. tt;
  }

  pub Reach-SystemInv :
      {start w : System R} → SystemInv start → Reach b parse_time start w → SystemInv w
  Reach-SystemInv h here = h
  Reach-SystemInv h (later {w = v} r a e) = rw e at (perform-SystemInv v a (Reach-SystemInv h r))

  Safely-ne-panic : {A : Type 0} (P : A → Type 0) (o : Outcome A) → Safely P o → o ≢ panic
  Safely-ne-panic P (ok a) h e = cc
  Safely-ne-panic P (err x) h e = cc
  Safely-ne-panic P panic h e = h

  -- From the start of the server, whatever clients connect and send, however the goroutines
  -- interleave, whatever the broker delivers and the network refuses, and also while the server
  -- shuts down, no step sends on a closed channel or otherwise panics.
  pub Reach-ne-panic :
      (id : String) (buffer_size : ℕ) (rabbit : Option R) (max_rooms : ℕ) (w : System R)
      → Reach b parse_time (boot id buffer_size rabbit max_rooms) w
      → (a : Action) → perform b parse_time w a ≢ panic
  Reach-ne-panic id buffer_size rabbit max_rooms w r a =
      Safely-ne-panic SystemInv (perform b parse_time w a)
        (perform-SystemInv w a (Reach-SystemInv (boot-SystemInv id buffer_size rabbit max_rooms) r))
