-- ===== src/Server/System/Writes.antt =====
-- A round of a writer goroutine keeps the invariant.
use chatflow.Prelude.{
  ℕ, ◌≡◌, refl, inl, inr, Bool, ◌&&◌, not, Option, List, [], ◌∷◌, arith, eqb, Bool-cases,
}
use chatflow.Prelude.Store.{update, eqb→eq}
use chatflow.Models.{Response}
use chatflow.Server.{Client, Server}
use chatflow.Server.Rooms.{close_conn}
use chatflow.Server.Handler.{
  Writer, no_writer, writing, write_done, drain_send, write_response, handle_client_writes,
}
use chatflow.Server.Invariant.{Inv}
use chatflow.Server.Invariant.Entries.{SameClient, RoomInv-same}
use chatflow.Server.Invariant.Growth.{Grows, Grows-refl}

update-SameClient :
    (clients : ℕ → Client) (p : ℕ) (c : Client)
    → SameClient (clients p) c
    → (q : ℕ) → SameClient (clients q) (update clients p c q)
update-SameClient clients p c same q = elim (Bool-cases (eqb p q)) [
  | inl e ↦ rw (e, ← eqb→eq p q e) same
  | inr e ↦ rw e (record { user_id = refl; room = refl; closed = refl })
]

module _ {R : Type 0} where
  -- One client changes, in what the entries do not see.
  one_client :
      (s t : Server R) (p : ℕ) (c : Client)
      → SameClient (s.clients p) c
      → t.rooms ≡ s.rooms
      → t.clients ≡ update s.clients p c
      → t.next_client ≡ s.next_client
      → Inv s
      → Inv t × Grows s t
  one_client s t p c same rooms clients next i = (
    record {
      distinct_rooms = rw rooms i.distinct_rooms;
      rooms_inv = λ r room e.
          rw (clients, next)
            (RoomInv-same (update-SameClient s.clients p c same)
              (i.rooms_inv r room (rw rooms at e)));
    },
    record {
      next_grows = omega (arith, next);
      rooms_stay = λ r e. rw rooms e;
      user_stays = λ q lt. rw clients ((update-SameClient s.clients p c same q).user_id);
      room_stays = λ q lt. rw clients ((update-SameClient s.clients p c same q).room);
    },
  )

  write-Step :
      (s : Server R) (p : ℕ) (accepts : Bool) (resp : Option Response)
      (rest : List (Option Response))
      → Inv s
      → Inv (write_response s p (s.clients p) accepts resp rest).0
        × Grows s (write_response s p (s.clients p) accepts resp rest).0
  unfolding write_response close_conn
  write-Step s p accepts resp rest i =
      elim (Bool-cases (accepts && not (s.conns (s.clients p).conn).closed)) [
        | inl e ↦ simp e (
            one_client s _ p _ (record { user_id = refl; room = refl; closed = refl }) refl refl
              refl i)
        | inr e ↦ simp e (
            one_client s _ p _ (record { user_id = refl; room = refl; closed = refl }) refl refl
              refl i)
      ]

  drain-Step :
      (s : Server R) (p : ℕ) (accepts : Bool) (queue : List (Option Response))
      → Inv s
      → Inv (drain_send s p (s.clients p) accepts queue).0
        × Grows s (drain_send s p (s.clients p) accepts queue).0
  unfolding drain_send
  drain-Step s p accepts [] i = (i, Grows-refl s)
  drain-Step s p accepts (resp ∷ rest) i = write-Step s p accepts resp rest i

  pub writes-Step :
      (s : Server R) (accepts : Bool) (writer : Writer)
      → Inv s
      → Inv (handle_client_writes s accepts writer).0
        × Grows s (handle_client_writes s accepts writer).0
  unfolding handle_client_writes
  writes-Step s accepts (writing p) i = drain-Step s p accepts (s.clients p).send.queue i
  writes-Step s accepts no_writer i = (i, Grows-refl s)
  writes-Step s accepts write_done i = (i, Grows-refl s)
