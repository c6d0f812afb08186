-- ===== src/Client/Socket/Delivery.antt =====
-- client/ws/wsClient.go: what comes out of `Send`.
use mathlib.Core.List.{append_assoc, append-nil}
use chatflow.Prelude.{
  ◌<◌, ◌⊎◌, leb, ℕ, ◌≤◌, ◌≡◌, refl, ap, subst, sym, ◌∙◌, Bool, true, false, not, some, List, [],
  ◌∷◌, ◌++◌, arith, inl, inr, Bool-cases, if◌then◌else◌,
}
use chatflow.Prelude.Seq.{length, length-append}
use chatflow.Prelude.Chan.{push, make, try_send, try_send-cases, close}
use chatflow.Models.{Response}
use chatflow.Client.Socket.{
  Socket, SocketEvent, frame, read_fails, receives, new_ws_client, forward_frame, end_read, receive,
  socket_step, run_socket,
}

-- What is read: a goroutine that has returned reads nothing.
abbrev pub read_by : Bool → List SocketEvent → List Response
read_by false events = []
read_by true [] = []
read_by true (frame resp ∷ events) = resp ∷ read_by true events
read_by true (read_fails ∷ events) = []
read_by true (receives ∷ events) = read_by true events

abbrev goes_on : Bool → SocketEvent → Bool
goes_on false e = false
goes_on true (frame resp) = true
goes_on true read_fails = false
goes_on true receives = true

-- Some of the entries, in their order.
pub data Some : List Response → List Response → Type 0 where
  none_left : Some [] []
  keeps :
      (resp : Response) {out all : List Response}
      → Some out all
      → Some (out ++ resp ∷ []) (all ++ resp ∷ [])
  loses : (resp : Response) {out all : List Response} → Some out all → Some out (all ++ resp ∷ [])

-- The books of a socket that has read `all`.
record Delivers (size : ℕ) (all : List Response) (s : Socket) : Type 0 where
  in_order : Some (s.taken ++ s.send.queue) all
  within : length s.send.queue ≤ size
  sized : s.send.cap ≡ size
  complete : length all ≤ size → s.taken ++ s.send.queue ≡ all
  closed_after : s.send.closed ≡ not s.reading

crowded :
    (size : ℕ) (all : List Response) (s : Socket) (resp : Response)
    → Delivers size all s
    → size ≤ length s.send.queue
    → length (all ++ resp ∷ []) ≤ size
    → ⊥
crowded size all s resp d no_room few =
    omega (arith, length-append all (resp ∷ []), whole, length-append s.taken s.send.queue)
  where
    whole : length (s.taken ++ s.send.queue) ≡ length all
    whole = ap length (d.complete (omega (arith, few, length-append all (resp ∷ []))))

lost-Delivers :
    (size : ℕ) (all : List Response) (s : Socket) (resp : Response)
    → Delivers size all s
    → size ≤ length s.send.queue
    → Delivers size (all ++ resp ∷ []) s
lost-Delivers size all s resp d no_room = record {
  in_order = loses resp d.in_order;
  within = d.within;
  sized = d.sized;
  complete = λ few. absurd (crowded size all s resp d no_room few);
  closed_after = d.closed_after;
}

frame-Delivers :
    (size : ℕ) (all : List Response) (s : Socket) (resp : Response)
    → Delivers size all s
    → s.reading ≡ true
    → (t : Socket) × (forward_frame s (try_send s.send resp) ≡ some t)
      × (t.reading ≡ s.reading)
      × Delivers size (all ++ resp ∷ []) t
unfolding forward_frame
frame-Delivers size all s resp d r = elim (try_send-cases s.send resp (d.closed_after ∙ ap not r)) [
  | inl (e, room) ↦ (
    record s { send = push s.send resp },
    rw (e, forward_frame) refl,
    refl,
    record {
      in_order =
          subst (λ out. Some out (all ++ resp ∷ [])) (append_assoc s.taken s.send.queue (resp ∷ []))
            (keeps resp d.in_order);
      within = omega (arith, room, d.sized, length-append s.send.queue (resp ∷ []));
      sized = d.sized;
      complete = λ few.
          sym (append_assoc s.taken s.send.queue (resp ∷ []))
          ∙ ap (λ out. out ++ resp ∷ [])
              (d.complete (omega (arith, few, length-append all (resp ∷ []))));
      closed_after = d.closed_after;
    },
  )
  | inr (e, no_room) ↦ (
    s,
    rw (e, forward_frame) refl,
    refl,
    lost-Delivers size all s resp d (omega (arith, no_room, d.sized)),
  )
]

receive-Delivers :
    (size : ℕ) (all : List Response) (s : Socket) (queue : List Response)
    → s.send.queue ≡ queue
    → Delivers size all s
    → Delivers size all (receive s queue)
unfolding receive
receive-Delivers size all s [] e d = d
receive-Delivers size all s (resp ∷ rest) e d = record {
  in_order =
      subst (λ out. Some out all)
        (ap (λ q. s.taken ++ q) e ∙ sym (append_assoc s.taken (resp ∷ []) rest)) d.in_order;
  within = omega (arith, rw e at d.within);
  sized = d.sized;
  complete = λ few.
      append_assoc s.taken (resp ∷ []) rest ∙ sym (ap (λ q. s.taken ++ q) e) ∙ d.complete few;
  closed_after = d.closed_after;
}

unread-Delivers :
    (size : ℕ) (all : List Response) (s : Socket)
    → Delivers size all s
    → Delivers size (all ++ []) s
unread-Delivers size all s d = subst (λ out. Delivers size out s) (sym (append-nil all)) d

frame-reading :
    (s : Socket) (resp : Response)
    → s.reading ≡ true
    → socket_step s (frame resp) ≡ forward_frame s (try_send s.send resp)
unfolding socket_step
frame-reading s resp r = ap (λ b. if b then forward_frame s (try_send s.send resp) else some s) r

frame-done :
    (s : Socket) (resp : Response) → s.reading ≡ false → socket_step s (frame resp) ≡ some s
unfolding socket_step
frame-done s resp r = ap (λ b. if b then forward_frame s (try_send s.send resp) else some s) r

fails-reading : (s : Socket) → s.reading ≡ true → socket_step s read_fails ≡ some (end_read s)
unfolding socket_step
fails-reading s r = ap (λ b. some (if b then end_read s else s)) r

fails-done : (s : Socket) → s.reading ≡ false → socket_step s read_fails ≡ some s
unfolding socket_step
fails-done s r = ap (λ b. some (if b then end_read s else s)) r

end_read-Delivers :
    (size : ℕ) (all : List Response) (s : Socket)
    → Delivers size all s
    → Delivers size all (end_read s)
unfolding end_read close
end_read-Delivers size all s d = record {
  in_order = d.in_order;
  within = d.within;
  sized = d.sized;
  complete = d.complete;
  closed_after = refl;
}

receive-reading : (s : Socket) (queue : List Response) → (receive s queue).reading ≡ s.reading
unfolding receive
receive-reading s [] = refl
receive-reading s (resp ∷ rest) = refl

receives-step : (s : Socket) → socket_step s receives ≡ some (receive s s.send.queue)
unfolding socket_step
receives-step s = refl

socket_step-done :
    (size : ℕ) (all : List Response) (s : Socket) (e : SocketEvent)
    → s.reading ≡ false
    → Delivers size all s
    → (t : Socket) × (socket_step s e ≡ some t) × (t.reading ≡ false) × Delivers size all t
socket_step-done size all s (frame resp) r d = (s, frame-done s resp r, r, d)
socket_step-done size all s read_fails r d = (s, fails-done s r, r, d)
socket_step-done size all s receives r d = (
  receive s s.send.queue,
  receives-step s,
  receive-reading s s.send.queue ∙ r,
  receive-Delivers size all s s.send.queue refl d,
)

socket_step-reading :
    (size : ℕ) (all : List Response) (s : Socket) (e : SocketEvent)
    → s.reading ≡ true
    → Delivers size all s
    → (t : Socket) × (socket_step s e ≡ some t)
      × (t.reading ≡ goes_on true e)
      × Delivers size (all ++ read_by true (e ∷ [])) t
unfolding end_read
socket_step-reading size all s (frame resp) r d =
    let (t, e, same, d') = frame-Delivers size all s resp d r in
    (t, frame-reading s resp r ∙ e, same ∙ r, d')
socket_step-reading size all s read_fails r d = (
  end_read s,
  fails-reading s r,
  refl,
  unread-Delivers size all (end_read s) (end_read-Delivers size all s d),
)
socket_step-reading size all s receives r d = (
  receive s s.send.queue,
  receives-step s,
  receive-reading s s.send.queue ∙ r,
  unread-Delivers size all (receive s s.send.queue)
      (receive-Delivers size all s s.send.queue refl d),
)

socket_step-Delivers :
    (b : Bool) (size : ℕ) (all : List Response) (s : Socket) (e : SocketEvent)
    → s.reading ≡ b
    → Delivers size all s
    → (t : Socket) × (socket_step s e ≡ some t)
      × (t.reading ≡ goes_on b e)
      × Delivers size (all ++ read_by b (e ∷ [])) t
socket_step-Delivers true size all s e r d = socket_step-reading size all s e r d
socket_step-Delivers false size all s e r d =
    let (t, e1, r1, d1) = socket_step-done size all s e r d in
    (t, e1, r1, unread-Delivers size all t d1)

read_by-cons :
    (b : Bool) (e : SocketEvent) (events : List SocketEvent)
    → read_by b (e ∷ events) ≡ read_by b (e ∷ []) ++ read_by (goes_on b e) events
read_by-cons false e events = refl
read_by-cons true (frame resp) events = refl
read_by-cons true read_fails events = refl
read_by-cons true receives events = refl

read_by-none : (b : Bool) → read_by b [] ≡ []
read_by-none true = refl
read_by-none false = refl

run_socket-Delivers :
    (b : Bool) (size : ℕ) (all : List Response) (s : Socket) (events : List SocketEvent)
    → s.reading ≡ b
    → Delivers size all s
    → (t : Socket) × (run_socket s events ≡ some t) × Delivers size (all ++ read_by b events) t
unfolding run_socket
run_socket-Delivers b size all s [] r d = (
  s,
  refl,
  subst (λ out. Delivers size (all ++ out) s) (sym (read_by-none b)) (unread-Delivers size all s d),
)
run_socket-Delivers b size all s (e ∷ events) r d =
    let (t, e1, r1, d1) = socket_step-Delivers b size all s e r d in
    let (u, e2, d2) =
      run_socket-Delivers (goes_on b e) size (all ++ read_by b (e ∷ [])) t events r1 d1 in
    (
      u,
      rw (run_socket, e1) e2,
      subst (λ out. Delivers size out u)
          (append_assoc all (read_by b (e ∷ [])) (read_by (goes_on b e) events)
            ∙ ap (λ out. all ++ out) (sym (read_by-cons b e events)))
          d2,
    )

new_ws_client-Delivers : (size : ℕ) → Delivers size [] (new_ws_client size)
unfolding make
new_ws_client-Delivers size = record {
  in_order = none_left;
  within = omega arith;
  sized = refl;
  complete = λ few. refl;
  closed_after = refl;
}

few_or_many :
    (size : ℕ) (all : List Response) {P : Type 0}
    → (length all ≤ size → P)
    → (size < length all) ⊎ P
few_or_many size all few = elim (Bool-cases (leb (length all) size)) [
  | inl e ↦ inr (few (ground arith))
  | inr e ↦ inl (ground arith)
]

-- Whatever the connection delivers and whenever a reader receives, a new client of any buffer size never
-- panics; what was received followed by what still waits are some of the responses read, in the order in which
-- they were read, and all of them if no more were read than the buffer holds; no more wait than the buffer
-- holds; and `Send` is closed exactly when `Read` has returned.
pub run_socket-delivers :
    (message_buffer : ℕ) (events : List SocketEvent)
    → (t : Socket) × (run_socket (new_ws_client message_buffer) events ≡ some t)
      × Some (t.taken ++ t.send.queue) (read_by true events)
      × ((message_buffer < length (read_by true events))
          ⊎ (t.taken ++ t.send.queue ≡ read_by true events))
      × (length t.send.queue ≤ message_buffer)
      × (t.send.closed ≡ not t.reading)
run_socket-delivers message_buffer events =
    let (t, e, d) =
      run_socket-Delivers true message_buffer [] (new_ws_client message_buffer) events refl
        (new_ws_client-Delivers message_buffer) in
    (
      t,
      e,
      d.in_order,
      few_or_many message_buffer (read_by true events) d.complete,
      d.within,
      d.closed_after,
    )
