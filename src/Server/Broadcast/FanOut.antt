-- ===== src/Server/Broadcast/FanOut.antt =====
-- The fan-out of one message to the clients of a room.
use chatflow.Prelude.{
  ℕ, String, ◌≡◌, refl, sym, ap, fun_ext, eq_iff, inl, inr, Bool, false, ◌||◌, Option, none, [],
  ◌∷◌, arith, ltb, eqb, if◌then◌else◌, Bool-cases,
}
use chatflow.Prelude.Seq.{length, All}
use chatflow.Prelude.Dict.{Dict, get, IsMap}
use chatflow.Prelude.Chan.{push, try_send, try_send-open}
use chatflow.Prelude.Store.{update, incr, eqb→eq, update-at, update_same}
use chatflow.Models.{Response}
use chatflow.Server.{Client, ok}
use chatflow.Server.Broadcast.{offer_client, fan_out}

abbrev pub has_room : Client → Bool
has_room client = ltb (length client.send.queue) client.send.cap

-- What one client sees of a message: it is queued if there is room, and lost for them if not.
abbrev pub deliver : Option Response → Client → Client
deliver resp client =
    if has_room client then record client { send = push client.send resp } else client

-- The pointers that a map holds.
abbrev pub holds : ℕ → Dict ℕ → Bool
holds p [] = false
holds p ((user, q) ∷ users) = eqb q p || holds p users

-- The clients whose buffer is full are counted, one by one.
pub drops : (ℕ → Client) → Dict ℕ → ℕ → ℕ
drops clients [] dropped = dropped
drops clients ((user, p) ∷ users) dropped =
    drops clients users (if has_room (clients p) then dropped else incr dropped)

-- The entry of a map leads to the client of that user, whose channel is open.
abbrev pub IsOpenEntry : (ℕ → Client) → String × ℕ → Type 0
IsOpenEntry clients e = ((clients e.1).user_id ≡ e.0) × ((clients e.1).send.closed ≡ false)

holds_absent :
    (clients : ℕ → Client) (users : Dict ℕ) (p : ℕ)
    → All (IsOpenEntry clients) users
    → get users (clients p).user_id ≡ none
    → holds p users ≡ false
unfolding get
holds_absent clients [] p h e = refl
holds_absent clients ((user, q) ∷ users) p h e = ground (
  arith,
  eq_iff user (clients p).user_id,
  holds_absent clients users p h.1,
  ap (λ (x : ℕ). (clients x).user_id) {x = q} {y = p},
)

-- The store when the message went out to all of `users`.
abbrev pub fanned : Option Response → Dict ℕ → (ℕ → Client) → ℕ → Client
fanned resp users clients p = if holds p users then deliver resp (clients p) else clients p

module _ (resp : Option Response) where
  after_one : (ℕ → Client) → ℕ → ℕ → Client
  after_one clients p = update clients p (deliver resp (clients p))

  after_one-user_id :
      (clients : ℕ → Client) (p q : ℕ) → (after_one clients p q).user_id ≡ (clients q).user_id
  unfolding after_one
  after_one-user_id clients p q =
      ground (arith, ap (λ (x : ℕ). (clients x).user_id) {x = p} {y = q})

  after_one-closed :
      (clients : ℕ → Client) (p q : ℕ)
      → (after_one clients p q).send.closed ≡ (clients q).send.closed
  unfolding after_one
  after_one-closed clients p q =
      ground (arith, ap (λ (x : ℕ). (clients x).send.closed) {x = p} {y = q})

  after_one-open :
      (clients : ℕ → Client) (p : ℕ) (users : Dict ℕ)
      → All (IsOpenEntry clients) users
      → All (IsOpenEntry (after_one clients p)) users
  after_one-open clients p [] h = tt
  after_one-open clients p ((user, q) ∷ users) h =
      ((rw after_one-user_id h.0.0, rw after_one-closed h.0.1), after_one-open clients p users h.1)

  drops-after_one :
      (clients : ℕ → Client) (p : ℕ) (users : Dict ℕ) (d : ℕ)
      → holds p users ≡ false
      → drops (after_one clients p) users d ≡ drops clients users d
  unfolding drops after_one
  drops-after_one clients p [] d h = refl
  drops-after_one clients p ((user, q) ∷ users) d h =
      ground (arith, drops-after_one clients p users d, drops-after_one clients p users (incr d))

  fanned-after_one :
      (clients : ℕ → Client) (user : String) (p : ℕ) (users : Dict ℕ)
      → holds p users ≡ false
      → fanned resp users (after_one clients p) ≡ fanned resp ((user, p) ∷ users) clients
  unfolding after_one
  fanned-after_one clients user p users h = fun_ext λ q.
      rw (update-at clients (λ x. deliver resp (clients x)) p q) (elim (Bool-cases (eqb p q)) [
        | inl e ↦ rw (e, rw (eqb→eq p q e) at h) refl
        | inr e ↦ rw e refl
      ])

  offer-open :
      (clients : ℕ → Client) (d p : ℕ)
      → (clients p).send.closed ≡ false
      → offer_client (try_send (clients p).send resp) clients d p
        ≡ ok (after_one clients p, if has_room (clients p) then d else incr d)
  unfolding offer_client after_one
  offer-open clients d p h = elim (Bool-cases (has_room (clients p))) [
    | inl roomy ↦ rw (try_send-open (clients p).send resp h, roomy) refl
    | inr tight ↦
        rw (try_send-open (clients p).send resp h, tight)
          (ap (λ (c : ℕ → Client). ok (c, incr d)) (sym (update_same clients p)))
  ]

  -- If no user is listed twice, and each entry leads to a client of that user whose channel is open,
  -- then every client is offered the message once: those with room get it at the end of their queue,
  -- the others are counted, nobody else is touched, and nothing panics.
  pub fan_out_lem :
      (users : Dict ℕ) (clients : ℕ → Client) (d : ℕ)
      → IsMap users
      → All (IsOpenEntry clients) users
      → fan_out resp users clients d ≡ ok (fanned resp users clients, drops clients users d)
  unfolding fan_out drops
  fan_out_lem [] clients d m h = refl
  fan_out_lem ((user, p) ∷ users) clients d m h =
      rw
        (
          offer-open clients d p h.0.1,
          fan_out_lem users (after_one clients p) _ m.1 (after_one-open clients p users h.1),
          drops-after_one clients p users _ absent,
          fanned-after_one clients user p users absent,
        )
        refl
    where
      absent : holds p users ≡ false
      absent = holds_absent clients users p h.1 (rw h.0.0 m.0)
