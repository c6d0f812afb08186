-- ===== src/Rabbit/Routing.antt =====
-- internal/rabbitmq/server.go: which messages reach a handler, and the broker interface.
use Prim.Native.Char.{Char}
use Prim.Native.String.{◌++◌}
use Prim.Native.String.append.{nil, cons}
use mathlib.Core.Option.{some-ne-none}
use chatflow.Prelude.{
  Bool, ◌⊎◌, ℕ, zero, suc, ◌≤◌, String, ◌≡◌, ◌≢◌, refl, sym, ◌∙◌, ap, ◌↔◌, eqb, of_eq_false, ◌==◌,
  eq_iff, eq_refl, inl, inr, true, false, Option, none, some, arith, Option-cases, Bool-cases,
}
use chatflow.Prelude.Store.{eqb→eq}
use chatflow.Prelude.Atoi.Itoa.{itoa}
use chatflow.Prelude.Dict.{get, get-put}
use chatflow.Prelude.Chan.{Offer, sent, full, panicked}
use chatflow.Server.{Broker}
use chatflow.Rabbit.{
  PendingMessage, Rabbit, room_consumers, offered, publish, abandon, consume, deliver, slice_from,
  short_id_of,
}

offered-server_id :
    (r : Rabbit) (o : Offer PendingMessage) {r' : Rabbit}
    → offered r o ≡ some r'
    → r'.server_id ≡ r.server_id
unfolding offered
offered-server_id r (sent c) e = cc
offered-server_id r full e = cc
offered-server_id r panicked e = cc

consume-server_id : (r : Rabbit) (room_id : String) → (consume r room_id).0.server_id ≡ r.server_id
unfolding consume
consume-server_id r room_id = elim (Option-cases (get r.consumers ("room." ++ room_id))) [
  | inl e ↦ rw (e, consume) refl
  | inr (c, e) ↦ rw (e, consume) refl
]

-- The broker that server-v2 gives to its chat server.
pub rabbit_broker : Broker Rabbit
unfolding publish abandon
rabbit_broker = record {
  server_id = λ r. r.server_id;
  dropped_messages = λ r. r.dropped_messages;
  publish = publish;
  abandon = abandon;
  consume = consume;
  server_id-publish = λ r room q {r'} e. offered-server_id r _ e;
  server_id-abandon = λ r. refl;
  server_id-consume = consume-server_id;
}

pub rabbit_broker-server_id : (r : Rabbit) → rabbit_broker.server_id r ≡ r.server_id
unfolding rabbit_broker
rabbit_broker-server_id r = refl

-- The text has so many characters.
measures : ℕ → String → Bool
measures zero String.[] = true
measures zero (String.◌∷◌ c p) = false
measures (suc n) String.[] = false
measures (suc n) (String.◌∷◌ c p) = measures n p

slice_from-append : (n : ℕ) (p s : String) → measures n p ≡ true → slice_from n (p ++ s) ≡ s
unfolding slice_from measures
slice_from-append zero String.[] s h = nil s
slice_from-append zero (String.◌∷◌ c p) s h = absurd (of_eq_false refl h)
slice_from-append (suc n) String.[] s h = absurd (of_eq_false refl h)
slice_from-append (suc n) (String.◌∷◌ c p) s h = rw (cons c p s) (slice_from-append n p s h)

short_id_of-room : (room_id : String) → short_id_of ("room." ++ room_id) ≡ room_id
unfolding short_id_of
short_id_of-room room_id = slice_from-append 5 "room." room_id (unfold measures in refl)

deliver-handlers :
    (r : Rabbit) (room_id : String) (lag : Option ℕ)
    → (deliver r ("room." ++ room_id) lag).1 ≡ get r.handlers room_id
unfolding deliver
deliver-handlers r room_id lag = ap (get r.handlers) (short_id_of-room room_id)

disjoint : {A : Type 0} {a : A} → ¬ (none ≡ some a)
disjoint e = cc

eq_false : (a b : String) → a ≢ b → (a == b) ≡ false
eq_false a b h = ground (arith, eq_iff a b)

-- Either the room has a consumer, and `Consume` succeeds and the room's messages go to its handler
-- from then on; or it has none, and `Consume` fails and changes nothing. Another room's messages go
-- where they went before.
pub consume-deliver :
    (r : Rabbit) (room_id other : String) (lag : Option ℕ)
    → room_id ≢ other
    → let c = consume r room_id in
      (((get r.consumers ("room." ++ room_id) ≢ none)
          × (c.1 ≡ true)
          × ((deliver c.0 ("room." ++ room_id) lag).1 ≡ some room_id))
        ⊎ ((get r.consumers ("room." ++ room_id) ≡ none) × (c.1 ≡ false) × (c.0 ≡ r)))
      × ((deliver c.0 ("room." ++ other) lag).1 ≡ (deliver r ("room." ++ other) lag).1)
unfolding consume
consume-deliver r room_id other lag differ =
    elim (Option-cases (get r.consumers ("room." ++ room_id))) [
      | inl e ↦ rw (e, consume) (inr (refl, refl, refl), refl)
      | inr (c, e) ↦
          rw (e, consume)
            (
              inl (
                some-ne-none c,
                refl,
                deliver-handlers _ room_id lag
                    ∙ get-put r.handlers room_id room_id room_id
                    ∙ rw (eq_refl room_id) refl,
              ),
              deliver-handlers _ other lag
                  ∙ get-put r.handlers room_id other room_id
                  ∙ rw (eq_false room_id other differ) (sym (deliver-handlers r other lag)),
            )
    ]

tail_eq : {c : Char} {s t : String} → String.◌∷◌ c s ≡ String.◌∷◌ c t → s ≡ t
tail_eq e = cc

push_cancel : (p s t : String) → p ++ s ≡ p ++ t → s ≡ t
push_cancel String.[] s t e = sym (nil s) ∙ e ∙ nil t
push_cancel (String.◌∷◌ c p) s t e = push_cancel p s t (tail_eq (sym (cons c p s) ∙ e ∙ cons c p t))

not_last :
    (n : ℕ) (room_id : String) (r : ℕ)
    → ("room." ++ itoa (suc n) == "room." ++ room_id) ≡ false
    → r ≤ suc n
    → room_id ≡ itoa r
    → r ≤ n
not_last n room_id r e high same = elim (Bool-cases (eqb r (suc n))) [
  | inl last ↦ absurd (
      of_eq_false e (
        (eq_iff _ _).1 (ap (λ x. "room." ++ x) (ap itoa (sym (eqb→eq r (suc n) last)) ∙ sym same))))
  | inr other ↦ ground arith
]

-- The consumers after the start are those of the rooms "1" to the room count, and no others.
pub room_consumers_lem :
    (n : ℕ) (room_id : String)
    → (get (room_consumers n) ("room." ++ room_id) ≢ none)
      ↔ ((r : ℕ) × (1 ≤ r) × (r ≤ n) × (room_id ≡ itoa r))
unfolding room_consumers
room_consumers_lem zero room_id =
    (λ found. absurd (found (unfold get in refl)), λ (r, low, high, e). absurd (omega arith))
room_consumers_lem (suc n) room_id =
    elim (Bool-cases ("room." ++ itoa (suc n) == "room." ++ room_id)) [
      | inl e ↦
          let same = push_cancel "room." (itoa (suc n)) room_id ((eq_iff _ _).0 e) in
          let here : get (room_consumers (suc n)) ("room." ++ room_id) ≡ some (itoa (suc n)) =
            get-put (room_consumers n) _ _ (itoa (suc n)) ∙ rw e refl in
          (
            λ found. (suc n, omega arith, omega arith, sym same),
            λ _ gone. disjoint (sym gone ∙ here),
          )
      | inr e ↦
          let below : get (room_consumers (suc n)) ("room." ++ room_id)
              ≡ get (room_consumers n) ("room." ++ room_id) =
            get-put (room_consumers n) _ _ (itoa (suc n)) ∙ rw e refl in
          (
            λ found.
                let (r, low, high, same) =
                  (room_consumers_lem n room_id).0 (λ gone. found (below ∙ gone)) in
                (r, low, omega arith, same),
            λ (r, low, high, same) gone.
                (room_consumers_lem n room_id).1 (r, low, not_last n room_id r e high same, same)
                  (sym below ∙ gone),
          )
    ]
