-- ===== src/Client/FanOut/Leaks.antt =====
-- client/fanout.go: what is counted, and which connections stay in the pool.
use chatflow.Prelude.{
  ℕ, zero, suc, ◌+◌, ◌%◌, ◌^◌, String, ◌≡◌, refl, ap, Bool, true, false, Option, none, some, List,
  [], ◌∷◌, arith, if◌then◌else◌, Option-cases, Bool-cases, inl, inr,
}
use chatflow.Prelude.Store.{incr}
use chatflow.Prelude.Seq.{length, length-append}
use chatflow.Models.{Message}
use chatflow.Generate.{new_join_message}
use chatflow.Client.FanOut.{FanRun, fan_write, fan_texts, fan_stay, fan_room, fan_rooms}

-- The writes of a room: all of them, or the JOIN alone.
abbrev pub attempts_of : Bool → ℕ → ℕ
attempts_of true message_count = message_count + 2
attempts_of false message_count = 1

-- As many writes were counted, each as a success or as a failure, and the wire has the successes.
record Counted (n : ℕ) (s t : FanRun) : Type 0 where
  all_counted :
      (t.successful_messages + t.failed_messages) % 2 ^ 64
      ≡ (s.successful_messages + s.failed_messages + n) % 2 ^ 64
  on_wire :
      (s.successful_messages + length t.wire) % 2 ^ 64
      ≡ (t.successful_messages + length s.wire) % 2 ^ 64

Counted-trans :
    (m n k : ℕ) (s t u : FanRun) → k ≡ m + n → Counted m s t → Counted n t u → Counted k s u
Counted-trans m n k s t u e a b = record {
  all_counted = omega (arith, e, a.all_counted, b.all_counted);
  on_wire = omega (arith, a.on_wire, b.on_wire);
}

fan_write-Counted : (b : Bool) (m : Message) (s : FanRun) → Counted 1 s (fan_write b m s)
unfolding fan_write incr
fan_write-Counted true m s = record {
  all_counted = omega arith;
  on_wire = omega (arith, length-append s.wire (m ∷ []));
}
fan_write-Counted false m s = record { all_counted = omega arith; on_wire = omega arith }

fan_write-held : (b : Bool) (m : Message) (s : FanRun) → (fan_write b m s).held ≡ s.held
unfolding fan_write
fan_write-held true m s = refl
fan_write-held false m s = refl

module _ (accepts : ℕ → Bool) (now : ℕ → String) (draw : ℕ → ℕ) (id : String) where
  fan_texts-Counted : (i n : ℕ) (s : FanRun) → Counted n s (fan_texts accepts now draw id i n s)
  unfolding fan_texts
  fan_texts-Counted i zero s = record { all_counted = omega arith; on_wire = refl }
  fan_texts-Counted i (suc n) s =
      Counted-trans 1 n (suc n) s _ _ (omega arith) (fan_write-Counted (accepts (suc i)) _ s)
        (fan_texts-Counted (suc i) n _)

  fan_stay-Counted :
      (room_id : String) (n : ℕ) (held : List ℕ) (s : FanRun)
      → Counted (n + 1) s (fan_stay accepts now draw id room_id n held s)
  unfolding fan_stay
  fan_stay-Counted room_id n held s =
      let c =
        Counted-trans n 1 (n + 1) s _ _ refl (fan_texts-Counted 0 n s)
          (fan_write-Counted (accepts (suc n)) _ _) in
      record { all_counted = c.all_counted; on_wire = c.on_wire }

  -- If the JOIN goes out, all the writes of the room are counted and the connection is given back;
  -- if not, one failure is counted and the connection stays in the pool.
  pub fan_room-counts :
      (room_id : String) (n conn : ℕ) (s : FanRun)
      → let t = fan_room accepts now draw id room_id n conn s in
        ((t.successful_messages + t.failed_messages) % 2 ^ 64
          ≡ (s.successful_messages + s.failed_messages + attempts_of (accepts 0) n) % 2 ^ 64)
        × ((s.successful_messages + length t.wire) % 2 ^ 64
            ≡ (t.successful_messages + length s.wire) % 2 ^ 64)
        × (t.held ≡ (if accepts 0 then s.held else conn ∷ s.held))
  unfolding fan_room
  fan_room-counts room_id n conn s =
      let connected : FanRun = record s { held = conn ∷ s.held } in
      let join = new_join_message (now 0) id room_id in
      elim (Bool-cases (accepts 0)) [
        | inl e ↦
            let c =
              Counted-trans 1 (n + 1) (n + 2) connected _ _ (omega arith)
                (fan_write-Counted true join connected)
                (fan_stay-Counted room_id n s.held (fan_write true join connected)) in
            rw (e, fan_room) (c.all_counted, c.on_wire, unfold fan_stay in refl)
        | inr e ↦
            let c = fan_write-Counted false join connected in
            rw (e, fan_room) (c.all_counted, c.on_wire, fan_write-held false join connected)
      ]

abbrev pub failing : Option ℕ → Bool → ℕ
failing none joined = 0
failing (some conn) joined = if joined then 0 else 1

abbrev pub attempts : ℕ → Option ℕ → Bool → ℕ
attempts n none joined = 0
attempts n (some conn) joined = attempts_of joined n

length-held :
    (joined : Bool) (conn : ℕ) (held : List ℕ)
    → length (if joined then held else conn ∷ held) ≡ length held + failing (some conn) joined
length-held true conn held = omega arith
length-held false conn held = omega arith

module _ (connect : String → Option ℕ) (accepts : String → ℕ → Bool) (now : String → ℕ → String)
    (draw : String → ℕ → ℕ) (id : String) where
  -- The rooms that were connected to and whose JOIN did not go out.
  abbrev pub failed_joins : List String → ℕ
  failed_joins [] = 0
  failed_joins (r ∷ rooms) = failed_joins rooms + failing (connect r) (accepts r 0)

  -- The writes to the rooms that were connected to.
  abbrev pub all_attempts : ℕ → List String → ℕ
  all_attempts n [] = 0
  all_attempts n (r ∷ rooms) = all_attempts n rooms + attempts n (connect r) (accepts r 0)

  -- Every write of a user is counted once, modulo 2^64, as a success or a failure; and for every
  -- room whose JOIN fails after its connection was made, the user leaves that connection in the
  -- pool.
  pub fan_rooms-leaks :
      (n : ℕ) (rooms : List String) (s : FanRun)
      → let t = fan_rooms connect accepts now draw id n rooms s in
        ((t.successful_messages + t.failed_messages) % 2 ^ 64
          ≡ (s.successful_messages + s.failed_messages + all_attempts n rooms) % 2 ^ 64)
        × (length t.held ≡ length s.held + failed_joins rooms)
  unfolding fan_rooms
  fan_rooms-leaks n [] s = (omega arith, omega arith)
  fan_rooms-leaks n (r ∷ rooms) s = elim (Option-cases (connect r)) [
    | inl e ↦
        let (counted, held) = fan_rooms-leaks n rooms s in
        rw (fan_rooms, e) (omega (arith, counted), omega (arith, held))
    | inr (conn, e) ↦
        let s' = fan_room (accepts r) (now r) (draw r) id r n conn s in
        let (counted, held) = fan_rooms-leaks n rooms s' in
        let (c, w, h) = fan_room-counts (accepts r) (now r) (draw r) id r n conn s in
        rw (fan_rooms, e)
          (
            omega (arith, counted, c),
            omega (arith, held, ap length h, length-held (accepts r 0) conn s.held),
          )
  ]
