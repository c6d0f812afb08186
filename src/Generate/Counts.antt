-- ===== src/Generate/Counts.antt =====
-- pkg/generate/generate.go: how many messages are made.
use native.Mathlib.Nat.{div-add-mod, mod-lt, mul-add-div}
use chatflow.Prelude.{ℕ, zero, suc, ◌+◌, ◌-◌, ◌*◌, ◌/◌, ◌%◌, ◌≤◌, ◌<◌, String, ◌≡◌, List, arith}
use chatflow.Prelude.Seq.{length}
use chatflow.Models.{Message}
use chatflow.Generate.{num_sessions, text_per_session, texts, sessions, new_session_messages}

length-texts :
    (draw : ℕ → ℕ) (id : String) (i n : ℕ) (rest : List Message)
    → length (texts draw id i n rest) ≡ n + length rest
unfolding texts
length-texts draw id i zero rest = omega arith
length-texts draw id i (suc n) rest = omega (arith, length-texts draw id (suc i) n rest)

length-sessions :
    (now : ℕ → String) (draw : ℕ → ℕ) (id : String) (n k left : ℕ)
    → length (sessions now draw id n k left) ≡ left * (n + 2)
unfolding sessions
length-sessions now draw id n k zero = omega arith
length-sessions now draw id n k (suc left) =
    grind (arith, length-sessions now draw id n (suc k) left, length-texts)

sessions-positive : (count : ℕ) → 1 ≤ num_sessions count
unfolding num_sessions
sessions-positive count = ground arith

sessions-few : (count : ℕ) → 2 ≤ count → 2 * num_sessions count ≤ count
unfolding num_sessions
sessions-few count h = ground arith

-- The division leaves less than one session's worth.
division : (a s : ℕ) → 1 ≤ s → (s * (a / s) ≤ a) × (a < s * (a / s) + s)
division a s h = (omega (arith, div-add-mod a s), omega (arith, div-add-mod a s, mod-lt a h))

text_division :
    (count : ℕ)
    → let s = num_sessions count in
      let n = text_per_session count in (s * n ≤ count - 2 * s) × (count - 2 * s < s * n + s)
unfolding text_per_session
text_division count = division _ (num_sessions count) (sessions-positive count)

between :
    (made s n count : ℕ)
    → made ≡ s * (n + 2)
    → s * n ≤ count - 2 * s
    → count - 2 * s < s * n + s
    → 2 * s ≤ count
    → (made ≤ count) × (count < made + s)
between made s n count e low high few = (grind arith, grind arith)

-- As many messages as the slice was made for: with at least two asked for, no more than that, and
-- fewer by less than the number of sessions.
pub length-new_session_messages :
    (now : ℕ → String) (draw : ℕ → ℕ) (id : String) (count : ℕ)
    → 2 ≤ count
    → let made = length (new_session_messages now draw id count) in
      (made ≡ num_sessions count * (text_per_session count + 2))
      × (made ≤ count)
      × (count < made + num_sessions count)
unfolding new_session_messages
length-new_session_messages now draw id count h =
    let made = length-sessions now draw id (text_per_session count) 0 (num_sessions count) in
    let (low, high) = text_division count in
    let (at_most, at_least) =
      between _ (num_sessions count) (text_per_session count) count made low high
        (sessions-few count h) in
    (made, at_most, at_least)

num_sessions-twenty : (count : ℕ) → 20 ≤ count → num_sessions count ≡ count / 20
unfolding num_sessions
num_sessions-twenty count h = ground arith

-- With at least twenty messages asked for, there is a session for every twenty, and a session has
-- eighteen texts and its share of the remainder of the division by twenty.
text_per_session_lem :
    (count : ℕ)
    → 20 ≤ count
    → (num_sessions count ≡ count / 20) × (text_per_session count ≡ 18 + count % 20 / (count / 20))
unfolding text_per_session
text_per_session_lem count h =
    let q = count / 20 in
    let some_session : 0 < q = omega arith in
    let split : count - 2 * q ≡ q * 18 + count % 20 = omega arith in
    (
      num_sessions-twenty count h,
      rw (num_sessions-twenty count h, split) (mul-add-div some_session 18 (count % 20)),
    )
