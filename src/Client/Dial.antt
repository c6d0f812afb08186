-- ===== src/Client/Dial.antt =====
-- client/ws/wsClient.go: the dialing of `NewWsClient`, with its exponential backoff in seconds.
-- `accepts` says which attempts the dialer of the WebSocket library grants.
use chatflow.Prelude.Store.{eqb→eq}
use chatflow.Prelude.{
  eqb, subst, ℕ, zero, suc, ◌+◌, ◌*◌, ◌^◌, ◌<◌, ◌≤◌, ◌≡◌, refl, inl, inr, Bool, true, false, arith,
  if◌then◌else◌, Bool-cases,
}

abbrev pub max_retries : ℕ
max_retries = 5

-- `waited` is the sum of the sleeps.
pub record Dialed : Type 0 where
  pub connected : Bool
  pub retries : ℕ
  pub waited : ℕ

-- The loop with `left` attempts to go.
unfoldable pub dial_from : (ℕ → Bool) → ℕ → ℕ → ℕ → ℕ → Dialed
dial_from accepts zero attempt backoff waited = record {
  connected = false;
  retries = attempt;
  waited = waited;
}
dial_from accepts (suc left) attempt backoff waited =
    let rest = dial_from accepts left (suc attempt) (backoff * 2) (waited + backoff) in
    if accepts attempt
    then record { connected = true; retries = attempt; waited = waited }
    else rest

unfoldable pub dial : (ℕ → Bool) → Dialed
unfolding dial_from
dial accepts = dial_from accepts max_retries 0 1 0

-- What a run of the loop from `first` to `last` comes to.
pub record IsDialing (accepts : ℕ → Bool) (first last : ℕ) (d : Dialed) : Type 0 where
  pub refused : (k : ℕ) → first ≤ k → k < d.retries → accepts k ≡ false
  pub granted : d.connected ≡ true → (accepts d.retries ≡ true) × (d.retries < last)
  pub exhausted : d.connected ≡ false → d.retries ≡ last
  pub backed_off : d.waited + 1 ≡ 2 ^ d.retries

dial_from-IsDialing :
    (accepts : ℕ → Bool) (left attempt backoff waited last : ℕ)
    → left + attempt ≡ last
    → backoff ≡ 2 ^ attempt
    → waited + 1 ≡ 2 ^ attempt
    → IsDialing accepts attempt last (dial_from accepts left attempt backoff waited)
unfolding dial_from
dial_from-IsDialing accepts zero attempt backoff waited last sum power total = record {
  refused = λ k low high. ground arith;
  granted = λ e. cc;
  exhausted = λ e. omega arith;
  backed_off = total;
}
dial_from-IsDialing accepts (suc left) attempt backoff waited last sum power total =
    elim (Bool-cases (accepts attempt)) [
      | inl e ↦ rw e (record {
        refused = λ k low high. ground arith;
        granted = λ c. (e, omega arith);
        exhausted = λ c. cc;
        backed_off = total;
      })
      | inr e ↦
          let rest =
            dial_from-IsDialing accepts left (suc attempt) (backoff * 2) (waited + backoff) last
              (omega arith) (omega arith) (omega arith) in
          rw e (record {
            refused = λ k low high. elim (Bool-cases (eqb attempt k)) [
              | inl same ↦ subst (λ j. accepts j ≡ false) (eqb→eq attempt k same) e
              | inr other ↦ rest.refused k (ground arith) high
            ];
            granted = rest.granted;
            exhausted = rest.exhausted;
            backed_off = rest.backed_off;
          })
    ]

-- The number of retries is the number of attempts that were refused, one after the other: if the
-- dialing succeeds, the attempt after them was granted and is one of the five; if it fails,
-- they are all five. The sleeps sum up to `2 ^ retries - 1` seconds.
pub dial-IsDialing : (accepts : ℕ → Bool) → IsDialing accepts 0 max_retries (dial accepts)
unfolding dial
dial-IsDialing accepts = dial_from-IsDialing accepts max_retries 0 1 0 max_retries refl refl refl
