-- ===== src/Prelude/Chan.antt =====
-- Go's buffered channels: a bounded FIFO that can be closed. A send on a closed channel panics,
-- also in a `select` with a `default` case. The capacities of the program are positive, so a
-- rendezvous on an unbuffered channel is not modelled.
use Prim.Native.Nat.{ℕ, ◌≤◌}
use mathlib.Core.Path.{◌≡◌}
use mathlib.Core.Bool.{Bool, true, false}
use mathlib.Core.List.{List, [], ◌∷◌, ◌++◌}
use native.Mathlib.Omega.{arith}
use chatflow.Prelude.Tests.{ltb, if◌then◌else◌, Bool-cases}
use mathlib.Core.Logic.{◌⊎◌, inl, inr}
use mathlib.Core.Path.{refl}
use Prim.Native.Nat.{◌<◌}
use chatflow.Prelude.Seq.{length, length-append}

-- The head of `queue` is the next value received.
pub record Chan {ℓ} (A : Type ℓ) : Type ℓ where
  pub cap : ℕ
  pub queue : List A
  pub closed : Bool

pub data Offer {ℓ} (A : Type ℓ) : Type ℓ where
  sent : Chan A → Offer A
  full : Offer A
  panicked : Offer A

module _ {ℓ} {A : Type ℓ} where
  -- make(chan A, cap)
  unfoldable pub make : ℕ → Chan A
  make cap = record { cap = cap; queue = []; closed = false }

  abbrev pub push : Chan A → A → Chan A
  push c a = record c { queue = c.queue ++ a ∷ [] }

  -- select { case c <- a: … default: … }
  unfoldable pub try_send : Chan A → A → Offer A
  try_send c a =
      if c.closed then panicked else if ltb (length c.queue) c.cap then sent (push c a) else full

  -- close(c) behind a sync.Once
  unfoldable pub close : Chan A → Chan A
  close c = record c { closed = true }

  abbrev pub IsWithin : Chan A → Type 0
  IsWithin c = length c.queue ≤ c.cap

  -- A send that goes through keeps the buffer within its capacity.
  pub try_send-IsWithin : (c : Chan A) (a : A) {d : Chan A} → try_send c a ≡ sent d → IsWithin d
  unfolding try_send
  try_send-IsWithin c a h = ground (arith, length-append c.queue (a ∷ []))

  pub try_send-open :
      (c : Chan A) (a : A)
      → c.closed ≡ false
      → try_send c a ≡ (if ltb (length c.queue) c.cap then sent (push c a) else full)
  unfolding try_send
  try_send-open c a h = ground arith

  -- A send into an open channel goes through, or finds it full.
  pub try_send-cases :
      (c : Chan A) (a : A)
      → c.closed ≡ false
      → ((try_send c a ≡ sent (push c a)) × (length c.queue < c.cap))
        ⊎ ((try_send c a ≡ full) × (c.cap ≤ length c.queue))
  try_send-cases c a h = elim (Bool-cases (ltb (length c.queue) c.cap)) [
    | inl e ↦ inl (rw (try_send-open c a h, e) refl, ground arith)
    | inr e ↦ inr (rw (try_send-open c a h, e) refl, ground arith)
  ]
