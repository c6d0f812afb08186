-- ===== src/Prelude/Store.antt =====
-- Objects behind pointers: a store of values by address, and int64 counters.
use Prim.Native.Nat.{ℕ, ◌+◌, ◌%◌, ◌^◌, ◌<◌}
use mathlib.Core.Bool.{true, false}
use mathlib.Core.Logic.{inl, inr}
use mathlib.Core.Path.{◌≡◌, refl, fun_ext}
use native.Mathlib.Omega.{arith}
use chatflow.Prelude.Tests.{eqb, if◌then◌else◌, Bool-cases}

-- One write through a pointer.
abbrev pub update {ℓ} : {A : Type ℓ} → (ℕ → A) → ℕ → A → ℕ → A
update store p a q = if eqb p q then a else store q

-- atomic.Int64.Add(1), on the bit pattern of the counter.
abbrev pub int64_mod : ℕ
int64_mod = 2 ^ 64

unfoldable pub incr : ℕ → ℕ
incr n = (n + 1) % int64_mod

pub eqb→eq : (p q : ℕ) → eqb p q ≡ true → p ≡ q
eqb→eq p q h = ground arith

pub eqb_refl : (p : ℕ) → eqb p p ≡ true
eqb_refl p = ground arith

pub eqb_of_lt : {p n : ℕ} → p < n → eqb n p ≡ false
eqb_of_lt h = ground arith

module _ {ℓ} {A : Type ℓ} where
  -- What is read after a write, with the value given at the address that is read.
  pub update-at :
      (store f : ℕ → A) (p q : ℕ) → update store p (f p) q ≡ (if eqb p q then f q else store q)
  update-at store f p q = elim (Bool-cases (eqb p q)) [
    | inl e ↦ rw (e, eqb→eq p q e) refl
    | inr e ↦ rw e refl
  ]

  -- Writing back what was there changes nothing.
  pub update_same : (store : ℕ → A) (p : ℕ) → update store p (store p) ≡ store
  update_same store p =
      fun_ext
        λ q. elim (Bool-cases (eqb p q)) [ inl e ↦ rw (e, eqb→eq p q e) refl | inr e ↦ rw e refl ]
