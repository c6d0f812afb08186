-- ===== src/Generate/Validity.antt =====
-- pkg/generate/generate.go: the messages that are made are well formed for the server.
use Prim.Native.String.{len}
use Prim.Native.String.append.{cons as append_cons}
use Prim.Native.String.len.{cons as len_cons}
use chatflow.Prelude.{
  ℕ, zero, suc, ◌+◌, ◌≤◌, String, ◌≡◌, refl, some, List, [], ◌∷◌, arith, Bool, true, ◌&&◌, leb,
}
use chatflow.Prelude.Int.{pos}
use chatflow.Prelude.Atoi.{atoi}
use chatflow.Prelude.Atoi.Itoa.{atoi-itoa}
use chatflow.Prelude.Seq.{length, All}
use chatflow.Generate.{users_from, new_users}

all_short : ℕ → List String → Bool
all_short bound [] = true
all_short bound (x ∷ xs) = leb (len x) bound && all_short bound xs

-- A text that the server takes for a user's id.
abbrev IsUserId : String → Type 0
IsUserId u = (id : ℕ) × (atoi u ≡ some (pos id)) × (1 ≤ id) × (id ≤ 100000)

users_from-IsUserId :
    (idx n : ℕ)
    → idx + n ≤ 100000
    → All IsUserId (users_from idx n) × (length (users_from idx n) ≡ n)
unfolding users_from
users_from-IsUserId idx zero h = (tt, refl)
users_from-IsUserId idx (suc n) h =
    let (ids, sized) = users_from-IsUserId (suc idx) n (omega arith) in
    (
      ((idx + 1, atoi-itoa (idx + 1) (omega arith), omega arith, omega arith), ids),
      omega (arith, sized),
    )

-- With at most 100000 users asked for, `NewUsers` makes that many, and each id is a number that the
-- server accepts.
new_users-IsUserId :
    (size : ℕ) → size ≤ 100000 → All IsUserId (new_users size) × (length (new_users size) ≡ size)
unfolding new_users
new_users-IsUserId size h = users_from-IsUserId 0 size (omega arith)
