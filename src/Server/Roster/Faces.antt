-- ===== src/Server/Roster/Faces.antt =====
-- How the roster changes with one room.
use chatflow.Prelude.{
  ℕ, String, ◌≡◌, refl, sym, ap, ◌∙◌, fun_ext, ◌==◌, eq_iff, inl, inr, Bool, Option, none, some,
  if◌then◌else◌, Bool-cases,
}
use chatflow.Prelude.Dict.{Dict, get, put, get-put}
use chatflow.Server.{Room, Loop}
use chatflow.Server.Roster.{Roster, mark, face}

pub roster_path :
    {a b : Roster} → a.present ≡ b.present → a.leaving ≡ b.leaving → a.listed ≡ b.listed → a ≡ b
roster_path p l n i = record { present = p i; leaving = l i; listed = n i }

module _ (rooms : Dict Room) (id : String) (room room' : Room)
    (found : get rooms id ≡ some room) where
  pub faces_same :
      room'.users ≡ room.users
      → room'.loop ≡ room.loop
      → ◌≡◌ {A = String → Option (Dict ℕ × Loop)}
          (λ r. face (get (put rooms id room') r))
          (λ r. face (get rooms r))
  faces_same users loop = fun_ext λ r. elim (Bool-cases (id == r)) [
    | inl e ↦
        rw (get-put rooms id r room', e, users, loop)
          (ap face (sym found ∙ ap (get rooms) ((eq_iff id r).0 e)))
    | inr e ↦ rw (get-put rooms id r room', e) refl
  ]

  module _ (g : Option (Dict ℕ × Loop) → String → Bool) where
    pub faces_marked :
        (user : String) (b : Bool)
        → ((u : String)
            → g (some (room'.users, room'.loop)) u
              ≡ (if user == u then b else g (some (room.users, room.loop)) u))
        → (λ r u. g (face (get (put rooms id room') r)) u)
          ≡ mark (λ r u. g (face (get rooms r)) u) id user b
    faces_marked user b h = fun_ext λ r. fun_ext λ u. elim (Bool-cases (id == r)) [
      | inl e ↦
          rw (get-put rooms id r room', e, h u)
            (ap (λ o. if user == u then b else g (face o) u)
              (sym found ∙ ap (get rooms) ((eq_iff id r).0 e)))
      | inr e ↦ rw (get-put rooms id r room', e) refl
    ]

    pub faces_unmarked :
        ((u : String) → g (some (room'.users, room'.loop)) u ≡ g (some (room.users, room.loop)) u)
        → ◌≡◌ {A = String → String → Bool}
            (λ r u. g (face (get (put rooms id room') r)) u)
            (λ r u. g (face (get rooms r)) u)
    faces_unmarked h = fun_ext λ r. fun_ext λ u. elim (Bool-cases (id == r)) [
      | inl e ↦
          rw (get-put rooms id r room', e, h u)
            (ap (λ o. g (face o) u) (sym found ∙ ap (get rooms) ((eq_iff id r).0 e)))
      | inr e ↦ rw (get-put rooms id r room', e) refl
    ]

-- A room that comes without users, and whose loop runs, is as good as none.
pub faces_fresh :
    (rooms : Dict Room) (id : String) (room : Room) (g : Option (Dict ℕ × Loop) → String → Bool)
    → get rooms id ≡ none
    → ((u : String) → g (some (room.users, room.loop)) u ≡ g none u)
    → ◌≡◌ {A = String → String → Bool}
        (λ r u. g (face (get (put rooms id room) r)) u)
        (λ r u. g (face (get rooms r)) u)
faces_fresh rooms id room g absent h = fun_ext λ r. fun_ext λ u. elim (Bool-cases (id == r)) [
  | inl e ↦
      rw (get-put rooms id r room, e, h u)
        (ap (λ o. g (face o) u) (sym absent ∙ ap (get rooms) ((eq_iff id r).0 e)))
  | inr e ↦ rw (get-put rooms id r room, e) refl
]
