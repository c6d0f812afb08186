-- ===== src/Server/Roster/Index.antt =====
-- The map `UserRooms` as a count of each room among a user's rooms.
use chatflow.Prelude.{
  ◌+◌, ◌-◌, String, ◌≡◌, refl, sym, ap, ◌∙◌, ◌==◌, eq_iff, inl, inr, false, List, [], ◌∷◌, ◌++◌,
  arith, if◌then◌else◌, Bool-cases,
}
use chatflow.Prelude.Dict.{Dict, put, remove, get-put, get-remove}
use chatflow.Server.UserRooms.{rooms_of, contains, erase_first, drop_empty, unindex, index_user}
use chatflow.Server.Roster.{mark, occurrences}

rooms_of-put :
    (index : Dict (List String)) (user u : String) (rooms : List String)
    → rooms_of (put index user rooms) u ≡ (if user == u then rooms else rooms_of index u)
unfolding rooms_of
rooms_of-put index user u rooms = elim (Bool-cases (user == u)) [
  | inl e ↦ rw (get-put index user u rooms, e, rooms_of) refl
  | inr e ↦ rw (get-put index user u rooms, e, rooms_of) refl
]

occurrences-append :
    (r room : String) (xs : List String)
    → occurrences r (xs ++ room ∷ [])
      ≡ (if room == r then occurrences r xs + 1 else occurrences r xs)
unfolding occurrences
occurrences-append r room [] = ground arith
occurrences-append r room (x ∷ xs) = ground (arith, occurrences-append r room xs)

index_user_lem :
    (index : Dict (List String)) (user room : String)
    → index_user index user room ≡ put index user (rooms_of index user ++ room ∷ [])
unfolding index_user
index_user_lem index user room = refl

pub occurrences-index_user :
    (index : Dict (List String)) (user room r u : String)
    → occurrences r (rooms_of (index_user index user room) u)
      ≡ mark
          (λ r u. occurrences r (rooms_of index u))
          room
          user
          (occurrences room (rooms_of index user) + 1)
          r
          u
occurrences-index_user index user room r u =
    rw
      (index_user_lem index user room, rooms_of-put index user u (rooms_of index user ++ room ∷ []))
      (ground
        (arith, eq_iff user u, eq_iff room r, occurrences-append r room (rooms_of index user)))

occurrences-erase_first :
    (r room : String) (xs : List String)
    → occurrences r (erase_first room xs)
      ≡ (if room == r then occurrences r xs - 1 else occurrences r xs)
unfolding occurrences erase_first
occurrences-erase_first r room [] = ground arith
occurrences-erase_first r room (x ∷ xs) =
    ground (arith, occurrences-erase_first r room xs, eq_iff x room, eq_iff x r, eq_iff room r)

occurrences-absent :
    (room : String) (xs : List String) → contains room xs ≡ false → occurrences room xs ≡ 0
unfolding occurrences contains
occurrences-absent room [] h = refl
occurrences-absent room (x ∷ xs) h = ground (arith, occurrences-absent room xs)

rooms_of-remove :
    (index : Dict (List String)) (user u : String)
    → rooms_of (remove index user) u ≡ (if user == u then [] else rooms_of index u)
unfolding rooms_of
rooms_of-remove index user u = elim (Bool-cases (user == u)) [
  | inl e ↦ rw (get-remove index user u, e, rooms_of) refl
  | inr e ↦ rw (get-remove index user u, e, rooms_of) refl
]

rooms_of-drop_empty :
    (index : Dict (List String)) (user u : String) (rooms : List String)
    → rooms_of index user ≡ rooms
    → rooms_of (drop_empty index user rooms) u ≡ rooms_of index u
unfolding drop_empty
rooms_of-drop_empty index user u [] e = elim (Bool-cases (user == u)) [
  | inl same ↦
      rw (rooms_of-remove index user u, same)
        (sym (ap (rooms_of index) (sym ((eq_iff user u).0 same)) ∙ e))
  | inr other ↦ rw (rooms_of-remove index user u, other) refl
]
rooms_of-drop_empty index user u (x ∷ xs) e = refl

erased : Dict (List String) → String → String → Dict (List String)
erased index user room =
    if contains room (rooms_of index user)
    then put index user (erase_first room (rooms_of index user))
    else index

unindex_lem :
    (index : Dict (List String)) (user room : String)
    → unindex index user room
      ≡ drop_empty (erased index user room) user (rooms_of (erased index user room) user)
unfolding unindex erased
unindex_lem index user room = refl

pub occurrences-unindex :
    (index : Dict (List String)) (user room r u : String)
    → occurrences r (rooms_of (unindex index user room) u)
      ≡ mark
          (λ r u. occurrences r (rooms_of index u))
          room
          user
          (occurrences room (rooms_of index user) - 1)
          r
          u
unfolding erased
occurrences-unindex index user room r u =
    rw (unindex_lem index user room, rooms_of-drop_empty (erased index user room) user u _ refl)
      (elim (Bool-cases (contains room (rooms_of index user))) [
        | inl e ↦
            rw (erased, e, rooms_of-put index user u (erase_first room (rooms_of index user)))
              (ground (
                arith,
                eq_iff user u,
                eq_iff room r,
                occurrences-erase_first r room (rooms_of index user),
              ))
        | inr e ↦
            rw (erased, e)
              (ground (
                arith,
                eq_iff user u,
                eq_iff room r,
                occurrences-absent room (rooms_of index user) e,
              ))
      ])
