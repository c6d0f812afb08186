-- ===== src/Server/Metrics/Consistency.antt =====
-- internal/server/metricsHandler.go: the parts of the answer, and the moments they tell of.
use mathlib.Core.Option.{some-ne-none}
use chatflow.Prelude.{
  Bool-cases, subst, ℕ, ◌+◌, String, ◌≡◌, refl, sym, ◌∙◌, ap, ◌==◌, eq_iff, inl, inr, false, Option,
  none, some, List, [], ◌∷◌, arith, Option-cases,
}
use chatflow.Prelude.Int.{ℤ}
use chatflow.Prelude.Dict.{Dict, IsMap, keys, get, put, get-put, remove_absent}
use chatflow.Prelude.Seq.{length}
use chatflow.Server.{Room, Server, Broker}
use chatflow.Server.UserRooms.{rooms_of}
use chatflow.Server.Invariant.{Inv}
use chatflow.Server.System.{System, Reach, boot}
use chatflow.Server.System.Safety.{Reach-SystemInv, boot-SystemInv}
use chatflow.Server.Roster.{occurrences, roster_of, is_some, present_in}
use chatflow.Server.Roster.Agreement.{listed_once, ones}
use chatflow.Server.Metrics.{
  RoomMetrics, room_metrics, collect_rooms, copy_sessions, metrics_handler,
}

copy_sessions_lem : (d : Dict (List String)) (u : String) → get (copy_sessions d) u ≡ get d u
unfolding copy_sessions get
copy_sessions_lem [] u = refl
copy_sessions_lem ((uid, rooms) ∷ d) u =
    rw (get-put (copy_sessions d) uid u rooms, copy_sessions_lem d u) refl

rooms_of-copy_sessions :
    (d : Dict (List String)) (u : String) → rooms_of (copy_sessions d) u ≡ rooms_of d u
unfolding rooms_of
rooms_of-copy_sessions d u = rw (copy_sessions_lem d u, rooms_of) refl

-- What /metrics says of a room.
abbrev pub reported : Option Room → Option RoomMetrics
reported none = none
reported (some room) = some (room_metrics room)

module _ {R : Type 0} (now : String → Server R) where
  collect_rooms-skips :
      (id : String) (old : Room) (d : Dict Room)
      → get ((now id).rooms) id ≡ none
      → collect_rooms now ((id, old) ∷ d) ≡ collect_rooms now d
  unfolding collect_rooms
  collect_rooms-skips id old d e = rw (collect_rooms, e) refl

  collect_rooms-takes :
      (id : String) (old room : Room) (d : Dict Room)
      → get ((now id).rooms) id ≡ some room
      → collect_rooms now ((id, old) ∷ d) ≡ (
        put (collect_rooms now d).0 id (room_metrics room),
        (collect_rooms now d).1 + length (keys room.users),
      )
  unfolding collect_rooms
  collect_rooms-takes id old room d e = rw (collect_rooms, e) refl

  -- Another room adds nothing to what is reported of a room.
  collect_rooms-other :
      (id : String) (old : Room) (d : Dict Room) (r : String)
      → (id == r) ≡ false
      → get (collect_rooms now ((id, old) ∷ d)).0 r ≡ get (collect_rooms now d).0 r
  collect_rooms-other id old d r differ = elim (Option-cases (get ((now id).rooms) id)) [
    | inl e ↦ rw (collect_rooms-skips id old d e) refl
    | inr (room, e) ↦
        rw
          (
            collect_rooms-takes id old room d e,
            get-put (collect_rooms now d).0 id r (room_metrics room),
            differ,
          )
          refl
  ]

  collect_rooms-absent :
      (d : Dict Room) (r : String) → get d r ≡ none → get (collect_rooms now d).0 r ≡ none
  unfolding collect_rooms get
  collect_rooms-absent [] r absent = refl
  collect_rooms-absent ((id, old) ∷ d) r absent = elim (Bool-cases (id == r)) [
    | inl e ↦ absurd (some-ne-none old (rw e at absent))
    | inr e ↦ collect_rooms-other id old d r e ∙ collect_rooms-absent d r (rw e at absent)
  ]

  collect_rooms_lem :
      (d : Dict Room) (r : String) (old : Room)
      → IsMap d
      → get d r ≡ some old
      → get (collect_rooms now d).0 r ≡ reported (get ((now r).rooms) r)
  unfolding get
  collect_rooms_lem [] r old m there = cc
  collect_rooms_lem ((id, other) ∷ d) r old m there = elim (Bool-cases (id == r)) [
    | inl e ↦
        let same = (eq_iff id r).0 e in
        elim (Option-cases (get ((now id).rooms) id)) [
          | inl gone ↦
              ap (λ c. get c.0 r) (collect_rooms-skips id other d gone)
              ∙ collect_rooms-absent d r (subst (λ k. get d k ≡ none) same m.0)
              ∙ sym (ap reported (subst (λ k. get ((now k).rooms) k ≡ none) same gone))
          | inr (room, found) ↦
              rw
                (
                  collect_rooms-takes id other room d found,
                  get-put (collect_rooms now d).0 id r (room_metrics room),
                  e,
                )
                (sym (ap reported (subst (λ k. get ((now k).rooms) k ≡ some room) same found)))
        ]
    | inr e ↦ collect_rooms-other id other d r e ∙ collect_rooms_lem d r old m.1 (rw e at there)
  ]

occurrences-keys :
    {V : Type 0} (d : Dict V) (k : String)
    → IsMap d
    → occurrences k (keys d) ≡ ones (is_some (get d k))
unfolding occurrences ones is_some get
occurrences-keys [] k m = refl
occurrences-keys ((j, v) ∷ d) k m = ground (arith, occurrences-keys d k m.1, eq_iff j k, m.0)

-- The users that /metrics reports in a room.
abbrev pub users_of : Option RoomMetrics → List String
users_of none = []
users_of (some room) = room.users

abbrev pub users_in : Dict RoomMetrics → String → List String
users_in rooms r = users_of (get rooms r)

-- The users that it reports in all rooms together.
unfoldable pub all_users : Dict RoomMetrics → ℕ
all_users [] = 0
all_users ((id, room) ∷ d) = all_users d + length room.users

all_users-put :
    (d : Dict RoomMetrics) (id : String) (room : RoomMetrics)
    → get d id ≡ none
    → all_users (put d id room) ≡ all_users d + length room.users
unfolding all_users put
all_users-put d id room absent = rw (remove_absent d id absent) refl

all_users-collect_rooms :
    {R : Type 0} (now : String → Server R) (d : Dict Room)
    → IsMap d
    → all_users (collect_rooms now d).0 ≡ (collect_rooms now d).1
unfolding all_users collect_rooms
all_users-collect_rooms now [] m = refl
all_users-collect_rooms now ((id, old) ∷ d) m = elim (Option-cases (get ((now id).rooms) id)) [
  | inl e ↦ rw (collect_rooms-skips now id old d e) (all_users-collect_rooms now d m.1)
  | inr (room, e) ↦ rw (collect_rooms-takes now id old room d e) (
      all_users-put (collect_rooms now d).0 id (room_metrics room)
        (collect_rooms-absent now d id m.0)
      ∙ ap (λ n. n + length (keys room.users)) (all_users-collect_rooms now d m.1))
]

users_reported :
    {R : Type 0} (s : Server R) (room user : String)
    → Inv s
    → occurrences user (users_of (reported (get s.rooms room)))
      ≡ ones ((roster_of s).present room user)
unfolding present_in
users_reported s room user i = elim (Option-cases (get s.rooms room)) [
  | inl e ↦ rw e (unfold occurrences ones in refl)
  | inr (found, e) ↦ rw e (occurrences-keys found.users user (i.rooms_inv room found e).distinct)
]

-- The handler reads the rooms, one after the other, and the sessions in states that some
-- interleaving leads to. Then /metrics counts as connections the users that it reports in its rooms.
-- Of a room that was there at the start it reports a user once if the user was in the room when
-- the room was read, and else not; and it lists the room in the user's sessions once if the user was
-- in the room when the sessions were read, and once more if the removal was then under way.
pub metrics_handler-consistent :
    {R : Type 0} (b : Broker R) (parse_time : String → Option ℤ) (id : String) (buffer_size : ℕ)
    (rabbit : Option R) (max_rooms : ℕ) (w : System R) (now : String → System R)
    (listing counting : System R) (room user : String) (old : Room)
    → Reach b parse_time (boot id buffer_size rabbit max_rooms) w
    → Reach b parse_time (boot id buffer_size rabbit max_rooms) (now room)
    → Reach b parse_time (boot id buffer_size rabbit max_rooms) listing
    → (let s = w.server in get s.rooms room) ≡ some old
    → let m = metrics_handler b w.server (λ k. (now k).server) listing.server counting.server in
      (m.total_connections ≡ all_users m.rooms)
      × (occurrences user (users_in m.rooms room)
          ≡ ones ((roster_of (now room).server).present room user))
      × (occurrences room (rooms_of m.user_sessions user)
          ≡ ones ((roster_of listing.server).present room user)
            + ones ((roster_of listing.server).leaving room user))
unfolding metrics_handler
metrics_handler-consistent b parse_time id buffer_size rabbit max_rooms w now listing counting room
      user old reach reach_now reach_listing there =
    let first = boot-SystemInv b parse_time id buffer_size rabbit max_rooms in
    let distinct = (Reach-SystemInv b parse_time first reach).server_inv.distinct_rooms in
    let inv_now = (Reach-SystemInv b parse_time first reach_now).server_inv in
    let s = w.server in
    (
      sym (all_users-collect_rooms (λ k. (now k).server) s.rooms distinct),
      rw (collect_rooms_lem (λ k. (now k).server) s.rooms room old distinct there)
          (users_reported (now room).server room user inv_now),
      rw (rooms_of-copy_sessions listing.server.user_rooms user) (
          listed_once b parse_time id buffer_size rabbit max_rooms listing room user reach_listing),
    )
