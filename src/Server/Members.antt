-- ===== src/Server/Members.antt =====
-- Who is in which room, and how `AddUserToRoom` and `RemoveUserFromRoom` change it.
use chatflow.Prelude.{
  ℕ, ◌+◌, String, ◌≡◌, ◌≢◌, refl, sym, ap, ◌∙◌, ◌==◌, eq_iff, ◌⊎◌, inl, inr, false, Option, none,
  some, arith, Option-cases, Bool-cases,
}
use mathlib.Core.Option.{some-ne-none}
use chatflow.Prelude.Dict.{get, put, remove, get-put, get-remove, get-put_self, get-remove_self}
use chatflow.Prelude.Store.{update}
use chatflow.Server.UserRooms.{index_user}
use chatflow.Server.{
  new_client, Room, Server, Broker, ok, err, user_exists, no_such_room, no_such_user,
}
use chatflow.Server.Invariant.Joins.{get-add_new_room}
use chatflow.Server.Rooms.{
  add_new_room, register, add_user_to_room, remove_user_from_room, close_send,
  remove_from_user_rooms,
}

entry_of : Option Room → String → Option ℕ
entry_of none user = none
entry_of (some room) user = get room.users user

-- The client of a user in a room.
pub member : {R : Type 0} → Server R → String → String → Option ℕ
unfolding entry_of
member s room_id user = entry_of (get s.rooms room_id) user

-- The memberships of `t` are those of `s`, but for one user in one room, which has the value `o`.
pub record MemberSet {R : Type 0} (s t : Server R) (room_id user : String) (o : Option ℕ)
    : Type 0 where
  pub here : member t room_id user ≡ o
  pub elsewhere :
      (other_room other_user : String)
      → (room_id ≢ other_room) ⊎ (user ≢ other_user)
      → member t other_room other_user ≡ member s other_room other_user

ne_false : (j k : String) → j ≢ k → (j == k) ≡ false
ne_false j k h = ground (arith, eq_iff j k)

module _ {R : Type 0} where
  -- One room is written back with other users.
  put_users :
      (s t : Server R) (room_id user : String) (room room' : Room) (o : Option ℕ)
      → ((u : String) → entry_of (get s.rooms room_id) u ≡ get room.users u)
      → t.rooms ≡ put s.rooms room_id room'
      → get room'.users user ≡ o
      → ((u : String) → user ≢ u → get room'.users u ≡ get room.users u)
      → MemberSet s t room_id user o
  unfolding member
  put_users s t room_id user room room' o found e at others = record {
    here = rw (e, get-put_self) (unfold entry_of in at);
    elsewhere = λ r u ne.
        rw (e, get-put)
          (elim (Bool-cases (room_id == r)) [
            | inl same ↦
                let at_room : room_id ≡ r = (eq_iff room_id r).0 same in
                rw same (
                  unfold entry_of in
                  others u (other_user at_room ne)
                  ∙ sym (found u)
                  ∙ ap (λ i. entry_of (get s.rooms i) u) at_room)
            | inr differ ↦ rw differ refl
          ]);
  }
    where
      other_user : {r u : String} → room_id ≡ r → (room_id ≢ r) ⊎ (user ≢ u) → user ≢ u
      other_user same (inl differ) = absurd (differ same)
      other_user same (inr differ) = differ

  entry_found :
      (s : Server R) (room_id : String) (room : Room)
      → get s.rooms room_id ≡ some room
      → (u : String) → entry_of (get s.rooms room_id) u ≡ get room.users u
  unfolding entry_of
  entry_found s room_id room e u = rw e refl

  -- What `RemoveUserFromRoom` leaves behind.
  abbrev without : Server R → String → Room → String → ℕ → Server R
  without s room_id room user p =
      let s' = close_send s p in
      let s'' = record s' {
        rooms = put s'.rooms room_id (record room { users = remove room.users user });
      } in
      remove_from_user_rooms s'' user room_id

  remove_user_from_room_answers :
      (s : Server R) (user room_id : String)
      → ((member s room_id user ≢ none)
          → (t : Server R) × (remove_user_from_room s user room_id ≡ ok t)
            × MemberSet s t room_id user none)
        × (member s room_id user ≡ none
            → (remove_user_from_room s user room_id ≡ err (no_such_room room_id))
              ⊎ (remove_user_from_room s user room_id ≡ err (no_such_user user room_id)))
  unfolding remove_user_from_room
  remove_user_from_room_answers s user room_id = elim (Option-cases (get s.rooms room_id)) [
    | inl e ↦ (
      λ there. absurd (there (unfold member in rw (e, entry_of) refl)),
      λ gone. inl (rw (e, remove_user_from_room) refl),
    )
    | inr (room, e) ↦ elim (Option-cases (get room.users user)) [
      | inl f ↦ (
        λ there. absurd (there (unfold member in entry_found s room_id room e user ∙ f)),
        λ gone. inr (rw (e, remove_user_from_room, f) refl),
      )
      | inr (p, f) ↦ (
        λ there. (
          without s room_id room user p,
          rw (e, remove_user_from_room, f) refl,
          unfold remove_from_user_rooms close_send in
              put_users s (without s room_id room user p) room_id user room
                (record room { users = remove room.users user }) none (entry_found s room_id room e)
                refl (get-remove_self room.users user)
                (λ u ne. get-remove room.users user u ∙ rw (ne_false user u ne) refl),
        ),
        λ gone. absurd (
            some-ne-none p (sym (entry_found s room_id room e user ∙ f) ∙ (unfold member in gone))),
      )
    ]
  ]

  -- What `AddUserToRoom` leaves behind, once the room is there.
  abbrev with_user : Server R → String → Room → String → ℕ → Server R
  with_user s room_id room user conn = record s {
    clients = update s.clients s.next_client (new_client user room_id conn s.buffer_size);
    next_client = s.next_client + 1;
    rooms = put s.rooms room_id (record room { users = put room.users user s.next_client });
    user_rooms = index_user s.user_rooms user room_id;
  }

  register-MemberSet :
      (b : Broker R) (s : Server R) (user room_id : String) (conn : ℕ) (room : Room)
      → get s.rooms room_id ≡ some room
      → get room.users user ≡ none
      → (register b s user room_id conn (some room)
          ≡ ok (with_user s room_id room user conn, s.next_client))
        × MemberSet s (with_user s room_id room user conn) room_id user (some s.next_client)
  unfolding register
  register-MemberSet b s user room_id conn room e f = (
    rw (f, register) refl,
    put_users s (with_user s room_id room user conn) room_id user room
        (record room { users = put room.users user s.next_client }) (some s.next_client)
        (entry_found s room_id room e) refl (get-put_self room.users user s.next_client)
        (λ u ne. get-put room.users user u s.next_client ∙ rw (ne_false user u ne) refl),
  )

  -- Creating a room adds nobody.
  add_new_room-member :
      (b : Broker R) (s : Server R) (room_id r u : String)
      → member (add_new_room b s room_id) r u ≡ member s r u
  unfolding add_new_room member
  add_new_room-member b s room_id r u = elim (Option-cases (get s.rooms room_id)) [
    | inl e ↦
        rw (e, add_new_room, get-put)
          (elim (Bool-cases (room_id == r)) [
            | inl same ↦ rw same (
                unfold entry_of get in
                ap (λ o. entry_of o u) (sym e)
                ∙ ap (λ i. entry_of (get s.rooms i) u) ((eq_iff room_id r).0 same))
            | inr differ ↦ rw differ refl
          ])
    | inr (room, e) ↦ rw (e, add_new_room) refl
  ]

  add_user_to_room_answers :
      (b : Broker R) (s : Server R) (user room_id : String) (conn : ℕ)
      → (member s room_id user ≡ none
          → (t : Server R) × (p : ℕ) × (add_user_to_room b s user room_id conn ≡ ok (t, p))
            × MemberSet s t room_id user (some p))
        × (member s room_id user ≢ none
            → add_user_to_room b s user room_id conn ≡ err (user_exists user room_id))
  unfolding add_user_to_room
  add_user_to_room_answers b s user room_id conn =
      let s0 = add_new_room b s room_id in
      let (room, found) = get-add_new_room b s room_id in
      let entry : member s room_id user ≡ get room.users user =
        sym (add_new_room-member b s room_id room_id user)
        ∙ unfold member in entry_found s0 room_id room found user in
      elim (Option-cases (get room.users user)) [
        | inl f ↦
            let (joined, set) = register-MemberSet b s0 user room_id conn room found f in
            (
              λ gone. (
                with_user s0 room_id room user conn,
                s0.next_client,
                rw found joined,
                record {
                  here = set.here;
                  elsewhere = λ r u ne. set.elsewhere r u ne ∙ add_new_room-member b s room_id r u;
                },
              ),
              λ there. absurd (there (entry ∙ f)),
            )
        | inr (p, f) ↦ (
          λ gone. absurd (some-ne-none p (sym (entry ∙ f) ∙ gone)),
          λ there. rw found (unfold register in rw (f, register) refl),
        )
      ]

  -- Either the user is not in the room and enters it, whether the room was there or not, and no other
  -- membership changes; or the user is there already, and `AddUserToRoom` returns that error.
  pub add_user_to_room-MemberSet :
      (b : Broker R) (s : Server R) (user room_id : String) (conn : ℕ)
      → ((member s room_id user ≡ none)
          × ((t : Server R) × (p : ℕ) × (add_user_to_room b s user room_id conn ≡ ok (t, p))
              × MemberSet s t room_id user (some p)))
        ⊎ ((member s room_id user ≢ none)
            × (add_user_to_room b s user room_id conn ≡ err (user_exists user room_id)))
  add_user_to_room-MemberSet b s user room_id conn =
      let (enters, refused) = add_user_to_room_answers b s user room_id conn in
      elim (Option-cases (member s room_id user)) [
        | inl gone ↦ inl (gone, enters gone)
        | inr (p, there) ↦
            let present : member s room_id user ≢ none =
              λ gone. some-ne-none p (sym there ∙ gone) in
            inr (present, refused present)
      ]

  -- Either the user is in the room, and `RemoveUserFromRoom` succeeds and takes out that one
  -- membership; or the user is not, and it returns one of its two errors.
  pub remove_user_from_room-MemberSet :
      (s : Server R) (user room_id : String)
      → ((member s room_id user ≢ none)
          × ((t : Server R) × (remove_user_from_room s user room_id ≡ ok t)
              × MemberSet s t room_id user none))
        ⊎ ((member s room_id user ≡ none)
            × ((remove_user_from_room s user room_id ≡ err (no_such_room room_id))
                ⊎ (remove_user_from_room s user room_id ≡ err (no_such_user user room_id))))
  remove_user_from_room-MemberSet s user room_id =
      let (leaves, fails) = remove_user_from_room_answers s user room_id in
      elim (Option-cases (member s room_id user)) [
        | inl gone ↦ inr (gone, fails gone)
        | inr (p, there) ↦
            let present : member s room_id user ≢ none =
              λ gone. some-ne-none p (sym there ∙ gone) in
            inl (present, leaves present)
      ]
