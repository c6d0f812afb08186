-- ===== src/Server/UserRooms.antt =====
-- The map `UserRooms` of internal/server/server.go, from a user to the rooms they are in, and what
-- `removeFromUserRooms` and `AddUserToRoom` do to it.
use chatflow.Prelude.{
  String, ◌==◌, Bool, false, none, some, List, [], ◌∷◌, ◌||◌, ◌++◌, if◌then◌else◌,
}
use chatflow.Prelude.Dict.{Dict, get, put, remove}

-- The entry of `UserRooms`, nil if there is none.
unfoldable pub rooms_of : Dict (List String) → String → List String
rooms_of index user = elim (get index user) [ none ↦ [] | some rooms ↦ rooms ]

unfoldable pub contains : String → List String → Bool
contains r [] = false
contains r (x ∷ xs) = x == r || contains r xs

-- append(rooms[:i], rooms[i+1:]...) at the first i with rooms[i] == r.
unfoldable pub erase_first : String → List String → List String
erase_first r [] = []
erase_first r (x ∷ xs) = if x == r then xs else x ∷ erase_first r xs

unfoldable pub drop_empty : Dict (List String) → String → List String → Dict (List String)
drop_empty index user [] = remove index user
drop_empty index user (r ∷ rs) = index

unfoldable pub unindex : Dict (List String) → String → String → Dict (List String)
unfolding rooms_of contains erase_first drop_empty
unindex index user room =
    let rooms = rooms_of index user in
    let index' = if contains room rooms then put index user (erase_first room rooms) else index in
    drop_empty index' user (rooms_of index' user)

-- UserRooms[userId] = append(UserRooms[userId], roomId)
unfoldable pub index_user : Dict (List String) → String → String → Dict (List String)
unfolding rooms_of
index_user index user room = put index user (rooms_of index user ++ room ∷ [])
