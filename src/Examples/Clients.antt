-- ===== src/Examples/Clients.antt =====
-- Runs of the load-testing client.
use chatflow.Prelude.{ℕ, ◌+◌, ◌*◌, ◌<◌, ◌≤◌, ◌≡◌, Bool, false, List, [], ◌∷◌, arith, ltb, true, leb}
use chatflow.Prelude.Seq.{length}
use chatflow.Client.Dial.{dial, IsDialing, dial-IsDialing, max_retries}
use chatflow.Client.Pool.{Event, get_or_create, step, shut, happen, run_all}
use chatflow.Client.Pool.Slots.{all_holding}
use chatflow.Client.Pool.Bounds.{start, run_all-bounded, shut-leaks}
use chatflow.Generate.{num_sessions, text_per_session, new_session_messages}
use chatflow.Generate.Counts.{length-new_session_messages}
use chatflow.Generate.RoomIds.{new_rooms, new_rooms-never_ends}

-- The third attempt is granted.
abbrev third : ℕ → Bool
third k = leb 2 k

abbrev never : ℕ → Bool
never k = false

-- Two users connect to one room at the same time, and the pool has room for one.
abbrev rush : List Event
rush =
    get_or_create "7" "1"
    ∷ get_or_create "8" "1"
    ∷ step 0 third
    ∷ step 1 third
    ∷ step 0 third
    ∷ step 1 third
    ∷ step 0 third
    ∷ step 0 third
    ∷ []

dial-IsDialing_example : IsDialing third 0 max_retries (dial third)
dial-IsDialing_example = dial-IsDialing third

run_all-bounded_example :
    let r = run_all (start 1) rush in
    (length r.pool.conns + all_holding r.calls ≤ r.pool.in_use) × (r.pool.in_use ≤ 1)
run_all-bounded_example = run_all-bounded 1 rush

shut-leaks_example :
    let r = run_all (start 1) rush in
    length (run_all (happen r shut) rush).pool.conns + length r.pool.conns ≤ 1
shut-leaks_example = shut-leaks 1 rush rush

length-new_session_messages_example :
    let made = length (new_session_messages (λ k. "now") (λ k. k) "7" 39) in
    (made ≡ num_sessions 39 * (text_per_session 39 + 2))
    × (made ≤ 39)
    × (39 < made + num_sessions 39)
length-new_session_messages_example =
    length-new_session_messages (λ k. "now") (λ k. k) "7" 39 (omega arith)

new_rooms-never_ends_example :
    (length (new_rooms (λ k. k * 7) 21 30) ≤ 20)
    × (ltb (length (new_rooms (λ k. k * 7) 21 30)) 21 ≡ true)
new_rooms-never_ends_example = new_rooms-never_ends (λ k. k * 7) 21 30 (omega arith)
