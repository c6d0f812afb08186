-- ===== src/Client/Pool/Bounds.antt =====
-- client/ws/pool.go: the concurrent use of a pool.
use chatflow.Prelude.{
  ℕ, zero, suc, ◌+◌, ◌-◌, ◌≤◌, ◌≡◌, refl, ap, subst, lt→ltb, Bool, Option, List, [], ◌∷◌, ◌++◌,
  arith,
}
use chatflow.Prelude.Dict.{Dict}
use chatflow.Prelude.Seq.{length}
use chatflow.Client.Pool.{
  Pool, Call, releasing, returned, new_ws_client_pool, close_client, release, advance,
  close_clients, close_all, Run, advance_at, Event, get_or_create, remove_client, step, shut,
  happen, run_all,
}
use chatflow.Client.Pool.Slots.{holding, all_holding, IsCovered, Covers, advance-Covers}

-- The same of a pool with its calls.
abbrev pub Covered : ℕ → ℕ → Run → Type 0
Covered size lost r = IsCovered size lost (all_holding r.calls) r.pool

reheld : {size lost a b : ℕ} {p : Pool} → a ≡ b → IsCovered size lost a p → IsCovered size lost b p
reheld {size} {lost} {a} {b} {p} e h = subst (λ n. IsCovered size lost n p) e h

-- `others` stands for the calls in front of those that the index leads into.
advance_at-Covered :
    (accepts : ℕ → Bool) (size lost others : ℕ) (p : Pool) (i : ℕ) (calls : List Call)
    → IsCovered size lost (all_holding calls + others) p
    → let r = advance_at accepts p i calls in
      IsCovered size lost (all_holding r.calls + others) r.pool
unfolding advance_at all_holding
advance_at-Covered accepts size lost others p i [] h = h
advance_at-Covered accepts size lost others p zero (c ∷ calls) h =
    let r = advance accepts p c in
    let h' : IsCovered size lost (holding r.1 + (all_holding calls + others)) r.0 =
      (unfold Covers in
        advance-Covers size lost (all_holding calls + others) p accepts c
          (reheld (omega arith) h)) in
    reheld (omega arith) h'
advance_at-Covered accepts size lost others p (suc i) (c ∷ calls) h =
    reheld (omega arith)
      (advance_at-Covered accepts size lost (holding c + others) p i calls (reheld (omega arith) h))

close_clients-Covered :
    {size lost held : ℕ} (conns : Dict ℕ) (p : Pool)
    → IsCovered size lost held p
    → IsCovered size lost held (close_clients p conns)
unfolding close_clients close_client
close_clients-Covered [] p h = h
close_clients-Covered ((key, c) ∷ conns) p h =
    close_clients-Covered conns (close_client p c)
      (record { distinct = h.distinct; covered = h.covered; bounded = h.bounded; sized = h.sized })

close_clients-conns : (conns : Dict ℕ) (p : Pool) → (close_clients p conns).conns ≡ p.conns
unfolding close_clients close_client
close_clients-conns [] p = refl
close_clients-conns ((key, c) ∷ conns) p = close_clients-conns conns (close_client p c)

-- `CloseAll` gives no slot back: what the map covered is lost.
close_all-Covered :
    (size lost : ℕ) (r : Run)
    → Covered size lost r
    → Covered size (length r.pool.conns + lost) (happen r shut)
unfolding happen close_all
close_all-Covered size lost r h =
    let closed = close_clients-Covered r.pool.conns r.pool h in
    record {
      distinct = tt;
      covered = omega (arith, closed.covered, ap length (close_clients-conns r.pool.conns r.pool));
      bounded = closed.bounded;
      sized = closed.sized;
    }

weaken : {size lost more : ℕ} (r : Run) → lost ≤ more → Covered size more r → Covered size lost r
weaken r le h = record {
  distinct = h.distinct;
  covered = omega (arith, h.covered);
  bounded = h.bounded;
  sized = h.sized;
}

happen-Covered :
    (size lost : ℕ) (r : Run) (e : Event) → Covered size lost r → Covered size lost (happen r e)
unfolding happen all_holding holding
happen-Covered size lost r (get_or_create u room) h = reheld (omega arith) h
happen-Covered size lost r (remove_client u room) h = reheld (omega arith) h
happen-Covered size lost r (step i accepts) h =
    reheld (omega arith)
      (advance_at-Covered accepts size lost 0 r.pool i r.calls (reheld (omega arith) h))
happen-Covered size lost r shut h =
    weaken (happen r shut) (omega arith) (close_all-Covered size lost r h)

run_all-Covered :
    (size lost : ℕ) (r : Run) (events : List Event)
    → Covered size lost r
    → Covered size lost (run_all r events)
unfolding run_all
run_all-Covered size lost r [] h = h
run_all-Covered size lost r (e ∷ events) h =
    run_all-Covered size lost (happen r e) events (happen-Covered size lost r e h)

abbrev pub start : ℕ → Run
start size = record { pool = new_ws_client_pool size; calls = [] }

start-Covered : (size : ℕ) → Covered size 0 (start size)
unfolding new_ws_client_pool all_holding
start-Covered size = record {
  distinct = tt;
  covered = omega arith;
  bounded = omega arith;
  sized = refl;
}

-- However the calls of a new pool interleave, the connections in the map and the calls that dial,
-- install or release number at most the slots in use, and these at most the size of the pool.
pub run_all-bounded :
    (size : ℕ) (events : List Event)
    → let r = run_all (start size) events in
      (length r.pool.conns + all_holding r.calls ≤ r.pool.in_use) × (r.pool.in_use ≤ size)
run_all-bounded size events =
    let h = run_all-Covered size 0 (start size) events (start-Covered size) in
    (omega (arith, h.covered), h.bounded)

release_at :
    (accepts : ℕ → Bool) (p : Pool) (result : Option ℕ) (before after : List Call)
    → 1 ≤ p.in_use
    → advance_at accepts p (length before) (before ++ releasing result ∷ after) ≡ record {
      pool = record p { in_use = p.in_use - 1 };
      calls = before ++ returned result ∷ after;
    }
unfolding advance_at advance release
release_at accepts p result [] after h = rw (lt→ltb 0 p.in_use (omega arith)) refl
release_at accepts p result (c ∷ before) after h =
    ap (λ (r : Run). record { pool = r.pool; calls = c ∷ r.calls })
      (release_at accepts p result before after h)

holds_one :
    (result : Option ℕ) (before after : List Call)
    → 1 ≤ all_holding (before ++ releasing result ∷ after)
unfolding all_holding holding
holds_one result [] after = omega arith
holds_one result (c ∷ before) after = omega (arith, holds_one result before after)

-- However the calls of a new pool interleave, no call waits to give a slot back: the step of a
-- call that is about to do so returns, and frees one slot.
advance_at-releasing :
    (size : ℕ) (events : List Event) (accepts : ℕ → Bool) (result : Option ℕ)
    (before after : List Call)
    → let r = run_all (start size) events in
      r.calls ≡ before ++ releasing result ∷ after
      → (advance_at accepts r.pool (length before) r.calls ≡ record {
        pool = (let p = r.pool in record p { in_use = p.in_use - 1 });
        calls = before ++ returned result ∷ after;
      })
        × (1 ≤ r.pool.in_use)
advance_at-releasing size events accepts result before after e =
    let r = run_all (start size) events in
    let h = run_all-Covered size 0 (start size) events (start-Covered size) in
    let some_slot : 1 ≤ r.pool.in_use =
      omega (arith, h.covered, ap all_holding e, holds_one result before after) in
    (rw e (release_at accepts r.pool result before after some_slot), some_slot)

-- `CloseAll` returns no slot: after it has closed so many connections, and whatever comes next,
-- the pool holds at most its size less that number.
pub shut-leaks :
    (size : ℕ) (before after : List Event)
    → let r = run_all (start size) before in
      length (run_all (happen r shut) after).pool.conns + length r.pool.conns ≤ size
shut-leaks size before after =
    let h0 = run_all-Covered size 0 (start size) before (start-Covered size) in
    let r = run_all (start size) before in
    let h =
      run_all-Covered size (length r.pool.conns + 0) (happen r shut) after
        (close_all-Covered size 0 r h0) in
    omega (arith, h.covered, h.bounded)
