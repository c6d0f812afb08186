-- ===== src/Client/Pool/Slots.antt =====
-- client/ws/pool.go: the slots of the semaphore and the connections in the map.
use chatflow.Prelude.{
  ℕ, suc, ◌+◌, ◌≤◌, String, ◌≡◌, refl, ap, subst, inl, inr, Bool, Option, none, some, List, [], ◌∷◌,
  arith, ltb, ◌==◌, Option-cases, Bool-cases, eq_iff,
}
use chatflow.Prelude.Dict.{Dict, get, put, remove, IsMap, put-IsMap, remove-IsMap, remove_absent}
use chatflow.Prelude.Seq.{length}
use chatflow.Client.Dial.{Dialed, dial}
use chatflow.Client.Pool.{
  Pool, Call, looking, acquiring, dialing, installing, removing, releasing, returned, get_key,
  close_client, look, acquire, connect, install, take_out, release, advance,
}

-- The calls that took a slot and have neither given it back nor put their client into the map.
unfoldable pub holding : Call → ℕ
holding (looking u r) = 0
holding (acquiring u r) = 0
holding (dialing u r) = 1
holding (installing u r c) = 1
holding (removing u r) = 0
holding (releasing result) = 1
holding (returned result) = 0

unfoldable pub all_holding : List Call → ℕ
all_holding [] = 0
all_holding (c ∷ calls) = holding c + all_holding calls

length-remove :
    {V : Type 0} (d : Dict V) (k : String) (v : V)
    → IsMap d
    → get d k ≡ some v
    → suc (length (remove d k)) ≡ length d
unfolding get remove
length-remove [] k v m e = cc
length-remove ((j, w) ∷ d) k v m e = elim (Bool-cases (j == k)) [
  | inl same ↦
      rw (same, remove_absent d k (subst (λ i. get d i ≡ none) ((eq_iff j k).0 same) m.0)) refl
  | inr other ↦ rw other (ap suc (length-remove d k v m.1 (rw other at e)))
]

-- So many slots are in use that the map, the calls with `held` slots, and `lost` more are covered.
pub record IsCovered (size lost held : ℕ) (p : Pool) : Type 0 where
  pub distinct : IsMap p.conns
  pub covered : length p.conns + held + lost ≤ p.in_use
  pub bounded : p.in_use ≤ size
  pub sized : p.size ≡ size

module _ (size lost held : ℕ) (p : Pool) where
  -- The state after a step of a call, which held a slot or not.
  unfoldable pub Covers : Pool × Call → Type 0
  Covers r = IsCovered size lost (holding r.1 + held) r.0

  acquire-Covers : (u r : String) → IsCovered size lost (0 + held) p → Covers (acquire p u r)
  unfolding acquire Covers holding
  acquire-Covers u r h = elim (Bool-cases (ltb p.in_use p.size)) [
    | inl e ↦ rw e (record {
      distinct = h.distinct;
      covered = omega (arith, h.covered);
      bounded = ground (arith, h.bounded, h.sized);
      sized = h.sized;
    })
    | inr e ↦ rw e h
  ]

  release-Covers :
      (result : Option ℕ) → IsCovered size lost (1 + held) p → Covers (release p result)
  unfolding release Covers holding
  release-Covers result h = elim (Bool-cases (ltb 0 p.in_use)) [
    | inl e ↦ rw e (record {
      distinct = h.distinct;
      covered = omega (arith, h.covered);
      bounded = omega (arith, h.bounded);
      sized = h.sized;
    })
    | inr e ↦ rw e h
  ]

  connect-Covers :
      (u r : String) (d : Dialed) → IsCovered size lost (1 + held) p → Covers (connect p u r d)
  unfolding connect Covers holding
  connect-Covers u r d h = elim (Bool-cases d.connected) [
    | inl e ↦ rw e (record {
      distinct = h.distinct;
      covered = h.covered;
      bounded = h.bounded;
      sized = h.sized;
    })
    | inr e ↦ rw e (record {
      distinct = h.distinct;
      covered = h.covered;
      bounded = h.bounded;
      sized = h.sized;
    })
  ]

  look-Covers : (u r : String) → IsCovered size lost (0 + held) p → Covers (p, look p u r)
  unfolding look Covers holding
  look-Covers u r h = elim (Option-cases (get p.conns (get_key u r))) [
    | inl e ↦ rw (e, look) h
    | inr (c, e) ↦ rw (e, look) h
  ]

  install-Covers :
      (u r : String) (c : ℕ) → IsCovered size lost (1 + held) p → Covers (install p u r c)
  unfolding install Covers holding close_client put
  install-Covers u r c h = elim (Option-cases (get p.conns (get_key u r))) [
    | inl e ↦
        rw (e, install)
          (record {
            distinct = put-IsMap p.conns (get_key u r) c h.distinct;
            covered = omega (arith, h.covered, ap length (remove_absent p.conns (get_key u r) e));
            bounded = h.bounded;
            sized = h.sized;
          })
    | inr (q, e) ↦
        rw (e, install)
          (record {
            distinct = h.distinct;
            covered = h.covered;
            bounded = h.bounded;
            sized = h.sized;
          })
  ]

  take_out-Covers : (u r : String) → IsCovered size lost (0 + held) p → Covers (take_out p u r)
  unfolding take_out Covers holding close_client
  take_out-Covers u r h = elim (Option-cases (get p.conns (get_key u r))) [
    | inl e ↦
        rw (e, take_out)
          (record {
            distinct = remove-IsMap p.conns (get_key u r) h.distinct;
            covered = omega (arith, h.covered, ap length (remove_absent p.conns (get_key u r) e));
            bounded = h.bounded;
            sized = h.sized;
          })
    | inr (c, e) ↦
        rw (e, take_out)
          (record {
            distinct = remove-IsMap p.conns (get_key u r) h.distinct;
            covered = omega (arith, h.covered, length-remove p.conns (get_key u r) c h.distinct e);
            bounded = h.bounded;
            sized = h.sized;
          })
  ]

  -- A step of a call keeps the slots covered.
  pub advance-Covers :
      (accepts : ℕ → Bool) (c : Call)
      → IsCovered size lost (holding c + held) p
      → Covers (advance accepts p c)
  unfolding advance holding Covers
  advance-Covers accepts (looking u r) h = look-Covers u r h
  advance-Covers accepts (acquiring u r) h = acquire-Covers u r h
  advance-Covers accepts (dialing u r) h = connect-Covers u r (dial accepts) h
  advance-Covers accepts (installing u r c) h = install-Covers u r c h
  advance-Covers accepts (removing u r) h = take_out-Covers u r h
  advance-Covers accepts (releasing result) h = release-Covers result h
  advance-Covers accepts (returned result) h = h
