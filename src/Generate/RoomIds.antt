-- ===== src/Generate/RoomIds.antt =====
-- pkg/generate/generate.go: the room ids, and the loop of `NewRooms`.
use mathlib.Core.Option.{some-ne-none}
use chatflow.Prelude.{
  ℕ, zero, suc, ◌+◌, ◌≤◌, ◌<◌, String, ◌≡◌, ◌≢◌, refl, sym, ap, ◌∙◌, subst, ◌==◌, eq_iff, eq_refl,
  of_eq_false, inl, inr, true, false, none, some, List, [], ◌∷◌, ◌++◌, arith, ltb, lt→ltb, eqb,
  if◌then◌else◌, Bool-cases, Option-cases,
}
use chatflow.Prelude.Store.{eqb→eq}
use chatflow.Prelude.Atoi.Itoa.{itoa}
use chatflow.Prelude.Dict.{
  Dict, get, put, remove, IsMap, put-IsMap, remove-IsMap, get-put, get-remove, remove_absent,
}
use chatflow.Prelude.Seq.{length, length-append}
use chatflow.Generate.{intn}

abbrev pub total_rooms : ℕ
total_rooms = 20

unfoldable pub chat_room_id : ℕ → String
chat_room_id draw = itoa (intn total_rooms draw + 1)

-- The variables of `NewRooms`; `seen` is a set.
pub record Picked : Type 0 where
  pub seen : Dict (Unit {0})
  pub rooms : List String

unfoldable pub pick : Picked → String → Picked
pick p id = elim (get p.seen id) [
  | none ↦ record { seen = put p.seen id tt; rooms = p.rooms ++ id ∷ [] }
  | some x ↦ p
]

-- So many rounds of the loop, which goes on while there are too few rooms.
unfoldable pub pick_rounds : (ℕ → ℕ) → ℕ → ℕ → ℕ → Picked → Picked
unfolding chat_room_id pick
pick_rounds draw size i zero p = p
pick_rounds draw size i (suc n) p =
    let rest = pick_rounds draw size (suc i) n (pick p (chat_room_id (draw i))) in
    if ltb (length p.rooms) size then rest else p

unfoldable pub new_rooms : (ℕ → ℕ) → ℕ → ℕ → List String
unfolding pick_rounds
new_rooms draw size rounds =
    (pick_rounds draw size 0 rounds (record { seen = []; rooms = [] })).rooms

length-remove : (d : Dict (Unit {0})) (k : String) → IsMap d → length d ≤ suc (length (remove d k))
unfolding remove
length-remove [] k m = omega arith
length-remove ((j, v) ∷ d) k m = elim (Bool-cases (j == k)) [
  | inl e ↦
      rw (e, remove_absent d k (subst (λ i. get d i ≡ none) ((eq_iff j k).0 e) m.0)) (omega arith)
  | inr e ↦ rw e (omega (arith, length-remove d k m.1))
]

-- The id of one of the first `n` rooms.
abbrev IsRoomId : ℕ → String → Type 0
IsRoomId n k = (r : ℕ) × (1 ≤ r) × (r ≤ n) × (k ≡ itoa r)

AllRoomIds : ℕ → Dict (Unit {0}) → Type 0
AllRoomIds n d = (k : String) → get d k ≢ none → IsRoomId n k

without_last :
    (n : ℕ) (d : Dict (Unit {0})) → AllRoomIds (suc n) d → AllRoomIds n (remove d (itoa (suc n)))
unfolding AllRoomIds
without_last n d all k found = elim (Bool-cases (itoa (suc n) == k)) [
  | inl e ↦ absurd (found (get-remove d (itoa (suc n)) k ∙ rw e refl))
  | inr e ↦
      let (r, low, high, same) =
        all k (λ gone. found (get-remove d (itoa (suc n)) k ∙ rw e gone)) in
      (r, low, lower r high same e, same)
]
  where
    lower : (r : ℕ) → r ≤ suc n → k ≡ itoa r → (itoa (suc n) == k) ≡ false → r ≤ n
    lower r high same e = elim (Bool-cases (eqb r (suc n))) [
      | inl last ↦
          absurd (of_eq_false e ((eq_iff _ _).1 (ap itoa (sym (eqb→eq r (suc n) last)) ∙ sym same)))
      | inr other ↦ ground arith
    ]

head_found : (k : String) (v : Unit {0}) (d : Dict (Unit {0})) → get ((k, v) ∷ d) k ≡ some v
unfolding get
head_found k v d = rw (eq_refl k) refl

few_rooms : (n : ℕ) (d : Dict (Unit {0})) → IsMap d → AllRoomIds n d → length d ≤ n
unfolding AllRoomIds
few_rooms zero [] m all = omega arith
few_rooms zero ((k, v) ∷ d) m all =
    let (r, low, high, same) = all k (λ gone. some-ne-none v (sym (head_found k v d) ∙ gone)) in
    absurd (omega arith)
few_rooms (suc n) d m all = omega (
  arith,
  length-remove d (itoa (suc n)) m,
  few_rooms n (remove d (itoa (suc n))) (remove-IsMap d (itoa (suc n)) m) (without_last n d all),
)

-- The set and the slice agree in size, and hold ids of the twenty rooms only.
record IsPicked (p : Picked) : Type 0 where
  distinct : IsMap p.seen
  ids : AllRoomIds 20 p.seen
  sized : length p.rooms ≡ length p.seen

added :
    (p : Picked) (draw : ℕ)
    → get p.seen (chat_room_id draw) ≡ none
    → IsPicked p
    → let id = chat_room_id draw in
      IsPicked (record { seen = put p.seen id tt; rooms = p.rooms ++ id ∷ [] })
unfolding AllRoomIds
added p draw e h = record {
  distinct = put-IsMap p.seen (chat_room_id draw) tt h.distinct;
  ids = λ k found. elim (Bool-cases (chat_room_id draw == k)) [
    | inl same ↦ (
      intn 20 draw + 1,
      omega arith,
      omega arith,
      sym ((eq_iff _ _).0 same) ∙ unfold chat_room_id in refl,
    )
    | inr other ↦ h.ids k (λ gone. found (get-put p.seen (chat_room_id draw) k tt ∙ rw other gone))
  ];
  sized =
      length-append p.rooms (chat_room_id draw ∷ [])
      ∙ (unfold put in
          omega (arith, h.sized, ap length (remove_absent p.seen (chat_room_id draw) e)));
}

pick-IsPicked : (p : Picked) (draw : ℕ) → IsPicked p → IsPicked (pick p (chat_room_id draw))
unfolding pick put
pick-IsPicked p draw h = elim (Option-cases (get p.seen (chat_room_id draw))) [
  | inl e ↦ rw (e, pick) (added p draw e h)
  | inr (x, e) ↦ rw (e, pick) h
]

pick_rounds-IsPicked :
    (draw : ℕ → ℕ) (size i n : ℕ) (p : Picked) → IsPicked p → IsPicked (pick_rounds draw size i n p)
unfolding pick_rounds
pick_rounds-IsPicked draw size i zero p h = h
pick_rounds-IsPicked draw size i (suc n) p h = elim (Bool-cases (ltb (length p.rooms) size)) [
  | inl e ↦ rw e (pick_rounds-IsPicked draw size (suc i) n _ (pick-IsPicked p (draw i) h))
  | inr e ↦ rw e h
]

nothing-IsPicked : IsPicked (record { seen = []; rooms = [] })
unfolding AllRoomIds get
nothing-IsPicked = record { distinct = tt; ids = λ k found. absurd (found refl); sized = refl }

-- If more than twenty rooms are asked for, then the loop of `NewRooms` goes on after any number of
-- rounds, whatever is drawn: it never has more than twenty.
pub new_rooms-never_ends :
    (draw : ℕ → ℕ) (size rounds : ℕ)
    → 20 < size
    → (length (new_rooms draw size rounds) ≤ 20)
      × (ltb (length (new_rooms draw size rounds)) size ≡ true)
unfolding new_rooms
new_rooms-never_ends draw size rounds h =
    let p =
      pick_rounds-IsPicked draw size 0 rounds (record { seen = []; rooms = [] }) nothing-IsPicked in
    let few = few_rooms 20 _ p.distinct p.ids in
    (omega (arith, few, p.sized), lt→ltb _ _ (omega (arith, few, p.sized, h)))
