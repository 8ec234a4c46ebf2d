-- ===== src/MiniSet/Insert.antt =====
-- `insert` of `sdl_mini_set` (LigSP/LigCommon/sdl_state.h) while there is room.
use sq_sp.Prelude.{
  ℕ, zero, suc, ◌+◌, ◌-◌, ◌<◌, ◌≤◌, ◌≡◌, ◌↔◌, ◌⊎◌, inl, inr, refl, some, ◌==◌, ltb, leb,
  if◌then◌else◌, arith, Bool-cases,
}
use sq_sp.MiniSet.{MiniSet, Place, free_at, present, find_place, shift_up, place, insert, update}

-- The values are strictly increasing.
abbrev pub IsSorted : MiniSet → Type 0
IsSorted s = (k l : ℕ) → k < l → l < s.pend → s.cells k < s.cells l

abbrev pub Has : ℕ → MiniSet → Type 0
Has w s = (k : ℕ) × (k < s.pend) × (s.cells k ≡ w)

shift_up_lem :
    (n i : ℕ) (cells : ℕ → ℕ) (k : ℕ)
    → shift_up n i cells k
      ≡ (if ltb i k then (if leb k (i + n) then cells (k - 1) else cells k) else cells k)
unfolding shift_up
shift_up_lem zero i cells k = ground arith
shift_up_lem (suc n) i cells k =
    ground (arith, shift_up_lem n i (update (i + n + 1) (cells (i + n)) cells) k)

-- What the search loop knows where it ends, if all cells in front of `i` are smaller.
abbrev Found : ℕ → (ℕ → ℕ) → ℕ → Place → Type 0
Found val cells pend (free_at i) =
    (i ≤ pend) × ((k : ℕ) → k < i → cells k < val) × (i < pend → val < cells i)
Found val cells pend present = (k : ℕ) × (k < pend) × (cells k ≡ val)

find_place-Found :
    (val : ℕ) (cells : ℕ → ℕ) (i left : ℕ)
    → ((k : ℕ) → k < i → cells k < val)
    → Found val cells (i + left) (find_place val cells i left)
unfolding find_place
find_place-Found val cells i zero below = (omega arith, below, λ l. absurd (omega arith))
find_place-Found val cells i (suc left) below = elim (Bool-cases (ltb val (cells i))) [
  | inl small ↦ rw small (omega arith, below, λ l. ground arith)
  | inr large ↦ elim (Bool-cases (val == cells i)) [
    | inl same ↦ rw (large, same) (i, omega arith, ground arith)
    | inr other ↦
        let next : i + 1 + left ≡ i + suc left = omega arith in
        let passed : (k : ℕ) → k < i + 1 → cells k < val = λ k l. elim (Bool-cases (k == i)) [
          | inl at ↦ ground arith
          | inr before ↦ below k (ground arith)
        ] in
        rw (large, other) (rw next at (find_place-Found val cells (i + 1) left passed))
  ]
]

-- the cells after the value is put at `i`
abbrev placed : ℕ → ℕ → MiniSet → MiniSet
placed val i s = record s {
  cells = update i val (shift_up (s.pend - i) i s.cells);
  pend = s.pend + 1;
}

placed-IsSorted :
    (val i : ℕ) (s : MiniSet)
    → IsSorted s
    → i ≤ s.pend
    → ((k : ℕ) → k < i → s.cells k < val)
    → (i < s.pend → val < s.cells i)
    → IsSorted (placed val i s)
placed-IsSorted val i s sorted le below above k l kl lp = ground (
  arith,
  shift_up_lem (s.pend - i) i s.cells k,
  shift_up_lem (s.pend - i) i s.cells l,
  below k,
  sorted k l,
  sorted (k - 1) (l - 1),
  sorted i (l - 1),
  sorted k (l - 1),
)

placed-Has :
    (val i : ℕ) (s : MiniSet) (w : ℕ) → i ≤ s.pend → Has w (placed val i s) ↔ ((w ≡ val) ⊎ Has w s)
placed-Has val i s w le = (
  λ (k, l, e). elim (Bool-cases (k == i)) [
    | inl at ↦ inl (ground arith)
    | inr off ↦ elim (Bool-cases (ltb i k)) [
      | inl up ↦ inr (k - 1, ground arith, ground (arith, shift_up_lem (s.pend - i) i s.cells k))
      | inr down ↦ inr (k, ground arith, ground (arith, shift_up_lem (s.pend - i) i s.cells k))
    ]
  ],
  λ h. elim h [
    | inl e ↦ (i, omega arith, ground arith)
    | inr (k, l, e) ↦ elim (Bool-cases (ltb k i)) [
      | inl down ↦ (k, omega arith, ground (arith, shift_up_lem (s.pend - i) i s.cells k))
      | inr up ↦ (k + 1, omega arith, ground (arith, shift_up_lem (s.pend - i) i s.cells (k + 1)))
    ]
  ],
)

-- what `place` promises
abbrev pub Adds : ℕ → MiniSet → MiniSet → Type 0
Adds val s t = IsSorted t × ((w : ℕ) → Has w t ↔ ((w ≡ val) ⊎ Has w s))

place-Adds_as :
    (val : ℕ) (s : MiniSet) (pl : Place)
    → IsSorted s
    → find_place val s.cells 0 s.pend ≡ pl
    → Found val s.cells (0 + s.pend) pl
    → Adds val s (place val s)
unfolding place
place-Adds_as val s present sorted e (k, l, at) =
    let same : place val s ≡ s = rw (e, place) in
    rw same (
      sorted,
      λ w. (λ h. inr h, λ h. elim h [ inl is ↦ (k, omega arith, ground arith) | inr old ↦ old ]),
    )
place-Adds_as val s (free_at i) sorted e (le, below, above) =
    let same : place val s ≡ placed val i s = rw (e, place) in
    rw same (
      placed-IsSorted val i s sorted (omega arith) below (λ l. above (omega arith)),
      λ w. placed-Has val i s w (omega arith),
    )

place-Adds : (val : ℕ) (s : MiniSet) → IsSorted s → Adds val s (place val s)
place-Adds val s sorted =
    let found = find_place-Found val s.cells 0 s.pend (λ k l. absurd (omega arith)) in
    place-Adds_as val s (find_place val s.cells 0 s.pend) sorted refl found

place-Has_as :
    (val : ℕ) (s : MiniSet) (pl : Place) (w : ℕ)
    → find_place val s.cells 0 s.pend ≡ pl
    → Found val s.cells (0 + s.pend) pl
    → Has w (place val s)
    → (w ≡ val) ⊎ Has w s
unfolding place
place-Has_as val s present w e found h =
    let same : place val s ≡ s = rw (e, place) in inr (rw same at h)
place-Has_as val s (free_at i) w e (le, below, above) h =
    let same : place val s ≡ placed val i s = rw (e, place) in
    let (one, two) = placed-Has val i s w (omega arith) in one (rw same at h)

-- Sorted or not, `place` brings no value but its own.
pub place-Has : (val : ℕ) (s : MiniSet) (w : ℕ) → Has w (place val s) → (w ≡ val) ⊎ Has w s
place-Has val s w =
    place-Has_as val s (find_place val s.cells 0 s.pend) w refl
      (find_place-Found val s.cells 0 s.pend (λ k l. absurd (omega arith)))

place_size_as :
    (val : ℕ) (s : MiniSet) (pl : Place)
    → find_place val s.cells 0 s.pend ≡ pl
    → ((place val s).pend ≤ s.pend + 1) × ((place val s).curr_size ≡ s.curr_size)
unfolding place
place_size_as val s present e =
    let same : place val s ≡ s = rw (e, place) in rw same (omega arith, refl)
place_size_as val s (free_at i) e =
    let same : place val s ≡ placed val i s = rw (e, place) in rw same (omega arith, refl)

-- One insertion with room left, as the callers use it.
pub insert_room :
    (junk : ℕ → ℕ) (val : ℕ) (s : MiniSet)
    → IsSorted s
    → s.pend + 1 < s.curr_size
    → (insert junk val s ≡ some (place val s))
      × Adds val s (place val s)
      × ((place val s).pend ≤ s.pend + 1)
      × ((place val s).curr_size ≡ s.curr_size)
unfolding insert
insert_room junk val s sorted room =
    let (pend, size) = place_size_as val s (find_place val s.cells 0 s.pend) refl in
    (ground arith, place-Adds val s sorted, pend, size)

-- While fewer than `curr_size - 1` values are in it, `insert` keeps the set sorted with no value twice,
-- adds the value and loses none.
pub insert-IsSorted :
    (junk : ℕ → ℕ) (val : ℕ) (s : MiniSet)
    → IsSorted s
    → s.pend + 1 < s.curr_size
    → (t : MiniSet) × (insert junk val s ≡ some t)
      × IsSorted t
      × ((w : ℕ) → Has w t ↔ ((w ≡ val) ⊎ Has w s))
unfolding insert
insert-IsSorted junk val s sorted room =
    let (order, members) = place-Adds val s sorted in (place val s, ground arith, order, members)
