-- ===== src/MiniSet/Grow.antt =====
-- What `resize` keeps of the values.
use sq_sp.Prelude.{
  ℕ, ◌+◌, ◌-◌, ◌*◌, ◌<◌, ◌≤◌, ◌≡◌, ◌≢◌, inl, inr, refl, some, ltb, if◌then◌else◌, arith, Bool-cases,
}
use sq_sp.MiniSet.{MiniSet, resize, insert, place}
use sq_sp.MiniSet.Insert.{Has, IsSorted, place-Has}

-- what `resize` makes of a set
abbrev pub grown : (ℕ → ℕ) → MiniSet → MiniSet
grown junk s = record {
  cells = λ i. if ltb (i * 4) s.curr_size then s.cells i else junk i;
  pend = s.pend;
  curr_size = s.curr_size + 32;
}

-- Growing keeps a quarter of the cells: cell `i` of the new block is the old one only for
-- `4 * i < curr_size`, and what the heap held for all others; `pend` counts them still.
pub resize_lem :
    (junk : ℕ → ℕ) (s : MiniSet)
    → s.curr_size + 32 ≤ 65536 - 64
    → (t : MiniSet) × (resize junk s ≡ some t)
      × (t.pend ≡ s.pend)
      × ((i : ℕ) → t.cells i ≡ (if ltb (i * 4) s.curr_size then s.cells i else junk i))
unfolding resize
resize_lem junk s h = (
  record {
    cells = λ i. if ltb (i * 4) s.curr_size then s.cells i else junk i;
    pend = s.pend;
    curr_size = s.curr_size + 32;
  },
  ground arith,
  refl,
  λ i. refl,
)

-- `insert` into a sorted set of `curr_size - 1` values, where it returns and the new block holds zeros:
-- every value behind the first quarter of the cells, other than the one inserted, is gone.
pub insert_loses :
    (val k : ℕ) (s t : MiniSet)
    → IsSorted s
    → 4 ≤ s.curr_size
    → s.pend + 1 ≡ s.curr_size
    → insert (λ i. 0) val s ≡ some t
    → s.curr_size ≤ k * 4
    → k < s.pend
    → s.cells k ≢ val
    → ¬ Has (s.cells k) t
unfolding resize insert
insert_loses val k s t sorted big full e behind inside other has =
    elim (Bool-cases (ltb (65536 - 64) (s.curr_size + 32))) [
      | inl over ↦ ground arith
      | inr fits ↦
          let is : place val (grown (λ i. 0) s) ≡ t = ground arith in
          let here : Has (s.cells k) (place val (grown (λ i. 0) s)) = rw is has in
          elim (place-Has val (grown (λ i. 0) s) (s.cells k) here) [
            | inl same ↦ other same
            | inr (j, l, at) ↦ ground (arith, sorted j k, sorted 0 k)
          ]
    ]
