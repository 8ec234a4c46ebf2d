-- ===== src/MiniSet/Equal.antt =====
-- `operator==` and `assign` of the small set.
use sq_sp.Prelude.{
  ℕ, zero, suc, ◌+◌, ◌≤◌, ◌<◌, ◌≡◌, ◌↔◌, inl, inr, refl, Bool, true, false, ◌==◌, ltb, leb,
  if◌then◌else◌, arith, Bool-cases, sym, ◌∙◌,
}
use sq_sp.MiniSet.{MiniSet, equal, equal_cells, assign, copy_cells, update}
use sq_sp.MiniSet.Insert.{IsSorted, Has}

-- the cells from `i` on, `n` of them
abbrev AgreeFrom : ℕ → ℕ → (ℕ → ℕ) → (ℕ → ℕ) → Type 0
AgreeFrom i n f g = (k : ℕ) → i ≤ k → k < i + n → f k ≡ g k

ends_true : (a b : Bool) → (if a then b else false) ≡ true → (a ≡ true) × (b ≡ true)
ends_true true b e = (refl, e)
ends_true false b e = ground arith

equal_cells-AgreeFrom : (f g : ℕ → ℕ) (i n : ℕ) → (equal_cells f g i n ≡ true) ↔ AgreeFrom i n f g
unfolding equal_cells
equal_cells-AgreeFrom f g i zero = (λ e k ik kn. absurd (omega arith), λ all. refl)
equal_cells-AgreeFrom f g i (suc n) = (
  λ e k ik kn.
      let (first, later) = ends_true (f i == g i) (equal_cells f g (i + 1) n) e in
      elim (Bool-cases (k == i)) [
        | inl here ↦ ground arith
        | inr behind ↦ (equal_cells-AgreeFrom f g (i + 1) n).0 later k (ground arith) (omega arith)
      ],
  λ all.
      let first : (f i == g i) ≡ true = ground (arith, all i) in
      let later =
        (equal_cells-AgreeFrom f g (i + 1) n).1 (λ k ik kn. all k (omega arith) (omega arith)) in
      rw first later,
)

sorted_le : (s : MiniSet) (k l : ℕ) → IsSorted s → k ≤ l → l < s.pend → s.cells k ≤ s.cells l
sorted_le s k l sorted kl lp = elim (Bool-cases (k == l)) [
  | inl same ↦ ground arith
  | inr less ↦ ground (arith, sorted k l)
]

-- In sorted sets with the same values the first `n` cells of one are cells of the other.
first_cells :
    (s t : MiniSet) (n : ℕ)
    → IsSorted s
    → IsSorted t
    → ((w : ℕ) → Has w s → Has w t)
    → ((w : ℕ) → Has w t → Has w s)
    → (j : ℕ) → j < n
    → j < s.pend
    → (j < t.pend) × (s.cells j ≡ t.cells j)
first_cells s t zero sorted sorted' there back j jn js = absurd (omega arith)
first_cells s t (suc n) sorted sorted' there back j jn js =
    let earlier = first_cells s t n sorted sorted' there back in
    elim (Bool-cases (ltb j n)) [
      | inl less ↦ earlier j (ground arith) js
      | inr last ↦
          let (l, lt, at) = there (s.cells j) (j, js, refl) in
          let jl : j ≤ l = elim (Bool-cases (ltb l j)) [
            | inl before ↦
                absurd (ground (arith, (earlier l (ground arith) (ground arith)).1, sorted l j))
            | inr after ↦ ground arith
          ] in
          let (m, mt, at') = back (t.cells j) (j, omega arith, refl) in
          let jm : j ≤ m = elim (Bool-cases (ltb m j)) [
            | inl before ↦
                absurd (ground (arith, (earlier m (ground arith) (ground arith)).1, sorted' m j))
            | inr after ↦ ground arith
          ] in
          (
            omega arith,
            let up = sorted_le s j m sorted jm mt in
                let down = sorted_le t j l sorted' jl lt in omega arith,
          )
    ]

at_most : (m n : ℕ) → ((j : ℕ) → j < m → j < n) → m ≤ n
at_most m n below = elim (Bool-cases (ltb n m)) [
  | inl over ↦ absurd (ground (arith, below n))
  | inr after ↦ ground arith
]

-- `operator==` compares the sets: on sorted sets it holds exactly when they have the same values.
pub equal-Has :
    (s t : MiniSet) → IsSorted s → IsSorted t → (equal s t ≡ true) ↔ ((w : ℕ) → Has w s ↔ Has w t)
unfolding equal
equal-Has s t sorted sorted' = (
  λ e w.
      let (size, cells) = ends_true (s.pend == t.pend) (equal_cells t.cells s.cells 0 s.pend) e in
      let agree = (equal_cells-AgreeFrom t.cells s.cells 0 s.pend).0 cells in
      (
        λ (k, l, at). (k, ground arith, agree k (omega arith) (omega arith) ∙ at),
        λ (k, l, at). (k, ground arith, sym (agree k (omega arith) (ground arith)) ∙ at),
      ),
  λ same.
      let there : (w : ℕ) → Has w s → Has w t = λ w. (same w).0 in
      let back : (w : ℕ) → Has w t → Has w s = λ w. (same w).1 in
      let left = first_cells s t s.pend sorted sorted' there back in
      let right = first_cells t s t.pend sorted' sorted back there in
      let le = at_most s.pend t.pend (λ j l. (left j l l).0) in
      let ge = at_most t.pend s.pend (λ j l. (right j l l).0) in
      let size : (s.pend == t.pend) ≡ true = ground arith in
      rw size (
        (equal_cells-AgreeFrom t.cells s.cells 0 s.pend).1
          (λ k ik kn. sym (left k (omega arith) (omega arith)).1)),
)

copy_cells_below :
    (from : ℕ → ℕ) (i n : ℕ) (cells : ℕ → ℕ) (k : ℕ) → k < i → copy_cells from i n cells k ≡ cells k
unfolding copy_cells
copy_cells_below from i zero cells k l = refl
copy_cells_below from i (suc n) cells k l =
    ground (arith, copy_cells_below from (i + 1) n (update i (from i) cells) k)

copy_cells-AgreeFrom :
    (from : ℕ → ℕ) (i n : ℕ) (cells : ℕ → ℕ) → AgreeFrom i n from (copy_cells from i n cells)
unfolding copy_cells
copy_cells-AgreeFrom from i zero cells k ik kn = absurd (omega arith)
copy_cells-AgreeFrom from i (suc n) cells k ik kn =
    let written = update i (from i) cells in
    elim (Bool-cases (k == i)) [
      | inl here ↦ ground (arith, copy_cells_below from (i + 1) n written k)
      | inr behind ↦ copy_cells-AgreeFrom from (i + 1) n written k (ground arith) (omega arith)
    ]

-- `assign` makes a set that is equal to the one assigned, by `operator==`, whatever the sizes.
pub equal-assign : (junk : ℕ → ℕ) (s t : MiniSet) → equal (assign junk s t) s ≡ true
unfolding equal assign
equal-assign junk s t =
    let copied = λ (cells : ℕ → ℕ).
      (equal_cells-AgreeFrom s.cells (copy_cells s.cells 0 s.pend cells) 0 s.pend).1
        (copy_cells-AgreeFrom s.cells 0 s.pend cells) in
    let size : (s.pend == s.pend) ≡ true = ground arith in
    elim (Bool-cases (leb s.curr_size t.curr_size)) [
      | inl fits ↦ rw (fits, size) (copied t.cells)
      | inr grows ↦ rw (grows, size) (copied junk)
    ]
