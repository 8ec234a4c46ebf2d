-- ===== src/Pool/Tests.antt =====
-- Runs of the pool with two pages of two slots.
use sq_sp.Prelude.{ℕ, zero, suc, ◌<◌, ◌≡◌, ◌≢◌, refl, [], ◌∷◌, some, pos, arith}
use sq_sp.Pool.{
  Slot, Pool, Outcome, returned, thrown, fault, empty, slot_in, set_slot, with_page, alloc, free,
}
use sq_sp.Pool.Step.{IsValid, InUse, empty-IsValid}
use sq_sp.Pool.Step.Alloc.{alloc-IsValid}
use sq_sp.Pool.Step.Free.{free-IsValid}
use sq_sp.Pool.Walk.{for_each, destroy, get_handle, free_pointer}
use sq_sp.Pool.Walk.Visit.{for_each_never}
use sq_sp.Pool.Walk.Address.{address, get_handle-address}

abbrev after : Outcome (Pool × ℕ) → Pool
after (returned (p, h)) = p
after thrown = empty
after fault = empty

abbrev one : Pool
one = after (alloc 1 2 empty)

abbrev two : Pool
two = after (alloc 1 2 one)

abbrev back : Pool
back = free 1 2 (pos 0) two

abbrev four : Pool
four = after (alloc 1 2 (after (alloc 1 2 two)))

next-IsValid : (p : Pool) → IsValid 1 2 p → p.free_loc < 4 → IsValid 1 2 (after (alloc 1 2 p))
next-IsValid p v fits = let r = alloc-IsValid 1 2 p v fits in rw (r.1) (r.2)

one-IsValid : IsValid 1 2 one
one-IsValid = next-IsValid empty (empty-IsValid 1 2) (omega arith)

two-IsValid : IsValid 1 2 two
unfolding alloc with_page set_slot
two-IsValid = next-IsValid one one-IsValid (omega arith)

four-IsValid : IsValid 1 2 four
unfolding alloc with_page set_slot
four-IsValid =
    next-IsValid (after (alloc 1 2 two)) (next-IsValid two two-IsValid (omega arith)) (omega arith)

zero_in_two : InUse 1 two 0
unfolding alloc with_page set_slot
zero_in_two = (1, refl)

zero_below_back : 0 < back.last_handle
unfolding alloc free with_page set_slot
zero_below_back = omega arith

two_full : (h : ℕ) → h < two.last_handle → InUse 1 two h
unfolding alloc with_page set_slot
two_full zero b = (1, refl)
two_full (suc zero) b = (2, refl)
two_full (suc (suc h)) b = absurd (omega arith)

four_throws : alloc 1 2 four ≡ thrown
unfolding alloc with_page set_slot
four_throws = refl

walk_two : for_each 1 2 two ≡ returned (0 ∷ 1 ∷ [])
unfolding for_each alloc with_page set_slot
walk_two = refl

-- One object given back: the walk runs into the page that is not there.
destroy-back : destroy 1 2 back ≡ thrown
unfolding destroy free alloc with_page set_slot
destroy-back = refl

alloc-IsValid_example :
    (p' : Pool) × (alloc 1 2 empty ≡ returned (p', 0))
    × IsValid 1 2 p'
    × ¬ InUse 1 empty 0
    × InUse 1 p' 0
    × ((h : ℕ) (s : Slot)
        → h ≢ 0
        → slot_in 1 empty.table h ≡ some s
        → slot_in 1 p'.table h ≡ some s)
alloc-IsValid_example = alloc-IsValid 1 2 empty (empty-IsValid 1 2) (omega arith)

free-IsValid_example :
    IsValid 1 2 back
    × ¬ InUse 1 back 0
    × ((j : ℕ) → j ≢ 0 → slot_in 1 back.table j ≡ slot_in 1 two.table j)
free-IsValid_example = free-IsValid 1 2 two 0 two-IsValid zero_in_two

for_each_never_example : for_each 1 2 back ≢ returned (1 ∷ [])
for_each_never_example =
    for_each_never 1 2 back 0 free-IsValid_example.0 zero_below_back free-IsValid_example.1 (1 ∷ [])

get_handle-address_example :
    (get_handle 1 2 (address 1 2 0) two ≡ pos 0)
    × (free_pointer 1 2 (address 1 2 0) two ≡ free 1 2 (pos 0) two)
get_handle-address_example = get_handle-address 1 2 two 0 two-IsValid zero_in_two
