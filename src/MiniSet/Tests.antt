-- ===== src/MiniSet/Tests.antt =====
-- Runs of the set.
use sq_sp.Prelude.{ℕ, negsuc, ◌*◌, ◌≡◌, ◌↔◌, ◌⊎◌, refl, some, arith, true, ltb, if◌then◌else◌}
use sq_sp.MiniSet.{
  MiniSet, unsigned, get_hashvalue, insert, resize, equal, item, empty_set, place, clear, is_empty,
}
use sq_sp.MiniSet.Insert.{IsSorted, Has, insert-IsSorted}
use sq_sp.MiniSet.Equal.{equal-Has}
use sq_sp.MiniSet.Grow.{resize_lem, insert_loses, grown}

-- the even numbers from 0
abbrev evens : ℕ → ℕ → MiniSet
evens n size = record { cells = λ i. i * 2; pend = n; curr_size = size }

abbrev zeros : ℕ → ℕ
zeros i = 0

evens-IsSorted : (n size : ℕ) → IsSorted (evens n size)
evens-IsSorted n size k l kl lp = omega arith

found_again : item (place 3 (evens 4 32)) 2 ≡ 3
unfolding item place
found_again = refl

-- The low 16 bits alone are tested.
item_wraps : item (evens 4 32) 65536 ≡ 131072
unfolding item
item_wraps = refl

equal_itself : equal (evens 4 32) (place 2 (evens 4 64)) ≡ true
unfolding equal place
equal_itself = refl

cleared : is_empty (clear (evens 4 32)) ≡ true
cleared = refl

starts_empty : is_empty (empty_set zeros) ≡ true
starts_empty = refl

insert-IsSorted_example :
    (t : MiniSet) × (insert zeros 5 (evens 4 32) ≡ some t)
    × IsSorted t
    × ((w : ℕ) → Has w t ↔ ((w ≡ 5) ⊎ Has w (evens 4 32)))
insert-IsSorted_example = insert-IsSorted zeros 5 (evens 4 32) (evens-IsSorted 4 32) (omega arith)

resize_lem_example :
    (t : MiniSet) × (resize zeros (evens 31 32) ≡ some t)
    × (t.pend ≡ 31)
    × ((i : ℕ) → t.cells i ≡ (if ltb (i * 4) 32 then i * 2 else 0))
resize_lem_example = resize_lem zeros (evens 31 32) (omega arith)

insert_loses_example : ¬ Has 60 (place 7 (grown zeros (evens 31 32)))
unfolding insert resize
insert_loses_example =
    insert_loses 7 30 (evens 31 32) (place 7 (grown zeros (evens 31 32))) (evens-IsSorted 31 32)
      (omega arith) refl refl (omega arith) (omega arith) (omega arith)

hash_run : get_hashvalue (evens 3 32) ≡ 196614
unfolding get_hashvalue
hash_run = refl

minus_one_unsigned : unsigned (negsuc 0) ≡ 4294967295
minus_one_unsigned = refl

equal-Has_example :
    (equal (evens 4 32) (place 2 (evens 4 64)) ≡ true)
    ↔ ((w : ℕ) → Has w (evens 4 32) ↔ Has w (place 2 (evens 4 64)))
unfolding place
equal-Has_example =
    equal-Has (evens 4 32) (place 2 (evens 4 64)) (evens-IsSorted 4 32) (evens-IsSorted 4 64)
