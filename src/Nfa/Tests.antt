-- ===== src/Nfa/Tests.antt =====
-- Runs of the machine.
use sq_sp.Prelude.{
  ℕ, ◌<◌, ◌≡◌, ◌↔◌, refl, false, not, ◌&&◌, ◌||◌, [], ◌∷◌, ◌++◌, some, arith, ◌==◌, if◌then◌else◌,
  length,
}
use sq_sp.MiniSet
use sq_sp.MiniSet.{MiniSet, empty_set}
use sq_sp.MiniSet.Insert.{IsSorted, Has}
use sq_sp.Nfa.{
  NfaChord, NfaChordSet, add, erase_one, erase_all, between, key, trans_single, trans_states,
  insert_chord, lower_bound, insert_index, erase_chord, erase_target, erase_chords, up_to,
}
use sq_sp.Nfa.Data.{IsValid, holds, same_chord, swap_or}
use sq_sp.Nfa.Index.{IsOrdered, matching}
use sq_sp.Nfa.Targets.{Hits, chord, reached, add-IsValid, trans_single_lem}
use sq_sp.Nfa.Erase.{erase_all-IsOrdered}

abbrev zeros : ℕ → ℕ
zeros i = 0

abbrev blank : NfaChordSet
blank = record { chords = []; index = []; id = 1; curr = empty_set zeros }

-- from state 1, signal 5 leads to 2 and 3, signal 7 to 4
abbrev fork : NfaChordSet
fork = record {
  chords = chord 5 1 2 ∷ chord 5 1 3 ∷ chord 7 1 4 ∷ [];
  index = chord 5 1 3 ∷ chord 5 1 2 ∷ chord 7 1 4 ∷ [];
  id = 1;
  curr = empty_set zeros;
}

abbrev state_one : MiniSet
state_one = record { cells = λ i. 1; pend = 1; curr_size = 32 }

fork-IsOrdered : IsOrdered fork.index
fork-IsOrdered = (ground arith)

built : add 7 1 4 (add 5 1 2 (add 5 1 3 blank)) ≡ fork
unfolding add insert_chord insert_index
built = refl

-- The same chord again changes nothing.
added_again : add 5 1 3 fork ≡ fork
unfolding add insert_chord insert_index
added_again = refl

erased_one : (erase_one 5 1 3 fork).index ≡ chord 5 1 2 ∷ chord 7 1 4 ∷ []
unfolding erase_one erase_chord erase_target
erased_one = refl

erased_all : (erase_all 5 1 fork).chords ≡ chord 7 1 4 ∷ []
unfolding erase_all erase_chords erase_chord up_to lower_bound
erased_all = refl

fork-IsValid : IsValid fork
unfolding holds
fork-IsValid = (
  ground arith,
  fork-IsOrdered,
  (λ d.
      swap_or (same_chord d (chord 5 1 3)) (same_chord d (chord 5 1 2))
        (same_chord d (chord 7 1 4) || false)),
)

add-IsValid_example :
    IsValid (add 5 1 9 fork)
    × ((d : NfaChord)
        → holds d (add 5 1 9 fork).chords ≡ (same_chord d (chord 5 1 9) || holds d fork.chords))
    × (between 5 1 (add 5 1 9 fork) ≡ (
        if not (holds (chord 5 1 9) fork.chords) && ((5 == 5) && (1 == 1))
        then between 5 1 fork ++ chord 5 1 9 ∷ []
        else between 5 1 fork))
add-IsValid_example = add-IsValid 5 1 9 fork 5 1 fork-IsValid

erase_all-IsOrdered_example :
    IsOrdered (erase_all 5 1 fork).index
    × (between 7 1 (erase_all 5 1 fork) ≡ (if (7 == 5) && (1 == 1) then [] else between 7 1 fork))
erase_all-IsOrdered_example = erase_all-IsOrdered 5 1 7 1 fork fork-IsOrdered

two_reached : length (reached 5 fork.index (λ i. 1) 0 1) < 32
unfolding matching
two_reached = omega arith

trans_single_lem_example :
    (t : MiniSet) × (trans_states zeros 5 fork state_one 0 1 (empty_set zeros) ≡ some t)
    × IsSorted t
    × ((w : ℕ) → Has w t ↔ ((k : ℕ) × (k < 1) × Hits w (matching (key 5 1) fork.index)))
    × (trans_single zeros zeros 5 fork state_one
        ≡ some (not (MiniSet.is_empty t), record t { cells = zeros }))
trans_single_lem_example = trans_single_lem zeros zeros 5 fork state_one fork-IsOrdered two_reached
