-- ===== src/Nfa/Data.antt =====
-- The set `data` of a state machine and the index over it: what an insertion does to the order and the
-- elements of each.
use sq_sp.Prelude.{
  ◌≡◌, inl, inr, refl, Bool, true, false, not, ◌&&◌, ◌||◌, List, [], ◌∷◌, ◌==◌, All, arith,
  Bool-cases,
}
use sq_sp.Nfa.{NfaChord, NfaChordSet, less_chord, less_ch_from, insert_chord, insert_index}
use sq_sp.Nfa.Index.{IsOrdered}

-- Each chord of the set is less than those behind it.
abbrev pub IsChordSet : List NfaChord → Type 0
IsChordSet [] = Unit
IsChordSet (c ∷ cs) = All (λ d. less_chord c d ≡ true) cs × IsChordSet cs

-- the same signal, source and target
abbrev pub same_chord : NfaChord → NfaChord → Bool
same_chord c d = (c.ch == d.ch) && ((c.from_id == d.from_id) && (c.to_id == d.to_id))

unfoldable pub holds : NfaChord → List NfaChord → Bool
holds c [] = false
holds c (d ∷ ds) = same_chord c d || holds c ds

less_chord_trans :
    (c d e : NfaChord) → less_chord c d ≡ true → less_chord d e ≡ true → less_chord c e ≡ true
less_chord_trans c d e h i = ground arith

less_chord_other : (c d : NfaChord) → less_chord c d ≡ true → same_chord c d ≡ false
less_chord_other c d h = ground arith

greater_chord_other : (c d : NfaChord) → less_chord d c ≡ true → same_chord c d ≡ false
greater_chord_other c d h = ground arith

-- Two chords of which none is less are the same.
neither_less :
    (c d : NfaChord) → less_chord c d ≡ false → less_chord d c ≡ false → same_chord c d ≡ true
neither_less c d h i = ground arith

same_chord_trans :
    (e c d : NfaChord) → same_chord e c ≡ true → same_chord c d ≡ true → same_chord e d ≡ true
same_chord_trans e c d h i = ground arith

All-less_chord :
    (c d : NfaChord) (ds : List NfaChord)
    → less_chord c d ≡ true
    → All (λ e. less_chord d e ≡ true) ds
    → All (λ e. less_chord c e ≡ true) ds
All-less_chord c d [] less all = all
All-less_chord c d (e ∷ ds) less (here, all) =
    (less_chord_trans c d e less here, All-less_chord c d ds less all)

less-holds :
    (c : NfaChord) (ds : List NfaChord) → All (λ d. less_chord c d ≡ true) ds → holds c ds ≡ false
unfolding holds
less-holds c [] all = refl
less-holds c (d ∷ ds) (here, all) = rw (less_chord_other c d here) (less-holds c ds all)

All-insert_chord :
    (c d : NfaChord) (ds : List NfaChord)
    → less_chord d c ≡ true
    → All (λ e. less_chord d e ≡ true) ds
    → All (λ e. less_chord d e ≡ true) (insert_chord c ds).0
unfolding insert_chord
All-insert_chord c d [] less all = (less, all)
All-insert_chord c d (e ∷ ds) less (here, all) = elim (Bool-cases (less_chord c e)) [
  | inl before ↦ rw before (less, (here, all))
  | inr other ↦ elim (Bool-cases (less_chord e c)) [
    | inl behind ↦ rw (other, behind) (here, All-insert_chord c d ds less all)
    | inr same ↦ rw (other, same) (here, all)
  ]
]

pub swap_or : (a b h : Bool) → (a || (b || h)) ≡ (b || (a || h))
swap_or true true h = refl
swap_or true false h = refl
swap_or false true h = refl
swap_or false false h = refl

same_chord_eq : (e c d : NfaChord) → same_chord e c ≡ true → same_chord e d ≡ same_chord c d
same_chord_eq e c d h = ground arith

-- a chord is held where the same one is
pub holds_same :
    (e c : NfaChord) (cs : List NfaChord) → same_chord e c ≡ true → holds e cs ≡ holds c cs
unfolding holds
holds_same e c [] h = refl
holds_same e c (d ∷ cs) h = rw (same_chord_eq e c d h, holds_same e c cs h) refl

-- What an insertion leaves: a set with the chord and those before, and whether it is new.
abbrev pub Inserts : NfaChord → List NfaChord → List NfaChord × Bool → Type 0
Inserts c cs (after, new) =
    IsChordSet after
    × ((d : NfaChord) → holds d after ≡ (same_chord d c || holds d cs))
    × (new ≡ not (holds c cs))

absorb :
    (e c d : NfaChord) (h : Bool)
    → same_chord c d ≡ true
    → (same_chord e d || h) ≡ (same_chord e c || (same_chord e d || h))
absorb e c d h same = elim (Bool-cases (same_chord e c)) [
  | inl at ↦ rw (same_chord_trans e c d at same, at) refl
  | inr off ↦ rw off refl
]

pub insert_chord-Inserts :
    (c : NfaChord) (cs : List NfaChord) → IsChordSet cs → Inserts c cs (insert_chord c cs)
unfolding insert_chord holds
insert_chord-Inserts c [] sorted = ((sorted, sorted), (λ d. refl), refl)
insert_chord-Inserts c (d ∷ ds) (first, sorted) = elim (Bool-cases (less_chord c d)) [
  | inl before ↦
      let all = All-less_chord c d ds before first in
      rw (before, less_chord_other c d before, less-holds c ds all)
        (((before, all), (first, sorted)), (λ e. refl), refl)
  | inr other ↦
      let (order, members, new) = insert_chord-Inserts c ds sorted in
      elim (Bool-cases (less_chord d c)) [
        | inl behind ↦
            rw (other, behind, greater_chord_other c d behind)
              (
                (All-insert_chord c d ds behind first, order),
                (λ e. rw (members e) (swap_or (same_chord e d) (same_chord e c) (holds e ds))),
                new,
              )
        | inr same ↦
            let is = neither_less c d other same in
            rw (other, same, is) ((first, sorted), (λ e. absorb e c d (holds e ds) is), refl)
      ]
]

pub holds-insert_index :
    (d c : NfaChord) (cs : List NfaChord)
    → holds d (insert_index c cs) ≡ (same_chord d c || holds d cs)
unfolding holds insert_index
holds-insert_index d c [] = refl
holds-insert_index d c (e ∷ cs) = elim (Bool-cases (less_ch_from c e)) [
  | inl before ↦ rw before refl
  | inr behind ↦
      rw (behind, holds-insert_index d c cs)
        (swap_or (same_chord d e) (same_chord d c) (holds d cs))
]

-- `data` is a set, `index` is ordered, and both have the same chords.
abbrev pub IsValid : NfaChordSet → Type 0
IsValid s =
    IsChordSet s.chords × IsOrdered s.index × ((d : NfaChord) → holds d s.index ≡ holds d s.chords)
