-- ===== src/Nfa/Erase.antt =====
-- What `erase(ch,from)` leaves.
use sq_sp.Prelude.{
  ℕ, ◌≡◌, inl, inr, refl, Bool, true, false, ◌&&◌, List, [], ◌∷◌, ◌==◌, if◌then◌else◌, All, arith,
  Bool-cases,
}
use sq_sp.Nfa.{NfaChord, NfaChordSet, less_ch_from, between, key, erase_range, erase_all}
use sq_sp.Nfa.Index.{IsOrdered, matching, same_key, up_to-lower_bound, none-matching, less_false}

All-erase_range :
    (P : NfaChord → Bool) (k : NfaChord) (ds : List NfaChord)
    → All (λ d. P d ≡ false) ds
    → All (λ d. P d ≡ false) (erase_range k ds)
unfolding erase_range
All-erase_range P k [] all = all
All-erase_range P k (d ∷ ds) (here, all) = elim (Bool-cases (less_ch_from d k)) [
  | inl below ↦ rw below (here, All-erase_range P k ds all)
  | inr reached ↦ rw reached (elim (Bool-cases (less_ch_from k d)) [
    | inl above ↦ rw above (here, all)
    | inr same ↦ rw same (All-erase_range P k ds all)
  ])
]

erase_range-IsOrdered :
    (k : NfaChord) (ds : List NfaChord) → IsOrdered ds → IsOrdered (erase_range k ds)
unfolding erase_range
erase_range-IsOrdered k [] ordered = ordered
erase_range-IsOrdered k (d ∷ ds) (first, ordered) = elim (Bool-cases (less_ch_from d k)) [
  | inl below ↦
      rw below
        (All-erase_range (λ x. less_ch_from x d) k ds first, erase_range-IsOrdered k ds ordered)
  | inr reached ↦ rw reached (elim (Bool-cases (less_ch_from k d)) [
    | inl above ↦ rw above (first, ordered)
    | inr same ↦ rw same (erase_range-IsOrdered k ds ordered)
  ])
]

above_both :
    (q k d : NfaChord) → same_key q k ≡ true → less_ch_from k d ≡ true → less_ch_from q d ≡ true
above_both q k d h i = ground arith

below_other :
    (q k d : NfaChord) → less_ch_from d k ≡ true → same_key q k ≡ true → same_key q d ≡ false
below_other q k d h i = ground arith

same_both :
    (q k d : NfaChord)
    → less_ch_from d k ≡ false
    → less_ch_from k d ≡ false
    → same_key q d ≡ same_key q k
same_both q k d h i = ground arith

matching-erase_range :
    (q k : NfaChord) (ds : List NfaChord)
    → IsOrdered ds
    → matching q (erase_range k ds) ≡ (if same_key q k then [] else matching q ds)
unfolding erase_range matching
matching-erase_range q k [] ordered = ground arith
matching-erase_range q k (d ∷ ds) (first, ordered) =
    let rest = matching-erase_range q k ds ordered in
    elim (Bool-cases (less_ch_from d k)) [
      | inl below ↦
          rw (below, rest)
            (elim (Bool-cases (same_key q k)) [
              | inl here ↦ rw (here, below_other q k d below here) refl
              | inr off ↦ rw off refl
            ])
      | inr reached ↦ rw reached (elim (Bool-cases (less_ch_from k d)) [
        | inl above ↦ rw above (elim (Bool-cases (same_key q k)) [
          | inl here ↦
              let over = above_both q k d here above in
              rw (here, less_false q d over) (none-matching q d ds over first)
          | inr off ↦ rw off refl
        ])
        | inr same ↦
            rw (same, rest, same_both q k d reached same)
              (elim (Bool-cases (same_key q k)) [ inl here ↦ rw here refl | inr off ↦ rw off refl ])
      ])
    ]

-- `erase(ch,from)` keeps an ordered index ordered. It takes away all transitions of that signal and source, and
-- none of any other.
pub erase_all-IsOrdered :
    (ch from signal state : ℕ) (s : NfaChordSet)
    → IsOrdered s.index
    → IsOrdered (erase_all ch from s).index
      × (between signal state (erase_all ch from s)
          ≡ (if (signal == ch) && (state == from) then [] else between signal state s))
unfolding erase_all
erase_all-IsOrdered ch from signal state s ordered =
    let next = erase_range-IsOrdered (key ch from) s.index ordered in
    (
      next,
      rw
          (
            up_to-lower_bound (key signal state) (erase_range (key ch from) s.index) next,
            up_to-lower_bound (key signal state) s.index ordered,
          )
          (matching-erase_range (key signal state) (key ch from) s.index ordered),
    )
