-- ===== src/Nfa/Single.antt =====
-- `find` and `trans_single_base`.
use sq_sp.Prelude.{
  ℕ, ◌≡◌, inl, inr, refl, Bool, true, false, not, List, [], ◌∷◌, arith, Bool-cases, ap, sym, ◌∙◌,
}
use sq_sp.Nfa.{
  NfaChord, NfaChordSet, less_ch_from, lower_bound, up_to, key, find, trans_single_base,
}
use sq_sp.Nfa.Index.{IsOrdered, matching, same_key, up_to-lower_bound}

-- the target of the first chord, or `d`
abbrev pub first_target : List NfaChord → ℕ → ℕ
first_target [] d = d
first_target (c ∷ cs) d = c.to_id

abbrev pub is_nil : List NfaChord → Bool
is_nil [] = true
is_nil (c ∷ cs) = false

up_to-is_nil : (k d : NfaChord) (ds : List NfaChord) → is_nil (up_to k (d ∷ ds)) ≡ less_ch_from k d
unfolding up_to
up_to-is_nil k d ds = elim (Bool-cases (less_ch_from k d)) [ inl e ↦ rw e refl | inr e ↦ rw e refl ]

find_as :
    (k : NfaChord) (rest : List NfaChord)
    → elim rest [ [] ↦ false | d ∷ ds ↦ not (less_ch_from k d) ] ≡ not (is_nil (up_to k rest))
unfolding up_to
find_as k [] = refl
find_as k (d ∷ ds) = ap not (sym (up_to-is_nil k d ds))

-- In an ordered index, `find` tells whether the state has a transition on the signal.
pub find_lem :
    (from ch : ℕ) (s : NfaChordSet)
    → IsOrdered s.index
    → find from ch s ≡ not (is_nil (matching (key ch from) s.index))
unfolding find
find_lem from ch s ordered =
    let k = key ch from in
    find_as k (lower_bound k s.index)
    ∙ ap (λ l. not (is_nil l)) (up_to-lower_bound k s.index ordered)

base_as :
    (k : NfaChord) (rest : List NfaChord)
    → is_nil (up_to k rest) ≡ false
    → first_target rest 0 ≡ first_target (up_to k rest) 0
unfolding up_to
base_as k [] h = ground arith
base_as k (d ∷ ds) h = elim (Bool-cases (less_ch_from k d)) [
  | inl e ↦ ground arith
  | inr e ↦ rw e refl
]

result_as :
    (rest : List NfaChord) (after : NfaChordSet)
    → ((elim rest as (λ x. ℕ × NfaChordSet) [ [] ↦ (0, after) | d ∷ ds ↦ (d.to_id, after) ]).0
        ≡ first_target rest 0)
result_as [] after = refl
result_as (d ∷ ds) after = refl

base_result :
    (from ch : ℕ) (s : NfaChordSet)
    → (trans_single_base from ch s).0 ≡ first_target (lower_bound (key ch from) s.index) 0
unfolding trans_single_base
base_result from ch s = result_as (lower_bound (key ch from) s.index) _

-- Where `find` is true, `trans_single_base` returns the target of the first transition of the state on
-- the signal.
pub trans_single_base_lem :
    (from ch : ℕ) (s : NfaChordSet)
    → IsOrdered s.index
    → find from ch s ≡ true
    → (trans_single_base from ch s).0 ≡ first_target (matching (key ch from) s.index) 0
trans_single_base_lem from ch s ordered found =
    let k = key ch from in
    let e = up_to-lower_bound k s.index ordered in
    let some_one : is_nil (matching k s.index) ≡ false =
      ground (arith, find_lem from ch s ordered) in
    base_result from ch s
    ∙ (base_as k (lower_bound k s.index) (rw e some_one) ∙ ap (λ l. first_target l 0) e)

-- In an ordered index, where `find` is false, `trans_single_base` does not return 0 but the target of
-- the next greater chord of the index, if there is one.
pub trans_single_base_next :
    (from ch : ℕ) (s : NfaChordSet) (d : NfaChord) (ds : List NfaChord)
    → IsOrdered s.index
    → find from ch s ≡ false
    → lower_bound (key ch from) s.index ≡ d ∷ ds
    → (same_key (key ch from) d ≡ false) × ((trans_single_base from ch s).0 ≡ d.to_id)
unfolding find
trans_single_base_next from ch s d ds ordered missing next =
    let above : less_ch_from (key ch from) d ≡ true = ground arith in
    (ground arith, base_result from ch s ∙ ap (λ l. first_target l 0) next)
