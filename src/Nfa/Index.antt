-- ===== src/Nfa/Index.antt =====
-- The order of the index, and what lies between the bounds of a key.
use sq_sp.Prelude.{
  ◌≡◌, inl, inr, refl, Bool, true, false, ◌&&◌, List, [], ◌∷◌, ◌++◌, ◌==◌, if◌then◌else◌, All,
  arith, Bool-cases, ap, sym,
}
use sq_sp.Nfa.{NfaChord, less_ch_from, lower_bound, up_to, insert_index}

-- No chord stands behind a greater one.
abbrev pub IsOrdered : List NfaChord → Type 0
IsOrdered [] = Unit
IsOrdered (c ∷ cs) = All (λ d. less_ch_from d c ≡ false) cs × IsOrdered cs

abbrev pub same_key : NfaChord → NfaChord → Bool
same_key k d = (k.ch == d.ch) && (k.from_id == d.from_id)

-- the chords with the signal and source of `k`, in the order of the list
unfoldable pub matching : NfaChord → List NfaChord → List NfaChord
matching k [] = []
matching k (d ∷ ds) = let rest = matching k ds in if same_key k d then d ∷ rest else rest

less_trans :
    (k c d : NfaChord)
    → less_ch_from c k ≡ false
    → less_ch_from d c ≡ false
    → less_ch_from d k ≡ false
less_trans k c d h i = ground arith

less_same :
    (k d : NfaChord) → less_ch_from d k ≡ false → less_ch_from k d ≡ false → same_key k d ≡ true
less_same k d h i = ground arith

less_other : (k d : NfaChord) → less_ch_from d k ≡ true → same_key k d ≡ false
less_other k d h = ground arith

above_other :
    (k c d : NfaChord) → less_ch_from k c ≡ true → less_ch_from d c ≡ false → same_key k d ≡ false
above_other k c d h i = ground arith

pub none-matching :
    (k c : NfaChord) (ds : List NfaChord)
    → less_ch_from k c ≡ true
    → All (λ d. less_ch_from d c ≡ false) ds
    → matching k ds ≡ []
unfolding matching
none-matching k c [] h all = refl
none-matching k c (d ∷ ds) h (here, all) =
    rw (above_other k c d h here) (none-matching k c ds h all)

All-less_trans :
    (k c : NfaChord) (ds : List NfaChord)
    → less_ch_from c k ≡ false
    → All (λ d. less_ch_from d c ≡ false) ds
    → All (λ d. less_ch_from d k ≡ false) ds
All-less_trans k c [] h all = all
All-less_trans k c (d ∷ ds) h (here, all) = (less_trans k c d h here, All-less_trans k c ds h all)

up_to_lem :
    (k : NfaChord) (ds : List NfaChord)
    → IsOrdered ds
    → All (λ d. less_ch_from d k ≡ false) ds
    → up_to k ds ≡ matching k ds
unfolding up_to matching
up_to_lem k [] ordered all = refl
up_to_lem k (d ∷ ds) (first, ordered) (here, all) = elim (Bool-cases (less_ch_from k d)) [
  | inl above ↦
      rw (above, above_other k d d above (ground arith)) (sym (none-matching k d ds above first))
  | inr same ↦ rw (same, less_same k d here same) (ap (λ x. d ∷ x) (up_to_lem k ds ordered all))
]

-- In an ordered index the bounds of a key enclose its chords, all of them and in their order.
pub up_to-lower_bound :
    (k : NfaChord) (ds : List NfaChord) → IsOrdered ds → up_to k (lower_bound k ds) ≡ matching k ds
unfolding lower_bound matching up_to
up_to-lower_bound k [] ordered = refl
up_to-lower_bound k (d ∷ ds) (first, ordered) = elim (Bool-cases (less_ch_from d k)) [
  | inl below ↦ rw (below, less_other k d below) (up_to-lower_bound k ds ordered)
  | inr reached ↦
      rw reached
        (up_to_lem k (d ∷ ds) (first, ordered) (reached, All-less_trans k d ds reached first))
]

All-insert_index :
    (P : NfaChord → Bool) (c : NfaChord) (ds : List NfaChord)
    → P c ≡ false
    → All (λ d. P d ≡ false) ds
    → All (λ d. P d ≡ false) (insert_index c ds)
unfolding insert_index
All-insert_index P c [] h all = (h, all)
All-insert_index P c (d ∷ ds) h (here, all) = elim (Bool-cases (less_ch_from c d)) [
  | inl before ↦ rw before (h, (here, all))
  | inr later ↦ rw later (here, All-insert_index P c ds h all)
]

pub insert_index-IsOrdered :
    (c : NfaChord) (ds : List NfaChord) → IsOrdered ds → IsOrdered (insert_index c ds)
unfolding insert_index
insert_index-IsOrdered c [] ordered = (ordered, ordered)
insert_index-IsOrdered c (d ∷ ds) (first, ordered) = elim (Bool-cases (less_ch_from c d)) [
  | inl before ↦
      let down : less_ch_from d c ≡ false = ground arith in
      rw before ((down, All-less_trans c d ds down first), (first, ordered))
  | inr later ↦ rw later (
    All-insert_index (λ x. less_ch_from x d) c ds later first,
    insert_index-IsOrdered c ds ordered,
  )
]

pub same_above :
    (k c d : NfaChord) → same_key k c ≡ true → less_ch_from c d ≡ true → less_ch_from k d ≡ true
same_above k c d h i = ground arith

pub less_false : (k d : NfaChord) → less_ch_from k d ≡ true → same_key k d ≡ false
less_false k d h = ground arith

push_if :
    (b s : Bool) (d c : NfaChord) (m : List NfaChord)
    → (let rest = if s then m ++ c ∷ [] else m in if b then d ∷ rest else rest)
      ≡ (let whole = if b then d ∷ m else m in if s then whole ++ c ∷ [] else whole)
push_if true true d c m = refl
push_if true false d c m = refl
push_if false true d c m = refl
push_if false false d c m = refl

-- A new chord comes last among those of its key; for other keys nothing changes.
pub matching-insert_index :
    (k c : NfaChord) (ds : List NfaChord)
    → IsOrdered ds
    → matching k (insert_index c ds)
      ≡ (if same_key k c then matching k ds ++ c ∷ [] else matching k ds)
unfolding insert_index matching
matching-insert_index k c [] ordered = ground arith
matching-insert_index k c (d ∷ ds) (first, ordered) = elim (Bool-cases (less_ch_from c d)) [
  | inl before ↦ elim (Bool-cases (same_key k c)) [
    | inl same ↦
        let above = same_above k c d same before in
        rw (before, same, less_false k d above, none-matching k d ds above first) refl
    | inr other ↦ rw (before, other) refl
  ]
  | inr later ↦
      rw (later, matching-insert_index k c ds ordered)
        (push_if (same_key k d) (same_key k c) d c (matching k ds))
]
