-- ===== src/Nfa/Targets.antt =====
-- What the transitions of the machine reach.
use sq_sp.Prelude.{
  ℕ, zero, suc, ◌+◌, ◌<◌, ◌≤◌, ◌≡◌, ◌↔◌, ◌⊎◌, inl, inr, refl, Bool, true, false, not, ◌&&◌, ◌||◌,
  List, [], ◌∷◌, ◌++◌, ◌==◌, none, some, length, if◌then◌else◌, arith, Bool-cases, Option-cases,
  sym, ◌∙◌,
}
use sq_sp.MiniSet
use sq_sp.MiniSet.{MiniSet, empty_set}
use sq_sp.MiniSet.Insert.{IsSorted, Has, insert_room}
use sq_sp.Nfa.{
  NfaChord, NfaChordSet, lower_bound, up_to, insert_index, between, key, add, insert_chord,
  insert_targets, trans_states, trans_single, assign_members,
}
use sq_sp.Nfa.Data.{
  IsValid, holds, holds_same, same_chord, holds-insert_index, insert_chord-Inserts,
}
use sq_sp.Nfa.Index.{
  IsOrdered, matching, same_key, up_to-lower_bound, insert_index-IsOrdered, matching-insert_index,
}

-- A chord of the list leads to `w`.
abbrev pub Hits : ℕ → List NfaChord → Type 0
Hits w [] = ⊥
Hits w (c ∷ cs) = (w ≡ c.to_id) ⊎ Hits w cs

abbrev pub chord : ℕ → ℕ → ℕ → NfaChord
chord ch from to = record { ch = ch; from_id = from; to_id = to }

added_as :
    (c k : NfaChord) (idx : List NfaChord) (new : Bool)
    → IsOrdered idx
    → IsOrdered (if new then insert_index c idx else idx)
      × (up_to k (lower_bound k (if new then insert_index c idx else idx)) ≡ (
          if new && same_key k c
          then up_to k (lower_bound k idx) ++ c ∷ []
          else up_to k (lower_bound k idx)))
added_as c k idx false ordered = (ordered, refl)
added_as c k idx true ordered =
    let next = insert_index-IsOrdered c idx ordered in
    (
      next,
      rw (up_to-lower_bound k (insert_index c idx) next, up_to-lower_bound k idx ordered)
          (matching-insert_index k c idx ordered),
    )

not_fresh : (b : Bool) → false ≡ not b → b ≡ true
not_fresh true e = refl
not_fresh false e = ground arith

-- both have the new chord, if the set was told to take it
indexed_as :
    (c d : NfaChord) (idx : List NfaChord) (cs : List NfaChord) (new : Bool)
    → holds d idx ≡ holds d cs
    → new ≡ not (holds c cs)
    → holds d (if new then insert_index c idx else idx) ≡ (same_chord d c || holds d cs)
indexed_as c d idx cs true same fresh = holds-insert_index d c idx ∙ rw same refl
indexed_as c d idx cs false same fresh = elim (Bool-cases (same_chord d c)) [
  | inl at ↦ rw at (same ∙ (holds_same d c cs at ∙ not_fresh (holds c cs) fresh))
  | inr off ↦ rw off same
]

-- `add` keeps the set and the index ordered and the same in what they hold: the chords from before and the
-- new one. The transitions of the added signal and source are those before it, then the new one, if the set
-- did not hold it; those of all other signals and sources stay.
pub add-IsValid :
    (ch from to : ℕ) (s : NfaChordSet) (signal state : ℕ)
    → IsValid s
    → IsValid (add ch from to s)
      × ((d : NfaChord)
          → holds d (add ch from to s).chords
            ≡ (same_chord d (chord ch from to) || holds d s.chords))
      × (between signal state (add ch from to s) ≡ (
          if not (holds (chord ch from to) s.chords) && ((signal == ch) && (state == from))
          then between signal state s ++ chord ch from to ∷ []
          else between signal state s))
unfolding add
add-IsValid ch from to s signal state (sorted, ordered, same) =
    let c = chord ch from to in
    let (sorted', members, new) = insert_chord-Inserts c s.chords sorted in
    let (ordered', range) =
      added_as c (key signal state) s.index (insert_chord c s.chords).1 ordered in
    (
      (
        sorted',
        ordered',
        λ d.
            indexed_as c d s.index s.chords (insert_chord c s.chords).1 (same d) new
            ∙ sym (members d),
      ),
      members,
      rw (sym new) range,
    )

-- The sets that a loop of insertions leaves, when there is room for all targets.
insert_targets_lem :
    (junk : ℕ → ℕ) (cs : List NfaChord) (s : MiniSet)
    → IsSorted s
    → s.pend + length cs + 1 ≤ s.curr_size
    → (t : MiniSet) × (insert_targets junk cs s ≡ some t)
      × IsSorted t
      × ((w : ℕ) → Has w t ↔ (Hits w cs ⊎ Has w s))
unfolding insert_targets
insert_targets_lem junk [] s sorted room =
    (s, refl, sorted, λ w. (λ h. inr h, λ h. elim h [ inl e ↦ absurd e | inr old ↦ old ]))
insert_targets_lem junk (c ∷ cs) s sorted room =
    let (e, (order, members), pend, size) = insert_room junk c.to_id s sorted (omega arith) in
    let (t, rest, good, all) =
      insert_targets_lem junk cs (MiniSet.place c.to_id s) order (omega arith) in
    (
      t,
      rw (e, insert_targets) rest,
      good,
      λ w. (
        λ h. elim ((all w).0 h) [
          | inl hit ↦ inl (inr hit)
          | inr old ↦ elim ((members w).0 old) [ inl new ↦ inl (inl new) | inr before ↦ inr before ]
        ],
        λ h. elim h [
          | inl hit ↦ elim hit [
            | inl new ↦ (all w).1 (inr ((members w).1 (inl new)))
            | inr later ↦ (all w).1 (inl later)
          ]
          | inr before ↦ (all w).1 (inr ((members w).1 (inr before)))
        ],
      ),
    )

-- The transitions of the states `p_table[i]` and so on, `left` of them, as the index has them.
abbrev pub reached : ℕ → List NfaChord → (ℕ → ℕ) → ℕ → ℕ → List NfaChord
reached signal idx states i zero = []
reached signal idx states i (suc left) =
    matching (key signal (states i)) idx ++ reached signal idx states (i + 1) left

insert_targets-append :
    (junk : ℕ → ℕ) (xs ys : List NfaChord) (s : MiniSet)
    → insert_targets junk (xs ++ ys) s
      ≡ elim (insert_targets junk xs s) [ none ↦ none | some t ↦ insert_targets junk ys t ]
unfolding insert_targets
insert_targets-append junk [] ys s = refl
insert_targets-append junk (x ∷ xs) ys s = elim (Option-cases (MiniSet.insert junk x.to_id s)) [
  | inl e ↦ rw (e, insert_targets) refl
  | inr (t, e) ↦ rw (e, insert_targets) (insert_targets-append junk xs ys t)
]

trans_states-reached :
    (junk : ℕ → ℕ) (signal : ℕ) (s : NfaChordSet) (sset : MiniSet) (i left : ℕ) (result : MiniSet)
    → IsOrdered s.index
    → trans_states junk signal s sset i left result
      ≡ insert_targets junk (reached signal s.index sset.cells i left) result
unfolding trans_states insert_targets
trans_states-reached junk signal s sset i zero result ordered = refl
trans_states-reached junk signal s sset i (suc left) result ordered =
    let k = key signal (sset.cells i) in
    let here = up_to-lower_bound k s.index ordered in
    let both =
      insert_targets-append junk (matching k s.index)
        (reached signal s.index sset.cells (i + 1) left) result in
    elim (Option-cases (insert_targets junk (matching k s.index) result)) [
      | inl e ↦
          let one : insert_targets junk (between signal (sset.cells i) s) result ≡ none =
            rw here e in
          rw (one, trans_states) (sym (rw e at both))
      | inr (t, e) ↦
          let one : insert_targets junk (between signal (sset.cells i) s) result ≡ some t =
            rw here e in
          rw (one, trans_states)
            (trans_states-reached junk signal s sset (i + 1) left t ordered ∙ sym (rw e at both))
    ]

Hits-append : (w : ℕ) (xs ys : List NfaChord) → Hits w (xs ++ ys) ↔ (Hits w xs ⊎ Hits w ys)
Hits-append w [] ys = (λ h. inr h, λ h. elim h [ inl e ↦ absurd e | inr old ↦ old ])
Hits-append w (x ∷ xs) ys = (
  λ h. elim h [
    | inl e ↦ inl (inl e)
    | inr rest ↦ elim ((Hits-append w xs ys).0 rest) [ inl l ↦ inl (inr l) | inr r ↦ inr r ]
  ],
  λ h. elim h [
    | inl one ↦ elim one [ inl e ↦ inl e | inr l ↦ inr ((Hits-append w xs ys).1 (inl l)) ]
    | inr r ↦ inr ((Hits-append w xs ys).1 (inr r))
  ],
)

-- A state of the range `i`, ..., `i + left - 1` has a transition to `w`.
abbrev Leads : ℕ → ℕ → List NfaChord → (ℕ → ℕ) → ℕ → ℕ → Type 0
Leads w signal idx states i left =
    (k : ℕ) × (i ≤ k) × (k < i + left) × Hits w (matching (key signal (states k)) idx)

Hits-reached :
    (w signal : ℕ) (idx : List NfaChord) (states : ℕ → ℕ) (i left : ℕ)
    → Hits w (reached signal idx states i left) ↔ Leads w signal idx states i left
Hits-reached w signal idx states i zero = (λ h. absurd h, λ (k, l, m, h). absurd (omega arith))
Hits-reached w signal idx states i (suc left) =
    let here = matching (key signal (states i)) idx in
    let split = Hits-append w here (reached signal idx states (i + 1) left) in
    let later = Hits-reached w signal idx states (i + 1) left in
    (
      λ h. elim (split.0 h) [
        | inl one ↦ (i, omega arith, omega arith, one)
        | inr rest ↦ let (k, l, m, hit) = later.0 rest in (k, omega arith, omega arith, hit)
      ],
      λ (k, l, m, hit). elim (Bool-cases (k == i)) [
        | inl at ↦ let same : k ≡ i = ground arith in split.1 (inl (rw same at hit))
        | inr off ↦ split.1 (inr (later.1 (k, ground arith, omega arith, hit)))
      ],
    )

-- One step of the machine on a signal, over an ordered index, when the transitions on the signal from
-- the states of the set are fewer than 32: `result_set` is sorted and holds exactly the targets of those
-- transitions, and `trans_single` returns whether there are any. What it leaves in `sset` is the number
-- of them, but not their values: the cells are those that `dead` has, the memory of `result_set` once it
-- is destroyed.
pub trans_single_lem :
    (dead junk : ℕ → ℕ) (signal : ℕ) (s : NfaChordSet) (sset : MiniSet)
    → IsOrdered s.index
    → length (reached signal s.index sset.cells 0 sset.pend) < 32
    → (t : MiniSet) × (trans_states junk signal s sset 0 sset.pend (empty_set junk) ≡ some t)
      × IsSorted t
      × ((w : ℕ)
          → Has w t
            ↔ ((k : ℕ) × (k < sset.pend) × Hits w (matching (key signal (sset.cells k)) s.index)))
      × (trans_single dead junk signal s sset
          ≡ some (not (MiniSet.is_empty t), record t { cells = dead }))
unfolding trans_single assign_members
trans_single_lem dead junk signal s sset ordered room =
    let all = reached signal s.index sset.cells 0 sset.pend in
    let (t, e, sorted, members) =
      insert_targets_lem junk all (empty_set junk) (λ k l h i. absurd (omega arith))
        (omega arith) in
    let run = trans_states-reached junk signal s sset 0 sset.pend (empty_set junk) ordered ∙ e in
    (
      t,
      run,
      sorted,
      (λ w. (
        λ h. elim ((members w).0 h) [
          | inl hit ↦
              let (k, l, m, leads) = (Hits-reached w signal s.index sset.cells 0 sset.pend).0 hit in
              (k, omega arith, leads)
          | inr (k, l, at) ↦ absurd (omega arith)
        ],
        λ (k, l, hit). (members w).1 (
            inl (
              (Hits-reached w signal s.index sset.cells 0 sset.pend).1
                (k, omega arith, omega arith, hit))),
      )),
      rw (run, trans_single) refl,
    )
