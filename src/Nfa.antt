-- ===== src/Nfa.antt =====
-- `nfa_chord_set` of LigSP/LigCommon/sdl_state.h and sdl_tcpstream.cpp: the transitions of a state
-- machine, in a set `data` ordered by signal, source and target, and a multiset `index` of pointers to
-- them ordered by signal and source only. A pointer is modelled by the chord that it points to, and
-- signals and states are numbers that are not negative.
mod Tests
pub mod Index
pub mod Data
pub mod Targets
pub mod Single
pub mod Erase
use sq_sp.Prelude.{
  ℕ, zero, suc, ◌+◌, ◌*◌, Bool, true, false, not, ◌&&◌, ◌||◌, List, [], ◌∷◌, ◌++◌, Option, none,
  some, ◌==◌, ltb, length, if◌then◌else◌,
}
use sq_sp.MiniSet
use sq_sp.MiniSet.{MiniSet, empty_set}

pub record NfaChord : Type 0 where
  pub ch : ℕ
  pub from_id : ℕ
  pub to_id : ℕ

-- `less_nfa_chord_ch_from`
abbrev pub less_ch_from : NfaChord → NfaChord → Bool
less_ch_from p q = if p.ch == q.ch then ltb p.from_id q.from_id else ltb p.ch q.ch

-- `less_nfa_chord`
abbrev pub less_chord : NfaChord → NfaChord → Bool
less_chord p q =
    if p.ch == q.ch
    then (if p.from_id == q.from_id then ltb p.to_id q.to_id else ltb p.from_id q.from_id)
    else ltb p.ch q.ch

pub record NfaChordSet : Type 0 where
  pub chords : List NfaChord
  pub index : List NfaChord
  pub id : ℕ
  pub curr : MiniSet

-- `data.insert(tmp)`: the set and `rt.second`
unfoldable pub insert_chord : NfaChord → List NfaChord → List NfaChord × Bool
insert_chord c [] = (c ∷ [], true)
insert_chord c (d ∷ ds) =
    let rest = insert_chord c ds in
    if less_chord c d
    then (c ∷ d ∷ ds, true)
    else if less_chord d c
    then (d ∷ rest.0, rest.1)
    else (d ∷ ds, false)

-- `data.erase(data.find(c))`, and whether it was found
unfoldable pub erase_chord : NfaChord → List NfaChord → List NfaChord × Bool
erase_chord c [] = ([], false)
erase_chord c (d ∷ ds) =
    let rest = erase_chord c ds in
    if less_chord d c
    then (d ∷ rest.0, rest.1)
    else if less_chord c d
    then (d ∷ ds, false)
    else (ds, true)

-- `index.insert(&c)`: behind the chords of the same signal and source
unfoldable pub insert_index : NfaChord → List NfaChord → List NfaChord
insert_index c [] = c ∷ []
insert_index c (d ∷ ds) = if less_ch_from c d then c ∷ d ∷ ds else d ∷ insert_index c ds

-- from `index.lower_bound(&k)` to the end
unfoldable pub lower_bound : NfaChord → List NfaChord → List NfaChord
lower_bound k [] = []
lower_bound k (d ∷ ds) = if less_ch_from d k then lower_bound k ds else d ∷ ds

-- the chords of such a rest in front of `index.upper_bound(&k)`
unfoldable pub up_to : NfaChord → List NfaChord → List NfaChord
up_to k [] = []
up_to k (d ∷ ds) = if less_ch_from k d then [] else d ∷ up_to k ds

-- `tmp` with its signal and source; its target plays no role in the index
abbrev pub key : ℕ → ℕ → NfaChord
key ch from = record { ch = ch; from_id = from; to_id = 0 }

-- what lies between `start` and `end`
abbrev pub between : ℕ → ℕ → NfaChordSet → List NfaChord
between ch from s = up_to (key ch from) (lower_bound (key ch from) s.index)

-- `add(ch,from,to)`
unfoldable pub add : ℕ → ℕ → ℕ → NfaChordSet → NfaChordSet
add ch from to s =
    let tmp : NfaChord = record { ch = ch; from_id = from; to_id = to } in
    let rt = insert_chord tmp s.chords in
    record s { chords = rt.0; index = if rt.1 then insert_index tmp s.index else s.index }

-- `add_NULL(from,to)`
abbrev pub add_null : ℕ → ℕ → NfaChordSet → NfaChordSet
add_null from to = add 0 from to

-- The loop of `erase(ch,from,to)` on the index: the first chord of the range with that target goes.
unfoldable pub erase_target : NfaChord → List NfaChord → List NfaChord
erase_target c [] = []
erase_target c (d ∷ ds) =
    let rest = erase_target c ds in
    if less_ch_from d c
    then d ∷ rest
    else if less_ch_from c d
    then d ∷ ds
    else if d.to_id == c.to_id
    then ds
    else d ∷ rest

-- `erase(ch,from,to)`
unfoldable pub erase_one : ℕ → ℕ → ℕ → NfaChordSet → NfaChordSet
erase_one ch from to s =
    let tmp : NfaChord = record { ch = ch; from_id = from; to_id = to } in
    let rt = erase_chord tmp s.chords in
    if rt.1 then record s { chords = rt.0; index = erase_target tmp s.index } else s

-- The loop of `erase(ch,from)` on `data`, over the chords of the range.
unfoldable pub erase_chords : List NfaChord → List NfaChord → List NfaChord
erase_chords [] cs = cs
erase_chords (c ∷ range) cs = erase_chords range (erase_chord c cs).0

-- ... and on the index
unfoldable pub erase_range : NfaChord → List NfaChord → List NfaChord
erase_range k [] = []
erase_range k (d ∷ ds) =
    let rest = erase_range k ds in
    if less_ch_from d k then d ∷ rest else if less_ch_from k d then d ∷ ds else rest

-- `erase(ch,from)`
unfoldable pub erase_all : ℕ → ℕ → NfaChordSet → NfaChordSet
erase_all ch from s = record s {
  chords = erase_chords (between ch from s) s.chords;
  index = erase_range (key ch from) s.index;
}

-- `find(from,ch)`
unfoldable pub find : ℕ → ℕ → NfaChordSet → Bool
find from ch s = elim (lower_bound (key ch from) s.index) [
  | [] ↦ false
  | d ∷ ds ↦ not (less_ch_from (key ch from) d)
]

-- The loops that insert the targets of a range into a `P_SET`; `none` is its throw. `junk` is what the
-- heap holds when the set grows.
unfoldable pub insert_targets : (ℕ → ℕ) → List NfaChord → MiniSet → Option MiniSet
insert_targets junk [] result = some result
insert_targets junk (c ∷ cs) result = elim (MiniSet.insert junk c.to_id result) [
  | none ↦ none
  | some grown ↦ insert_targets junk cs grown
]

-- `prompt(from,ch,result_set)`: the result and the set
unfoldable pub prompt : (ℕ → ℕ) → ℕ → ℕ → NfaChordSet → MiniSet → Option (Bool × MiniSet)
prompt junk from ch s result = elim (lower_bound (key ch from) s.index) [
  | [] ↦ some (false, result)
  | d ∷ ds ↦ elim (insert_targets junk (between ch from s) result) [
    | none ↦ none
    | some grown ↦ some (true, grown)
  ]
]

-- `prompt(from,ch)`: into `curr`, cleared
unfoldable pub prompt_curr : (ℕ → ℕ) → ℕ → ℕ → NfaChordSet → Option (Bool × NfaChordSet)
prompt_curr junk from ch s = elim (prompt junk from ch s (MiniSet.clear s.curr)) [
  | none ↦ none
  | some (ok, grown) ↦ some (ok, record s { curr = grown })
]

-- `trans_single_base(from,ch)`: the result; `curr` is cleared. It does not look at `end`.
unfoldable pub trans_single_base : ℕ → ℕ → NfaChordSet → ℕ × NfaChordSet
trans_single_base from ch s = elim (lower_bound (key ch from) s.index) [
  | [] ↦ (0, record s { curr = MiniSet.clear s.curr })
  | d ∷ ds ↦ (d.to_id, record s { curr = MiniSet.clear s.curr })
]

-- The loop of `trans` and `trans_single` over the states, `left` of them from `p_table[i]` on.
unfoldable pub trans_states : (ℕ → ℕ) → ℕ → NfaChordSet → MiniSet → ℕ → ℕ → MiniSet → Option MiniSet
trans_states junk signal s sset i zero result = some result
trans_states junk signal s sset i (suc left) result =
    elim (insert_targets junk (between signal (sset.cells i) s) result) [
      | none ↦ none
      | some grown ↦ trans_states junk signal s sset (i + 1) left grown
    ]

-- `sset=result_set`. `sdl_mini_set` declares no assignment, so the members are copied one by one, and
-- `p_table` with them: it points to the cells of the local `result_set`, in the object or on the heap,
-- which do not outlive the call. The set has then what stands there, `dead`.
unfoldable pub assign_members : (ℕ → ℕ) → MiniSet → MiniSet
assign_members dead result = record result { cells = dead }

-- `trans_single(signal,sset)`: the result and what `sset` is after the call
unfoldable pub trans_single :
    (ℕ → ℕ) → (ℕ → ℕ) → ℕ → NfaChordSet → MiniSet → Option (Bool × MiniSet)
trans_single dead junk signal s sset =
    elim (trans_states junk signal s sset 0 sset.pend (empty_set junk)) [
      | none ↦ none
      | some result ↦ some (not (MiniSet.is_empty result), assign_members dead result)
    ]

-- `trans(signal,sset)`: as above, but a set that goes over into itself is left
unfoldable pub trans : (ℕ → ℕ) → (ℕ → ℕ) → ℕ → NfaChordSet → MiniSet → Option (Bool × MiniSet)
trans dead junk signal s sset =
    elim (trans_states junk signal s sset 0 sset.pend (empty_set junk)) [
      | none ↦ none
      | some result ↦ some (
          if MiniSet.equal sset result
          then (false, sset)
          else (not (MiniSet.is_empty result), assign_members dead result))
    ]

-- `get_id()` and `clear()`
abbrev pub get_id : NfaChordSet → ℕ × NfaChordSet
get_id s = (s.id + 1, record s { id = s.id + 1 })

abbrev pub clear : NfaChordSet → NfaChordSet
clear s = record s { curr = MiniSet.clear s.curr }
