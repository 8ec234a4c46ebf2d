-- ===== src/Session/Store.antt =====
-- The ordered set of sessions.
use sq_sp.Prelude.{
  ℕ, ◌≡◌, inl, inr, refl, Bool, true, false, List, [], ◌∷◌, none, some, Bytes, eq_bytes,
  eq_bytes_iff, All, arith, Bool-cases, ap,
}
use sq_sp.Session.{SessionItem, less_bytes, find_item, insert_item, stamp, erase_item}

-- Every key is smaller than those behind it.
abbrev pub IsSorted : List SessionItem → Type 0
IsSorted [] = Unit
IsSorted (s ∷ rest) = All (λ t. less_bytes s.session_key t.session_key ≡ true) rest × IsSorted rest

less_irrefl : (a : Bytes) → less_bytes a a ≡ false
unfolding less_bytes
less_irrefl [] = refl
less_irrefl (x ∷ xs) = ground (arith, less_irrefl xs)

less_trans : (a b c : Bytes) → less_bytes a b ≡ true → less_bytes b c ≡ true → less_bytes a c ≡ true
unfolding less_bytes
less_trans a b [] h i = ground arith
less_trans a [] (z ∷ zs) h i = ground arith
less_trans [] (y ∷ ys) (z ∷ zs) h i = refl
less_trans (x ∷ xs) (y ∷ ys) (z ∷ zs) h i = ground (arith, less_trans xs ys zs)

-- Of two keys that differ one is smaller.
less_total : (a b : Bytes) → eq_bytes a b ≡ false → less_bytes b a ≡ false → less_bytes a b ≡ true
unfolding less_bytes
less_total [] [] h i = ground arith
less_total [] (y ∷ ys) h i = refl
less_total (x ∷ xs) [] h i = ground arith
less_total (x ∷ xs) (y ∷ ys) h i = ground (arith, less_total xs ys)

less-eq_bytes : (a b : Bytes) → less_bytes a b ≡ true → eq_bytes b a ≡ false
unfolding less_bytes
less-eq_bytes [] [] h = ground arith
less-eq_bytes [] (y ∷ ys) h = refl
less-eq_bytes (x ∷ xs) [] h = ground arith
less-eq_bytes (x ∷ xs) (y ∷ ys) h = ground (arith, less-eq_bytes xs ys)

find_none :
    (k : Bytes) (db : List SessionItem)
    → All (λ t. less_bytes k t.session_key ≡ true) db
    → find_item k db ≡ none
unfolding find_item
find_none k [] all = refl
find_none k (t ∷ db) (here, all) = rw (less-eq_bytes k t.session_key here) (find_none k db all)

pub find-erase_item :
    (k : Bytes) (db : List SessionItem) → IsSorted db → find_item k (erase_item k db) ≡ none
unfolding find_item erase_item
find-erase_item k [] sorted = refl
find-erase_item k (s ∷ db) (first, sorted) = elim (Bool-cases (eq_bytes s.session_key k)) [
  | inl same ↦
      let is : s.session_key ≡ k = (eq_bytes_iff s.session_key k).0 same in
      rw same (find_none k db (rw is at first))
  | inr other ↦ rw (other, other) (find-erase_item k db sorted)
]

All-stamp :
    (P : Bytes → Bool) (k : Bytes) (clock : ℕ) (db : List SessionItem)
    → All (λ t. P t.session_key ≡ true) db
    → All (λ t. P t.session_key ≡ true) (stamp k clock db)
unfolding stamp
All-stamp P k clock [] all = all
All-stamp P k clock (s ∷ db) (here, all) = elim (Bool-cases (eq_bytes s.session_key k)) [
  | inl same ↦ rw same (here, all)
  | inr other ↦ rw other (here, All-stamp P k clock db all)
]

pub stamp-IsSorted :
    (k : Bytes) (clock : ℕ) (db : List SessionItem) → IsSorted db → IsSorted (stamp k clock db)
unfolding stamp
stamp-IsSorted k clock [] sorted = sorted
stamp-IsSorted k clock (s ∷ db) (first, sorted) = elim (Bool-cases (eq_bytes s.session_key k)) [
  | inl same ↦ rw same (first, sorted)
  | inr other ↦
      rw other
        (All-stamp (less_bytes s.session_key) k clock db first, stamp-IsSorted k clock db sorted)
]

pub find-stamp :
    (k : Bytes) (clock : ℕ) (db : List SessionItem) (s : SessionItem)
    → find_item k db ≡ some s
    → find_item k (stamp k clock db) ≡ some (record s { time_stamp = clock })
unfolding find_item stamp
find-stamp k clock [] s h = ground arith
find-stamp k clock (t ∷ db) s h = elim (Bool-cases (eq_bytes t.session_key k)) [
  | inl same ↦ rw (same, same) (ap (λ o. o) (ground arith))
  | inr other ↦ rw (other, other) (find-stamp k clock db s (rw other at h))
]

All-erase_item :
    (P : Bytes → Bool) (k : Bytes) (db : List SessionItem)
    → All (λ t. P t.session_key ≡ true) db
    → All (λ t. P t.session_key ≡ true) (erase_item k db)
unfolding erase_item
All-erase_item P k [] all = all
All-erase_item P k (s ∷ db) (here, all) = elim (Bool-cases (eq_bytes s.session_key k)) [
  | inl same ↦ rw same all
  | inr other ↦ rw other (here, All-erase_item P k db all)
]

pub erase_item-IsSorted :
    (k : Bytes) (db : List SessionItem) → IsSorted db → IsSorted (erase_item k db)
unfolding erase_item
erase_item-IsSorted k [] sorted = sorted
erase_item-IsSorted k (s ∷ db) (first, sorted) = elim (Bool-cases (eq_bytes s.session_key k)) [
  | inl same ↦ rw same sorted
  | inr other ↦
      rw other
        (All-erase_item (less_bytes s.session_key) k db first, erase_item-IsSorted k db sorted)
]

eq_bytes_refl : (a : Bytes) → eq_bytes a a ≡ true
eq_bytes_refl a = (eq_bytes_iff a a).1 refl

-- the item inserted is found under its key
pub find-insert_item :
    (t : SessionItem) (db : List SessionItem)
    → (insert_item t db).1 ≡ true
    → find_item t.session_key (insert_item t db).0 ≡ some t
unfolding find_item insert_item
find-insert_item t [] h = rw (eq_bytes_refl t.session_key) refl
find-insert_item t (s ∷ db) h = elim (Bool-cases (eq_bytes s.session_key t.session_key)) [
  | inl same ↦ ground arith
  | inr other ↦ elim (Bool-cases (less_bytes t.session_key s.session_key)) [
    | inl before ↦ rw (other, before, eq_bytes_refl t.session_key) refl
    | inr behind ↦ rw (other, behind, other) (find-insert_item t db (rw (other, behind) at h))
  ]
]

All-insert_item :
    (P : Bytes → Bool) (t : SessionItem) (db : List SessionItem)
    → P t.session_key ≡ true
    → All (λ s. P s.session_key ≡ true) db
    → All (λ s. P s.session_key ≡ true) (insert_item t db).0
unfolding insert_item
All-insert_item P t [] h all = (h, all)
All-insert_item P t (s ∷ db) h (here, all) =
    elim (Bool-cases (eq_bytes s.session_key t.session_key)) [
      | inl same ↦ rw same (here, all)
      | inr other ↦ rw other (elim (Bool-cases (less_bytes t.session_key s.session_key)) [
        | inl before ↦ rw before (h, (here, all))
        | inr behind ↦ rw behind (here, All-insert_item P t db h all)
      ])
    ]

All-less_trans :
    (a b : Bytes) (db : List SessionItem)
    → less_bytes a b ≡ true
    → All (λ s. less_bytes b s.session_key ≡ true) db
    → All (λ s. less_bytes a s.session_key ≡ true) db
All-less_trans a b [] h all = all
All-less_trans a b (s ∷ db) h (here, all) =
    (less_trans a b s.session_key h here, All-less_trans a b db h all)

pub insert_item-IsSorted :
    (t : SessionItem) (db : List SessionItem) → IsSorted db → IsSorted (insert_item t db).0
unfolding insert_item
insert_item-IsSorted t [] sorted = (sorted, sorted)
insert_item-IsSorted t (s ∷ db) (first, sorted) =
    elim (Bool-cases (eq_bytes s.session_key t.session_key)) [
      | inl same ↦ rw same (first, sorted)
      | inr other ↦ rw other (elim (Bool-cases (less_bytes t.session_key s.session_key)) [
        | inl before ↦
            rw before (
              (before, All-less_trans t.session_key s.session_key db before first),
              (first, sorted),
            )
        | inr behind ↦
            let less = less_total s.session_key t.session_key other behind in
            rw behind (
              All-insert_item (less_bytes s.session_key) t db less first,
              insert_item-IsSorted t db sorted,
            )
      ])
    ]
