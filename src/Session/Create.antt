-- ===== src/Session/Create.antt =====
-- Creating sessions, and throwing out the old ones.
use sq_sp.Prelude.{
  ℕ, zero, suc, ◌+◌, ◌-◌, ◌<◌, ◌≤◌, ◌≡◌, inl, inr, refl, Bool, true, false, List, [], ◌∷◌, ltb,
  Option, none, some, if◌then◌else◌, Bytes, eq_bytes, All, arith, Bool-cases,
}
use sq_sp.Session.{
  SessionItem, SessionManager, less_bytes, find_item, insert_item, stamp, delete_table, expire,
  insert_new, create_session,
}
use sq_sp.Session.Store.{
  IsSorted, insert_item-IsSorted, find-insert_item, stamp-IsSorted, find-stamp,
}

All-expire :
    (P : Bytes → Bool) (clock alive : ℕ) (db : List SessionItem) (tables : List Bytes)
    → All (λ t. P t.session_key ≡ true) db
    → All (λ t. P t.session_key ≡ true) (expire clock alive db tables).0
unfolding expire
All-expire P clock alive [] tables all = all
All-expire P clock alive (s ∷ db) tables (here, all) =
    elim (Bool-cases (ltb alive (clock - s.time_stamp))) [
      | inl old ↦ rw old (All-expire P clock alive db (delete_table s.session_key tables) all)
      | inr live ↦ rw live (here, All-expire P clock alive db tables all)
    ]

expire-IsSorted :
    (clock alive : ℕ) (db : List SessionItem) (tables : List Bytes)
    → IsSorted db
    → IsSorted (expire clock alive db tables).0
unfolding expire
expire-IsSorted clock alive [] tables sorted = sorted
expire-IsSorted clock alive (s ∷ db) tables (first, sorted) =
    elim (Bool-cases (ltb alive (clock - s.time_stamp))) [
      | inl old ↦ rw old (expire-IsSorted clock alive db (delete_table s.session_key tables) sorted)
      | inr live ↦ rw live (
        All-expire (less_bytes s.session_key) clock alive db tables first,
        expire-IsSorted clock alive db tables sorted,
      )
    ]

-- what is not too old stays
find-expire :
    (k : Bytes) (clock alive : ℕ) (db : List SessionItem) (tables : List Bytes) (s : SessionItem)
    → find_item k db ≡ some s
    → clock ≤ s.time_stamp + alive
    → find_item k (expire clock alive db tables).0 ≡ some s
unfolding expire find_item
find-expire k clock alive [] tables s h young = ground arith
find-expire k clock alive (t ∷ db) tables s h young = elim (Bool-cases (eq_bytes t.session_key k)) [
  | inl same ↦
      let is : some t ≡ some s = rw same at h in
      let live : ltb alive (clock - t.time_stamp) ≡ false = ground arith in rw (live, same) is
  | inr other ↦
      let later = rw other at h in
      elim (Bool-cases (ltb alive (clock - t.time_stamp))) [
        | inl old ↦
            rw old (find-expire k clock alive db (delete_table t.session_key tables) s later young)
        | inr live ↦ rw (live, other) (find-expire k clock alive db tables s later young)
      ]
]

-- what the loop of insertions returns, if it does
abbrev Inserted : ℕ → Option (SessionItem × List SessionItem) → Type 0
Inserted counter none = Unit
Inserted counter (some (item, after)) =
    IsSorted after × (find_item item.session_key after ≡ some item) × (counter ≤ item.session_id)

insertion_step :
    (counter : ℕ) (tmp : SessionItem) (db : List SessionItem)
    (again : Option (SessionItem × List SessionItem))
    → counter ≤ tmp.session_id
    → IsSorted db
    → Inserted counter again
    → Inserted counter
        (if (insert_item tmp db).1 then some (tmp, (insert_item tmp db).0) else again)
insertion_step counter tmp db again le sorted later = elim (Bool-cases (insert_item tmp db).1) [
  | inl new ↦ rw new (insert_item-IsSorted tmp db sorted, find-insert_item tmp db new, le)
  | inr known ↦ rw known later
]

Inserted-weaken :
    (counter : ℕ) (o : Option (SessionItem × List SessionItem))
    → Inserted (counter + 1) o
    → Inserted counter o
Inserted-weaken counter none h = h
Inserted-weaken counter (some (item, after)) (sorted, found, le) = (sorted, found, omega arith)

insert_new-Inserted :
    (rounds : ℕ) (retry : ℕ → Bytes) (counter : ℕ) (k : Bytes) (db : List SessionItem)
    → IsSorted db
    → Inserted counter (insert_new rounds retry counter k db)
unfolding insert_new
insert_new-Inserted zero retry counter k db sorted =
    insertion_step counter (record { session_id = counter; session_key = k; time_stamp = 0 }) db
      none (omega arith) sorted (ground arith)
insert_new-Inserted (suc rounds) retry counter k db sorted =
    let next = counter + 1 in
    insertion_step counter (record { session_id = counter; session_key = k; time_stamp = 0 }) db
      (insert_new rounds retry next (retry next) db) (omega arith) sorted
      (Inserted-weaken counter (insert_new rounds retry next (retry next) db)
        (insert_new-Inserted rounds retry next (retry next) db sorted))

insert_item_new :
    (t : SessionItem) (db : List SessionItem)
    → find_item t.session_key db ≡ none
    → (insert_item t db).1 ≡ true
unfolding insert_item find_item
insert_item_new t [] h = refl
insert_item_new t (s ∷ db) h = elim (Bool-cases (eq_bytes s.session_key t.session_key)) [
  | inl same ↦ let no = rw same at h in ground arith
  | inr other ↦ elim (Bool-cases (less_bytes t.session_key s.session_key)) [
    | inl before ↦ rw (other, before) refl
    | inr behind ↦ rw (other, behind) (insert_item_new t db (rw other at h))
  ]
]

-- the key of attempt `j` of the loop
abbrev pub attempt : (ℕ → Bytes) → ℕ → Bytes → ℕ → Bytes
attempt retry counter k zero = k
attempt retry counter k (suc j) = attempt retry (counter + 1) (retry (counter + 1)) j

-- The loop ends as soon as one of its keys is new.
insert_new_returns :
    (rounds j : ℕ) (retry : ℕ → Bytes) (counter : ℕ) (k : Bytes) (db : List SessionItem)
    → j ≤ rounds
    → find_item (attempt retry counter k j) db ≡ none
    → (r : SessionItem × List SessionItem) × (insert_new rounds retry counter k db ≡ some r)
unfolding insert_new
insert_new_returns zero zero retry counter k db le h =
    let tmp : SessionItem = record { session_id = counter; session_key = k; time_stamp = 0 } in
    ((tmp, (insert_item tmp db).0), rw (insert_item_new tmp db h) refl)
insert_new_returns zero (suc j) retry counter k db le h = absurd (omega arith)
insert_new_returns (suc rounds) zero retry counter k db le h =
    let tmp : SessionItem = record { session_id = counter; session_key = k; time_stamp = 0 } in
    ((tmp, (insert_item tmp db).0), rw (insert_item_new tmp db h) refl)
insert_new_returns (suc rounds) (suc j) retry counter k db le h =
    let tmp : SessionItem = record { session_id = counter; session_key = k; time_stamp = 0 } in
    let (r, e) =
      insert_new_returns rounds j retry (counter + 1) (retry (counter + 1)) db (omega arith) h in
    elim (Bool-cases (insert_item tmp db).1) [
      | inl new ↦ ((tmp, (insert_item tmp db).0), rw new refl)
      | inr known ↦ (r, rw known e)
    ]

-- What a created session is, and what the manager is after it.
abbrev pub Created : ℕ → SessionManager → SessionItem → SessionManager → Type 0
Created clock m item after =
    IsSorted after.session_database
    × (find_item item.session_key after.session_database ≡ some item)
    × (item.time_stamp ≡ clock)
    × (item.session_id ≡ after.session_id_counter)
    × (m.session_id_counter < after.session_id_counter)

new_session :
    (rounds clock : ℕ) (first retry : ℕ → Bytes) (m : SessionManager)
    (r : SessionItem × List SessionItem)
    → insert_new rounds retry
        (m.session_id_counter + 1)
        (first (m.session_id_counter + 1))
        m.session_database
      ≡ some r
    → Inserted (m.session_id_counter + 1) (some r)
    → (item : SessionItem) × (after : SessionManager) × (create_session rounds clock first retry m
        ≡ some (item, after))
      × Created clock m item after
unfolding create_session
new_session rounds clock first retry m (item, db) e (sorted, found, le) =
    let stamped = stamp item.session_key clock db in
    let tables = item.session_key ∷ m.tables in
    (
      record item { time_stamp = clock },
      record m {
        session_id_counter = item.session_id;
        session_database = (expire clock m.max_session_alive stamped tables).0;
        tables = (expire clock m.max_session_alive stamped tables).1;
      },
      rw (e, create_session) refl,
      (
        expire-IsSorted clock m.max_session_alive stamped tables
            (stamp-IsSorted item.session_key clock db sorted),
        find-expire item.session_key clock m.max_session_alive stamped tables
            (record item { time_stamp = clock }) (find-stamp item.session_key clock db item found)
            (omega arith),
        refl,
        refl,
        omega arith,
      ),
    )

-- On a sorted set, if one of the keys that may be tried is not in use, `create_session` returns a
-- session: with the time of the call, under the new value of the counter, which is greater than the
-- old one; the set stays sorted, and the session's key finds it there.
pub create_session-Created :
    (rounds clock j : ℕ) (first retry : ℕ → Bytes) (m : SessionManager)
    → IsSorted m.session_database
    → j ≤ rounds
    → find_item
        (attempt retry (m.session_id_counter + 1) (first (m.session_id_counter + 1)) j)
        m.session_database
      ≡ none
    → (item : SessionItem) × (after : SessionManager) × (create_session rounds clock first retry m
        ≡ some (item, after))
      × Created clock m item after
create_session-Created rounds clock j first retry m sorted le new =
    let counter = m.session_id_counter + 1 in
    let (r, e) =
      insert_new_returns rounds j retry counter (first counter) m.session_database le new in
    new_session rounds clock first retry m r e
      (rw e at (insert_new-Inserted rounds retry counter (first counter) m.session_database sorted))
