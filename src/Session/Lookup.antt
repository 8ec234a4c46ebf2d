-- ===== src/Session/Lookup.antt =====
-- Looking up sessions, and how long they live.
use sq_sp.Prelude.{
  ℕ, ◌+◌, ◌-◌, ◌<◌, ◌≤◌, ◌≡◌, ◌⊎◌, inl, inr, refl, true, false, ltb, Option, none, some,
  if◌then◌else◌, Bytes, pos, minus_one, arith, Bool-cases, Option-cases, ap, sym, ◌∙◌,
}
use sq_sp.Session.{
  SessionItem, SessionManager, find_item, stamp, erase_item, delete_table, get_session,
  get_time_span, delete_session,
}
use sq_sp.Session.Store.{IsSorted, find-erase_item, stamp-IsSorted, find-stamp, erase_item-IsSorted}

-- what `get_session` gives, by what the set holds
abbrev Looked : ℕ → Bytes → SessionManager → Option SessionItem → Type 0
Looked clock k m none = ◌≡◌ (get_session clock (some k) m) (none, m)
Looked clock k m (some s) = ◌≡◌ (get_session clock (some k) m) (
    let stamped = stamp k clock m.session_database in
    if ltb m.max_session_alive (clock - s.time_stamp)
    then (
      none,
      record m { session_database = erase_item k stamped; tables = delete_table k m.tables },
    )
    else (some (record s { time_stamp = clock }), record m { session_database = stamped }))

looked :
    (clock : ℕ) (k : Bytes) (m : SessionManager) (o : Option SessionItem)
    → find_item k m.session_database ≡ o
    → Looked clock k m o
unfolding get_session
looked clock k m none e = rw (e, get_session) refl
looked clock k m (some s) e = rw (e, get_session) refl

abbrev restamped : ℕ → Option SessionItem → Option SessionItem
restamped later none = none
restamped later (some s) = some (record s { time_stamp = later })

-- A session that `get_session` returned is returned again at any later time up to the time it may be
-- idle, with the same number and key: a look-up renews it.
pub get_session-get_session :
    (clock later : ℕ) (k : Bytes) (m : SessionManager) (s : SessionItem)
    → (get_session clock (some k) m).0 ≡ some s
    → later ≤ clock + m.max_session_alive
    → (get_session later (some k) (get_session clock (some k) m).1).0
      ≡ some (record s { time_stamp = later })
get_session-get_session clock later k m s found soon =
    elim (Option-cases (find_item k m.session_database)) [
      | inl e ↦ let run = looked clock k m none e in ground arith
      | inr (t, e) ↦
          let run = looked clock k m (some t) e in
          elim (Bool-cases (ltb m.max_session_alive (clock - t.time_stamp))) [
            | inl old ↦ let gone = rw old at run in ground arith
            | inr live ↦
                let kept = rw live at run in
                let there = find-stamp k clock m.session_database t e in
                let again =
                  looked later k (record m { session_database = stamp k clock m.session_database })
                    (some (record t { time_stamp = clock })) there in
                let fits : ltb m.max_session_alive (later - clock) ≡ false = ground arith in
                let same : some (record t { time_stamp = clock }) ≡ some s =
                  sym (ap (λ x. x.0) kept) ∙ found in
                ap (λ x. (get_session later (some k) x.1).0) kept
                ∙ (ap (λ x. x.0) (rw fits at again) ∙ ap (restamped later) same)
          ]
    ]

-- In a sorted set a session that was idle for longer than is allowed is not returned, nor is it by the
-- next look-up, whatever its time.
pub get_session_expired :
    (clock later : ℕ) (k : Bytes) (m : SessionManager) (s : SessionItem)
    → IsSorted m.session_database
    → find_item k m.session_database ≡ some s
    → s.time_stamp + m.max_session_alive < clock
    → ((get_session clock (some k) m).0 ≡ none)
      × ((get_session later (some k) (get_session clock (some k) m).1).0 ≡ none)
get_session_expired clock later k m s sorted found idle =
    let old : ltb m.max_session_alive (clock - s.time_stamp) ≡ true = ground arith in
    let run = rw old at (looked clock k m (some s) found) in
    let stamped = stamp k clock m.session_database in
    let gone = find-erase_item k stamped (stamp-IsSorted k clock m.session_database sorted) in
    let after : SessionManager = record m {
      session_database = erase_item k stamped;
      tables = delete_table k m.tables;
    } in
    (
      ap (λ x. x.0) run,
      ap (λ x. (get_session later (some k) x.1).0) run
          ∙ ap (λ x. x.0) (looked later k after none gone),
    )

-- Looking a session up keeps the set sorted, whatever the outcome.
pub get_session-IsSorted :
    (clock : ℕ) (k : Bytes) (m : SessionManager)
    → IsSorted m.session_database
    → IsSorted (get_session clock (some k) m).1.session_database
get_session-IsSorted clock k m sorted =
    let stamps = stamp-IsSorted k clock m.session_database sorted in
    elim (Option-cases (find_item k m.session_database)) [
      | inl e ↦ rw (looked clock k m none e) sorted
      | inr (s, e) ↦ elim (Bool-cases (ltb m.max_session_alive (clock - s.time_stamp))) [
        | inl old ↦
            rw (rw old at (looked clock k m (some s) e))
              (erase_item-IsSorted k (stamp k clock m.session_database) stamps)
        | inr live ↦ rw (rw live at (looked clock k m (some s) e)) stamps
      ]
    ]

abbrev stamp_of : Option SessionItem → ℕ
stamp_of none = 0
stamp_of (some s) = s.time_stamp

-- The item that `get_session` returns bears the time of the call.
returned-time_stamp :
    (clock : ℕ) (k : Bytes) (m : SessionManager) (s : SessionItem)
    → (get_session clock (some k) m).0 ≡ some s
    → s.time_stamp ≡ clock
returned-time_stamp clock k m s found = elim (Option-cases (find_item k m.session_database)) [
  | inl e ↦ let run = looked clock k m none e in ground arith
  | inr (t, e) ↦
      let run = looked clock k m (some t) e in
      elim (Bool-cases (ltb m.max_session_alive (clock - t.time_stamp))) [
        | inl old ↦ let gone = rw old at run in ground arith
        | inr live ↦
            let kept = rw live at run in
            let same : some (record t { time_stamp = clock }) ≡ some s =
              sym (ap (λ x. x.0) kept) ∙ found in
            sym (ap stamp_of same)
      ]
]

-- `get_time_span` cannot measure anything: whatever the session and its age, its result is 0, or -1
-- where there is none.
pub get_time_span_zero :
    (clock : ℕ) (k : Bytes) (m : SessionManager)
    → ((get_time_span clock (some k) m).0 ≡ pos 0)
      ⊎ ((get_time_span clock (some k) m).0 ≡ minus_one)
unfolding get_time_span
get_time_span_zero clock k m = elim (Option-cases (get_session clock (some k) m).0) [
  | inl e ↦ inr (rw (e, get_time_span) refl)
  | inr (s, e) ↦
      let now : s.time_stamp ≡ clock = returned-time_stamp clock k m s e in
      let none_left : clock - s.time_stamp ≡ 0 = omega arith in
      inl (rw (e, get_time_span) (ap pos none_left))
]

-- After `delete_session` the set is sorted still and has no session of that key.
pub delete_session-find_item :
    (k : Bytes) (m : SessionManager)
    → IsSorted m.session_database
    → IsSorted (delete_session k m).session_database
      × (find_item k (delete_session k m).session_database ≡ none)
unfolding delete_session
delete_session-find_item k m sorted = elim (Option-cases (find_item k m.session_database)) [
  | inl e ↦ rw (e, delete_session) (sorted, e)
  | inr (s, e) ↦
      rw (e, delete_session)
        (
          erase_item-IsSorted k m.session_database sorted,
          find-erase_item k m.session_database sorted,
        )
]
