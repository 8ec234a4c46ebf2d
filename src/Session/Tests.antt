-- ===== src/Session/Tests.antt =====
-- Runs of the session manager.
use sq_sp.Prelude.{ℕ, ◌≡◌, refl, [], ◌∷◌, some, none, arith, codes, Bytes}
use sq_sp.Session.{
  SessionItem, SessionManager, fresh, set_session_alive, find_item, get_session, oper_time,
  create_session, insert_new, insert_item, stamp, expire, delete_table, less_bytes,
}
use sq_sp.Session.Store.{IsSorted}
use sq_sp.Session.Lookup.{get_session-get_session, get_session_expired}
use sq_sp.Session.Create.{Created, create_session-Created}

abbrev item_a : SessionItem
item_a = record { session_id = 1; session_key = codes "a"; time_stamp = 10 }

abbrev item_b : SessionItem
item_b = record { session_id = 2; session_key = codes "b"; time_stamp = 20 }

abbrev two : SessionManager
two = record {
  session_id_counter = 2;
  session_database = item_a ∷ item_b ∷ [];
  max_session_alive = 1200;
  tables = codes "b" ∷ codes "a" ∷ [];
}

abbrev keys : ℕ → Bytes
keys n = codes "b"

abbrev other_keys : ℕ → Bytes
other_keys n = codes "c"

two-IsSorted : IsSorted two.session_database
unfolding less_bytes
two-IsSorted = ground arith

-- The first key is in use, the second one is new.
created_run :
    create_session 1 30 keys other_keys two
    ≡ some (
      record { session_id = 4; session_key = codes "c"; time_stamp = 30 },
      record {
        session_id_counter = 4;
        session_database =
            item_a
            ∷ item_b
            ∷ record { session_id = 4; session_key = codes "c"; time_stamp = 30 }
            ∷ [];
        max_session_alive = 1200;
        tables = codes "c" ∷ codes "b" ∷ codes "a" ∷ [];
      },
    )
unfolding create_session insert_new insert_item stamp expire less_bytes
created_run = refl

-- At 1215 the session of 10 has expired.
expired_run : expire 1215 1200 two.session_database two.tables ≡ (item_b ∷ [], codes "b" ∷ [])
unfolding expire delete_table
expired_run = refl

touched :
    (oper_time 50 (some (codes "b")) two).session_database
    ≡ item_a ∷ record item_b { time_stamp = 50 } ∷ []
unfolding oper_time get_session find_item stamp
touched = refl

empty_lookup : (get_session 5 (some (codes "a")) (set_session_alive 60 fresh)).0 ≡ none
unfolding get_session find_item
empty_lookup = refl

get_session-get_session_example :
    (get_session 1300 (some (codes "b")) (get_session 100 (some (codes "b")) two).1).0
    ≡ some (record item_b { time_stamp = 1300 })
unfolding get_session find_item stamp
get_session-get_session_example =
    get_session-get_session 100 1300 (codes "b") two (record item_b { time_stamp = 100 }) refl
      (omega arith)

get_session_expired_example :
    ((get_session 1300 (some (codes "a")) two).0 ≡ none)
    × ((get_session 1301 (some (codes "a")) (get_session 1300 (some (codes "a")) two).1).0 ≡ none)
unfolding find_item
get_session_expired_example =
    get_session_expired 1300 1301 (codes "a") two item_a two-IsSorted refl (omega arith)

create_session-Created_example :
    (item : SessionItem) × (after : SessionManager) × (create_session 1 30 keys other_keys two
      ≡ some (item, after))
    × Created 30 two item after
unfolding find_item
create_session-Created_example =
    create_session-Created 1 30 1 keys other_keys two two-IsSorted (omega arith) refl
