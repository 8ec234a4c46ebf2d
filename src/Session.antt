-- ===== src/Session.antt =====
-- `session_manager` of LigSP/LigCommon/lig_httpd.cpp: the sessions by their key, and when each was used.
-- The hash that makes a key of a text, the texts that `snprintf` writes and the random number are
-- arguments; the Squirrel tables of the sessions are a list of their names.
mod Tests
pub mod Store
pub mod Lookup
pub mod Create
use sq_sp.Prelude.{
  ℕ, zero, suc, ◌+◌, ◌-◌, Bool, true, false, not, ◌&&◌, List, [], ◌∷◌, ◌++◌, Option, none, some,
  ◌==◌, ltb, if◌then◌else◌, Bytes, eq_bytes, ℤ, pos, negsuc, minus_one,
}

pub record SessionItem : Type 0 where
  pub session_id : ℕ
  pub session_key : Bytes
  pub time_stamp : ℕ

-- `session_database` in the order of the keys, and the tables in the registry of the virtual machine
pub record SessionManager : Type 0 where
  pub session_id_counter : ℕ
  pub session_database : List SessionItem
  pub max_session_alive : ℕ
  pub tables : List Bytes

-- the constructor, and `set_session_alive(t)`
abbrev pub fresh : SessionManager
fresh = record {
  session_id_counter = 0;
  session_database = [];
  max_session_alive = 1200;
  tables = [];
}

abbrev pub set_session_alive : ℕ → SessionManager → SessionManager
set_session_alive t m = record m { max_session_alive = t }

-- `strcmp(v1,v2)<0`
unfoldable pub less_bytes : Bytes → Bytes → Bool
less_bytes a [] = false
less_bytes [] (y ∷ ys) = true
less_bytes (x ∷ xs) (y ∷ ys) = let rest = less_bytes xs ys in if x == y then rest else ltb x y

-- `session_database.find(tmp)`
unfoldable pub find_item : Bytes → List SessionItem → Option SessionItem
find_item session [] = none
find_item session (s ∷ rest) =
    if eq_bytes s.session_key session then some s else find_item session rest

-- `session_database.insert(tmp)`: the set and `rt.second`
unfoldable pub insert_item : SessionItem → List SessionItem → List SessionItem × Bool
insert_item t [] = (t ∷ [], true)
insert_item t (s ∷ rest) =
    let later = insert_item t rest in
    if eq_bytes s.session_key t.session_key
    then (s ∷ rest, false)
    else if less_bytes t.session_key s.session_key
    then (t ∷ s ∷ rest, true)
    else (s ∷ later.0, later.1)

-- `*((time_t *)&(fd->time_stamp))=clock` for the item of that key
unfoldable pub stamp : Bytes → ℕ → List SessionItem → List SessionItem
stamp session clock [] = []
stamp session clock (s ∷ rest) =
    let later = stamp session clock rest in
    if eq_bytes s.session_key session then record s { time_stamp = clock } ∷ rest else s ∷ later

-- `session_database.erase(fd)`
unfoldable pub erase_item : Bytes → List SessionItem → List SessionItem
erase_item session [] = []
erase_item session (s ∷ rest) =
    let later = erase_item session rest in
    if eq_bytes s.session_key session then rest else s ∷ later

-- `delete_session_table`
unfoldable pub delete_table : Bytes → List Bytes → List Bytes
delete_table session [] = []
delete_table session (t ∷ ts) =
    let later = delete_table session ts in if eq_bytes t session then later else t ∷ later

-- `get_session(session)` at the time `clock`: the item found, after its stamp was renewed.
-- A span of 2 ^ 31 seconds or more, which the cast to `int` would cut, is not told apart.
unfoldable pub get_session : ℕ → Option Bytes → SessionManager → Option SessionItem × SessionManager
get_session clock none m = (none, m)
get_session clock (some session) m = elim (find_item session m.session_database) [
  | none ↦ (none, m)
  | some s ↦
      let stamped = stamp session clock m.session_database in
      if ltb (m.max_session_alive) (clock - s.time_stamp)
      then (
        none,
        record m {
          session_database = erase_item session stamped;
          tables = delete_table session m.tables;
        },
      )
      else (some (record s { time_stamp = clock }), record m { session_database = stamped })
]

-- `oper_time(session)`
unfoldable pub oper_time : ℕ → Option Bytes → SessionManager → SessionManager
oper_time clock session m =
    let found = get_session clock session m in
    elim found.0 [
      | none ↦ found.1
      | some s ↦ record found.1 {
        session_database = stamp s.session_key clock found.1.session_database;
      }
    ]

-- `get_time_span(session)`: `old_time` is read from the item after `get_session` has renewed it.
unfoldable pub get_time_span : ℕ → Option Bytes → SessionManager → ℤ × SessionManager
get_time_span clock session m =
    let found = get_session clock session m in
    elim found.0 [
      | none ↦ (minus_one, found.1)
      | some s ↦
          let renewed = record found.1 {
            session_database = stamp s.session_key clock found.1.session_database;
          } in
          (pos (clock - s.time_stamp), renewed)
    ]

-- `delete_session(session)`
unfoldable pub delete_session : Bytes → SessionManager → SessionManager
delete_session session m = elim (find_item session m.session_database) [
  | none ↦ m
  | some s ↦ record m {
    tables = delete_table session m.tables;
    session_database = erase_item session m.session_database;
  }
]

-- The loop that throws out what has expired: the sessions kept, and the tables.
unfoldable pub expire : ℕ → ℕ → List SessionItem → List Bytes → List SessionItem × List Bytes
expire clock alive [] tables = ([], tables)
expire clock alive (s ∷ rest) tables =
    let dropped = expire clock alive rest (delete_table s.session_key tables) in
    let kept = expire clock alive rest tables in
    if ltb alive (clock - s.time_stamp) then dropped else (s ∷ kept.0, kept.1)

-- The `while(!rt.second)` loop, `rounds` times at most: another number and another key. `retry` is
-- the hash of the text that `sprintf` writes for the number.
unfoldable pub insert_new :
    ℕ → (ℕ → Bytes) → ℕ → Bytes → List SessionItem → Option (SessionItem × List SessionItem)
insert_new zero retry counter session db =
    let tmp : SessionItem = record {
      session_id = counter;
      session_key = session;
      time_stamp = 0;
    } in
    let rt = insert_item tmp db in if rt.1 then some (tmp, rt.0) else none
insert_new (suc rounds) retry counter session db =
    let tmp : SessionItem = record {
      session_id = counter;
      session_key = session;
      time_stamp = 0;
    } in
    let rt = insert_item tmp db in
    let again = insert_new rounds retry (counter + 1) (retry (counter + 1)) db in
    if rt.1 then some (tmp, rt.0) else again

-- `create_session`, where `first` and `retry` make the keys of a number: the new item and the manager.
unfoldable pub create_session :
    ℕ → ℕ → (ℕ → Bytes) → (ℕ → Bytes) → SessionManager → Option (SessionItem × SessionManager)
create_session rounds clock first retry m =
    let counter = m.session_id_counter + 1 in
    elim (insert_new rounds retry counter (first counter) m.session_database) [
      | none ↦ none
      | some (item, db) ↦
          let stamped = stamp item.session_key clock db in
          let kept = expire clock m.max_session_alive stamped (item.session_key ∷ m.tables) in
          some (
            record item { time_stamp = clock },
            record m {
              session_id_counter = item.session_id;
              session_database = kept.0;
              tables = kept.1;
            },
          )
    ]
