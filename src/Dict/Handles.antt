-- ===== src/Dict/Handles.antt =====
-- The handles of LigSP/LigCommon/sdl_tcpstream.cpp: `_get_handle`, `_insert_string` and
-- `_get_string` over the trie, the counter `_StringLastHandle` and the table `StringDB`.
pub mod Interned
use sq_sp.Prelude.{
  ℕ, ◌+◌, ◌*◌, ◌^◌, Bool, true, false, Option, none, some, ◌==◌, ltb, leb, if◌then◌else◌, Bytes, ℤ,
  pos, negsuc, minus_one,
}
use sq_sp.Dict.{StringTree, nil, node, child_of, cleared, insert, find}

-- `TopMem` of `PageMemory<const char*,256>`: 256 pages of 2^10 cells.
abbrev pub top_mem : ℕ
top_mem = 2 ^ 10 * 256

-- `_STroot`, `_StringLastHandle` and `StringDB`; a cell that was never written holds `none`.
pub record Dict : Type 0 where
  pub root : StringTree
  pub last : ℕ
  pub strings : ℕ → Option Bytes

-- The state of the globals at the program's start.
abbrev pub fresh : Dict
fresh = record { root = cleared; last = 1; strings = λ _. none }

-- How a call ends: with a value, with the exception of `PageMemory`, or in a fault: a read through
-- NULL, or of a cell that holds no string.
pub data Outcome {ℓ} (A : Type ℓ) : Type ℓ where
  returned : A → Outcome A
  thrown : Outcome A
  fault : Outcome A

-- `StringDB[i] = copy of s`
abbrev pub put_string : ℕ → Bytes → (ℕ → Option Bytes) → ℕ → Option Bytes
put_string i s db j = if i == j then some s else db j

-- The part of `_get_handle` behind the insertion, on `phnd->pChild`, with the tree already changed.
record_handle : Bytes → Dict → StringTree → Dict × Outcome ℤ
record_handle s d nil = (d, returned minus_one)
record_handle s d (node ch (negsuc n) child brother) = (d, returned (negsuc n))
record_handle s d (node ch (pos hnd) child brother) =
    if hnd == d.last
    then (if leb top_mem hnd then (d, thrown) else (
      record d { last = d.last + 1; strings = put_string hnd s d.strings },
      returned (pos hnd),
    ))
    else (d, returned (pos hnd))

-- `_get_handle(str)`
unfoldable pub get_handle : Bytes → Dict → Dict × Outcome ℤ
unfolding record_handle
get_handle s d = elim (insert s (pos d.last) d.root) [
  | none ↦ (d, fault)
  | some (root', phnd) ↦ record_handle s (record d { root = root' }) (child_of phnd)
]

-- `_insert_string(str)`: the same, and the handle is not passed on.
pub insert_string : Bytes → Dict → Dict
insert_string s d = (get_handle s d).0

-- `_get_string(handle)`: `none` is the NULL for a handle that was not given out yet.
pub get_string : ℤ → Dict → Outcome (Option Bytes)
get_string (negsuc n) d = fault
get_string (pos hnd) d =
    if leb hnd d.last
    then (if leb top_mem hnd
        then thrown
        else elim (d.strings hnd) [ none ↦ fault | some s ↦ returned (some s) ])
    else returned none
