-- ===== src/Dict.antt =====
-- The string dictionary of LigSP/LigCommon/sdl_state.h and sdl_tcpstream.cpp: a trie whose nodes
-- are linked by `pChild` (next byte) and `pBrother` (alternatives), with a node of byte '.' that
-- ends a string and carries its handle.
-- A node is reached by one pointer only, so the heap of nodes is a tree; `nil` is the NULL pointer.
-- `strEnd` is NULL in every call, and a C string is the list of its bytes in front of the NUL.
mod Tests
pub mod Lookup
pub mod Handles
use sq_sp.Prelude.{
  ℕ, ◌+◌, ◌≡◌, refl, Bool, true, false, List, [], ◌∷◌, Option, none, some, ◌==◌, ltb, leb,
  if◌then◌else◌, Bytes, ℤ, pos, negsuc, minus_one, eq_ℤ,
}

-- `_STTermCh`
abbrev pub term_ch : ℕ
term_ch = b'.'

-- `StringTree`: `ch`, `handle`, `pChild`, `pBrother`
pub data StringTree : Type 0 where
  nil : StringTree
  node : ℕ → ℤ → StringTree → StringTree → StringTree

-- `StringTree::clear`, the state of `_STroot` before the first insertion
abbrev pub cleared : StringTree
cleared = node term_ch minus_one nil nil

-- The end of `_dict_insert`: what `it->pChild` becomes when the whole string is consumed at `it`.
pub finish : ℤ → StringTree → StringTree
finish h nil = node term_ch h nil nil
finish h (node ch hd child brother) =
    if ch == term_ch
    then node ch hd child brother
    else node term_ch h nil (node ch hd child brother)

-- The loop of `_dict_insert` on the list of children `it->pChild`. A missing child and a missing
-- brother are filled in by the same new node.
pub insert_kids : ℤ → Bytes → StringTree → StringTree
unfolding finish
insert_kids h [] kids = finish h kids
insert_kids h (c ∷ cs) nil = node c minus_one (insert_kids h cs nil) nil
insert_kids h (c ∷ cs) (node ch hd child brother) = elim (ch == c) [
  | true ↦ node ch hd (insert_kids h cs child) brother
  | false ↦ node ch hd child (insert_kids h (c ∷ cs) brother)
]

-- The node that `_dict_insert` returns when the string ends at the node `ch hd kids brother`: that
-- node itself, or the terminator below it if the string was there already.
land : ℤ → ℕ → ℤ → StringTree → StringTree → StringTree
unfolding finish
land h ch hd nil brother = node ch hd (finish h nil) brother
land h ch hd (node ch' hd' child' brother') brother =
    if ch' == term_ch
    then node ch' hd' child' brother'
    else node ch hd (finish h (node ch' hd' child' brother')) brother

-- The returned node, along the same walk as `insert_kids`: from a node `ch₀ hd₀` with the children
-- `kids`.
pub landing : ℤ → Bytes → ℕ → ℤ → StringTree → StringTree → StringTree
unfolding land
landing h [] ch₀ hd₀ kids brother₀ = land h ch₀ hd₀ kids brother₀
landing h (c ∷ cs) ch₀ hd₀ nil brother₀ = landing h cs c minus_one nil nil
landing h (c ∷ cs) ch₀ hd₀ (node ch hd child brother) brother₀ = elim (ch == c) [
  | true ↦ landing h cs ch hd child brother
  | false ↦ landing h (c ∷ cs) ch₀ hd₀ brother brother₀
]

-- `_dict_insert(str, handle, NULL, it)`: the tree at `it` afterwards, and the node returned. `none`
-- is the NULL for an illegal starting point.
pub insert : Bytes → ℤ → StringTree → Option (StringTree × StringTree)
unfolding insert_kids landing
insert s h nil = none
insert s h (node ch hd kids brother) =
    if ch == term_ch
    then some (node ch hd (insert_kids h s kids) brother, landing h s ch hd kids brother)
    else none

-- The loop of `_dict_find`, and its last three tests.
pub find_kids : Bytes → StringTree → ℤ
find_kids [] nil = minus_one
find_kids [] (node ch hd child brother) = if ch == term_ch then hd else minus_one
find_kids (c ∷ cs) nil = minus_one
find_kids (c ∷ cs) (node ch hd child brother) = elim (ch == c) [
  | true ↦ find_kids cs child
  | false ↦ find_kids (c ∷ cs) brother
]

-- `_dict_find(str, NULL, it)`
pub find : Bytes → StringTree → ℤ
unfolding find_kids
find s nil = minus_one
find s (node ch hd kids brother) = find_kids s kids

-- `pChild` of a returned node; `none` is NULL
abbrev pub child_of : StringTree → StringTree
child_of nil = nil
child_of (node ch hd child brother) = child
