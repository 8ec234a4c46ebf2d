-- ===== src/Pool/Walk.antt =====
-- The walks of `MemAlloctor` over its slots: `for_each`, `destroy`, `clear`, and the search of a
-- pointer's page in `get_handle` and `free(T*)`.
-- A walk over numbers takes one round for each, and none lies above `TopMem`, so `TopMem + 1` rounds
-- are enough (`for_each` runs off the page table at `TopMem`).
pub mod Visit
pub mod Address
use sq_sp.Prelude.{
  ℕ, zero, suc, ◌+◌, ◌-◌, ◌*◌, ◌/◌, ◌%◌, ◌^◌, Bool, true, false, List, [], ◌∷◌, ◌++◌, Option, none,
  some, ◌==◌, ltb, leb, if◌then◌else◌, ℤ, pos, minus_one,
}
use sq_sp.Pool.{
  Slot, Page, Pool, Outcome, returned, thrown, fault, update, page_size, top_mem, slot_in, set_slot,
}

-- A `T*`: an address inside page `page`, or one that no page of the pool holds.
pub data Pointer : Type 0 where
  inside : ℕ → ℕ → Pointer
  elsewhere : Pointer

module _ (page_bits page_number : ℕ) where
  -- `while(i<n)` of `for_each`: the numbers passed to `func` so far are in `visited`.
  walk : ℕ → Pool → ℕ → ℕ → List ℕ → Outcome (List ℕ)
  walk zero p i n visited = fault
  walk (suc fuel) p i n visited =
      let skip = walk fuel p (i + 1) (n + 1) visited in
      let visit = walk fuel p (i + 1) n (visited ++ i ∷ []) in
      if ltb i n
      then (if leb page_number (i / page_size page_bits)
          then fault
          else elim (slot_in page_bits p.table i) [
            | none ↦ thrown
            | some s ↦ if s.used then visit else skip
          ])
      else returned visited

  -- `for_each(func)`: the numbers of the objects that `func` is called on, in order
  unfoldable pub for_each : Pool → Outcome (List ℕ)
  unfolding walk
  for_each p = walk (top_mem page_bits page_number + 1) p 0 p.last_handle []

  -- A loop of `clear` over the first `count` slots of page `i`.
  relink : ℕ → ℕ → Page → Page
  relink count loc page j =
      if ltb j count then record { word = loc + j + 1; used = false } else page j

  -- `for(int i=0;i<seg;++i)` of `clear`: `rounds` pages from `i` on
  clear_pages : ℕ → ℕ → (ℕ → Option Page) → Outcome (ℕ → Option Page)
  unfolding relink
  clear_pages zero i table = returned table
  clear_pages (suc rounds) i table = elim (table i) [
    | none ↦ fault
    | some page ↦
        clear_pages rounds (i + 1)
          (update i (some (relink (page_size page_bits) (i * page_size page_bits) page)) table)
  ]

  -- the second loop, over the first `oft` slots of page `seg`
  clear_rest : ℕ → ℕ → (ℕ → Option Page) → Outcome (ℕ → Option Page)
  unfolding relink
  clear_rest seg zero table = returned table
  clear_rest seg (suc oft) table = elim (table seg) [
    | none ↦ fault
    | some page ↦
        returned (update seg (some (relink (suc oft) (seg * page_size page_bits) page)) table)
  ]

  -- `clear()`
  pub clear : Pool → Outcome Pool
  unfolding clear_pages clear_rest
  clear p =
      let seg = p.last_handle / page_size page_bits in
      elim (clear_pages seg 0 p.table) [
        | thrown ↦ thrown
        | fault ↦ fault
        | returned table ↦ elim (clear_rest seg (p.last_handle % page_size page_bits) table) [
          | thrown ↦ thrown
          | fault ↦ fault
          | returned table' ↦ returned (record { table = table'; free_loc = 0; last_handle = 0 })
        ]
      ]

  -- `destroy()`: the numbers whose objects are destructed, and the pool after `clear`
  unfoldable pub destroy : Pool → Outcome (List ℕ × Pool)
  unfolding for_each clear
  destroy p = elim (for_each p) [
    | thrown ↦ thrown
    | fault ↦ fault
    | returned visited ↦ elim (clear p) [
      | thrown ↦ thrown
      | fault ↦ fault
      | returned p' ↦ returned (visited, p')
    ]
  ]

  -- The loop over the pages that looks for the one that holds the pointer: the number it stands
  -- for, if its slot is in use. Page bases are apart, so `pnt - p_table[i]` lies in `[0, PageSize)`
  -- for the pointer's own page only.
  search_pages : ℕ → ℕ → Pool → ℕ → ℕ → Option ℕ
  search_pages zero i p page offset = none
  search_pages (suc rounds) i p page offset =
      let rest = search_pages rounds (i + 1) p page offset in
      elim (p.table i) [
        | none ↦ rest
        | some slots ↦
            if i == page
            then (if (slots offset).used then some (i * page_size page_bits + offset) else none)
            else rest
      ]

  -- `get_handle(T*)`
  pub get_handle : Pointer → Pool → ℤ
  unfolding search_pages
  get_handle elsewhere p = minus_one
  get_handle (inside page offset) p = elim (search_pages page_number 0 p page offset) [
    | none ↦ minus_one
    | some h ↦ pos h
  ]

  -- `free(T*)`
  pub free_pointer : Pointer → Pool → Pool
  unfolding search_pages
  free_pointer elsewhere p = p
  free_pointer (inside page offset) p = elim (search_pages page_number 0 p page offset) [
    | none ↦ p
    | some h ↦ record p {
      table = set_slot page_bits h (record { word = p.free_loc; used = false }) p.table;
      free_loc = h;
    }
  ]
