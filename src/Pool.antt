-- ===== src/Pool.antt =====
-- `MemAlloctor<T,PageNumber,PageBits>` of LigSP/LigCommon/sdl_memory.h: a paged pool that hands out
-- slots by number. A free slot's first `int` (the union's `loc`) links it to the next free slot.
mod Tests
pub mod Slots
pub mod Step
pub mod Walk
use sq_sp.Prelude.{
  ℕ, zero, suc, ◌+◌, ◌-◌, ◌*◌, ◌/◌, ◌%◌, ◌^◌, Bool, true, false, ◌&&◌, ◌||◌, List, [], ◌∷◌, ◌++◌,
  Option, none, some, ◌==◌, ltb, leb, if◌then◌else◌, ℤ, pos, negsuc, minus_one,
}

-- `Mem_Inner_Struct<T>`: the first word of the object, which is the union's `loc`, and `flag`. The
-- pool reads nothing else of an object.
pub record Slot : Type 0 where
  pub word : ℕ
  pub used : Bool

abbrev pub Page : Type 0
Page = ℕ → Slot

-- `p_table`, `FreeLoc` and `LastHandle`
pub record Pool : Type 0 where
  pub table : ℕ → Option Page
  pub free_loc : ℕ
  pub last_handle : ℕ

-- A call returns, throws a text, or goes through a NULL or out-of-range page pointer.
pub data Outcome {ℓ} (A : Type ℓ) : Type ℓ where
  returned : A → Outcome A
  thrown : Outcome A
  fault : Outcome A

abbrev pub update {ℓ} : {A : Type ℓ} → ℕ → A → (ℕ → A) → ℕ → A
update i a f j = if i == j then a else f j

-- the constructor
abbrev pub empty : Pool
empty = record { table = λ _. none; free_loc = 0; last_handle = 0 }

-- `PageBits`
module _ (page_bits : ℕ) where
  abbrev pub page_size : ℕ
  page_size = 2 ^ page_bits

  -- `initMem`: the slots of a new page, each linked to the one behind it
  abbrev pub init_mem : ℕ → Page
  init_mem loc i = record { word = loc / page_size * page_size + i + 1; used = false }

  -- The slot of a number: page `loc >> PageBits`, offset `loc & PageMask`. `none` if there is no page.
  abbrev pub slot_in : (ℕ → Option Page) → ℕ → Option Slot
  slot_in table loc = elim (table (loc / page_size)) [
    | none ↦ none
    | some page ↦ some (page (loc % page_size))
  ]

  -- A write to the slot of a number in an allocated page.
  pub set_slot : ℕ → Slot → (ℕ → Option Page) → ℕ → Option Page
  set_slot loc s table = elim (table (loc / page_size)) [
    | none ↦ table
    | some page ↦ update (loc / page_size) (some (update (loc % page_size) s page)) table
  ]

  -- the page of `FreeLoc`, allocated if it is not there
  pub with_page : ℕ → (ℕ → Option Page) → ℕ → Option Page
  with_page loc table = elim (table (loc / page_size)) [
    | none ↦ update (loc / page_size) (some (init_mem loc)) table
    | some page ↦ table
  ]

-- `PageBits` and `PageNumber`
module _ (page_bits page_number : ℕ) where
  abbrev pub top_mem : ℕ
  top_mem = page_size page_bits * page_number

  -- the end of `alloc`, on the slot found
  take_slot : Pool → (ℕ → Option Page) → Option Slot → Outcome (Pool × ℕ)
  take_slot p table none = fault
  take_slot p table (some s) = returned (
    record {
      table = set_slot page_bits p.free_loc (record s { used = true }) table;
      free_loc = s.word;
      last_handle = if ltb p.last_handle s.word then s.word else p.last_handle;
    },
    p.free_loc,
  )

  -- `alloc(&handle)`: the pool afterwards and the handle
  pub alloc : Pool → Outcome (Pool × ℕ)
  unfolding take_slot
  alloc p =
      if leb top_mem p.free_loc
      then thrown
      else (let table = with_page page_bits p.free_loc p.table in
          take_slot p table (slot_in page_bits table p.free_loc))

  -- A store of the client into the first word of an object.
  pub write : ℕ → ℕ → Pool → Pool
  write loc w p = elim (slot_in page_bits p.table loc) [
    | none ↦ p
    | some s ↦ record p { table = set_slot page_bits loc (record s { word = w }) p.table }
  ]

  release : ℕ → Option Slot → Pool → Pool
  release loc none p = p
  release loc (some s) p =
      if s.used
      then record p {
        table = set_slot page_bits loc (record { word = p.free_loc; used = false }) p.table;
        free_loc = loc;
      }
      else p

  -- `free(int loc)`; `T`'s destructor is not part of the pool
  pub free : ℤ → Pool → Pool
  unfolding release
  free (negsuc n) p = p
  free (pos loc) p = if leb top_mem loc then p else release loc (slot_in page_bits p.table loc) p

  -- `operator()(int loc)`: the object's address, here its slot; `none` is NULL
  pub lookup : ℤ → Pool → Option Slot
  lookup (negsuc n) p = none
  lookup (pos loc) p = if leb top_mem loc then none else slot_in page_bits p.table loc

  -- `operator[](int loc)`
  pub index : ℤ → Pool → Outcome Slot
  index (negsuc n) p = thrown
  index (pos loc) p =
      if leb top_mem loc
      then thrown
      else elim (slot_in page_bits p.table loc) [ none ↦ thrown | some s ↦ returned s ]
