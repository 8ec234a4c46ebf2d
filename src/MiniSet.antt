-- ===== src/MiniSet.antt =====
-- `sdl_mini_set` of LigSP/LigCommon/sdl_state.h: a sorted array of `unsigned int` that starts with 32
-- cells inside the object and grows by 32.
mod Tests
pub mod Insert
pub mod Grow
pub mod Equal
use sq_sp.Prelude.{
  ℕ, zero, suc, ◌+◌, ◌-◌, ◌*◌, ◌/◌, ◌%◌, ◌^◌, Bool, true, false, ◌&&◌, Option, none, some, ◌==◌,
  ltb, leb, if◌then◌else◌, ℤ, pos, negsuc,
}

-- `p_table`, `pend` and `curr_size`
pub record MiniSet : Type 0 where
  pub cells : ℕ → ℕ
  pub pend : ℕ
  pub curr_size : ℕ

-- the constructor; the 32 cells of `table` are not initialised
abbrev pub empty_set : (ℕ → ℕ) → MiniSet
empty_set junk = record { cells = junk; pend = 0; curr_size = 32 }

abbrev pub update : ℕ → ℕ → (ℕ → ℕ) → ℕ → ℕ
update i a f j = if i == j then a else f j

-- `resize()`. `memcpy` counts bytes, four to a cell: of the old cells it copies a quarter of
-- `curr_size`, and the rest of the new block holds what the heap held, `junk`. `none` is the throw.
pub resize : (ℕ → ℕ) → MiniSet → Option MiniSet
resize junk s =
    if ltb (65536 - 64) (s.curr_size + 32)
    then none
    else some (record {
      cells = λ i. if ltb (i * 4) s.curr_size then s.cells i else junk i;
      pend = s.pend;
      curr_size = s.curr_size + 32;
    })

-- Where the search loop of `insert` ends: at a cell for the value, or at the value itself.
pub data Place : Type 0 where
  free_at : ℕ → Place
  present : Place

-- `for(i=0;i<pend;++i)`: `left` rounds from `i` on
pub find_place : ℕ → (ℕ → ℕ) → ℕ → ℕ → Place
find_place val cells i zero = free_at i
find_place val cells i (suc left) =
    let later = find_place val cells (i + 1) left in
    if ltb val (cells i) then free_at i else if val == cells i then present else later

-- `for(j=pend-1;j>=i;--j) p_table[j+1]=p_table[j]`: `n` cells from `i` on move up
pub shift_up : ℕ → ℕ → (ℕ → ℕ) → ℕ → ℕ
shift_up zero i cells = cells
shift_up (suc n) i cells = shift_up n i (update (i + n + 1) (cells (i + n)) cells)

-- the part of `insert` behind the call of `resize`
pub place : ℕ → MiniSet → MiniSet
unfolding find_place shift_up
place val s = elim (find_place val s.cells 0 s.pend) [
  | present ↦ s
  | free_at i ↦ record s {
    cells = update i val (shift_up (s.pend - i) i s.cells);
    pend = s.pend + 1;
  }
]

-- `insert(unsigned int val)`
pub insert : (ℕ → ℕ) → ℕ → MiniSet → Option MiniSet
unfolding place resize
insert junk val s =
    if s.pend == s.curr_size - 1
    then elim (resize junk s) [ none ↦ none | some s' ↦ some (place val s') ]
    else some (place val s)

-- a conversion from `int` to `unsigned int`
abbrev pub unsigned : ℤ → ℕ
unsigned (pos n) = n % 2 ^ 32
unsigned (negsuc n) = 2 ^ 32 - 1 - n % 2 ^ 32

-- `insert(int val)`: each use of `val` converts it.
pub insert_int : (ℕ → ℕ) → ℤ → MiniSet → Option MiniSet
unfolding insert
insert_int junk val s = insert junk (unsigned val) s

-- `for(i=0;i<s.pend;++i) p_table[i]=s.p_table[i]`: `left` rounds from `i` on
pub copy_cells : (ℕ → ℕ) → ℕ → ℕ → (ℕ → ℕ) → ℕ → ℕ
copy_cells from i zero cells = cells
copy_cells from i (suc left) cells = copy_cells from (i + 1) left (update i (from i) cells)

-- `assign(s)`, to `t`
pub assign : (ℕ → ℕ) → MiniSet → MiniSet → MiniSet
unfolding copy_cells
assign junk s t =
    if leb s.curr_size t.curr_size
    then record t { cells = copy_cells s.cells 0 s.pend t.cells; pend = s.pend }
    else record { cells = copy_cells s.cells 0 s.pend junk; pend = s.pend; curr_size = s.curr_size }

-- `get_hashvalue()` with its wrap at 32 bits, as the unsigned number of the same bits
add_cells : (ℕ → ℕ) → ℕ → ℕ → ℕ → ℕ
add_cells cells i zero rt = rt
add_cells cells i (suc left) rt = add_cells cells (i + 1) left ((rt + cells i) % 2 ^ 32)

pub get_hashvalue : MiniSet → ℕ
unfolding add_cells
get_hashvalue s = add_cells s.cells 0 s.pend (s.pend * 2 ^ 16 % 2 ^ 32)

-- `operator==`
equal_cells : (ℕ → ℕ) → (ℕ → ℕ) → ℕ → ℕ → Bool
equal_cells f g i zero = true
equal_cells f g i (suc left) =
    let rest = equal_cells f g (i + 1) left in if f i == g i then rest else false

pub equal : MiniSet → MiniSet → Bool
unfolding equal_cells
equal s t = if s.pend == t.pend then equal_cells t.cells s.cells 0 s.pend else false

-- `operator[](int loc)` at a `loc` that is not negative: the test is on the low 16 bits of `loc`.
pub item : MiniSet → ℕ → ℕ
item s loc = if ltb (loc % 2 ^ 16) s.pend then s.cells loc else 0

-- `clear()` and `empty()`
abbrev pub clear : MiniSet → MiniSet
clear s = record s { pend = 0 }

abbrev pub is_empty : MiniSet → Bool
is_empty s = s.pend == 0
