-- ===== src/Gbk/Search.antt =====
-- `binarySearch` (LigSP/LigCommon/unicode.cpp) on an ordered table.
use sq_sp.Prelude.{ℕ, zero, suc, ◌+◌, ◌-◌, ◌/◌, ◌^◌, ◌≤◌, ◌<◌, ◌≡◌, ◌≢◌, none, some, arith}
use sq_sp.Gbk.{search, binary_search}

-- The first `tablen` codes are strictly increasing, and there are fewer than an `unsigned short` holds.
pub record IsTable (table : ℕ → ℕ) (tablen : ℕ) : Type 0 where
  pub nonempty : 0 < tablen
  pub fits : tablen < 2 ^ 15
  pub increasing : (i j : ℕ) → i < j → j < tablen → table i < table j

module _ (table : ℕ → ℕ) (tablen code : ℕ) (t : IsTable table tablen) where
  search-found :
      (i rounds head tail : ℕ)
      → table i ≡ code
      → head ≤ i
      → i ≤ tail
      → tail < tablen
      → tail < head + rounds
      → search table code rounds head tail ≡ some (some i)
  unfolding search
  search-found i zero head tail e a b c d = absurd (omega arith)
  search-found i (suc rounds) head tail e a b c d =
      let middle = (head + tail) / 2 in
      ground (
        arith,
        t.fits,
        t.increasing i middle,
        t.increasing middle i,
        search-found i rounds (middle + 1) tail e,
        search-found i rounds head (middle - 1) e,
      )

  search-absent :
      (rounds head tail : ℕ)
      → ((i : ℕ) → i < tablen → table i ≢ code)
      → table 0 ≤ code
      → tail < tablen
      → head ≤ tail + 1
      → tail + 1 < head + rounds
      → search table code rounds head tail ≡ some none
  unfolding search
  search-absent zero head tail missing low c d r = absurd (omega arith)
  search-absent (suc rounds) head tail missing low c d r =
      let middle = (head + tail) / 2 in
      ground (
        arith,
        t.fits,
        missing middle,
        search-absent rounds (middle + 1) tail missing,
        search-absent rounds head (middle - 1) missing,
      )

-- In an ordered table `binarySearch` returns the place of a code that is there, and -1 for any other
-- code; its rounds are never used up.
pub binary_search_lem :
    (table : ℕ → ℕ) (tablen code : ℕ)
    → IsTable table tablen
    → ((i : ℕ) → i < tablen → table i ≡ code → binary_search table tablen code ≡ some (some i))
      × (((i : ℕ) → i < tablen → table i ≢ code) → binary_search table tablen code ≡ some none)
unfolding binary_search
binary_search_lem table tablen code t = (
  λ i l e. ground (
    arith,
    t.nonempty,
    t.fits,
    t.increasing 0 i,
    t.increasing i (tablen - 1),
    search-found table tablen code t i (tablen + 1) 0 (tablen - 1),
  ),
  λ missing. ground (
    arith,
    t.nonempty,
    t.fits,
    search-absent table tablen code t (tablen + 1) 0 (tablen - 1) missing,
  ),
)
