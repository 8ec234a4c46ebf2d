-- ===== src/Pool/Step.antt =====
-- The well-formedness of the pool, and the effect of `alloc` and `free` on it.
pub mod Chain
pub mod Sound
pub mod Alloc
pub mod Free
use sq_sp.Prelude.{
  ℕ, ◌+◌, ◌*◌, ◌/◌, ◌^◌, ◌≤◌, ◌<◌, ◌≡◌, ◌≢◌, Bool, true, false, ◌||◌, List, [], ◌∷◌, Option, none,
  some, ◌==◌, refl, arith,
}
use sq_sp.Pool.{Slot, Pool, slot_in, empty}

-- The numbers of the free slots in the order of the links from `from`; the chain ends at `stop`.
abbrev pub Chain : (ℕ → Option Slot) → ℕ → ℕ → List ℕ → Type 0
Chain slots stop from [] = from ≡ stop
Chain slots stop from (h ∷ hs) =
    (from ≡ h)
    × (w : ℕ) × (slots h ≡ some (record { word = w; used = false }))
    × Chain slots stop w hs

abbrev pub member : ℕ → List ℕ → Bool
member a [] = false
member a (b ∷ bs) = a == b || member a bs

abbrev pub IsDistinct : List ℕ → Type 0
IsDistinct [] = Unit
IsDistinct (h ∷ hs) = (member h hs ≡ false) × IsDistinct hs

-- The number was handed out and not given back.
abbrev pub InUse : ℕ → Pool → ℕ → Type 0
InUse page_bits p h =
    (w : ℕ) × (slot_in page_bits p.table h ≡ some (record { word = w; used = true }))

module _ (page_bits page_number : ℕ) where
  -- The slots below `last_handle` were handed out at least once, and `freed` are those given back.
  -- From `last_handle` up to the end of page `pages - 1` the slots are untouched, each linked to
  -- the next.
  pub record IsValid (p : Pool) : Type 0 where
    pub pages : ℕ
    pub freed : List ℕ
    pub pages_le : pages ≤ page_number
    pub last_le : p.last_handle ≤ pages * 2 ^ page_bits
    pub chain : Chain (slot_in page_bits p.table) p.last_handle p.free_loc freed
    pub distinct : IsDistinct freed
    pub below : (h : ℕ) → member h freed ≡ true → h < p.last_handle
    pub missing : (h : ℕ) → pages * 2 ^ page_bits ≤ h → slot_in page_bits p.table h ≡ none
    pub untouched :
        (h : ℕ)
        → p.last_handle ≤ h
        → h < pages * 2 ^ page_bits
        → slot_in page_bits p.table h ≡ some (record { word = h + 1; used = false })
    -- A slot below `last_handle` that is not in the chain is in use.
    pub taken :
        (h : ℕ)
        → h < p.last_handle
        → member h freed ≡ false
        → (w : ℕ) × (slot_in page_bits p.table h ≡ some (record { word = w; used = true }))

  -- The constructor's pool is well formed.
  pub empty-IsValid : IsValid empty
  empty-IsValid = record {
    pages = 0;
    freed = [];
    pages_le = omega arith;
    last_le = omega arith;
    chain = refl;
    distinct = tt;
    below = λ h m. ground arith;
    missing = λ h b. refl;
    untouched = λ h a b. absurd (omega arith);
    taken = λ h b m. absurd (omega arith);
  }
