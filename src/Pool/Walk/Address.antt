-- ===== src/Pool/Walk/Address.antt =====
-- A pointer into the pool against the number of its slot.
use native.Mathlib.Nat.{div-add-mod', div-lt_iff_lt-mul}
use sq_sp.Prelude.{
  ℕ, zero, suc, ◌+◌, ◌*◌, ◌/◌, ◌%◌, ◌^◌, ◌≤◌, ◌<◌, ◌≡◌, true, some, pos, arith, inl, inr,
  Option-cases, ap, ◌∙◌,
}
use sq_sp.Pool.{Page, Pool, free}
use sq_sp.Pool.Step.{IsValid, InUse}
use sq_sp.Pool.Step.Free.{free_lem, InUse-inside}
use sq_sp.Pool.Walk.{Pointer, inside, search_pages, get_handle, free_pointer}

module _ (page_bits page_number : ℕ) where
  -- The address that `alloc` returns for a number.
  abbrev pub address : ℕ → Pointer
  address h = inside (h / 2 ^ page_bits) (h % 2 ^ page_bits)

  search_pages-found :
      (p : Pool) (page offset rounds i : ℕ) (slots : Page)
      → p.table page ≡ some slots
      → (slots offset).used ≡ true
      → i ≤ page
      → page < i + rounds
      → search_pages page_bits page_number rounds i p page offset
        ≡ some (page * 2 ^ page_bits + offset)
  unfolding search_pages
  search_pages-found p page offset zero i slots e u a b = absurd (omega arith)
  search_pages-found p page offset (suc rounds) i slots e u a b =
      ground (arith, search_pages-found p page offset rounds (i + 1) slots)

  address_found :
      (p : Pool) (h : ℕ)
      → IsValid page_bits page_number p
      → InUse page_bits p h
      → search_pages page_bits page_number page_number 0 p (h / 2 ^ page_bits) (h % 2 ^ page_bits)
        ≡ some h
  address_found p h v u = elim (Option-cases (p.table (h / 2 ^ page_bits))) [
    | inl y ↦ ground (arith, y, u.1)
    | inr (slots, y) ↦
        let page : h / 2 ^ page_bits < page_number =
          (div-lt_iff_lt-mul (grind (arith, InUse-inside page_bits page_number p v h u))).1
            (grind (arith, InUse-inside page_bits page_number p v h u)) in
        search_pages-found p _ (h % 2 ^ page_bits) page_number 0 slots y (ground (arith, y, u.1))
          (omega arith) (omega arith)
        ∙ ap some (div-add-mod' h (2 ^ page_bits))
  ]

  -- The address of a number in use is recognised: `get_handle` returns the number, and `free` by
  -- address does what `free` by number does.
  pub get_handle-address :
      (p : Pool) (h : ℕ)
      → IsValid page_bits page_number p
      → InUse page_bits p h
      → (get_handle page_bits page_number (address h) p ≡ pos h)
        × (free_pointer page_bits page_number (address h) p ≡ free page_bits page_number (pos h) p)
  unfolding get_handle free_pointer
  get_handle-address p h v u =
      ground (arith, address_found p h v u, free_lem page_bits page_number p h v u)
