-- ===== src/Pool/Slots.antt =====
-- Reads of a slot after writes to the page table.
use native.Mathlib.Nat.{div-add-mod}
use sq_sp.Prelude.{
  ℕ, ◌+◌, ◌/◌, ◌%◌, ◌^◌, ◌≡◌, false, Option, none, some, ◌==◌, if◌then◌else◌, arith,
}
use sq_sp.Pool.{Slot, Page, slot_in, set_slot, with_page}

module _ (page_bits : ℕ) where
  same_slot :
      (i j : ℕ)
      → i / 2 ^ page_bits ≡ j / 2 ^ page_bits
      → i % 2 ^ page_bits ≡ j % 2 ^ page_bits
      → i ≡ j
  same_slot i j d m = grind (arith, div-add-mod i (2 ^ page_bits), div-add-mod j (2 ^ page_bits))

  -- A write is seen at its own number and nowhere else.
  pub slot_in-set_slot :
      (i j : ℕ) (s old : Slot) (t : ℕ → Option Page)
      → slot_in page_bits t i ≡ some old
      → slot_in page_bits (set_slot page_bits i s t) j
        ≡ (if i == j then some s else slot_in page_bits t j)
  unfolding set_slot
  slot_in-set_slot i j s old t e = ground (arith, same_slot i j)

  -- A page is allocated where a number's page was missing; all other slots stay.
  pub slot_in-with_page :
      (i j : ℕ) (t : ℕ → Option Page)
      → slot_in page_bits (with_page page_bits i t) j ≡ (elim (slot_in page_bits t j) [
        | some s ↦ some s
        | none ↦
            if i / 2 ^ page_bits == j / 2 ^ page_bits
            then some (record { word = j + 1; used = false })
            else none
      ])
  unfolding with_page
  slot_in-with_page i j t = ground (arith, div-add-mod j (2 ^ page_bits))
