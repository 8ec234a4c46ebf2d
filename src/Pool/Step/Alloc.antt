-- ===== src/Pool/Step/Alloc.antt =====
-- `alloc` and `free` against the set of numbers in use.
use sq_sp.Prelude.{
  ℕ, ◌+◌, ◌*◌, ◌^◌, ◌≤◌, ◌<◌, ◌≡◌, ◌≢◌, refl, false, List, [], ◌∷◌, some, ◌==◌, arith, Bool-cases,
  inl, inr, ltb,
}
use sq_sp.Pool.{Slot, Pool, returned, thrown, slot_in, with_page, alloc, top_mem}
use sq_sp.Pool.Slots.{slot_in-with_page}
use sq_sp.Pool.Step.{Chain, IsValid, InUse}
use sq_sp.Pool.Step.Sound.{first_known, grown, kept, take_first, taken_pool, slot_taken}

module _ (page_bits page_number : ℕ) where
  first_in_grown :
      (p : Pool)
      → IsValid page_bits page_number p
      → (w : ℕ) × (slot_in page_bits (with_page page_bits p.free_loc p.table) p.free_loc
          ≡ some (record { word = w; used = false }))
  first_in_grown p v = elim (Bool-cases (p.free_loc == v.pages * 2 ^ page_bits)) [
    | inl y ↦ (
      p.free_loc + 1,
      ground
          (arith, slot_in-with_page page_bits p.free_loc p.free_loc p.table, v.missing p.free_loc),
    )
    | inr n ↦
        let (w, at) = first_known page_bits page_number p v v.freed refl (ground arith) in
        (w, kept page_bits page_number p.free_loc p.free_loc _ p.table at)
  ]

  -- In a well-formed pool `alloc` throws nothing while a number below `TopMem` is left: it returns
  -- a number that was not in use, which is in use afterwards, keeps the pool well formed, and
  -- changes no other slot that exists.
  pub alloc-IsValid :
      (p : Pool)
      → IsValid page_bits page_number p
      → p.free_loc < top_mem page_bits page_number
      → (p' : Pool) × (alloc page_bits page_number p ≡ returned (p', p.free_loc))
        × IsValid page_bits page_number p'
        × ¬ InUse page_bits p p.free_loc
        × InUse page_bits p' p.free_loc
        × ((h : ℕ) (s : Slot)
            → h ≢ p.free_loc
            → slot_in page_bits p.table h ≡ some s
            → slot_in page_bits p'.table h ≡ some s)
  unfolding alloc
  alloc-IsValid p v fits =
      let (w, at) = first_in_grown p v in
      let g = record p { table = with_page page_bits p.free_loc p.table } in
      let gv = grown page_bits page_number p v fits in
      (
        taken_pool page_bits page_number g w,
        ground (arith, at),
        take_first page_bits page_number g gv w gv.freed refl at,
        λ (u, e).
            absurd (ground (arith, kept page_bits page_number p.free_loc p.free_loc _ p.table e)),
        (w, ground (arith, slot_taken page_bits page_number g w p.free_loc at)),
        λ h s n e. ground (
          arith,
          slot_taken page_bits page_number g w h at,
          kept page_bits page_number p.free_loc h s p.table e,
        ),
      )

  throws_at_end :
      (p : Pool)
      → IsValid page_bits page_number p
      → alloc page_bits page_number p ≡ thrown
      → top_mem page_bits page_number ≤ p.free_loc
  throws_at_end p v e = elim (Bool-cases (ltb p.free_loc (top_mem page_bits page_number))) [
    | inl l ↦ let fine = alloc-IsValid p v (ground arith) in absurd (cc (fine.1))
    | inr g ↦ ground arith
  ]

  all_taken :
      (p : Pool) (v : IsValid page_bits page_number p) (fs : List ℕ)
      → v.freed ≡ fs
      → top_mem page_bits page_number ≤ p.free_loc
      → (h : ℕ) → h < top_mem page_bits page_number
      → InUse page_bits p h
  all_taken p v [] e top h fits = v.taken h (ground (arith, v.chain, e)) (rw e)
  all_taken p v (k ∷ fs) e top h fits =
      let c : Chain (slot_in page_bits p.table) p.last_handle p.free_loc (k ∷ fs) =
        rw e at v.chain in
      let l : k < p.last_handle = v.below k (rw e (ground arith)) in
      let a : p.free_loc ≡ k = c.0 in absurd (grind (arith, v.last_le, v.pages_le))

  -- `alloc` on a well-formed pool throws only when every number below `TopMem` is in use.
  pub alloc_exhausted :
      (p : Pool)
      → IsValid page_bits page_number p
      → alloc page_bits page_number p ≡ thrown
      → (h : ℕ) → h < top_mem page_bits page_number
      → InUse page_bits p h
  unfolding alloc
  alloc_exhausted p v e h fits = all_taken p v v.freed refl (throws_at_end p v e) h fits
