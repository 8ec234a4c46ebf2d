-- ===== src/Pool/Step/Free.antt =====
-- `free` by number (LigSP/LigCommon/sdl_memory.h), and `alloc` after it.
use sq_sp.Prelude.{
  ℕ, ◌<◌, ◌≡◌, ◌≢◌, refl, false, ◌∷◌, some, ◌==◌, pos, arith, Bool-cases, inl, inr, Option-cases,
  if◌then◌else◌,
}
use sq_sp.Pool.{Pool, returned, slot_in, set_slot, alloc, free, top_mem}
use sq_sp.Pool.Slots.{slot_in-set_slot}
use sq_sp.Pool.Step.{member, IsValid, InUse}
use sq_sp.Pool.Step.Chain.{Chain-agree, Chain-free}
use sq_sp.Pool.Step.Sound.{taken_pool, slot_taken, with_page_present}

module _ (page_bits page_number : ℕ) where
  -- the pool that `free` leaves
  abbrev pub freed_pool : Pool → ℕ → Pool
  freed_pool p h = record p {
    table = set_slot page_bits h (record { word = p.free_loc; used = false }) p.table;
    free_loc = h;
  }

  slot_freed :
      (p : Pool) (h j : ℕ)
      → InUse page_bits p h
      → slot_in page_bits (freed_pool p h).table j ≡ (
          if h == j
          then some (record { word = p.free_loc; used = false })
          else slot_in page_bits p.table j)
  slot_freed p h j (w, at) = slot_in-set_slot page_bits h j _ _ p.table at

  InUse-below :
      (p : Pool)
      → IsValid page_bits page_number p
      → (h : ℕ) → InUse page_bits p h
      → h < p.last_handle
  InUse-below p v h (w, at) = ground (arith, v.missing h, v.untouched h)

  pub InUse-inside :
      (p : Pool)
      → IsValid page_bits page_number p
      → (h : ℕ) → InUse page_bits p h
      → h < top_mem page_bits page_number
  InUse-inside p v h u = grind (arith, InUse-below p v h u, v.last_le, v.pages_le)

  InUse-free :
      (p : Pool) (v : IsValid page_bits page_number p) (h : ℕ)
      → InUse page_bits p h
      → member h v.freed ≡ false
  InUse-free p v h (w, at) = elim (Bool-cases (member h v.freed)) [
    | inl m ↦
        let (u, free_at) = Chain-free _ p.last_handle p.free_loc v.freed h v.chain m in
        absurd (ground arith)
    | inr n ↦ n
  ]

  freed_pool-IsValid :
      (p : Pool) (h : ℕ)
      → IsValid page_bits page_number p
      → InUse page_bits p h
      → IsValid page_bits page_number (freed_pool p h)
  freed_pool-IsValid p h v u = record {
    pages = v.pages;
    freed = h ∷ v.freed;
    pages_le = v.pages_le;
    last_le = v.last_le;
    chain = (
      refl,
      p.free_loc,
      ground (arith, slot_freed p h h u),
      Chain-agree _ _ p.last_handle p.free_loc v.freed
          (λ j m. ground (arith, slot_freed p h j u, InUse-free p v h u)) v.chain,
    );
    distinct = (InUse-free p v h u, v.distinct);
    below = λ j m. ground (arith, v.below j, InUse-below p v h u);
    missing =
        λ j b. ground (arith, slot_freed p h j u, v.missing j b, InUse-below p v h u, v.last_le);
    untouched = λ j b d. ground (arith, slot_freed p h j u, v.untouched j b d, InUse-below p v h u);
    taken = λ j b m.
        let (w, at) = v.taken j b (ground arith) in (w, ground (arith, slot_freed p h j u));
  }

  pub free_lem :
      (p : Pool) (h : ℕ)
      → IsValid page_bits page_number p
      → InUse page_bits p h
      → free page_bits page_number (pos h) p ≡ freed_pool p h
  unfolding free
  free_lem p h v (w, at) = ground (arith, at, InUse-inside p v h (w, at))

  -- `free` of a number in use keeps the pool well formed: the number is no longer in use, and no
  -- other slot changes.
  pub free-IsValid :
      (p : Pool) (h : ℕ)
      → IsValid page_bits page_number p
      → InUse page_bits p h
      → IsValid page_bits page_number (free page_bits page_number (pos h) p)
        × ¬ InUse page_bits (free page_bits page_number (pos h) p) h
        × ((j : ℕ)
            → j ≢ h
            → slot_in page_bits (free page_bits page_number (pos h) p).table j
              ≡ slot_in page_bits p.table j)
  free-IsValid p h v u = rw (free_lem p h v u) (
    freed_pool-IsValid p h v u,
    λ (w, at). absurd (ground (arith, slot_freed p h h u)),
    λ j n. ground (arith, slot_freed p h j u),
  )

  -- The number that was given back last is the next one handed out, and it comes back in use.
  pub alloc-free :
      (p : Pool) (h : ℕ)
      → IsValid page_bits page_number p
      → InUse page_bits p h
      → (p' : Pool) × (alloc page_bits page_number (free page_bits page_number (pos h) p)
          ≡ returned (p', h))
        × InUse page_bits p' h
        × (p'.free_loc ≡ p.free_loc)
  unfolding alloc
  alloc-free p h v u =
      let f = freed_pool p h in
      let at : slot_in page_bits f.table h ≡ some (record { word = p.free_loc; used = false }) =
        ground (arith, slot_freed p h h u) in
      let stays = with_page_present page_bits page_number h _ f.table at in
      (
        taken_pool page_bits page_number f p.free_loc,
        rw (free_lem p h v u) (ground (arith, at, stays, InUse-inside p v h u)),
        (p.free_loc, ground (arith, slot_taken page_bits page_number f p.free_loc h at)),
        refl,
      )

  -- Giving back a number that is not in use, a second time for instance, changes nothing.
  pub free_unused :
      (p : Pool) (h : ℕ) → ¬ InUse page_bits p h → free page_bits page_number (pos h) p ≡ p
  unfolding free
  free_unused p h n = elim (Option-cases (slot_in page_bits p.table h)) [
    | inl e ↦ ground (arith, e)
    | inr (s, e) ↦ elim (Bool-cases s.used) [
      | inl y ↦ absurd (n (s.word, ground (arith, e)))
      | inr z ↦ ground (arith, e)
    ]
  ]
