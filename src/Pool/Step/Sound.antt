-- ===== src/Pool/Step/Sound.antt =====
-- The free chain of a pool through the steps of `alloc` and `free` (LigSP/LigCommon/sdl_memory.h).
use native.Mathlib.Nat.{div-add-mod, mod-lt}
use sq_sp.Prelude.{
  ℕ, ◌+◌, ◌*◌, ◌/◌, ◌^◌, ◌≤◌, ◌<◌, ◌≡◌, ◌≢◌, refl, sym, ◌∙◌, true, false, List, [], ◌∷◌, Option,
  some, ◌==◌, arith, Bool-cases, inl, inr, if◌then◌else◌, ltb,
}
use sq_sp.Pool.{Slot, Page, Pool, slot_in, set_slot, with_page, top_mem}
use sq_sp.Pool.Slots.{slot_in-set_slot, slot_in-with_page}
use sq_sp.Pool.Step.{Chain, member, IsDistinct, IsValid}
use sq_sp.Pool.Step.Chain.{Chain-agree, Chain-free, Chain-start_le}

page_of : (q h n : ℕ) → q * n ≤ h → h < (q + 1) * n → h / n ≡ q
page_of q h n a b = grind (arith, div-add-mod h n, mod-lt)

not_page_of : (q h n : ℕ) → 0 < n → (q + 1) * n ≤ h → h / n ≢ q
not_page_of q h n z a = grind (arith, div-add-mod h n, mod-lt)

module _ (page_bits page_number : ℕ) where
  pub kept :
      (i j : ℕ) (s : Slot) (t : ℕ → Option Page)
      → slot_in page_bits t j ≡ some s
      → slot_in page_bits (with_page page_bits i t) j ≡ some s
  kept i j s t e = ground (arith, slot_in-with_page page_bits i j t)

  pub with_page_present :
      (i : ℕ) (s : Slot) (t : ℕ → Option Page)
      → slot_in page_bits t i ≡ some s
      → with_page page_bits i t ≡ t
  unfolding with_page
  with_page_present i s t e = ground arith

  -- the first free slot is in the chain, or untouched, or on a page that is not there yet
  pub first_known :
      (p : Pool) (v : IsValid page_bits page_number p) (fs : List ℕ)
      → v.freed ≡ fs
      → p.free_loc ≢ v.pages * 2 ^ page_bits
      → (w : ℕ) × (slot_in page_bits p.table p.free_loc ≡ some (record { word = w; used = false }))
  first_known p v [] e n =
      let c : p.free_loc ≡ p.last_handle = ground (arith, v.chain, e) in
      (p.last_handle + 1, rw c (v.untouched p.last_handle (omega arith) (omega (arith, v.last_le))))
  first_known p v (h ∷ hs) e n =
      let c : Chain (slot_in page_bits p.table) p.last_handle p.free_loc (h ∷ hs) =
        rw e at v.chain in
      let (a, w, at, rest) = c in (w, rw a at)

  -- With the page of the first free slot allocated the pool is still well formed.
  pub grown :
      (p : Pool)
      → IsValid page_bits page_number p
      → p.free_loc < top_mem page_bits page_number
      → IsValid page_bits page_number (record p { table = with_page page_bits p.free_loc p.table })
  grown p v fits = elim (Bool-cases (p.free_loc == v.pages * 2 ^ page_bits)) [
    | inl y ↦ record {
      pages = v.pages + 1;
      freed = v.freed;
      pages_le = grind arith;
      last_le = grind (arith, v.last_le);
      chain =
          Chain-agree _ _ p.last_handle p.free_loc v.freed
            (λ h m.
              let (w, at) = Chain-free _ p.last_handle p.free_loc v.freed h v.chain m in
              (kept p.free_loc h _ p.table at ∙ sym at))
            v.chain;
      distinct = v.distinct;
      below = v.below;
      missing = λ h b. ground (
        arith,
        slot_in-with_page page_bits p.free_loc h p.table,
        v.missing h (grind arith),
        not_page_of v.pages h (2 ^ page_bits) (grind arith) b,
        page_of v.pages p.free_loc (2 ^ page_bits) (ground arith) (grind arith),
      );
      untouched = λ h b c. elim (Bool-cases (ltb h (v.pages * 2 ^ page_bits))) [
        | inl l ↦ kept p.free_loc h _ p.table (v.untouched h b (ground arith))
        | inr g ↦ ground (
          arith,
          slot_in-with_page page_bits p.free_loc h p.table,
          v.missing h (ground arith),
          page_of v.pages h (2 ^ page_bits) (ground arith) c,
          page_of v.pages p.free_loc (2 ^ page_bits) (ground arith) (grind arith),
        )
      ];
      taken = λ h b m. let (w, at) = v.taken h b m in (w, kept p.free_loc h _ p.table at);
    }
    | inr n ↦
        let (w, at) = first_known p v v.freed refl (ground arith) in
        rw (with_page_present p.free_loc _ p.table at) v
  ]

  -- the pool that `alloc` leaves
  abbrev pub taken_pool : Pool → ℕ → Pool
  taken_pool p w = record {
    table = set_slot page_bits p.free_loc (record { word = w; used = true }) p.table;
    free_loc = w;
    last_handle = if ltb p.last_handle w then w else p.last_handle;
  }

  -- the slot of a number after the first free slot is taken
  pub slot_taken :
      (p : Pool) (w h : ℕ)
      → slot_in page_bits p.table p.free_loc ≡ some (record { word = w; used = false })
      → slot_in page_bits (taken_pool p w).table h ≡ (
          if p.free_loc == h
          then some (record { word = w; used = true })
          else slot_in page_bits p.table h)
  slot_taken p w h at = slot_in-set_slot page_bits p.free_loc h _ _ p.table at

  last_same : (p : Pool) (w : ℕ) → w ≤ p.last_handle → (taken_pool p w).last_handle ≡ p.last_handle
  last_same p w le = ground arith

  take_untouched :
      (p : Pool) (v : IsValid page_bits page_number p) (w : ℕ)
      → v.freed ≡ []
      → slot_in page_bits p.table p.free_loc ≡ some (record { word = w; used = false })
      → IsValid page_bits page_number (taken_pool p w)
  take_untouched p v w e at =
      let c : p.free_loc ≡ p.last_handle = ground (arith, v.chain, e) in
      let inside : p.last_handle < v.pages * 2 ^ page_bits =
        ground (arith, v.missing p.last_handle) in
      let next : w ≡ p.last_handle + 1 =
        ground (arith, v.untouched p.last_handle (omega arith) inside) in
      record {
        pages = v.pages;
        freed = [];
        pages_le = v.pages_le;
        last_le = ground (arith, v.last_le);
        chain = ground arith;
        distinct = tt;
        below = λ h m. absurd (ground arith);
        missing = λ h b. ground (arith, slot_taken p w h at, v.missing h b);
        untouched = λ h b d. ground (arith, slot_taken p w h at, v.untouched h);
        taken = λ h b m. elim (Bool-cases (p.free_loc == h)) [
          | inl y ↦ (w, ground (arith, slot_taken p w h at))
          | inr n ↦
              let (w', at') = v.taken h (ground arith) (rw e) in
              (w', ground (arith, slot_taken p w h at))
        ];
      }

  take_freed :
      (p : Pool) (v : IsValid page_bits page_number p) (w k : ℕ) (fs : List ℕ)
      → v.freed ≡ k ∷ fs
      → slot_in page_bits p.table p.free_loc ≡ some (record { word = w; used = false })
      → IsValid page_bits page_number (taken_pool p w)
  take_freed p v w k fs e at =
      let c : Chain (slot_in page_bits p.table) p.last_handle p.free_loc (k ∷ fs) =
        rw e at v.chain in
      let (a, w', at', rest) = c in
      let d : IsDistinct (k ∷ fs) = rw e at v.distinct in
      let same : w' ≡ w = ground arith in
      let under : (h : ℕ) → member h (k ∷ fs) ≡ true → h < p.last_handle =
        λ h m. v.below h (rw e m) in
      let le : w ≤ p.last_handle =
        rw same at (Chain-start_le _ p.last_handle w' fs rest (λ h m. under h (ground arith))) in
      record {
        pages = v.pages;
        freed = fs;
        pages_le = v.pages_le;
        last_le = ground (arith, v.last_le);
        chain = rw (last_same p w le) (
            Chain-agree _ _ p.last_handle w fs (λ h m. ground (arith, slot_taken p w h at))
              (rw same at rest));
        distinct = d.1;
        below = λ h m. ground (arith, under h);
        missing = λ h b. ground (arith, slot_taken p w h at, v.missing h b);
        untouched = λ h b d. ground (arith, slot_taken p w h at, v.untouched h, under k);
        taken = λ h b m. elim (Bool-cases (p.free_loc == h)) [
          | inl y ↦ (w, ground (arith, slot_taken p w h at))
          | inr n ↦
              let (u, au) = v.taken h (ground arith) (rw e (ground arith)) in
              (u, ground (arith, slot_taken p w h at))
        ];
      }

  pub take_first :
      (p : Pool) (v : IsValid page_bits page_number p) (w : ℕ) (fs : List ℕ)
      → v.freed ≡ fs
      → slot_in page_bits p.table p.free_loc ≡ some (record { word = w; used = false })
      → IsValid page_bits page_number (taken_pool p w)
  take_first p v w [] e at = take_untouched p v w e at
  take_first p v w (k ∷ fs) e at = take_freed p v w k fs e at
