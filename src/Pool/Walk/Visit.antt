-- ===== src/Pool/Walk/Visit.antt =====
-- What `for_each` and `destroy` visit.
use native.Mathlib.Nat.{div-lt_iff_lt-mul}
use mathlib.Core.List.{append_assoc, append-nil}
use sq_sp.Prelude.{
  ℕ, zero, suc, ◌+◌, ◌/◌, ◌^◌, ◌≤◌, ◌<◌, ◌≡◌, ◌≢◌, ap, false, List, [], ◌∷◌, ◌++◌, none, some,
  if◌then◌else◌, arith, Bool-cases, inl, inr, Option-cases,
}
use sq_sp.Pool.{Slot, Pool, returned, top_mem, slot_in}
use sq_sp.Pool.Step.{IsValid, InUse, member}
use sq_sp.Pool.Step.Chain.{Chain-free}
use sq_sp.Pool.Walk.{walk, for_each}

-- How many of the numbers below `k` are in use.
abbrev used_count : ℕ → Pool → ℕ → ℕ
used_count page_bits p zero = 0
used_count page_bits p (suc k) =
    used_count page_bits p k
    + (elim (slot_in page_bits p.table k) [ none ↦ 0 | some s ↦ if s.used then 1 else 0 ])

-- `count` numbers from `i` on.
abbrev pub numbers_from : ℕ → ℕ → List ℕ
numbers_from i zero = []
numbers_from i (suc count) = i ∷ numbers_from (i + 1) count

module _ (page_bits page_number : ℕ) where
  -- no number from `last_handle` on is in use
  unused_above :
      (p : Pool)
      → IsValid page_bits page_number p
      → (k : ℕ) (s : Slot) → p.last_handle ≤ k
      → slot_in page_bits p.table k ≡ some s
      → s.used ≡ false
  unused_above p v k s le e = ground (arith, v.missing k, v.untouched k)

  -- a free number below `last_handle` leaves fewer in use than there are
  used_count_bound :
      (p : Pool) (v : IsValid page_bits page_number p) (h w k : ℕ)
      → slot_in page_bits p.table h ≡ some (record { word = w; used = false })
      → h < p.last_handle
      → (used_count page_bits p k ≤ k)
        × (used_count page_bits p k ≤ p.last_handle)
        × (h < k → used_count page_bits p k < p.last_handle)
        × (h < k → used_count page_bits p k < k)
  used_count_bound p v h w zero e l =
      (omega arith, omega arith, λ b. absurd (omega arith), λ b. absurd (omega arith))
  used_count_bound p v h w (suc k) e l =
      let ih = used_count_bound p v h w k e l in
      elim (Option-cases (slot_in page_bits p.table k)) [
        | inl y ↦ ground (arith, y, ih)
        | inr (s, y) ↦ ground (arith, y, ih, unused_above p v k s, e)
      ]

  walk_never :
      (p : Pool) (v : IsValid page_bits page_number p) (h w fuel i n : ℕ) (visited result : List ℕ)
      → slot_in page_bits p.table h ≡ some (record { word = w; used = false })
      → h < p.last_handle
      → n + used_count page_bits p i ≡ p.last_handle + i
      → walk page_bits page_number fuel p i n visited ≢ returned result
  unfolding walk
  walk_never p v h w zero i n visited result e l inv r = cc
  walk_never p v h w (suc fuel) i n visited result e l inv r =
      let next : used_count page_bits p (i + 1) ≡ used_count page_bits p (suc i) =
        ap (used_count page_bits p) {x = i + 1} {y = suc i} (omega arith) in
      let bound = used_count_bound p v h w i e l in
      elim (Option-cases (slot_in page_bits p.table i)) [
        | inl y ↦ ground (arith, y, bound)
        | inr (s, y) ↦ ground (
          arith,
          y,
          bound,
          next,
          walk_never p v h w fuel (i + 1) n (visited ++ i ∷ []) result e l,
          walk_never p v h w fuel (i + 1) (n + 1) visited result e l,
        )
      ]

  -- Once a number below `last_handle` is no longer in use, `for_each` does not return: it goes on
  -- behind `last_handle` for as many objects as were given back, and ends by its exception or off
  -- the page table.
  pub for_each_never :
      (p : Pool) (h : ℕ)
      → IsValid page_bits page_number p
      → h < p.last_handle
      → ¬ InUse page_bits p h
      → (result : List ℕ) → for_each page_bits page_number p ≢ returned result
  unfolding for_each
  for_each_never p h v l n result = elim (Bool-cases (member h v.freed)) [
    | inl m ↦
        let (w, at) = Chain-free _ p.last_handle p.free_loc v.freed h v.chain m in
        walk_never p v h w (top_mem page_bits page_number + 1) 0 p.last_handle [] result at l
          (omega arith)
    | inr z ↦ absurd (n (v.taken h l z))
  ]

  walk_all :
      (p : Pool) (fuel i count : ℕ) (visited : List ℕ)
      → IsValid page_bits page_number p
      → ((h : ℕ) → h < p.last_handle → InUse page_bits p h)
      → i + count ≡ p.last_handle
      → count < fuel
      → walk page_bits page_number fuel p i p.last_handle visited
        ≡ returned (visited ++ numbers_from i count)
  unfolding walk
  walk_all p zero i count visited v all e l = absurd (omega arith)
  walk_all p (suc fuel) i zero visited v all e l = ground (arith, append-nil visited)
  walk_all p (suc fuel) i (suc count) visited v all e l =
      let (w, at) = all i (omega arith) in
      let page : i / 2 ^ page_bits < page_number =
        (div-lt_iff_lt-mul (grind (arith, v.last_le))).1 (grind (arith, v.last_le, v.pages_le)) in
      ground (
        arith,
        at,
        page,
        walk_all p fuel (i + 1) count (visited ++ i ∷ []) v all,
        append_assoc visited (i ∷ []) (numbers_from (i + 1) count),
      )

  -- While nothing was given back, `for_each` visits every number below `last_handle` once, in order.
  pub for_each_all :
      (p : Pool)
      → IsValid page_bits page_number p
      → ((h : ℕ) → h < p.last_handle → InUse page_bits p h)
      → for_each page_bits page_number p ≡ returned (numbers_from 0 p.last_handle)
  unfolding for_each
  for_each_all p v all =
      walk_all p (top_mem page_bits page_number + 1) 0 p.last_handle [] v all (omega arith)
        (grind (arith, v.last_le, v.pages_le))
