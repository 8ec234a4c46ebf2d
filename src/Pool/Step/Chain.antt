-- ===== src/Pool/Step/Chain.antt =====
-- The chain of free slots under writes elsewhere.
use sq_sp.Prelude.{
  ℕ, ◌<◌, ◌≤◌, ◌≡◌, true, false, List, [], ◌∷◌, Option, some, ◌==◌, arith, inl, inr, Bool-cases,
}
use sq_sp.Pool.{Slot}
use sq_sp.Pool.Step.{Chain, member}

-- A chain depends on its own slots alone.
pub Chain-agree :
    (f g : ℕ → Option Slot) (stop from : ℕ) (hs : List ℕ)
    → ((h : ℕ) → member h hs ≡ true → g h ≡ f h)
    → Chain f stop from hs
    → Chain g stop from hs
Chain-agree f g stop from [] same c = c
Chain-agree f g stop from (h ∷ hs) same (e, w, at, rest) =
    (e, w, ground (arith, same h), Chain-agree f g stop w hs (λ k m. same k (ground arith)) rest)

-- The members of a chain are free.
pub Chain-free :
    (f : ℕ → Option Slot) (stop from : ℕ) (hs : List ℕ) (h : ℕ)
    → Chain f stop from hs
    → member h hs ≡ true
    → (w : ℕ) × (f h ≡ some (record { word = w; used = false }))
Chain-free f stop from [] h c m = absurd (ground arith)
Chain-free f stop from (k ∷ hs) h (e, w, at, rest) m = elim (Bool-cases (h == k)) [
  | inl y ↦ (w, ground arith)
  | inr n ↦ Chain-free f stop w hs h rest (ground arith)
]

pub Chain-start_le :
    (f : ℕ → Option Slot) (stop from : ℕ) (hs : List ℕ)
    → Chain f stop from hs
    → ((h : ℕ) → member h hs ≡ true → h < stop)
    → from ≤ stop
Chain-start_le f stop from [] c b = omega arith
Chain-start_le f stop from (h ∷ hs) c b = ground (arith, b h)
