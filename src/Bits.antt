-- ===== src/Bits.antt =====
-- The bit operations of C on words, where the code masks and joins fields: `&` by a mask of ones is
-- a remainder, and `|` of fields that do not overlap is a sum.
use Prim.Native.Nat.{zero, suc, min, max, bit_and, bit_or, digits, bit_and-bitwise, bit_or-bitwise}
use native.Mathlib.Nat.{pow-suc}
use sq_sp.Prelude.{ℕ, ◌+◌, ◌*◌, ◌/◌, ◌%◌, ◌^◌, ◌≤◌, ◌<◌, ◌≡◌, refl, Bool, true, ◌&&◌, arith}

-- A test at every number below a bound, by evaluation.
unfoldable pub all_below : ℕ → (ℕ → Bool) → Bool
all_below zero test = true
all_below (suc bound) test = all_below bound test && test bound

pub all_below_sound :
    (bound : ℕ) (test : ℕ → Bool) {x : ℕ} → x < bound → all_below bound test ≡ true → test x ≡ true
unfolding all_below
all_below_sound zero test small passed = absurd (omega arith)
all_below_sound (suc bound) test {x = x} small passed =
    ground
      (arith, λ (l : x < bound) (e : all_below bound test ≡ true). all_below_sound bound test l e)

-- An operation on binary digits, with what it makes of the second number where the first one ends.
module _ (at_end : ℕ → ℕ) (on_digit : ℕ → ℕ → ℕ) where
  enough_rounds :
      (x y m n : ℕ) → x ≤ m → x ≤ n → digits at_end on_digit m x y ≡ digits at_end on_digit n x y
  enough_rounds (suc x) y (suc m) (suc n) hm hn =
      omega (arith, enough_rounds (suc x / 2) (y / 2) m n (omega arith) (omega arith))
  enough_rounds (suc x) y zero n hm hn = absurd (omega arith)
  enough_rounds (suc x) y (suc m) zero hm hn = absurd (omega arith)
  enough_rounds zero y (suc m) (suc n) hm hn = refl
  enough_rounds zero y (suc m) zero hm hn = refl
  enough_rounds zero y zero (suc n) hm hn = refl
  enough_rounds zero y zero zero hm hn = refl

  first_digit :
      (x y : ℕ)
      → digits at_end on_digit (suc x) (suc x) y
        ≡ digits at_end on_digit (suc x / 2) (suc x / 2) (y / 2) * 2 + on_digit (suc x % 2) (y % 2)
  first_digit x y =
      omega (arith, enough_rounds (suc x / 2) (y / 2) x (suc x / 2) (omega arith) (omega arith))

pub bit_or_step : (x y : ℕ) → bit_or x y ≡ bit_or (x / 2) (y / 2) * 2 + max (x % 2) (y % 2)
bit_or_step zero y = omega (arith, bit_or-bitwise 0 y, bit_or-bitwise 0 (y / 2))
bit_or_step (suc x) y =
    rw (bit_or-bitwise (suc x) y, bit_or-bitwise (suc x / 2) (y / 2)) (first_digit (λ y. y) max x y)

pub bit_and_step : (x y : ℕ) → bit_and x y ≡ bit_and (x / 2) (y / 2) * 2 + min (x % 2) (y % 2)
bit_and_step zero y = omega (arith, bit_and-bitwise 0 y, bit_and-bitwise 0 (y / 2))
bit_and_step (suc x) y =
    rw (bit_and-bitwise (suc x) y, bit_and-bitwise (suc x / 2) (y / 2))
      (first_digit (λ y. zero) min x y)

-- Nothing but zeros on the right, for both operations.
right_zeros : (bound x : ℕ) → x ≤ bound → (bit_or x 0 ≡ x) × (bit_and x 0 ≡ 0)
right_zeros bound zero small = (bit_or-bitwise 0 0, bit_and-bitwise 0 0)
right_zeros zero (suc x) small = absurd (omega arith)
right_zeros (suc bound) (suc x) small =
    let (ors, ands) = right_zeros bound (suc x / 2) (omega arith) in
    (omega (arith, bit_or_step (suc x) 0), omega (arith, bit_and_step (suc x) 0))

-- Joining a field of `k` bits below a number shifted by `k`.
pub bit_or_join : (k a b : ℕ) → b < 2 ^ k → bit_or (a * 2 ^ k) b ≡ a * 2 ^ k + b
bit_or_join zero a b h =
    let e : a * 1 ≡ a = omega arith in
    let z : b ≡ 0 = omega arith in rw (z, e) (omega (arith, (right_zeros a a (omega arith)).0))
bit_or_join (suc k) a b h =
    let double : 2 ^ suc k ≡ 2 ^ k * 2 = pow-suc 2 k in
    let whole : a * 2 ^ suc k ≡ a * 2 ^ k * 2 = rw double (omega arith) in
    let half : a * 2 ^ suc k / 2 ≡ a * 2 ^ k = omega arith in
    let even : a * 2 ^ suc k % 2 ≡ 0 = omega arith in
    let rest = bit_or_join k a (b / 2) (omega arith) in
    let step : bit_or (a * 2 ^ suc k) b ≡ bit_or (a * 2 ^ k) (b / 2) * 2 + max 0 (b % 2) =
      rw (bit_or_step (a * 2 ^ suc k) b, half, even) in
    rw (step, rest) (omega arith)

-- Masks of four, five and six ones.
pub mask_15 : (a : ℕ) → bit_and a 15 ≡ a % 16
mask_15 a = omega (
  arith,
  bit_and_step a 15,
  bit_and_step (a / 2) 7,
  bit_and_step (a / 2 / 2) 3,
  bit_and_step (a / 2 / 2 / 2) 1,
  (right_zeros (a / 2 / 2 / 2 / 2) (a / 2 / 2 / 2 / 2) (omega arith)).1,
)

pub mask_31 : (a : ℕ) → bit_and a 31 ≡ a % 32
mask_31 a = omega (arith, bit_and_step a 31, mask_15 (a / 2))

pub mask_63 : (a : ℕ) → bit_and a 63 ≡ a % 64
mask_63 a = omega (arith, bit_and_step a 63, mask_31 (a / 2))
