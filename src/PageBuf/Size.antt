-- ===== src/PageBuf/Size.antt =====
-- The size of the buffer, what it holds, and the room that `resize` makes.
use native.Mathlib.Nat.{pow-suc}
use sq_sp.Prelude.{
  ℕ, zero, suc, ◌+◌, ◌*◌, ◌^◌, ◌<◌, ◌≤◌, ◌≡◌, inl, inr, refl, Bool, true, false, [], ◌∷◌, ◌++◌,
  none, ◌==◌, ltb, if◌then◌else◌, arith, Bool-cases, Bytes, sym,
}
use sq_sp.PageBuf.{PageBuf, io_size, max_page_size, resize, make_room, moved}

-- After `r` times the size is 32 KB * (2 ^ (r + 1) - 1).
abbrev pub IsSized : PageBuf → Type 0
IsSized p = (p.buf_size + io_size ≡ 2 * 2 ^ p.resize_times * io_size) × (p.buf_size ≤ max_page_size)

abbrev pub slice : (ℕ → ℕ) → ℕ → ℕ → Bytes
slice f i zero = []
slice f i (suc n) = f i ∷ slice f (i + 1) n

-- the bytes in front of `buf_curr`
abbrev pub contents : PageBuf → Bytes
contents p = slice p.p_buf 0 p.buf_curr

pub slice_cong :
    (f g : ℕ → ℕ) (i n : ℕ) → ((k : ℕ) → k < i + n → f k ≡ g k) → slice f i n ≡ slice g i n
slice_cong f g i zero h = refl
slice_cong f g i (suc n) h =
    rw (h i (omega arith), slice_cong f g (i + 1) n (λ k l. h k (omega arith))) refl

pub slice_snoc : (f : ℕ → ℕ) (i n : ℕ) → slice f i (n + 1) ≡ slice f i n ++ f (i + n) ∷ []
slice_snoc f i zero = ground arith
slice_snoc f i (suc n) = ground (arith, slice_snoc f (i + 1) n)

-- the size after growing
abbrev pub next_size : PageBuf → ℕ
next_size p = 2 * p.buf_size + io_size

-- What a successful call leaves, and a refused one.
abbrev pub Grew : PageBuf → Bool × PageBuf → Type 0
Grew p (true, q) =
    IsSized q × (q.buf_size ≡ next_size p) × (q.buf_curr ≡ p.buf_curr) × (contents q ≡ contents p)
Grew p (false, q) = (q ≡ p) × (max_page_size < next_size p)

-- the two values that `resize` computes from the state
min_bytes_lem : (p : PageBuf) → IsSized p → 2 * 2 ^ p.resize_times * io_size ≡ p.buf_size + io_size
min_bytes_lem p (sized, small) = sym sized

size_lem :
    (r size : ℕ) → size + io_size ≡ 2 * 2 ^ r * io_size → (if r == 0 then io_size else size) ≡ size
size_lem zero size h = omega arith
size_lem (suc r) size h = ground arith

-- Growing, under the invariant: the size doubles and 32 KB are added, as long as 32 MB allow it, and
-- the contents stay.
pub resize-Grew :
    (junk : ℕ → ℕ) (p : PageBuf) → IsSized p → p.buf_curr ≤ p.buf_size → Grew p (resize junk none p)
unfolding resize
resize-Grew junk p (sized, small) room =
    let one : p.resize_times + 1 ≡ suc p.resize_times = omega arith in
    let next : p.buf_size + (p.buf_size + io_size) + io_size
        ≡ 2 * 2 ^ (p.resize_times + 1) * io_size =
      rw (one, pow-suc 2 p.resize_times) (omega arith) in
    rw (size_lem p.resize_times p.buf_size sized, min_bytes_lem p (sized, small))
      (elim (Bool-cases (ltb max_page_size (p.buf_size + (p.buf_size + io_size)))) [
        | inl over ↦ rw over (refl, ground arith)
        | inr fits ↦ rw fits (
          (next, ground arith),
          omega arith,
          refl,
          slice_cong (moved p.buf_size junk p.p_buf) p.p_buf 0 p.buf_curr (λ k l. ground arith),
        )
      ])

-- `make_room` gives the room asked for, up to 64 KB, or the buffer is beyond 16 MB.
abbrev pub Roomy : ℕ → PageBuf → Bool × PageBuf → Type 0
Roomy room p (true, q) =
    IsSized q
    × (p.buf_size ≤ q.buf_size)
    × (q.buf_curr ≡ p.buf_curr)
    × (q.buf_curr + room ≤ q.buf_size)
    × (contents q ≡ contents p)
Roomy room p (false, q) = (q ≡ p) × (max_page_size < next_size p) × (p.buf_size < p.buf_curr + room)

power_positive : (r : ℕ) → 0 < 2 ^ r
power_positive zero = omega arith
power_positive (suc r) = rw (pow-suc 2 r) (omega (arith, power_positive r))

pub IsSized-least : (p : PageBuf) → IsSized p → io_size ≤ p.buf_size
IsSized-least p (sized, small) = omega (arith, power_positive p.resize_times)

Grew-Roomy :
    (room : ℕ) (p : PageBuf) (r : Bool × PageBuf)
    → IsSized p
    → p.buf_curr ≤ p.buf_size
    → room ≤ 2 * io_size
    → p.buf_size < p.buf_curr + room
    → Grew p r
    → Roomy room p r
Grew-Roomy room p (true, q) before fits small short (sized, size, curr, same) =
    (sized, omega arith, curr, omega (arith, IsSized-least p before), same)
Grew-Roomy room p (false, q) before fits small short (same, full) = (same, full, short)

pub make_room-Roomy :
    (junk : ℕ → ℕ) (room : ℕ) (p : PageBuf)
    → IsSized p
    → p.buf_curr ≤ p.buf_size
    → room ≤ 2 * io_size
    → Roomy room p (make_room junk room p)
unfolding make_room resize
make_room-Roomy junk room p sized fits small =
    elim (Bool-cases (ltb p.buf_size (p.buf_curr + room))) [
      | inl short ↦ rw short (
          Grew-Roomy room p (resize junk none p) sized fits small (ground arith)
            (resize-Grew junk p sized fits))
      | inr enough ↦ rw enough (sized, omega arith, refl, ground arith, refl)
    ]
