-- ===== src/Fcgi/Room.antt =====
-- The room in the buffer of a request, up to which nothing that it receives is refused.
use native.Mathlib.Nat.{pow-le-pow_right}
use sq_sp.Prelude.{
  ℕ, ◌+◌, ◌*◌, ◌<◌, ◌≤◌, ◌≡◌, inl, inr, Bool, true, false, ◌++◌, leb, length, if◌then◌else◌, arith,
  Bool-cases, Bytes, ap, ◌∙◌,
}
use sq_sp.PageBuf.{PageBuf, io_size, max_page_size, make_room, append_bytes, direct_write}
use sq_sp.PageBuf.Size.{IsSized, contents, next_size, Roomy, make_room-Roomy}
use sq_sp.PageBuf.Direct.{slice-copy_in}

-- The size after the last growth that stays within 32 MB.
abbrev pub capacity : ℕ
capacity = 33521664

-- A buffer that has room for `n` bytes more.
abbrev pub HasRoom : ℕ → PageBuf → Type 0
HasRoom n p = IsSized p × (p.buf_curr ≤ p.buf_size) × (p.buf_curr + n ≤ capacity)

full-size : (p : PageBuf) → IsSized p → max_page_size < next_size p → capacity ≤ p.buf_size
full-size p (sized, small) full = elim (Bool-cases (leb p.resize_times 8)) [
  | inl e ↦
      let few : p.resize_times ≤ 8 = ground arith in
      absurd (omega (arith, pow-le-pow_right {n = 2} (omega arith) few))
  | inr e ↦
      let many : 9 ≤ p.resize_times = ground arith in
      omega (arith, pow-le-pow_right {n = 2} (omega arith) many)
]

-- What a write of `bs` leaves, with room for `n` more.
abbrev pub Written : Bytes → ℕ → PageBuf → PageBuf → Type 0
Written bs n p q =
    (contents q ≡ contents p ++ bs) × HasRoom n q × (q.buf_curr ≡ p.buf_curr + length bs)

Written-as :
    (bs : Bytes) (n : ℕ) (p : PageBuf) (r : Bool × PageBuf)
    → HasRoom (length bs + n) p
    → Roomy (length bs) p r
    → Written bs n p (if r.0 then append_bytes bs r.1 else r.1)
Written-as bs n p (true, q) (sized, fits, room) (good, more, at, inside, same) = (
  slice-copy_in bs q.buf_curr q.p_buf ∙ ap (λ x. x ++ bs) same,
  (good, inside, omega arith),
  omega arith,
)
Written-as bs n p (false, q) (sized, fits, room) (same, full, short) =
    absurd (omega (arith, full-size p sized full))

-- `direct_write` of at most 64 KB into a buffer with room for it.
pub direct_write-Written :
    (junk : ℕ → ℕ) (bs : Bytes) (n : ℕ) (p : PageBuf)
    → HasRoom (length bs + n) p
    → length bs ≤ 2 * io_size
    → Written bs n p (direct_write junk bs p)
unfolding direct_write
direct_write-Written junk bs n p (sized, fits, room) small =
    Written-as bs n p (make_room junk (length bs) p) (sized, fits, room)
      (make_room-Roomy junk (length bs) p sized fits small)
