-- ===== src/PageBuf/Direct.antt =====
-- `direct_write`, `read_socket` and `write_cstr` of a NUL-terminated string.
use sq_sp.Prelude.{
  ℕ, suc, ◌+◌, ◌*◌, ◌<◌, ◌≤◌, ◌≡◌, ◌⊎◌, inl, inr, refl, Bool, true, false, [], ◌∷◌, ◌++◌, none,
  some, ◌==◌, ltb, length, if◌then◌else◌, arith, Bool-cases, Bytes, Lacks, ap, ◌∙◌,
}
use mathlib.Core.List.{append-nil, append_assoc}
use sq_sp.PageBuf.{
  PageBuf, io_size, max_page_size, resize, make_room, store, copy_in, append_bytes, write_escaped,
  write_cstr, write_cstr_counted, direct_write, read_socket,
}
use sq_sp.PageBuf.Size.{
  IsSized, slice, contents, slice_cong, slice_snoc, next_size, Grew, resize-Grew, Roomy,
  make_room-Roomy,
}

-- The two forms of `write_cstr` agree: on a string with no NUL inside, followed by its NUL, the first
-- does what the second does on its bytes.
pub write_cstr-write_cstr_counted :
    (junk : ℕ → ℕ) (str rest : Bytes) (p : PageBuf)
    → Lacks 0 str
    → write_cstr junk (str ++ 0 ∷ rest) p ≡ write_cstr_counted junk str p
unfolding write_cstr write_cstr_counted
write_cstr-write_cstr_counted junk [] rest p h = refl
write_cstr-write_cstr_counted junk (c ∷ str) rest p (h, hs) =
    let r = make_room junk 4 p in
    let here : (c == 0) ≡ false = ground arith in
    let later = write_cstr-write_cstr_counted junk str rest (write_escaped c r.1) hs in
    rw (here, later) refl

copy_in_outside : (cs : Bytes) (n : ℕ) (f : ℕ → ℕ) (k : ℕ) → k < n → copy_in cs n f k ≡ f k
copy_in_outside [] n f k h = refl
copy_in_outside (c ∷ cs) n f k h = ground (arith, copy_in_outside cs (n + 1) (store n c f) k)

pub slice-copy_in :
    (cs : Bytes) (n : ℕ) (f : ℕ → ℕ) → slice (copy_in cs n f) 0 (n + length cs) ≡ slice f 0 n ++ cs
slice-copy_in [] n f = ground (arith, append-nil (slice f 0 n))
slice-copy_in (c ∷ cs) n f =
    let size : n + suc (length cs) ≡ n + 1 + length cs = omega arith in
    let prefix : slice (store n c f) 0 n ≡ slice f 0 n =
      slice_cong (store n c f) f 0 n (λ k l. ground arith) in
    let here : store n c f (0 + n) ≡ c = ground arith in
    let next : slice (store n c f) 0 (n + 1) ≡ slice f 0 n ++ c ∷ [] =
      slice_snoc (store n c f) 0 n ∙ rw (prefix, here) refl in
    rw size (
      slice-copy_in cs (n + 1) (store n c f)
      ∙ (ap (λ x. x ++ cs) next ∙ append_assoc (slice f 0 n) (c ∷ []) cs))

-- What a writer of `bs` promises, from `p` to `q`.
abbrev pub Appends : Bytes → PageBuf → PageBuf → Type 0
Appends bs p q =
    IsSized q
    × (q.buf_curr ≤ q.buf_size)
    × ((contents q ≡ contents p ++ bs) ⊎ (q ≡ p) × (max_page_size < next_size p))

direct_write_as :
    (bs : Bytes) (p : PageBuf) (r : Bool × PageBuf)
    → IsSized p
    → p.buf_curr ≤ p.buf_size
    → Roomy (length bs) p r
    → Appends bs p (if r.0 then append_bytes bs r.1 else r.1)
direct_write_as bs p (true, q) sized fits (good, more, at, room, same) =
    (good, room, inl (slice-copy_in bs q.buf_curr q.p_buf ∙ ap (λ x. x ++ bs) same))
direct_write_as bs p (false, q) sized fits (same, full, short) =
    rw same (sized, fits, inr (refl, full))

-- `direct_write` of at most 64 KB: the bytes stand behind the contents, inside the block; or the block
-- cannot grow any more and nothing is written.
pub direct_write-Appends :
    (junk : ℕ → ℕ) (bs : Bytes) (p : PageBuf)
    → IsSized p
    → p.buf_curr ≤ p.buf_size
    → length bs ≤ 2 * io_size
    → Appends bs p (direct_write junk bs p)
unfolding direct_write
direct_write-Appends junk bs p sized fits small =
    direct_write_as bs p (make_room junk (length bs) p) sized fits
      (make_room-Roomy junk (length bs) p sized fits small)

abbrev pub Overruns : Bytes → PageBuf → PageBuf → Type 0
Overruns bs p q = (q.buf_curr ≡ p.buf_curr + length bs) × (q.buf_size < q.buf_curr)

overrun_as :
    (bs : Bytes) (p : PageBuf) (r : Bool × PageBuf)
    → next_size p ≤ max_page_size
    → next_size p < p.buf_curr + length bs
    → Grew p r
    → Overruns bs p (if r.0 then append_bytes bs r.1 else r.1)
overrun_as bs p (true, q) room long (good, size, at, same) = (omega arith, omega arith)
overrun_as bs p (false, q) room long (same, full) = absurd (omega arith)

-- `direct_write` grows the block once only, whatever it has to write: if growing is possible and the end
-- of the text is beyond the next size, the copy goes on behind the end of the new block.
pub direct_write_overrun :
    (junk : ℕ → ℕ) (bs : Bytes) (p : PageBuf)
    → IsSized p
    → p.buf_curr ≤ p.buf_size
    → next_size p ≤ max_page_size
    → next_size p < p.buf_curr + length bs
    → Overruns bs p (direct_write junk bs p)
unfolding direct_write make_room
direct_write_overrun junk bs p sized fits room long =
    let short : ltb p.buf_size (p.buf_curr + length bs) ≡ true = ground arith in
    rw short (overrun_as bs p (resize junk none p) room long (resize-Grew junk p sized fits))

-- What `read_socket` promises of the bytes that came: they stand behind the contents, and a call that
-- returns true leaves room for the next `recv`.
abbrev pub Receives : Bytes → PageBuf → Bool × PageBuf → Type 0
Receives bs p (ok, q) =
    IsSized q
    × (contents q ≡ contents p ++ bs)
    × (ok ≡ true → q.buf_curr < q.buf_size)
    × (q.buf_curr ≤ q.buf_size)

full_as :
    (bs : Bytes) (p q : PageBuf) (r : Bool × PageBuf)
    → IsSized q
    → q.buf_curr ≡ q.buf_size
    → contents q ≡ contents p ++ bs
    → Grew q r
    → Receives bs p r
full_as bs p q (true, r) sized full same (good, size, at, kept) =
    (good, kept ∙ same, λ e. omega arith, omega arith)
full_as bs p q (false, r) sized full same (is, end) =
    rw is (sized, same, λ e. ground arith, omega arith)

-- `read_socket`, when `recv` delivers at least one byte and no more than there was room for: the bytes
-- are appended inside the block, and if it returns true there is room for one more.
pub read_socket-Receives :
    (junk : ℕ → ℕ) (c : ℕ) (cs : Bytes) (p : PageBuf)
    → IsSized p
    → p.buf_curr + length (c ∷ cs) ≤ p.buf_size
    → Receives (c ∷ cs) p (read_socket junk (some (c ∷ cs)) p)
unfolding read_socket
read_socket-Receives junk c cs p sized room =
    let q = append_bytes (c ∷ cs) p in
    let same : contents q ≡ contents p ++ c ∷ cs = slice-copy_in (c ∷ cs) p.buf_curr p.p_buf in
    elim (Bool-cases (q.buf_curr == q.buf_size)) [
      | inl full ↦ rw full (
          full_as (c ∷ cs) p q (resize junk none q) sized (ground arith) same
            (resize-Grew junk q sized room))
      | inr more ↦ rw more (sized, same, λ e. ground arith, room)
    ]
