-- ===== src/PageBuf/Write.antt =====
-- What the writers leave in the buffer.
use sq_sp.Prelude.{
  ℕ, suc, ◌+◌, ◌<◌, ◌≤◌, ◌≡◌, ◌⊎◌, inl, inr, refl, Bool, true, false, [], ◌∷◌, ◌++◌, Option, none,
  some, length, take, if◌then◌else◌, arith, Bytes, ap, sym, ◌∙◌,
}
use mathlib.Core.List.{append-nil, append_assoc}
use sq_sp.PageBuf.{
  PageBuf, max_page_size, make_room, store, put, escape, write_as, write_escaped,
  write_cstr_counted,
}
use sq_sp.PageBuf.Size.{
  IsSized, slice, contents, slice_cong, slice_snoc, next_size, Roomy, make_room-Roomy,
}
use sq_sp.PageBuf.Escape.{letters_of, letters, escaped}

contents-put : (v : ℕ) (p : PageBuf) → contents (put v p) ≡ contents p ++ v ∷ []
contents-put v p =
    let prefix : slice (store p.buf_curr v p.p_buf) 0 p.buf_curr ≡ contents p =
      slice_cong (store p.buf_curr v p.p_buf) p.p_buf 0 p.buf_curr (λ k l. ground arith) in
    let here : store p.buf_curr v p.p_buf (0 + p.buf_curr) ≡ v = ground arith in
    slice_snoc (store p.buf_curr v p.p_buf) 0 p.buf_curr ∙ (rw (prefix, here) refl)

-- what one round leaves
abbrev Wrote : ℕ → PageBuf → PageBuf → Type 0
Wrote c p q =
    (contents q ≡ contents p ++ letters c)
    × (q.buf_curr ≤ p.buf_curr + 2)
    × (q.buf_size ≡ p.buf_size)
    × (q.resize_times ≡ p.resize_times)

write_as-Wrote :
    (c : ℕ) (p : PageBuf) (o : Option ℕ)
    → (contents (write_as c o p) ≡ contents p ++ letters_of c o)
      × ((write_as c o p).buf_curr ≤ p.buf_curr + 2)
      × ((write_as c o p).buf_size ≡ p.buf_size)
      × ((write_as c o p).resize_times ≡ p.resize_times)
write_as-Wrote c p none = (contents-put c p, omega arith, refl, refl)
write_as-Wrote c p (some e) = (
  contents-put e (put b'\\' p)
      ∙ rw (contents-put b'\\' p) (append_assoc (contents p) (b'\\' ∷ []) (e ∷ [])),
  omega arith,
  refl,
  refl,
)

write_escaped-Wrote : (c : ℕ) (p : PageBuf) → Wrote c p (write_escaped c p)
unfolding write_escaped
write_escaped-Wrote c p = write_as-Wrote c p (escape c)

-- What `write_cstr` promises: the escaped bytes stand behind what was there, and either all are written
-- or the buffer cannot grow and has fewer than four bytes left.
abbrev pub Escapes : Bytes → PageBuf → PageBuf → Type 0
Escapes str p q =
    IsSized q
    × (q.buf_curr ≤ q.buf_size)
    × (k : ℕ) × (contents q ≡ contents p ++ escaped (take k str))
    × ((k ≡ length str) ⊎ ((max_page_size < next_size q) × (q.buf_size < q.buf_curr + 4)))

round-Escapes :
    (c : ℕ) (str : Bytes) (p q r : PageBuf)
    → contents q ≡ contents p ++ letters c
    → Escapes str q r
    → Escapes (c ∷ str) p r
unfolding escaped
round-Escapes c str p q r wrote (sized, fits, k, same, end) = (
  sized,
  fits,
  suc k,
  same
      ∙ (ap (λ x. x ++ escaped (take k str)) wrote
          ∙ append_assoc (contents p) (letters c) (escaped (take k str))),
  elim end [ inl all ↦ inl (omega arith) | inr full ↦ inr full ],
)

-- the round, by what `make_room` gave
round_lem :
    (c : ℕ) (str : Bytes) (p : PageBuf) (r : Bool × PageBuf) (rest : PageBuf)
    → IsSized p
    → p.buf_curr ≤ p.buf_size
    → Roomy 4 p r
    → (IsSized (write_escaped c r.1)
        → (write_escaped c r.1).buf_curr ≤ (write_escaped c r.1).buf_size
        → Escapes str (write_escaped c r.1) rest)
    → Escapes (c ∷ str) p (if r.0 then rest else r.1)
unfolding escaped
round_lem c str p (true, q) rest sized fits ((a, b), more, at, room, same) later =
    let (wrote, curr, size, times) = write_escaped-Wrote c q in
    round-Escapes c str p (write_escaped c q) rest (rw same at wrote)
      (later (rw (size, times) (a, b)) (omega arith))
round_lem c str p (false, q) rest sized fits (same, full, short) later =
    rw same (sized, fits, 0, sym (append-nil (contents p)), inr (full, short))

-- In a buffer of a size that growing gives, the counted form of `write_cstr` writes the escaped bytes
-- behind the contents and stays inside the block. It writes all of them, unless the block cannot grow
-- any more and fewer than four bytes of it are left.
pub write_cstr_counted-Escapes :
    (junk : ℕ → ℕ) (str : Bytes) (p : PageBuf)
    → IsSized p
    → p.buf_curr ≤ p.buf_size
    → Escapes str p (write_cstr_counted junk str p)
unfolding write_cstr_counted escaped
write_cstr_counted-Escapes junk [] p sized fits =
    (sized, fits, 0, sym (append-nil (contents p)), inl refl)
write_cstr_counted-Escapes junk (c ∷ str) p sized fits =
    let r = make_room junk 4 p in
    round_lem c str p r (write_cstr_counted junk str (write_escaped c r.1)) sized fits
      (make_room-Roomy junk 4 p sized fits (omega arith))
      (write_cstr_counted-Escapes junk str (write_escaped c r.1))
