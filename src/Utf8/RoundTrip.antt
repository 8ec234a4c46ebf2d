-- ===== src/Utf8/RoundTrip.antt =====
-- Whole strings: the round trip from UCS-2 to UTF-8 and back, and the use of the buffers.
use mathlib.Core.List.{append-nil}
use sq_sp.Prelude.{
  ℕ, zero, suc, ◌+◌, ◌/◌, ◌%◌, ◌^◌, ◌<◌, ◌≤◌, ◌≡◌, ◌≢◌, refl, ap, ◌∙◌, true, false, List, [], ◌∷◌,
  ◌++◌, ltb, leb, length, take, length-append, Bytes, All, arith,
}
use sq_sp.Utf8.{
  unit_bytes, unit_length, write_units, last_fit, utf8_length, ucs2_to_utf8, count_units,
  read_units, utf8_to_ucs2,
}
use sq_sp.Utf8.Units.{read_unit-unit_bytes, leading_masks, plain_bytes, unit_bytes_lem}

-- A UCS-2 unit inside a string.
abbrev pub IsUnit : ℕ → Type 0
IsUnit w = (w ≢ 0) × (w < 2 ^ 16)

count_units-plain_bytes :
    (rounds w : ℕ) (rest : Bytes)
    → IsUnit w
    → count_units (suc rounds) (plain_bytes w ++ rest) ≡ count_units rounds rest + 1
unfolding count_units
count_units-plain_bytes rounds w rest (z, h) = ground (
  arith,
  leading_masks w,
  leading_masks (192 + w / 64),
  leading_masks (128 + w % 64),
  leading_masks (224 + w / 4096),
  leading_masks (128 + w / 64 % 64),
)

length-plain_bytes : (w : ℕ) → 1 ≤ length (plain_bytes w)
length-plain_bytes w = ground arith

count_units-write_units :
    (ws : List ℕ) (rounds : ℕ)
    → All IsUnit ws
    → length (write_units ws) < rounds
    → count_units rounds (write_units ws) ≡ length ws
unfolding write_units
count_units-write_units ws zero u l = absurd (omega arith)
count_units-write_units [] (suc rounds) u l = unfold count_units in refl
count_units-write_units (w ∷ ws) (suc rounds) (z, u) l =
    let bytes = unit_bytes_lem w (z.1) in
    let longer = length-append (plain_bytes w) (write_units ws) in
    let l' : length (plain_bytes w ++ write_units ws) < suc rounds = rw bytes at l in
    rw
      (
        bytes,
        count_units-plain_bytes rounds w (write_units ws) z,
        count_units-write_units ws rounds u (omega (arith, longer, length-plain_bytes w)),
      )
      (omega arith)

read_units-write_units :
    (ws : List ℕ) (old : ℕ → ℕ) (k : ℕ)
    → All IsUnit ws
    → read_units (length ws) old k (write_units ws) ≡ ws
unfolding read_units write_units
read_units-write_units [] old k u = refl
read_units-write_units (w ∷ ws) old k (z, u) = ground (
  arith,
  read_unit-unit_bytes (old k) w (write_units ws),
  read_units-write_units ws old (k + 1) u,
)

length-unit_bytes : (w : ℕ) → length (unit_bytes w) ≡ unit_length w
unfolding unit_bytes unit_length
length-unit_bytes w = ground arith

utf8_length-sum : (ws : List ℕ) (j : ℕ) → utf8_length j ws ≡ j + length (write_units ws)
unfolding utf8_length write_units
utf8_length-sum [] j = omega arith
utf8_length-sum (w ∷ ws) j = omega (
  arith,
  utf8_length-sum ws (j + unit_length w),
  length-unit_bytes w,
  length-append (unit_bytes w) (write_units ws),
)

-- with room for all, the last unit that fits is the last one
last_fit_all :
    (w : ℕ) (ws : List ℕ) (cbuf_len i j m : ℕ)
    → utf8_length j (w ∷ ws) ≤ cbuf_len
    → last_fit cbuf_len i j m (w ∷ ws) + 1 ≡ i + length (w ∷ ws)
unfolding last_fit utf8_length
last_fit_all w [] cbuf_len i j m h = ground arith
last_fit_all w (w' ∷ ws) cbuf_len i j m h =
    let fits : leb (j + unit_length w) cbuf_len ≡ true =
      ground (arith, utf8_length-sum (w' ∷ ws) (j + unit_length w)) in
    rw fits (last_fit_all w' ws cbuf_len (i + 1) (j + unit_length w) i h ∙ omega arith)

last_fit_none : (ws : List ℕ) (cbuf_len i j m : ℕ) → cbuf_len < j → last_fit cbuf_len i j m ws ≡ m
unfolding last_fit
last_fit_none [] cbuf_len i j m h = refl
last_fit_none (w ∷ ws) cbuf_len i j m h =
    ground (arith, last_fit_none ws cbuf_len (i + 1) (j + unit_length w) m)

take-length : (ws zs : List ℕ) → take (length ws) (ws ++ zs) ≡ ws
take-length [] zs = refl
take-length (w ∷ ws) zs = ap (◌∷◌ w) (take-length ws zs)

ucs2_to_utf8_all :
    (w : ℕ) (ws : List ℕ) (cbuf_len : ℕ)
    → utf8_length 0 (w ∷ ws) ≤ cbuf_len
    → ucs2_to_utf8 (w ∷ ws) cbuf_len ≡ write_units (w ∷ ws)
unfolding ucs2_to_utf8
ucs2_to_utf8_all w ws cbuf_len h =
    let n : last_fit cbuf_len 0 0 0 (w ∷ ws) + 1 ≡ length (w ∷ ws) =
      last_fit_all w ws cbuf_len 0 0 0 h ∙ omega arith in
    rw n (ap write_units (take-length (w ∷ ws) (0 ∷ [])))

-- A UCS-2 string that is not empty, converted to UTF-8 and back with buffers that are large enough,
-- is the same string again.
pub utf8_to_ucs2-ucs2_to_utf8 :
    (ws : List ℕ) (old : ℕ → ℕ) (cbuf_len wbuf_len : ℕ)
    → ws ≢ []
    → All IsUnit ws
    → utf8_length 0 ws ≤ cbuf_len
    → length ws ≤ wbuf_len
    → utf8_to_ucs2 (ucs2_to_utf8 ws cbuf_len) old wbuf_len ≡ ws
unfolding utf8_to_ucs2
utf8_to_ucs2-ucs2_to_utf8 [] old cbuf_len wbuf_len n u fits room = absurd (n refl)
utf8_to_ucs2-ucs2_to_utf8 (w ∷ ws) old cbuf_len wbuf_len n u fits room =
    let all = w ∷ ws in
    let count = count_units-write_units all (length (write_units all) + 1) u (omega arith) in
    let whole : ltb wbuf_len (length all) ≡ false = ground arith in
    rw (ucs2_to_utf8_all w ws cbuf_len fits)
      (rw (count, whole) (read_units-write_units all old 0 u))

first_only :
    (w : ℕ) (ws : List ℕ) (cbuf_len : ℕ)
    → cbuf_len < unit_length w
    → last_fit cbuf_len 0 0 0 (w ∷ ws) ≡ 0
unfolding last_fit
first_only w ws cbuf_len h = ground (arith, last_fit_none ws cbuf_len 1 (0 + unit_length w) 0)

-- `ucs2ToUtf8` writes the first unit of a string whether it fits or not: with a
-- buffer shorter than the first unit it writes behind the end of the buffer.
pub ucs2_to_utf8_overrun :
    (w : ℕ) (ws : List ℕ) (cbuf_len : ℕ)
    → cbuf_len < unit_length w
    → (ucs2_to_utf8 (w ∷ ws) cbuf_len ≡ unit_bytes w)
      × (cbuf_len < length (ucs2_to_utf8 (w ∷ ws) cbuf_len))
unfolding ucs2_to_utf8
ucs2_to_utf8_overrun w ws cbuf_len h =
    let first : last_fit cbuf_len 0 0 0 (w ∷ ws) ≡ 0 = first_only w ws cbuf_len h in
    let one : ucs2_to_utf8 (w ∷ ws) cbuf_len ≡ unit_bytes w ++ [] =
      rw first (unfold write_units in refl) in
    let written = one ∙ append-nil (unit_bytes w) in
    (written, rw written (omega (arith, length-unit_bytes w)))
