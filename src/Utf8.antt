-- ===== src/Utf8.antt =====
-- The UTF-8 and UCS-2 conversions of LigSP/LigCommon/unicode.cpp.
-- A string is the list of its units in front of the NUL; a read behind its end gives the NUL, 0.
mod Tests
pub mod Units
pub mod RoundTrip
use Prim.Native.Nat.{bit_and, bit_or}
use sq_sp.Prelude.{
  ℕ, zero, suc, ◌+◌, ◌-◌, ◌*◌, ◌/◌, ◌%◌, ◌^◌, Bool, true, false, List, [], ◌∷◌, ◌++◌, ◌==◌, ltb,
  leb, length, take, if◌then◌else◌, Bytes,
}

-- `cut_word(w, s, e)`: bits `s` down to `e` of a word
unfoldable pub cut_word : ℕ → ℕ → ℕ → ℕ
cut_word w s e = if s - e + 1 == 16 then w else bit_and (w / 2 ^ e) (2 ^ (s - e + 1) - 1)

-- the length that the first loop of `ucs2ToUtf8` counts for a unit
unfoldable pub unit_length : ℕ → ℕ
unit_length w = if leb w 0x7f then 1 else if leb w 0x7ff then 2 else 3

-- the bytes that its second loop writes for a unit
unfoldable pub unit_bytes : ℕ → Bytes
unfolding cut_word
unit_bytes w =
    if leb w 0x7f
    then w % 256 ∷ []
    else if leb w 0x7ff
    then bit_or 0xc0 (cut_word w 10 6) ∷ bit_or 0x80 (cut_word w 5 0) ∷ []
    else bit_or 0xe0 (cut_word w 15 12)
      ∷ bit_or 0x80 (cut_word w 11 6)
      ∷ bit_or 0x80 (cut_word w 5 0)
      ∷ []

-- `ucs2ToUtf8` with no buffer: the length needed
unfoldable pub utf8_length : ℕ → List ℕ → ℕ
unfolding unit_length
utf8_length j [] = j
utf8_length j (w ∷ ws) = utf8_length (j + unit_length w) ws

-- The first loop of `ucs2ToUtf8`: the index of the last unit that still fits.
unfoldable pub last_fit : ℕ → ℕ → ℕ → ℕ → List ℕ → ℕ
unfolding unit_length
last_fit cbuf_len i j max_i [] = max_i
last_fit cbuf_len i j max_i (w ∷ ws) =
    let j' = j + unit_length w in
    last_fit cbuf_len (i + 1) j' (if leb j' cbuf_len then i else max_i) ws

-- the second loop, over the units that are left
unfoldable pub write_units : List ℕ → Bytes
unfolding unit_bytes
write_units [] = []
write_units (w ∷ ws) = unit_bytes w ++ write_units ws

-- `ucs2ToUtf8` with a buffer: the bytes written. The loop runs to `i <= max_i`, so it writes one
-- unit at least, the NUL if the string is empty.
unfoldable pub ucs2_to_utf8 : List ℕ → ℕ → Bytes
unfolding last_fit write_units
ucs2_to_utf8 ucs cbuf_len = write_units (take (last_fit cbuf_len 0 0 0 ucs + 1) (ucs ++ 0 ∷ []))

-- `*s` and `s + 1`
abbrev pub head_byte : Bytes → ℕ
head_byte [] = 0
head_byte (c ∷ cs) = c

abbrev pub rest_bytes : Bytes → Bytes
rest_bytes [] = []
rest_bytes (c ∷ cs) = cs

-- the test of a continuation byte
unfoldable pub is_tail : ℕ → Bool
is_tail c = bit_and c 0xc0 == 0x80

-- The first loop of `utf8ToUcs2`: the number of well-formed units in front.
unfoldable pub count_units : ℕ → Bytes → ℕ
unfolding is_tail
count_units zero s = 0
count_units (suc rounds) s =
    let c = head_byte s in
    let d = rest_bytes s in
    let e = rest_bytes d in
    let after_one = count_units rounds d in
    let after_two = count_units rounds e in
    let after_three = count_units rounds (rest_bytes e) in
    if c == 0
    then 0
    else if bit_and c 0x80 == 0
    then after_one + 1
    else if bit_and c 0xe0 == 0xc0
    then (if is_tail (head_byte d) then after_two + 1 else 0)
    else if bit_and c 0xf0 == 0xe0
    then (if is_tail (head_byte d)
        then (if is_tail (head_byte e) then after_three + 1 else 0)
        else 0)
    else 0

-- What the second loop writes to `wbuf[k]`, which held `old`, and where it goes on.
unfoldable pub read_unit : ℕ → Bytes → ℕ × Bytes
read_unit old s =
    let c = head_byte s in
    let d = rest_bytes s in
    let e = rest_bytes d in
    if bit_and c 0x80 == 0
    then (c, d)
    else if bit_and c 0xe0 == 0xc0
    then (bit_or (bit_and c 0x1f * 2 ^ 6) (bit_and (head_byte d) 0x3f), e)
    else if bit_and c 0xf0 == 0xe0
    then (
      bit_or (bit_or (c * 2 ^ 12 % 2 ^ 16) (bit_and (head_byte d) 0x3f * 2 ^ 6))
          (bit_and (head_byte e) 0x3f),
      rest_bytes e,
    )
    else (old, d)

unfoldable pub read_units : ℕ → (ℕ → ℕ) → ℕ → Bytes → List ℕ
unfolding read_unit
read_units zero old k s = []
read_units (suc left) old k s =
    let (w, rest) = read_unit (old k) s in w ∷ read_units left old (k + 1) rest

-- `utf8ToUcs2` with a buffer that holds `old`: the units written. Each round of the first loop
-- passes a byte, so the string's length is enough rounds.
unfoldable pub utf8_to_ucs2 : Bytes → (ℕ → ℕ) → ℕ → List ℕ
unfolding count_units read_units
utf8_to_ucs2 s old wbuf_len =
    let j = count_units (length s + 1) s in
    read_units (if ltb wbuf_len j then wbuf_len else j) old 0 s
