-- ===== src/Uni/RoundTrip.antt =====
-- A GBK text that becomes Unicode and GBK again.
use mathlib.Core.List.{append-nil, append_assoc}
use sq_sp.Prelude.{
  ℕ, suc, ◌+◌, ◌*◌, ◌/◌, ◌%◌, ◌^◌, ◌<◌, ◌≤◌, ◌≡◌, refl, true, false, List, [], ◌∷◌, ◌++◌, map, some,
  ◌==◌, ltb, length, length-append, Bytes, All, arith, ap, sym, ◌∙◌,
}
use sq_sp.Uni.{uni_length, gb_length, read_gb, gb2uni, gb_bytes, write_gb, uni2gb}

-- a character of a GBK text: an ASCII byte, or a lead byte and its second byte
pub data GbChar : Type 0 where
  plain : ℕ → GbChar
  wide : ℕ → ℕ → GbChar

uni_length_plain :
    (c n : ℕ) (mem : Bytes)
    → (0 < c) × (c < 0x80)
    → uni_length mem ≡ some n
    → uni_length (c ∷ mem) ≡ some (suc n)
unfolding uni_length
uni_length_plain c n [] low e = ground arith
uni_length_plain c n (d ∷ mem) low e = ground arith

read_gb_plain :
    (to_unicode : ℕ → ℕ) (c left : ℕ) (us : List ℕ) (mem : Bytes)
    → (0 < c) × (c < 0x80)
    → read_gb to_unicode left mem ≡ some us
    → read_gb to_unicode (suc left) (c ∷ mem) ≡ some (c ∷ us)
unfolding read_gb
read_gb_plain to_unicode c left us [] low e = ground arith
read_gb_plain to_unicode c left us (d ∷ mem) low e = ground arith

abbrev pub bytes_of : GbChar → Bytes
bytes_of (plain c) = c ∷ []
bytes_of (wide c d) = c ∷ d ∷ []

abbrev pub text_of : List GbChar → Bytes
text_of [] = []
text_of (x ∷ xs) = bytes_of x ++ text_of xs

module _ (to_unicode to_gbk : ℕ → ℕ) where
  -- The two tables agree on the character.
  abbrev pub IsMapped : GbChar → Type 0
  IsMapped (plain c) = (0 < c) × (c < 0x80)
  IsMapped (wide c d) =
      (0x80 ≤ c)
      × (c < 256)
      × (d < 256)
      × (0x80 ≤ to_unicode (c * 2 ^ 8 + d))
      × (to_gbk (to_unicode (c * 2 ^ 8 + d)) ≡ c * 2 ^ 8 + d)

  abbrev pub unit_of : GbChar → ℕ
  unit_of (plain c) = c
  unit_of (wide c d) = to_unicode (c * 2 ^ 8 + d)

  length_units : (xs : List GbChar) → length (map unit_of xs) ≡ length xs
  length_units [] = refl
  length_units (x ∷ xs) = ap suc (length_units xs)

  uni_length-text_of :
      (xs : List GbChar) (rest : Bytes)
      → All IsMapped xs
      → uni_length (text_of xs ++ 0 ∷ rest) ≡ some (length xs)
  unfolding uni_length
  uni_length-text_of [] [] good = refl
  uni_length-text_of [] (r ∷ rest) good = refl
  uni_length-text_of (plain c ∷ xs) rest (good, all) =
      uni_length_plain c (length xs) (text_of xs ++ 0 ∷ rest) good (uni_length-text_of xs rest all)
  uni_length-text_of (wide c d ∷ xs) rest (good, all) =
      ground (arith, uni_length-text_of xs rest all)

  read_gb-text_of :
      (xs : List GbChar) (rest : Bytes)
      → All IsMapped xs
      → read_gb to_unicode (length xs) (text_of xs ++ 0 ∷ rest) ≡ some (map unit_of xs)
  unfolding read_gb
  read_gb-text_of [] rest good = refl
  read_gb-text_of (plain c ∷ xs) rest (good, all) =
      read_gb_plain to_unicode c (length xs) (map unit_of xs) (text_of xs ++ 0 ∷ rest) good
        (read_gb-text_of xs rest all)
  read_gb-text_of (wide c d ∷ xs) rest (good, all) = ground (arith, read_gb-text_of xs rest all)

  gb_bytes-unit_of : (x : GbChar) → IsMapped x → gb_bytes to_gbk (unit_of x) ≡ bytes_of x
  unfolding gb_bytes
  gb_bytes-unit_of (plain c) good = ground arith
  gb_bytes-unit_of (wide c d) (low, high, small, above, back) =
      let test : ltb (to_unicode (c * 2 ^ 8 + d)) 0x80 ≡ false = ground arith in
      let first : (c * 2 ^ 8 + d) / 2 ^ 8 % 2 ^ 8 ≡ c = omega arith in
      let second : (c * 2 ^ 8 + d) % 2 ^ 8 ≡ d = omega arith in rw (test, back, first, second) refl

  gb_length-text_of :
      (xs : List GbChar) → All IsMapped xs → gb_length (map unit_of xs) ≡ length (text_of xs)
  unfolding gb_length
  gb_length-text_of [] good = refl
  gb_length-text_of (plain c ∷ xs) (good, all) = ground (arith, gb_length-text_of xs all)
  gb_length-text_of (wide c d ∷ xs) (good, all) = ground (arith, gb_length-text_of xs all)

  bytes_of_some : (x : GbChar) → 0 < length (bytes_of x)
  bytes_of_some (plain c) = omega arith
  bytes_of_some (wide c d) = omega arith

  write_gb-text_of :
      (gblen : ℕ) (out : Bytes) (xs : List GbChar)
      → All IsMapped xs
      → length out + length (text_of xs) ≤ gblen
      → write_gb to_gbk gblen out (map unit_of xs) ≡ out ++ text_of xs
  unfolding write_gb
  write_gb-text_of gblen out [] good room = sym (append-nil out)
  write_gb-text_of gblen out (x ∷ xs) (good, all) room =
      let here = gb_bytes-unit_of x good in
      let size = length-append (bytes_of x) (text_of xs) in
      let next = length-append out (bytes_of x) in
      let one : 0 < length (bytes_of x) = bytes_of_some x in
      let test : ltb (length out) gblen ≡ true = ground arith in
      rw (test, here)
        (write_gb-text_of gblen (out ++ bytes_of x) xs all (omega arith)
          ∙ append_assoc out (bytes_of x) (text_of xs))

-- A GBK text whose characters the two tables map to each other: `gb2uni` reads it up to its NUL, one
-- unit for each character, and `uni2gb` writes the same bytes from the units, if both buffers are
-- large enough.
pub uni2gb-gb2uni :
    (to_unicode to_gbk : ℕ → ℕ) (xs : List GbChar) (rest : Bytes) (uni_room gb_room : ℕ)
    → All (IsMapped to_unicode to_gbk) xs
    → length xs ≤ uni_room
    → length (text_of xs) ≤ gb_room
    → 0 < uni_room
    → 0 < gb_room
    → (units : List ℕ) × (gb2uni to_unicode (text_of xs ++ 0 ∷ rest) uni_room
        ≡ some (length xs, units))
      × (length units ≡ length xs)
      × ◌≡◌ (uni2gb to_gbk units gb_room) (length (text_of xs), text_of xs)
unfolding gb2uni uni2gb
uni2gb-gb2uni to_unicode to_gbk xs rest uni_room gb_room good fits_units fits_bytes some_room
      bytes_room =
    let text = text_of xs in
    let count = uni_length-text_of to_unicode to_gbk xs rest good in
    let read = read_gb-text_of to_unicode to_gbk xs rest good in
    let size = gb_length-text_of to_unicode to_gbk xs good in
    let write = write_gb-text_of to_unicode to_gbk (length text) [] xs good (omega arith) in
    let uni_fits : ltb uni_room (length xs) ≡ false = ground arith in
    let gb_fits : ltb gb_room (length text) ≡ false = ground arith in
    let uni_some : (uni_room == 0) ≡ false = ground arith in
    let gb_some : (gb_room == 0) ≡ false = ground arith in
    (
      map (unit_of to_unicode to_gbk) xs,
      rw (count, gb2uni) (rw (uni_fits, uni_some) (rw (read, gb2uni) (rw uni_fits refl))),
      length_units to_unicode to_gbk xs,
      rw (size, gb_fits, gb_some, write) refl,
    )
