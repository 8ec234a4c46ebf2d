-- ===== src/Gbk.antt =====
-- The GBK tables of LigSP/LigCommon/unicode.cpp: the binary search, the conversion of one code, and
-- `gb2utf8`. The two tables of 7480 codes are arguments.
mod Tests
pub mod Search
pub mod Convert
use Prim.Native.Nat.{bit_and, bit_or}
use sq_sp.Prelude.{
  ℕ, zero, suc, ◌+◌, ◌-◌, ◌*◌, ◌/◌, ◌%◌, ◌^◌, Bool, true, false, ◌||◌, List, [], ◌∷◌, ◌++◌, Option,
  none, some, ◌==◌, ltb, leb, length, if◌then◌else◌, Bytes,
}

-- The loop of `binarySearch` on `unsigned short` bounds. The outer `none` is the end of the rounds,
-- the inner one is -1.
search : (ℕ → ℕ) → ℕ → ℕ → ℕ → ℕ → Option (Option ℕ)
search table code zero head tail = none
search table code (suc rounds) head tail =
    let middle = (head + tail) / 2 in
    let above = search table code rounds ((middle + 1) % 2 ^ 16) tail in
    let below = search table code rounds head ((middle + (2 ^ 16 - 1)) % 2 ^ 16) in
    if leb head tail
    then (if code == table middle
        then some (some middle)
        else if ltb (table middle) code
        then above
        else below)
    else some none

-- `binarySearch(table, tablen, code)`: each round shortens the range, so `tablen + 1` rounds are
-- enough.
pub binary_search : (ℕ → ℕ) → ℕ → ℕ → Option (Option ℕ)
unfolding search
binary_search table tablen code =
    let tail = (tablen + (2 ^ 16 - 1)) % 2 ^ 16 in
    if ltb code (table 0) || ltb (table tail) code
    then some none
    else search table code (tablen + 1) 0 tail

-- `gbc2uc(gbc)` over the tables `gbkAGbkcode` and `gbkAUnicode`
pub gbc2uc : (ℕ → ℕ) → (ℕ → ℕ) → ℕ → ℕ → ℕ
gbc2uc gbk_codes unicodes code_num gbc = elim (binary_search gbk_codes code_num gbc) [
  | some (some index) ↦ unicodes index
  | _ ↦ b'?'
]

-- the bytes that `gb2utf8` writes for a two-byte character
unfoldable pub wide_bytes : ℕ → Bytes
wide_bytes uni =
    if ltb uni 0x800
    then bit_or 0xc0 (uni / 2 ^ 6) % 2 ^ 8 ∷ bit_or 0x80 (bit_and uni 0x3f) % 2 ^ 8 ∷ []
    else bit_or 0xe0 (uni / 2 ^ 12) % 2 ^ 8
      ∷ bit_or 0x80 (bit_and (uni / 2 ^ 6) 0x3f) % 2 ^ 8
      ∷ bit_or 0x80 (bit_and uni 0x3f) % 2 ^ 8
      ∷ []

-- `gb2utf8(gbstr, out, buf_size)`: the bytes written to `out`, or `none` for -1. A lead byte in
-- front of the NUL ends the string, and one in front of a byte below 0x80 is dropped.
pub gb2utf8 : (ℕ → ℕ) → ℕ → Bytes → Bytes → Option Bytes
unfolding wide_bytes
gb2utf8 to_unicode buf_size out [] = some out
gb2utf8 to_unicode buf_size out (c ∷ []) =
    if ltb buf_size (length out + 3)
    then none
    else if ltb 0x80 c
    then some out
    else some (out ++ c ∷ [])
gb2utf8 to_unicode buf_size out (c ∷ d ∷ rest) =
    let skipped = gb2utf8 to_unicode buf_size out (d ∷ rest) in
    let wide = gb2utf8 to_unicode buf_size (out ++ wide_bytes (to_unicode (c * 2 ^ 8 + d))) rest in
    let plain = gb2utf8 to_unicode buf_size (out ++ c ∷ []) (d ∷ rest) in
    if ltb buf_size (length out + 3)
    then none
    else if ltb 0x80 c
    then (if ltb d 0x80 then skipped else wide)
    else plain
