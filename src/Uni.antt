-- ===== src/Uni.antt =====
-- The string conversions of LigSP/LigCommon/unicode.cpp between GBK and Unicode: `gb2uni`, `uni2gb` and
-- `utf8togb`. GBK and UTF-8 texts are memory from the pointer on, with their NUL in it; `none` is a
-- read behind the end of that memory. The conversions of one code are arguments, as in `Gbk`.
mod Tests
pub mod RoundTrip
use Prim.Native.Nat.{bit_and, bit_or}
use sq_sp.Prelude.{
  ℕ, zero, suc, ◌+◌, ◌-◌, ◌*◌, ◌/◌, ◌%◌, ◌^◌, Bool, true, false, List, [], ◌∷◌, ◌++◌, Option, none,
  some, ◌==◌, ltb, leb, length, if◌then◌else◌, Bytes,
}
use sq_sp.Gbk.{binary_search}

-- `uc2gbc(uc)` over the tables `uniAUnicode` and `uniAGbkcode`
unfoldable pub uc2gbc : (ℕ → ℕ) → (ℕ → ℕ) → ℕ → ℕ → ℕ
uc2gbc unicodes gbk_codes code_num uc = elim (binary_search unicodes code_num uc) [
  | some (some index) ↦ gbk_codes index
  | _ ↦ 0x3f3f
]

-- one more than a count
abbrev pub one_more : Option ℕ → Option ℕ
one_more none = none
one_more (some n) = some (n + 1)

-- `getUniLenOfGbStr(p)`: a lead byte takes the next byte with it, whatever it is.
unfoldable pub uni_length : Bytes → Option ℕ
uni_length [] = none
uni_length (c ∷ []) = if c == 0 then some 0 else none
uni_length (c ∷ d ∷ rest) =
    let wide = uni_length rest in
    let plain = uni_length (d ∷ rest) in
    if c == 0 then some 0 else if leb 0x80 c then one_more wide else one_more plain

-- `getGbLenOfUniStr(p)`, on the units in front of the NUL
unfoldable pub gb_length : List ℕ → ℕ
gb_length [] = 0
gb_length (u ∷ us) = let rest = gb_length us in if ltb u 0x80 then rest + 1 else rest + 2

-- The loop of `gb2uni`: `left` units more.
unfoldable pub read_gb : (ℕ → ℕ) → ℕ → Bytes → Option (List ℕ)
read_gb to_unicode zero mem = some []
read_gb to_unicode (suc left) [] = none
read_gb to_unicode (suc left) (c ∷ []) =
    if leb 0x80 c
    then none
    else elim (read_gb to_unicode left []) [ none ↦ none | some us ↦ some (c ∷ us) ]
read_gb to_unicode (suc left) (c ∷ d ∷ rest) =
    if leb 0x80 c
    then elim (read_gb to_unicode left rest) [
      | none ↦ none
      | some us ↦ some (to_unicode (c * 2 ^ 8 + d) ∷ us)
    ]
    else elim (read_gb to_unicode left (d ∷ rest)) [ none ↦ none | some us ↦ some (c ∷ us) ]

-- `gb2uni(gbstr,unibuf,buflen)`: the length returned, and the units written
unfoldable pub gb2uni : (ℕ → ℕ) → Bytes → ℕ → Option (ℕ × List ℕ)
gb2uni to_unicode mem buflen = elim (uni_length mem) [
  | none ↦ none
  | some total ↦
      let unilen = if ltb buflen total then buflen else total in
      if buflen == 0
      then some (total, [])
      else elim (read_gb to_unicode unilen mem) [ none ↦ none | some us ↦ some (unilen, us) ]
]

-- what a round of `uni2gb` writes
unfoldable pub gb_bytes : (ℕ → ℕ) → ℕ → Bytes
gb_bytes to_gbk u = if ltb u 0x80 then u ∷ [] else to_gbk u / 2 ^ 8 % 2 ^ 8 ∷ to_gbk u % 2 ^ 8 ∷ []

-- The loop of `uni2gb`, on the units left: it writes while fewer than `gblen` bytes are written.
unfoldable pub write_gb : (ℕ → ℕ) → ℕ → Bytes → List ℕ → Bytes
write_gb to_gbk gblen out [] = out
write_gb to_gbk gblen out (u ∷ us) =
    let rest = write_gb to_gbk gblen (out ++ gb_bytes to_gbk u) us in
    if ltb (length out) gblen then rest else out

-- `uni2gb(unistr,gbbuf,buflen)`: the length returned, and the bytes written
unfoldable pub uni2gb : (ℕ → ℕ) → List ℕ → ℕ → ℕ × Bytes
uni2gb to_gbk units buflen =
    let total = gb_length units in
    let gblen = if ltb buflen total then buflen else total in
    if buflen == 0 then (total, []) else (gblen, write_gb to_gbk gblen [] units)

-- bytes in front of a text, if there is one
abbrev pub prepend : Bytes → Option Bytes → Option Bytes
prepend bs none = none
prepend bs (some s) = some (bs ++ s)

-- the two bytes of a code
abbrev pub big_endian : ℕ → Bytes
big_endian gbc = gbc / 2 ^ 8 % 2 ^ 8 ∷ bit_and gbc 0xff ∷ []

-- `utf8togb(s)`: what stands in front of the NUL afterwards. Nothing is written in front of what is
-- still to be read, since no character becomes longer. Each round passes a byte, so the length of the
-- memory is enough `rounds`.
unfoldable pub utf8_to_gb : (ℕ → ℕ) → ℕ → Bytes → Option Bytes
utf8_to_gb to_gbk zero mem = none
utf8_to_gb to_gbk (suc rounds) [] = none
utf8_to_gb to_gbk (suc rounds) (c ∷ []) = if c == 0 then some [] else none
utf8_to_gb to_gbk (suc rounds) (c ∷ c1 ∷ []) =
    let skip = utf8_to_gb to_gbk rounds (c1 ∷ []) in
    if c == 0
    then some []
    else if bit_and c 0x80 == 0
    then prepend (c ∷ []) skip
    else if bit_and c 0xe0 == 0xc0
    then none
    else if bit_and c 0xf0 == 0xe0
    then none
    else skip
utf8_to_gb to_gbk (suc rounds) (c ∷ c1 ∷ c2 ∷ rest) =
    let skip = utf8_to_gb to_gbk rounds (c1 ∷ c2 ∷ rest) in
    let two = utf8_to_gb to_gbk rounds (c2 ∷ rest) in
    let three = utf8_to_gb to_gbk rounds rest in
    let uu2 = bit_or (bit_and c 0x1f * 2 ^ 6) (bit_and c1 0x3f) in
    let uu3 = bit_or (bit_or (c * 2 ^ 12 % 2 ^ 16) (bit_and c1 0x3f * 2 ^ 6)) (bit_and c2 0x3f) in
    if c == 0
    then some []
    else if bit_and c 0x80 == 0
    then prepend (c ∷ []) skip
    else if bit_and c 0xe0 == 0xc0
    then prepend (big_endian (to_gbk uu2)) two
    else if bit_and c 0xf0 == 0xe0
    then prepend (big_endian (to_gbk uu3)) three
    else skip

abbrev pub utf8togb : (ℕ → ℕ) → Bytes → Option Bytes
utf8togb to_gbk mem = utf8_to_gb to_gbk (length mem + 1) mem
