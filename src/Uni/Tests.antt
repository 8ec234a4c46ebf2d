-- ===== src/Uni/Tests.antt =====
-- Runs of the string conversions, with tables of one code.
use sq_sp.Prelude.{ℕ, ◌≡◌, refl, List, [], ◌∷◌, ◌++◌, some, length, ◌==◌, if◌then◌else◌, arith}
use sq_sp.Uni.{gb2uni, uni2gb, utf8togb, utf8_to_gb, uni_length, gb_length, write_gb, gb_bytes}
use sq_sp.Uni.RoundTrip.{GbChar, plain, wide, text_of, uni2gb-gb2uni}

-- U+6C49 is 0xBABA in GBK
abbrev to_unicode : ℕ → ℕ
to_unicode gbc = if gbc == 0xbaba then 0x6c49 else b'?'

abbrev to_gbk : ℕ → ℕ
to_gbk uc = if uc == 0x6c49 then 0xbaba else 0x3f3f

abbrev text : List GbChar
text = plain b'a' ∷ wide 0xba 0xba ∷ plain b'z' ∷ []

-- Two bytes are written for the last unit, where one is left.
overrun : ◌≡◌ (uni2gb to_gbk (b'a' ∷ 0x6c49 ∷ []) 2) (2, b'a' ∷ 0xba ∷ 0xba ∷ [])
unfolding uni2gb gb_length write_gb gb_bytes
overrun = refl

-- A lead byte in front of the NUL takes it along, and the reader goes on behind the text.
past_the_end : uni_length (0xba ∷ 0 ∷ b'x' ∷ 0 ∷ []) ≡ some 2
unfolding uni_length
past_the_end = refl

from_utf8 : utf8togb to_gbk (b'a' ∷ 0xe6 ∷ 0xb1 ∷ 0x89 ∷ 0 ∷ []) ≡ some (b'a' ∷ 0xba ∷ 0xba ∷ [])
unfolding utf8_to_gb
from_utf8 = refl

uni2gb-gb2uni_example :
    (units : List ℕ) × (gb2uni to_unicode (text_of text ++ 0 ∷ []) 8 ≡ some (3, units))
    × (length units ≡ 3)
    × ◌≡◌ (uni2gb to_gbk units 8) (4, text_of text)
uni2gb-gb2uni_example =
    uni2gb-gb2uni to_unicode to_gbk text [] 8 8 (ground arith) (omega arith) (omega arith)
      (omega arith) (omega arith)
