-- ===== src/Utf8/Tests.antt =====
-- Runs of the conversions.
use sq_sp.Prelude.{◌≡◌, refl, [], ◌∷◌, arith}
use sq_sp.Utf8.{ucs2_to_utf8, utf8_to_ucs2, utf8_length}
use sq_sp.Utf8.RoundTrip.{utf8_to_ucs2-ucs2_to_utf8}

-- U+6C49, the example of the source's comment
comment_example : ucs2_to_utf8 (0x6c49 ∷ []) 8 ≡ 0xe6 ∷ 0xb1 ∷ 0x89 ∷ []
unfolding ucs2_to_utf8
comment_example = refl

-- The empty string: the NUL is written and counted.
empty_string : ucs2_to_utf8 [] 8 ≡ 0 ∷ []
unfolding ucs2_to_utf8
empty_string = refl

-- A bad continuation byte ends the text.
broken : utf8_to_ucs2 (b'a' ∷ 0xe6 ∷ b'b' ∷ []) (λ k. 0) 8 ≡ b'a' ∷ []
unfolding utf8_to_ucs2
broken = refl

utf8_to_ucs2-ucs2_to_utf8_example :
    utf8_to_ucs2 (ucs2_to_utf8 (b'a' ∷ 0xe9 ∷ 0x6c49 ∷ []) 8) (λ k. 0) 8 ≡ b'a' ∷ 0xe9 ∷ 0x6c49 ∷ []
unfolding utf8_length
utf8_to_ucs2-ucs2_to_utf8_example =
    utf8_to_ucs2-ucs2_to_utf8 (b'a' ∷ 0xe9 ∷ 0x6c49 ∷ []) (λ k. 0) 8 8 (cc) (omega arith)
      (omega arith) (omega arith)
