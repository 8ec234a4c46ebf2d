-- ===== src/Gbk/Convert.antt =====
-- The use of its buffer by `gb2utf8` (LigSP/LigCommon/unicode.cpp).
use sq_sp.Prelude.{
  ℕ, ◌+◌, ◌*◌, ◌^◌, ◌≤◌, ◌≡◌, [], ◌∷◌, ◌++◌, some, length, length-append, Bytes, arith,
}
use sq_sp.Gbk.{gb2utf8, wide_bytes}

length-wide_bytes : (uni : ℕ) → length (wide_bytes uni) ≤ 3
unfolding wide_bytes
length-wide_bytes uni = ground arith

-- `gb2utf8` writes no byte behind its buffer, whatever the conversion table holds: it either returns
-- -1 or at most `buf_size` bytes, if it starts with at most that many.
pub length-gb2utf8 :
    (to_unicode : ℕ → ℕ) (buf_size : ℕ) (s out result : Bytes)
    → length out ≤ buf_size
    → gb2utf8 to_unicode buf_size out s ≡ some result
    → length result ≤ buf_size
unfolding gb2utf8
length-gb2utf8 to_unicode buf_size [] out result h e = ground arith
length-gb2utf8 to_unicode buf_size (c ∷ []) out result h e =
    ground (arith, length-append out (c ∷ []))
length-gb2utf8 to_unicode buf_size (c ∷ d ∷ rest) out result h e =
    let wide = wide_bytes (to_unicode (c * 2 ^ 8 + d)) in
    ground (
      arith,
      length-append out (c ∷ []),
      length-append out wide,
      length-wide_bytes (to_unicode (c * 2 ^ 8 + d)),
      length-gb2utf8 to_unicode buf_size (d ∷ rest) out result,
      length-gb2utf8 to_unicode buf_size rest (out ++ wide) result,
      length-gb2utf8 to_unicode buf_size (d ∷ rest) (out ++ c ∷ []) result,
    )
