-- ===== src/Hex/Tests.antt =====
-- Runs of the hexadecimal forms.
use sq_sp.Prelude.{ℕ, ◌≡◌, refl, true, [], ◌∷◌, ◌++◌, some, Bytes, codes, length, arith}
use sq_sp.Hex.{
  convert_hex, convert_hex2, convert_binary, bin2str, session_key_of, hex_lines, hex_pair,
  upper_digit, shown, dashes, lower_digit, key_triple, read_pairs, join_digits, digit_value,
}
use sq_sp.Hex.RoundTrip.{convert_binary-convert_hex2}

abbrev zeros : ℕ → ℕ
zeros i = 0

abbrev time_text : Bytes
time_text = codes "         17"

hex2_run : convert_hex2 (codes "         17,") (0x1a ∷ 0xff ∷ []) ≡ codes "         17,1AFF"
unfolding convert_hex2 hex_pair upper_digit
hex2_run = refl

hex_run : length (convert_hex (codes "H") (b'a' ∷ 7 ∷ [])) ≡ 60
unfolding convert_hex hex_lines hex_pair upper_digit shown dashes
hex_run = refl

bin2str_run : bin2str (0x1a ∷ 0xff ∷ []) ≡ codes "1aff"
unfolding bin2str lower_digit
bin2str_run = refl

-- Lower-case digits are passed over, and the cells keep what they held.
lower_case : convert_binary zeros 4 (codes "         17,ff") ≡ some (time_text, true, 0 ∷ [])
unfolding convert_binary read_pairs join_digits digit_value
lower_case = refl

key_run : session_key_of (0 ∷ 0 ∷ 255 ∷ 255 ∷ []) ≡ codes "000111"
unfolding session_key_of key_triple
key_run = refl

convert_binary-convert_hex2_example :
    convert_binary zeros 2 (convert_hex2 (time_text ++ b',' ∷ []) (0x1a ∷ 0xff ∷ []))
    ≡ some (time_text, true, 0x1a ∷ 0xff ∷ [])
convert_binary-convert_hex2_example =
    convert_binary-convert_hex2 zeros 2 time_text (0x1a ∷ 0xff ∷ []) refl (ground arith)
      (omega arith)
