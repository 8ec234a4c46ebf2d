-- ===== src/Hex.antt =====
-- The hexadecimal forms of LigSP/LigCommon: `convert_hex`, `convert_hex2` and `convert_binary` of
-- sdl_tcpstream.cpp, and `bin2str` and `create_session_hash` of lig_httpd.cpp.
mod Tests
pub mod Digits
pub mod RoundTrip
use sq_sp.Prelude.{
  ℕ, zero, suc, ◌+◌, ◌-◌, ◌*◌, ◌/◌, ◌%◌, ◌^◌, Bool, true, false, not, ◌&&◌, ◌||◌, List, [], ◌∷◌,
  ◌++◌, Option, none, some, ◌==◌, ltb, leb, length, get_or, take, drop, replicate, if◌then◌else◌,
  Bytes, codes,
}

-- the character of a half byte, `0`-`9` and `A`-`F`
unfoldable pub upper_digit : ℕ → ℕ
upper_digit h = if ltb h 10 then h + b'0' else h + b'A' - 10

-- the two characters of a byte
unfoldable pub hex_pair : ℕ → Bytes
hex_pair c = let hc = c / 16 in upper_digit hc ∷ upper_digit (c - hc * 16) ∷ []

-- `convert_hex2(msg_buf,buf_length,timestamp)`: `stamp` is what `sprintf` makes of the time with
-- "%11d,".
unfoldable pub convert_hex2 : Bytes → Bytes → Bytes
convert_hex2 stamp [] = stamp
convert_hex2 stamp (c ∷ msg) = convert_hex2 (stamp ++ hex_pair c) msg

-- the character of a byte on the right of a dump; a `char` from 0x80 on is negative
unfoldable pub shown : ℕ → ℕ
shown ch = if ltb ch 32 || leb 128 ch then b'.' else ch

-- The loop of `convert_hex`: `message_hex` and `message_val` after it.
unfoldable pub hex_lines : ℕ → Bytes → Bytes → Bytes → Bytes × Bytes
hex_lines i [] message_hex message_val = (message_hex, message_val)
hex_lines i (ch ∷ msg) message_hex message_val =
    let hex = message_hex ++ hex_pair ch ++ b' ' ∷ [] in
    let val = message_val ++ shown ch ∷ [] in
    let full = hex_lines (i + 1) msg (hex ++ codes ": " ++ val ++ b'\n' ∷ []) [] in
    let more = hex_lines (i + 1) msg hex val in
    if ltb 0 i && ((i + 1) % 18 == 0) then full else more

-- `for(int j=0;j<n;++j) message_hex+="-- "`
unfoldable pub dashes : ℕ → Bytes
dashes zero = []
dashes (suc n) = codes "-- " ++ dashes n

-- `convert_hex(msg_buf,buf_length)`: `heading` is what `sprintf` writes first.
unfoldable pub convert_hex : Bytes → Bytes → Bytes
convert_hex heading msg =
    let after = hex_lines 0 msg heading [] in
    after.0 ++ dashes (18 - length msg % 18) ++ codes ": " ++ after.1 ++ b'\n' ∷ []

-- the value that a character adds; for any other character the cell keeps its value
unfoldable pub digit_value : ℕ → Option ℕ
digit_value c =
    if leb b'0' c && leb c b'9'
    then some (c - b'0')
    else if leb b'A' c && leb c b'F'
    then some (c - b'A' + 10)
    else none

-- the assignment for the first character, and the addition for the second
abbrev pub high_digit : ℕ → Option ℕ → ℕ
high_digit old none = old
high_digit old (some v) = v * 16 % 2 ^ 8

abbrev pub low_digit : ℕ → Option ℕ → ℕ
low_digit high none = high
low_digit high (some v) = (high + v) % 2 ^ 8

-- what the two characters leave in a cell that held `old`
unfoldable pub join_digits : ℕ → ℕ → ℕ → ℕ
join_digits old chh chl = low_digit (high_digit old (digit_value chh)) (digit_value chl)

-- The loop of `convert_binary` from `pmsg` on: the result, and the cells written so far. `held` is what
-- the buffer held; `room` is the length that the caller gave.
unfoldable pub read_pairs : (ℕ → ℕ) → ℕ → Bytes → Bytes → Bool × Bytes
read_pairs held room written [] = (true, written)
read_pairs held room written (chh ∷ []) = (false, written)
read_pairs held room written (chh ∷ chl ∷ rest) =
    let after = written ++ join_digits (held (length written)) chh chl ∷ [] in
    let next = read_pairs held room after rest in
    if ltb room (length after) then (false, after) else next

-- `convert_binary(msg_buf,binary_buf,buf_length,timestamp)`, on the bytes in front of the NUL, at least
-- 12 of them: `none` where the twelfth is no comma, else the result and the cells written. The time
-- is what `atoi` makes of the first eleven.
unfoldable pub convert_binary : (ℕ → ℕ) → ℕ → Bytes → Option (Bytes × Bool × Bytes)
convert_binary held room msg =
    if get_or msg 11 0 == b','
    then (let r = read_pairs held room [] (drop 12 msg) in some (take 11 msg, r.0, r.1))
    else none

-- `bin2str(to,p,len)`
unfoldable pub lower_digit : ℕ → ℕ
lower_digit h = get_or (codes "0123456789abcdef") h 0

unfoldable pub bin2str : Bytes → Bytes
bin2str [] = []
bin2str (c ∷ p) = lower_digit (c / 16) ∷ lower_digit (c % 16) ∷ bin2str p

-- the table `tb` of `create_session_hash`
abbrev pub key_table : Bytes
key_table = codes "0123456789ABCDEFGHIJKLMNOPQRSTUVWXYZabcdefghijklmnopqrstuvwxyz0123456789"

-- the three characters for two bytes of the digest
unfoldable pub key_triple : ℕ → ℕ → Bytes
key_triple h0 h1 =
    get_or key_table (h0 / 4) 0
    ∷ get_or key_table (h0 % 4 * 16 + h1 / 16) 0
    ∷ get_or key_table (h1 % 64) 0
    ∷ []

-- `create_session_hash(buf,value)` from the digest of `value`
unfoldable pub session_key_of : Bytes → Bytes
session_key_of [] = []
session_key_of (h0 ∷ []) = []
session_key_of (h0 ∷ h1 ∷ rest) = key_triple h0 h1 ++ session_key_of rest
