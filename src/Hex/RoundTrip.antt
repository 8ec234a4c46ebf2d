-- ===== src/Hex/RoundTrip.antt =====
-- `convert_binary` on what `convert_hex2` writes (LigSP/LigCommon/sdl_tcpstream.cpp).
use mathlib.Core.List.{append-nil, append_assoc}
use sq_sp.Prelude.{
  ℕ, suc, ◌+◌, ◌-◌, ◌*◌, ◌/◌, ◌<◌, ◌≤◌, ◌≡◌, inl, inr, refl, true, false, [], ◌∷◌, ◌++◌, some, ltb,
  length, length-append, get_or, take, drop, Bytes, IsByte, All, arith, Bool-cases, ap, sym, ◌∙◌,
}
use sq_sp.Hex.{
  upper_digit, hex_pair, convert_hex2, digit_value, join_digits, read_pairs, convert_binary,
}

digit_value-upper_digit : (h : ℕ) → h < 16 → digit_value (upper_digit h) ≡ some h
unfolding digit_value upper_digit
digit_value-upper_digit h l = ground arith

-- the digits of a message
abbrev pub hex_of : Bytes → Bytes
hex_of [] = []
hex_of (c ∷ msg) = hex_pair c ++ hex_of msg

pub convert_hex2_lem : (stamp msg : Bytes) → convert_hex2 stamp msg ≡ stamp ++ hex_of msg
unfolding convert_hex2
convert_hex2_lem stamp [] = sym (append-nil stamp)
convert_hex2_lem stamp (c ∷ msg) =
    convert_hex2_lem (stamp ++ hex_pair c) msg ∙ append_assoc stamp (hex_pair c) (hex_of msg)

join-hex_pair :
    (old c : ℕ)
    → IsByte c
    → join_digits old (upper_digit (c / 16)) (upper_digit (c - c / 16 * 16)) ≡ c
unfolding join_digits
join-hex_pair old c h =
    rw
      (
        digit_value-upper_digit (c / 16) (omega arith),
        digit_value-upper_digit (c - c / 16 * 16) (omega arith),
      )
      (omega arith)

read_pairs-hex_of :
    (held : ℕ → ℕ) (room : ℕ) (written msg : Bytes)
    → All IsByte msg
    → length written + length msg ≤ room
    → ◌≡◌ (read_pairs held room written (hex_of msg)) (true, written ++ msg)
unfolding read_pairs hex_pair
read_pairs-hex_of held room written [] bytes fits = rw (append-nil written) refl
read_pairs-hex_of held room written (c ∷ msg) (byte, bytes) fits =
    let cell = join-hex_pair (held (length written)) c byte in
    let size = length-append written (c ∷ []) in
    let small : ltb room (length (written ++ c ∷ [])) ≡ false = ground arith in
    rw (cell, small)
      (read_pairs-hex_of held room (written ++ c ∷ []) msg bytes (omega arith)
        ∙ rw (append_assoc written (c ∷ []) msg) refl)

read_pairs_overrun :
    (held : ℕ → ℕ) (room : ℕ) (written msg : Bytes)
    → length written ≤ room
    → room < length written + length msg
    → ((read_pairs held room written (hex_of msg)).0 ≡ false)
      × (length (read_pairs held room written (hex_of msg)).1 ≡ room + 1)
unfolding read_pairs hex_pair
read_pairs_overrun held room written [] low high = absurd (omega arith)
read_pairs_overrun held room written (c ∷ msg) low high =
    let cell =
      join_digits (held (length written)) (upper_digit (c / 16)) (upper_digit (c - c / 16 * 16)) in
    let size = length-append written (cell ∷ []) in
    elim (Bool-cases (ltb room (length (written ++ cell ∷ [])))) [
      | inl over ↦ rw over (refl, ground arith)
      | inr more ↦
          rw more
            (read_pairs_overrun held room (written ++ cell ∷ []) msg (ground arith) (omega arith))
    ]

comma_at : (time rest : Bytes) → get_or (time ++ b',' ∷ rest) (length time) 0 ≡ b','
comma_at [] rest = refl
comma_at (x ∷ time) rest = comma_at time rest

take-time : (time rest : Bytes) → take (length time) (time ++ b',' ∷ rest) ≡ time
take-time [] rest = refl
take-time (x ∷ time) rest = ap (λ l. x ∷ l) (take-time time rest)

drop-time : (time rest : Bytes) → drop (suc (length time)) (time ++ b',' ∷ rest) ≡ rest
drop-time [] rest = refl
drop-time (x ∷ time) rest = drop-time time rest

-- what `convert_binary` gets for the message
written_as : (time msg : Bytes) → convert_hex2 (time ++ b',' ∷ []) msg ≡ time ++ b',' ∷ hex_of msg
written_as time msg =
    convert_hex2_lem (time ++ b',' ∷ []) msg ∙ append_assoc time (b',' ∷ []) (hex_of msg)

converted :
    (held : ℕ → ℕ) (room : ℕ) (time msg : Bytes)
    → length time ≡ 11
    → convert_binary held room (convert_hex2 (time ++ b',' ∷ []) msg)
      ≡ (let r = read_pairs held room [] (hex_of msg) in some (time, r.0, r.1))
unfolding convert_binary
converted held room time msg len =
    let comma = rw len at (comma_at time (hex_of msg)) in
    let front = rw len at (take-time time (hex_of msg)) in
    let rest = rw len at (drop-time time (hex_of msg)) in
    rw (written_as time msg, comma, front, rest) refl

-- A message of bytes, written by `convert_hex2` behind a time of eleven characters and a comma, is read
-- back by `convert_binary`, with the time, if the buffer is at least as long as the message.
pub convert_binary-convert_hex2 :
    (held : ℕ → ℕ) (room : ℕ) (time msg : Bytes)
    → length time ≡ 11
    → All IsByte msg
    → length msg ≤ room
    → convert_binary held room (convert_hex2 (time ++ b',' ∷ []) msg) ≡ some (time, true, msg)
convert_binary-convert_hex2 held room time msg len bytes fits =
    converted held room time msg len
    ∙ ap (λ r. some (time, r.0, r.1)) (read_pairs-hex_of held room [] msg bytes (omega arith))

-- Such a message, longer than the buffer, is refused, but only after one cell behind the buffer's end
-- was written.
pub convert_binary_overrun :
    (held : ℕ → ℕ) (room : ℕ) (time msg : Bytes)
    → length time ≡ 11
    → room < length msg
    → (written : Bytes) × (convert_binary held room (convert_hex2 (time ++ b',' ∷ []) msg)
        ≡ some (time, false, written))
      × (length written ≡ room + 1)
convert_binary_overrun held room time msg len long =
    let (refused, size) = read_pairs_overrun held room [] msg (omega arith) (omega arith) in
    let r = read_pairs held room [] (hex_of msg) in
    (r.1, converted held room time msg len ∙ ap (λ b. some (time, b, r.1)) refused, size)
