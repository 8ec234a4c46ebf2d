-- ===== src/HttpHeader/Escapes.antt =====
-- `urldecode` of what an encoder of `application/x-www-form-urlencoded` writes.
use mathlib.Core.List.{append_assoc}
use sq_sp.Prelude.{
  ℕ, zero, suc, ◌+◌, ◌/◌, ◌%◌, ◌<◌, ◌≤◌, ◌≡◌, ◌≢◌, ◌⊎◌, inl, inr, refl, Bool, true, false, ◌&&◌,
  ◌||◌, [], ◌∷◌, ◌++◌, Option, some, ◌==◌, leb, length, length-append, if◌then◌else◌, arith, Bytes,
  All, Bool-cases, sym, ◌∙◌,
}
use sq_sp.PageBuf.{store}
use sq_sp.Hex.{upper_digit}
use sq_sp.HttpHeader.{urldecode, is_escape, decoded_char, hex_to_int, to_lower, is_xdigit, is_digit}
use sq_sp.HttpHeader.Memory.{Holds, Holds-cong, Holds-append}

-- What a browser leaves as it is: letters, digits, `*`, `-`, `.` and `_`.
abbrev pub is_unreserved : ℕ → Bool
is_unreserved c =
    is_digit c
    || (leb b'A' c && leb c b'Z')
    || (leb b'a' c && leb c b'z')
    || (c == b'*')
    || (c == b'-')
    || (c == b'.')
    || (c == b'_')

unfoldable pub encode_char : ℕ → Bytes
encode_char c =
    if c == b' '
    then b'+' ∷ []
    else if is_unreserved c
    then c ∷ []
    else b'%' ∷ upper_digit (c / 16) ∷ upper_digit (c % 16) ∷ []

abbrev pub encode : Bytes → Bytes
encode [] = []
encode (c ∷ cs) = encode_char c ++ encode cs

-- a byte of a C string
abbrev pub IsChar : ℕ → Type 0
IsChar c = (c ≢ 0) × (c < 256)

hex-upper_digit : (h : ℕ) → h < 16 → hex_to_int (to_lower (upper_digit h)) ≡ h
unfolding hex_to_int upper_digit
hex-upper_digit h l = ground arith

xdigit-upper_digit : (h : ℕ) → h < 16 → is_xdigit (upper_digit h) ≡ true
unfolding upper_digit
xdigit-upper_digit h l = ground arith

-- The three forms of a character, each with what the loop of `urldecode` makes of it.
abbrev pub Stands : ℕ → Bytes → Type 0
Stands v [] = ⊥
Stands v (c ∷ []) = (h l : ℕ) → (is_escape c h l ≡ false) × (decoded_char c h l ≡ v) × (c ≢ 0)
Stands v (c ∷ h ∷ []) = ⊥
Stands v (c ∷ h ∷ l ∷ cs) =
    (is_escape c h l ≡ true) × (decoded_char c h l ≡ v) × (c ≢ 0) × (cs ≡ [])

plain-Stands : (c : ℕ) → c ≢ 0 → c ≢ b'%' → c ≢ b'+' → Stands c (c ∷ [])
unfolding is_escape decoded_char
plain-Stands c not_nul not_escape not_plus h l =
    let other : (c == b'%') ≡ false = ground arith in
    let same : (c == b'+') ≡ false = ground arith in rw (other, same) (refl, refl, not_nul)

escape-Stands :
    (c : ℕ) → c < 256 → Stands c (b'%' ∷ upper_digit (c / 16) ∷ upper_digit (c % 16) ∷ [])
unfolding is_escape decoded_char
escape-Stands c byte =
    let high : c / 16 < 16 = omega arith in
    let low : c % 16 < 16 = omega arith in
    rw
      (
        xdigit-upper_digit (c / 16) high,
        xdigit-upper_digit (c % 16) low,
        hex-upper_digit (c / 16) high,
        hex-upper_digit (c % 16) low,
      )
      (refl, omega arith, omega arith, refl)

unreserved_lem : (c : ℕ) → is_unreserved c ≡ true → (c ≢ b'%') × (c ≢ b'+')
unreserved_lem c e = ground arith

space-Stands : Stands b' ' (b'+' ∷ [])
unfolding is_escape decoded_char
space-Stands h l = (refl, refl, omega arith)

pub encode_char-Stands : (c : ℕ) → IsChar c → Stands c (encode_char c)
unfolding encode_char
encode_char-Stands c (not_nul, byte) = elim (Bool-cases (c == b' ')) [
  | inl e ↦ let is : c ≡ b' ' = ground arith in rw (e, is) space-Stands
  | inr e ↦ elim (Bool-cases (is_unreserved c)) [
    | inl u ↦ let other = unreserved_lem c u in rw (e, u) (plain-Stands c not_nul other.0 other.1)
    | inr u ↦ rw (e, u) (escape-Stands c byte)
  ]
]

or_true_lem : (b : Bool) → (b || true) ≡ false → ⊥
or_true_lem b e = ground arith

pub Stands-length : (v : ℕ) (bs : Bytes) → Stands v bs → 0 < length bs
Stands-length v [] s = absurd s
Stands-length v (c ∷ cs) s = omega arith

-- One round of the loop, on one character in any of its forms.
abbrev pub Goes : ℕ → Bytes → ℕ → (ℕ → ℕ) → ℕ → ℕ → Bool → Type 0
Goes v bs rounds f from to changed =
    (again : Bool) × (urldecode (suc rounds) f from to changed
      ≡ urldecode rounds (store to v f) (from + length bs) (to + 1) again)
    × (again ≡ false → (changed ≡ false) × (length bs ≡ 1))

urldecode-Goes :
    (v : ℕ) (bs rest : Bytes) (rounds : ℕ) (f : ℕ → ℕ) (from to : ℕ) (changed : Bool)
    → Stands v bs
    → Holds f from (bs ++ rest)
    → Goes v bs rounds f from to changed
unfolding urldecode
urldecode-Goes v [] rest rounds f from to changed s h = absurd s
urldecode-Goes v (c ∷ []) rest rounds f from to changed s (here, more) =
    let (plain, is, not_nul) = s (f (from + 1)) (f (from + 2)) in
    let goes_on : (f from == 0) ≡ false = ground arith in
    (changed || false, rw (goes_on, here, plain, is, urldecode) refl, λ e. (ground arith, refl))
urldecode-Goes v (c ∷ h ∷ []) rest rounds f from to changed s holds = absurd s
urldecode-Goes v (c ∷ h ∷ l ∷ cs) rest rounds f from to changed (escape, is, not_nul, end)
      (here, (next, (last, more))) =
    let goes_on : (f from == 0) ≡ false = ground arith in
    let at : from + 2 ≡ from + 1 + 1 = omega arith in
    (
      changed || true,
      rw (goes_on, at, here, next, last, escape, is, end, urldecode) refl,
      λ e. absurd (or_true_lem changed e),
    )

-- What `urldecode` leaves of a text of `n` bytes at `from`: its characters with a NUL at `to`, and
-- nothing in front of `to` or behind the text's own NUL is changed.
abbrev pub Decodes : Bytes → (ℕ → ℕ) → ℕ → ℕ → ℕ → Option (ℕ → ℕ) → Type 0
Decodes cs f from to n r =
    (g : ℕ → ℕ) × (r ≡ some g)
    × Holds g to (cs ++ 0 ∷ [])
    × ((k : ℕ) → (k < to) ⊎ (from + n < k) → g k ≡ f k)

urldecode-end :
    (rounds : ℕ) (f : ℕ → ℕ) (from to : ℕ) (changed : Bool)
    → to ≤ from
    → (changed ≡ false → to ≡ from)
    → f from ≡ 0
    → Decodes [] f from to 0 (urldecode (suc rounds) f from to changed)
unfolding urldecode
urldecode-end rounds f from to true order same end =
    let stop : (f from == 0) ≡ true = ground arith in
    (store to 0 f, rw (stop, urldecode) refl, (ground arith, tt), λ k o. ground arith)
urldecode-end rounds f from to false order same end =
    let stop : (f from == 0) ≡ true = ground arith in
    (f, rw (stop, urldecode) refl, (rw (same refl) end, tt), λ k o. refl)

-- `urldecode` undoes the encoder, in place: a text of encoded characters at `from` becomes the
-- characters at `to`, for `to` at `from` or behind a part decoded before.
pub urldecode-encode :
    (cs : Bytes) (rounds : ℕ) (f : ℕ → ℕ) (from to : ℕ) (changed : Bool)
    → All IsChar cs
    → length (encode cs) < rounds
    → to ≤ from
    → (changed ≡ false → to ≡ from)
    → Holds f from (encode cs ++ 0 ∷ [])
    → Decodes cs f from to (length (encode cs)) (urldecode rounds f from to changed)
urldecode-encode cs zero f from to changed good enough order same h = absurd (omega arith)
urldecode-encode [] (suc rounds) f from to changed good enough order same (end, more) =
    urldecode-end rounds f from to changed order same end
urldecode-encode (c ∷ cs) (suc rounds) f from to changed (char, good) enough order same h =
    let bs = encode_char c in
    let stands = encode_char-Stands c char in
    let some_bytes = Stands-length c bs stands in
    let size = length-append bs (encode cs) in
    let split =
      Holds-append f from bs (encode cs ++ 0 ∷ [])
        (rw (sym (append_assoc bs (encode cs) (0 ∷ []))) h) in
    let (again, step, unchanged) =
      urldecode-Goes c bs (encode cs ++ 0 ∷ []) rounds f from to changed stands
        (rw (sym (append_assoc bs (encode cs) (0 ∷ []))) h) in
    let (g, is, held, frame) =
      urldecode-encode cs rounds (store to c f) (from + length bs) (to + 1) again good
        (omega (arith, size)) (omega arith)
        (λ e. let (before, one) = unchanged e in omega (arith, same before))
        (Holds-cong f (store to c f) (from + length bs) (encode cs ++ 0 ∷ [])
          (λ k l m. ground arith) split.1) in
    (
      g,
      step ∙ is,
      (frame to (inl (omega arith)) ∙ ground arith, held),
      λ k o. elim o [
        | inl l ↦ frame k (inl (omega arith)) ∙ ground arith
        | inr l ↦ frame k (inr (omega (arith, size))) ∙ ground arith
      ],
    )

-- A byte that the loop over a form passes.
abbrev pub IsPlain : ℕ → Type 0
IsPlain c = (c ≢ 0) × (c ≢ b'=') × (c ≢ b'&')

unreserved-IsPlain : (c : ℕ) → c ≢ 0 → is_unreserved c ≡ true → IsPlain c
unreserved-IsPlain c not_nul u = ground arith

digit-IsPlain : (h : ℕ) → h < 16 → IsPlain (upper_digit h)
unfolding upper_digit
digit-IsPlain h l = ground arith

pub encode_char-IsPlain : (c : ℕ) → IsChar c → All IsPlain (encode_char c)
unfolding encode_char
encode_char-IsPlain c (not_nul, byte) = elim (Bool-cases (c == b' ')) [
  | inl e ↦ rw e ((omega arith, omega arith, omega arith), tt)
  | inr e ↦ elim (Bool-cases (is_unreserved c)) [
    | inl u ↦ rw (e, u) (unreserved-IsPlain c not_nul u, tt)
    | inr u ↦
        rw (e, u)
          (
            (omega arith, omega arith, omega arith),
            (digit-IsPlain (c / 16) (omega arith), (digit-IsPlain (c % 16) (omega arith), tt)),
          )
  ]
]
