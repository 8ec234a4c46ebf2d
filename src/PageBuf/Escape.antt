-- ===== src/PageBuf/Escape.antt =====
-- What `write_cstr` writes, as a function of the bytes, and its reading back as in a C string literal.
use sq_sp.Prelude.{
  ℕ, ◌≡◌, refl, [], ◌∷◌, ◌++◌, Option, none, some, ◌==◌, if◌then◌else◌, arith, Bytes, ap, ◌∙◌,
}
use sq_sp.PageBuf.{escape}

abbrev pub letters_of : ℕ → Option ℕ → Bytes
letters_of c none = c ∷ []
letters_of c (some e) = b'\\' ∷ e ∷ []

abbrev pub letters : ℕ → Bytes
letters c = letters_of c (escape c)

unfoldable pub escaped : Bytes → Bytes
escaped [] = []
escaped (c ∷ s) = letters c ++ escaped s

-- the byte that a letter behind a backslash stands for
letter_value : ℕ → ℕ
letter_value e =
    if e == b'n'
    then b'\n'
    else if e == b'r'
    then b'\r'
    else if e == b't'
    then b'\t'
    else if e == b'v'
    then 11
    else if e == b'b'
    then 8
    else if e == b'f'
    then 12
    else e

-- the reader of a string literal's inside
pub unescape : Bytes → Bytes
unfolding letter_value
unescape [] = []
unescape (c ∷ []) = c ∷ []
unescape (c ∷ e ∷ s) =
    let escape_read = unescape s in
    let plain_read = unescape (e ∷ s) in
    if c == b'\\' then letter_value e ∷ escape_read else c ∷ plain_read

plain_lem : (c : ℕ) (s : Bytes) → escape c ≡ none → unescape (c ∷ s) ≡ c ∷ unescape s
unfolding unescape escape
plain_lem c [] h = refl
plain_lem c (e ∷ s) h = ground arith

escape_lem : (c e : ℕ) (s : Bytes) → escape c ≡ some e → unescape (b'\\' ∷ e ∷ s) ≡ c ∷ unescape s
unfolding unescape escape letter_value
escape_lem c e s h = ground arith

letters_of_lem :
    (c : ℕ) (s : Bytes) (o : Option ℕ)
    → escape c ≡ o
    → unescape (letters_of c o ++ s) ≡ c ∷ unescape s
letters_of_lem c s none h = plain_lem c s h
letters_of_lem c s (some e) h = escape_lem c e s h

-- What `write_cstr` writes is read back as the same bytes, whatever they are.
pub unescape-escaped : (s : Bytes) → unescape (escaped s) ≡ s
unfolding escaped unescape
unescape-escaped [] = refl
unescape-escaped (c ∷ s) =
    letters_of_lem c (escaped s) (escape c) refl ∙ ap (λ r. c ∷ r) (unescape-escaped s)
