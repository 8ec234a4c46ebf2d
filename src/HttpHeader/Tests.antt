-- ===== src/HttpHeader/Tests.antt =====
-- Requests that are decoded, and the witnesses of the properties of `http_header`.
use sq_sp.Prelude.{
  ℕ, ◌+◌, ◌≡◌, ◌≤◌, ◌≢◌, zero, suc, refl, Option, none, some, [], ◌∷◌, Bytes, codes, get_or, inr,
  arith, ◌++◌, length,
}
use sq_sp.HttpHeader.{
  HttpHeader, at, literal, cstring, urldecode, hex_to_int, is_escape, decoded_char, urldecode_at,
  cstring_at, push_var, end_var, at_equals, at_ampersand, form_round, form_loop, decode_post,
  decode_url, decode_query, skip_slashes, blank_dots, clean_char, clean_path, skip_blanks,
  back_over_nul, trim_blanks,
}
use sq_sp.Hex.{upper_digit}
use sq_sp.HttpHeader.Escapes.{encode_char}
use sq_sp.HttpHeader.Listing.{Lists, form_text}
use sq_sp.HttpHeader.RoundTrip.{decode_post-form_text}
use sq_sp.HttpHeader.Dots.{IsPath}
use sq_sp.HttpHeader.Cleaning.{Cleans, clean_path-Cleans}

-- a buffer with a text and its NUL, and NULs behind
abbrev buffer : Bytes → ℕ → ℕ
buffer text i = get_or text i 0

abbrev no_vars : (ℕ → ℕ) → HttpHeader
no_vars f = record { memory = f; var_list = []; p_uri = none; p_session = none }

-- the text at `pUri` after `decode_url`
abbrev uri_of : Option HttpHeader → Option Bytes
uri_of none = none
uri_of (some h) = elim h.p_uri [
  | none ↦ none
  | some (at i) ↦ cstring 64 h.memory i
  | some (literal s) ↦ some s
]

decodes_path :
    uri_of (decode_url 64 (some 0) (no_vars (buffer (codes "/a%20b.html?x=1"))))
    ≡ some (codes "a b.html")
unfolding decode_url decode_query skip_slashes clean_path clean_char blank_dots skip_blanks
    back_over_nul trim_blanks urldecode hex_to_int is_escape decoded_char form_loop form_round
    at_equals at_ampersand end_var urldecode_at cstring_at cstring push_var
decodes_path = refl

-- Without a `?` nothing is decoded.
keeps_escapes :
    uri_of (decode_url 64 (some 0) (no_vars (buffer (codes "/a%20b.html"))))
    ≡ some (codes "a%20b.html")
unfolding decode_url decode_query skip_slashes clean_path clean_char blank_dots skip_blanks
    back_over_nul trim_blanks urldecode hex_to_int is_escape decoded_char form_loop form_round
    at_equals at_ampersand end_var urldecode_at cstring_at cstring push_var
keeps_escapes = refl

-- Dots that are escaped are decoded after the cleaning.
escaped_dots :
    uri_of (decode_url 64 (some 0) (no_vars (buffer (codes "/%2e%2e/x?a=b")))) ≡ some (codes "../x")
unfolding decode_url decode_query skip_slashes clean_path clean_char blank_dots skip_blanks
    back_over_nul trim_blanks urldecode hex_to_int is_escape decoded_char form_loop form_round
    at_equals at_ampersand end_var urldecode_at cstring_at cstring push_var
escaped_dots = refl

plain_dots :
    uri_of (decode_url 64 (some 0) (no_vars (buffer (codes "/../x?a=b")))) ≡ some (codes ".  x")
unfolding decode_url decode_query skip_slashes clean_path clean_char blank_dots skip_blanks
    back_over_nul trim_blanks urldecode hex_to_int is_escape decoded_char form_loop form_round
    at_equals at_ampersand end_var urldecode_at cstring_at cstring push_var
plain_dots = refl

abbrev count_vars : Option HttpHeader → ℕ
count_vars none = 0
count_vars (some h) = length h.var_list

-- The NUL behind a path that ends with a dot is passed.
dot_at_end :
    count_vars (decode_url 64 (some 0) (no_vars (buffer (codes "/a." ++ 0 ∷ codes "b?c=d")))) ≡ 1
unfolding decode_url decode_query skip_slashes clean_path clean_char blank_dots skip_blanks
    back_over_nul trim_blanks urldecode hex_to_int is_escape decoded_char form_loop form_round
    at_equals at_ampersand end_var urldecode_at cstring_at cstring push_var
dot_at_end = refl

abbrev first_field : Bytes × Bytes
first_field = (codes "a b", codes "1&2")

abbrev second_field : Bytes × Bytes
second_field = (codes "c", [])

abbrev posted : Bytes
posted = form_text first_field (second_field ∷ [])

posted_text : posted ≡ codes "a+b=1%262&c="
unfolding encode_char upper_digit
posted_text = refl

decode_post-form_text_example :
    (g : HttpHeader) × (decode_post 64 0 (length posted) (no_vars (buffer posted)) ≡ some g)
    × Lists g.memory (0 + length posted + 1) g.var_list (first_field ∷ second_field ∷ [])
unfolding encode_char upper_digit
decode_post-form_text_example =
    decode_post-form_text first_field (second_field ∷ []) 64 0 (no_vars (buffer posted)) []
      (ground arith) (ground arith) (ground arith) tt

abbrev dotted : ℕ → ℕ
dotted = buffer (codes "..\\b?c")

dotted-IsPath : IsPath dotted 0 3
dotted-IsPath = (inside, inr refl, λ l. ground arith)
  where
    inside : (k : ℕ) → 0 ≤ k → k ≤ 3 → (dotted k ≢ 0) × (dotted k ≢ b'?')
    inside zero l m = ground arith
    inside (suc zero) l m = ground arith
    inside (suc (suc zero)) l m = ground arith
    inside (suc (suc (suc zero))) l m = ground arith
    inside (suc (suc (suc (suc k)))) l m = absurd (omega arith)

clean_path-Cleans_example : Cleans dotted 0 3 (clean_path 9 9 dotted 0)
clean_path-Cleans_example =
    clean_path-Cleans 9 9 dotted 0 3 dotted-IsPath (omega arith) (omega arith) (omega arith)
