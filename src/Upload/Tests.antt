-- ===== src/Upload/Tests.antt =====
-- An upload of a field and a file, and the witness.
use sq_sp.Prelude.{
  ℕ, ◌≡◌, refl, Option, none, some, Bool, List, [], ◌∷◌, ◌++◌, map, Bytes, codes, get_or, length,
}
use sq_sp.Text.{
  nocase_find_str, match_from, same_nocase, kmp_find, kmp_init, kmp_find_from, kmp_fall,
  kmp_init_from, kmp_back,
}
use sq_sp.Upload.{
  MimeState, mime_headers, header_end, scan, fill_header, fill_headers, take_headers, set_value,
  read_part, next_part, mime_round, mime_loop, http_mime_request,
}
use sq_sp.Upload.Values.{Returns, http_mime_request-Returns}

abbrev line : Bytes → Bytes
line text = text ++ 13 ∷ 10 ∷ []

abbrev quoted : Bytes → Bytes
quoted text = b'"' ∷ (text ++ b'"' ∷ [])

abbrev field : Bytes
field =
    line (codes "Content-Disposition: form-data; name=" ++ quoted (codes "a"))
    ++ line []
    ++ line (codes "12")

abbrev posted : Bytes
posted = line (codes "--XY") ++ field ++ codes "--XY--"

abbrev memory : ℕ → ℕ
memory i = get_or posted i 0

abbrev values_of : Option (Bool × MimeState) → List (Bytes × Bytes)
values_of none = []
values_of (some (ok, s)) = map (λ p. (p.name, p.value)) s.mime_list

-- The text 12 of the field is lost.
field_without_value :
    values_of (http_mime_request 200 memory (codes "XY") 0 (length posted) mime_headers [])
    ≡ (codes "a", []) ∷ []
unfolding http_mime_request mime_loop mime_round next_part read_part set_value take_headers
    fill_headers fill_header scan header_end kmp_find kmp_init kmp_find_from kmp_fall kmp_init_from
    kmp_back nocase_find_str match_from same_nocase
field_without_value = refl

http_mime_request-Returns_example :
    Returns (http_mime_request 200 memory (codes "XY") 0 (length posted) mime_headers [])
http_mime_request-Returns_example =
    http_mime_request-Returns 200 memory (codes "XY") 0 (length posted) mime_headers [] tt
