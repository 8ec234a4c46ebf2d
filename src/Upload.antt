-- ===== src/Upload.antt =====
-- `http_mime_request` of LigSP/LigCommon/lig_httpd.cpp: the parts of an uploaded form, in memory from
-- `buf` on. The scans for the end of a value have no end but the character that they look for; `rounds`
-- bounds them, and `unending` is a scan that takes longer, or a text at NULL.
mod Tests
pub mod Values
use sq_sp.Prelude.{
  ℕ, zero, suc, ◌+◌, ◌-◌, Bool, true, false, not, ◌&&◌, ◌||◌, List, [], ◌∷◌, ◌++◌, Option, none,
  some, ◌==◌, ltb, leb, length, if◌then◌else◌, Bytes, codes, eq_bytes, ℤ, pos, negsuc, ◌>>=◌,
}
use sq_sp.PageBuf.Size.{slice}
use sq_sp.Text.{nocase_find_str, kmp_find}

-- `mime_header`; its `id` is its place in the table
pub record MimeHeader : Type 0 where
  pub quoted : Bool
  pub name : Bytes
  pub value_str : Option ℕ
  pub value_length : ℕ

abbrev pub no_value : Bool → Bytes → MimeHeader
no_value quoted name = record { quoted = quoted; name = name; value_str = none; value_length = 0 }

abbrev pub mime_headers : List MimeHeader
mime_headers =
    no_value false (codes "Content-Disposition: ")
    ∷ no_value true (codes "name=")
    ∷ no_value true (codes "filename=")
    ∷ no_value false (codes "Content-Type: ")
    ∷ []

-- `mime_data_pair`; `p_data` is set for files only
pub record MimeDataPair : Type 0 where
  pub name : Bytes
  pub value : Bytes
  pub filename : Bytes
  pub p_data : Option ℕ
  pub data_length : ℤ

abbrev pub new_pair : MimeDataPair
new_pair = record { name = []; value = []; filename = []; p_data = none; data_length = pos 0 }

-- a difference of `int`
abbrev pub int_minus : ℕ → ℕ → ℤ
int_minus a b = if ltb a b then negsuc (b - a - 1) else pos (a - b)

-- `\r\n\r\n`
abbrev pub is_blank_line : (ℕ → ℕ) → ℕ → Bool
is_blank_line f i =
    (f i == b'\r') && (f (i + 1) == b'\n') && (f (i + 2) == b'\r') && (f (i + 3) == b'\n')

-- the end of the header, from `p_end` on, `left` bytes at most
unfoldable pub header_end : (ℕ → ℕ) → ℕ → ℕ → ℕ
header_end f p_end zero = p_end
header_end f p_end (suc left) =
    let rest = header_end f (p_end + 1) left in if is_blank_line f p_end then p_end else rest

-- the address of the first byte that the test does not hold of
unfoldable pub scan : ℕ → (ℕ → Bool) → (ℕ → ℕ) → ℕ → Option ℕ
scan zero test f i = none
scan (suc rounds) test f i =
    let rest = scan rounds test f (i + 1) in if test (f i) then rest else some i

abbrev pub is_space : ℕ → Bool
is_space c = (c == b' ') || (c == b'\t')

abbrev pub in_value : ℕ → Bool
in_value c = not ((c == b'\r') || (c == b'\n') || (c == b';') || (c == b','))

abbrev pub in_quotes : ℕ → Bool
in_quotes c = not (c == b'"')

-- where a header is looked for and measured
unfoldable pub fill_header : ℕ → (ℕ → ℕ) → ℕ → ℕ → MimeHeader → Option MimeHeader
fill_header rounds f p_begin p_end ph =
    elim (nocase_find_str (slice f p_begin (p_end - p_begin)) ph.name) [
      | none ↦ some (record ph { value_str = none })
      | some rest ↦ do
        start ← scan rounds is_space f (p_end - length rest)
        let value_str = if ph.quoted then start + 1 else start
        end ← scan rounds (if ph.quoted then in_quotes else in_value) f value_str
        some (record ph { value_str = some value_str; value_length = end - value_str })
    ]

unfoldable pub fill_headers : ℕ → (ℕ → ℕ) → ℕ → ℕ → List MimeHeader → Option (List MimeHeader)
fill_headers rounds f p_begin p_end [] = some []
fill_headers rounds f p_begin p_end (ph ∷ phs) = do
  h ← fill_header rounds f p_begin p_end ph
  hs ← fill_headers rounds f p_begin p_end phs
  some (h ∷ hs)

-- the text of a header
abbrev pub value_text : (ℕ → ℕ) → MimeHeader → Option Bytes
value_text f ph = elim ph.value_str [ none ↦ none | some v ↦ some (slice f v ph.value_length) ]

-- the texts appended to `name` and `filename`
abbrev pub append_text : ℕ → Bytes → MimeDataPair → MimeDataPair
append_text id text p =
    if id == 1
    then record p { name = p.name ++ text }
    else if id == 2
    then record p { filename = p.filename ++ text }
    else p

-- The second loop over the headers, from `id` on, which also clears the lengths; `break` where the part
-- is no form data leaves the lengths that are left.
unfoldable pub take_headers :
    (ℕ → ℕ) → ℕ → List MimeHeader → MimeDataPair → Option (MimeDataPair × List MimeHeader)
take_headers f id [] p = some (p, [])
take_headers f id (ph ∷ phs) p =
    if ph.value_length == 0
    then (do rest ← take_headers f (id + 1) phs p; some (rest.0, ph ∷ rest.1))
    else (do
      text ← value_text f ph
      rest ← take_headers f (id + 1) phs (append_text id text p)
      some (
          if (id == 0) && not (eq_bytes text (codes "form-data"))
          then (p, ph ∷ phs)
          else (rest.0, record ph { value_length = 0 } ∷ rest.1)))

-- `if(filename!="")`: a file keeps where its data is; for a plain value `data_length` is set to 0 in
-- front of the `append`.
unfoldable pub set_value : (ℕ → ℕ) → ℕ → ℤ → MimeDataPair → MimeDataPair
set_value f p_data data_length p = elim p.filename [
  | [] ↦ record p { value = p.value ++ slice f p_data 0 }
  | c ∷ cs ↦ record p { value = c ∷ cs; p_data = some p_data; data_length = data_length }
]

pub record MimeState : Type 0 where
  pub loc : ℕ
  pub first : Option ℕ
  pub headers : List MimeHeader
  pub mime_list : List MimeDataPair

-- How a round ends: with another one, with a result, or in a scan.
pub data MimeStep : Type 0 where
  again : MimeState → MimeStep
  finished : Bool → MimeState → MimeStep
  unending : MimeStep

-- the part between `first` and `second`
unfoldable pub read_part : ℕ → (ℕ → ℕ) → ℕ → ℕ → ℕ → ℕ → MimeState → MimeStep
read_part rounds f buf str_length first second s =
    let p_begin = buf + first + 2 in
    let p_limit = p_begin + second - 4 in
    let p_end = header_end f p_begin (p_limit - p_begin) in
    let size = int_minus (second - first) (p_end - p_begin + 10) in
    let filled = (do
      hs ← fill_headers rounds f p_begin p_end s.headers
      take_headers f 0 hs new_pair) in
    if p_end == p_limit then finished false s else elim filled [
      | none ↦ unending
      | some (p, hs) ↦ again (record {
        loc = second + str_length;
        first = some (second + str_length);
        headers = hs;
        mime_list = s.mime_list ++ set_value f (p_end + 4) size p ∷ [];
      })
    ]

-- `KMP_find` from `loc` on
abbrev pub find_boundary : (ℕ → ℕ) → ℕ → ℕ → Bytes → ℕ → ℤ
find_boundary f buf buf_size boundary loc = kmp_find (slice f (buf + loc) (buf_size - loc)) boundary

unfoldable pub next_part : ℕ → (ℕ → ℕ) → ℕ → ℕ → Bytes → ℕ → ℕ → MimeState → MimeStep
next_part rounds f buf buf_size boundary loc first s =
    elim (find_boundary f buf buf_size boundary loc) [
      | negsuc n ↦ finished true s
      | pos fd ↦ read_part rounds f buf (length boundary) first (loc + fd) s
    ]

-- one round of `while(loc<buf_size)`
unfoldable pub mime_round : ℕ → (ℕ → ℕ) → ℕ → ℕ → Bytes → MimeState → MimeStep
mime_round rounds f buf buf_size boundary s = elim s.first [
  | some first ↦ next_part rounds f buf buf_size boundary s.loc first s
  | none ↦ elim (find_boundary f buf buf_size boundary s.loc) [
    | negsuc n ↦ finished true s
    | pos fd ↦
        let loc = s.loc + (fd + length boundary) in
        next_part rounds f buf buf_size boundary loc loc s
  ]
]

unfoldable pub mime_loop : ℕ → ℕ → (ℕ → ℕ) → ℕ → ℕ → Bytes → MimeState → Option (Bool × MimeState)
mime_loop zero rounds f buf buf_size boundary s = none
mime_loop (suc left) rounds f buf buf_size boundary s = elim (ltb s.loc buf_size) [
  | false ↦ some (true, s)
  | true ↦ elim (mime_round rounds f buf buf_size boundary s) [
    | again t ↦ mime_loop left rounds f buf buf_size boundary t
    | finished ok t ↦ some (ok, t)
    | unending ↦ none
  ]
]

-- `http_mime_request(boundary_str,buf,buf_size,mime_list)`, with the table of headers as the last call
-- left it; each round of the loop passes a boundary.
unfoldable pub http_mime_request :
    ℕ → (ℕ → ℕ) → Bytes → ℕ → ℕ → List MimeHeader → List MimeDataPair → Option (Bool × MimeState)
http_mime_request rounds f boundary buf buf_size headers mime_list =
    let s : MimeState = record {
      loc = 0;
      first = none;
      headers = headers;
      mime_list = mime_list;
    } in
    if ltb 64 (length boundary)
    then some (false, s)
    else mime_loop (buf_size + 1) rounds f buf buf_size boundary s
