-- ===== src/HttpHeader.antt =====
-- `VARS` and `http_header` of LigSP/LigCommon/lig_httpd.h: the variables of a request, which are decoded
-- inside the buffer that received them. The buffer is its memory; a pointer is an address of it, or a
-- text elsewhere. `rounds` bounds each loop over a text, and `none` is a loop that goes on longer.
mod Tests
pub mod Memory
pub mod Escapes
pub mod Form
pub mod Variables
pub mod Fields
pub mod Listing
pub mod RoundTrip
pub mod Dots
pub mod Cleaning
pub mod Query
use sq_sp.Prelude.{
  ℕ, zero, suc, ◌+◌, ◌-◌, ◌*◌, Bool, true, false, not, ◌&&◌, ◌||◌, List, [], ◌∷◌, ◌++◌, Option,
  none, some, ◌==◌, ltb, leb, length, if◌then◌else◌, Bytes, codes, eq_bytes, ◌>>=◌,
}
use sq_sp.PageBuf.{store}

pub data Ptr : Type 0 where
  at : ℕ → Ptr
  literal : Bytes → Ptr

pub record Vars : Type 0 where
  pub name : Ptr
  pub name_length : ℕ
  pub value : Ptr
  pub value_length : ℕ

-- `varList`, `pUri` and `pSession`, `none` for NULL, next to the memory that they point to
pub record HttpHeader : Type 0 where
  pub memory : ℕ → ℕ
  pub var_list : List Vars
  pub p_uri : Option Ptr
  pub p_session : Option Ptr

-- `isdigit`, `isxdigit` and `tolower` of ASCII
abbrev pub is_digit : ℕ → Bool
is_digit c = leb b'0' c && leb c b'9'

abbrev pub is_xdigit : ℕ → Bool
is_xdigit c = is_digit c || (leb b'a' c && leb c b'f') || (leb b'A' c && leb c b'F')

abbrev pub to_lower : ℕ → ℕ
to_lower c = if leb b'A' c && leb c b'Z' then c + 32 else c

-- `HEXTOI`
unfoldable pub hex_to_int : ℕ → ℕ
hex_to_int x = if is_digit x then x - b'0' else x - b'W'

unfoldable pub is_escape : ℕ → ℕ → ℕ → Bool
is_escape c h l = (c == b'%') && is_xdigit h && is_xdigit l

-- what the three branches of `urldecode` store
unfoldable pub decoded_char : ℕ → ℕ → ℕ → ℕ
decoded_char c h l =
    if is_escape c h l
    then hex_to_int (to_lower h) * 16 + hex_to_int (to_lower l)
    else if c == b'+'
    then b' '
    else c

-- `urldecode(from,to)`, where `to` is already `to+i`: the NUL is stored only if an escape was found.
unfoldable pub urldecode : ℕ → (ℕ → ℕ) → ℕ → ℕ → Bool → Option (ℕ → ℕ)
urldecode zero f from to flag_changed = none
urldecode (suc rounds) f from to flag_changed =
    let escape = is_escape (f from) (f (from + 1)) (f (from + 2)) in
    let g = store to (decoded_char (f from) (f (from + 1)) (f (from + 2))) f in
    let width = if escape then 3 else 1 in
    let rest = urldecode rounds g (from + width) (to + 1) (flag_changed || escape) in
    if f from == 0 then some (if flag_changed then store to 0 f else f) else rest

-- `urldecode(p,p)`; the only text elsewhere is the empty one
unfoldable pub urldecode_at : ℕ → (ℕ → ℕ) → Ptr → Option (ℕ → ℕ)
urldecode_at rounds f (at i) = urldecode rounds f i i false
urldecode_at rounds f (literal s) = some f

-- the bytes in front of the NUL; `strlen` is their number
unfoldable pub cstring : ℕ → (ℕ → ℕ) → ℕ → Option Bytes
cstring zero f i = none
cstring (suc rounds) f i = elim (f i == 0) [
  | true ↦ some []
  | false ↦ elim (cstring rounds f (i + 1)) [ none ↦ none | some s ↦ some (f i ∷ s) ]
]

unfoldable pub cstring_at : ℕ → (ℕ → ℕ) → Ptr → Option Bytes
cstring_at rounds f (at i) = cstring rounds f i
cstring_at rounds f (literal s) = some s

abbrev pub csp_key : Bytes
csp_key = codes "_csp_key"

-- The end of one variable: with `keep_session` the variable `_csp_key` becomes `pSession`, the others
-- are appended to `varList` with their lengths.
unfoldable pub push_var : Bool → Ptr → Ptr → Bytes → Bytes → HttpHeader → HttpHeader
push_var keep_session name value name_text value_text h =
    if keep_session && eq_bytes name_text csp_key
    then record h { p_session = some value }
    else record h {
      var_list =
          h.var_list
          ++ record {
            name = name;
            name_length = length name_text;
            value = value;
            value_length = length value_text;
          }
            ∷ [];
    }

-- `add_vars(key,value)`
unfoldable pub add_vars : Bytes → Bytes → HttpHeader → HttpHeader
add_vars key value h = push_var true (literal key) (literal value) key value h

-- `urldecode(tmp.value,tmp.value)` and what follows it
unfoldable pub end_var : ℕ → Bool → Ptr → Ptr → HttpHeader → Option HttpHeader
end_var rounds keep_session name value h = do
  f ← urldecode_at rounds h.memory value
  name_text ← cstring_at rounds f name
  value_text ← cstring_at rounds f value
  some (push_var keep_session name value name_text value_text (record h { memory = f }))

-- `pBuf`, `tmp.name` and `tmp.value` in the loop over a form
pub record FormState : Type 0 where
  pub header : HttpHeader
  pub p_buf : ℕ
  pub name : ℕ
  pub value : Ptr

-- `if(*pBuf=='=')`
unfoldable pub at_equals : ℕ → FormState → Option FormState
at_equals rounds t =
    if t.header.memory t.p_buf == b'='
    then (do
      f ← urldecode_at rounds (store t.p_buf 0 t.header.memory) (at t.name)
      some (record t {
        header = record t.header { memory = f };
        p_buf = t.p_buf + 1;
        value = at (t.p_buf + 1);
      }))
    else some t

-- `if(*pBuf=='&')`
unfoldable pub at_ampersand : ℕ → Bool → FormState → Option FormState
at_ampersand rounds keep_session t =
    if t.header.memory t.p_buf == b'&'
    then (do
      h ←
          end_var rounds keep_session (at t.name) t.value
            (record t.header { memory = store t.p_buf 0 t.header.memory })
      some (record t { header = h; p_buf = t.p_buf + 1; name = t.p_buf + 1 }))
    else some t

-- the body of the loop, with the `++pBuf` at its end
unfoldable pub form_round : ℕ → Bool → FormState → Option FormState
form_round rounds keep_session t = do
  u ← at_equals rounds t
  v ← at_ampersand rounds keep_session u
  some (record v { p_buf = v.p_buf + 1 })

-- `pBuf<pEnd`, where there is such a test
abbrev pub in_front_of : ℕ → Option ℕ → Bool
in_front_of i none = true
in_front_of i (some p_end) = ltb i p_end

-- `while(*pBuf!=0 && pBuf<pEnd)`, then the last variable; `left` bounds the rounds
unfoldable pub form_loop : ℕ → ℕ → Bool → Bool → Option ℕ → FormState → Option HttpHeader
form_loop zero rounds inside last p_end t = none
form_loop (suc left) rounds inside last p_end t =
    let more = not (t.header.memory t.p_buf == 0) && in_front_of t.p_buf p_end in
    elim more [
      | false ↦ end_var rounds last (at t.name) t.value t.header
      | true ↦ elim (form_round rounds inside t) [
        | none ↦ none
        | some u ↦ form_loop left rounds inside last p_end u
      ]
    ]

-- `decode_post(pBuf,length)`: only the last variable may be the session.
unfoldable pub decode_post : ℕ → ℕ → ℕ → HttpHeader → Option HttpHeader
decode_post rounds p_buf size h =
    form_loop (size + 1) rounds false true (some (p_buf + size))
      (record { header = h; p_buf = p_buf; name = p_buf; value = literal [] })

abbrev pub is_slash : ℕ → Bool
is_slash c = (c == b'/') || (c == b'\\')

-- The loops of `decode_url` that only move `pBuf` or `pUri` to the right, and those that move
-- `pUriEnd` to the left, which end by themselves.
unfoldable pub skip_slashes : ℕ → (ℕ → ℕ) → ℕ → Option ℕ
skip_slashes zero f i = none
skip_slashes (suc rounds) f i =
    let rest = skip_slashes rounds f (i + 1) in if is_slash (f i) then rest else some i

-- `while(*(pBuf++)!=0 && (...)) *pBuf=' '`: the test is on the next character.
unfoldable pub blank_dots : ℕ → (ℕ → ℕ) → ℕ → Option ((ℕ → ℕ) × ℕ)
blank_dots zero f i = none
blank_dots (suc rounds) f i =
    let rest = blank_dots rounds (store (i + 1) b' ' f) (i + 1) in
    if not (f i == 0) && ((f (i + 1) == b'.') || is_slash (f (i + 1)))
    then rest
    else some (f, i + 1)

-- one round of `while(*pBuf!=0 && *pBuf!='?')`, in front of its `pBuf++`
unfoldable pub clean_char : ℕ → (ℕ → ℕ) → ℕ → Option ((ℕ → ℕ) × ℕ)
clean_char rounds f i =
    let g = if f i == b'\\' then store i b'/' f else f in
    if g i == b'.' then blank_dots rounds g i else some (g, i)

unfoldable pub clean_path : ℕ → ℕ → (ℕ → ℕ) → ℕ → Option ((ℕ → ℕ) × ℕ)
clean_path zero rounds f i = none
clean_path (suc left) rounds f i = elim ((f i == 0) || (f i == b'?')) [
  | true ↦ some (f, i)
  | false ↦ elim (clean_char rounds f i) [
    | none ↦ none
    | some (g, j) ↦ clean_path left rounds g (j + 1)
  ]
]

unfoldable pub skip_blanks : ℕ → (ℕ → ℕ) → ℕ → Option ℕ
skip_blanks zero f i = none
skip_blanks (suc rounds) f i =
    let rest = skip_blanks rounds f (i + 1) in
    if (f i == b' ') || (f i == b'/') then rest else some i

unfoldable pub back_over_nul : ℕ → (ℕ → ℕ) → ℕ → ℕ
back_over_nul p_uri f zero = zero
back_over_nul p_uri f (suc i) =
    let rest = back_over_nul p_uri f i in
    if ltb p_uri (suc i) && (f (suc i) == 0) then rest else suc i

unfoldable pub trim_blanks : ℕ → (ℕ → ℕ) → ℕ → ℕ → ℕ
trim_blanks p_uri f zero = f
trim_blanks p_uri f (suc i) =
    let rest = trim_blanks p_uri (store (suc i) 0 f) i in
    if ltb p_uri (suc i) && (f (suc i) == b' ') then rest else f

-- `decode_url` from the `?` at `end` on: the path is trimmed and decoded, then the form behind it. The
-- form has no end but its NUL, and `limit` bounds its loop.
unfoldable pub decode_query : ℕ → (ℕ → ℕ) → ℕ → ℕ → HttpHeader → Option HttpHeader
decode_query rounds f p_uri end h = do
  let g = store end 0 f
  start ← skip_blanks rounds g p_uri
  let trimmed = trim_blanks start g (back_over_nul start g end)
  decoded ← urldecode rounds trimmed start start false
  form_loop rounds rounds true true none (record {
    header = record h { memory = decoded; p_uri = some (at start) };
    p_buf = end + 1;
    name = end + 1;
    value = literal [];
  })

-- `decode_url(pBuf)`, where `none` is NULL
unfoldable pub decode_url : ℕ → Option ℕ → HttpHeader → Option HttpHeader
decode_url rounds none h = some (record h { p_uri = some (literal []) })
decode_url rounds (some p_buf) h = do
  start ← skip_slashes rounds h.memory p_buf
  after ← clean_path rounds rounds h.memory start
  (if after.0 after.1 == b'?'
      then decode_query rounds after.0 start after.1 h
      else some (record h { memory = after.0; p_uri = some (at start) }))

-- `query_val(name)` of `http_conn`, `some none` for NULL: a variable without a value ends the search.
unfoldable pub query_vars : ℕ → (ℕ → ℕ) → Bytes → List Vars → Option (Option Ptr)
query_vars rounds f name [] = some none
query_vars rounds f name (it ∷ vars) =
    if it.value_length == 0 then some none else elim (cstring_at rounds f it.name) [
      | none ↦ none
      | some text ↦
          if eq_bytes text name then some (some it.value) else query_vars rounds f name vars
    ]

abbrev pub query_val : ℕ → Bytes → HttpHeader → Option (Option Ptr)
query_val rounds name h = query_vars rounds h.memory name h.var_list
