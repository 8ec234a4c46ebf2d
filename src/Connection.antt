-- ===== src/Connection.antt =====
-- The receiving side of `http_conn` of LigSP/LigCommon/lig_httpd.cpp: `parse_header` and `read_client`.
-- What `recv` delivers and what `atoi` makes of a text are arguments. `none` is a loop over a text that
-- does not end within the rounds given.
mod Tests
pub mod Complete
use sq_sp.Prelude.{
  ℕ, zero, suc, ◌+◌, ◌-◌, ◌*◌, Bool, true, false, not, ◌&&◌, ◌||◌, List, [], ◌∷◌, ◌++◌, Option,
  none, some, ◌==◌, ltb, leb, length, drop, if◌then◌else◌, Bytes, codes, ℤ, pos, negsuc, minus_one,
  eq_ℤ, ◌>>=◌,
}
use sq_sp.PageBuf.{PageBuf, store, resize, read_socket}
use sq_sp.PageBuf.Size.{slice}
use sq_sp.Text.{ncasecmp, nocase_find_str}
use sq_sp.Download.{LinkStat, read_finished, conn_finished}
use sq_sp.HttpHeader.{Ptr, at, HttpHeader, decode_url, decode_post, cstring}
use sq_sp.Upload.{MimeHeader, scan, http_mime_request}
use sq_sp.Params.{Action, action_get, action_post, action_head, Request, header_of, with_header}

-- `header_length` is 0 for -1, which the code tells apart by `>0` alone; `p_header` has the headers but
-- the content type, which is in `request`; `mime_table` is the global table of MIME headers.
pub record Receiving : Type 0 where
  pub request : Request
  pub flag_header_ok : Bool
  pub header_length : ℕ
  pub p_header : ℕ → Option ℕ
  pub mime_table : List MimeHeader
  pub time_stamp : ℕ

-- `MAX_POSTLENGTH`, as it is set at first
abbrev pub max_postlength : ℕ
max_postlength = 2097152

-- What the code takes from its surroundings: the heap, `atoi`, the clock and the bound for loops.
pub record Machine : Type 0 where
  pub junk : ℕ → ℕ
  pub atoi : Bytes → ℤ
  pub clock : ℕ
  pub rounds : ℕ

-- `\r\n\r\n` or `\n\n` at `i`: the length of the header, where the second test overrides the first
unfoldable pub blank_at : (ℕ → ℕ) → ℕ → Option ℕ
blank_at f i =
    if (f i == 10) && (f (i + 1) == 10)
    then some (i + 2)
    else if (f i == 13) && (f (i + 1) == 10) && (f (i + 2) == 13) && (f (i + 3) == 10)
    then some (i + 4)
    else none

-- the first such place among `left` from `i` on, with the length
unfoldable pub find_blank : (ℕ → ℕ) → ℕ → ℕ → Option (ℕ × ℕ)
find_blank f i zero = none
find_blank f i (suc left) = elim (blank_at f i) [
  | some n ↦ some (i, n)
  | none ↦ find_blank f (i + 1) left
]

-- `for(;j<i;++j) if(p_buf[j]=='\n'){p_buf[j]=0;break;}`
unfoldable pub cut_line : (ℕ → ℕ) → ℕ → ℕ → (ℕ → ℕ) × ℕ
cut_line f j zero = (f, j)
cut_line f j (suc left) =
    let rest = cut_line f (j + 1) left in if f j == 10 then (store j 0 f, j) else rest

abbrev pub starts_with : (ℕ → ℕ) → ℕ → Bytes → Bool
starts_with f i text = ncasecmp text (slice f i (length text))

unfoldable pub method_of : (ℕ → ℕ) → Action → Action
method_of f old =
    if starts_with f 0 (codes "HEAD")
    then action_head
    else if starts_with f 0 (codes "POST")
    then action_post
    else if starts_with f 0 (codes "GET")
    then action_get
    else old

abbrev pub in_word : ℕ → Bool
in_word c = not ((c == 32) || (c == 0))

abbrev pub is_blank : ℕ → Bool
is_blank c = c == 32

-- the request line: the URI between blanks, ended by a NUL and decoded
unfoldable pub request_line : ℕ → Request → Option Request
request_line rounds r = do
  method_end ← scan rounds in_word r.in_buf.p_buf 0
  uri ← scan rounds is_blank r.in_buf.p_buf method_end
  uri_end ← scan rounds in_word r.in_buf.p_buf uri
  let cut = record r { in_buf = record r.in_buf { p_buf = store uri_end 0 r.in_buf.p_buf } }
  h ← decode_url rounds (some uri) (header_of cut)
  some (with_header h cut)

-- `pTagHead`
abbrev pub tag_head : List Bytes
tag_head =
    codes "Connection: "
    ∷ codes "User-Agent: "
    ∷ codes "Content-Length: "
    ∷ codes "Content-Type: "
    ∷ codes "If-Modified-Since: "
    ∷ codes "Authorization: "
    ∷ codes "Referer: "
    ∷ codes "Cookie: "
    ∷ codes "Location: "
    ∷ codes "Status: "
    ∷ codes "Range: "
    ∷ []

-- the header that a line at `line` begins with: its number and the address of its value
unfoldable pub tag_of : ℕ → (ℕ → ℕ) → ℕ → List Bytes → Option (ℕ × ℕ)
tag_of it f line [] = none
tag_of it f line (tag ∷ tags) =
    let rest = tag_of (it + 1) f line tags in
    if starts_with f line tag then some (it, line + length tag) else rest

-- `pHeader[it]=...`, with the number that `atoi` reads for the content length
unfoldable pub set_header : Machine → ℕ → ℕ → Receiving → Option Receiving
set_header e it value c =
    if it == 2
    then (do
      text ← cstring e.rounds c.request.in_buf.p_buf value
      some (record c {
        request = record c.request { post_length = e.atoi text };
        p_header = λ i. if i == it then some value else c.p_header i;
      }))
    else if it == 3
    then some (record c { request = record c.request { content_type = some value } })
    else some (record c { p_header = λ i. if i == it then some value else c.p_header i })

abbrev pub set_memory : (ℕ → ℕ) → Receiving → Receiving
set_memory f c = record c {
  request = record c.request { in_buf = record c.request.in_buf { p_buf = f } };
}

-- `for(;j<header_length+4;++j)`: each `\r` becomes a NUL and ends the line at `line`
unfoldable pub header_lines : Machine → ℕ → ℕ → ℕ → Receiving → Option Receiving
header_lines e j line zero c = some c
header_lines e j line (suc left) c =
    let f = c.request.in_buf.p_buf in
    let cut = set_memory (store j 0 f) c in
    let tag = tag_of 0 (store j 0 f) line tag_head in
    if f j == 13
    then (do
      c' ← elim tag [ none ↦ some cut | some (it, value) ↦ set_header e it value cut ]
      header_lines e (j + 1) (j + 2) left c')
    else header_lines e (j + 1) line left c

-- `ncasecmp(text,pHeader[ID_Content_Type])`, where there is one
unfoldable pub type_is : Request → Bytes → Bool
type_is r text = elim r.content_type [ none ↦ false | some p ↦ starts_with r.in_buf.p_buf p text ]

-- the header that ends at `i` and is `size` bytes long
unfoldable pub read_header : Machine → ℕ → ℕ → Receiving → Option Receiving
read_header e i size c = do
  let line = cut_line c.request.in_buf.p_buf 0 i
  let cut = set_memory line.0 c
  r ←
      request_line e.rounds
        (record cut.request { action = method_of line.0 c.request.action; post_data_offset = size })
  d ←
      header_lines e line.1 (line.1 + 1) (size + 4 - line.1)
        (record cut { request = r; header_length = size })
  some (record d {
    request = record d.request {
      flag_json_request =
          d.request.flag_json_request || type_is d.request (codes "application/jsonrequest");
    };
    flag_header_ok = true;
  })

-- `parse_header()`: without a blank line nothing but the flag changes.
unfoldable pub parse_header : Machine → Receiving → Option Receiving
parse_header e c =
    let d = record c { request = record c.request { flag_json_request = false } } in
    elim (find_blank c.request.in_buf.p_buf 0 (c.request.in_buf.buf_curr - 3)) [
      | none ↦ some d
      | some (i, size) ↦ read_header e i size d
    ]

abbrev pub with_link : LinkStat → Receiving → Receiving
with_link l c = record c { request = record c.request { link_stat = l } }

-- the text between the content type's 20th character and its end, behind `boundary=`
unfoldable pub boundary_at : ℕ → Request → Option (Option Bytes)
boundary_at rounds r = elim r.content_type [
  | none ↦ some none
  | some p ↦ do
    text ← cstring rounds r.in_buf.p_buf p
    some (nocase_find_str (drop 20 text) (codes "boundary="))
]

-- the whole body: an upload, a form, or a request in JSON that is left as it is
unfoldable pub read_body : Machine → ℕ → Receiving → Option Receiving
read_body e size c =
    let uploading = record c { request = record c.request { flag_file_upload = true } } in
    if type_is c.request (codes "multipart/form-data")
    then (do
      found ← boundary_at e.rounds c.request
      elim found [
        | none ↦ some uploading
        | some boundary ↦ do
          t ←
              http_mime_request e.rounds c.request.in_buf.p_buf boundary c.request.post_data_offset
                size c.mime_table c.request.mlist
          some (record uploading {
            request = record uploading.request { mlist = t.1.mime_list };
            mime_table = t.1.headers;
          })
      ])
    else if c.request.flag_json_request
    then some c
    else (do
      h ← decode_post e.rounds c.request.post_data_offset size (header_of c.request)
      some (record c { request = with_header h c.request }))

-- `if(inBuf.buf_size<post_length) inBuf.resize(post_length)`, which does not fail
unfoldable pub grow_for : Machine → ℕ → Receiving → Receiving
grow_for e size c =
    if ltb c.request.in_buf.buf_size size
    then record c {
      request = record c.request { in_buf = (resize e.junk (some size) c.request.in_buf).1 };
    }
    else c

-- `time_stamp=global_polling_clock; return true;`
abbrev pub still_reading : Machine → Receiving → Option (Bool × Receiving)
still_reading e c = some (true, record c { time_stamp = e.clock })

-- a request with a body of `size` bytes
unfoldable pub await_body : Machine → ℕ → Receiving → Option (Bool × Receiving)
await_body e size c =
    let d = grow_for e size c in
    if ltb max_postlength size
    then some (false, with_link conn_finished d)
    else if d.request.in_buf.buf_curr == size + d.header_length
    then (do done ← read_body e size d; some (false, with_link read_finished done))
    else still_reading e d

abbrev pub is_posted : Action → Bool
is_posted action_post = true
is_posted _ = false

-- `read_client` behind the header. Of the negative numbers that `atoi` may make of a content length only
-- -1 is refused; with another one the body is never complete, for the buffer holds the whole header.
unfoldable pub after_header : Machine → Receiving → Option (Bool × Receiving)
after_header e c =
    if is_posted c.request.action
    then elim c.request.post_length [
      | pos size ↦ await_body e size c
      | negsuc n ↦ if n == 0 then some (false, with_link conn_finished c) else still_reading e c
    ]
    else some (false, with_link read_finished c)

-- `read_client()`, where `received` is what `recv` delivered
unfoldable pub read_client : Machine → Option Bytes → Receiving → Option (Bool × Receiving)
read_client e received c =
    let (ok, in_buf) = read_socket e.junk received c.request.in_buf in
    let d = record c { request = record c.request { in_buf = in_buf } } in
    let parsed = if c.flag_header_ok then some d else parse_header e d in
    if ok
    then elim parsed [
      | none ↦ none
      | some d' ↦ if d'.flag_header_ok then after_header e d' else still_reading e d'
    ]
    else some (false, with_link conn_finished d)
