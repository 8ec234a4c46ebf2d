-- ===== src/Fcgi.antt =====
-- `parse_fastcgi` of LigSP/LigCommon/lig_httpd.cpp: the records that a web server sends on one connection
-- are taken from `inBuf` and given to the request that they name. The sections of memory that a `resize`
-- or a new request finds, and the text of an error, are arguments.
mod Tests
pub mod Room
pub mod Records
pub mod Spec
pub mod Streams
pub mod Refinement
pub mod Stalls
use sq_sp.Prelude.{
  ℕ, zero, suc, ◌+◌, ◌-◌, ◌*◌, Bool, true, false, not, ◌&&◌, List, [], ◌∷◌, ◌++◌, Option, none,
  some, ◌==◌, ltb, length, drop, if◌then◌else◌, Bytes, codes, eq_bytes, ℤ, pos, negsuc, minus_one,
  ◌>>=◌,
}
use sq_sp.PageBuf.{PageBuf, init, copy_in, direct_write, read_socket}
use sq_sp.PageBuf.Size.{slice}
use sq_sp.Text.{nocase_find_str}
use sq_sp.Download.{LinkStat, read_ready, write_ready, read_finished, conn_finished}
use sq_sp.Register.{UrlMap, check_register}
use sq_sp.Upload.{MimeHeader, http_mime_request}
use sq_sp.HttpHeader.{Ptr, at, literal, cstring_at, decode_post}
use sq_sp.Params.{
  FcgiLinkStat, fgci_begin_request, fcgi_read_client, fcgi_read_finished, Action, action_unknown,
  action_post, Request, header_of, with_header, until_nul, get_fastcgi_params,
}

-- The connection to the web server with the table of its requests, `none` for NULL, the URLs that are
-- registered, the requests that were put into the queue of the scripts, and the global table of MIME
-- headers.
pub record FcgiServer : Type 0 where
  pub in_buf : PageBuf
  pub link_stat : LinkStat
  pub request_table : ℕ → Option Request
  pub registered : List UrlMap
  pub excuting : List ℕ
  pub mime_table : List MimeHeader

-- `Request_Table[0xffff]`
abbrev pub table_size : ℕ
table_size = 65535

abbrev pub fcgi_header_len : ℕ
fcgi_header_len = 8

-- `init(ps)` of a record of the pool, which keeps what it does not set
unfoldable pub init_request : Request → Request
init_request held = record held {
  in_buf = init held.in_buf.p_buf;
  out_buf = init held.out_buf.p_buf;
  link_stat = read_ready;
  flag_json_request = false;
  flag_file_upload = false;
  action = action_unknown;
  var_list = [];
  p_session = none;
  content_type = none;
  post_length = minus_one;
  url_map = none;
  mlist = [];
}

-- The end of one round: the loop goes on, it returns, or it is lost in a loop over a text, behind the
-- array for a URL or behind the table.
pub data Step : Type 0 where
  next : FcgiServer → Step
  stop : Bool → FcgiServer → Step
  lost : Step

abbrev pub set_request : ℕ → Request → FcgiServer → FcgiServer
set_request id r s = record s { request_table = λ i. if i == id then some r else s.request_table i }

-- `inBuf.buf_start+=recordLength`
abbrev pub consume : ℕ → FcgiServer → FcgiServer
consume n s = record s { in_buf = record s.in_buf { buf_start = s.in_buf.buf_start + n } }

-- `link_stat=conn_finished; inBuf.buf_curr=0; inBuf.buf_start=0; return false;`
abbrev pub refuse : FcgiServer → Step
refuse s = stop false (record s {
  link_stat = conn_finished;
  in_buf = record s.in_buf { buf_curr = 0; buf_start = 0 };
})

-- the two ways in which a record of the loop reads its request
abbrev pub with_entry : FcgiServer → ℕ → (Option Request → Step) → Step
with_entry s id f = if ltb id table_size then f (s.request_table id) else lost

-- `case FCGI_BEGIN_REQUEST`, with the role and the flags of the record
unfoldable pub begin_request : (ℕ → Request) → ℕ → ℕ → ℕ → ℕ → FcgiServer → Step
begin_request pool id role flags record_length s = with_entry s id (λ entry. elim entry [
  | some r ↦ stop false (record s { link_stat = conn_finished })
  | none ↦
      if role == 1
      then next (
          consume record_length (
            set_request id
              (record (init_request (pool id)) {
                socket_id = id;
                para_length = 0;
                flag_fcgi = fgci_begin_request;
                flag_fcgi_close_state = not (flags == 1);
              })
              s))
      else stop false (record s { link_stat = conn_finished })
])

-- the bytes of `"\0x00\0x00\0x00\0x00\0x00"` that are written: `\0` is followed by letters
abbrev pub separator : Bytes
separator = 0 ∷ codes "x00"

-- the end of the variables: the separator, the variables, the place where the form begins
unfoldable pub end_params : (ℕ → ℕ) → ℕ → Request → Option Request
end_params junk rounds r = do
  t ← get_fastcgi_params rounds (record r { in_buf = direct_write junk separator r.in_buf })
  some (record t { post_data_offset = t.in_buf.buf_curr })

-- `case FCGI_PARAMS`
unfoldable pub params : (ℕ → ℕ) → ℕ → ℕ → Bytes → ℕ → FcgiServer → Step
params junk rounds id content record_length s = with_entry s id (λ entry. elim entry [
  | none ↦ refuse s
  | some r ↦
      let t = record r {
        flag_fcgi = fcgi_read_client;
        in_buf = direct_write junk content r.in_buf;
        para_length = r.para_length + length content;
      } in
      if length content == 0
      then elim (end_params junk rounds t) [
        | none ↦ lost
        | some t' ↦ next (consume record_length (set_request id t' s))
      ]
      else next (consume record_length (set_request id t s))
])

-- `boundary=` behind the first 20 characters of the content type, of which `fcgi_content_type_length`
-- are copied
unfoldable pub boundary_of : (ℕ → ℕ) → ℕ → ℕ → Option Bytes
boundary_of f content_type size =
    nocase_find_str (drop 20 (until_nul (slice f content_type size))) (codes "boundary=")

abbrev pub is_post : Action → Bool
is_post action_post = true
is_post _ = false

-- `!flag_json_request && action==&action_POST && post_length>0`, and the form
unfoldable pub post_form : ℕ → Request → Option Request
post_form rounds r = elim r.post_length [
  | negsuc n ↦ some r
  | pos n ↦
      if not r.flag_json_request && is_post r.action && ltb 0 n
      then (do h ← decode_post rounds r.post_data_offset n (header_of r); some (with_header h r))
      else some r
]

-- `send_http_msg(404,...)` and `link_stat=write_ready`; the text is an argument
abbrev pub send_not_found : Bytes → Request → Request
send_not_found text r = record r {
  out_buf = record r.out_buf { p_buf = copy_in text 0 r.out_buf.p_buf; buf_curr = length text };
  link_stat = write_ready;
}

-- The script that is registered for the URL gets the request, or the error is sent. The server then has
-- something to do.
unfoldable pub answer : (Request → Bytes) → ℕ → ℕ → Request → FcgiServer → Step
answer message rounds id r s = elim r.p_uri [
  | none ↦ lost
  | some p ↦ elim (cstring_at rounds r.in_buf.p_buf p) [
    | none ↦ lost
    | some uri ↦ elim (check_register uri s.registered) [
      | none ↦ lost
      | some none ↦ next (
          set_request id (record (send_not_found (message r) r) { flag_fcgi = fcgi_read_finished })
            (record s { link_stat = read_finished }))
      | some (some u) ↦ next (
          set_request id (record r { url_map = some u; flag_fcgi = fcgi_read_finished })
            (record s { link_stat = read_finished; excuting = s.excuting ++ id ∷ [] }))
    ]
  ]
]

-- `int` as a size: below 0 nothing is read
abbrev pub size_of : ℤ → ℕ
size_of (pos n) = n
size_of (negsuc n) = 0

-- `http_mime_request` on what was posted
unfoldable pub read_upload : (Request → Bytes) → ℕ → ℕ → Bytes → Request → FcgiServer → Step
read_upload message rounds id boundary r s =
    elim (http_mime_request rounds r.in_buf.p_buf boundary r.post_data_offset
      (size_of r.post_length) s.mime_table r.mlist) [
        | none ↦ lost
        | some (ok, t) ↦
            answer message rounds id (record r { mlist = t.mime_list })
              (record s { mime_table = t.headers })
      ]

-- The end of `FCGI_STDIN`; a file upload without a content type is not answered.
unfoldable pub end_stdin : (Request → Bytes) → ℕ → ℕ → Request → FcgiServer → Step
end_stdin message rounds id r s =
    let t = record r { link_stat = read_finished } in
    if r.flag_file_upload
    then elim r.content_type [
      | none ↦ next (set_request id t s)
      | some p ↦ elim (boundary_of r.in_buf.p_buf p r.fcgi_content_type_length) [
        | none ↦ answer message rounds id t s
        | some boundary ↦ read_upload message rounds id boundary t s
      ]
    ]
    else elim (post_form rounds t) [ none ↦ lost | some t' ↦ answer message rounds id t' s ]

abbrev pub is_reading : FcgiLinkStat → Bool
is_reading fcgi_read_client = true
is_reading _ = false

-- `case FCGI_STDIN`
unfoldable pub stdin : (ℕ → ℕ) → (Request → Bytes) → ℕ → ℕ → Bytes → ℕ → FcgiServer → Step
stdin junk message rounds id content record_length s = with_entry s id (λ entry. elim entry [
  | none ↦ refuse s
  | some r ↦
      if length content == 0
      then (if is_reading r.flag_fcgi
          then end_stdin message rounds id r (consume record_length s)
          else next (consume record_length s))
      else next (
          consume record_length (
            set_request id
              (record r {
                in_buf = direct_write junk content r.in_buf;
                flag_fcgi = fcgi_read_client;
              })
              s))
])

-- What the loop takes from its surroundings: the heap, the pool, the texts of errors, and
-- the bound for loops over texts.
pub record Surroundings : Type 0 where
  pub junk : ℕ → ℕ
  pub pool : ℕ → Request
  pub message : Request → Bytes
  pub rounds : ℕ

-- the byte `k` of the record at `buf_start`
abbrev pub byte_of : FcgiServer → ℕ → ℕ
byte_of s k = s.in_buf.p_buf (s.in_buf.buf_start + k)

-- the `switch`: the types that it names and does not handle, and all others, leave the record
unfoldable pub dispatch : Surroundings → ℕ → ℕ → ℕ → ℕ → FcgiServer → Step
dispatch e type_of id content_length record_length s =
    let content = slice s.in_buf.p_buf (s.in_buf.buf_start + fcgi_header_len) content_length in
    if type_of == 1
    then begin_request e.pool id (byte_of s 8 * 256 + byte_of s 9) (byte_of s 10) record_length s
    else if type_of == 4
    then params e.junk e.rounds id content record_length s
    else if type_of == 5
    then stdin e.junk e.message e.rounds id content record_length s
    else next s

-- the body of `while(inBuf.buf_start<inBuf.buf_curr)`
unfoldable pub fcgi_round : Surroundings → FcgiServer → Step
fcgi_round e s =
    if byte_of s 0 == 1
    then (let content_length = byte_of s 4 * 256 + byte_of s 5 in
        let record_length = content_length + byte_of s 6 + fcgi_header_len in
        let id = byte_of s 2 * 256 + byte_of s 3 in
        if ltb (s.in_buf.buf_curr - s.in_buf.buf_start) record_length
        then stop false (record s { link_stat = read_ready })
        else dispatch e (byte_of s 1) id content_length record_length s)
    else stop false (record s { link_stat = conn_finished })

-- the loop; `none` if it has not returned after the rounds given
unfoldable pub fcgi_loop : ℕ → Surroundings → FcgiServer → Option (Bool × FcgiServer)
fcgi_loop zero e s = none
fcgi_loop (suc left) e s = elim (ltb s.in_buf.buf_start s.in_buf.buf_curr) [
  | false ↦ some (true, record s { in_buf = record s.in_buf { buf_curr = 0; buf_start = 0 } })
  | true ↦ elim (fcgi_round e s) [
    | next t ↦ fcgi_loop left e t
    | stop ok t ↦ some (ok, t)
    | lost ↦ none
  ]
]

-- `parse_fastcgi()`
unfoldable pub parse_fastcgi : ℕ → Surroundings → FcgiServer → Option (Bool × FcgiServer)
parse_fastcgi left e s =
    if ltb (s.in_buf.buf_curr - s.in_buf.buf_start) fcgi_header_len
    then some (false, record s { link_stat = read_ready })
    else fcgi_loop left e s

-- `read_fcgi_server()`, where `received` is what `recv` delivered
unfoldable pub read_fcgi_server : ℕ → Surroundings → Option Bytes → FcgiServer → Option FcgiServer
read_fcgi_server left e received s =
    let (ok, in_buf) = read_socket e.junk received s.in_buf in
    let t = record s { in_buf = in_buf } in
    if ok
    then elim (parse_fastcgi left e t) [ none ↦ none | some (result, u) ↦ some u ]
    else some (record t { link_stat = conn_finished })
