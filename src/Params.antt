-- ===== src/Params.antt =====
-- A request that comes by FastCGI, and `get_fastcgi_params` of LigSP/LigCommon/lig_httpd.cpp, which
-- reads its variables from the pairs that the web server sent. `none` is a loop that does not end within
-- the rounds given, or a write through a pointer that was not set.
mod Tests
pub mod Lengths
pub mod Pairs
use sq_sp.Prelude.{
  ℕ, zero, suc, ◌+◌, ◌-◌, ◌*◌, ◌/◌, ◌%◌, ◌^◌, Bool, true, false, List, [], ◌∷◌, ◌++◌, Option, none,
  some, ◌==◌, ltb, length, if◌then◌else◌, Bytes, codes, ℤ, pos, negsuc, minus_one, ◌>>=◌,
}
use sq_sp.PageBuf.{PageBuf, store}
use sq_sp.PageBuf.Size.{slice}
use sq_sp.Text.{sp_str_cmp, my_atoi}
use sq_sp.Download.{LinkStat, read_ready}
use sq_sp.Upload.{MimeDataPair}
use sq_sp.Register.{UrlMap}
use sq_sp.HttpHeader.{Ptr, at, literal, Vars, HttpHeader, decode_url}

-- `fcgi_link_stat`
pub data FcgiLinkStat : Type 0 where
  fcgi_ready : FcgiLinkStat
  fgci_begin_request : FcgiLinkStat
  fcgi_read_client : FcgiLinkStat
  fcgi_read_finished : FcgiLinkStat
  fcgi_server_processing : FcgiLinkStat
  fcgi_server_processed : FcgiLinkStat
  fcgi_write_clinet : FcgiLinkStat
  fcgi_write_finished : FcgiLinkStat
  fcgi_close_connect : FcgiLinkStat

-- the member function that `action` points to
pub data Action : Type 0 where
  action_unknown : Action
  action_get : Action
  action_post : Action
  action_head : Action

-- The fields of `http_conn` that reading a request changes; `content_type` is
-- `pHeader[ID_Content_Type]`, and the strings point into `inBuf`.
pub record Request : Type 0 where
  pub socket_id : ℕ
  pub in_buf : PageBuf
  pub out_buf : PageBuf
  pub link_stat : LinkStat
  pub flag_json_request : Bool
  pub flag_file_upload : Bool
  pub action : Action
  pub var_list : List Vars
  pub p_uri : Option Ptr
  pub p_session : Option Ptr
  pub content_type : Option ℕ
  pub post_data_offset : ℕ
  pub post_length : ℤ
  pub fcgi_content_type_length : ℕ
  pub flag_fcgi : FcgiLinkStat
  pub flag_fcgi_close_state : Bool
  pub para_length : ℕ
  pub url_map : Option UrlMap
  pub mlist : List MimeDataPair

-- `header` with the memory of `inBuf`
abbrev pub header_of : Request → HttpHeader
header_of r = record {
  memory = r.in_buf.p_buf;
  var_list = r.var_list;
  p_uri = r.p_uri;
  p_session = r.p_session;
}

abbrev pub with_header : HttpHeader → Request → Request
with_header h r = record r {
  in_buf = record r.in_buf { p_buf = h.memory };
  var_list = h.var_list;
  p_uri = h.p_uri;
  p_session = h.p_session;
}

-- the length at `buf`, in one byte or in four, and the address behind it
unfoldable pub read_length : (ℕ → ℕ) → ℕ → ℕ × ℕ
read_length f buf = if f buf / 2 ^ 7 == 0 then (f buf, buf + 1) else (
  f buf % 2 ^ 7 * 2 ^ 24 + f (buf + 1) * 2 ^ 16 + f (buf + 2) * 2 ^ 8 + f (buf + 3),
  buf + 4,
)

-- `tmp`, with addresses for its pointers
pub record Pair : Type 0 where
  pub name : ℕ
  pub name_length : ℕ
  pub value : ℕ
  pub value_length : ℕ

-- the pair at `buf`, and the address behind it
unfoldable pub read_pair : (ℕ → ℕ) → ℕ → Pair × ℕ
read_pair f buf =
    let (name_length, buf_1) = read_length f buf in
    let (value_length, buf_2) = read_length f buf_1 in
    (
      record {
        name = buf_2;
        name_length = name_length;
        value = buf_2 + name_length;
        value_length = value_length;
      },
      buf_2 + name_length + value_length,
    )

-- the request with `tmpUri.value_length` and `tmpSession.value_length`
pub record Parsing : Type 0 where
  pub request : Request
  pub uri_length : ℕ
  pub session_length : ℕ

abbrev pub name_is : (ℕ → ℕ) → Pair → Bytes → Bool
name_is f p text = sp_str_cmp (slice f p.name p.name_length) text

abbrev pub value_is : (ℕ → ℕ) → Pair → ℕ → Bytes → Bool
value_is f p n text = sp_str_cmp (slice f p.value n) text

-- the three tests on the value of REQUEST_METHOD, of which the last that fits counts
unfoldable pub request_method : (ℕ → ℕ) → Pair → Action → Action
request_method f p old =
    if value_is f p p.value_length (codes "HEAD")
    then action_head
    else if value_is f p p.value_length (codes "POST")
    then action_post
    else if value_is f p p.value_length (codes "GET")
    then action_get
    else old

-- the bytes in front of a NUL, where `my_atoi` stops
abbrev pub until_nul : Bytes → Bytes
until_nul [] = []
until_nul (c ∷ cs) = if c == 0 then [] else c ∷ until_nul cs

unfoldable pub content_length : (ℕ → ℕ) → Pair → Request → Option Request
content_length f p r =
    if name_is f p (codes "CONTENT_LENGTH")
    then (do
      n ← my_atoi p.value_length 0 (until_nul (slice f p.value p.value_length)) p.value_length
      some (record r { post_length = pos n }))
    else some r

-- the two tests on the value of CONTENT_TYPE, on 23 and 19 bytes of it
unfoldable pub content_type_of : (ℕ → ℕ) → Pair → Request → Request
content_type_of f p r =
    if name_is f p (codes "CONTENT_TYPE")
    then (let s =
          if value_is f p 23 (codes "application/jsonrequest")
          then record r { flag_json_request = true }
          else r in
        if value_is f p 19 (codes "multipart/form-data")
        then record s {
          flag_file_upload = true;
          content_type = some p.value;
          fcgi_content_type_length = p.value_length;
        }
        else s)
    else r

-- `header.varList.push_back(tmp)`
abbrev pub push_pair : Pair → Request → Request
push_pair p r = record r {
  var_list =
      r.var_list
      ++ record {
        name = at p.name;
        name_length = p.name_length;
        value = at p.value;
        value_length = p.value_length;
      }
        ∷ [];
}

-- the body of the loop behind the reading of a pair
unfoldable pub take_pair : (ℕ → ℕ) → Pair → Parsing → Option Parsing
take_pair f p s =
    if name_is f p (codes "REQUEST_METHOD")
    then some
        (record s { request = record s.request { action = request_method f p s.request.action } })
    else if name_is f p (codes "REQUEST_URI")
    then some (record s {
      request = record s.request { p_uri = some (at (p.value + 1)) };
      uri_length = p.value_length;
    })
    else (do
      r ← content_length f p s.request
      let r' = content_type_of f p r
      (if name_is f p (codes "_csp_key")
          then some (record s {
            request = record r' { p_session = some (at p.value) };
            session_length = p.value_length;
          })
          else some (record s { request = push_pair p r' })))

-- `while(buf!=bufend)`
unfoldable pub read_pairs_from : ℕ → (ℕ → ℕ) → ℕ → ℕ → Parsing → Option Parsing
read_pairs_from zero f buf bufend s = if buf == bufend then some s else none
read_pairs_from (suc rounds) f buf bufend s = elim (buf == bufend) [
  | true ↦ some s
  | false ↦ elim (take_pair f (read_pair f buf).0 s) [
    | none ↦ none
    | some s' ↦ read_pairs_from rounds f (read_pair f buf).1 bufend s'
  ]
]

-- `if(length>0) header.pUri[i]=0`
unfoldable pub end_uri : ℕ → ℕ → Request → Option Request
end_uri size i r = if size == 0 then some r else elim r.p_uri [
  | some (at p) ↦
      some (record r { in_buf = record r.in_buf { p_buf = store (p + i) 0 r.in_buf.p_buf } })
  | some (literal s) ↦ none
  | none ↦ none
]

-- `decode_url(pUri)`; a text elsewhere is the empty one
unfoldable pub decode_uri : ℕ → Request → Option Request
decode_uri rounds r = elim r.p_uri [
  | none ↦ do h ← decode_url rounds none (header_of r); some (with_header h r)
  | some (at p) ↦ do h ← decode_url rounds (some p) (header_of r); some (with_header h r)
  | some (literal s) ↦ some r
]

-- `get_fastcgi_params()`: each pair has at least two bytes; `rounds` bounds the loops of `decode_url`.
-- Both lengths end the URI, also that of the session.
unfoldable pub get_fastcgi_params : ℕ → Request → Option Request
get_fastcgi_params rounds r = do
  s ←
      read_pairs_from r.para_length r.in_buf.p_buf 0 r.para_length
        (record { request = r; uri_length = 0; session_length = 0 })
  uri_ended ← end_uri s.uri_length (s.uri_length - 1) s.request
  session_ended ← end_uri s.session_length s.session_length uri_ended
  decode_uri rounds session_ended
