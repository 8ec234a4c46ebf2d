-- ===== src/Params/Tests.antt =====
-- Variables of FastCGI requests, and the witnesses of the properties of their loop.
use sq_sp.Prelude.{
  ℕ, ◌+◌, ◌≡◌, refl, false, Option, none, some, [], ◌∷◌, List, Bytes, codes, get_or, length, arith,
  minus_one, map,
}
use sq_sp.PageBuf.{PageBuf}
use sq_sp.Text.{sp_str_cmp}
use sq_sp.Download.{read_ready}
use sq_sp.HttpHeader.{
  at, literal, cstring, decode_url, decode_query, skip_slashes, blank_dots, clean_char, clean_path,
}
use sq_sp.Params.{
  Request, Parsing, action_unknown, fgci_begin_request, read_length, read_pair, request_method,
  content_length, content_type_of, take_pair, read_pairs_from, end_uri, decode_uri,
  get_fastcgi_params,
}
use sq_sp.Params.Lengths.{encode_length}
use sq_sp.Params.Pairs.{params_text, take_all, layout, texts_of, read_pairs_from-take_all}

abbrev buffer : Bytes → PageBuf
buffer text = record {
  p_buf = λ i. get_or text i 0;
  buf_size = 32768;
  buf_curr = length text;
  buf_start = 0;
  resize_times = 0;
}

abbrev request : Bytes → Request
request text = record {
  socket_id = 1;
  in_buf = buffer text;
  out_buf = buffer [];
  link_stat = read_ready;
  flag_json_request = false;
  flag_file_upload = false;
  action = action_unknown;
  var_list = [];
  p_uri = none;
  p_session = none;
  content_type = none;
  post_data_offset = 0;
  post_length = minus_one;
  fcgi_content_type_length = 0;
  flag_fcgi = fgci_begin_request;
  flag_fcgi_close_state = false;
  para_length = length text;
  url_map = none;
  mlist = [];
}

abbrev uri_text : Option Request → Option Bytes
uri_text none = none
uri_text (some r) = elim r.p_uri [
  | none ↦ none
  | some (at i) ↦ cstring 64 r.in_buf.p_buf i
  | some (literal s) ↦ some s
]

abbrev pairs : List (Bytes × Bytes)
pairs =
    (codes "REQUEST_METHOD", codes "GET")
    ∷ (codes "REQUEST_URI", codes "/page.html")
    ∷ (codes "HOST", codes "h")
    ∷ []

abbrev with_session : List (Bytes × Bytes)
with_session = (codes "REQUEST_URI", codes "/page.html") ∷ (codes "_csp_key", codes "k2") ∷ []

reads_uri :
    uri_text (get_fastcgi_params 64 (request (params_text pairs))) ≡ some (codes "page.html")
unfolding get_fastcgi_params read_pairs_from take_pair read_pair read_length encode_length
    sp_str_cmp request_method content_length content_type_of end_uri decode_uri decode_url
    decode_query skip_slashes clean_path clean_char blank_dots cstring
reads_uri = refl

-- The length of the session cuts the URI.
session_cuts_uri :
    uri_text (get_fastcgi_params 64 (request (params_text with_session))) ≡ some (codes "pa")
unfolding get_fastcgi_params read_pairs_from take_pair read_pair read_length encode_length
    sp_str_cmp request_method content_length content_type_of end_uri decode_uri decode_url
    decode_query skip_slashes clean_path clean_char blank_dots cstring
session_cuts_uri = refl

abbrev start : Parsing
start = record { request = request (params_text pairs); uri_length = 0; session_length = 0 }

abbrev memory : ℕ → ℕ
memory = start.request.in_buf.p_buf

read_pairs_from-take_all_example :
    (read_pairs_from (length (params_text pairs)) memory 0 (0 + length (params_text pairs)) start
      ≡ take_all memory (layout 0 pairs) start)
    × (map (texts_of memory) (layout 0 pairs) ≡ pairs)
unfolding encode_length
read_pairs_from-take_all_example =
    read_pairs_from-take_all pairs memory 0 start (ground arith) (ground arith)
