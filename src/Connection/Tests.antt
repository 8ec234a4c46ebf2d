-- ===== src/Connection/Tests.antt =====
-- Requests that are received, and the witness.
use sq_sp.Prelude.{
  ℕ, ◌+◌, ◌≡◌, refl, Option, none, some, Bool, true, false, [], ◌∷◌, ◌++◌, Bytes, codes, get_or,
  length, ℤ, pos, minus_one, ◌-◌,
}
use sq_sp.Text.{ncasecmp, folded}
use sq_sp.PageBuf.{PageBuf, read_socket}
use sq_sp.Download.{LinkStat, read_ready}
use sq_sp.Upload.{mime_headers, scan}
use sq_sp.HttpHeader.{
  cstring, urldecode, hex_to_int, is_escape, decoded_char, urldecode_at, cstring_at, push_var,
  end_var, at_equals, at_ampersand, form_round, form_loop, decode_post, decode_url, skip_slashes,
  blank_dots, clean_char, clean_path,
}
use sq_sp.Params.{action_unknown, fcgi_ready}
use sq_sp.Connection.{
  Receiving, Machine, blank_at, find_blank, cut_line, method_of, request_line, tag_of, set_header,
  header_lines, type_is, read_header, parse_header, read_body, grow_for, await_body, after_header,
  read_client,
}
use sq_sp.Connection.Complete.{Answers, read_client-Answers}

abbrev block : PageBuf
block = record { p_buf = λ i. 0; buf_size = 32768; buf_curr = 0; buf_start = 0; resize_times = 0 }

abbrev connected : Receiving
connected = record {
  request = record {
    socket_id = 3;
    in_buf = block;
    out_buf = block;
    link_stat = read_ready;
    flag_json_request = false;
    flag_file_upload = false;
    action = action_unknown;
    var_list = [];
    p_uri = none;
    p_session = none;
    content_type = none;
    post_data_offset = 0;
    post_length = minus_one;
    fcgi_content_type_length = 0;
    flag_fcgi = fcgi_ready;
    flag_fcgi_close_state = false;
    para_length = 0;
    url_map = none;
    mlist = [];
  };
  flag_header_ok = false;
  header_length = 0;
  p_header = λ i. none;
  mime_table = mime_headers;
  time_stamp = 0;
}

-- a number of one digit
abbrev digit_of : Bytes → ℤ
digit_of text = pos (get_or text 0 48 - 48)

abbrev machine : Machine
machine = record { junk = λ i. 0; atoi = digit_of; clock = 9; rounds = 99 }

abbrev line : Bytes → Bytes
line text = text ++ 13 ∷ 10 ∷ []

abbrev posted : Bytes
posted = line (codes "POST /f HTTP/1.1") ++ line (codes "Content-Length: 3") ++ line []

abbrev result_of : Option (Bool × Receiving) → Option (Bool × LinkStat × ℕ)
result_of none = none
result_of (some (ok, c)) = some (ok, c.request.link_stat, length c.request.var_list)

-- the last line of a header ends at the blank line
post_is_read :
    result_of (read_client machine (some (posted ++ codes "a=b")) connected)
    ≡ some (false, LinkStat.read_finished, 1)
unfolding read_client read_socket parse_header find_blank blank_at read_header cut_line method_of
    ncasecmp folded request_line scan decode_url skip_slashes clean_path clean_char blank_dots
    header_lines tag_of set_header cstring type_is after_header await_body grow_for read_body
    decode_post form_loop form_round at_equals at_ampersand end_var urldecode_at urldecode is_escape
    decoded_char hex_to_int cstring_at push_var
post_is_read = refl

post_is_awaited :
    result_of (read_client machine (some (posted ++ codes "a=")) connected)
    ≡ some (true, read_ready, 0)
unfolding read_client read_socket parse_header find_blank blank_at read_header cut_line method_of
    ncasecmp folded request_line scan decode_url skip_slashes clean_path clean_char blank_dots
    header_lines tag_of set_header cstring type_is after_header await_body grow_for
post_is_awaited = refl

-- the byte `k` of the body
abbrev body_of : ℕ → Option (Bool × Receiving) → Option ℕ
body_of k none = none
body_of k (some (ok, c)) = some (c.request.in_buf.p_buf (c.header_length + k))

-- A carriage return among the first four bytes of the body is overwritten.
body_is_cut :
    body_of 2 (read_client machine (some (posted ++ b'a' ∷ b'=' ∷ 13 ∷ [])) connected) ≡ some 0
unfolding read_client read_socket parse_header find_blank blank_at read_header cut_line method_of
    ncasecmp folded request_line scan decode_url skip_slashes clean_path clean_char blank_dots
    header_lines tag_of set_header cstring type_is after_header await_body grow_for read_body
    decode_post form_loop form_round at_equals at_ampersand end_var urldecode_at urldecode is_escape
    decoded_char hex_to_int cstring_at push_var
body_is_cut = refl

read_client-Answers_example : Answers (read_client machine (some (posted ++ codes "a=b")) connected)
read_client-Answers_example = read_client-Answers machine (some (posted ++ codes "a=b")) connected
