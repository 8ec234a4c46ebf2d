-- ===== src/Fcgi/Tests.antt =====
-- A connection of two requests, and the witnesses of the properties of the loop.
use sq_sp.Prelude.{
  ℕ, ◌≡◌, refl, true, false, none, some, [], ◌∷◌, List, Bytes, codes, get_or, length, arith, take,
  minus_one,
}
use sq_sp.PageBuf.{PageBuf}
use sq_sp.Download.{read_ready}
use sq_sp.Upload.{mime_headers}
use sq_sp.Params.{Request, action_unknown, fcgi_ready}
use sq_sp.Fcgi.{FcgiServer, Surroundings, parse_fastcgi}
use sq_sp.Fcgi.Records.{FcgiRecord, record_text, parse_fastcgi-part}
use sq_sp.Fcgi.Spec.{
  Packet, begin_message, data_message, stream_text, deliver, deliver_all, view_of,
}
use sq_sp.Fcgi.Refinement.{Runs, parse_fastcgi-deliver_all}
use sq_sp.Fcgi.Stalls.{parse_fastcgi-unhandled}

abbrev block : Bytes → PageBuf
block text = record {
  p_buf = λ i. get_or text i 0;
  buf_size = 32768;
  buf_curr = length text;
  buf_start = 0;
  resize_times = 0;
}

abbrev held : ℕ → Request
held id = record {
  socket_id = 0;
  in_buf = block [];
  out_buf = block [];
  link_stat = read_ready;
  flag_json_request = false;
  flag_file_upload = false;
  action = action_unknown;
  var_list = [];
  p_uri = none;
  p_session = none;
  content_type = none;
  post_data_offset = 0;
  post_length = minus_one;
  fcgi_content_type_length = 0;
  flag_fcgi = fcgi_ready;
  flag_fcgi_close_state = false;
  para_length = 0;
  url_map = none;
  mlist = [];
}

abbrev surroundings : Surroundings
surroundings = record { junk = λ i. 0; pool = held; message = λ r. codes "Not Found"; rounds = 64 }

abbrev server : Bytes → FcgiServer
server text = record {
  in_buf = block text;
  link_stat = read_ready;
  request_table = λ id. none;
  registered = [];
  excuting = [];
  mime_table = mime_headers;
}

abbrev packet_1 : Packet
packet_1 = record { message = begin_message 1 1 1; padding = []; reserved = 0 }

abbrev packets : List Packet
packets =
    record { message = begin_message 2 1 0; padding = 0 ∷ []; reserved = 7 }
    ∷ record { message = data_message true 2 (codes "ab"); padding = []; reserved = 0 }
    ∷ record { message = data_message true 1 (codes "x"); padding = 0 ∷ 0 ∷ []; reserved = 0 }
    ∷ record { message = data_message false 2 (codes "c"); padding = []; reserved = 0 }
    ∷ []

abbrev stream : FcgiServer
stream = server (stream_text (packet_1 ∷ packets))

parse_fastcgi-deliver_all_example :
    Runs (deliver_all (packet_1 ∷ packets) (view_of stream)) (parse_fastcgi 6 surroundings stream)
parse_fastcgi-deliver_all_example =
    parse_fastcgi-deliver_all packet_1 packets 6 surroundings stream (ground arith) (omega arith)
      (omega arith) (ground arith) (omega arith) (λ i. tt)

mixed : (deliver_all (packet_1 ∷ packets) (view_of stream)).1 2 ≡ some (codes "abc")
unfolding deliver
mixed = refl

abbrev abort : FcgiRecord
abort = record { type_of = 2; request_id = 1; content = []; padding = []; reserved = 0 }

parse_fastcgi-unhandled_example :
    parse_fastcgi 1000 surroundings (server (record_text abort)) ≡ none
parse_fastcgi-unhandled_example =
    parse_fastcgi-unhandled 1000 surroundings abort (server (record_text abort)) (ground arith)
      (ground arith)

abbrev partial : FcgiServer
partial = server (take 5 (record_text abort))

parse_fastcgi-part_example :
    parse_fastcgi 1 surroundings partial ≡ some (false, record partial { link_stat = read_ready })
parse_fastcgi-part_example =
    parse_fastcgi-part 0 surroundings abort 5 partial (omega arith) (omega arith) (omega arith)
      (ground arith) (omega arith)
