-- ===== src/Actions/Tests.antt =====
-- Requests for a file, and the witnesses of the properties of the actions.
use mathlib.Core.Option.{some-injective}
use sq_sp.Prelude.{
  ℕ, ◌^◌, ◌≡◌, refl, Bool, true, false, none, some, [], ◌∷◌, length, Bytes, codes, eq_bytes, pos,
  if◌then◌else◌, arith, ap,
}
use sq_sp.PageBuf.{PageBuf, init, resize}
use sq_sp.PageBuf.Size.{contents}
use sq_sp.Download.{HttpConn, read_ready, read_finished, send_http_msg}
use sq_sp.Download.Deliver.{Leaves}
use sq_sp.Actions.{
  System, vsnprintf, printf, extension, mime_of, types, full_path, not_modified, open_file,
  create_getfile_header, action_get_file, send_file, action_head_file, close_null, action_post_only,
  after_dot, file_header,
}
use sq_sp.Actions.Answer.{answer, IsServed, action_get-Answers, printed}
use sq_sp.Actions.Silent.{action_head-Silent}

abbrev zeros : ℕ → ℕ
zeros i = 0

-- one file, of two bytes, with the time 7
abbrev one_file : System
one_file = record {
  root_dir = codes "r";
  stat = λ path. if eq_bytes path (codes "r/a.txt") then some (7, 2) else none;
  fopen = λ path. if eq_bytes path (codes "r/a.txt") then some (codes "hi") else none;
  datetosec = λ date. pos (length date);
  date_text = λ t. codes "D";
  decimal = λ n. codes "1";
  hexadecimal = λ n. codes "f";
  windows = true;
  junk = zeros;
  stray = codes "?";
  clock = 9;
}

abbrev waiting : HttpConn
waiting = record {
  out_buf = init zeros;
  file_length = 0;
  file = none;
  link_stat = read_ready;
  time_stamp = 0;
}

two_dots : extension (codes "r/a.tar.gz") ≡ codes "gz"
unfolding extension after_dot
two_dots = refl

plain_text : mime_of (codes "txt") types ≡ codes "text/plain"
unfolding mime_of
plain_text = refl

-- The block grows for a text that does not fit, on Windows; else the end of the text is lost, and
-- counted.
abbrev small : PageBuf
small = record { p_buf = zeros; buf_size = 2; buf_curr = 1; buf_start = 0; resize_times = 1 }

grown_text :
    (p : PageBuf) × (printf true zeros (codes "xyz") 2 small ≡ some p)
    × (contents p ≡ 0 ∷ codes "xyz")
unfolding printf vsnprintf resize
grown_text = (_, refl, refl)

counted_text :
    (p : PageBuf) × (printf false zeros (codes "xyz") 2 small ≡ some p) × (p.buf_curr ≡ 4)
unfolding printf vsnprintf
counted_text = (_, refl, refl)

post_text :
    contents (action_post_only one_file waiting).1.out_buf
    ≡ codes "HTTP/1.1 1 OK\r\n\r\n1 POST OK: ?"
unfolding action_post_only send_http_msg
post_text = refl

path_a : full_path one_file (codes "a.txt") ≡ some (codes "r/a.txt")
unfolding full_path
path_a = refl

one_file-IsServed : IsServed one_file (codes "r/a.txt")
unfolding mime_of extension after_dot
one_file-IsServed state is = (
  (let size = ap (λ x. x.1) (some-injective (7, 2) state is) in omega arith),
  omega arith,
  λ content opened.
      let size = ap (λ x. x.1) (some-injective (7, 2) state is) in
      let text = ap (λ l. length l) (some-injective (codes "hi") content opened) in omega arith,
)

action_get-Answers_example :
    (r : Bool × HttpConn) × (action_get_file one_file (codes "a.txt") none waiting ≡ some r)
    × Leaves (answer one_file (codes "a.txt") none (codes "r/a.txt") (some (7, 2))) r
action_get-Answers_example =
    action_get-Answers one_file (codes "a.txt") (codes "r/a.txt") none waiting
      (refl, refl, omega arith) path_a one_file-IsServed

abbrev opened : HttpConn
opened = record waiting {
  out_buf = printed (file_header one_file (codes "r/a.txt") (7, 2)) waiting.out_buf;
  file_length = 2;
  file = some (codes "hi");
  link_stat = read_finished;
}

head_run : action_head_file one_file (codes "a.txt") none waiting ≡ some (true, opened)
unfolding action_head_file create_getfile_header full_path not_modified open_file printf vsnprintf
    close_null mime_of extension after_dot
head_run = refl

action_head-Silent_example :
    (opened.link_stat ≡ read_finished) × ((content : Bytes) × (opened.file ≡ some content))
action_head-Silent_example =
    action_head-Silent one_file (codes "a.txt") none waiting (true, opened) head_run

-- HEAD for a file that is not there
head_missing : action_head_file one_file (codes "b") none waiting ≡ none
unfolding action_head_file create_getfile_header full_path send_http_msg close_null
head_missing = refl

-- a file of 2 GB
abbrev large_file : System
large_file = record one_file { stat = λ path. some (7, 2 ^ 31); fopen = λ path. some [] }

large_overruns : action_get_file large_file (codes "a") none waiting ≡ none
unfolding action_get_file create_getfile_header full_path not_modified open_file send_file printf
    vsnprintf mime_of extension after_dot
large_overruns = refl
