-- ===== src/Actions/Answer.antt =====
-- What the actions answer.
use mathlib.Core.List.{append-nil}
use sq_sp.Prelude.{
  codes, pos, ℕ, suc, ◌+◌, ◌-◌, ◌^◌, ◌≤◌, ◌<◌, ◌≡◌, inl, inr, refl, Bool, true, false, [], ◌∷◌,
  ◌++◌, Option, none, some, ltb, length, take, if◌then◌else◌, Bytes, arith, Bool-cases,
  Option-cases, ap, ◌∙◌,
}
use sq_sp.PageBuf.{PageBuf, io_size, copy_in, store}
use sq_sp.PageBuf.Size.{contents, slice, slice_cong}
use sq_sp.PageBuf.Direct.{slice-copy_in}
use sq_sp.Download.{HttpConn, write_file, send_http_msg}
use sq_sp.Download.Deliver.{Leaves}
use sq_sp.Download.Start.{write_file-Leaves}
use sq_sp.Actions.{
  System, http_msg, int_of, is_negative, vsnprintf, printf, full_path, file_header, not_modified,
  not_found, unchanged, open_file, create_getfile_header, send_file, action_get_file,
  finish_reading,
}

copy_in_append :
    (a b : Bytes) (n : ℕ) (f : ℕ → ℕ)
    → copy_in (a ++ b) n f ≡ copy_in b (n + length a) (copy_in a n f)
copy_in_append [] b n f = ground arith
copy_in_append (c ∷ a) b n f =
    let size : n + suc (length a) ≡ n + 1 + length a = omega arith in
    rw size (copy_in_append a b (n + 1) (store n c f))

-- the buffer after a text that fits, with its NUL
abbrev pub printed : Bytes → PageBuf → PageBuf
printed text p = record p {
  p_buf = copy_in (text ++ 0 ∷ []) p.buf_curr p.p_buf;
  buf_curr = p.buf_curr + length text;
}

vsnprintf_fits :
    (windows : Bool) (room : ℕ) (text : Bytes)
    → length text < room
    → vsnprintf windows room text ≡ (pos (length text), text ++ 0 ∷ [])
unfolding vsnprintf
vsnprintf_fits windows room text fits =
    let yes : ltb (length text) room ≡ true = ground arith in rw yes refl

printf_fits :
    (windows : Bool) (junk : ℕ → ℕ) (text : Bytes) (n : ℕ) (p : PageBuf)
    → length text < p.buf_size - p.buf_curr
    → printf windows junk text (suc n) p ≡ some (printed text p)
unfolding printf
printf_fits windows junk text n p fits =
    let shown = vsnprintf_fits windows (p.buf_size - p.buf_curr) text fits in
    rw (printf, ap (λ r. r.0) shown, ap (λ r. r.1) shown) refl

contents-printed : (text : Bytes) (p : PageBuf) → contents (printed text p) ≡ contents p ++ text
contents-printed text p =
    let whole = copy_in_append text (0 ∷ []) p.buf_curr p.p_buf in
    let inner = copy_in text p.buf_curr p.p_buf in
    let end = p.buf_curr + length text in
    let same : slice (store end 0 inner) 0 end ≡ slice inner 0 end =
      slice_cong (store end 0 inner) inner 0 end (λ k l. ground arith) in
    rw whole (same ∙ slice-copy_in text p.buf_curr p.p_buf)

-- a message that replaces what the buffer held, where no file is open
message-Leaves :
    (text : Bytes) (c : HttpConn)
    → c.out_buf.buf_start ≡ 0
    → c.file ≡ none
    → Leaves text (true, send_http_msg text c)
unfolding send_http_msg
message-Leaves text c zero_start no_file =
    let size : length text - 0 ≡ length text = omega arith in
    let from_start : 0 + length text ≡ length text = omega arith in
    (
      refl,
      rw (zero_start, no_file, size)
          (append-nil (slice (copy_in text 0 c.out_buf.p_buf) 0 (length text))
            ∙ rw from_start at (slice-copy_in text 0 c.out_buf.p_buf)),
      (λ u is. ground arith),
      omega arith,
      inl refl,
    )

-- What the client is to get for a file: a message, or the header and the file.
abbrev pub answer_opened : System → Bytes → Bytes → ℕ × ℕ → Option Bytes → Bytes
answer_opened s uri path state none = not_found s uri
answer_opened s uri path (mtime, size) (some content) =
    file_header s path (mtime, size) ++ take size content

abbrev pub answer : System → Bytes → Option Bytes → Bytes → Option (ℕ × ℕ) → Bytes
answer s uri since path none = not_found s uri
answer s uri since path (some state) =
    if not_modified s since state.0
    then unchanged s uri
    else answer_opened s uri path state (s.fopen path)

-- The file is shorter than 2 GB and as long as `stat` said, and its header is shorter than the first
-- block.
abbrev pub IsServed : System → Bytes → Type 0
IsServed s path =
    (state : ℕ × ℕ)
    → s.stat path ≡ some state
    → (state.1 < 2 ^ 31)
      × (length (file_header s path state) < io_size)
      × ((content : Bytes) → s.fopen path ≡ some content → state.1 ≤ length content)

-- a buffer with nothing in it
abbrev pub IsEmpty : PageBuf → Type 0
IsEmpty p = (p.buf_start ≡ 0) × (p.buf_curr ≡ 0) × (io_size ≤ p.buf_size)

int_of_small : (size : ℕ) → size < 2 ^ 31 → int_of size ≡ size
int_of_small size small = omega arith

-- What a header and `send_file` behind it leave.
abbrev pub Sends : System → Bytes → Bytes → Option (Bool × HttpConn) → Type 0
Sends s uri rest made =
    (h : Bool × HttpConn) × (made ≡ some h)
    × (r : Bool × HttpConn) × (send_file s uri h ≡ some r)
    × Leaves rest r

open_file-Leaves :
    (s : System) (uri path : Bytes) (state : ℕ × ℕ) (c : HttpConn)
    → IsEmpty c.out_buf
    → c.file ≡ none
    → c.file_length ≡ int_of state.1
    → state.1 < 2 ^ 31
    → length (file_header s path state) < io_size
    → ((content : Bytes) → s.fopen path ≡ some content → state.1 ≤ length content)
    → Sends s uri (answer_opened s uri path state (s.fopen path)) (open_file s uri path state c)
unfolding open_file send_file
open_file-Leaves s uri path (mtime, size) c (start, empty, room) no_file same small short whole =
    elim (Option-cases (s.fopen path)) [
      | inl e ↦ (
        (false, send_http_msg (not_found s uri) c),
        rw (open_file, e) refl,
        (true, send_http_msg (not_found s uri) c),
        refl,
        rw e (message-Leaves (not_found s uri) c start no_file),
      )
      | inr (content, e) ↦
          let header = file_header s path (mtime, size) in
          let fits : length header < c.out_buf.buf_size - c.out_buf.buf_curr = omega arith in
          let opened = record c { out_buf = printed header c.out_buf; file = some content } in
          let alone : contents c.out_buf ++ header ≡ header = rw empty refl in
          let length_is : c.file_length ≡ size = same ∙ int_of_small size small in
          let positive : is_negative c.file_length ≡ false = ground arith in
          let whole_answer : contents (printed header c.out_buf) ++ take c.file_length content
              ≡ header ++ take size content =
            rw length_is
              (ap (λ l. l ++ take size content) (contents-printed header c.out_buf ∙ alone)) in
          let error = http_msg s 500 (codes "Error") (codes "Error at read : " ++ uri) in
          (
            (true, opened),
            rw (open_file, e, printf_fits s.windows s.junk header 10 c.out_buf fits) refl,
            write_file error content opened,
            rw positive refl,
            rw e (
                rw whole_answer at (
                  write_file-Leaves error content opened start (omega arith)
                    (rw length_is (whole content e)))),
          )
    ]

create_getfile_header-Leaves :
    (s : System) (uri path : Bytes) (since : Option Bytes) (c : HttpConn)
    → IsEmpty c.out_buf
    → full_path s uri ≡ some path
    → IsServed s path
    → Sends s uri (answer s uri since path (s.stat path)) (create_getfile_header s uri since c)
unfolding create_getfile_header send_file
create_getfile_header-Leaves s uri path since c (start, empty, room) short served =
    elim (Option-cases (s.stat path)) [
      | inl e ↦
          let no_file = record c { file = none } in
          (
            (false, send_http_msg (not_found s uri) no_file),
            rw (create_getfile_header, short, e) refl,
            (true, send_http_msg (not_found s uri) no_file),
            refl,
            rw e (message-Leaves (not_found s uri) no_file start refl),
          )
      | inr ((mtime, size), e) ↦
          let sized = record c { file = none; file_length = int_of size } in
          elim (Bool-cases (not_modified s since mtime)) [
            | inl old ↦ (
              (false, send_http_msg (unchanged s uri) sized),
              rw (create_getfile_header, short, e, old) refl,
              (true, send_http_msg (unchanged s uri) sized),
              refl,
              rw (e, old) (message-Leaves (unchanged s uri) sized start refl),
            )
            | inr new ↦
                let (small, fits, whole) = served (mtime, size) e in
                rw (create_getfile_header, short, e, new)
                  (open_file-Leaves s uri path (mtime, size) sized (start, empty, room) refl refl
                    small fits whole)
          ]
    ]

-- `action_GET` answers every request: where the output buffer is empty, the path fits its 256 bytes,
-- the header of the file is shorter than 32 KB, and the file is shorter than 2 GB and as long as `stat`
-- said, it leaves the connection with exactly this to send: the header and the file, or that the file was not found, or
-- that it is not newer than the client's copy.
pub action_get-Answers :
    (s : System) (uri path : Bytes) (since : Option Bytes) (c : HttpConn)
    → IsEmpty c.out_buf
    → full_path s uri ≡ some path
    → IsServed s path
    → (r : Bool × HttpConn) × (action_get_file s uri since c ≡ some r)
      × Leaves (answer s uri since path (s.stat path)) r
unfolding action_get_file
action_get-Answers s uri path since c empty short served =
    let (h, is, r, sent, leaves) =
      create_getfile_header-Leaves s uri path since (finish_reading c) empty short served in
    (r, rw (action_get_file, is) sent, leaves)
