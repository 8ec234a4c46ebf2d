-- ===== src/Download.antt =====
-- The sending side of `http_conn` of LigSP/LigCommon/lig_httpd.cpp: `write_file`, `write_client` and
-- the state that they keep. What stays unread of the file is a list of bytes, the file's own length is
-- `FileLength`, and the result of `send` is an argument.
mod Tests
pub mod Deliver
pub mod Start
use sq_sp.Prelude.{
  ℕ, zero, suc, ◌+◌, ◌-◌, Bool, true, false, List, [], ◌∷◌, ◌++◌, Option, none, some, ◌==◌, ltb,
  length, take, drop, if◌then◌else◌, Bytes, ℤ, pos, negsuc, minus_one, eq_ℤ,
}
use sq_sp.PageBuf.{PageBuf, io_size, append_bytes, copy_in, write_socket, trans_size}

-- `link_stat`
pub data LinkStat : Type 0 where
  read_ready : LinkStat
  write_ready : LinkStat
  read_finished : LinkStat
  conn_finished : LinkStat
  write_finished : LinkStat

-- `outBuf`, `FileLength`, which is not negative where a file is sent, `mFiles` with what is unread of
-- the file, `none` for NULL, `link_stat` and `time_stamp`
pub record HttpConn : Type 0 where
  pub out_buf : PageBuf
  pub file_length : ℕ
  pub file : Option Bytes
  pub link_stat : LinkStat
  pub time_stamp : ℕ

-- `fread(p,1,n,mFiles)`: what it stores, and what is unread then
abbrev pub fread : ℕ → Bytes → Bytes × Bytes
fread n unread = (take n unread, drop n unread)

-- `send_http_msg`: the text that `snprintf` and `vsnprintf` write, shorter than 32 KB, is an argument.
unfoldable pub send_http_msg : Bytes → HttpConn → HttpConn
send_http_msg text c = record c {
  out_buf = record c.out_buf { p_buf = copy_in text 0 c.out_buf.p_buf; buf_curr = length text };
  link_stat = write_ready;
}

-- The failure of `fread` in `write_file`: `got` is what it stored.
unfoldable pub read_failed : Bytes → Bytes → HttpConn → Bool × HttpConn
read_failed text got c =
    let left = record c.out_buf {
      p_buf = copy_in got c.out_buf.buf_curr c.out_buf.p_buf;
      buf_curr = 0;
    } in
    (false, send_http_msg text (record c { out_buf = left; file = none }))

-- `write_file`, with at most 32 KB in the buffer; `text` is the message of the error
unfoldable pub write_file : Bytes → Bytes → HttpConn → Bool × HttpConn
write_file text unread c =
    let room = io_size - c.out_buf.buf_curr in
    if ltb c.file_length room
    then (let got = fread c.file_length unread in
        if length got.0 == c.file_length
        then (
          true,
          record c { out_buf = append_bytes got.0 c.out_buf; link_stat = write_ready; file = none },
        )
        else read_failed text got.0 c)
    else (let got = fread room unread in
        if length got.0 == room
        then (
          true,
          record c {
            out_buf = append_bytes got.0 c.out_buf;
            file_length = c.file_length - room;
            link_stat = write_ready;
            file = some got.1;
          },
        )
        else read_failed text got.0 c)

-- `write_client` once the buffer has been sent: the end of the file, its next part, or the end of a
-- message
unfoldable pub after_sent : HttpConn → Bool × HttpConn
after_sent c = elim c.file [
  | none ↦
      (true, record c { out_buf = record c.out_buf { buf_start = 0 }; link_stat = conn_finished })
  | some unread ↦
      if c.file_length == 0
      then (true, record c { file = none; link_stat = conn_finished })
      else (let n = if ltb io_size c.file_length then io_size else c.file_length in
          let got = fread n unread in
          let start = record c.out_buf { p_buf = copy_in got.0 0 c.out_buf.p_buf; buf_start = 0 } in
          if length got.0 == n
          then (
            true,
            record c {
              out_buf = record start { buf_curr = n };
              link_stat = write_ready;
              file_length = c.file_length - n;
              file = some got.1;
            },
          )
          else (false, record c { out_buf = start; link_stat = conn_finished; file = some got.1 }))
]

-- `write_client`, at the time `clock`, where `sent` is the result of `send`
unfoldable pub write_client : ℕ → ℤ → HttpConn → Bool × HttpConn
write_client clock sent c =
    let rt = write_socket sent c.out_buf in
    let c' = record c { out_buf = rt.1; time_stamp = clock } in
    if eq_ℤ rt.0 minus_one
    then (false, record c { out_buf = rt.1; link_stat = conn_finished })
    else if eq_ℤ rt.0 (pos 1)
    then after_sent c'
    else (true, c')

-- `write_fcgi_server`, which sends no file
unfoldable pub write_fcgi_server : ℕ → ℤ → HttpConn → ℤ × HttpConn
write_fcgi_server clock sent c =
    let rt = write_socket sent c.out_buf in
    let c' = record c { out_buf = rt.1; time_stamp = clock } in
    if eq_ℤ rt.0 minus_one
    then (rt.0, record c { out_buf = rt.1; link_stat = conn_finished })
    else if eq_ℤ rt.0 (pos 1)
    then (
      rt.0,
      record c' {
        out_buf = record rt.1 { buf_start = 0; buf_curr = 0 };
        link_stat = write_finished;
      },
    )
    else (rt.0, record c' { link_stat = write_ready })
