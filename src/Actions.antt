-- ===== src/Actions.antt =====
-- The actions of `http_conn` of LigSP/LigCommon/lig_httpd.cpp, and `page_buf::printf` of lig_httpd.h, by
-- which they write the header of a file. The file system and the C library's formats are arguments.
-- `none` is undefined behaviour: a path that does not fit its buffer, a negative length given to
-- `fread`, or NULL given to `fclose`.
mod Tests
pub mod Answer
pub mod Silent
use sq_sp.Prelude.{
  ℕ, zero, suc, ◌+◌, ◌-◌, ◌%◌, ◌^◌, Bool, true, false, not, ◌||◌, List, [], ◌∷◌, ◌++◌, Option, none,
  some, ◌==◌, ltb, leb, length, take, if◌then◌else◌, Bytes, codes, eq_bytes, ℤ, pos, negsuc, ◌>>=◌,
}
use sq_sp.PageBuf.{PageBuf, copy_in, resize}
use sq_sp.Download.{HttpConn, read_finished, send_http_msg, write_file}

-- `vsnprintf(p,room,...)` of a text: the result and what is stored. On Windows a text that does not fit
-- gives -1; by the C standard the result is its length, and a NUL is always stored.
unfoldable pub vsnprintf : Bool → ℕ → Bytes → ℤ × Bytes
vsnprintf windows room text =
    if ltb (length text) room
    then (pos (length text), text ++ 0 ∷ [])
    else if not windows
    then (pos (length text), if room == 0 then [] else take (room - 1) text ++ 0 ∷ [])
    else if length text == room
    then (pos (length text), text)
    else (negsuc 0, take room text)

-- `page_buf::printf`: after a negative result the block grows and the text is written again. Where it
-- cannot grow, the negative result is added. There are `rounds` attempts.
unfoldable pub printf : Bool → (ℕ → ℕ) → Bytes → ℕ → PageBuf → Option PageBuf
printf windows junk text zero p = none
printf windows junk text (suc rounds) p =
    let (result, stored) = vsnprintf windows (p.buf_size - p.buf_curr) text in
    let q = record p { p_buf = copy_in stored p.buf_curr p.p_buf } in
    let (ok, grown) = resize junk none q in
    let rest = printf windows junk text rounds grown in
    elim result [
      | pos n ↦ some (record q { buf_curr = p.buf_curr + n })
      | negsuc n ↦ if ok then rest else some (record grown { buf_curr = grown.buf_curr - suc n })
    ]

-- What the actions take from their surroundings: `p_root_dir`, `stat` with the time and the size,
-- `fopen` with the contents, `datetosec`, `strftime` of `gmtime`, the formats `%d` or `%lu` and `%lx`,
-- the kind of the C library, the heap, and what stands where an argument of a format is missing.
pub record System : Type 0 where
  pub root_dir : Bytes
  pub stat : Bytes → Option (ℕ × ℕ)
  pub fopen : Bytes → Option Bytes
  pub datetosec : Bytes → ℤ
  pub date_text : ℕ → Bytes
  pub decimal : ℕ → Bytes
  pub hexadecimal : ℕ → Bytes
  pub windows : Bool
  pub junk : ℕ → ℕ
  pub stray : Bytes
  pub clock : ℕ

-- the text of `send_http_msg(status,descr,"",...)`, with the formatted message behind it
abbrev pub http_msg : System → ℕ → Bytes → Bytes → Bytes
http_msg s status descr body =
    codes "HTTP/1.1 "
    ++ s.decimal status
    ++ codes " "
    ++ descr
    ++ codes "\r\n\r\n"
    ++ s.decimal status
    ++ codes " "
    ++ body

-- `types`
abbrev pub types : List (Bytes × Bytes)
types =
    (codes "svg", codes "image/svg+xml")
    ∷ (codes "torrent", codes "application/x-bittorrent")
    ∷ (codes "wav", codes "audio/x-wav")
    ∷ (codes "mp3", codes "audio/x-mp3")
    ∷ (codes "mid", codes "audio/mid")
    ∷ (codes "m3u", codes "audio/x-mpegurl")
    ∷ (codes "ram", codes "audio/x-pn-realaudio")
    ∷ (codes "ra", codes "audio/x-pn-realaudio")
    ∷ (codes "doc", codes "application/msword")
    ∷ (codes "exe", codes "application/octet-stream")
    ∷ (codes "zip", codes "application/x-zip-compressed")
    ∷ (codes "xls", codes "application/excel")
    ∷ (codes "tgz", codes "application/x-tar-gz")
    ∷ (codes "tar.gz", codes "application/x-tar-gz")
    ∷ (codes "tar", codes "application/x-tar")
    ∷ (codes "gz", codes "application/x-gunzip")
    ∷ (codes "arj", codes "application/x-arj-compressed")
    ∷ (codes "rar", codes "application/x-arj-compressed")
    ∷ (codes "rtf", codes "application/rtf")
    ∷ (codes "pdf", codes "application/pdf")
    ∷ (codes "jpeg", codes "image/jpeg")
    ∷ (codes "png", codes "image/png")
    ∷ (codes "mpg", codes "video/mpeg")
    ∷ (codes "mpeg", codes "video/mpeg")
    ∷ (codes "asf", codes "video/x-ms-asf")
    ∷ (codes "avi", codes "video/x-msvideo")
    ∷ (codes "bmp", codes "image/bmp")
    ∷ (codes "jpg", codes "image/jpeg")
    ∷ (codes "gif", codes "image/gif")
    ∷ (codes "ico", codes "image/x-icon")
    ∷ (codes "txt", codes "text/plain")
    ∷ (codes "css", codes "text/css")
    ∷ (codes "htm", codes "text/html")
    ∷ (codes "html", codes "text/html")
    ∷ []

-- the search of the table for an extension, with the type of a file that is not in it
unfoldable pub mime_of : Bytes → List (Bytes × Bytes) → Bytes
mime_of ext [] = codes "application/octet-stream"
mime_of ext ((e, mime) ∷ rest) = if eq_bytes e ext then mime else mime_of ext rest

-- what stands behind the last dot
unfoldable pub after_dot : Bytes → Option Bytes
after_dot [] = none
after_dot (c ∷ cs) = elim (after_dot cs) [
  | some ext ↦ some ext
  | none ↦ if c == b'.' then some cs else none
]

-- `fnbuf+fnlength+1`, where the loop from the end stops at a dot or at the first byte
unfoldable pub extension : Bytes → Bytes
extension [] = []
extension (c ∷ cs) = elim (after_dot cs) [ some ext ↦ ext | none ↦ cs ]

-- the byte in front of the NUL; in front of an empty text stands what stands there
abbrev last_byte : Bytes → ℕ
last_byte [] = 0
last_byte (c ∷ []) = c
last_byte (c ∷ d ∷ cs) = last_byte (d ∷ cs)

-- the path in `fnbuf`, which has 256 bytes; the test for a slash holds for every byte
unfoldable pub full_path : System → Bytes → Option Bytes
full_path s uri =
    let last = last_byte s.root_dir in
    let root =
      if not (last == b'/') || not (last == b'\\') then s.root_dir ++ codes "/" else s.root_dir in
    let path = root ++ uri in if ltb (length path) 256 then some path else none

-- `FileLength=file_state.st_size`: an `int` has the low 32 bits of the size. The number of these bits
-- stands for it, so that a value from 2 ^ 31 on is a negative length.
abbrev pub int_of : ℕ → ℕ
int_of size = size % 2 ^ 32

abbrev pub is_negative : ℕ → Bool
is_negative bits = leb (2 ^ 31) bits

-- the header of a file, with the blanks that a continued line has put in front of `Server`
abbrev pub file_header : System → Bytes → ℕ × ℕ → Bytes
file_header s path (mtime, size) =
    codes "HTTP/1.1 200 OK\r\nDate: "
    ++ s.date_text s.clock
    ++ codes "\r\nLast-Modified: "
    ++ s.date_text mtime
    ++ codes "\r\nEtag: \""
    ++ s.hexadecimal mtime
    ++ codes "."
    ++ s.hexadecimal size
    ++ codes "\"\r\nContent-Type: "
    ++ mime_of (extension path) types
    ++ codes "\r\nContent-Length: "
    ++ s.decimal (int_of size)
    ++ codes "\r\nConnection: Keep-Alive\t\t\t\t  Server: WebServer,Written by LiGang;\r\n\r\n"

-- `pHeader[ID_If_Modified_Since]!=NULL`, and the file is not newer
unfoldable pub not_modified : System → Option Bytes → ℕ → Bool
not_modified s none mtime = false
not_modified s (some since) mtime = elim (s.datetosec since) [
  | pos seconds ↦ leb mtime seconds
  | negsuc n ↦ false
]

abbrev pub not_found : System → Bytes → Bytes
not_found s uri = http_msg s 404 (codes "Not Found") (codes "Not Found: " ++ uri)

abbrev pub unchanged : System → Bytes → Bytes
unchanged s uri = http_msg s 304 (codes "Not Modified") (codes "Not Modified: " ++ uri)

-- `fopen` and the header, for a file with the time and the size given
unfoldable pub open_file : System → Bytes → Bytes → ℕ × ℕ → HttpConn → Option (Bool × HttpConn)
open_file s uri path state c = elim (s.fopen path) [
  | none ↦ some (false, send_http_msg (not_found s uri) c)
  | some content ↦
      printf s.windows s.junk (file_header s path state) 11 c.out_buf
      >>= (λ p. some (true, record c { out_buf = p; file = some content }))
]

-- `create_getfile_header`, for `header.pUri` and the header `If-Modified-Since`
unfoldable pub create_getfile_header :
    System → Bytes → Option Bytes → HttpConn → Option (Bool × HttpConn)
create_getfile_header s uri since c = do
  path ← full_path s uri
  let no_file = record c { file = none }
  elim (s.stat path) [
    | none ↦ some (false, send_http_msg (not_found s uri) no_file)
    | some (mtime, size) ↦
        let sized = record no_file { file_length = int_of size } in
        if not_modified s since mtime
        then some (false, send_http_msg (unchanged s uri) sized)
        else open_file s uri path (mtime, size) sized
  ]

-- `link_stat=read_finished`
abbrev pub finish_reading : HttpConn → HttpConn
finish_reading c = record c { link_stat = read_finished }

-- `action_UNKNOWN`
unfoldable pub action_unknown : System → HttpConn → Bool × HttpConn
action_unknown s c = (
  true,
  send_http_msg (http_msg s 400 (codes "Bad Request") (codes "Bad Request")) (finish_reading c),
)

-- the end of `action_GET`: the file that was opened is written. With a negative `FileLength` the test
-- of `write_file` takes it for a small one, and `fread` is given the number of its bits as a size, so
-- that it reads past the buffer.
unfoldable pub send_file : System → Bytes → Bool × HttpConn → Option (Bool × HttpConn)
send_file s uri (false, c) = some (true, c)
send_file s uri (true, c) = elim c.file [
  | none ↦ some (true, c)
  | some unread ↦
      if is_negative c.file_length
      then none
      else some
          (write_file (http_msg s 500 (codes "Error") (codes "Error at read : " ++ uri)) unread c)
]

-- `action_GET`
unfoldable pub action_get_file : System → Bytes → Option Bytes → HttpConn → Option (Bool × HttpConn)
action_get_file s uri since c = do
  r ← create_getfile_header s uri since (finish_reading c)
  send_file s uri r

-- `action_POST`, whose format wants an argument that is not given
unfoldable pub action_post_only : System → HttpConn → Bool × HttpConn
action_post_only s c = (
  true,
  send_http_msg (http_msg s 200 (codes "OK") (codes "POST OK: " ++ s.stray)) (finish_reading c),
)

-- `if(mFiles==NULL) fclose(mFiles)`: it is NULL that is closed, and an open file stays open.
unfoldable pub close_null : HttpConn → Option (Bool × HttpConn)
close_null c = elim c.file [ none ↦ none | some unread ↦ some (true, c) ]

-- `action_HEAD`
unfoldable pub action_head_file :
    System → Bytes → Option Bytes → HttpConn → Option (Bool × HttpConn)
action_head_file s uri since c = do
  r ← create_getfile_header s uri since (finish_reading c)
  close_null r.1
