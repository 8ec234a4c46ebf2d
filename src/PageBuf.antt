-- ===== src/PageBuf.antt =====
-- `page_buf` of LigSP/LigCommon/lig_httpd.h: the output and input buffer of a connection. It starts in a
-- block of 32 KB inside the object and grows on the heap, by twice as much each time, up to 32 MB.
mod Tests
pub mod Size
pub mod Escape
pub mod Write
pub mod Direct
use sq_sp.Prelude.{
  ℕ, zero, suc, ◌+◌, ◌-◌, ◌*◌, ◌/◌, ◌%◌, ◌^◌, Bool, true, false, not, ◌&&◌, ◌||◌, List, [], ◌∷◌,
  ◌++◌, Option, none, some, ◌==◌, ltb, leb, length, if◌then◌else◌, Bytes, ℤ, pos, negsuc, minus_one,
}

-- `p_buf` as the memory from there on, and the counters; `p_segment` is never read.
pub record PageBuf : Type 0 where
  pub p_buf : ℕ → ℕ
  pub buf_size : ℕ
  pub buf_curr : ℕ
  pub buf_start : ℕ
  pub resize_times : ℕ

abbrev pub io_size : ℕ
io_size = 32768

abbrev pub max_page_size : ℕ
max_page_size = 33554432

-- the constructor and `init()`; the block is not cleared
abbrev pub init : (ℕ → ℕ) → PageBuf
init junk = record {
  p_buf = junk;
  buf_size = io_size;
  buf_curr = 0;
  buf_start = 0;
  resize_times = 0;
}

-- the new block: `old_size` bytes are copied, the others are what the heap held
abbrev pub moved : ℕ → (ℕ → ℕ) → (ℕ → ℕ) → ℕ → ℕ
moved old_size junk old i = if ltb i old_size then old i else junk i

-- `resize(min_bytes)`, where `none` is the default argument -1
unfoldable pub resize : (ℕ → ℕ) → Option ℕ → PageBuf → Bool × PageBuf
resize junk (some min_bytes) p = (
  true,
  record p {
    p_buf = moved p.buf_size junk p.p_buf;
    buf_size = p.buf_size + min_bytes;
    resize_times = p.resize_times + 1;
  },
)
resize junk none p =
    let min_bytes = 2 * 2 ^ p.resize_times * io_size in
    let size = if p.resize_times == 0 then io_size else p.buf_size in
    if ltb max_page_size (size + min_bytes) then (false, record p { buf_size = size }) else (
      true,
      record p {
        p_buf = moved p.buf_size junk p.p_buf;
        buf_size = size + min_bytes;
        resize_times = p.resize_times + 1;
      },
    )

abbrev pub store : ℕ → ℕ → (ℕ → ℕ) → ℕ → ℕ
store i v f j = if i == j then v else f j

-- `p_buf[buf_curr++]=v`
abbrev pub put : ℕ → PageBuf → PageBuf
put v p = record p { p_buf = store p.buf_curr v p.p_buf; buf_curr = p.buf_curr + 1 }

-- `memcpy` of bytes to `p_buf+at`
abbrev pub copy_in : Bytes → ℕ → (ℕ → ℕ) → ℕ → ℕ
copy_in [] at f = f
copy_in (c ∷ cs) at f = copy_in cs (at + 1) (store at c f)

-- bytes at `p_buf+buf_curr`
abbrev pub append_bytes : Bytes → PageBuf → PageBuf
append_bytes cs p = record p {
  p_buf = copy_in cs p.buf_curr p.p_buf;
  buf_curr = p.buf_curr + length cs;
}

-- the ladder of `write_cstr`: the letter that stands behind the backslash, if the byte is escaped
unfoldable pub escape : ℕ → Option ℕ
escape c =
    if c == b'\n'
    then some b'n'
    else if c == b'"'
    then some b'"'
    else if c == b'\\'
    then some b'\\'
    else if c == b'\r'
    then some b'r'
    else if c == b'\t'
    then some b't'
    else if c == 11
    then some b'v'
    else if c == 8
    then some b'b'
    else if c == 12
    then some b'f'
    else none

-- what one round of `write_cstr` writes: the byte, or a backslash and the letter
abbrev pub write_as : ℕ → Option ℕ → PageBuf → PageBuf
write_as c none p = put c p
write_as c (some e) p = put e (put b'\\' p)

unfoldable pub write_escaped : ℕ → PageBuf → PageBuf
write_escaped c p = write_as c (escape c) p

-- `if(buf_size-buf_curr<room){if(!resize()) return;}`; `none` is the return
unfoldable pub make_room : (ℕ → ℕ) → ℕ → PageBuf → Bool × PageBuf
make_room junk room p = if ltb p.buf_size (p.buf_curr + room) then resize junk none p else (true, p)

-- `write_cstr(str,length)`: the `length` bytes of the string
unfoldable pub write_cstr_counted : (ℕ → ℕ) → Bytes → PageBuf → PageBuf
write_cstr_counted junk [] p = p
write_cstr_counted junk (c ∷ str) p =
    let (ok, q) = make_room junk 4 p in
    let rest = write_cstr_counted junk str (write_escaped c q) in if ok then rest else q

-- `write_cstr(str)`: memory from `str` on, up to the NUL
unfoldable pub write_cstr : (ℕ → ℕ) → Bytes → PageBuf → PageBuf
write_cstr junk [] p = p
write_cstr junk (c ∷ str) p =
    let (ok, q) = make_room junk 4 p in
    let rest = write_cstr junk str (write_escaped c q) in
    if c == 0 then p else if ok then rest else q

-- `direct_write(data,length)` and `direct_write(string&)`
unfoldable pub direct_write : (ℕ → ℕ) → Bytes → PageBuf → PageBuf
direct_write junk data_bytes p =
    let (ok, q) = make_room junk (length data_bytes) p in
    if ok then append_bytes data_bytes q else q

-- `direct_write(const char*)`, the bytes in front of the NUL: the test comes after the store.
unfoldable pub direct_write_cstr : (ℕ → ℕ) → Bytes → PageBuf → PageBuf
direct_write_cstr junk [] p = p
direct_write_cstr junk (c ∷ data_bytes) p =
    let q = put c p in
    let (ok, grown) = resize junk none q in
    let rest = direct_write_cstr junk data_bytes q in
    let rest_grown = direct_write_cstr junk data_bytes grown in
    if leb q.buf_size q.buf_curr then (if ok then rest_grown else grown) else rest

-- `direct_write(char v)`
unfoldable pub direct_write_char : (ℕ → ℕ) → ℕ → PageBuf → PageBuf
direct_write_char junk v p = let (ok, q) = make_room junk 32 p in if ok then put v q else q

-- `replace(loc,data)`: `buf_size-loc` is unsigned, so a `loc` behind the block makes no room.
unfoldable pub replace : (ℕ → ℕ) → ℕ → Bytes → PageBuf → PageBuf
replace junk loc data_bytes p =
    let (ok, q) =
      if leb loc p.buf_size && ltb (p.buf_size - loc) (length data_bytes)
      then resize junk none p
      else (true, p) in
    if ok
    then record q {
      p_buf = copy_in data_bytes loc q.p_buf;
      buf_curr = q.buf_curr + length data_bytes;
    }
    else q

-- `clear()`, `pop()`, `pop(int)` and `back()`
abbrev pub clear : PageBuf → PageBuf
clear p = record p { buf_curr = 0; buf_start = 0 }

abbrev pub pop : PageBuf → PageBuf
pop p = if ltb 0 p.buf_curr then record p { buf_curr = p.buf_curr - 1 } else p

abbrev pub pop_many : ℕ → PageBuf → PageBuf
pop_many n p = if leb n p.buf_curr then record p { buf_curr = p.buf_curr - n } else p

abbrev pub back : PageBuf → ℕ
back p = if ltb 0 p.buf_curr then p.p_buf (p.buf_curr - 1) else 0

-- `read_socket`: the bytes that `recv` delivered for the room left, `none` for its error
unfoldable pub read_socket : (ℕ → ℕ) → Option Bytes → PageBuf → Bool × PageBuf
read_socket junk none p = (false, p)
read_socket junk (some []) p = (false, p)
read_socket junk (some (c ∷ cs)) p =
    let q = append_bytes (c ∷ cs) p in
    if q.buf_curr == q.buf_size then resize junk none q else (true, q)

-- how much `write_socket` hands to `send`
unfoldable pub trans_size : PageBuf → ℕ
trans_size p = let left = p.buf_curr - p.buf_start in if ltb io_size left then io_size else left

-- `write_socket`, where `sent` is the result of `send` on the next `trans_size` bytes
unfoldable pub write_socket : ℤ → PageBuf → ℤ × PageBuf
write_socket (negsuc n) p = (minus_one, p)
write_socket (pos sent) p =
    let q = record p { buf_start = p.buf_start + sent } in
    if ltb q.buf_start q.buf_curr then (pos 0, q) else (pos 1, q)
