-- ===== src/PageBuf/Tests.antt =====
-- Runs of the buffer.
use sq_sp.Prelude.{ℕ, ◌≡◌, refl, [], ◌∷◌, some, replicate, Bytes, pos, arith, codes}
use sq_sp.PageBuf.{
  PageBuf, init, resize, write_cstr_counted, direct_write, direct_write_cstr, direct_write_char,
  replace, read_socket, write_socket, trans_size, pop, pop_many, back, clear, make_room,
  write_escaped, escape,
}
use sq_sp.PageBuf.Size.{IsSized, contents}
use sq_sp.PageBuf.Write.{Escapes, write_cstr_counted-Escapes}
use sq_sp.PageBuf.Direct.{Appends, Receives, direct_write-Appends, read_socket-Receives}

abbrev zeros : ℕ → ℕ
zeros i = 0

abbrev start : PageBuf
start = init zeros

start-IsSized : IsSized start
start-IsSized = (omega arith, omega arith)

quoted_run : contents (write_cstr_counted zeros (b'a' ∷ b'"' ∷ 10 ∷ []) start) ≡ codes "a\\\"\\n"
unfolding write_cstr_counted make_room write_escaped escape
quoted_run = refl

cstr_run : contents (direct_write_cstr zeros (codes "ok") start) ≡ codes "ok"
unfolding direct_write_cstr resize
cstr_run = refl

char_run : back (direct_write_char zeros 7 (direct_write_char zeros 8 start)) ≡ 7
unfolding direct_write_char make_room
char_run = refl

popped : contents (pop_many 2 (pop (direct_write zeros (codes "page") start))) ≡ codes "p"
unfolding direct_write make_room
popped = refl

-- `replace` inside the contents makes them longer by what it wrote.
replaced : (replace zeros 0 (codes "xy") (direct_write zeros (codes "page") start)).buf_curr ≡ 6
unfolding replace direct_write make_room
replaced = refl

emptied : contents (clear (direct_write zeros (codes "page") start)) ≡ []
emptied = refl

-- `send` takes three of the four bytes, then the last one.
sent_run :
    ((write_socket (pos 3) (direct_write zeros (codes "page") start)).0 ≡ pos 0)
    × ((write_socket (pos 4) (direct_write zeros (codes "page") start)).0 ≡ pos 1)
    × (trans_size (direct_write zeros (codes "page") start) ≡ 4)
unfolding write_socket direct_write make_room trans_size
sent_run = (refl, refl, refl)

write_cstr_counted-Escapes_example :
    Escapes (codes "a\"b") start (write_cstr_counted zeros (codes "a\"b") start)
write_cstr_counted-Escapes_example =
    write_cstr_counted-Escapes zeros (codes "a\"b") start start-IsSized (omega arith)

direct_write-Appends_example :
    Appends (codes "page") start (direct_write zeros (codes "page") start)
direct_write-Appends_example =
    direct_write-Appends zeros (codes "page") start start-IsSized (omega arith) (omega arith)

abbrev long_text : Bytes
long_text = replicate 98305 b'x'

read_socket-Receives_example :
    Receives (codes "GET") start (read_socket zeros (some (codes "GET")) start)
read_socket-Receives_example =
    read_socket-Receives zeros b'G' (b'E' ∷ b'T' ∷ []) start start-IsSized (omega arith)
