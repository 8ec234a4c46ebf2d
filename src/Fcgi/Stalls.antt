-- ===== src/Fcgi/Stalls.antt =====
-- The records that the `switch` names and does not handle.
use sq_sp.Prelude.{
  ℕ, zero, suc, ◌+◌, ◌-◌, ◌<◌, ◌≤◌, ◌≡◌, ◌≢◌, refl, true, false, none, ◌==◌, ltb, length, arith,
}
use sq_sp.HttpHeader.Memory.{Holds}
use sq_sp.Fcgi.{FcgiServer, next, Surroundings, dispatch, fcgi_loop, parse_fastcgi, fcgi_header_len}
use sq_sp.Fcgi.Records.{FcgiRecord, record_text, fcgi_round-record_text}

-- A type other than BEGIN_REQUEST, PARAMS and STDIN.
abbrev pub IsUnhandled : ℕ → Type 0
IsUnhandled k = (k ≢ 1) × (k ≢ 4) × (k ≢ 5)

dispatch-unhandled :
    (e : Surroundings) (k id content_length record_length : ℕ) (s : FcgiServer)
    → IsUnhandled k
    → dispatch e k id content_length record_length s ≡ next s
unfolding dispatch
dispatch-unhandled e k id content_length record_length s (begin, params, stdin) =
    let no_begin : (k == 1) ≡ false = ground arith in
    let no_params : (k == 4) ≡ false = ground arith in
    let no_stdin : (k == 5) ≡ false = ground arith in
    rw (no_begin, no_params, no_stdin, dispatch) refl

-- what stands at the front of the buffer
abbrev pub IsFront : FcgiRecord → FcgiServer → Type 0
IsFront r s =
    (r.request_id < 65536)
    × (length r.content < 65536)
    × Holds s.in_buf.p_buf s.in_buf.buf_start (record_text r)
    × (s.in_buf.buf_start + length (record_text r) ≤ s.in_buf.buf_curr)

loop_stalls :
    (left : ℕ) (e : Surroundings) (r : FcgiRecord) (s : FcgiServer)
    → IsUnhandled r.type_of
    → IsFront r s
    → fcgi_loop left e s ≡ none
unfolding fcgi_loop
loop_stalls zero e r s unhandled front = refl
loop_stalls (suc left) e r s unhandled (id_small, small, held, whole) =
    let (is, content) = fcgi_round-record_text e r s id_small small held whole in
    let same =
      dispatch-unhandled e r.type_of r.request_id (length r.content) (length (record_text r)) s
        unhandled in
    let inside : ltb s.in_buf.buf_start s.in_buf.buf_curr ≡ true = ground arith in
    rw (inside, is, same, fcgi_loop)
      (loop_stalls left e r s unhandled (id_small, small, held, whole))

-- Once a whole record of a type other than BEGIN_REQUEST, PARAMS and STDIN stands at the front of the
-- buffer, `parse_fastcgi` does not return: no number of rounds is enough, since no round consumes the
-- record. So it is with ABORT_REQUEST, which a web server may send.
pub parse_fastcgi-unhandled :
    (left : ℕ) (e : Surroundings) (r : FcgiRecord) (s : FcgiServer)
    → IsUnhandled r.type_of
    → IsFront r s
    → parse_fastcgi left e s ≡ none
unfolding parse_fastcgi
parse_fastcgi-unhandled left e r s unhandled (id_small, small, held, whole) =
    let long : ltb (s.in_buf.buf_curr - s.in_buf.buf_start) fcgi_header_len ≡ false =
      ground arith in
    rw (long, parse_fastcgi) (loop_stalls left e r s unhandled (id_small, small, held, whole))
