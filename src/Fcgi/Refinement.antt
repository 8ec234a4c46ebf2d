-- ===== src/Fcgi/Refinement.antt =====
-- A stream of whole records is handled as the specification says.
use sq_sp.Prelude.{
  ℕ, zero, suc, ◌+◌, ◌-◌, ◌<◌, ◌≤◌, ◌≡◌, refl, Bool, true, false, List, [], ◌∷◌, Option, none, some,
  ltb, length, length-append, arith, All,
}
use sq_sp.Download.{conn_finished}
use sq_sp.HttpHeader.Memory.{Holds, Holds-append}
use sq_sp.Fcgi.{
  FcgiServer, Step, next, stop, lost, Surroundings, fcgi_round, fcgi_loop, parse_fastcgi,
  fcgi_header_len,
}
use sq_sp.Fcgi.Room.{capacity}
use sq_sp.Fcgi.Records.{FcgiRecord, record_text}
use sq_sp.Fcgi.Spec.{
  Packet, packet_record, stream_text, IsPacket, View, deliver, deliver_all, view_of,
}
use sq_sp.Fcgi.Streams.{IsReady, Implements, message-RoundImplements}

-- What the loop returns on a stream, next to what the specification says: the same result and the same
-- view; a refused message finishes the connection, and else the buffer is empty.
abbrev pub Runs : Bool × View → Option (Bool × FcgiServer) → Type 0
Runs (ok, v) none = ⊥
Runs (ok, v) (some (result, t)) =
    (result ≡ ok)
    × ((i : ℕ) → view_of t i ≡ v i)
    × (ok ≡ false → t.link_stat ≡ conn_finished)
    × (ok ≡ true → (t.in_buf.buf_start ≡ 0) × (t.in_buf.buf_curr ≡ 0))

round_then :
    (v : View) (n l left : ℕ) (e : Surroundings) (s : FcgiServer) (ps : List Packet)
    (r : Option View) (st : Step)
    → Implements v n l s r st
    → ((w : View) (t : FcgiServer)
        → Implements v n l s (some w) (next t)
        → Runs (deliver_all ps w) (fcgi_loop left e t))
    → Runs
        (elim r [ none ↦ (false, v) | some w ↦ deliver_all ps w ])
        (elim st [ next t ↦ fcgi_loop left e t | stop ok t ↦ some (ok, t) | lost ↦ none ])
round_then v n l left e s ps none (next t) h k = absurd h
round_then v n l left e s ps none (stop ok t) (is, finished, same) k =
    (is, same, λ f. finished, λ f. absurd (ground arith))
round_then v n l left e s ps none lost h k = absurd h
round_then v n l left e s ps (some w) (next t) h k = k w t h
round_then v n l left e s ps (some w) (stop ok t) h k = absurd h
round_then v n l left e s ps (some w) lost h k = absurd h

record_positive : (r : FcgiRecord) → fcgi_header_len ≤ length (record_text r)
record_positive r = omega arith

fcgi_loop-Runs :
    (ps : List Packet) (left : ℕ) (e : Surroundings) (s : FcgiServer) (v : View)
    → All IsPacket ps
    → length (stream_text ps) ≤ capacity
    → length ps < left
    → Holds s.in_buf.p_buf s.in_buf.buf_start (stream_text ps)
    → s.in_buf.buf_curr ≡ s.in_buf.buf_start + length (stream_text ps)
    → ((i : ℕ) → view_of s i ≡ v i)
    → IsReady (length (stream_text ps)) s
    → Runs (deliver_all ps v) (fcgi_loop left e s)
unfolding fcgi_loop
fcgi_loop-Runs ps zero e s v good small enough held at_end same ready = absurd (omega arith)
fcgi_loop-Runs [] (suc left) e s v good small enough held at_end same ready =
    let empty : ltb s.in_buf.buf_start s.in_buf.buf_curr ≡ false = ground arith in
    rw (empty, fcgi_loop) (refl, same, λ f. absurd (ground arith), λ f. (refl, refl))
fcgi_loop-Runs (p ∷ ps) (suc left) e s v (packet, good) small enough held at_end same ready =
    let text = record_text (packet_record p) in
    let size = length-append text (stream_text ps) in
    let positive = record_positive (packet_record p) in
    let more : ltb s.in_buf.buf_start s.in_buf.buf_curr ≡ true = ground arith in
    let (here, behind) =
      Holds-append s.in_buf.p_buf s.in_buf.buf_start text (stream_text ps) held in
    rw (more, fcgi_loop)
      (round_then v (length (stream_text ps)) (length text) left e s ps (deliver p.message v)
        (fcgi_round e s)
        (message-RoundImplements v (length (stream_text (p ∷ ps))) (length (stream_text ps))
          (length text) s e p.message p.padding p.reserved packet (omega arith) (omega arith) here
          refl (omega arith) same ready)
        (λ w t (seen, ready', at).
          fcgi_loop-Runs ps left e t w good (omega arith) (omega arith) (rw at behind)
            (rw at (omega arith)) seen ready'))

-- `parse_fastcgi` implements the specification: on a buffer that holds whole records, of new requests and
-- of data for requests in any mixture, it returns, with the result that the specification has, and each
-- request has received exactly the data that was sent to it, in order; a message that is refused ends it
-- with the connection finished, and else the buffer is emptied. The ids are below 65535, the data of a
-- record is not empty, the stream and what each request has received do not exceed 33521664 bytes
-- together, and the number of rounds is more than that of the records.
pub parse_fastcgi-deliver_all :
    (p : Packet) (ps : List Packet) (left : ℕ) (e : Surroundings) (s : FcgiServer)
    → All IsPacket (p ∷ ps)
    → length (stream_text (p ∷ ps)) ≤ capacity
    → length (p ∷ ps) < left
    → Holds s.in_buf.p_buf s.in_buf.buf_start (stream_text (p ∷ ps))
    → s.in_buf.buf_curr ≡ s.in_buf.buf_start + length (stream_text (p ∷ ps))
    → IsReady (length (stream_text (p ∷ ps))) s
    → Runs (deliver_all (p ∷ ps) (view_of s)) (parse_fastcgi left e s)
unfolding parse_fastcgi
parse_fastcgi-deliver_all p ps left e s good small enough held at_end ready =
    let size = length-append (record_text (packet_record p)) (stream_text ps) in
    let positive = record_positive (packet_record p) in
    let long : ltb (s.in_buf.buf_curr - s.in_buf.buf_start) fcgi_header_len ≡ false =
      ground arith in
    rw (long, parse_fastcgi)
      (fcgi_loop-Runs (p ∷ ps) left e s (view_of s) good small enough held at_end (λ i. refl) ready)
