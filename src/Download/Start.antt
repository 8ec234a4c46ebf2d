-- ===== src/Download/Start.antt =====
-- How the sending of a file begins.
use mathlib.Core.List.{append-nil, append_assoc}
use sq_sp.Prelude.{
  ◌+◌, ◌-◌, ◌≤◌, ◌≡◌, inl, inr, refl, true, ◌++◌, ◌==◌, ltb, length, length-take, length-drop, take,
  drop, Bytes, arith, Bool-cases, ap, sym, ◌∙◌,
}
use sq_sp.PageBuf.{PageBuf, io_size, append_bytes}
use sq_sp.PageBuf.Size.{contents}
use sq_sp.PageBuf.Direct.{slice-copy_in}
use sq_sp.Download.{HttpConn, write_file}
use sq_sp.Download.Deliver.{unsent, Leaves, take_split, file_size}

unsent_whole :
    (cs : Bytes) (p : PageBuf) → p.buf_start ≡ 0 → unsent (append_bytes cs p) ≡ contents p ++ cs
unsent_whole cs p zero_start =
    let size : p.buf_curr + length cs - 0 ≡ p.buf_curr + length cs = omega arith in
    rw (zero_start, size) (slice-copy_in cs p.buf_curr p.p_buf)

-- `write_file`, on a file with at least `FileLength` bytes and a header of at most 32 KB in the buffer,
-- makes the connection ready to write: what it is going to send is the header and the whole file.
pub write_file-Leaves :
    (text unread : Bytes) (c : HttpConn)
    → c.out_buf.buf_start ≡ 0
    → c.out_buf.buf_curr ≤ io_size
    → c.file_length ≤ length unread
    → Leaves (contents c.out_buf ++ take c.file_length unread) (write_file text unread c)
unfolding write_file
write_file-Leaves text unread c zero_start header whole =
    let room = io_size - c.out_buf.buf_curr in
    elim (Bool-cases (ltb c.file_length room)) [
      | inl small ↦
          let size = length-take c.file_length unread in
          let got : (length (take c.file_length unread) == c.file_length) ≡ true = ground arith in
          rw (small, got)
            (
              refl,
              append-nil (unsent (append_bytes (take c.file_length unread) c.out_buf))
                  ∙ unsent_whole (take c.file_length unread) c.out_buf zero_start,
              (λ u no. ground arith),
              omega arith,
              inl refl,
            )
      | inr large ↦
          let size = length-take room unread in
          let le : room ≤ c.file_length = ground arith in
          let got : (length (take room unread) == room) ≡ true = ground arith in
          let parts : room + (c.file_length - room) ≡ c.file_length = omega arith in
          let split = rw parts at (take_split room (c.file_length - room) unread) in
          let left = length-drop room unread in
          rw (large, got)
            (
              refl,
              ap (λ l. l ++ take (c.file_length - room) (drop room unread))
                    (unsent_whole (take room unread) c.out_buf zero_start)
                  ∙ (append_assoc (contents c.out_buf) (take room unread)
                        (take (c.file_length - room) (drop room unread))
                      ∙ ap (λ l. contents c.out_buf ++ l) (sym split)),
              (λ u is. let long = ap file_size is in omega arith),
              omega arith,
              inl refl,
            )
    ]
