-- ===== src/Download/Tests.antt =====
-- Runs of the sending side.
use sq_sp.Prelude.{ℕ, ◌≡◌, refl, false, [], ◌∷◌, ◌++◌, some, codes, negsuc, arith}
use sq_sp.PageBuf.{init, append_bytes, write_socket, trans_size}
use sq_sp.PageBuf.Size.{contents}
use sq_sp.Download.{
  HttpConn, read_finished, write_ready, conn_finished, write_file, write_client, after_sent,
  read_failed, send_http_msg,
}
use sq_sp.Download.Deliver.{Leaves, IsWhole, pending, deliver, AreTaken, deliver_lem}
use sq_sp.Download.Start.{write_file-Leaves}

abbrev zeros : ℕ → ℕ
zeros i = 0

-- a connection with the header `H` in its buffer and a file of four bytes to send
abbrev with_header : HttpConn
with_header = record {
  out_buf = append_bytes (codes "H") (init zeros);
  file_length = 4;
  file = some (codes "file");
  link_stat = read_finished;
  time_stamp = 0;
}

-- the buffer all but sent, two bytes of the file unread
abbrev half : HttpConn
half = record {
  out_buf = append_bytes (codes "Hfi") (init zeros);
  file_length = 2;
  file = some (codes "le");
  link_stat = write_ready;
  time_stamp = 0;
}

short_file : contents (write_file (codes "E") (codes "fi") with_header).1.out_buf ≡ codes "E"
unfolding write_file read_failed send_http_msg
short_file = refl

send_failed : (write_client 9 (negsuc 1) half).0 ≡ false
unfolding write_client write_socket
send_failed = refl

write_file-Leaves_example :
    Leaves (codes "H" ++ codes "file") (write_file (codes "E") (codes "file") with_header)
write_file-Leaves_example =
    write_file-Leaves (codes "E") (codes "file") with_header refl (omega arith) (omega arith)

half-IsWhole : IsWhole half
half-IsWhole u is = ground arith

all_taken : AreTaken 9 (2 ∷ 1 ∷ 2 ∷ []) half
unfolding AreTaken write_client write_socket after_sent trans_size
all_taken = ground arith

deliver_lem_example :
    ((deliver 9 (2 ∷ 1 ∷ 2 ∷ []) half).0 ++ pending (deliver 9 (2 ∷ 1 ∷ 2 ∷ []) half).1
      ≡ codes "Hfi" ++ codes "le")
    × ((deliver 9 (2 ∷ 1 ∷ 2 ∷ []) half).1.link_stat ≡ conn_finished
        → (deliver 9 (2 ∷ 1 ∷ 2 ∷ []) half).0 ≡ codes "Hfi" ++ codes "le")
deliver_lem_example = deliver_lem 9 (2 ∷ 1 ∷ 2 ∷ []) half refl half-IsWhole (omega arith) all_taken
