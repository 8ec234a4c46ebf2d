-- ===== src/Download/Deliver.antt =====
-- What a client is sent of a message or a file.
use mathlib.Core.List.{append-nil, append_assoc}
use sq_sp.Prelude.{
  ℕ, zero, suc, ◌+◌, ◌-◌, ◌≤◌, ◌≡◌, ◌⊎◌, inl, inr, refl, Bool, true, false, List, [], ◌∷◌, ◌++◌,
  ◌==◌, ltb, Option, none, some, length, length-take, length-drop, take, drop, if◌then◌else◌, Bytes,
  pos, arith, Bool-cases, ap, sym, ◌∙◌,
}
use sq_sp.PageBuf.{PageBuf, io_size, copy_in, write_socket, trans_size}
use sq_sp.PageBuf.Size.{slice}
use sq_sp.PageBuf.Direct.{slice-copy_in}
use sq_sp.Download.{HttpConn, LinkStat, write_ready, conn_finished, write_client, after_sent}

-- the bytes of the buffer that were not sent yet
abbrev pub unsent : PageBuf → Bytes
unsent p = slice p.p_buf p.buf_start (p.buf_curr - p.buf_start)

-- the bytes of the file that belong to the answer and were not read yet
abbrev pub unread_of : ℕ → Option Bytes → Bytes
unread_of n none = []
unread_of n (some unread) = take n unread

abbrev pub is_finished : LinkStat → Bool
is_finished conn_finished = true
is_finished _ = false

-- All that the client is still to get; a connection that is finished sends nothing more.
abbrev pub pending : HttpConn → Bytes
pending c =
    if is_finished c.link_stat then [] else unsent c.out_buf ++ unread_of c.file_length c.file

-- The file has not become shorter than it was.
abbrev pub IsWhole : HttpConn → Type 0
IsWhole c = (u : Bytes) → c.file ≡ some u → c.file_length ≤ length u

slice_split : (f : ℕ → ℕ) (i m n : ℕ) → slice f i (m + n) ≡ slice f i m ++ slice f (i + m) n
slice_split f i zero n = ground arith
slice_split f i (suc m) n =
    let one : suc m + n ≡ suc (m + n) = omega arith in
    let at : i + suc m ≡ i + 1 + m = omega arith in
    rw (one, at) (ap (λ l. f i ∷ l) (slice_split f (i + 1) m n))

take_nil : (n : ℕ) → take {A = ℕ} n [] ≡ []
take_nil zero = refl
take_nil (suc n) = refl

pub take_split : (m n : ℕ) (u : Bytes) → take (m + n) u ≡ take m u ++ take n (drop m u)
take_split zero n u = ground arith
take_split (suc m) n [] = rw (take_nil (suc m + n), take_nil n) refl
take_split (suc m) n (x ∷ u) =
    let one : suc m + n ≡ suc (m + n) = omega arith in rw one (ap (λ l. x ∷ l) (take_split m n u))

-- What one step of the connection leaves: it goes on, or it is finished with nothing left to send.
abbrev pub Leaves : Bytes → Bool × HttpConn → Type 0
Leaves rest (ok, c) =
    (ok ≡ true)
    × (pending c ≡ rest)
    × IsWhole c
    × (c.out_buf.buf_start ≤ c.out_buf.buf_curr)
    × ((c.link_stat ≡ write_ready) ⊎ (c.link_stat ≡ conn_finished))

next_part :
    (c : HttpConn) (u : Bytes) (n : ℕ)
    → c.file ≡ some u
    → c.file_length ≤ length u
    → n ≤ c.file_length
    → slice (copy_in (take n u) 0 c.out_buf.p_buf) 0 (n - 0) ++ take (c.file_length - n) (drop n u)
      ≡ take c.file_length u
next_part c u n e whole le =
    let size : length (take n u) ≡ n = omega (arith, length-take n u) in
    let here : slice (copy_in (take n u) 0 c.out_buf.p_buf) 0 (0 + length (take n u)) ≡ take n u =
      slice-copy_in (take n u) 0 c.out_buf.p_buf in
    let zero_n : 0 + length (take n u) ≡ n = omega arith in
    let whole_n : n + (c.file_length - n) ≡ c.file_length = omega arith in
    let all : n - 0 ≡ n = omega arith in
    rw (all, rw zero_n at here) (sym (rw whole_n at (take_split n (c.file_length - n) u)))

abbrev pub file_size : Option Bytes → ℕ
file_size none = 0
file_size (some u) = length u

-- how much `write_client` reads next
abbrev part : HttpConn → ℕ
part c = if ltb io_size c.file_length then io_size else c.file_length

part_le : (c : HttpConn) → part c ≤ c.file_length
part_le c = ground arith

after_sent-Leaves_as :
    (c : HttpConn) (o : Option Bytes)
    → c.file ≡ o
    → IsWhole c
    → c.link_stat ≡ write_ready
    → c.out_buf.buf_start ≤ c.out_buf.buf_curr
    → Leaves (unread_of c.file_length o) (after_sent c)
unfolding after_sent
after_sent-Leaves_as c none e whole ready order =
    rw (e, after_sent) (refl, refl, (λ u no. whole u no), omega arith, inr refl)
after_sent-Leaves_as c (some u) e whole ready order = elim (Bool-cases (c.file_length == 0)) [
  | inl over ↦
      let none_left : c.file_length ≡ 0 = ground arith in
      rw (e, after_sent)
        (rw over (refl, rw none_left refl, (λ v no. ground arith), order, inr refl))
  | inr more ↦
      let n = part c in
      let le = part_le c in
      let enough = whole u e in
      let size : length (take n u) ≡ n = omega (arith, length-take n u) in
      let got : (length (take n u) == n) ≡ true = ground arith in
      let left = length-drop n u in
      rw (e, after_sent)
        (rw (more, got)
          (
            refl,
            next_part c u n e enough le,
            (λ v is. let long = ap file_size is in omega arith),
            omega arith,
            inl refl,
          ))
]

-- the client's bytes: those that `send` took, then those still pending
client_step :
    (clock sent : ℕ) (c : HttpConn)
    → c.link_stat ≡ write_ready
    → IsWhole c
    → c.out_buf.buf_start + sent ≤ c.out_buf.buf_curr
    → (rest : Bytes) × (pending c ≡ slice c.out_buf.p_buf c.out_buf.buf_start sent ++ rest)
      × Leaves rest (write_client clock (pos sent) c)
unfolding write_client write_socket
client_step clock sent c ready whole le =
    elim (Bool-cases (ltb (c.out_buf.buf_start + sent) c.out_buf.buf_curr)) [
      | inl more ↦
          let p = record c.out_buf { buf_start = c.out_buf.buf_start + sent } in
          let c' = record c { out_buf = p; time_stamp = clock } in
          let start = c.out_buf.buf_start in
          let left = c.out_buf.buf_curr - (start + sent) in
          let size : c.out_buf.buf_curr - start ≡ sent + left = omega arith in
          let first : pending c ≡ unsent c.out_buf ++ unread_of c.file_length c.file =
            rw ready refl in
          let later : pending c' ≡ unsent p ++ unread_of c.file_length c.file = rw ready refl in
          let halves : unsent c.out_buf ≡ slice c.out_buf.p_buf start sent ++ unsent p =
            rw size (slice_split c.out_buf.p_buf start sent left) in
          (
            pending c',
            first
                ∙ (ap (λ l. l ++ unread_of c.file_length c.file) halves
                    ∙ (append_assoc (slice c.out_buf.p_buf start sent) (unsent p)
                          (unread_of c.file_length c.file)
                        ∙ ap (λ l. slice c.out_buf.p_buf start sent ++ l) (sym later))),
            rw more (refl, refl, whole, omega arith, inl ready),
          )
      | inr all ↦
          let p = record c.out_buf { buf_start = c.out_buf.buf_start + sent } in
          let c' = record c { out_buf = p; time_stamp = clock } in
          let size : c.out_buf.buf_curr - c.out_buf.buf_start ≡ sent = ground arith in
          (
            unread_of c.file_length c.file,
            rw (ready, size) refl,
            rw all (after_sent-Leaves_as c' c.file refl whole ready (omega arith)),
          )
    ]

abbrev pub is_ready : LinkStat → Bool
is_ready write_ready = true
is_ready _ = false

-- The calls of `write_client` while the connection is ready to write, by what each `send` takes: the
-- bytes that it took, and the connection at the end.
unfoldable pub deliver : ℕ → List ℕ → HttpConn → Bytes × HttpConn
deliver clock [] c = ([], c)
deliver clock (sent ∷ sents) c =
    let rest = deliver clock sents (write_client clock (pos sent) c).1 in
    if is_ready c.link_stat
    then (slice c.out_buf.p_buf c.out_buf.buf_start sent ++ rest.0, rest.1)
    else ([], c)

-- Each `send` takes no more than it is given.
unfoldable pub AreTaken : ℕ → List ℕ → HttpConn → Type 0
AreTaken clock [] c = Unit
AreTaken clock (sent ∷ sents) c =
    (sent ≤ trans_size c.out_buf) × AreTaken clock sents (write_client clock (pos sent) c).1

trans_size_le : (p : PageBuf) → trans_size p ≤ p.buf_curr - p.buf_start
unfolding trans_size
trans_size_le p = ground arith

abbrev IsOpen : HttpConn → Type 0
IsOpen c =
    IsWhole c
    × (c.out_buf.buf_start ≤ c.out_buf.buf_curr)
    × ((c.link_stat ≡ write_ready) ⊎ (c.link_stat ≡ conn_finished))

deliver_from :
    (clock : ℕ) (sents : List ℕ) (c : HttpConn)
    → IsOpen c
    → AreTaken clock sents c
    → (deliver clock sents c).0 ++ pending (deliver clock sents c).1 ≡ pending c
unfolding deliver AreTaken
deliver_from clock [] c state taken = refl
deliver_from clock (sent ∷ sents) c (whole, order, inr done) (one, taken) =
    let test : is_ready c.link_stat ≡ false = rw done refl in rw test refl
deliver_from clock (sent ∷ sents) c (whole, order, inl ready) (one, taken) =
    let fits = trans_size_le c.out_buf in
    let (rest, split, (ok, after, whole', order', stat')) =
      client_step clock sent c ready whole (omega arith) in
    let next =
      deliver_from clock sents (write_client clock (pos sent) c).1 (whole', order', stat') taken in
    let front = slice c.out_buf.p_buf c.out_buf.buf_start sent in
    let tail = deliver clock sents (write_client clock (pos sent) c).1 in
    let test : is_ready c.link_stat ≡ true = rw ready refl in
    rw test (
      append_assoc front tail.0 (pending tail.1)
      ∙ (ap (λ l. front ++ l) (next ∙ after) ∙ sym split))

-- From a connection that is ready to write, whatever parts of what it is given `send` takes: the bytes
-- that it took and those still pending are the rest of the buffer and of the file, in that order. So
-- a connection that has come to its end has sent its client these bytes, each once. The file must not
-- have become shorter than its length says.
pub deliver_lem :
    (clock : ℕ) (sents : List ℕ) (c : HttpConn)
    → c.link_stat ≡ write_ready
    → IsWhole c
    → c.out_buf.buf_start ≤ c.out_buf.buf_curr
    → AreTaken clock sents c
    → ((deliver clock sents c).0 ++ pending (deliver clock sents c).1
        ≡ unsent c.out_buf ++ unread_of c.file_length c.file)
      × ((deliver clock sents c).1.link_stat ≡ conn_finished
          → (deliver clock sents c).0 ≡ unsent c.out_buf ++ unread_of c.file_length c.file)
deliver_lem clock sents c ready whole order taken =
    let all = deliver_from clock sents c (whole, order, inl ready) taken in
    let start : pending c ≡ unsent c.out_buf ++ unread_of c.file_length c.file = rw ready refl in
    let r = deliver clock sents c in
    (
      all ∙ start,
      λ done.
          let none_left : pending r.1 ≡ [] = rw done refl in
          sym (append-nil r.0) ∙ (ap (λ l. r.0 ++ l) (sym none_left) ∙ (all ∙ start)),
    )
