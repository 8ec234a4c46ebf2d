-- ===== src/Connection/Complete.antt =====
-- When `read_client` reports that a request has been read.
use sq_sp.Prelude.{
  ℕ, ◌+◌, ◌≤◌, ◌≡◌, ◌⊎◌, inl, inr, refl, Bool, true, false, Option, none, some, ◌==◌, ltb, Bytes, ℤ,
  pos, negsuc, arith, Bool-cases, if◌then◌else◌, ◌>>=◌, codes, ◌∙◌,
}
use sq_sp.PageBuf.{resize, read_socket}
use sq_sp.Download.{read_finished, conn_finished}
use sq_sp.HttpHeader.{HttpHeader, decode_post}
use sq_sp.Upload.{MimeState, http_mime_request}
use sq_sp.Params.{header_of, with_header}
use sq_sp.Connection.{
  Receiving, Machine, max_postlength, type_is, boundary_at, read_body, grow_for, await_body,
  with_link, after_header, is_posted, parse_header, read_client, still_reading,
}

-- A request with a body has received all of it, and no more: the header and the number of bytes that
-- the client announced, which is within the limit.
abbrev pub IsComplete : Receiving → Type 0
IsComplete c =
    is_posted c.request.action ≡ true
    → (size : ℕ) × (c.request.post_length ≡ pos size)
      × (size ≤ max_postlength)
      × (c.request.in_buf.buf_curr ≡ size + c.header_length)

-- what completeness depends on
abbrev pub SameBody : Receiving → Receiving → Type 0
SameBody c d =
    (d.request.post_length ≡ c.request.post_length)
    × (d.request.in_buf.buf_curr ≡ c.request.in_buf.buf_curr)
    × (d.header_length ≡ c.header_length)

abbrev pub KeepsBody : Receiving → Option Receiving → Type 0
KeepsBody c none = Unit
KeepsBody c (some d) = SameBody c d

-- What `read_client` returns: if it stops, the connection is finished, or the request is complete.
abbrev pub Answers : Option (Bool × Receiving) → Type 0
Answers none = Unit
Answers (some (true, d)) = Unit
Answers (some (false, d)) =
    (d.request.link_stat ≡ conn_finished) ⊎ ((d.request.link_stat ≡ read_finished) × IsComplete d)

either-KeepsBody :
    (c : Receiving) (b : Bool) (x y : Option Receiving)
    → KeepsBody c x
    → KeepsBody c y
    → KeepsBody c (if b then x else y)
either-KeepsBody c true x y h k = h
either-KeepsBody c false x y h k = k

either-Answers :
    (b : Bool) (x y : Option (Bool × Receiving))
    → Answers x
    → Answers y
    → Answers (if b then x else y)
either-Answers true x y h k = h
either-Answers false x y h k = k

uploaded_as :
    (c : Receiving) (r : Option (Bool × MimeState)) (k : Bool × MimeState → Receiving)
    → ((t : Bool × MimeState) → SameBody c (k t))
    → KeepsBody c (r >>= λ t. some (k t))
uploaded_as c none k h = tt
uploaded_as c (some t) k h = h t

found_as :
    (c : Receiving) (o : Option (Option Bytes)) (k : Option Bytes → Option Receiving)
    → ((b : Option Bytes) → KeepsBody c (k b))
    → KeepsBody c (o >>= k)
found_as c none k h = tt
found_as c (some b) k h = h b

decoded_as :
    (c : Receiving) (o : Option HttpHeader)
    → KeepsBody c (o >>= λ h. some (record c { request = with_header h c.request }))
decoded_as c none = tt
decoded_as c (some h) = (refl, refl, refl)

boundary_as :
    (e : Machine) (size : ℕ) (c : Receiving) (b : Option Bytes)
    → KeepsBody c (elim b [
      | none ↦ some (record c { request = record c.request { flag_file_upload = true } })
      | some boundary ↦
          http_mime_request e.rounds c.request.in_buf.p_buf boundary c.request.post_data_offset size
            c.mime_table c.request.mlist
          >>= λ t. some (record c {
            request = record c.request { flag_file_upload = true; mlist = t.1.mime_list };
            mime_table = t.1.headers;
          })
    ])
boundary_as e size c none = (refl, refl, refl)
boundary_as e size c (some boundary) =
    uploaded_as c
      (http_mime_request e.rounds c.request.in_buf.p_buf boundary c.request.post_data_offset size
        c.mime_table c.request.mlist)
      _ (λ t. (refl, refl, refl))

read_body-KeepsBody : (e : Machine) (size : ℕ) (c : Receiving) → KeepsBody c (read_body e size c)
unfolding read_body
read_body-KeepsBody e size c =
    either-KeepsBody c (type_is c.request (codes "multipart/form-data")) _ _
      (found_as c (boundary_at e.rounds c.request) _ (boundary_as e size c))
      (either-KeepsBody c c.request.flag_json_request (some c) _ (refl, refl, refl)
        (decoded_as c (decode_post e.rounds c.request.post_data_offset size (header_of c.request))))

finished_as :
    (c : Receiving) (size : ℕ) (r : Option Receiving)
    → c.request.post_length ≡ pos size
    → size ≤ max_postlength
    → c.request.in_buf.buf_curr ≡ size + c.header_length
    → KeepsBody c r
    → Answers (r >>= λ done. some (false, with_link read_finished done))
finished_as c size none announced small all keeps = tt
finished_as c size (some d) announced small all (same_length, same_curr, same_header) =
    inr (refl, λ p. (size, same_length ∙ announced, small, rw (same_curr, same_header) all))

grow_for-SameBody : (e : Machine) (size : ℕ) (c : Receiving) → SameBody c (grow_for e size c)
unfolding grow_for resize
grow_for-SameBody e size c = elim (Bool-cases (ltb c.request.in_buf.buf_size size)) [
  | inl l ↦ rw l (refl, refl, refl)
  | inr l ↦ rw l (refl, refl, refl)
]

await_body-Answers :
    (e : Machine) (size : ℕ) (c : Receiving)
    → c.request.post_length ≡ pos size
    → Answers (await_body e size c)
unfolding await_body
await_body-Answers e size c announced =
    let d = grow_for e size c in
    let (same, same_curr, same_header) = grow_for-SameBody e size c in
    elim (Bool-cases (ltb max_postlength size)) [
      | inl large ↦ rw (large, await_body) (inl refl)
      | inr small ↦ elim (Bool-cases (d.request.in_buf.buf_curr == size + d.header_length)) [
        | inl all ↦
            rw (small, all, await_body)
              (finished_as d size (read_body e size d) (same ∙ announced) (ground arith)
                (ground arith) (read_body-KeepsBody e size d))
        | inr more ↦ rw (small, more, await_body) tt
      ]
    ]

posted_as :
    (e : Machine) (c : Receiving) (n : ℤ)
    → c.request.post_length ≡ n
    → Answers (elim n [
      | pos size ↦ await_body e size c
      | negsuc n ↦ if n == 0 then some (false, with_link conn_finished c) else still_reading e c
    ])
posted_as e c (pos size) is = await_body-Answers e size c is
posted_as e c (negsuc n) is = elim (Bool-cases (n == 0)) [
  | inl z ↦ rw z (inl refl)
  | inr z ↦ rw z tt
]

after_header-Answers : (e : Machine) (c : Receiving) → Answers (after_header e c)
unfolding after_header
after_header-Answers e c = elim (Bool-cases (is_posted c.request.action)) [
  | inl p ↦ rw (p, after_header) (posted_as e c c.request.post_length refl)
  | inr p ↦ rw (p, after_header) (inr (refl, λ q. absurd (ground arith)))
]

received_as :
    (e : Machine) (parsed : Option Receiving)
    → Answers (elim parsed [
      | none ↦ none
      | some d ↦ if d.flag_header_ok then after_header e d else still_reading e d
    ])
received_as e none = tt
received_as e (some d) =
    either-Answers d.flag_header_ok (after_header e d) (still_reading e d)
      (after_header-Answers e d) tt

-- If `read_client` stops, which is when it returns false, the connection is finished or the request has
-- been read; and a POST that has been read is complete: the buffer holds the header and exactly the
-- number of bytes that the client announced, 2 MB at most. So it is for whatever `recv` delivers, in
-- whatever state.
pub read_client-Answers :
    (e : Machine) (received : Option Bytes) (c : Receiving) → Answers (read_client e received c)
unfolding read_client
read_client-Answers e received c =
    let r = read_socket e.junk received c.request.in_buf in
    let d = record c { request = record c.request { in_buf = r.1 } } in
    elim (Bool-cases r.0) [
      | inl ok ↦
          rw (ok, read_client)
            (received_as e (if c.flag_header_ok then some d else parse_header e d))
      | inr failed ↦ rw (failed, read_client) (inl refl)
    ]
