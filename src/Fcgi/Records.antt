-- ===== src/Fcgi/Records.antt =====
-- One record at the front of the buffer: read whole, or waited for.
use sq_sp.Prelude.{
  some, ℕ, zero, suc, ◌+◌, ◌-◌, ◌*◌, ◌/◌, ◌%◌, ◌<◌, ◌≤◌, ◌≡◌, refl, true, false, ◌∷◌, ◌++◌, ltb,
  leb, length, length-append, take, arith, Bool-cases, Bytes, inl, inr, ap, ◌∙◌,
}
use sq_sp.PageBuf.Size.{slice}
use sq_sp.Download.{read_ready}
use sq_sp.HttpHeader.Memory.{Holds, Holds-append}
use sq_sp.Params.Pairs.{Holds-slice}
use sq_sp.Fcgi.{
  FcgiServer, stop, byte_of, Surroundings, dispatch, fcgi_round, fcgi_header_len, parse_fastcgi,
  fcgi_loop,
}

-- A record of version 1 with its padding.
pub record FcgiRecord : Type 0 where
  pub type_of : ℕ
  pub request_id : ℕ
  pub content : Bytes
  pub padding : Bytes
  pub reserved : ℕ

abbrev pub record_text : FcgiRecord → Bytes
record_text r =
    1
    ∷ r.type_of
    ∷ (r.request_id / 256)
    ∷ (r.request_id % 256)
    ∷ (length r.content / 256)
    ∷ (length r.content % 256)
    ∷ length r.padding
    ∷ r.reserved
    ∷ (r.content ++ r.padding)

eight_lem : (i : ℕ) → i + fcgi_header_len ≡ i + 1 + 1 + 1 + 1 + 1 + 1 + 1 + 1
eight_lem i = omega arith

-- The bytes of the header, by their offsets.
abbrev pub Header : FcgiRecord → (ℕ → ℕ) → ℕ → Type 0
Header r f i =
    (f (i + 0) ≡ 1)
    × (f (i + 1) ≡ r.type_of)
    × (f (i + 2) ≡ r.request_id / 256)
    × (f (i + 3) ≡ r.request_id % 256)
    × (f (i + 4) ≡ length r.content / 256)
    × (f (i + 5) ≡ length r.content % 256)
    × (f (i + 6) ≡ length r.padding)
    × Holds f (i + fcgi_header_len) (r.content ++ r.padding)

pub shift : (f : ℕ → ℕ) (i j v : ℕ) → j ≡ i → f i ≡ v → f j ≡ v
shift f i j v e h = ap f e ∙ h

pub record-Header : (r : FcgiRecord) (f : ℕ → ℕ) (i : ℕ) → Holds f i (record_text r) → Header r f i
record-Header r f i (h0, (h1, (h2, (h3, (h4, (h5, (h6, (h7, body)))))))) = (
  shift f i (i + 0) 1 (omega arith) h0,
  h1,
  shift f _ (i + 2) _ (omega arith) h2,
  shift f _ (i + 3) _ (omega arith) h3,
  shift f _ (i + 4) _ (omega arith) h4,
  shift f _ (i + 5) _ (omega arith) h5,
  shift f _ (i + 6) _ (omega arith) h6,
  rw (eight_lem i) body,
)

-- A whole record at the front is given to `dispatch` with its own type, request, content and length.
pub fcgi_round-record_text :
    (e : Surroundings) (r : FcgiRecord) (s : FcgiServer)
    → r.request_id < 65536
    → length r.content < 65536
    → Holds s.in_buf.p_buf s.in_buf.buf_start (record_text r)
    → s.in_buf.buf_start + length (record_text r) ≤ s.in_buf.buf_curr
    → (fcgi_round e s
        ≡ dispatch e r.type_of r.request_id (length r.content) (length (record_text r)) s)
      × (slice s.in_buf.p_buf (s.in_buf.buf_start + fcgi_header_len) (length r.content) ≡ r.content)
unfolding fcgi_round
fcgi_round-record_text e r s id_small small held whole =
    let (h0, h1, h2, h3, h4, h5, h6, body) =
      record-Header r s.in_buf.p_buf s.in_buf.buf_start held in
    let size = length-append r.content r.padding in
    let id : r.request_id / 256 * 256 + r.request_id % 256 ≡ r.request_id = omega arith in
    let content : length r.content / 256 * 256 + length r.content % 256 ≡ length r.content =
      omega arith in
    let all : length r.content + length r.padding + fcgi_header_len ≡ length (record_text r) =
      omega arith in
    let enough : ltb (s.in_buf.buf_curr - s.in_buf.buf_start) (length (record_text r)) ≡ false =
      ground arith in
    (
      rw (h0, h1, h2, h3, h4, h5, h6, id, content, all, enough) refl,
      Holds-slice s.in_buf.p_buf (s.in_buf.buf_start + fcgi_header_len) r.content
          (Holds-append s.in_buf.p_buf (s.in_buf.buf_start + fcgi_header_len) r.content r.padding
            body).0,
    )

version_lem :
    (r : FcgiRecord) (n : ℕ) (f : ℕ → ℕ) (i : ℕ)
    → 0 < n
    → Holds f i (take n (record_text r))
    → f (i + 0) ≡ 1
version_lem r zero f i l h = absurd (omega arith)
version_lem r (suc n) f i l (h0, h) = shift f i (i + 0) 1 (omega arith) h0

lengths_lem :
    (r : FcgiRecord) (m : ℕ) (f : ℕ → ℕ) (i : ℕ)
    → Holds f i (take (suc (suc (suc (suc (suc (suc (suc m))))))) (record_text r))
    → (f (i + 4) ≡ length r.content / 256)
      × (f (i + 5) ≡ length r.content % 256)
      × (f (i + 6) ≡ length r.padding)
lengths_lem r m f i (h0, (h1, (h2, (h3, (h4, (h5, (h6, h))))))) = (
  shift f _ (i + 4) _ (omega arith) h4,
  shift f _ (i + 5) _ (omega arith) h5,
  shift f _ (i + 6) _ (omega arith) h6,
)

short_lem :
    (r : FcgiRecord) (n : ℕ) (f : ℕ → ℕ) (i : ℕ)
    → length r.content < 65536
    → n < length (record_text r)
    → Holds f i (take n (record_text r))
    → n < f (i + 4) * 256 + f (i + 5) + f (i + 6) + fcgi_header_len
short_lem r n f i small part h = elim (Bool-cases (leb n 6)) [
  | inl e ↦ let few : n ≤ 6 = ground arith in omega arith
  | inr e ↦
      let many : 6 < n = ground arith in
      let is : n ≡ suc (suc (suc (suc (suc (suc (suc (n - 7))))))) = omega arith in
      let (h4, h5, h6) = lengths_lem r (n - 7) f i (rw is at h) in
      let size = length-append r.content r.padding in omega arith
]

-- A part of a record at the front, at least one byte of it, is kept until more is read, whatever the
-- memory holds behind it.
pub parse_fastcgi-part :
    (left : ℕ) (e : Surroundings) (r : FcgiRecord) (n : ℕ) (s : FcgiServer)
    → length r.content < 65536
    → 0 < n
    → n < length (record_text r)
    → Holds s.in_buf.p_buf s.in_buf.buf_start (take n (record_text r))
    → s.in_buf.buf_curr ≡ s.in_buf.buf_start + n
    → parse_fastcgi (suc left) e s ≡ some (false, record s { link_stat = read_ready })
unfolding parse_fastcgi fcgi_loop fcgi_round
parse_fastcgi-part left e r n s small positive part held at_end =
    let version = version_lem r n s.in_buf.p_buf s.in_buf.buf_start positive held in
    let longer = short_lem r n s.in_buf.p_buf s.in_buf.buf_start small part held in
    let inside : ltb s.in_buf.buf_start s.in_buf.buf_curr ≡ true = ground arith in
    let waits : ltb (s.in_buf.buf_curr - s.in_buf.buf_start)
          (byte_of s 4 * 256 + byte_of s 5 + byte_of s 6 + fcgi_header_len)
        ≡ true =
      ground arith in
    let round : fcgi_round e s ≡ stop false (record s { link_stat = read_ready }) =
      rw (version, waits) refl in
    elim (Bool-cases (ltb (s.in_buf.buf_curr - s.in_buf.buf_start) fcgi_header_len)) [
      | inl short ↦ rw (short, parse_fastcgi) refl
      | inr long ↦ rw (long, inside, round, parse_fastcgi, fcgi_loop) refl
    ]
