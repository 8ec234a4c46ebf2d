-- ===== src/Upload/Values.antt =====
-- The values of the parts of an upload.
use sq_sp.Prelude.{
  ℕ, zero, suc, ◌+◌, ◌-◌, ◌≡◌, ◌≢◌, ◌⊎◌, inl, inr, refl, Bool, true, false, List, [], ◌∷◌, ◌++◌,
  Option, none, some, ◌==◌, ltb, length, Bytes, All, ℤ, pos, negsuc, Bool-cases, ◌>>=◌, arith,
  if◌then◌else◌, sym, ◌∙◌,
}
use sq_sp.Upload.{
  MimeHeader, MimeDataPair, new_pair, fill_headers, take_headers, append_text, value_text,
  set_value, MimeState, MimeStep, again, finished, unending, read_part, next_part, mime_round,
  mime_loop, http_mime_request, header_end, find_boundary,
}

-- A plain field without a value, or a file whose value is its name and whose data is kept.
abbrev pub IsPart : MimeDataPair → Type 0
IsPart p =
    ((p.filename ≡ []) × (p.value ≡ []))
    ⊎ ((p.filename ≢ []) × (p.value ≡ p.filename) × (p.p_data ≢ none))

-- The headers do not touch the value.
abbrev pub Untouched : Option (MimeDataPair × List MimeHeader) → Type 0
Untouched none = Unit
Untouched (some (p, hs)) = p.value ≡ []

value_of_filename :
    (f : ℕ → ℕ) (p_data : ℕ) (size : ℤ) (p : MimeDataPair) (filename : Bytes)
    → p.filename ≡ filename
    → p.value ≡ []
    → IsPart (set_value f p_data size p)
unfolding set_value
value_of_filename f p_data size p [] is unset = rw (is, set_value) (inl (is, rw unset refl))
value_of_filename f p_data size p (c ∷ cs) is unset =
    rw (is, set_value)
      (inr ((λ e. absurd (cons_lem c cs (sym is ∙ e))), sym is, λ e. absurd (some_lem p_data e)))
  where
    cons_lem : (x : ℕ) (xs : Bytes) → x ∷ xs ≡ [] → ⊥
    cons_lem x xs e = ground arith

    some_lem : (x : ℕ) → some x ≡ none → ⊥
    some_lem x e = ground arith

set_value-IsPart :
    (f : ℕ → ℕ) (p_data : ℕ) (size : ℤ) (p : MimeDataPair)
    → p.value ≡ []
    → IsPart (set_value f p_data size p)
set_value-IsPart f p_data size p unset = value_of_filename f p_data size p p.filename refl unset

append_text-value :
    (id : ℕ) (text : Bytes) (p : MimeDataPair) → (append_text id text p).value ≡ p.value
append_text-value id text p = elim (Bool-cases (id == 1)) [
  | inl e ↦ rw e refl
  | inr e ↦ elim (Bool-cases (id == 2)) [ inl e' ↦ rw (e, e') refl | inr e' ↦ rw (e, e') refl ]
]

without_text :
    (ph : MimeHeader) (r : Option (MimeDataPair × List MimeHeader))
    → Untouched r
    → Untouched (r >>= λ rest. some (rest.0, ph ∷ rest.1))
without_text ph none u = tt
without_text ph (some (p, hs)) u = u

with_rest :
    (stops : Bool) (p : MimeDataPair) (phs : List MimeHeader) (ph : MimeHeader)
    (r : Option (MimeDataPair × List MimeHeader))
    → p.value ≡ []
    → Untouched r
    → Untouched (r >>= λ rest. some (if stops then (p, phs) else (rest.0, ph ∷ rest.1)))
with_rest stops p phs ph none unset u = tt
with_rest true p phs ph (some (q, hs)) unset u = unset
with_rest false p phs ph (some (q, hs)) unset u = u

with_text :
    (o : Option Bytes) (k : Bytes → Option (MimeDataPair × List MimeHeader))
    → ((text : Bytes) → Untouched (k text))
    → Untouched (o >>= k)
with_text none k h = tt
with_text (some text) k h = h text

take_headers-Untouched :
    (phs : List MimeHeader) (f : ℕ → ℕ) (id : ℕ) (p : MimeDataPair)
    → p.value ≡ []
    → Untouched (take_headers f id phs p)
unfolding take_headers
take_headers-Untouched [] f id p unset = unset
take_headers-Untouched (ph ∷ phs) f id p unset = elim (Bool-cases (ph.value_length == 0)) [
  | inl e ↦
      rw (e, take_headers)
        (without_text ph (take_headers f (id + 1) phs p)
          (take_headers-Untouched phs f (id + 1) p unset))
  | inr e ↦
      rw (e, take_headers)
        (with_text (value_text f ph) _ (λ text.
          with_rest _ p (ph ∷ phs) (record ph { value_length = 0 })
            (take_headers f (id + 1) phs (append_text id text p)) unset
            (take_headers-Untouched phs f (id + 1) (append_text id text p)
              (append_text-value id text p ∙ unset))))
]

-- What a round leaves.
abbrev pub Keeps : MimeStep → Type 0
Keeps (again s) = All IsPart s.mime_list
Keeps (finished ok s) = All IsPart s.mime_list
Keeps unending = Unit

abbrev pub Returns : Option (Bool × MimeState) → Type 0
Returns none = Unit
Returns (some (ok, s)) = All IsPart s.mime_list

snoc-All :
    (ps : List MimeDataPair) (p : MimeDataPair)
    → All IsPart ps
    → IsPart p
    → All IsPart (ps ++ p ∷ [])
snoc-All [] p all h = (h, tt)
snoc-All (q ∷ ps) p (here, all) h = (here, snoc-All ps p all h)

filled-Untouched :
    (o : Option (List MimeHeader)) (f : ℕ → ℕ)
    → Untouched (o >>= λ hs. take_headers f 0 hs new_pair)
filled-Untouched none f = tt
filled-Untouched (some hs) f = take_headers-Untouched hs f 0 new_pair refl

part_as :
    (f : ℕ → ℕ) (p_data : ℕ) (size : ℤ) (loc : ℕ) (ps : List MimeDataPair)
    (filled : Option (MimeDataPair × List MimeHeader))
    → All IsPart ps
    → Untouched filled
    → Keeps (elim filled [
      | none ↦ unending
      | some (p, hs) ↦ again (record {
        loc = loc;
        first = some loc;
        headers = hs;
        mime_list = ps ++ set_value f p_data size p ∷ [];
      })
    ])
part_as f p_data size loc ps none all u = tt
part_as f p_data size loc ps (some (p, hs)) all u =
    snoc-All ps (set_value f p_data size p) all (set_value-IsPart f p_data size p u)

read_part-Keeps :
    (rounds : ℕ) (f : ℕ → ℕ) (buf str_length first second : ℕ) (s : MimeState)
    → All IsPart s.mime_list
    → Keeps (read_part rounds f buf str_length first second s)
unfolding read_part
read_part-Keeps rounds f buf str_length first second s all =
    let p_begin = buf + first + 2 in
    let p_limit = p_begin + second - 4 in
    let p_end = header_end f p_begin (p_limit - p_begin) in
    elim (Bool-cases (p_end == p_limit)) [
      | inl e ↦ rw (e, read_part) all
      | inr e ↦
          rw (e, read_part)
            (part_as f (p_end + 4) _ (second + str_length) s.mime_list _ all
              (filled-Untouched (fill_headers rounds f p_begin p_end s.headers) f))
    ]

next_part-Keeps :
    (rounds : ℕ) (f : ℕ → ℕ) (buf buf_size : ℕ) (boundary : Bytes) (loc first : ℕ) (s : MimeState)
    (r : ℤ)
    → All IsPart s.mime_list
    → Keeps (elim r [
      | negsuc n ↦ finished true s
      | pos fd ↦ read_part rounds f buf (length boundary) first (loc + fd) s
    ])
next_part-Keeps rounds f buf buf_size boundary loc first s (negsuc n) all = all
next_part-Keeps rounds f buf buf_size boundary loc first s (pos fd) all =
    read_part-Keeps rounds f buf (length boundary) first (loc + fd) s all

first_part-Keeps :
    (rounds : ℕ) (f : ℕ → ℕ) (buf buf_size : ℕ) (boundary : Bytes) (s : MimeState) (r : ℤ)
    → All IsPart s.mime_list
    → Keeps (elim r [
      | negsuc n ↦ finished true s
      | pos fd ↦
          next_part rounds f buf buf_size boundary
            (s.loc + (fd + length boundary))
            (s.loc + (fd + length boundary))
            s
    ])
unfolding next_part
first_part-Keeps rounds f buf buf_size boundary s (negsuc n) all = all
first_part-Keeps rounds f buf buf_size boundary s (pos fd) all =
    let loc = s.loc + (fd + length boundary) in
    next_part-Keeps rounds f buf buf_size boundary loc loc s
      (find_boundary f buf buf_size boundary loc) all

mime_round-Keeps :
    (rounds : ℕ) (f : ℕ → ℕ) (buf buf_size : ℕ) (boundary : Bytes) (s : MimeState) (from : Option ℕ)
    → s.first ≡ from
    → All IsPart s.mime_list
    → Keeps (mime_round rounds f buf buf_size boundary s)
unfolding mime_round next_part
mime_round-Keeps rounds f buf buf_size boundary s none is all =
    rw (is, mime_round)
      (first_part-Keeps rounds f buf buf_size boundary s
        (find_boundary f buf buf_size boundary s.loc) all)
mime_round-Keeps rounds f buf buf_size boundary s (some first) is all =
    rw (is, mime_round)
      (next_part-Keeps rounds f buf buf_size boundary s.loc first s
        (find_boundary f buf buf_size boundary s.loc) all)

round_then :
    (left rounds : ℕ) (f : ℕ → ℕ) (buf buf_size : ℕ) (boundary : Bytes) (st : MimeStep)
    → Keeps st
    → ((t : MimeState)
        → All IsPart t.mime_list
        → Returns (mime_loop left rounds f buf buf_size boundary t))
    → Returns (elim st [
      | again t ↦ mime_loop left rounds f buf buf_size boundary t
      | finished ok t ↦ some (ok, t)
      | unending ↦ none
    ])
round_then left rounds f buf buf_size boundary (again t) keeps next = next t keeps
round_then left rounds f buf buf_size boundary (finished ok t) keeps next = keeps
round_then left rounds f buf buf_size boundary unending keeps next = tt

mime_loop-Returns :
    (left rounds : ℕ) (f : ℕ → ℕ) (buf buf_size : ℕ) (boundary : Bytes) (s : MimeState)
    → All IsPart s.mime_list
    → Returns (mime_loop left rounds f buf buf_size boundary s)
unfolding mime_loop
mime_loop-Returns zero rounds f buf buf_size boundary s all = tt
mime_loop-Returns (suc left) rounds f buf buf_size boundary s all =
    elim (Bool-cases (ltb s.loc buf_size)) [
      | inl e ↦
          rw (e, mime_loop)
            (round_then left rounds f buf buf_size boundary
              (mime_round rounds f buf buf_size boundary s)
              (mime_round-Keeps rounds f buf buf_size boundary s s.first refl all)
              (λ t ok. mime_loop-Returns left rounds f buf buf_size boundary t ok))
      | inr e ↦ rw (e, mime_loop) all
    ]

-- Whatever an upload holds, `http_mime_request` appends to the list only parts of two kinds: files, whose
-- value is the name of the file and whose data is kept, and plain fields, whose value is empty, for the
-- text of a plain field is never taken over. `Returns` says so of the list that is left, if no scan runs on.
pub http_mime_request-Returns :
    (rounds : ℕ) (f : ℕ → ℕ) (boundary : Bytes) (buf buf_size : ℕ) (headers : List MimeHeader)
    (mime_list : List MimeDataPair)
    → All IsPart mime_list
    → Returns (http_mime_request rounds f boundary buf buf_size headers mime_list)
unfolding http_mime_request
http_mime_request-Returns rounds f boundary buf buf_size headers mime_list all =
    elim (Bool-cases (ltb 64 (length boundary))) [
      | inl e ↦ rw (e, http_mime_request) all
      | inr e ↦
          rw (e, http_mime_request)
            (mime_loop-Returns (buf_size + 1) rounds f buf buf_size boundary _ all)
    ]
