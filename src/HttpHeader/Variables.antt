-- ===== src/HttpHeader/Variables.antt =====
-- How the loop over a form ends a name and a variable, on encoded texts.
use sq_sp.Prelude.{
  ℕ, ◌+◌, ◌<◌, ◌≤◌, ◌≡◌, ◌⊎◌, inl, inr, refl, Bool, true, false, [], ◌∷◌, ◌++◌, some, ◌==◌, length,
  length-append, arith, Bytes, Lacks, All, ◌∙◌,
}
use sq_sp.PageBuf.{store}
use sq_sp.HttpHeader.{
  at, HttpHeader, FormState, urldecode_at, end_var, push_var, at_equals, at_ampersand, cstring_at,
}
use sq_sp.HttpHeader.Memory.{Holds, Holds-cong, cut-Holds, cstring-Holds}
use sq_sp.HttpHeader.Escapes.{
  encode, encode_char, encode_char-Stands, Stands-length, IsChar, urldecode-encode,
}

pub chars-Lacks : (s : Bytes) → All IsChar s → Lacks 0 s
chars-Lacks [] good = tt
chars-Lacks (c ∷ s) ((not_nul, byte), good) = (not_nul, chars-Lacks s good)

pub encode-length : (s : Bytes) → All IsChar s → length s ≤ length (encode s)
encode-length [] good = omega arith
encode-length (c ∷ s) (char, good) = omega (
  arith,
  encode-length s good,
  length-append (encode_char c) (encode s),
  Stands-length c (encode_char c) (encode_char-Stands c char),
)

-- The texts that `end_var` is given: the name decoded, the value as it came, both with their NULs.
abbrev pub Texts : ℕ → ℕ → Bytes → Bytes → (ℕ → ℕ) → Type 0
Texts name value n v f =
    Holds f name (n ++ 0 ∷ [])
    × Holds f value (encode v ++ 0 ∷ [])
    × (name + length n < value)
    × All IsChar n
    × All IsChar v

-- The memory after `end_var`, of the same texts with both decoded; the rest is as it was.
abbrev pub Ends : ℕ → ℕ → Bytes → Bytes → (ℕ → ℕ) → (ℕ → ℕ) → Type 0
Ends name value n v f g =
    Holds g name (n ++ 0 ∷ [])
    × Holds g value (v ++ 0 ∷ [])
    × ((k : ℕ) → (k < value) ⊎ (value + length (encode v) < k) → g k ≡ f k)

pub end_var-Ends :
    (rounds : ℕ) (keep_session : Bool) (name value : ℕ) (n v : Bytes) (h : HttpHeader)
    → Texts name value n v h.memory
    → length n < rounds
    → length (encode v) < rounds
    → (g : ℕ → ℕ) × (end_var rounds keep_session (at name) (at value) h
        ≡ some (push_var keep_session (at name) (at value) n v (record h { memory = g })))
      × Ends name value n v h.memory g
unfolding end_var urldecode_at cstring_at
end_var-Ends rounds keep_session name value n v h (named, encoded, order, n_good, v_good) n_room
      v_room =
    let (g, is, held, frame) =
      urldecode-encode v rounds h.memory value value false v_good v_room (omega arith) (λ e. refl)
        encoded in
    let kept =
      Holds-cong h.memory g name (n ++ 0 ∷ [])
        (λ k l m. frame k (inl (omega (arith, length-append n (0 ∷ []))))) named in
    let n_is = cstring-Holds n rounds g name (chars-Lacks n n_good) n_room kept in
    let v_is =
      cstring-Holds v rounds g value (chars-Lacks v v_good) (omega (arith, encode-length v v_good))
        held in
    (g, rw (is, n_is, v_is) refl, (kept, held, frame))

store_other : (q v : ℕ) (f : ℕ → ℕ) (k : ℕ) → (k < q) ⊎ (q < k) → store q v f k ≡ f k
store_other q v f k (inl l) = ground arith
store_other q v f k (inr l) = ground arith

-- At the `=` behind an encoded name.
pub at_equals-encode :
    (rounds : ℕ) (n rest : Bytes) (t : FormState)
    → Holds t.header.memory t.name (encode n ++ b'=' ∷ rest)
    → All IsChar n
    → length (encode n) < rounds
    → t.p_buf ≡ t.name + length (encode n)
    → (g : ℕ → ℕ) × (at_equals rounds t
        ≡ some (record t {
          header = record t.header { memory = g };
          p_buf = t.p_buf + 1;
          value = at (t.p_buf + 1);
        }))
      × Holds g t.name (n ++ 0 ∷ [])
      × ((k : ℕ) → (k < t.name) ⊎ (t.p_buf < k) → g k ≡ t.header.memory k)
unfolding at_equals urldecode_at
at_equals-encode rounds n rest t held good room here =
    let (cut, is_equals) =
      cut-Holds t.header.memory t.name t.p_buf (encode n) b'=' rest here held in
    let yes : (t.header.memory t.p_buf == b'=') ≡ true = ground arith in
    let (g, is, decoded, frame) =
      urldecode-encode n rounds (store t.p_buf 0 t.header.memory) t.name t.name false good room
        (omega arith) (λ e. refl) cut in
    let moved : (k : ℕ)
        → (k < t.name) ⊎ (t.p_buf < k)
        → (k < t.name) ⊎ (t.name + length (encode n) < k) =
      λ k o. elim o [ inl l ↦ inl l | inr l ↦ inr (omega arith) ] in
    let outside : (k : ℕ)
        → (k < t.name) ⊎ (t.p_buf < k)
        → store t.p_buf 0 t.header.memory k ≡ t.header.memory k =
      λ k o.
        store_other t.p_buf 0 t.header.memory k
          (elim o [ inl l ↦ inl (omega arith) | inr l ↦ inr l ]) in
    (g, rw (yes, at_equals, is) refl, decoded, λ k o. frame k (moved k o) ∙ outside k o)

-- At the `&` behind an encoded value.
pub at_ampersand-encode :
    (rounds : ℕ) (keep_session : Bool) (value : ℕ) (n v rest : Bytes) (t : FormState)
    → Holds t.header.memory t.name (n ++ 0 ∷ [])
    → Holds t.header.memory value (encode v ++ b'&' ∷ rest)
    → t.value ≡ at value
    → t.name + length n < value
    → All IsChar n
    → All IsChar v
    → length n < rounds
    → length (encode v) < rounds
    → t.p_buf ≡ value + length (encode v)
    → (g : ℕ → ℕ) × (at_ampersand rounds keep_session t
        ≡ some (record t {
          header =
              push_var keep_session (at t.name) (at value) n v (record t.header { memory = g });
          p_buf = t.p_buf + 1;
          name = t.p_buf + 1;
        }))
      × Ends t.name value n v t.header.memory g
unfolding at_ampersand
at_ampersand-encode rounds keep_session value n v rest t named held is order n_good v_good n_room
      v_room here =
    let f = store t.p_buf 0 t.header.memory in
    let (cut, is_ampersand) =
      cut-Holds t.header.memory value t.p_buf (encode v) b'&' rest here held in
    let yes : (t.header.memory t.p_buf == b'&') ≡ true = ground arith in
    let kept =
      Holds-cong t.header.memory f t.name (n ++ 0 ∷ [])
        (λ k l m.
          store_other t.p_buf 0 t.header.memory k (inl (omega (arith, length-append n (0 ∷ [])))))
        named in
    let (g, ended, (n_is, v_is, frame)) =
      end_var-Ends rounds keep_session t.name value n v (record t.header { memory = f })
        (kept, cut, order, n_good, v_good) n_room v_room in
    (
      g,
      rw (yes, at_ampersand, is, ended) refl,
      (
        n_is,
        v_is,
        λ k o.
            frame k o
            ∙ store_other t.p_buf 0 t.header.memory k
                (elim o [ inl l ↦ inl (omega arith) | inr l ↦ inr (omega arith) ]),
      ),
    )
