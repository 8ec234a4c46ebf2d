-- ===== src/HttpHeader/Fields.antt =====
-- The fields of a form one after the other: the name, the value up to the next field, the last value.
use sq_sp.Prelude.{
  ℕ, zero, suc, ◌+◌, ◌-◌, ◌<◌, ◌≡◌, ◌⊎◌, inr, refl, Bool, List, [], ◌∷◌, ◌++◌, some, length,
  length-append, arith, Bytes, All, sym, ◌∙◌,
}
use sq_sp.HttpHeader.{at, FormState, end_var, push_var, at_ampersand, form_loop}
use sq_sp.HttpHeader.Memory.{Holds, Holds-append, append-Holds}
use sq_sp.HttpHeader.Escapes.{encode, encode_char, encode_char-IsPlain, IsChar, IsPlain}
use sq_sp.HttpHeader.Form.{
  at_ampersand-other, advance, finish, form_loop-round, form_loop-end, form_loop-plain,
  finish-plain,
}
use sq_sp.HttpHeader.Variables.{at_equals-encode, at_ampersand-encode, end_var-Ends, Ends}

All-append {ℓ κ} :
    {A : Type ℓ} (P : A → Type κ) (xs ys : List A) → All P (xs ++ ys) → All P xs × All P ys
All-append P [] ys h = (tt, h)
All-append P (x ∷ xs) ys (here, h) = let rest = All-append P xs ys h in ((here, rest.0), rest.1)

append-All {ℓ κ} :
    {A : Type ℓ} (P : A → Type κ) (xs ys : List A) → All P xs → All P ys → All P (xs ++ ys)
append-All P [] ys h more = more
append-All P (x ∷ xs) ys (here, h) more = (here, append-All P xs ys h more)

encode-IsPlain : (n : Bytes) → All IsChar n → All IsPlain (encode n)
encode-IsPlain [] good = tt
encode-IsPlain (c ∷ n) (char, good) =
    append-All IsPlain (encode_char c) (encode n) (encode_char-IsPlain c char)
      (encode-IsPlain n good)

-- The name of a field, of which the loop may have passed a part, and the `=` behind it.
abbrev pub InValue : Bytes → (ℕ → ℕ) → ℕ → ℕ → (ℕ → ℕ) → Type 0
InValue n f name p_equals g =
    Holds g name (n ++ 0 ∷ []) × ((k : ℕ) → (k < name) ⊎ (p_equals < k) → g k ≡ f k)

abbrev pub to_value : ℕ → (ℕ → ℕ) → FormState → FormState
to_value w g t = record t { header = record t.header { memory = g }; p_buf = w; value = at w }

module _ (rounds : ℕ) (inside last : Bool) (stop : ℕ) where
  finish_as :
      (left : ℕ) (u : FormState) {v : FormState}
      → at_ampersand rounds inside u ≡ some v
      → finish rounds inside last stop left u
        ≡ form_loop left rounds inside last (some stop) (advance 1 v)
  finish_as left u e = rw (e, finish) refl

  pub name-InValue :
      (n skipped xs rest : Bytes) (m left q : ℕ) (t : FormState)
      → encode n ≡ skipped ++ xs
      → t.p_buf ≡ t.name + length skipped
      → q ≡ t.name + length (encode n)
      → m ≡ length xs + suc left
      → All IsChar n
      → Holds t.header.memory t.name (encode n ++ b'=' ∷ rest)
      → q < stop
      → length (encode n) < rounds
      → (g : ℕ → ℕ) × (form_loop m rounds inside last (some stop) t
          ≡ finish rounds inside last stop left (to_value (q + 1) g t))
        × InValue n t.header.memory t.name q g
  name-InValue n skipped xs rest m left q t split here at_q count good held front room =
      let size : length (encode n) ≡ length skipped + length xs =
        rw split (length-append skipped xs) in
      let same : q ≡ t.p_buf + length xs = omega arith in
      let (text, ends) = Holds-append t.header.memory t.name (encode n) (b'=' ∷ rest) held in
      let at_equals_sign : t.header.memory q ≡ b'=' = rw at_q ends.0 in
      let behind = Holds-append t.header.memory t.name skipped xs (rw (sym split) text) in
      let plain = All-append IsPlain skipped xs (rw (sym split) (encode-IsPlain n good)) in
      let passed =
        form_loop-plain rounds inside last stop xs m (suc left) t count plain.1 (rw here behind.1)
          (omega arith) in
      let (g, equals, decoded, frame) =
        at_equals-encode rounds n rest (record t { p_buf = q }) held good room at_q in
      let round =
        form_loop-round rounds inside last stop left (record t { p_buf = q }) (to_value (q + 1) g t)
          (λ e. omega arith) front equals in
      (g, passed ∙ rw (sym same) round, (decoded, frame))

  -- The value of a field that another one follows.
  pub value-Ends :
      (n v rest : Bytes) (m left w q : ℕ) (u : FormState)
      → Holds u.header.memory u.name (n ++ 0 ∷ [])
      → Holds u.header.memory w (encode v ++ b'&' ∷ rest)
      → u.value ≡ at w
      → u.p_buf ≡ w
      → q ≡ w + length (encode v)
      → m ≡ length (encode v) + left
      → u.name + length n < w
      → All IsChar n
      → All IsChar v
      → length n < rounds
      → length (encode v) < rounds
      → q < stop
      → (g : ℕ → ℕ) × (finish rounds inside last stop m u
          ≡ form_loop left rounds inside last (some stop) (record u {
            header = push_var inside (at u.name) (at w) n v (record u.header { memory = g });
            p_buf = q + 1 + 1;
            name = q + 1;
          }))
        × Ends u.name w n v u.header.memory g
  value-Ends n v rest m left w q u named held is here at_q count order n_good v_good n_room v_room
        front =
      let (text, (amp, more)) = Holds-append u.header.memory w (encode v) (b'&' ∷ rest) held in
      let passed =
        finish-plain rounds inside last stop (encode v) b'&' m left u count
          (encode-IsPlain v v_good)
          (rw here (append-Holds u.header.memory w (encode v) (b'&' ∷ []) text (amp, tt)))
          (omega arith) (omega arith) (omega arith) in
      let (g, ampersand, ends) =
        at_ampersand-encode rounds inside w n v rest (record u { p_buf = q }) named held is order
          n_good v_good n_room v_room at_q in
      let same : q ≡ u.p_buf + length (encode v) = omega arith in
      (g, passed ∙ rw (sym same) (finish_as left (record u { p_buf = q }) ampersand), ends)

  last_value :
      (bs : Bytes) (m : ℕ) (u : FormState)
      → length bs < m
      → All IsPlain bs
      → Holds u.header.memory u.p_buf (bs ++ 0 ∷ [])
      → stop ≡ u.p_buf + length bs
      → finish rounds inside last stop m u ≡ end_var rounds last (at u.name) u.value u.header
  last_value bs zero u count plain h at_stop = absurd (omega arith)
  last_value [] (suc m) u count plain (here, h) at_stop =
      let ampersand = at_ampersand-other rounds inside u (λ e. omega arith) in
      finish_as (suc m) u ampersand
      ∙ form_loop-end rounds inside last stop m (advance 1 u) (inr (omega arith))
  last_value (c ∷ bs) (suc m) u count ((not_nul, not_eq, not_amp), plain) (here, h) at_stop =
      let ampersand = at_ampersand-other rounds inside u (λ e. not_amp (sym here ∙ e)) in
      let behind = Holds-append u.header.memory (u.p_buf + 1) bs (0 ∷ []) h in
      let left = m - length bs in
      finish_as (suc m) u ampersand
      ∙ (form_loop-plain rounds inside last stop bs (suc m) (suc left) (advance 1 u) (omega arith)
            plain behind.0 (omega arith)
          ∙ form_loop-end rounds inside last stop left (advance (length bs) (advance 1 u))
              (inr (omega arith)))

  -- The last value of the form.
  pub last-Ends :
      (n v : Bytes) (m w : ℕ) (u : FormState)
      → Holds u.header.memory u.name (n ++ 0 ∷ [])
      → Holds u.header.memory w (encode v ++ 0 ∷ [])
      → u.value ≡ at w
      → u.p_buf ≡ w
      → stop ≡ w + length (encode v)
      → length (encode v) < m
      → u.name + length n < w
      → All IsChar n
      → All IsChar v
      → length n < rounds
      → length (encode v) < rounds
      → (g : ℕ → ℕ) × (finish rounds inside last stop m u
          ≡ some (push_var last (at u.name) (at w) n v (record u.header { memory = g })))
        × Ends u.name w n v u.header.memory g
  last-Ends n v m w u named held is here at_stop count order n_good v_good n_room v_room =
      let (g, ended, ends) =
        end_var-Ends rounds last u.name w n v u.header (named, held, order, n_good, v_good) n_room
          v_room in
      (
        g,
        last_value (encode v) m u count (encode-IsPlain v v_good) (rw here held) (rw here at_stop)
            ∙ (rw is ended),
        ends,
      )
