-- ===== src/HttpHeader/Form.antt =====
-- The loop over a form, on what a browser sends: where it is inside a name or a value it only goes on,
-- at a `=` it decodes the name, at a `&` and at the end the value.
use sq_sp.Prelude.{
  ℕ, zero, suc, ◌+◌, ◌<◌, ◌≤◌, ◌≡◌, ◌≢◌, ◌⊎◌, inl, inr, refl, Bool, true, false, [], ◌∷◌, ◌++◌,
  Option, none, some, ◌==◌, ltb, length, arith, Bytes, All, Bool-cases, sym, ◌∙◌, ◌>>=◌,
}
use sq_sp.HttpHeader.{
  at, HttpHeader, FormState, end_var, at_equals, at_ampersand, form_round, form_loop,
}
use sq_sp.HttpHeader.Memory.{Holds}
use sq_sp.HttpHeader.Escapes.{IsPlain}

pub at_equals-other :
    (rounds : ℕ) (t : FormState) → t.header.memory t.p_buf ≢ b'=' → at_equals rounds t ≡ some t
unfolding at_equals
at_equals-other rounds t h =
    let no : (t.header.memory t.p_buf == b'=') ≡ false = ground arith in rw (no, at_equals) refl

pub at_ampersand-other :
    (rounds : ℕ) (keep_session : Bool) (t : FormState)
    → t.header.memory t.p_buf ≢ b'&'
    → at_ampersand rounds keep_session t ≡ some t
unfolding at_ampersand
at_ampersand-other rounds keep_session t h =
    let no : (t.header.memory t.p_buf == b'&') ≡ false = ground arith in rw (no, at_ampersand) refl

abbrev pub advance : ℕ → FormState → FormState
advance n t = record t { p_buf = t.p_buf + n }

add_zero_lem : (i : ℕ) → i + 0 ≡ i
add_zero_lem i = omega arith

next_lem :
    (f : ℕ → ℕ) (i : ℕ) (xs : Bytes) (d : ℕ)
    → All IsPlain xs
    → Holds f i (xs ++ d ∷ [])
    → d ≢ 0
    → d ≢ b'='
    → (f i ≢ 0) × (f i ≢ b'=')
next_lem f i [] d plain (here, h) not_nul not_eq =
    (λ e. not_nul (sym here ∙ e), λ e. not_eq (sym here ∙ e))
next_lem f i (c ∷ xs) d ((c_nul, c_eq, c_amp), plain) (here, h) not_nul not_eq =
    (λ e. c_nul (sym here ∙ e), λ e. c_eq (sym here ∙ e))

module _ (rounds : ℕ) (inside last : Bool) (stop : ℕ) where
  -- the rest of a round and of the loop, behind the test for `=`
  abbrev pub finish : ℕ → FormState → Option HttpHeader
  finish left u = elim (at_ampersand rounds inside u >>= λ v. some (advance 1 v)) [
    | none ↦ none
    | some v ↦ form_loop left rounds inside last (some stop) v
  ]

  -- one round, as long as the form goes on
  pub form_loop-round :
      (left : ℕ) (t u : FormState)
      → t.header.memory t.p_buf ≢ 0
      → t.p_buf < stop
      → at_equals rounds t ≡ some u
      → form_loop (suc left) rounds inside last (some stop) t ≡ finish left u
  unfolding form_loop form_round
  form_loop-round left t u go front e =
      let more : (t.header.memory t.p_buf == 0) ≡ false = ground arith in
      let in_form : ltb t.p_buf stop ≡ true = ground arith in
      rw (more, in_form, e, form_loop, form_round) refl

  pub form_loop-end :
      (left : ℕ) (t : FormState)
      → (t.header.memory t.p_buf ≡ 0) ⊎ (stop ≤ t.p_buf)
      → form_loop (suc left) rounds inside last (some stop) t
        ≡ end_var rounds last (at t.name) t.value t.header
  unfolding form_loop
  form_loop-end left t (inl e) =
      let end : (t.header.memory t.p_buf == 0) ≡ true = ground arith in rw (end, form_loop) refl
  form_loop-end left t (inr e) =
      let past : ltb t.p_buf stop ≡ false = ground arith in
      elim (Bool-cases (t.header.memory t.p_buf == 0)) [
        | inl z ↦ rw (z, form_loop) refl
        | inr z ↦ rw (z, past, form_loop) refl
      ]

  -- The loop passes bytes that are plain.
  pub form_loop-plain :
      (xs : Bytes) (m left : ℕ) (t : FormState)
      → m ≡ length xs + left
      → All IsPlain xs
      → Holds t.header.memory t.p_buf xs
      → t.p_buf + length xs ≤ stop
      → form_loop m rounds inside last (some stop) t
        ≡ form_loop left rounds inside last (some stop) (advance (length xs) t)
  form_loop-plain [] m left t count plain h room =
      let is : m ≡ left = omega arith in rw (is, add_zero_lem t.p_buf) refl
  form_loop-plain (c ∷ xs) zero left t count plain h room = absurd (omega arith)
  form_loop-plain (c ∷ xs) (suc m) left t count ((not_nul, not_eq, not_amp), plain) (here, h) room =
      let equals = at_equals-other rounds t (λ e. not_eq (sym here ∙ e)) in
      let ampersand = at_ampersand-other rounds inside t (λ e. not_amp (sym here ∙ e)) in
      let rest = form_loop-plain xs m left (advance 1 t) (omega arith) plain h (omega arith) in
      let at : t.p_buf + 1 + length xs ≡ t.p_buf + suc (length xs) = omega arith in
      let passed : finish m t ≡ form_loop m rounds inside last (some stop) (advance 1 t) =
        rw (ampersand, finish) refl in
      form_loop-round m t t (λ e. not_nul (sym here ∙ e)) (omega arith) equals
      ∙ (passed ∙ rw (sym at) rest)

  -- The same from inside a round, up to a byte that is neither the end nor a `=`.
  pub finish-plain :
      (xs : Bytes) (d m left : ℕ) (u : FormState)
      → m ≡ length xs + left
      → All IsPlain xs
      → Holds u.header.memory u.p_buf (xs ++ d ∷ [])
      → d ≢ 0
      → d ≢ b'='
      → u.p_buf + length xs < stop
      → finish m u ≡ finish left (advance (length xs) u)
  finish-plain [] d m left u count plain h not_nul not_eq room =
      let is : m ≡ left = omega arith in rw (is, add_zero_lem u.p_buf) refl
  finish-plain (c ∷ xs) d zero left u count plain h not_nul not_eq room = absurd (omega arith)
  finish-plain (c ∷ xs) d (suc m) left u count ((c_nul, c_eq, c_amp), plain) (here, h) not_nul
        not_eq room =
      let (next_nul, next_eq) =
        next_lem u.header.memory (u.p_buf + 1) xs d plain h not_nul not_eq in
      let ampersand = at_ampersand-other rounds inside u (λ e. c_amp (sym here ∙ e)) in
      let equals = at_equals-other rounds (advance 1 u) next_eq in
      let round = form_loop-round m (advance 1 u) (advance 1 u) next_nul (omega arith) equals in
      let rest =
        finish-plain xs d m left (advance 1 u) (omega arith) plain h not_nul not_eq (omega arith) in
      let at : u.p_buf + 1 + length xs ≡ u.p_buf + suc (length xs) = omega arith in
      let passed : finish (suc m) u
          ≡ form_loop (suc m) rounds inside last (some stop) (advance 1 u) =
        rw (ampersand, finish) refl in
      passed ∙ (round ∙ rw (sym at) rest)
