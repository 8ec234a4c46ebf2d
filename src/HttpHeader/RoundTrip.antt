-- ===== src/HttpHeader/RoundTrip.antt =====
-- `decode_post` of a whole form that a browser sends.
use mathlib.Core.List.{append_assoc}
use sq_sp.Prelude.{
  ℕ, suc, ◌+◌, ◌-◌, ◌<◌, ◌≡◌, inl, inr, refl, Bool, true, false, List, [], ◌∷◌, ◌++◌, some, length,
  length-append, arith, Bytes, All, ◌∙◌,
}
use sq_sp.HttpHeader.{at, literal, HttpHeader, FormState, push_var, form_loop, decode_post}
use sq_sp.HttpHeader.Memory.{Holds, Holds-assoc, Holds-cong, Holds-append}
use sq_sp.HttpHeader.Escapes.{encode}
use sq_sp.HttpHeader.Fields.{to_value, name-InValue, value-Ends, last-Ends}
use sq_sp.HttpHeader.Variables.{encode-length}
use sq_sp.HttpHeader.Listing.{
  after-Lists, push_var-memory, encode-cons, Field, form_text, IsField, Lists,
}

module _ (rounds : ℕ) (inside last : Bool) (stop : ℕ) where
  -- The loop from a name on, of which `skipped` has been passed.
  abbrev pub ReadsForm : Field → List Field → ℕ → FormState → List Field → Type 0
  ReadsForm p ps m t done =
      (h : HttpHeader) × (form_loop m rounds inside last (some stop) t ≡ some h)
      × Lists h.memory (stop + 1) h.var_list (done ++ p ∷ ps)

  -- what the loop is given
  abbrev pub Given : Field → List Field → ℕ → FormState → List Field → Type 0
  Given p ps m t done =
      All IsField (p ∷ ps)
      × Holds t.header.memory t.name (form_text p ps ++ 0 ∷ [])
      × (stop ≡ t.name + length (form_text p ps))
      × (length (form_text p ps) < m)
      × (length (form_text p ps) < rounds)
      × Lists t.header.memory t.name t.header.var_list done

  last-ReadsForm :
      (n v skipped xs : Bytes) (m : ℕ) (t : FormState) (done : List Field)
      → encode n ≡ skipped ++ xs
      → t.p_buf ≡ t.name + length skipped
      → Given (n, v) [] m t done
      → ReadsForm (n, v) [] m t done
  last-ReadsForm n v skipped xs m t done split here
        (((n_good, v_good, some_name, no_session), good), held, at_stop, fuel, room, lists) =
      let size = length-append (encode n) (b'=' ∷ encode v) in
      let parts : length (encode n) ≡ length skipped + length xs =
        rw split (length-append skipped xs) in
      let q = t.name + length (encode n) in
      let left = m - suc (length xs) in
      let text : Holds t.header.memory t.name (encode n ++ (b'=' ∷ (encode v ++ 0 ∷ []))) =
        Holds-assoc t.header.memory t.name (encode n) (encode v) (0 ∷ []) b'=' held in
      let (front, (equals, rest)) =
        Holds-append t.header.memory t.name (encode n) (b'=' ∷ (encode v ++ 0 ∷ [])) text in
      let (g, step, (decoded, frame)) =
        name-InValue rounds inside last stop n skipped xs (encode v ++ 0 ∷ []) m left q t split here
          refl (omega arith) n_good text (omega arith) (omega arith) in
      let value =
        Holds-cong t.header.memory g (q + 1) (encode v ++ 0 ∷ [])
          (λ k l o. frame k (inr (omega arith))) rest in
      let (g', end, ends) =
        last-Ends rounds inside last stop n v left (q + 1) (to_value (q + 1) g t) decoded value refl
          refl (omega arith) (omega arith) (omega (arith, encode-length n n_good)) n_good v_good
          (omega (arith, encode-length n n_good)) (omega arith) in
      (
        _,
        step ∙ end,
        rw
            (push_var-memory last (at t.name) (at (q + 1)) n v (record t.header { memory = g' })
              no_session)
            (after-Lists last g g' t.name (q + 1) (stop + 1) n v t.header done
              (n_good, v_good, some_name, no_session) ends (λ k l. frame k (inl l))
              (omega (arith, encode-length n n_good)) (omega arith) lists),
      )

  form_loop-ReadsForm :
      (ps : List Field) (n v skipped xs : Bytes) (m : ℕ) (t : FormState) (done : List Field)
      → encode n ≡ skipped ++ xs
      → t.p_buf ≡ t.name + length skipped
      → Given (n, v) ps m t done
      → ReadsForm (n, v) ps m t done
  form_loop-ReadsForm [] n v skipped xs m t done split here given =
      last-ReadsForm n v skipped xs m t done split here given
  form_loop-ReadsForm ((n', v') ∷ ps) n v skipped xs m t done split here
        (
          ((n_good, v_good, some_name, no_session), (next_good, good)),
          held,
          at_stop,
          fuel,
          room,
          lists,
        ) =
      let next = form_text (n', v') ps in
      let size = length-append (encode n) (b'=' ∷ (encode v ++ b'&' ∷ next)) in
      let more_size = length-append (encode v) (b'&' ∷ next) in
      let parts : length (encode n) ≡ length skipped + length xs =
        rw split (length-append skipped xs) in
      let q = t.name + length (encode n) in
      let w = q + 1 in
      let q' = w + length (encode v) in
      let left = m - suc (length xs) in
      let left' = left - length (encode v) in
      let n_long = encode-length n n_good in
      let text =
        Holds-assoc t.header.memory t.name (encode n) (encode v ++ b'&' ∷ next) (0 ∷ []) b'='
          held in
      let (front, (equals, rest)) =
        Holds-append t.header.memory t.name (encode n)
          (b'=' ∷ ((encode v ++ b'&' ∷ next) ++ 0 ∷ [])) text in
      let (g, step, (decoded, frame)) =
        name-InValue rounds inside last stop n skipped xs ((encode v ++ b'&' ∷ next) ++ 0 ∷ []) m
          left q t split here refl (omega arith) n_good text (omega arith) (omega arith) in
      let value = Holds-assoc g w (encode v) next (0 ∷ []) b'&' (
        Holds-cong t.header.memory g w ((encode v ++ b'&' ∷ next) ++ 0 ∷ [])
          (λ k l o. frame k (inr (omega arith))) rest) in
      let (g', step', ends) =
        value-Ends rounds inside last stop n v (next ++ 0 ∷ []) left left' w q' (to_value w g t)
          decoded value refl refl refl (omega arith) (omega arith) n_good v_good (omega arith)
          (omega arith) (omega arith) in
      let (n_is, v_is, frame') = ends in
      let behind = (Holds-append g w (encode v) (b'&' ∷ (next ++ 0 ∷ [])) value).1 in
      let pushed =
        push_var-memory inside (at t.name) (at w) n v (record t.header { memory = g' })
          no_session in
      let (b, ys, first) = encode-cons n' next_good.0 next_good.2 in
      let (h, is, all) =
        form_loop-ReadsForm ps n' v' (b ∷ []) ys left'
          (record t {
            header = push_var inside (at t.name) (at w) n v (record t.header { memory = g' });
            p_buf = q' + 1 + 1;
            name = q' + 1;
            value = at w;
          })
          (done ++ (n, v) ∷ []) first (omega arith)
          (
            (next_good, good),
            rw pushed (
                Holds-cong g g' (q' + 1) (next ++ 0 ∷ []) (λ k l o. frame' k (inr (omega arith)))
                  behind.1),
            omega arith,
            omega arith,
            omega arith,
            rw pushed (
                after-Lists inside g g' t.name w (q' + 1) n v t.header done
                  (n_good, v_good, some_name, no_session) ends (λ k l. frame k (inl l))
                  (omega arith) (omega arith) lists),
          ) in
      (h, step ∙ (step' ∙ is), rw (append_assoc done ((n, v) ∷ []) ((n', v') ∷ ps)) at all)

-- `decode_post` reads back a form that a browser sends, if a NUL stands behind it: `varList` is extended
-- by a variable for each field, in order, that points to the decoded name and value inside the buffer,
-- each with its NUL, and the loop ends. The names are not empty and none is `_csp_key`.
pub decode_post-form_text :
    (p : Field) (ps : List Field) (rounds : ℕ) (p_buf : ℕ) (h : HttpHeader) (done : List Field)
    → All IsField (p ∷ ps)
    → length (form_text p ps) < rounds
    → Holds h.memory p_buf (form_text p ps ++ 0 ∷ [])
    → Lists h.memory p_buf h.var_list done
    → (g : HttpHeader) × (decode_post rounds p_buf (length (form_text p ps)) h ≡ some g)
      × Lists g.memory (p_buf + length (form_text p ps) + 1) g.var_list (done ++ p ∷ ps)
unfolding decode_post
decode_post-form_text (n, v) ps rounds p_buf h done good room held lists =
    form_loop-ReadsForm rounds false true (p_buf + length (form_text (n, v) ps)) ps n v []
      (encode n) (length (form_text (n, v) ps) + 1)
      (record { header = h; p_buf = p_buf; name = p_buf; value = literal [] }) done refl
      (omega arith) (good, held, refl, omega arith, room, lists)
