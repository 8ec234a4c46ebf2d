-- ===== src/HttpHeader/Listing.antt =====
-- The variables that are listed for the fields of a form.
use sq_sp.Prelude.{
  ℕ, ◌+◌, ◌<◌, ◌≤◌, ◌≡◌, inl, refl, Bool, true, false, List, [], ◌∷◌, ◌++◌, length, length-append,
  arith, Bytes, All, eq_bytes, ◌∙◌,
}
use sq_sp.HttpHeader.{Ptr, at, Vars, HttpHeader, push_var, csp_key}
use sq_sp.HttpHeader.Memory.{Holds, Holds-cong}
use sq_sp.HttpHeader.Escapes.{encode, encode_char, encode_char-Stands, Stands-length, IsChar}
use sq_sp.HttpHeader.Variables.{Ends, encode-length}

abbrev pub Field : Type 0
Field = Bytes × Bytes

-- `name=value&name=value`, encoded
abbrev pub form_text : Field → List Field → Bytes
form_text (n, v) [] = encode n ++ b'=' ∷ encode v
form_text (n, v) (p ∷ ps) = encode n ++ b'=' ∷ (encode v ++ b'&' ∷ form_text p ps)

-- a field with a name, which is not the name of the session
abbrev pub IsField : Field → Type 0
IsField (n, v) = All IsChar n × All IsChar v × (0 < length n) × (eq_bytes n csp_key ≡ false)

-- A variable that points to a name and a value, both with their NULs and in front of `limit`.
abbrev pub Reads : (ℕ → ℕ) → ℕ → Vars → Field → Type 0
Reads g limit x (n, v) =
    (i : ℕ) × (j : ℕ) × (x
      ≡ record { name = at i; name_length = length n; value = at j; value_length = length v })
    × Holds g i (n ++ 0 ∷ [])
    × Holds g j (v ++ 0 ∷ [])
    × (i + length n < limit)
    × (j + length v < limit)

abbrev pub Lists : (ℕ → ℕ) → ℕ → List Vars → List Field → Type 0
Lists g limit [] [] = Unit
Lists g limit [] (p ∷ ps) = ⊥
Lists g limit (x ∷ xs) [] = ⊥
Lists g limit (x ∷ xs) (p ∷ ps) = Reads g limit x p × Lists g limit xs ps

Lists-cong :
    (f g : ℕ → ℕ) (limit more : ℕ) (xs : List Vars) (ps : List Field)
    → limit ≤ more
    → ((k : ℕ) → k < limit → g k ≡ f k)
    → Lists f limit xs ps
    → Lists g more xs ps
Lists-cong f g limit more [] [] order same h = tt
Lists-cong f g limit more [] (p ∷ ps) order same h = absurd h
Lists-cong f g limit more (x ∷ xs) [] order same h = absurd h
Lists-cong f g limit more (x ∷ xs) ((n, v) ∷ ps) order same
      ((i, j, is, n_is, v_is, n_in, v_in), h) =
    (
      (
        i,
        j,
        is,
        Holds-cong f g i (n ++ 0 ∷ []) (λ k l m. same k (omega (arith, length-append n (0 ∷ []))))
            n_is,
        Holds-cong f g j (v ++ 0 ∷ []) (λ k l m. same k (omega (arith, length-append v (0 ∷ []))))
            v_is,
        omega arith,
        omega arith,
      ),
      Lists-cong f g limit more xs ps order same h,
    )

Lists-append :
    (g : ℕ → ℕ) (limit : ℕ) (xs : List Vars) (ps : List Field) (x : Vars) (p : Field)
    → Lists g limit xs ps
    → Reads g limit x p
    → Lists g limit (xs ++ x ∷ []) (ps ++ p ∷ [])
Lists-append g limit [] [] x p h r = (r, tt)
Lists-append g limit [] (q ∷ ps) x p h r = absurd h
Lists-append g limit (y ∷ xs) [] x p h r = absurd h
Lists-append g limit (y ∷ xs) (q ∷ ps) x p (here, h) r = (here, Lists-append g limit xs ps x p h r)

push_var_lem :
    (keep_session : Bool) (name value : Ptr) (n v : Bytes) (h : HttpHeader)
    → eq_bytes n csp_key ≡ false
    → push_var keep_session name value n v h ≡ record h {
      var_list =
          h.var_list
          ++ record { name = name; name_length = length n; value = value; value_length = length v }
            ∷ [];
    }
unfolding push_var
push_var_lem true name value n v h e = rw (e, push_var) refl
push_var_lem false name value n v h e = refl

-- The variables after the end of a field that was at `name` and `value`.
pub after-Lists :
    (keep_session : Bool) (f g : ℕ → ℕ) (name value limit : ℕ) (n v : Bytes) (h : HttpHeader)
    (done : List Field)
    → IsField (n, v)
    → Ends name value n v f g
    → ((k : ℕ) → k < name → f k ≡ h.memory k)
    → name + length n < value
    → value + length (encode v) < limit
    → Lists h.memory name h.var_list done
    → Lists g limit
        (push_var keep_session (at name) (at value) n v (record h { memory = g })).var_list
        (done ++ (n, v) ∷ [])
after-Lists keep_session f g name value limit n v h done (n_good, v_good, some_name, no_session)
      (n_is, v_is, frame) before order room lists =
    rw (push_var_lem keep_session (at name) (at value) n v (record h { memory = g }) no_session) (
      Lists-append g limit h.var_list done _ (n, v)
        (Lists-cong h.memory g name limit h.var_list done (omega arith)
          (λ k l. frame k (inl (omega arith)) ∙ before k l) lists)
        (name, value, refl, n_is, v_is, omega arith, omega (arith, encode-length v v_good)))

pub push_var-memory :
    (keep_session : Bool) (name value : Ptr) (n v : Bytes) (h : HttpHeader)
    → eq_bytes n csp_key ≡ false
    → (push_var keep_session name value n v h).memory ≡ h.memory
push_var-memory keep_session name value n v h e =
    rw (push_var_lem keep_session name value n v h e) refl

pub encode-cons :
    (n : Bytes) → All IsChar n → 0 < length n → (b : ℕ) × (xs : Bytes) × (encode n ≡ b ∷ xs)
encode-cons [] good l = absurd (omega arith)
encode-cons (c ∷ n) (char, good) l =
    first_of (encode_char c) (encode n)
      (Stands-length c (encode_char c) (encode_char-Stands c char))
  where
    first_of : (bs ys : Bytes) → 0 < length bs → (b : ℕ) × (xs : Bytes) × (bs ++ ys ≡ b ∷ xs)
    first_of [] ys l = absurd (omega arith)
    first_of (b ∷ bs) ys l = (b, bs ++ ys, refl)
