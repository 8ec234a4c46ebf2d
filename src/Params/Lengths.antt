-- ===== src/Params/Lengths.antt =====
-- The lengths of FastCGI pairs, read back.
use sq_sp.Prelude.{
  ℕ, ◌+◌, ◌*◌, ◌/◌, ◌%◌, ◌^◌, ◌<◌, ◌≡◌, refl, true, false, [], ◌∷◌, ◌++◌, ◌==◌, ltb, length,
  if◌then◌else◌, arith, Bytes, Bool-cases, inl, inr, ap, ◌∙◌,
}
use sq_sp.HttpHeader.Memory.{Holds}
use sq_sp.Params.{read_length}

-- A length as the FastCGI protocol writes it: one byte below 128, else four with the high bit set.
unfoldable pub encode_length : ℕ → Bytes
encode_length n =
    if ltb n 128
    then n ∷ []
    else (n / 2 ^ 24 + 128) ∷ (n / 2 ^ 16 % 256) ∷ (n / 2 ^ 8 % 256) ∷ (n % 256) ∷ []

short_lem : (c : ℕ) → c < 128 → (c / 2 ^ 7 == 0) ≡ true
short_lem c l = ground arith

long_lem : (n : ℕ) → ((n / 2 ^ 24 + 128) / 2 ^ 7 == 0) ≡ false
long_lem n = ground arith

value_lem :
    (n : ℕ)
    → n < 2 ^ 31
    → (n / 2 ^ 24 + 128) % 2 ^ 7 * 2 ^ 24
        + n / 2 ^ 16 % 256 * 2 ^ 16
        + n / 2 ^ 8 % 256 * 2 ^ 8
        + n % 256
      ≡ n
value_lem n l = omega arith

two_lem : (n : ℕ) → n + 2 ≡ n + 1 + 1
two_lem n = omega arith

three_lem : (n : ℕ) → n + 3 ≡ n + 1 + 1 + 1
three_lem n = omega arith

read_short :
    (n : ℕ) (f : ℕ → ℕ) (buf : ℕ) (rest : Bytes)
    → n < 128
    → Holds f buf (n ∷ rest)
    → read_length f buf ≡ (n, buf + 1)
unfolding read_length
read_short n f buf rest small (is, more) = rw (is, short_lem n small) refl

read_long :
    (n : ℕ) (f : ℕ → ℕ) (buf : ℕ) (rest : Bytes)
    → n < 2 ^ 31
    → Holds f buf ((n / 2 ^ 24 + 128) ∷ (n / 2 ^ 16 % 256) ∷ (n / 2 ^ 8 % 256) ∷ (n % 256) ∷ rest)
    → read_length f buf ≡ (n, buf + 4)
unfolding read_length
read_long n f buf rest small (is3, (is2, (is1, (is0, more)))) =
    let second : f (buf + 2) ≡ n / 2 ^ 8 % 256 = ap f (two_lem buf) ∙ is1 in
    let third : f (buf + 3) ≡ n % 256 = ap f (three_lem buf) ∙ is0 in
    rw (is3, is2, second, third, long_lem n, value_lem n small) refl

-- A length up to 2 ^ 31 - 1 is read back, and the reading stands behind it.
pub read_length-encode_length :
    (n : ℕ) (f : ℕ → ℕ) (buf : ℕ) (rest : Bytes)
    → n < 2 ^ 31
    → Holds f buf (encode_length n ++ rest)
    → read_length f buf ≡ (n, buf + length (encode_length n))
unfolding read_length encode_length
read_length-encode_length n f buf rest small h = elim (Bool-cases (ltb n 128)) [
  | inl e ↦
      (let small_one : n < 128 = ground arith in
        rw (e, encode_length) (read_short n f buf rest small_one (rw (e, encode_length) at h)))
  | inr e ↦ rw (e, encode_length) (read_long n f buf rest small (rw (e, encode_length) at h))
]

pub encode_length-positive : (n : ℕ) → 0 < length (encode_length n)
unfolding encode_length
encode_length-positive n = elim (Bool-cases (ltb n 128)) [
  | inl e ↦ rw e (omega arith)
  | inr e ↦ rw e (omega arith)
]
