-- ===== src/HttpHeader/Memory.antt =====
-- What a stretch of memory holds, and what the loops over a text make of it.
use mathlib.Core.List.{append_assoc}
use sq_sp.Prelude.{
  ℕ, zero, suc, ◌+◌, ◌<◌, ◌≤◌, ◌≡◌, refl, true, false, [], ◌∷◌, ◌++◌, some, ◌==◌, length, arith,
  Bytes, Lacks, sym,
}
use sq_sp.PageBuf.{store}
use sq_sp.HttpHeader.{cstring}

-- The bytes stand in memory from `i` on.
abbrev pub Holds : (ℕ → ℕ) → ℕ → Bytes → Type 0
Holds f i [] = Unit
Holds f i (c ∷ cs) = (f i ≡ c) × Holds f (i + 1) cs

-- Two memories agree on `n` bytes from `i` on.
pub Holds-cong :
    (f g : ℕ → ℕ) (i : ℕ) (cs : Bytes)
    → ((k : ℕ) → i ≤ k → k < i + length cs → g k ≡ f k)
    → Holds f i cs
    → Holds g i cs
Holds-cong f g i [] same h = tt
Holds-cong f g i (c ∷ cs) same (here, later) = (
  rw (same i (omega arith) (omega arith)) here,
  Holds-cong f g (i + 1) cs (λ k l m. same k (omega arith) (omega arith)) later,
)

zero_lem : (i : ℕ) → i + 0 ≡ i
zero_lem i = omega arith

pub Holds-append :
    (f : ℕ → ℕ) (i : ℕ) (xs ys : Bytes)
    → Holds f i (xs ++ ys)
    → Holds f i xs × Holds f (i + length xs) ys
Holds-append f i [] ys h = (tt, rw (zero_lem i) h)
Holds-append f i (x ∷ xs) ys (here, later) =
    let rest = Holds-append f (i + 1) xs ys later in
    let size : i + length (x ∷ xs) ≡ i + 1 + length xs = omega arith in
    ((here, rest.0), rw size rest.1)

pub append-Holds :
    (f : ℕ → ℕ) (i : ℕ) (xs ys : Bytes)
    → Holds f i xs
    → Holds f (i + length xs) ys
    → Holds f i (xs ++ ys)
append-Holds f i [] ys h later = rw (sym (zero_lem i)) later
append-Holds f i (x ∷ xs) ys (here, more) later =
    let size : i + 1 + length xs ≡ i + length (x ∷ xs) = omega arith in
    (here, append-Holds f (i + 1) xs ys more (rw size later))

-- A text with its NUL is read as it is, given the rounds.
pub cstring-Holds :
    (s : Bytes) (rounds : ℕ) (f : ℕ → ℕ) (i : ℕ)
    → Lacks 0 s
    → length s < rounds
    → Holds f i (s ++ 0 ∷ [])
    → cstring rounds f i ≡ some s
unfolding cstring
cstring-Holds s zero f i good enough h = absurd (omega arith)
cstring-Holds [] (suc rounds) f i good enough (here, later) =
    let end : (f i == 0) ≡ true = ground arith in rw (end, cstring) refl
cstring-Holds (c ∷ s) (suc rounds) f i (not_nul, good) enough (here, later) =
    let rest = cstring-Holds s rounds f (i + 1) good (omega arith) later in
    let more : (f i == 0) ≡ false = ground arith in rw (more, rest, here, cstring) refl

pub Holds-assoc :
    (f : ℕ → ℕ) (i : ℕ) (xs ys zs : Bytes) (c : ℕ)
    → Holds f i ((xs ++ c ∷ ys) ++ zs)
    → Holds f i (xs ++ c ∷ (ys ++ zs))
Holds-assoc f i xs ys zs c h = rw (append_assoc xs (c ∷ ys) zs) at h

-- A NUL in place of a byte ends the text in front of it.
pub cut-Holds :
    (f : ℕ → ℕ) (i q : ℕ) (xs : Bytes) (d : ℕ) (rest : Bytes)
    → q ≡ i + length xs
    → Holds f i (xs ++ d ∷ rest)
    → Holds (store q 0 f) i (xs ++ 0 ∷ []) × (f q ≡ d)
cut-Holds f i q xs d rest here h =
    let (front, last) = Holds-append f i xs (d ∷ rest) h in
    let nul : store q 0 f (i + length xs) ≡ 0 = ground arith in
    (
      append-Holds (store q 0 f) i xs (0 ∷ [])
          (Holds-cong f (store q 0 f) i xs (λ k l m. ground arith) front) (nul, tt),
      rw here last.0,
    )
