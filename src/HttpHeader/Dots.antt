-- ===== src/HttpHeader/Dots.antt =====
-- One character of a path: the blanks that the loop of `decode_url` puts for what follows a dot.
use sq_sp.Prelude.{
  ℕ, zero, suc, ◌+◌, ◌<◌, ◌≤◌, ◌≡◌, ◌≢◌, ◌⊎◌, inl, inr, refl, true, false, not, ◌||◌, Option, none,
  some, ◌==◌, arith, sym, ◌∙◌, Bool-cases,
}
use sq_sp.PageBuf.{store}
use sq_sp.HttpHeader.{is_slash, blank_dots, clean_char}

abbrev pub IsOther : ℕ → Type 0
IsOther c = (c ≢ b'.') × (c ≢ b'/') × (c ≢ b'\\')

other_lem : (c : ℕ) → ((c == b'.') || is_slash c) ≡ false → IsOther c
other_lem c e = ground arith

no_other_lem : (c : ℕ) → ((c == b'.') || is_slash c) ≡ true → IsOther c → ⊥
no_other_lem c e o = ground arith

-- After the inner loop from a dot at `i` on: the bytes that it passed are blank, it stands on another
-- one, not behind `last`, and nothing else is changed.
abbrev pub Blanks : (ℕ → ℕ) → ℕ → ℕ → Option ((ℕ → ℕ) × ℕ) → Type 0
Blanks f i last none = ⊥
Blanks f i last (some (g, j)) =
    (i < j)
    × (j ≤ last)
    × ((k : ℕ) → (k ≤ i) ⊎ (j ≤ k) → g k ≡ f k)
    × ((k : ℕ) → i < k → k < j → g k ≡ b' ')
    × IsOther (g j)

Blanks-more :
    (f : ℕ → ℕ) (i last : ℕ) (r : Option ((ℕ → ℕ) × ℕ))
    → Blanks (store (i + 1) b' ' f) (i + 1) last r
    → Blanks f i last r
Blanks-more f i last none b = b
Blanks-more f i last (some (g, j)) (order, room, same, blank, other) = (
  omega arith,
  room,
  λ k o. elim o [
    | inl l ↦ same k (inl (omega arith)) ∙ ground arith
    | inr l ↦ same k (inr l) ∙ ground arith
  ],
  λ k l m. elim (Bool-cases (k == i + 1)) [
    | inl e ↦ let is : k ≡ i + 1 = ground arith in same k (inl (omega arith)) ∙ ground arith
    | inr e ↦ let past : i + 1 < k = ground arith in blank k past m
  ],
  other,
)

further_lem :
    (f : ℕ → ℕ) (i last : ℕ)
    → i < last
    → IsOther (f last)
    → ((f (i + 1) == b'.') || is_slash (f (i + 1))) ≡ true
    → i + 1 < last
further_lem f i last order other e = elim (Bool-cases (i + 1 == last)) [
  | inl here ↦
      let is : i + 1 ≡ last = ground arith in absurd (no_other_lem (f (i + 1)) e (rw is other))
  | inr more ↦ ground arith
]

blank_dots-Blanks :
    (rounds : ℕ) (f : ℕ → ℕ) (i last : ℕ)
    → f i ≢ 0
    → i < last
    → IsOther (f last)
    → last < i + rounds
    → Blanks f i last (blank_dots rounds f i)
unfolding blank_dots
blank_dots-Blanks zero f i last some_char order other enough = absurd (omega arith)
blank_dots-Blanks (suc rounds) f i last some_char order other enough =
    let goes : not (f i == 0) ≡ true = ground arith in
    elim (Bool-cases ((f (i + 1) == b'.') || is_slash (f (i + 1)))) [
      | inl e ↦
          let further : i + 1 < last = further_lem f i last order other e in
          let still : store (i + 1) b' ' f last ≡ f last = ground arith in
          rw (goes, e, blank_dots)
            (Blanks-more f i last (blank_dots rounds (store (i + 1) b' ' f) (i + 1)) (
              blank_dots-Blanks rounds (store (i + 1) b' ' f) (i + 1) last (λ z. ground arith)
                further (rw still other) (omega arith)))
      | inr e ↦
          rw (goes, e, blank_dots)
            (
              omega arith,
              omega arith,
              λ k l. refl,
              λ k l m. absurd (omega arith),
              other_lem (f (i + 1)) e,
            )
    ]

-- One character of the path, or a dot with what follows it.
abbrev pub CleansChar : (ℕ → ℕ) → ℕ → ℕ → Option ((ℕ → ℕ) × ℕ) → Type 0
CleansChar f i last none = ⊥
CleansChar f i last (some (g, j)) =
    (i ≤ j)
    × (j ≤ last)
    × ((k : ℕ) → (k < i) ⊎ (j < k) → g k ≡ f k)
    × ((k : ℕ) → i ≤ k → k ≤ j → g k ≢ b'\\')
    × ((k : ℕ) → i ≤ k → k < j → g k ≡ b'.' → IsOther (g (k + 1)))
    × (g j ≢ b'.')

-- The path from `i` to `last`: the request goes on with a NUL or a `?`.
abbrev pub IsPath : (ℕ → ℕ) → ℕ → ℕ → Type 0
IsPath f i last =
    ((k : ℕ) → i ≤ k → k ≤ last → (f k ≢ 0) × (f k ≢ b'?'))
    × ((f (last + 1) ≡ 0) ⊎ (f (last + 1) ≡ b'?'))
    × (i ≤ last → IsOther (f last))

pub place : (i j k : ℕ) → i ≤ k → k ≤ j → (k ≡ i) ⊎ (((i < k) × (k < j)) ⊎ (k ≡ j))
place i j k l m = elim (Bool-cases (k == i)) [
  | inl e ↦ inl (ground arith)
  | inr e ↦ elim (Bool-cases (k == j)) [
    | inl e' ↦ inr (inr (ground arith))
    | inr e' ↦ inr (inl (ground arith, ground arith))
  ]
]

dot-CleansChar :
    (f : ℕ → ℕ) (i last : ℕ) (r : Option ((ℕ → ℕ) × ℕ))
    → f i ≡ b'.'
    → Blanks f i last r
    → CleansChar f i last r
dot-CleansChar f i last none dot b = b
dot-CleansChar f i last (some (g, j)) dot (order, room, same, blank, other) = (
  omega arith,
  room,
  λ k o. same k (elim o [ inl l ↦ inl (omega arith) | inr l ↦ inr (omega arith) ]),
  λ k l m e. elim (place i j k l m) [
    | inl is ↦ (let at : g k ≡ f i = same k (inl (omega arith)) ∙ rw is refl in omega arith)
    | inr (inl between) ↦ (let at = blank k between.0 between.1 in omega arith)
    | inr (inr is) ↦ other.2 (rw (sym is) e)
  ],
  λ k l m e. elim (Bool-cases (k + 1 == j)) [
    | inl last_one ↦ (let is : k + 1 ≡ j = ground arith in rw is other)
    | inr more ↦
        (let next : k + 1 < j = ground arith in
          let at = blank (k + 1) (omega arith) next in (omega arith, omega arith, omega arith))
  ],
  other.0,
)

dot_lem : (f : ℕ → ℕ) (i last : ℕ) → i ≤ last → IsOther (f last) → f i ≡ b'.' → i < last
dot_lem f i last order other dot = elim (Bool-cases (i == last)) [
  | inl e ↦ let is : i ≡ last = ground arith in absurd (other.0 (rw (sym is) dot))
  | inr e ↦ ground arith
]

pub clean_char-CleansChar :
    (rounds : ℕ) (f : ℕ → ℕ) (i last : ℕ)
    → IsPath f i last
    → i ≤ last
    → last < rounds
    → CleansChar f i last (clean_char rounds f i)
unfolding clean_char
clean_char-CleansChar rounds f i last (inside, stop, other_last) order enough =
    let other = other_last order in
    elim (Bool-cases (f i == b'\\')) [
      | inl e ↦
          (let stored : store i b'/' f i ≡ b'/' = ground arith in
            rw (e, stored)
              (
                omega arith,
                order,
                λ k o. elim o [ inl l ↦ ground arith | inr l ↦ ground arith ],
                λ k l m. ground arith,
                λ k l m d. absurd (omega arith),
                λ z. omega arith,
              ))
      | inr e ↦ elim (Bool-cases (f i == b'.')) [
        | inl dot ↦
            rw (e, dot)
              (dot-CleansChar f i last (blank_dots rounds f i) (ground arith) (
                blank_dots-Blanks rounds f i last (ground arith)
                  (dot_lem f i last order other (ground arith)) other (omega arith)))
        | inr plain ↦
            rw (e, plain)
              (
                omega arith,
                order,
                λ k o. refl,
                λ k l m. ground arith,
                λ k l m d. absurd (omega arith),
                ground arith,
              )
      ]
    ]
