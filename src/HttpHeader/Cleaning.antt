-- ===== src/HttpHeader/Cleaning.antt =====
-- The path of a request, as the loop of `decode_url` cleans it in front of the decoding.
use sq_sp.Prelude.{
  ℕ, zero, suc, ◌+◌, ◌<◌, ◌≤◌, ◌≡◌, ◌≢◌, ◌⊎◌, inl, inr, refl, true, false, ◌||◌, Option, none, some,
  ◌==◌, ltb, leb, arith, sym, ◌∙◌, Bool-cases,
}
use sq_sp.HttpHeader.{clean_char, clean_path}
use sq_sp.HttpHeader.Dots.{clean_char-CleansChar, IsOther, CleansChar, IsPath}

-- A path without backslashes, in which no dot is followed by a dot or a slash.
abbrev pub IsClean : (ℕ → ℕ) → ℕ → ℕ → Type 0
IsClean g i last =
    ((k : ℕ) → i ≤ k → k ≤ last → g k ≢ b'\\')
    × ((k : ℕ) → i ≤ k → k < last → g k ≡ b'.' → IsOther (g (k + 1)))

abbrev pub Cleans : (ℕ → ℕ) → ℕ → ℕ → Option ((ℕ → ℕ) × ℕ) → Type 0
Cleans f i last none = ⊥
Cleans f i last (some (g, j)) =
    (j ≡ last + 1) × ((k : ℕ) → (k < i) ⊎ (last < k) → g k ≡ f k) × IsClean g i last

Cleans-more :
    (f : ℕ → ℕ) (i last : ℕ) (g : ℕ → ℕ) (j : ℕ) (r : Option ((ℕ → ℕ) × ℕ))
    → CleansChar f i last (some (g, j))
    → Cleans g (j + 1) last r
    → Cleans f i last r
Cleans-more f i last g j none first more = more
Cleans-more f i last g j (some (g', end)) (order, room, same, back, dots, no_dot)
      (at_end, kept, (no_back, no_dots)) =
    (
      at_end,
      λ k o. elim o [
        | inl l ↦ kept k (inl (omega arith)) ∙ same k (inl l)
        | inr l ↦ kept k (inr l) ∙ same k (inr (omega arith))
      ],
      (
        λ k l m. elim (Bool-cases (leb k j)) [
          | inl e ↦
              (let near : k ≤ j = ground arith in rw (kept k (inl (omega arith))) (back k l near))
          | inr e ↦ no_back k (ground arith) m
        ],
        λ k l m d. elim (Bool-cases (ltb k j)) [
          | inl e ↦
              (let near : k < j = ground arith in
                rw (kept (k + 1) (inl (omega arith)))
                  (dots k l near (sym (kept k (inl (omega arith))) ∙ d)))
          | inr e ↦ elim (Bool-cases (k == j)) [
            | inl here ↦
                (let is : k ≡ j = ground arith in
                  absurd (no_dot (rw (sym is) (sym (kept k (inl (omega arith))) ∙ d))))
            | inr past ↦ no_dots k (ground arith) m d
          ]
        ],
      ),
    )

path_step :
    (rounds left : ℕ) (f : ℕ → ℕ) (i last : ℕ) (r : Option ((ℕ → ℕ) × ℕ))
    → CleansChar f i last r
    → ((g : ℕ → ℕ) (j : ℕ)
        → CleansChar f i last (some (g, j))
        → Cleans g (j + 1) last (clean_path left rounds g (j + 1)))
    → Cleans f i last (elim r [ none ↦ none | some (g, j) ↦ clean_path left rounds g (j + 1) ])
path_step rounds left f i last none first next = absurd first
path_step rounds left f i last (some (g, j)) first next =
    Cleans-more f i last g j (clean_path left rounds g (j + 1)) first (next g j first)

IsPath-rest :
    (f g : ℕ → ℕ) (i j last : ℕ)
    → IsPath f i last
    → CleansChar f i last (some (g, j))
    → IsPath g (j + 1) last
IsPath-rest f g i j last (inside, stop, other) (order, room, same, back, dots, no_dot) = (
  λ k l m. rw (same k (inr (omega arith))) (inside k (omega arith) m),
  rw (same (last + 1) (inr (omega arith))) stop,
  λ l. rw (same last (inr (omega arith))) (other (omega arith)),
)

stops_lem : (c : ℕ) → (c ≡ 0) ⊎ (c ≡ b'?') → ((c == 0) || (c == b'?')) ≡ true
stops_lem c (inl e) = ground arith
stops_lem c (inr e) = ground arith

goes_lem : (c : ℕ) → (c ≢ 0) × (c ≢ b'?') → ((c == 0) || (c == b'?')) ≡ false
goes_lem c o = ground arith

-- The loop of `decode_url` over the path ends at the `?` or the NUL behind it, and leaves a path with no
-- backslash, in which no dot is followed by a dot or a slash: so there is no `..` and no `./` in it. The
-- path has no NUL and no `?` and ends with none of dot, slash and backslash; there are rounds enough.
pub clean_path-Cleans :
    (left rounds : ℕ) (f : ℕ → ℕ) (i last : ℕ)
    → IsPath f i last
    → i ≤ last + 1
    → last + 1 < i + left
    → last < rounds
    → Cleans f i last (clean_path left rounds f i)
unfolding clean_path
clean_path-Cleans zero rounds f i last path order fuel enough = absurd (omega arith)
clean_path-Cleans (suc left) rounds f i last path order fuel enough =
    elim (Bool-cases (i == last + 1)) [
      | inl e ↦
          (let here : i ≡ last + 1 = ground arith in
            let stops : ((f i == 0) || (f i == b'?')) ≡ true = stops_lem (f i) (rw here path.1) in
            rw (stops, clean_path)
              (here, λ k o. refl, (λ k l m. absurd (omega arith), λ k l m. absurd (omega arith))))
      | inr e ↦
          let front : i ≤ last = ground arith in
          let goes : ((f i == 0) || (f i == b'?')) ≡ false =
            goes_lem (f i) (path.0 i (omega arith) front) in
          rw (goes, clean_path)
            (path_step rounds left f i last (clean_char rounds f i)
              (clean_char-CleansChar rounds f i last path front enough)
              (λ g j first.
                clean_path-Cleans left rounds g (j + 1) last (IsPath-rest f g i j last path first)
                  (omega (arith, first.1)) (omega (arith, first.0)) enough))
    ]
