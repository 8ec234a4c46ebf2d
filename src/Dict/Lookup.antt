-- ===== src/Dict/Lookup.antt =====
-- What `_dict_find` finds after `_dict_insert`.
use sq_sp.Prelude.{
  ℕ, ◌≡◌, refl, Bool, true, false, [], ◌∷◌, some, ◌==◌, if◌then◌else◌, Bytes, ℤ, minus_one,
  eq_bytes, Lacks, arith, Bool-cases, inl, inr,
}
use sq_sp.Dict.{
  StringTree, nil, node, child_of, term_ch, finish, insert_kids, find_kids, landing, insert, find,
}

-- The string ends at a terminator in the tree: it was inserted before.
unfoldable pub has_kids : Bytes → StringTree → Bool
has_kids [] nil = false
has_kids [] (node ch hd child brother) = ch == term_ch
has_kids (c ∷ cs) nil = false
has_kids (c ∷ cs) (node ch hd child brother) = elim (ch == c) [
  | true ↦ has_kids cs child
  | false ↦ has_kids (c ∷ cs) brother
]

find_kids-nil : (s : Bytes) → find_kids s nil ≡ minus_one
unfolding find_kids
find_kids-nil [] = refl
find_kids-nil (c ∷ cs) = refl

pub has_kids-nil : (s : Bytes) → has_kids s nil ≡ false
unfolding has_kids
has_kids-nil [] = refl
has_kids-nil (c ∷ cs) = refl

pub find_kids-insert_kids :
    (h : ℤ) (s s' : Bytes) (t : StringTree)
    → Lacks term_ch s
    → Lacks term_ch s'
    → find_kids s' (insert_kids h s t)
      ≡ (if eq_bytes s s' then (if has_kids s t then find_kids s t else h) else find_kids s' t)
unfolding find_kids insert_kids has_kids finish
find_kids-insert_kids h [] [] nil p q = refl
find_kids-insert_kids h [] [] (node ch hd child brother) p q = ground arith
find_kids-insert_kids h [] (c ∷ cs) nil p q = ground arith
find_kids-insert_kids h [] (c ∷ cs) (node ch hd child brother) p q = ground arith
find_kids-insert_kids h (c ∷ cs) [] nil p q = ground arith
find_kids-insert_kids h (c ∷ cs) [] (node ch hd child brother) p q = ground arith
find_kids-insert_kids h (c ∷ cs) (d ∷ ds) nil (p, ps) (q, qs) =
    ground (arith, find_kids-nil ds, has_kids-nil cs, find_kids-insert_kids h cs ds nil ps qs)
find_kids-insert_kids h (c ∷ cs) (d ∷ ds) (node ch hd child brother) (p, ps) (q, qs) = ground (
  arith,
  find_kids-insert_kids h cs ds child ps qs,
  find_kids-insert_kids h (c ∷ cs) (d ∷ ds) brother (p, ps) (q, qs),
)

-- Strings that are in the tree, after an insertion.
pub has_kids-insert_kids :
    (h : ℤ) (s s' : Bytes) (t : StringTree)
    → Lacks term_ch s
    → Lacks term_ch s'
    → has_kids s' (insert_kids h s t) ≡ (if eq_bytes s s' then true else has_kids s' t)
unfolding insert_kids has_kids finish
has_kids-insert_kids h [] [] nil p q = refl
has_kids-insert_kids h [] [] (node ch hd child brother) p q = ground arith
has_kids-insert_kids h [] (c ∷ cs) nil p q = ground arith
has_kids-insert_kids h [] (c ∷ cs) (node ch hd child brother) p q = ground arith
has_kids-insert_kids h (c ∷ cs) [] nil p q = ground arith
has_kids-insert_kids h (c ∷ cs) [] (node ch hd child brother) p q = ground arith
has_kids-insert_kids h (c ∷ cs) (d ∷ ds) nil (p, ps) (q, qs) =
    ground (arith, has_kids-nil ds, has_kids-insert_kids h cs ds nil ps qs)
has_kids-insert_kids h (c ∷ cs) (d ∷ ds) (node ch hd child brother) (p, ps) (q, qs) = ground (
  arith,
  has_kids-insert_kids h cs ds child ps qs,
  has_kids-insert_kids h (c ∷ cs) (d ∷ ds) brother (p, ps) (q, qs),
)

-- A string that is in the tree already changes nothing.
pub insert_kids-has :
    (h : ℤ) (s : Bytes) (t : StringTree) → has_kids s t ≡ true → insert_kids h s t ≡ t
unfolding insert_kids has_kids finish
insert_kids-has h [] nil e = ground arith
insert_kids-has h [] (node ch hd child brother) e = ground arith
insert_kids-has h (c ∷ cs) nil e = ground arith
insert_kids-has h (c ∷ cs) (node ch hd child brother) e =
    ground (arith, insert_kids-has h cs child, insert_kids-has h (c ∷ cs) brother)

pub find_kids-not_has :
    (s : Bytes) (t : StringTree) → has_kids s t ≡ false → find_kids s t ≡ minus_one
unfolding find_kids has_kids
find_kids-not_has [] nil e = refl
find_kids-not_has [] (node ch hd child brother) e = ground arith
find_kids-not_has (c ∷ cs) nil e = refl
find_kids-not_has (c ∷ cs) (node ch hd child brother) e =
    ground (arith, find_kids-not_has cs child, find_kids-not_has (c ∷ cs) brother)

-- No terminator has children.
abbrev pub IsLeafed : StringTree → Type 0
IsLeafed nil = Unit
IsLeafed (node ch hd child brother) =
    (ch ≡ term_ch → child ≡ nil) × IsLeafed child × IsLeafed brother

pub insert_kids-IsLeafed :
    (h : ℤ) (s : Bytes) (t : StringTree)
    → Lacks term_ch s
    → IsLeafed t
    → IsLeafed (insert_kids h s t)
unfolding insert_kids finish
insert_kids-IsLeafed h [] nil p l = (λ _. refl, tt, tt)
insert_kids-IsLeafed h [] (node ch hd child brother) p l = ground arith
insert_kids-IsLeafed h (c ∷ cs) nil (p, ps) l = ground (arith, insert_kids-IsLeafed h cs nil ps tt)
insert_kids-IsLeafed h (c ∷ cs) (node ch hd child brother) (p, ps) (l, m, n) =
    ground (
      arith,
      insert_kids-IsLeafed h cs child ps m,
      insert_kids-IsLeafed h (c ∷ cs) brother (p, ps) n,
    )

-- For a new string the returned node has the new terminator as its first child.
pub landing-new :
    (h : ℤ) (s : Bytes) (ch₀ : ℕ) (hd₀ : ℤ) (t b₀ : StringTree)
    → has_kids s t ≡ false
    → (r : StringTree) × (child_of (landing h s ch₀ hd₀ t b₀) ≡ node term_ch h nil r)
unfolding has_kids landing finish
landing-new h [] ch₀ hd₀ nil b₀ e = (nil, refl)
landing-new h [] ch₀ hd₀ (node ch hd child brother) b₀ e = (node ch hd child brother, ground arith)
landing-new h (c ∷ cs) ch₀ hd₀ nil b₀ e = landing-new h cs c minus_one nil nil (has_kids-nil cs)
landing-new h (c ∷ cs) ch₀ hd₀ (node ch hd child brother) b₀ e = elim (Bool-cases (ch == c)) [
  | inl y ↦ rw (y, child_of) (landing-new h cs ch hd child brother (ground arith))
  | inr n ↦ rw (n, child_of) (landing-new h (c ∷ cs) ch₀ hd₀ brother b₀ (ground arith))
]

-- For a known string the returned node is its terminator, which has no child.
pub landing-has :
    (h : ℤ) (s : Bytes) (ch₀ : ℕ) (hd₀ : ℤ) (t b₀ : StringTree)
    → has_kids s t ≡ true
    → IsLeafed t
    → child_of (landing h s ch₀ hd₀ t b₀) ≡ nil
unfolding has_kids landing
landing-has h [] ch₀ hd₀ nil b₀ e l = ground arith
landing-has h [] ch₀ hd₀ (node ch hd child brother) b₀ e l = ground arith
landing-has h (c ∷ cs) ch₀ hd₀ nil b₀ e l = ground arith
landing-has h (c ∷ cs) ch₀ hd₀ (node ch hd child brother) b₀ e l =
    ground (arith, landing-has h cs ch hd child brother, landing-has h (c ∷ cs) ch₀ hd₀ brother b₀)

-- `_dict_find` after `_dict_insert`, for strings with no '.': the string inserted is found under the
-- handle that it had, or under the new one if it was not there; any other string is found as before.
pub find-insert :
    (h : ℤ) (s s' : Bytes) (t t' r : StringTree)
    → insert s h t ≡ some (t', r)
    → Lacks term_ch s
    → Lacks term_ch s'
    → find s' t'
      ≡ (if eq_bytes s s' then (if has_kids s (child_of t) then find s t else h) else find s' t)
unfolding insert find
find-insert h s s' nil t' r e p q = ground arith
find-insert h s s' (node ch hd kids brother) t' r e p q =
    ground (arith, find_kids-insert_kids h s s' kids p q)
