-- ===== src/Text/Nocase.antt =====
-- `nocase_find_str` (LigSP/LigCommon/lig_httpd.cpp) against the occurrences of a text up to case.
use sq_sp.Prelude.{
  ℕ, suc, ◌+◌, ◌<◌, ◌↔◌, ◌&&◌, leb, if◌then◌else◌, ◌≡◌, ◌≢◌, inl, inr, refl, true, [], ◌∷◌, ◌++◌,
  Option, none, some, length, length-append, Bytes, arith, Bool-cases, ap, sym, ◌∙◌,
}
use sq_sp.Text.{Match, matched, ran_out, differs, match_from, nocase_find_str, same_nocase}

-- a letter in lower case, any other character as it is
abbrev pub lower : ℕ → ℕ
lower c = if leb b'A' c && leb c b'Z' then c + 32 else c

same_nocase_iff : (c s : ℕ) → (same_nocase c s ≡ true) ↔ (lower c ≡ lower s)
unfolding same_nocase
same_nocase_iff c s = ((λ e. ground arith), (λ e. ground arith))

-- The two texts are the same in lower case.
abbrev pub AreNocase : Bytes → Bytes → Type 0
AreNocase [] [] = Unit
AreNocase [] (s ∷ str) = ⊥
AreNocase (c ∷ p) [] = ⊥
AreNocase (c ∷ p) (s ∷ str) = (lower c ≡ lower s) × AreNocase p str

-- What each outcome of a comparison says.
abbrev Says : Bytes → Bytes → Match → Type 0
Says p str (matched rest) = (mid : Bytes) × (p ≡ mid ++ rest) × AreNocase mid str
Says p str ran_out = length p < length str
Says p str differs = Unit

cons-Says :
    (c s : ℕ) (p str : Bytes) (m : Match)
    → same_nocase c s ≡ true
    → Says p str m
    → Says (c ∷ p) (s ∷ str) m
cons-Says c s p str (matched rest) same (mid, e, like) =
    (c ∷ mid, ap (λ l. c ∷ l) e, ((same_nocase_iff c s).0 same, like))
cons-Says c s p str ran_out same short = omega arith
cons-Says c s p str differs same h = h

match_from-Says : (p str : Bytes) → Says p str (match_from p str)
unfolding match_from
match_from-Says p [] = ([], refl, tt)
match_from-Says [] (s ∷ str) = omega arith
match_from-Says (c ∷ p) (s ∷ str) = elim (Bool-cases (same_nocase c s)) [
  | inl same ↦ rw same (cons-Says c s p str (match_from p str) same (match_from-Says p str))
  | inr other ↦ rw other tt
]

-- Where the text stands, the comparison finds it.
match_from_here :
    (mid rest str : Bytes) → AreNocase mid str → match_from (mid ++ rest) str ≡ matched rest
unfolding match_from
match_from_here [] rest [] like = refl
match_from_here [] rest (s ∷ str) like = absurd like
match_from_here (c ∷ mid) rest [] like = absurd like
match_from_here (c ∷ mid) rest (s ∷ str) (same, like) =
    rw ((same_nocase_iff c s).1 same) (match_from_here mid rest str like)

length_like : (mid str : Bytes) → AreNocase mid str → length mid ≡ length str
length_like [] [] like = refl
length_like [] (s ∷ str) like = absurd like
length_like (c ∷ mid) [] like = absurd like
length_like (c ∷ mid) (s ∷ str) (same, like) = ap suc (length_like mid str like)

-- the text looked for stands somewhere, and `rest` is behind it
abbrev pub Found : Bytes → Bytes → Option Bytes → Type 0
Found text str none = (front mid rest : Bytes) → AreNocase mid str → text ≢ front ++ (mid ++ rest)
Found text str (some rest) =
    (front : Bytes) × (mid : Bytes) × (text ≡ front ++ (mid ++ rest)) × AreNocase mid str

too_short :
    (text str front mid rest : Bytes)
    → length text < length str
    → AreNocase mid str
    → text ≢ front ++ (mid ++ rest)
too_short text str front mid rest short like is =
    let size = length-append front (mid ++ rest) in
    let inner = length-append mid rest in
    let same = length_like mid str like in let whole = ap length is in omega arith

abbrev tail : Bytes → Bytes
tail [] = []
tail (c ∷ cs) = cs

search_missing :
    (c : ℕ) (from str : Bytes)
    → match_from (c ∷ from) str ≡ differs
    → Found from str none
    → (front mid rest : Bytes) → AreNocase mid str
    → c ∷ from ≢ front ++ (mid ++ rest)
search_missing c from str e missing [] mid rest like is =
    let here = match_from_here mid rest str like in
    let there : match_from (mid ++ rest) str ≡ differs = rw (sym is) e in
    let clash : matched rest ≡ differs = sym here ∙ there in ground arith
search_missing c from str e missing (x ∷ front) mid rest like is =
    missing front mid rest like (ap tail is)

-- where the comparison at the first character fails, the text is looked for behind it
search_behind :
    (c : ℕ) (from str : Bytes) (o : Option Bytes)
    → match_from (c ∷ from) str ≡ differs
    → Found from str o
    → Found (c ∷ from) str o
search_behind c from str (some rest) e (front, mid, is, like) =
    (c ∷ front, mid, ap (λ l. c ∷ l) is, like)
search_behind c from str none e missing = search_missing c from str e missing

search_step :
    (c : ℕ) (from str : Bytes) (m : Match)
    → match_from (c ∷ from) str ≡ m
    → Says (c ∷ from) str m
    → Found from str (nocase_find_str from str)
    → Found (c ∷ from) str (nocase_find_str (c ∷ from) str)
unfolding nocase_find_str
search_step c from str (matched rest) e (mid, is, like) later =
    rw (e, nocase_find_str) ([], mid, is, like)
search_step c from str ran_out e short later =
    rw (e, nocase_find_str) (λ front mid rest. too_short (c ∷ from) str front mid rest short)
search_step c from str differs e says later =
    rw (e, nocase_find_str) (search_behind c from str (nocase_find_str from str) e later)

-- `nocase_find_str` returns a pointer behind an occurrence of the text, up to case, if there is one
-- between the two pointers, and NULL if there is none.
pub nocase_find_str-Found : (text str : Bytes) → Found text str (nocase_find_str text str)
unfolding nocase_find_str match_from
nocase_find_str-Found [] [] = ([], [], refl, tt)
nocase_find_str-Found [] (s ∷ str) =
    λ front mid rest. too_short [] (s ∷ str) front mid rest (omega arith)
nocase_find_str-Found (c ∷ from) str =
    search_step c from str (match_from (c ∷ from) str) refl (match_from-Says (c ∷ from) str)
      (nocase_find_str-Found from str)
