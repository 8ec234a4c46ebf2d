-- ===== src/Params/Pairs.antt =====
-- The loop of `get_fastcgi_params` over the pairs that a web server sends, and over pairs that say more
-- than they hold.
use mathlib.Core.List.{append_assoc}
use sq_sp.Prelude.{
  ℕ, zero, suc, ◌+◌, ◌/◌, ◌^◌, ◌<◌, ◌≤◌, ◌≡◌, refl, true, false, List, [], ◌∷◌, ◌++◌, map, Option,
  none, some, ◌==◌, length, length-append, arith, Bytes, All, Bool-cases, inl, inr, ap,
}
use sq_sp.PageBuf.Size.{slice}
use sq_sp.HttpHeader.Memory.{Holds, Holds-append}
use sq_sp.Params.{read_length, Pair, read_pair, Parsing, take_pair, read_pairs_from}
use sq_sp.Params.Lengths.{encode_length, read_length-encode_length, encode_length-positive}

pub Holds-slice : (f : ℕ → ℕ) (i : ℕ) (xs : Bytes) → Holds f i xs → slice f i (length xs) ≡ xs
Holds-slice f i [] h = refl
Holds-slice f i (x ∷ xs) (here, h) = rw (here, Holds-slice f (i + 1) xs h) refl

-- a name and a value as FastCGI sends them
abbrev pub pair_text : Bytes × Bytes → Bytes
pair_text (n, v) = encode_length (length n) ++ (encode_length (length v) ++ (n ++ v))

abbrev pub params_text : List (Bytes × Bytes) → Bytes
params_text [] = []
params_text (p ∷ ps) = pair_text p ++ params_text ps

abbrev pub IsPair : Bytes × Bytes → Type 0
IsPair (n, v) = (length n < 2 ^ 31) × (length v < 2 ^ 31)

-- where the pairs stand, from `buf` on
abbrev pub name_at : ℕ → Bytes × Bytes → ℕ
name_at buf (n, v) = buf + length (encode_length (length n)) + length (encode_length (length v))

abbrev pub placed : ℕ → Bytes × Bytes → Pair
placed buf (n, v) = record {
  name = name_at buf (n, v);
  name_length = length n;
  value = name_at buf (n, v) + length n;
  value_length = length v;
}

abbrev pub behind : ℕ → Bytes × Bytes → ℕ
behind buf (n, v) = name_at buf (n, v) + length n + length v

abbrev pub layout : ℕ → List (Bytes × Bytes) → List Pair
layout buf [] = []
layout buf (p ∷ ps) = placed buf p ∷ layout (behind buf p) ps

-- what a pair points to
abbrev pub texts_of : (ℕ → ℕ) → Pair → Bytes × Bytes
texts_of f p = (slice f p.name p.name_length, slice f p.value p.value_length)

-- the pairs handled one after the other
abbrev pub take_all : (ℕ → ℕ) → List Pair → Parsing → Option Parsing
take_all f [] s = some s
take_all f (p ∷ ps) s = elim (take_pair f p s) [ none ↦ none | some s' ↦ take_all f ps s' ]

length-pair_text : (n v : Bytes) (buf : ℕ) → behind buf (n, v) ≡ buf + length (pair_text (n, v))
length-pair_text n v buf = omega (
  arith,
  length-append (encode_length (length n)) (encode_length (length v) ++ (n ++ v)),
  length-append (encode_length (length v)) (n ++ v),
  length-append n v,
)

-- The four parts of a pair in memory.
pair-Holds :
    (n v rest : Bytes) (f : ℕ → ℕ) (buf : ℕ)
    → Holds f buf (pair_text (n, v) ++ rest)
    → Holds f buf (encode_length (length n) ++ (encode_length (length v) ++ (n ++ (v ++ rest))))
pair-Holds n v rest f buf h =
    rw
      (
        append_assoc (encode_length (length n)) (encode_length (length v) ++ (n ++ v)) rest,
        append_assoc (encode_length (length v)) (n ++ v) rest,
        append_assoc n v rest,
      )
      at h

read_pair-placed :
    (n v rest : Bytes) (f : ℕ → ℕ) (buf : ℕ)
    → IsPair (n, v)
    → Holds f buf (pair_text (n, v) ++ rest)
    → (read_pair f buf ≡ (placed buf (n, v), behind buf (n, v)))
      × (texts_of f (placed buf (n, v)) ≡ (n, v))
      × Holds f (behind buf (n, v)) rest
unfolding read_pair
read_pair-placed n v rest f buf (n_small, v_small) held =
    let h = pair-Holds n v rest f buf held in
    let size_1 = length (encode_length (length n)) in
    let size_2 = length (encode_length (length v)) in
    let first =
      read_length-encode_length (length n) f buf (encode_length (length v) ++ (n ++ (v ++ rest)))
        n_small h in
    let h_1 = (Holds-append f buf (encode_length (length n)) _ h).1 in
    let second =
      read_length-encode_length (length v) f (buf + size_1) (n ++ (v ++ rest)) v_small h_1 in
    let h_2 = (Holds-append f (buf + size_1) (encode_length (length v)) _ h_1).1 in
    let (name, h_3) = Holds-append f (buf + size_1 + size_2) n (v ++ rest) h_2 in
    let (value, h_4) = Holds-append f (buf + size_1 + size_2 + length n) v rest h_3 in
    (rw (first, second) refl, rw (Holds-slice f _ n name, Holds-slice f _ v value) refl, h_4)

-- the tests on the way
end_lem : (buf bufend : ℕ) → bufend ≡ buf + 0 → (buf == bufend) ≡ true
end_lem buf bufend e = ground arith

front_lem : (buf bufend n : ℕ) → 0 < n → bufend ≡ buf + n → (buf == bufend) ≡ false
front_lem buf bufend n l e = ground arith

past_lem : (buf bufend : ℕ) → bufend < buf → (buf == bufend) ≡ false
past_lem buf bufend l = ground arith

loop_end :
    (rounds : ℕ) (f : ℕ → ℕ) (buf bufend : ℕ) (s : Parsing)
    → (buf == bufend) ≡ true
    → read_pairs_from rounds f buf bufend s ≡ some s
unfolding read_pairs_from
loop_end zero f buf bufend s e = rw (e, read_pairs_from) refl
loop_end (suc rounds) f buf bufend s e = rw (e, read_pairs_from) refl

loop_step :
    (rounds : ℕ) (f : ℕ → ℕ) (next bufend : ℕ) (ps : List Pair) (r : Option Parsing)
    → ((s : Parsing) → read_pairs_from rounds f next bufend s ≡ take_all f ps s)
    → elim r [ none ↦ none | some s' ↦ read_pairs_from rounds f next bufend s' ]
      ≡ elim r [ none ↦ none | some s' ↦ take_all f ps s' ]
loop_step rounds f next bufend ps none rest = refl
loop_step rounds f next bufend ps (some s) rest = rest s

pairs_loop :
    (ps : List (Bytes × Bytes)) (rounds : ℕ) (f : ℕ → ℕ) (buf bufend : ℕ) (s : Parsing)
    → All IsPair ps
    → length (params_text ps) ≤ rounds
    → bufend ≡ buf + length (params_text ps)
    → Holds f buf (params_text ps)
    → read_pairs_from rounds f buf bufend s ≡ take_all f (layout buf ps) s
unfolding read_pairs_from
pairs_loop [] rounds f buf bufend s good enough at_end held =
    loop_end rounds f buf bufend s (end_lem buf bufend at_end)
pairs_loop ((n, v) ∷ ps) zero f buf bufend s good enough at_end held = absurd (
    omega (
      arith,
      length-append (pair_text (n, v)) (params_text ps),
      length-pair_text n v 0,
      encode_length-positive (length n),
    ))
pairs_loop ((n, v) ∷ ps) (suc rounds) f buf bufend s (pair, good) enough at_end held =
    let size = length-append (pair_text (n, v)) (params_text ps) in
    let positive = encode_length-positive (length n) in
    let placed_size = length-pair_text n v buf in
    let more = front_lem buf bufend (length (params_text ((n, v) ∷ ps))) (omega arith) at_end in
    let (is, texts, rest) = read_pair-placed n v (params_text ps) f buf pair held in
    let first : (read_pair f buf).0 ≡ placed buf (n, v) = ap (λ r. r.0) is in
    let next : (read_pair f buf).1 ≡ behind buf (n, v) = ap (λ r. r.1) is in
    rw (more, first, read_pairs_from)
      (loop_step rounds f (read_pair f buf).1 bufend (layout (behind buf (n, v)) ps)
        (take_pair f (placed buf (n, v)) s)
        (λ s'. rw next (
          pairs_loop ps rounds f (behind buf (n, v)) bufend s' good (omega arith) (omega arith)
            rest)))

layout-texts :
    (ps : List (Bytes × Bytes)) (f : ℕ → ℕ) (buf : ℕ)
    → All IsPair ps
    → Holds f buf (params_text ps)
    → map (texts_of f) (layout buf ps) ≡ ps
layout-texts [] f buf good held = refl
layout-texts ((n, v) ∷ ps) f buf (pair, good) held =
    let (is, texts, rest) = read_pair-placed n v (params_text ps) f buf pair held in
    rw (texts, layout-texts ps f (behind buf (n, v)) good rest) refl

-- The loop handles exactly the pairs that were sent, in order, and ends: it comes to the same as handling
-- one after the other, and what they point to are the names and the values. A name or a value is shorter
-- than 2 ^ 31.
pub read_pairs_from-take_all :
    (ps : List (Bytes × Bytes)) (f : ℕ → ℕ) (buf : ℕ) (s : Parsing)
    → All IsPair ps
    → Holds f buf (params_text ps)
    → (read_pairs_from (length (params_text ps)) f buf (buf + length (params_text ps)) s
        ≡ take_all f (layout buf ps) s)
      × (map (texts_of f) (layout buf ps) ≡ ps)
read_pairs_from-take_all ps f buf s good held = (
  pairs_loop ps (length (params_text ps)) f buf (buf + length (params_text ps)) s good (omega arith)
      refl held,
  layout-texts ps f buf good held,
)

read_length-forward : (f : ℕ → ℕ) (buf : ℕ) → buf < (read_length f buf).1
unfolding read_length
read_length-forward f buf = elim (Bool-cases (f buf / 2 ^ 7 == 0)) [
  | inl e ↦ rw e (omega arith)
  | inr e ↦ rw e (omega arith)
]

read_pair-forward : (f : ℕ → ℕ) (buf : ℕ) → buf < (read_pair f buf).1
unfolding read_pair
read_pair-forward f buf =
    omega (arith, read_length-forward f buf, read_length-forward f (read_length f buf).1)

overrun_step :
    (rounds : ℕ) (f : ℕ → ℕ) (next bufend : ℕ) (r : Option Parsing)
    → ((s : Parsing) → read_pairs_from rounds f next bufend s ≡ none)
    → elim r [ none ↦ none | some s' ↦ read_pairs_from rounds f next bufend s' ] ≡ none
overrun_step rounds f next bufend none rest = refl
overrun_step rounds f next bufend (some s) rest = rest s

-- Once the loop has passed `bufend` it does not end, whatever stands in the memory: the pointer only
-- goes up, and the test is for equality.
pub read_pairs_from-overrun :
    (rounds : ℕ) (f : ℕ → ℕ) (buf bufend : ℕ) (s : Parsing)
    → bufend < buf
    → read_pairs_from rounds f buf bufend s ≡ none
unfolding read_pairs_from
read_pairs_from-overrun zero f buf bufend s past =
    rw (past_lem buf bufend past, read_pairs_from) refl
read_pairs_from-overrun (suc rounds) f buf bufend s past =
    rw (past_lem buf bufend past, read_pairs_from)
      (overrun_step rounds f (read_pair f buf).1 bufend (take_pair f (read_pair f buf).0 s) (λ s'.
        read_pairs_from-overrun rounds f (read_pair f buf).1 bufend s'
          (omega (arith, read_pair-forward f buf))))
