-- ===== src/Text.antt =====
-- The text helpers of LigSP/LigCommon/lig_httpd.cpp: comparison and search in requests, month names and
-- numbers. Texts are bytes in front of a NUL, or between two pointers.
mod Tests
pub mod Nocase
pub mod Search
use sq_sp.Prelude.{
  ℕ, zero, suc, ◌+◌, ◌-◌, ◌*◌, Bool, true, false, not, ◌&&◌, ◌||◌, List, [], ◌∷◌, ◌++◌, Option,
  none, some, ◌==◌, ltb, leb, length, get_or, if◌then◌else◌, Bytes, codes, eq_bytes, ℤ, pos, negsuc,
  minus_one,
}

-- `sp_str_cmp(sstr,sstr_len,dstr)`, on the `sstr_len` bytes of `sstr`
unfoldable pub sp_str_cmp : Bytes → Bytes → Bool
sp_str_cmp [] dstr = true
sp_str_cmp (c ∷ sstr) [] = false
sp_str_cmp (c ∷ sstr) (d ∷ dstr) = let rest = sp_str_cmp sstr dstr in if c == d then rest else false

-- the tests of `nocase_find_str` on two characters
unfoldable pub same_nocase : ℕ → ℕ → Bool
same_nocase p s =
    (p == s)
    || ((leb b'A' p && leb p b'Z' && leb b'a' s && (p + (b'a' - b'A') == s))
        || (leb b'a' p && leb b'A' s && leb s b'Z' && (s + (b'a' - b'A') == p)))

-- How the comparison from one position ends: with the rest of the text behind the match, at the end
-- of the text, or at a character that differs.
pub data Match : Type 0 where
  matched : Bytes → Match
  ran_out : Match
  differs : Match

unfoldable pub match_from : Bytes → Bytes → Match
match_from p [] = matched p
match_from [] (s ∷ str) = ran_out
match_from (c ∷ p) (s ∷ str) =
    let rest = match_from p str in if same_nocase c s then rest else differs

-- `nocase_find_str(from,to,str)`: the text from the returned pointer to `to`, or `none` for NULL
unfoldable pub nocase_find_str : Bytes → Bytes → Option Bytes
nocase_find_str [] str = elim (match_from [] str) [
  | matched rest ↦ some rest
  | ran_out ↦ none
  | differs ↦ none
]
nocase_find_str (c ∷ from) str = elim (match_from (c ∷ from) str) [
  | matched rest ↦ some rest
  | ran_out ↦ none
  | differs ↦ nocase_find_str from str
]

-- The inner loop of `str_find`, at the position `s`: `left` characters from `j` on. What it compares
-- with is the first character of `t` plus `j`.
unfoldable pub run_at : Bytes → ℕ → ℕ → ℕ → Bool
run_at s t0 j zero = true
run_at s t0 j (suc left) =
    let rest = run_at s t0 (j + 1) left in if get_or s j 0 == t0 + j then rest else false

-- `str_find(s,l1,t,l2)`: `rounds` positions from `i` on, `t0` the first character of `t`
unfoldable pub str_find_from : Bytes → ℕ → ℕ → ℕ → ℕ → ℤ
str_find_from s t0 l2 i zero = minus_one
str_find_from [] t0 l2 i (suc rounds) = minus_one
str_find_from (c ∷ s) t0 l2 i (suc rounds) =
    let later = str_find_from s t0 l2 (i + 1) rounds in
    if run_at (c ∷ s) t0 0 l2 then pos i else later

unfoldable pub str_find : Bytes → Bytes → ℤ
str_find s t = str_find_from s (get_or t 0 0) (length t) 0 (length s - length t)

-- The `while` of `KMP_init`: `k + 1` is `k1`; `next` is the table so far, each entry one too large.
unfoldable pub kmp_back : Bytes → List ℕ → ℕ → ℕ → ℕ → ℕ
kmp_back pat next c k1 zero = k1
kmp_back pat next c k1 (suc rounds) =
    let again = kmp_back pat next c (get_or next (k1 - 1) 0) rounds in
    if not (get_or pat k1 0 == c) && ltb 0 k1 then again else k1

-- The loop of `KMP_init` from `i` on, with each entry of `next` one too large, so that 0 stands for
-- -1: where nothing fits, the entry is 0, not -1.
unfoldable pub kmp_init_from : Bytes → List ℕ → ℕ → ℕ → List ℕ
kmp_init_from pat next i zero = next
kmp_init_from pat next i (suc left) =
    let c = get_or pat i 0 in
    let k1 = kmp_back pat next c (get_or next (i - 1) 0) (length pat) in
    kmp_init_from pat (next ++ (if get_or pat k1 0 == c then k1 + 1 else 1) ∷ []) (i + 1) left

unfoldable pub kmp_init : Bytes → List ℕ
kmp_init pat = kmp_init_from pat (0 ∷ []) 1 (length pat - 1)

-- The `while` of `KMP_find`, on `j + 1`; it leaves at most as many times as `t` is long.
unfoldable pub kmp_fall : Bytes → List ℕ → ℕ → ℕ → ℕ → ℕ
kmp_fall t next c j1 zero = j1
kmp_fall t next c j1 (suc rounds) =
    let again = kmp_fall t next c (get_or next (j1 - 1) 0) rounds in
    if ltb 0 j1 && not (get_or t j1 0 == c) then again else j1

-- `KMP_find(s,l1,t,l2,next)`, from the position `i` on with `j + 1` characters found
unfoldable pub kmp_find_from : Bytes → List ℕ → ℕ → ℕ → Bytes → ℤ
kmp_find_from t next i j1 [] = minus_one
kmp_find_from t next i j1 (c ∷ s) =
    let fallen = kmp_fall t next c j1 (length t + 1) in
    let found = if get_or t fallen 0 == c then fallen + 1 else fallen in
    let later = kmp_find_from t next (i + 1) found s in
    if found == length t then pos (i + 1 - length t) else later

unfoldable pub kmp_find : Bytes → Bytes → ℤ
kmp_find s t = kmp_find_from t (kmp_init t) 0 0 s

-- `ncasecmp`: one character as it is compared, next to the other one; the test is on both strings.
unfoldable pub folded : ℕ → Bool → ℕ
folded c test = if test then c - b'a' + b'A' else c

-- `ncasecmp(str1,str2)`, on ASCII texts in front of their NULs
unfoldable pub ncasecmp : Bytes → Bytes → Bool
ncasecmp [] str2 = true
ncasecmp (c ∷ str1) [] = false
ncasecmp (c ∷ str1) (d ∷ str2) =
    let rest = ncasecmp str1 str2 in
    let first = folded c (leb b'a' c && leb d b'z') in
    let second = folded d (leb b'a' d && leb d b'z') in if first == second then rest else false

-- the position of a name in a list, counted from `i`
unfoldable pub position : Bytes → ℕ → List Bytes → ℤ
position s i [] = minus_one
position s i (m ∷ ms) = let later = position s (i + 1) ms in if eq_bytes s m then pos i else later

abbrev pub months : List Bytes
months =
    codes "Jan"
    ∷ codes "Feb"
    ∷ codes "Mar"
    ∷ codes "Apr"
    ∷ codes "May"
    ∷ codes "Jun"
    ∷ codes "Jul"
    ∷ codes "Aug"
    ∷ codes "Sep"
    ∷ codes "Oct"
    ∷ codes "Nov"
    ∷ codes "Dec"
    ∷ []

-- `montoi(s)`
abbrev pub montoi : Bytes → ℤ
montoi s = position s 0 months

-- `my_atoi(pstr,leng)`, `rounds` times at most: a character that is no digit is not passed.
-- The end of the list is the NUL; the number stays below 2 ^ 31, beyond which an `int` overflows.
unfoldable pub my_atoi : ℕ → ℕ → Bytes → ℕ → Option ℕ
my_atoi rounds val [] leng = some val
my_atoi zero val (c ∷ pstr) leng = if leng == 0 then some val else none
my_atoi (suc rounds) val (c ∷ pstr) leng =
    let next = my_atoi rounds (val * 10 + c - b'0') pstr (leng - 1) in
    let same = my_atoi rounds val (c ∷ pstr) leng in
    if leng == 0 then some val else if leb b'0' c && leb c b'9' then next else same
