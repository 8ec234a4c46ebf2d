-- ===== src/Text/Search.antt =====
-- `my_atoi` (LigSP/LigCommon/lig_httpd.cpp) on digits and on other characters.
use sq_sp.Prelude.{
  ℕ, zero, suc, ◌+◌, ◌-◌, ◌*◌, ◌<◌, ◌≤◌, ◌≡◌, ◌⊎◌, refl, true, false, ◌&&◌, [], ◌∷◌, ◌++◌, ◌==◌,
  leb, none, some, length, Bytes, arith,
}
use sq_sp.Text.{my_atoi}

-- `my_atoi` never returns once it meets a character that is no digit with its length not used up: no
-- number of rounds is enough.
pub my_atoi_stuck :
    (rounds val c leng : ℕ) (pstr : Bytes)
    → (c < b'0') ⊎ (b'9' < c)
    → 0 < leng
    → my_atoi rounds val (c ∷ pstr) leng ≡ none
unfolding my_atoi
my_atoi_stuck zero val c leng pstr other some_left = ground arith
my_atoi_stuck (suc rounds) val c leng pstr other some_left =
    ground (arith, my_atoi_stuck rounds val c leng pstr other some_left)

-- The value of a run of digits, with the value of those in front of it.
abbrev pub decimal : ℕ → Bytes → ℕ
decimal val [] = val
decimal val (c ∷ cs) = decimal (val * 10 + (c - b'0')) cs

abbrev pub AreDigits : Bytes → Type 0
AreDigits [] = Unit
AreDigits (c ∷ cs) = (b'0' ≤ c) × (c ≤ b'9') × AreDigits cs

my_atoi_from :
    (val : ℕ) (cs rest : Bytes)
    → AreDigits cs
    → my_atoi (length cs) val (cs ++ rest) (length cs) ≡ some (decimal val cs)
unfolding my_atoi
my_atoi_from val [] [] good = refl
my_atoi_from val [] (r ∷ rest) good = refl
my_atoi_from val (c ∷ cs) rest (low, high, good) =
    let value : val * 10 + c - b'0' ≡ val * 10 + (c - b'0') = omega arith in
    let one : suc (length cs) - 1 ≡ length cs = omega arith in
    let more : (suc (length cs) == 0) ≡ false = ground arith in
    let digit : (leb b'0' c && leb c b'9') ≡ true = ground arith in
    rw (more, digit, value, one) (my_atoi_from (val * 10 + (c - b'0')) cs rest good)

-- On a run of digits of the given length `my_atoi` returns its decimal value, after as many rounds as
-- there are digits, whatever stands behind them.
pub my_atoi_lem :
    (cs rest : Bytes)
    → AreDigits cs
    → my_atoi (length cs) 0 (cs ++ rest) (length cs) ≡ some (decimal 0 cs)
my_atoi_lem cs rest good = my_atoi_from 0 cs rest good
