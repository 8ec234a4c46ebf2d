-- ===== src/Text/Tests.antt =====
-- Runs of the text helpers.
use sq_sp.Prelude.{◌≡◌, inr, refl, true, some, none, codes, pos, arith}
use sq_sp.Text.{
  sp_str_cmp, nocase_find_str, match_from, same_nocase, str_find, str_find_from, run_at, kmp_init,
  kmp_init_from, kmp_back, kmp_fall, kmp_find, kmp_find_from, ncasecmp, folded, montoi, position,
  my_atoi,
}
use sq_sp.Text.Nocase.{Found, nocase_find_str-Found}
use sq_sp.Text.Search.{my_atoi_stuck}

prefix_run : sp_str_cmp (codes "GET") (codes "GET /") ≡ true
unfolding sp_str_cmp
prefix_run = refl

boundary_run : nocase_find_str (codes "x; Boundary=7") (codes "boundary=") ≡ some (codes "7")
unfolding nocase_find_str match_from same_nocase
boundary_run = refl

-- A run of characters that follow each other is found, not the text.
runs_found : str_find (codes "xabcz") (codes "aaa") ≡ pos 1
unfolding str_find str_find_from run_at
runs_found = refl

-- "abc" is found in "abbc".
false_match : kmp_find (codes "abbc") (codes "abc") ≡ pos 1
unfolding kmp_find kmp_find_from kmp_init kmp_init_from kmp_back kmp_fall
false_match = refl

true_match : kmp_find (codes "xxabcx") (codes "abc") ≡ pos 2
unfolding kmp_find kmp_find_from kmp_init kmp_init_from kmp_back kmp_fall
true_match = refl

header_run : ncasecmp (codes "Content-Length: ") (codes "content-length: 5") ≡ true
unfolding ncasecmp folded
header_run = refl

month_run : montoi (codes "Mar") ≡ pos 2
unfolding position
month_run = refl

nocase_find_str-Found_example :
    Found (codes "A Bc") (codes "bC") (nocase_find_str (codes "A Bc") (codes "bC"))
nocase_find_str-Found_example = nocase_find_str-Found (codes "A Bc") (codes "bC")

my_atoi_stuck_example : my_atoi 1000 0 (codes "x1") 2 ≡ none
my_atoi_stuck_example = my_atoi_stuck 1000 0 b'x' 2 (codes "1") (inr (omega arith)) (omega arith)
