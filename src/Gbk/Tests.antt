-- ===== src/Gbk/Tests.antt =====
-- Runs of the search and of the conversion on a table of three codes.
use sq_sp.Prelude.{ℕ, ◌+◌, ◌<◌, ◌≡◌, ◌≢◌, refl, [], ◌∷◌, none, some, arith}
use sq_sp.Gbk.{binary_search, gbc2uc, gb2utf8}
use sq_sp.Gbk.Search.{IsTable, binary_search_lem}

-- 0xb0a1, 0xb0a2, 0xb0a3
abbrev three : ℕ → ℕ
three i = 0xb0a1 + i

three-IsTable : IsTable three 3
three-IsTable = record {
  nonempty = omega arith;
  fits = omega arith;
  increasing = λ i j l m. omega arith;
}

binary_search_lem_example :
    ((i : ℕ) → i < 3 → three i ≡ 0xb0a2 → binary_search three 3 0xb0a2 ≡ some (some i))
    × (((i : ℕ) → i < 3 → three i ≢ 0xb0a2) → binary_search three 3 0xb0a2 ≡ some none)
binary_search_lem_example = binary_search_lem three 3 0xb0a2 three-IsTable

convert :
    gb2utf8 (gbc2uc three (λ i. 0x554a + i) 3) 16 [] (b'a' ∷ 0xb0 ∷ 0xa1 ∷ [])
    ≡ some (b'a' ∷ 0xe5 ∷ 0x95 ∷ 0x8a ∷ [])
unfolding gb2utf8 gbc2uc binary_search
convert = refl
