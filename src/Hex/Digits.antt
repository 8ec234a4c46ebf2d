-- ===== src/Hex/Digits.antt =====
-- The characters of session keys.
use sq_sp.Prelude.{ℕ, ◌≡◌, refl, ◌∷◌, Bytes}
use sq_sp.Hex.{session_key_of, key_triple}

-- The table gives its characters 0 and 1 to the values 62 and 63 as well, so the keys do not tell all
-- digests apart: whatever follows, a digest that starts with the byte 248 has the key of the one that
-- starts with 0.
pub session_key_of_collides :
    (h1 : ℕ) (rest : Bytes) → session_key_of (0 ∷ h1 ∷ rest) ≡ session_key_of (248 ∷ h1 ∷ rest)
unfolding session_key_of key_triple
session_key_of_collides h1 rest = refl
