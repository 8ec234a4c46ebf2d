-- ===== src/Utf8/Units.antt =====
-- One unit: its bytes, and what is read back from them.
use Prim.Native.Nat.{bit_and}
use sq_sp.Prelude.{
  ℕ, ◌&&◌, ◌+◌, ◌*◌, ◌/◌, ◌%◌, ◌^◌, ◌<◌, ◌≤◌, ◌≡◌, refl, true, [], ◌∷◌, ◌++◌, ◌==◌, ltb,
  if◌then◌else◌, Bytes, arith,
}
use sq_sp.Bits.{all_below, all_below_sound, bit_or_join, mask_15, mask_31, mask_63}
use sq_sp.Utf8.{unit_bytes, read_unit}

-- the arithmetic content of a unit's bytes
abbrev pub plain_bytes : ℕ → Bytes
plain_bytes w =
    if ltb w 128
    then w ∷ []
    else if ltb w 2048
    then (192 + w / 64) ∷ (128 + w % 64) ∷ []
    else (224 + w / 4096) ∷ (128 + w / 64 % 64) ∷ (128 + w % 64) ∷ []

pub unit_bytes_lem : (w : ℕ) → w < 2 ^ 16 → unit_bytes w ≡ plain_bytes w
unfolding unit_bytes
unit_bytes_lem w h = ground (
  arith,
  mask_63 w,
  mask_63 (w / 2 ^ 6),
  mask_31 (w / 2 ^ 6),
  mask_15 (w / 2 ^ 12),
  bit_or_join 5 6 (w / 64),
  bit_or_join 6 2 (w % 64),
  bit_or_join 6 2 (w / 64 % 64),
  bit_or_join 4 14 (w / 4096),
)

-- the masks of a byte's leading bits, checked for every byte
leading_table :
    all_below 256 (λ c.
      (bit_and c 0x80 == c / 128 * 128)
      && (bit_and c 0xc0 == c / 64 * 64)
      && (bit_and c 0xe0 == c / 32 * 32)
      && (bit_and c 0xf0 == c / 16 * 16))
    ≡ true
unfolding all_below
leading_table = refl

pub leading_masks :
    (c : ℕ)
    → c < 256
    → (bit_and c 0x80 ≡ c / 128 * 128)
      × (bit_and c 0xc0 ≡ c / 64 * 64)
      × (bit_and c 0xe0 ≡ c / 32 * 32)
      × (bit_and c 0xf0 ≡ c / 16 * 16)
leading_masks c h = let t = all_below_sound 256 _ h leading_table in ground (arith, t)

read_unit_one : (old w : ℕ) (rest : Bytes) → w < 128 → read_unit old (w ∷ rest) ≡ (w, rest)
unfolding read_unit
read_unit_one old w rest h = ground (arith, leading_masks w)

read_unit_two :
    (old w : ℕ) (rest : Bytes)
    → 128 ≤ w
    → w < 2048
    → read_unit old ((192 + w / 64) ∷ (128 + w % 64) ∷ rest) ≡ (w, rest)
unfolding read_unit
read_unit_two old w rest a b = ground (
  arith,
  leading_masks (192 + w / 64),
  mask_31 (192 + w / 64),
  mask_63 (128 + w % 64),
  bit_or_join 6 (w / 64) (w % 64),
)

read_unit_three :
    (old w : ℕ) (rest : Bytes)
    → 2048 ≤ w
    → w < 2 ^ 16
    → read_unit old ((224 + w / 4096) ∷ (128 + w / 64 % 64) ∷ (128 + w % 64) ∷ rest) ≡ (w, rest)
unfolding read_unit
read_unit_three old w rest a b = ground (
  arith,
  leading_masks (224 + w / 4096),
  mask_63 (128 + w / 64 % 64),
  mask_63 (128 + w % 64),
  bit_or_join 12 (w / 4096) (w / 64 % 64 * 64),
  bit_or_join 6 (w / 64) (w % 64),
)

-- `utf8ToUcs2` reads every unit back from the bytes that `ucs2ToUtf8` writes for it.
pub read_unit-unit_bytes :
    (old w : ℕ) (rest : Bytes) → w < 2 ^ 16 → read_unit old (unit_bytes w ++ rest) ≡ (w, rest)
read_unit-unit_bytes old w rest h =
    rw (unit_bytes_lem w h) (
      ground
        (arith, read_unit_one old w rest, read_unit_two old w rest, read_unit_three old w rest))
