-- ===== src/HttpHeader/Query.antt =====
-- The variables of a form, as the scripts ask for them.
use sq_sp.Prelude.{ℕ, ◌≡◌, List, [], ◌∷◌, Option, none, some, if◌then◌else◌, Bytes, eq_bytes}
use sq_sp.HttpHeader.{Ptr, HttpHeader, cstring_at}
use sq_sp.HttpHeader.Listing.{Field}

-- What a script gets for a name: the value of the first field that has it, if no field in front of it has
-- an empty value.
abbrev pub first_value : Bytes → List Field → Option Bytes
first_value name [] = none
first_value name ((n, []) ∷ ps) = none
first_value name ((n, c ∷ cs) ∷ ps) = if eq_bytes n name then some (c ∷ cs) else first_value name ps

-- NULL, or a pointer to the text.
abbrev pub Points : ℕ → (ℕ → ℕ) → Option Bytes → Option (Option Ptr) → Type 0
Points rounds f none r = r ≡ some none
Points rounds f (some v) r = (p : Ptr) × (r ≡ some (some p)) × (cstring_at rounds f p ≡ some v)
