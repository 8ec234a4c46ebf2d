-- ===== src/Register/Reach.antt =====
-- Which page a URL reaches.
use mathlib.Core.Option.{some-injective}
use sq_sp.Prelude.{
  ◌≡◌, ◌≢◌, ◌<◌, ◌⊎◌, inl, inr, refl, Bool, true, false, List, [], ◌∷◌, ◌++◌, Option, none, some,
  Bytes, eq_bytes, eq_bytes_iff, arith, All, length, ltb, ℕ, Bool-cases, ap, sym, ◌∙◌, ◌>>=◌,
}
use sq_sp.Register.{
  UrlMap, Callback, squirrel_callback, squirrel_excute_function, squirrel_session_callback,
  squirrel_excute_session_function, skip_front, copied, registered, insert_map, find_map,
  register_page, register_sqfunction, register_session_page, register_session_sqfunction,
  check_register,
}
use sq_sp.Register.Lookup.{insert_map-Registers}

abbrev pub IsSlash : ℕ → Type 0
IsSlash c = (c ≡ b'/') ⊎ (c ≡ b'\\')

abbrev pub IsSlashOrBlank : ℕ → Type 0
IsSlashOrBlank c = IsSlash c ⊎ (c ≡ b' ')

-- The text does not start with such a character.
abbrev pub StartsOther : (ℕ → Type 0) → Bytes → Type 0
StartsOther P [] = Unit
StartsOther P (c ∷ text) = ¬ P c

-- A page with a function, a flag and a callback is reached by `url`, where nothing was registered under it;
-- else what was registered first; and any other URL reaches what it did.
abbrev pub Reaches : Bytes → Bytes → Bool → Callback → List UrlMap → Option (List UrlMap) → Type 0
Reaches url name direct callback db none = ⊥
Reaches url name direct callback db (some after) =
    ((old : UrlMap)
      → check_register url db ≡ some (some old)
      → check_register url after ≡ some (some old))
    × (check_register url db ≡ some none
        → (m : UrlMap) × (check_register url after ≡ some (some m))
          × (m.function_name ≡ name)
          × (m.flag_direct_sq_function ≡ direct)
          × (m.p_callback ≡ callback)
          × (m.p_c_callback ≡ none))
    × ((uri : Bytes) → uri ≢ url → check_register uri after ≡ check_register uri db)

skip_slashes :
    (slashes rest : Bytes)
    → All IsSlash slashes
    → StartsOther IsSlash rest
    → skip_front false (slashes ++ rest) ≡ rest
unfolding skip_front
skip_slashes [] [] all other = refl
skip_slashes [] (c ∷ rest) all other = ground arith
skip_slashes (c ∷ slashes) rest (here, all) other = ground (arith, skip_slashes slashes rest)

skip_blanks :
    (front rest : Bytes)
    → All IsSlashOrBlank front
    → StartsOther IsSlashOrBlank rest
    → skip_front true (front ++ rest) ≡ rest
unfolding skip_front
skip_blanks [] [] all other = refl
skip_blanks [] (c ∷ rest) all other = ground arith
skip_blanks (c ∷ front) rest (here, all) other = ground (arith, skip_blanks front rest)

check_fits :
    (url : Bytes) (db : List UrlMap)
    → length url < 256
    → check_register url db ≡ some (find_map url db)
unfolding check_register copied
check_fits url db short = let yes : ltb (length url) 256 ≡ true = ground arith in rw yes refl

check_same :
    (url : Bytes) (db db' : List UrlMap)
    → find_map url db' ≡ find_map url db
    → check_register url db' ≡ check_register url db
unfolding check_register copied
check_same url db db' same = elim (Bool-cases (ltb (length url) 256)) [
  | inl short ↦ rw (short, same) refl
  | inr long ↦ rw long refl
]

registered_lem :
    (blanks direct : Bool) (callback : Callback) (url rest name : Bytes)
    → skip_front blanks url ≡ rest
    → length rest < 256
    → length name < 256
    → registered blanks direct callback url name
      ≡ some (record {
        url = rest;
        function_name = name;
        flag_direct_sq_function = direct;
        p_callback = callback;
        p_c_callback = none;
      })
unfolding registered copied
registered_lem blanks direct callback url rest name skipped short short_name =
    let fits : ltb (length rest) 256 ≡ true = ground arith in
    let fits_name : ltb (length name) 256 ≡ true = ground arith in
    rw (skipped, fits, fits_name) refl

other_bytes : (a b : Bytes) → b ≢ a → eq_bytes a b ≡ false
other_bytes a b other = elim (Bool-cases (eq_bytes a b)) [
  | inl same ↦ absurd (other (sym ((eq_bytes_iff a b).0 same)))
  | inr differ ↦ differ
]

insert-Reaches :
    (m : UrlMap) (db : List UrlMap)
    → length m.url < 256
    → m.p_c_callback ≡ none
    → Reaches m.url m.function_name m.flag_direct_sq_function m.p_callback db
        (some (insert_map m db))
insert-Reaches m db short no_c =
    let (first, fresh, others) = insert_map-Registers m db in
    let before = check_fits m.url db short in
    let after = check_fits m.url (insert_map m db) short in
    (
      (λ old is. rw after (ap some (first old (some-injective _ _ (sym before ∙ is))))),
      (λ is. (
        m,
        rw after (ap some (fresh (some-injective _ _ (sym before ∙ is)))),
        refl,
        refl,
        refl,
        no_c,
      )),
      (λ uri other. check_same uri db (insert_map m db) (others uri (other_bytes m.url uri other))),
    )

registered-Reaches :
    (blanks direct : Bool) (callback : Callback) (url rest name : Bytes) (db : List UrlMap)
    → skip_front blanks url ≡ rest
    → length rest < 256
    → length name < 256
    → Reaches rest name direct callback db
        (registered blanks direct callback url name >>= (λ m. some (insert_map m db)))
registered-Reaches blanks direct callback url rest name db skipped short short_name =
    rw (registered_lem blanks direct callback url rest name skipped short short_name)
      (insert-Reaches _ db short refl)

-- The four functions that register a page. A URL that starts with slashes or backslashes, for the session
-- pages with blanks too, is registered without them: a request for what is behind them reaches the
-- function that was named, with the flag and the callback of its kind, if nothing was registered under
-- it; what was registered before stays reached otherwise, and so it is for all other requests. The URL
-- without its front and the name are shorter than 256 bytes.
pub register-Reaches :
    (db : List UrlMap) (name slashes url front session_url : Bytes)
    → All IsSlash slashes
    → StartsOther IsSlash url
    → All IsSlashOrBlank front
    → StartsOther IsSlashOrBlank session_url
    → length url < 256
    → length session_url < 256
    → length name < 256
    → Reaches url name false squirrel_callback db (register_page (slashes ++ url) name db)
      × Reaches url name true squirrel_excute_function db
          (register_sqfunction (slashes ++ url) name db)
      × Reaches session_url name false squirrel_session_callback db
          (register_session_page (front ++ session_url) name db)
      × Reaches session_url name true squirrel_excute_session_function db
          (register_session_sqfunction (front ++ session_url) name db)
unfolding register_page register_sqfunction register_session_page register_session_sqfunction
register-Reaches db name slashes url front session_url all other all' other' short short'
      short_name =
    let pages = skip_slashes slashes url all other in
    let sessions = skip_blanks front session_url all' other' in
    (
      registered-Reaches false false squirrel_callback (slashes ++ url) url name db pages short
          short_name,
      registered-Reaches false true squirrel_excute_function (slashes ++ url) url name db pages
          short short_name,
      registered-Reaches true false squirrel_session_callback (front ++ session_url) session_url
          name db sessions short' short_name,
      registered-Reaches true true squirrel_excute_session_function (front ++ session_url)
          session_url name db sessions short' short_name,
    )
