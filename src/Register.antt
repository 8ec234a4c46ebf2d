-- ===== src/Register.antt =====
-- The URLs that are registered with the server: `url_map`, `RegDB`, the functions that register pages and
-- `check_register` of LigSP/LigCommon/lig_httpd.h. `RegDB` is a set ordered by URL, and is kept as a list.
-- The script that is created next to it belongs to the virtual machine. `none` is a text that does not
-- fit the 256 bytes that it is copied to.
mod Tests
pub mod Lookup
pub mod Reach
use sq_sp.Prelude.{
  ℕ, Bool, true, false, ◌||◌, List, [], ◌∷◌, Option, none, some, ◌==◌, if◌then◌else◌, Bytes,
  eq_bytes, ltb, length, ◌>>=◌,
}

-- the member functions that `pCallback` points to
pub data Callback : Type 0 where
  squirrel_callback : Callback
  squirrel_excute_function : Callback
  squirrel_session_callback : Callback
  squirrel_excute_session_function : Callback

-- `url_map`; `p_c_callback` is the C function, `none` for NULL, and `pJosnRequest` is the same for all.
pub record UrlMap : Type 0 where
  pub url : Bytes
  pub function_name : Bytes
  pub flag_direct_sq_function : Bool
  pub p_callback : Callback
  pub p_c_callback : Option ℕ

-- `RegDB.insert(tmp)`: a set keeps the element that it has.
unfoldable pub insert_map : UrlMap → List UrlMap → List UrlMap
insert_map m [] = m ∷ []
insert_map m (x ∷ xs) =
    let rest = insert_map m xs in if eq_bytes x.url m.url then x ∷ xs else x ∷ rest

-- The loops in front of a URL; those of the session pages skip blanks too.
unfoldable pub skip_front : Bool → Bytes → Bytes
skip_front blanks [] = []
skip_front blanks (c ∷ url) =
    let rest = skip_front blanks url in
    if (c == b'/') || (c == b'\\')
    then rest
    else if c == b' '
    then (if blanks then rest else c ∷ url)
    else c ∷ url

-- `strcpy` to an array of 256 bytes
unfoldable pub copied : Bytes → Option Bytes
copied text = if ltb (length text) 256 then some text else none

-- `connect(url,f)`; `direct` is what the flag held, which is not set
unfoldable pub connect : Bool → Bytes → ℕ → List UrlMap → Option (List UrlMap)
connect direct url f reg_db = do
  url' ← copied url
  some (
      insert_map
        (record {
          url = url';
          function_name = [];
          flag_direct_sq_function = direct;
          p_callback = squirrel_callback;
          p_c_callback = some f;
        })
        reg_db)

-- `tmp` of the functions that register a page
unfoldable pub registered : Bool → Bool → Callback → Bytes → Bytes → Option UrlMap
registered blanks direct callback url function_name = do
  url' ← copied (skip_front blanks url)
  name ← copied function_name
  some (record {
    url = url';
    function_name = name;
    flag_direct_sq_function = direct;
    p_callback = callback;
    p_c_callback = none;
  })

unfoldable pub register_page : Bytes → Bytes → List UrlMap → Option (List UrlMap)
register_page url function_name reg_db = do
  m ← registered false false squirrel_callback url function_name
  some (insert_map m reg_db)

unfoldable pub register_sqfunction : Bytes → Bytes → List UrlMap → Option (List UrlMap)
register_sqfunction url function_name reg_db = do
  m ← registered false true squirrel_excute_function url function_name
  some (insert_map m reg_db)

unfoldable pub register_session_page : Bytes → Bytes → List UrlMap → Option (List UrlMap)
register_session_page url function_name reg_db = do
  m ← registered true false squirrel_session_callback url function_name
  some (insert_map m reg_db)

unfoldable pub register_session_sqfunction : Bytes → Bytes → List UrlMap → Option (List UrlMap)
register_session_sqfunction url function_name reg_db = do
  m ← registered true true squirrel_excute_session_function url function_name
  some (insert_map m reg_db)

-- `RegDB.find(tmp)`
unfoldable pub find_map : Bytes → List UrlMap → Option UrlMap
find_map uri [] = none
find_map uri (u ∷ us) = let rest = find_map uri us in if eq_bytes u.url uri then some u else rest

-- `check_register(pUri,pRt)`: what is registered under this text, `none` inside for false
unfoldable pub check_register : Bytes → List UrlMap → Option (Option UrlMap)
check_register uri reg_db = do text ← copied uri; some (find_map text reg_db)
