-- ===== src/Register/Tests.antt =====
-- Pages that are registered, and the witness.
use sq_sp.Prelude.{true, false, ◌≡◌, ◌∷◌, ◌>>=◌, refl, inl, inr, none, some, [], codes, arith}
use sq_sp.Register.{
  UrlMap, insert_map, check_register, find_map, copied, register_page, register_sqfunction,
  register_session_page, register_session_sqfunction, skip_front, registered,
  squirrel_session_callback, squirrel_callback, squirrel_excute_function,
  squirrel_excute_session_function,
}
use sq_sp.Register.Reach.{Reaches, register-Reaches}

abbrev page : UrlMap
page = record {
  url = codes "a.html";
  function_name = codes "page_a";
  flag_direct_sq_function = false;
  p_callback = squirrel_session_callback;
  p_c_callback = none;
}

reaches_page :
    (register_session_page (codes "/ a.html") (codes "page_a") []
      >>= check_register (codes "a.html"))
    ≡ some (some page)
unfolding check_register find_map copied registered register_session_page insert_map skip_front
reaches_page = refl

-- A second registration is ignored.
keeps_first :
    (register_page (codes "a.html") (codes "new") (page ∷ []) >>= check_register (codes "a.html"))
    ≡ some (some page)
unfolding check_register find_map copied registered register_page insert_map skip_front
keeps_first = refl

register-Reaches_example :
    Reaches
      (codes " b")
      (codes "f")
      false
      squirrel_callback
      (page ∷ [])
      (register_page (codes "/\\ b") (codes "f") (page ∷ []))
    × Reaches
        (codes " b")
        (codes "f")
        true
        squirrel_excute_function
        (page ∷ [])
        (register_sqfunction (codes "/\\ b") (codes "f") (page ∷ []))
    × Reaches
        (codes "c")
        (codes "f")
        false
        squirrel_session_callback
        (page ∷ [])
        (register_session_page (codes "/ c") (codes "f") (page ∷ []))
    × Reaches
        (codes "c")
        (codes "f")
        true
        squirrel_excute_session_function
        (page ∷ [])
        (register_session_sqfunction (codes "/ c") (codes "f") (page ∷ []))
register-Reaches_example =
    register-Reaches (page ∷ []) (codes "f") (codes "/\\") (codes " b") (codes "/ ") (codes "c")
      (inl refl, (inr refl, tt)) (λ h. ground arith) (inl (inl refl), (inr refl, tt))
      (λ h. ground arith) (omega arith) (omega arith) (omega arith)
