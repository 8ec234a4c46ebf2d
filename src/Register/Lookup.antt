-- ===== src/Register/Lookup.antt =====
-- The set of the URLs: what is found in it after an insertion.
use sq_sp.Prelude.{
  ◌≡◌, inl, inr, refl, true, false, List, [], ◌∷◌, none, some, Bytes, eq_bytes, eq_bytes_iff, arith,
  Bool-cases, sym, ◌∙◌,
}
use sq_sp.Register.{UrlMap, insert_map, find_map}

-- what the look-ups give, before and after
abbrev pub Registers : UrlMap → List UrlMap → List UrlMap → Type 0
Registers m db db' =
    ((old : UrlMap) → find_map m.url db ≡ some old → find_map m.url db' ≡ some old)
    × (find_map m.url db ≡ none → find_map m.url db' ≡ some m)
    × ((uri : Bytes) → eq_bytes m.url uri ≡ false → find_map uri db' ≡ find_map uri db)

same_lem : (a : Bytes) → eq_bytes a a ≡ true
same_lem a = (eq_bytes_iff a a).1 refl

none_lem : (m : UrlMap) → some m ≡ none → ⊥
none_lem m e = ground arith

insert_old :
    (m x : UrlMap) (xs : List UrlMap) → eq_bytes x.url m.url ≡ true → insert_map m (x ∷ xs) ≡ x ∷ xs
unfolding insert_map
insert_old m x xs e = rw (e, insert_map) refl

insert_behind :
    (m x : UrlMap) (xs : List UrlMap)
    → eq_bytes x.url m.url ≡ false
    → insert_map m (x ∷ xs) ≡ x ∷ insert_map m xs
unfolding insert_map
insert_behind m x xs e = rw (e, insert_map) refl

check_here :
    (uri : Bytes) (x : UrlMap) (xs : List UrlMap)
    → eq_bytes x.url uri ≡ true
    → find_map uri (x ∷ xs) ≡ some x
unfolding find_map
check_here uri x xs e = rw (e, find_map) refl

check_behind :
    (uri : Bytes) (x : UrlMap) (xs : List UrlMap)
    → eq_bytes x.url uri ≡ false
    → find_map uri (x ∷ xs) ≡ find_map uri xs
unfolding find_map
check_behind uri x xs e = rw (e, find_map) refl

other_kept :
    (uri : Bytes) (x : UrlMap) (xs ys : List UrlMap)
    → find_map uri ys ≡ find_map uri xs
    → find_map uri (x ∷ ys) ≡ find_map uri (x ∷ xs)
other_kept uri x xs ys same = elim (Bool-cases (eq_bytes x.url uri)) [
  | inl e ↦ check_here uri x ys e ∙ sym (check_here uri x xs e)
  | inr e ↦ check_behind uri x ys e ∙ (same ∙ sym (check_behind uri x xs e))
]

-- An element that is inserted is found where none of its URL was there; all others are found as before.
pub insert_map-Registers : (m : UrlMap) (db : List UrlMap) → Registers m db (insert_map m db)
unfolding insert_map find_map
insert_map-Registers m [] = (
  λ old e. absurd (none_lem old (sym e)),
  λ e. rw (same_lem m.url) refl,
  λ uri other. rw other refl,
)
insert_map-Registers m (x ∷ xs) =
    let (first, fresh, others) = insert_map-Registers m xs in
    elim (Bool-cases (eq_bytes x.url m.url)) [
      | inl e ↦ rw (insert_old m x xs e) (
        λ old h. h,
        λ h. absurd (none_lem x (sym (check_here m.url x xs e) ∙ h)),
        λ uri other. refl,
      )
      | inr e ↦ rw (insert_behind m x xs e) (
        λ old h.
            check_behind m.url x (insert_map m xs) e
            ∙ first old (sym (check_behind m.url x xs e) ∙ h),
        λ h. check_behind m.url x (insert_map m xs) e ∙ fresh (sym (check_behind m.url x xs e) ∙ h),
        λ uri other. other_kept uri x xs (insert_map m xs) (others uri other),
      )
    ]
