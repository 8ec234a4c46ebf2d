-- ===== src/Dict/Tests.antt =====
-- Runs of the dictionary.
use sq_sp.Prelude.{
  ◌<◌, ◌*◌, ◌^◌, ◌≡◌, refl, true, false, some, arith, if◌then◌else◌, codes, pos, minus_one,
  eq_bytes,
}
use sq_sp.Dict.{StringTree, node, nil, cleared, child_of, insert, find, insert_kids, landing}
use sq_sp.Dict.Lookup.{find-insert, has_kids}
use sq_sp.Dict.Handles.{Dict, fresh, returned, get_handle, get_string}
use sq_sp.Dict.Handles.Interned.{
  has, IsValid, fresh-IsValid, get_handle-IsValid, get_string-get_handle, find_injective,
}

abbrev with_go : Dict
with_go = (get_handle (codes "go") fresh).0

with_go-IsValid : IsValid with_go
with_go-IsValid = get_handle-IsValid (codes "go") fresh fresh-IsValid (omega arith) (omega arith)

go_first : (get_handle (codes "go") fresh).1 ≡ returned (pos 1)
unfolding get_handle insert
go_first = refl

-- The second look-up of a name gets -1.
go_second : (get_handle (codes "go") with_go).1 ≡ returned minus_one
unfolding get_handle insert
go_second = refl

go_found : find (codes "go") with_go.root ≡ pos 1
unfolding get_handle insert find
go_found = refl

gone_new : (get_handle (codes "gone") with_go).1 ≡ returned (pos 2)
unfolding get_handle insert
gone_new = refl

go_known : has (codes "go") with_go ≡ true
unfolding get_handle insert has_kids
go_known = refl

last_fits : with_go.last < 2 ^ 10 * 256
unfolding get_handle insert
last_fits = omega arith

new_word : has (codes "go") fresh ≡ false
unfolding has_kids
new_word = refl

abbrev one_word : StringTree
one_word = node b'.' minus_one (insert_kids (pos 7) (codes "go") nil) nil

one_word_inserted :
    insert (codes "go") (pos 7) cleared
    ≡ some (one_word, landing (pos 7) (codes "go") b'.' minus_one nil nil)
unfolding insert
one_word_inserted = refl

find-insert_example : find (codes "go") one_word ≡ (
    if eq_bytes (codes "go") (codes "go")
    then (if has_kids (codes "go") (child_of cleared) then find (codes "go") cleared else pos 7)
    else find (codes "go") cleared)
find-insert_example =
    find-insert (pos 7) (codes "go") (codes "go") cleared one_word _ one_word_inserted (omega arith)
      (omega arith)

get_handle-IsValid_example : IsValid (get_handle (codes "gone") with_go).0
get_handle-IsValid_example =
    get_handle-IsValid (codes "gone") with_go with_go-IsValid (omega arith) last_fits

get_string-get_handle_example :
    ((get_handle (codes "go") fresh).1 ≡ returned (pos 1))
    × (get_string (pos 1) with_go ≡ returned (some (codes "go")))
    × (find (codes "no") with_go.root
        ≡ (if eq_bytes (codes "go") (codes "no") then pos 1 else find (codes "no") fresh.root))
get_string-get_handle_example =
    get_string-get_handle (codes "go") (codes "no") fresh fresh-IsValid (omega arith) (omega arith)
      new_word (omega arith)

find_injective_example :
    (codes "go" ≡ codes "go") × (get_string (pos 1) with_go ≡ returned (some (codes "go")))
find_injective_example =
    find_injective (codes "go") (codes "go") with_go 1 with_go-IsValid (omega arith) (omega arith)
      go_found go_found
