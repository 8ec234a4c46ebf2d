-- ===== src/Dict/Handles/Interned.antt =====
-- The handles of the strings in a dictionary (LigSP/LigCommon/sdl_tcpstream.cpp).
use sq_sp.Prelude.{
  ℕ, ◌+◌, ◌≤◌, ◌<◌, ◌≡◌, refl, Bool, true, false, some, if◌then◌else◌, Bytes, pos, minus_one,
  eq_bytes, eq_bytes_iff, Lacks, arith, Bool-cases, inl, inr,
}
use sq_sp.Dict.{nil, node, child_of, term_ch, insert_kids, insert, find, find_kids}
use sq_sp.Dict.Lookup.{
  has_kids, has_kids-nil, find_kids-insert_kids, has_kids-insert_kids, insert_kids-has, IsLeafed,
  insert_kids-IsLeafed, landing-new, landing-has, find_kids-not_has,
}
use sq_sp.Dict.Handles.{Dict, fresh, returned, top_mem, put_string, get_handle, get_string}

-- Whether `_dict_find` meets a terminator for the string.
abbrev pub has : Bytes → Dict → Bool
has s d = has_kids s (child_of d.root)

-- What is known of an interned string: its handle lies below the counter and `StringDB` holds it.
pub record IsInterned (s : Bytes) (d : Dict) : Type 0 where
  pub handle : ℕ
  pub found : find s d.root ≡ pos handle
  pub bounds : (1 ≤ handle) × (handle < d.last)
  pub stored : d.strings handle ≡ some s

pub record IsValid (d : Dict) : Type 0 where
  pub rooted : d.root ≡ node term_ch minus_one (child_of d.root) nil
  pub leafed : IsLeafed (child_of d.root)
  pub counter : (1 ≤ d.last) × (d.last ≤ top_mem)
  pub interned : (s : Bytes) → Lacks term_ch s → has s d ≡ true → IsInterned s d

-- The start of the program is valid.
pub fresh-IsValid : IsValid fresh
fresh-IsValid = record {
  rooted = refl;
  leafed = tt;
  counter = (omega arith, omega arith);
  interned = λ s p h. cc (has_kids-nil s);
}

find-find_kids : (s : Bytes) (d : Dict) → IsValid d → find s d.root ≡ find_kids s (child_of d.root)
unfolding find
find-find_kids s d v = rw v.rooted

-- What `_get_handle` does on a new string, step by step.
get_handle_new :
    (s : Bytes) (d : Dict)
    → IsValid d
    → has s d ≡ false
    → d.last < top_mem
    → get_handle s d ≡ (
      record d {
        root = node term_ch minus_one (insert_kids (pos d.last) s (child_of d.root)) nil;
        last = d.last + 1;
        strings = put_string d.last s d.strings;
      },
      returned (pos d.last),
    )
unfolding get_handle insert
get_handle_new s d v e fits =
    let (r, landed) = landing-new (pos d.last) s term_ch minus_one (child_of d.root) nil e in
    rw (v.rooted, landed) (ground arith)

-- `_get_handle` on a string that has a handle already changes nothing and returns -1, not the handle.
pub get_handle_again :
    (s : Bytes) (d : Dict) → IsValid d → has s d ≡ true → get_handle s d ≡ (d, returned minus_one)
unfolding get_handle insert
get_handle_again s d v e =
    let landed = landing-has (pos d.last) s term_ch minus_one (child_of d.root) nil e v.leafed in
    let same = insert_kids-has (pos d.last) s (child_of d.root) e in
    rw (v.rooted, landed, same) (ground (arith, v.rooted))

-- The dictionary after a new string.
abbrev added : Bytes → Dict → Dict
added s d = record {
  root = node term_ch minus_one (insert_kids (pos d.last) s (child_of d.root)) nil;
  last = d.last + 1;
  strings = put_string d.last s d.strings;
}

added-IsInterned :
    (s s' : Bytes) (d : Dict)
    → IsValid d
    → Lacks term_ch s
    → Lacks term_ch s'
    → has s d ≡ false
    → has s' (added s d) ≡ true
    → IsInterned s' (added s d)
unfolding find
added-IsInterned s s' d v p p' e e' = elim (Bool-cases (eq_bytes s s')) [
  | inl same ↦ record {
    handle = d.last;
    found = ground (arith, find_kids-insert_kids (pos d.last) s s' (child_of d.root) p p');
    bounds = (v.counter.0, omega arith);
    stored = ground (arith, eq_bytes_iff s s');
  }
  | inr other ↦
      let old =
        v.interned s' p'
          (ground (arith, has_kids-insert_kids (pos d.last) s s' (child_of d.root) p p')) in
      record {
        handle = old.handle;
        found = ground (
          arith,
          find_kids-insert_kids (pos d.last) s s' (child_of d.root) p p',
          find-find_kids s' d v,
          old.found,
        );
        bounds = (old.bounds.0, omega (arith, old.bounds.1));
        stored = ground (arith, old.bounds.1, old.stored);
      }
]

added-IsValid :
    (s : Bytes) (d : Dict)
    → IsValid d
    → Lacks term_ch s
    → has s d ≡ false
    → d.last < top_mem
    → IsValid (added s d)
added-IsValid s d v p e fits = record {
  rooted = refl;
  leafed = insert_kids-IsLeafed (pos d.last) s (child_of d.root) p v.leafed;
  counter = (omega arith, omega arith);
  interned = λ s' p' e'. added-IsInterned s s' d v p p' e e';
}

-- `_get_handle` on a string with no '.' keeps the dictionary valid as long as `StringDB` has room:
-- every string in the trie has a handle between 1 and the counter, under which `StringDB` holds it.
pub get_handle-IsValid :
    (s : Bytes) (d : Dict)
    → IsValid d
    → Lacks term_ch s
    → d.last < top_mem
    → IsValid (get_handle s d).0
get_handle-IsValid s d v p fits = elim (Bool-cases (has s d)) [
  | inl known ↦ rw (get_handle_again s d v known) v
  | inr new ↦ rw (get_handle_new s d v new fits) (added-IsValid s d v p new fits)
]

-- Interning a new string gives it the counter's value for a handle, by which `_get_string` reads it
-- back and under which `_dict_find` finds it; every other string without a '.' is found as before.
pub get_string-get_handle :
    (s s' : Bytes) (d : Dict)
    → IsValid d
    → Lacks term_ch s
    → Lacks term_ch s'
    → has s d ≡ false
    → d.last < top_mem
    → ((get_handle s d).1 ≡ returned (pos d.last))
      × (get_string (pos d.last) (get_handle s d).0 ≡ returned (some s))
      × (find s' (get_handle s d).0.root ≡ (if eq_bytes s s' then pos d.last else find s' d.root))
unfolding get_string find
get_string-get_handle s s' d v p p' e fits = rw (get_handle_new s d v e fits) (
  refl,
  ground arith,
  ground (
    arith,
    find_kids-insert_kids (pos d.last) s s' (child_of d.root) p p',
    find-find_kids s' d v,
  ),
)

find-IsInterned :
    (s : Bytes) (d : Dict) (i : ℕ)
    → IsValid d
    → Lacks term_ch s
    → find s d.root ≡ pos i
    → IsInterned s d
find-IsInterned s d i v p f = elim (Bool-cases (has s d)) [
  | inl known ↦ v.interned s p known
  | inr new ↦
      absurd (ground (arith, find-find_kids s d v, find_kids-not_has s (child_of d.root) new))
]

-- In a valid dictionary two strings that are found under one handle are the same string, and
-- `_get_string` returns it.
pub find_injective :
    (s s' : Bytes) (d : Dict) (i : ℕ)
    → IsValid d
    → Lacks term_ch s
    → Lacks term_ch s'
    → find s d.root ≡ pos i
    → find s' d.root ≡ pos i
    → (s ≡ s') × (get_string (pos i) d ≡ returned (some s))
unfolding get_string
find_injective s s' d i v p p' f f' =
    let k = find-IsInterned s d i v p f in
    let k' = find-IsInterned s' d i v p' f' in
    let e : k.handle ≡ i = ground (arith, k.found) in
    let e' : k'.handle ≡ i = ground (arith, k'.found) in
    (
      ground (arith, k.stored, k'.stored, e, e'),
      ground (arith, k.stored, e, k.bounds.1, v.counter.1),
    )
