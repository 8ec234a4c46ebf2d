-- ===== src/Actions/Silent.antt =====
-- What `action_HEAD` leaves.
use mathlib.Core.Option.{none-ne-some, some-injective}
use sq_sp.Prelude.{
  ℕ, ◌≡◌, ◌⊎◌, inl, inr, refl, Bool, true, Option, none, some, Bytes, Bool-cases, Option-cases, ap,
  sym, ◌∙◌,
}
use sq_sp.Download.{HttpConn, read_finished, send_http_msg}
use sq_sp.Actions.{
  System, int_of, printf, full_path, file_header, not_modified, open_file, create_getfile_header,
  action_head_file, finish_reading, close_null,
}

-- whatever the result, if there is one
abbrev Holds {ℓ} : {A : Type ℓ} → (A → Type 0) → Option A → Type 0
Holds P none = Unit
Holds P (some a) = P a

-- A connection in whose buffer a message is ready has no file; else its state has not changed.
abbrev IsOpened : HttpConn → Bool × HttpConn → Type 0
IsOpened c r =
    (r.1.file ≡ none)
    ⊎ ((content : Bytes) × (r.1.file ≡ some content)) × (r.1.link_stat ≡ c.link_stat)

open_file-IsOpened :
    (s : System) (uri path : Bytes) (state : ℕ × ℕ) (c : HttpConn)
    → c.file ≡ none
    → Holds (IsOpened c) (open_file s uri path state c)
unfolding open_file send_http_msg
open_file-IsOpened s uri path state c no_file = elim (Option-cases (s.fopen path)) [
  | inl e ↦ rw (open_file, e) (inl no_file)
  | inr (content, e) ↦
      let text = file_header s path state in
      elim (Option-cases (printf s.windows s.junk text 11 c.out_buf)) [
        | inl short ↦ rw (open_file, e, short) tt
        | inr (p, printed) ↦ rw (open_file, e, printed) (inr ((content, refl), refl))
      ]
]

create_getfile_header-IsOpened :
    (s : System) (uri : Bytes) (since : Option Bytes) (c : HttpConn)
    → Holds (IsOpened c) (create_getfile_header s uri since c)
unfolding create_getfile_header send_http_msg
create_getfile_header-IsOpened s uri since c = elim (Option-cases (full_path s uri)) [
  | inl e ↦ rw (create_getfile_header, e) tt
  | inr (path, fits) ↦ elim (Option-cases (s.stat path)) [
    | inl e ↦ rw (create_getfile_header, fits, e) (inl refl)
    | inr ((mtime, size), e) ↦
        let sized = record c { file = none; file_length = int_of size } in
        elim (Bool-cases (not_modified s since mtime)) [
          | inl old ↦ rw (create_getfile_header, fits, e, old) (inl refl)
          | inr new ↦
              rw (create_getfile_header, fits, e, new)
                (open_file-IsOpened s uri path (mtime, size) sized refl)
        ]
  ]
]

close_null-IsOpened :
    (c : HttpConn) (h r : Bool × HttpConn)
    → IsOpened c h
    → close_null h.1 ≡ some r
    → (r.1.link_stat ≡ c.link_stat) × ((content : Bytes) × (r.1.file ≡ some content))
unfolding close_null
close_null-IsOpened c h r (inl no_file) is =
    absurd (none-ne-some r (rw (close_null, no_file) at is))
close_null-IsOpened c h r (inr ((content, file), same)) is =
    let left : (true, h.1) ≡ r = some-injective (true, h.1) r (rw (close_null, file) at is) in
    let conn = ap (λ x. x.1) left in
    (ap (λ x. x.link_stat) (sym conn) ∙ same, (content, ap (λ x. x.file) (sym conn) ∙ file))

-- `action_HEAD` answers no request: where it comes back at all, without a `fclose` of NULL, the
-- connection is not made ready to write, and the file has stayed open.
pub action_head-Silent :
    (s : System) (uri : Bytes) (since : Option Bytes) (c : HttpConn) (r : Bool × HttpConn)
    → action_head_file s uri since c ≡ some r
    → (r.1.link_stat ≡ read_finished) × ((content : Bytes) × (r.1.file ≡ some content))
unfolding action_head_file
action_head-Silent s uri since c r is =
    let opened = create_getfile_header-IsOpened s uri since (finish_reading c) in
    elim (Option-cases (create_getfile_header s uri since (finish_reading c))) [
      | inl e ↦ absurd (none-ne-some r (rw (action_head_file, e) at is))
      | inr (h, e) ↦
          close_null-IsOpened (finish_reading c) h r (rw e at opened)
            (rw (action_head_file, e) at is)
    ]
