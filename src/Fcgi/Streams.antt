-- ===== src/Fcgi/Streams.antt =====
-- Each round of the loop on a whole record does what the specification says.
use sq_sp.Prelude.{
  ℕ, ◌+◌, ◌*◌, ◌/◌, ◌%◌, ◌<◌, ◌≤◌, ◌≡◌, refl, Bool, true, false, [], Option, none, some, ◌==◌, ltb,
  length, length-append, if◌then◌else◌, arith, Bool-cases, Bytes, inl, inr, ap, sym, ◌∙◌,
}
use sq_sp.PageBuf.Size.{contents}
use sq_sp.Download.{conn_finished}
use sq_sp.HttpHeader.Memory.{Holds}
use sq_sp.Params.{Request}
use sq_sp.Fcgi.{
  FcgiServer, Step, next, stop, lost, Surroundings, table_size, begin_request, init_request, params,
  stdin, dispatch, fcgi_round,
}
use sq_sp.Fcgi.Room.{capacity, HasRoom, direct_write-Written}
use sq_sp.Fcgi.Records.{record_text, record-Header, shift, fcgi_round-record_text}
use sq_sp.Fcgi.Spec.{
  Message, begin_message, data_message, record_of, IsMessage, View, deliver, received, view_of,
}

-- Every request has room for `n` bytes.
abbrev pub HasRoomAt : ℕ → Option Request → Type 0
HasRoomAt n none = Unit
HasRoomAt n (some r) = HasRoom n r.in_buf

abbrev pub IsReady : ℕ → FcgiServer → Type 0
IsReady n s = (i : ℕ) → HasRoomAt n (s.request_table i)

-- A round that does what the specification says, where `l` is the length of the record.
abbrev pub Implements : View → ℕ → ℕ → FcgiServer → Option View → Step → Type 0
Implements v n l s none (next t) = ⊥
Implements v n l s none (stop ok t) =
    (ok ≡ false) × (t.link_stat ≡ conn_finished) × ((i : ℕ) → view_of t i ≡ v i)
Implements v n l s none lost = ⊥
Implements v n l s (some w) (next t) =
    ((i : ℕ) → view_of t i ≡ w i)
    × IsReady n t
    × (t.in_buf ≡ record s.in_buf { buf_start = s.in_buf.buf_start + l })
Implements v n l s (some w) (stop ok t) = ⊥
Implements v n l s (some w) lost = ⊥

HasRoomAt-less : (m n : ℕ) (entry : Option Request) → n ≤ m → HasRoomAt m entry → HasRoomAt n entry
HasRoomAt-less m n none order h = tt
HasRoomAt-less m n (some r) order (sized, fits, room) = (sized, fits, omega arith)

-- An entry of the table is replaced.
set-view :
    (id : ℕ) (r : Request) (bytes : Bytes) (table : ℕ → Option Request) (v : View)
    → contents r.in_buf ≡ bytes
    → ((i : ℕ) → received (table i) ≡ v i)
    → (i : ℕ)
    → received (if i == id then some r else table i) ≡ (if i == id then some bytes else v i)
set-view id r bytes table v is same i = elim (Bool-cases (i == id)) [
  | inl e ↦ rw (e, is) refl
  | inr e ↦ rw e (same i)
]

set-ready :
    (m n id : ℕ) (r : Request) (table : ℕ → Option Request)
    → n ≤ m
    → HasRoom n r.in_buf
    → ((i : ℕ) → HasRoomAt m (table i))
    → (i : ℕ) → HasRoomAt n (if i == id then some r else table i)
set-ready m n id r table order room ready i = elim (Bool-cases (i == id)) [
  | inl e ↦ rw e room
  | inr e ↦ rw e (HasRoomAt-less m n (table i) order (ready i))
]

entry_room_of :
    (m id : ℕ) (table : ℕ → Option Request) (entry : Option Request)
    → table id ≡ entry
    → ((i : ℕ) → HasRoomAt m (table i))
    → HasRoomAt m entry
entry_room_of m id table entry is ready = rw is at (ready id)

module _ (v : View) (m n l : ℕ) (s : FcgiServer) where
  begin-Implements :
      (pool : ℕ → Request) (id role flags : ℕ) (entry : Option Request)
      → s.request_table id ≡ entry
      → id < table_size
      → n ≤ m
      → n ≤ capacity
      → ((i : ℕ) → view_of s i ≡ v i)
      → IsReady m s
      → Implements v n l s
          (deliver (begin_message id role flags) v)
          (begin_request pool id role flags l s)
  unfolding deliver begin_request init_request
  begin-Implements pool id role flags none is inside order small same ready =
      let in_table : ltb id table_size ≡ true = ground arith in
      let seen : v id ≡ none = sym (same id) ∙ ap received is in
      elim (Bool-cases (role == 1)) [
        | inl e ↦
            rw (in_table, is, seen, e, deliver)
              (
                set-view id _ [] s.request_table v refl same,
                set-ready m n id _ s.request_table order
                    ((omega arith, omega arith), omega arith, omega arith) ready,
                refl,
              )
        | inr e ↦ rw (in_table, is, seen, e, deliver) (refl, refl, same)
      ]
  begin-Implements pool id role flags (some r) is inside order small same ready =
      let in_table : ltb id table_size ≡ true = ground arith in
      let seen : v id ≡ some (contents r.in_buf) = sym (same id) ∙ ap received is in
      rw (in_table, is, seen, deliver) (refl, refl, same)

  params-Implements :
      (junk : ℕ → ℕ) (rounds id : ℕ) (bytes : Bytes) (entry : Option Request)
      → s.request_table id ≡ entry
      → IsMessage (data_message true id bytes)
      → length bytes + n ≤ m
      → ((i : ℕ) → view_of s i ≡ v i)
      → IsReady m s
      → Implements v n l s
          (deliver (data_message true id bytes) v)
          (params junk rounds id bytes l s)
  unfolding deliver params
  params-Implements junk rounds id bytes none is (inside, some_bytes, small) room same ready =
      let in_table : ltb id table_size ≡ true = ground arith in
      let seen : v id ≡ none = sym (same id) ∙ ap received is in
      rw (in_table, is, seen, deliver) (refl, refl, same)
  params-Implements junk rounds id bytes (some r) is (inside, some_bytes, small) room same ready =
      let in_table : ltb id table_size ≡ true = ground arith in
      let seen : v id ≡ some (contents r.in_buf) = sym (same id) ∙ ap received is in
      let more : (length bytes == 0) ≡ false = ground arith in
      let before : HasRoomAt m (some r) = entry_room_of m id s.request_table (some r) is ready in
      let (same_bytes, good, at) =
        direct_write-Written junk bytes n r.in_buf
          (HasRoomAt-less m (length bytes + n) (some r) room before) (omega arith) in
      rw (in_table, is, seen, more, deliver)
        (
          set-view id _ _ s.request_table v same_bytes same,
          set-ready m n id _ s.request_table (omega arith) good ready,
          refl,
        )

  stdin-Implements :
      (junk : ℕ → ℕ) (message : Request → Bytes) (rounds id : ℕ) (bytes : Bytes)
      (entry : Option Request)
      → s.request_table id ≡ entry
      → IsMessage (data_message false id bytes)
      → length bytes + n ≤ m
      → ((i : ℕ) → view_of s i ≡ v i)
      → IsReady m s
      → Implements v n l s
          (deliver (data_message false id bytes) v)
          (stdin junk message rounds id bytes l s)
  unfolding deliver stdin
  stdin-Implements junk message rounds id bytes none is (inside, some_bytes, small) room same
        ready =
      let in_table : ltb id table_size ≡ true = ground arith in
      let seen : v id ≡ none = sym (same id) ∙ ap received is in
      rw (in_table, is, seen, deliver) (refl, refl, same)
  stdin-Implements junk message rounds id bytes (some r) is (inside, some_bytes, small) room same
        ready =
      let in_table : ltb id table_size ≡ true = ground arith in
      let seen : v id ≡ some (contents r.in_buf) = sym (same id) ∙ ap received is in
      let more : (length bytes == 0) ≡ false = ground arith in
      let before : HasRoomAt m (some r) = entry_room_of m id s.request_table (some r) is ready in
      let (same_bytes, good, at) =
        direct_write-Written junk bytes n r.in_buf
          (HasRoomAt-less m (length bytes + n) (some r) room before) (omega arith) in
      rw (in_table, is, seen, more, deliver)
        (
          set-view id _ _ s.request_table v same_bytes same,
          set-ready m n id _ s.request_table (omega arith) good ready,
          refl,
        )

  -- The round on a record of each kind of message.
  abbrev pub RoundImplements : Surroundings → Message → Bytes → ℕ → Type 0
  RoundImplements e message padding reserved =
      IsMessage message
      → length (record_text (record_of message padding reserved)) + n ≤ m
      → n ≤ capacity
      → Holds s.in_buf.p_buf s.in_buf.buf_start (record_text (record_of message padding reserved))
      → l ≡ length (record_text (record_of message padding reserved))
      → s.in_buf.buf_start + l ≤ s.in_buf.buf_curr
      → ((i : ℕ) → view_of s i ≡ v i)
      → IsReady m s
      → Implements v n l s (deliver message v) (fcgi_round e s)

  begin-RoundImplements :
      (e : Surroundings) (id role flags : ℕ) (padding : Bytes) (reserved : ℕ)
      → RoundImplements e (begin_message id role flags) padding reserved
  unfolding dispatch
  begin-RoundImplements e id role flags padding reserved (inside, role_small) room small held size
        whole same ready =
      let r = record_of (begin_message id role flags) padding reserved in
      let f = s.in_buf.p_buf in
      let i = s.in_buf.buf_start in
      let (is, content) =
        fcgi_round-record_text e r s (omega arith) (omega arith) held (omega arith) in
      let (h0, h1, h2, h3, h4, h5, h6, (high, (low, (flag, body)))) = record-Header r f i held in
      let low_byte : f (i + 9) ≡ role % 256 = shift f _ (i + 9) _ (omega arith) low in
      let flag_byte : f (i + 10) ≡ flags = shift f _ (i + 10) _ (omega arith) flag in
      let role_is : role / 256 * 256 + role % 256 ≡ role = omega arith in
      rw (is, sym size, high, low_byte, flag_byte, role_is)
        (begin-Implements e.pool id role flags (s.request_table id) refl inside (omega arith) small
          same ready)

  data-RoundImplements :
      (e : Surroundings) (of_params : Bool) (id : ℕ) (bytes padding : Bytes) (reserved : ℕ)
      → RoundImplements e (data_message of_params id bytes) padding reserved
  unfolding dispatch
  data-RoundImplements e true id bytes padding reserved (inside, some_bytes, fits) room small held
        size whole same ready =
      let r = record_of (data_message true id bytes) padding reserved in
      let (is, content) = fcgi_round-record_text e r s (omega arith) fits held (omega arith) in
      let parts = length-append bytes padding in
      rw (is, sym size, content)
        (params-Implements e.junk e.rounds id bytes (s.request_table id) refl
          (inside, some_bytes, fits) (omega arith) same ready)
  data-RoundImplements e false id bytes padding reserved (inside, some_bytes, fits) room small held
        size whole same ready =
      let r = record_of (data_message false id bytes) padding reserved in
      let (is, content) = fcgi_round-record_text e r s (omega arith) fits held (omega arith) in
      let parts = length-append bytes padding in
      rw (is, sym size, content)
        (stdin-Implements e.junk e.message e.rounds id bytes (s.request_table id) refl
          (inside, some_bytes, fits) (omega arith) same ready)

  pub message-RoundImplements :
      (e : Surroundings) (message : Message) (padding : Bytes) (reserved : ℕ)
      → RoundImplements e message padding reserved
  message-RoundImplements e (begin_message id role flags) padding reserved =
      begin-RoundImplements e id role flags padding reserved
  message-RoundImplements e (data_message of_params id bytes) padding reserved =
      data-RoundImplements e of_params id bytes padding reserved
