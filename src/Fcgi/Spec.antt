-- ===== src/Fcgi/Spec.antt =====
-- What the connection promises: each request receives the bytes that the records of its id carry, in
-- order, however the records of several requests are mixed.
use sq_sp.Prelude.{
  ℕ, ◌/◌, ◌%◌, ◌<◌, Bool, true, false, List, [], ◌∷◌, ◌++◌, Option, none, some, ◌==◌, length,
  if◌then◌else◌, Bytes,
}
use sq_sp.PageBuf.Size.{contents}
use sq_sp.Params.{Request}
use sq_sp.Fcgi.{FcgiServer, table_size}
use sq_sp.Fcgi.Records.{FcgiRecord, record_text}

-- A new request with a role and flags, or data for one, of its variables or of its form.
pub data Message : Type 0 where
  begin_message : ℕ → ℕ → ℕ → Message
  data_message : Bool → ℕ → Bytes → Message

-- The record of a message, with the padding and the reserved byte that the web server chose.
abbrev pub record_of : Message → Bytes → ℕ → FcgiRecord
record_of (begin_message id role flags) padding reserved = record {
  type_of = 1;
  request_id = id;
  content = (role / 256) ∷ (role % 256) ∷ flags ∷ 0 ∷ 0 ∷ 0 ∷ 0 ∷ 0 ∷ [];
  padding = padding;
  reserved = reserved;
}
record_of (data_message of_params id bytes) padding reserved = record {
  type_of = if of_params then 4 else 5;
  request_id = id;
  content = bytes;
  padding = padding;
  reserved = reserved;
}

pub record Packet : Type 0 where
  pub message : Message
  pub padding : Bytes
  pub reserved : ℕ

abbrev pub packet_record : Packet → FcgiRecord
packet_record p = record_of p.message p.padding p.reserved

abbrev pub stream_text : List Packet → Bytes
stream_text [] = []
stream_text (p ∷ ps) = record_text (packet_record p) ++ stream_text ps

-- data is not empty and fits into a record; the id fits into the table
abbrev pub IsMessage : Message → Type 0
IsMessage (begin_message id role flags) = (id < table_size) × (role < 65536)
IsMessage (data_message of_params id bytes) =
    (id < table_size) × (0 < length bytes) × (length bytes < 65536)

abbrev pub IsPacket : Packet → Type 0
IsPacket p = IsMessage p.message

-- What the requests have received, `none` where there is no request.
abbrev pub View : Type 0
View = ℕ → Option Bytes

-- One message: data for a request that there is not, a request that there is already, and a role other
-- than 1 are refused.
unfoldable pub deliver : Message → View → Option View
deliver (begin_message id role flags) v = elim (v id) [
  | some bytes ↦ none
  | none ↦ if role == 1 then some (λ i. if i == id then some [] else v i) else none
]
deliver (data_message of_params id bytes) v = elim (v id) [
  | none ↦ none
  | some old ↦ some (λ i. if i == id then some (old ++ bytes) else v i)
]

-- All messages up to the first that is refused.
abbrev pub deliver_all : List Packet → View → Bool × View
deliver_all [] v = (true, v)
deliver_all (p ∷ ps) v = elim (deliver p.message v) [
  | none ↦ (false, v)
  | some w ↦ deliver_all ps w
]

-- what a request has received, and all requests
abbrev pub received : Option Request → Option Bytes
received none = none
received (some r) = some (contents r.in_buf)

abbrev pub view_of : FcgiServer → View
view_of s i = received (s.request_table i)
