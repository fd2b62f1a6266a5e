-- ===== src/Snmp/Protocol/Layout.antt =====
-- The bytes of a message of SNMP, field by field, with the tags that RFC 1157 gives them.
use net_mapper.Prelude.{ℕ, ◌≡◌, List, [], ◌∷◌, ◌++◌, map, Bytes, ok}
use net_mapper.Binary.Value.{Envelope, Value}
use net_mapper.Go.Oid.{Oid, unpack_oid}
use net_mapper.Reflect.{ValueOf}
use net_mapper.Reflect.Encoding.{IsFrame, IsIntContent}
use net_mapper.Snmp.Protocol.{message}

pub record Answer : Type 0 where
  pub version : ℕ
  pub community : Bytes
  pub envelope : Envelope
  pub request_id : ℕ
  pub error_status : ℕ
  pub error_index : ℕ
  pub variables : List (Oid × Value)

abbrev pub bound : List (Oid × Value) → List (Oid × (Value × Unit {0}))
bound = map (λ variable. (variable.0, (variable.1, tt)))

-- The Message with what the answer has.
abbrev pub message_with : Answer → ValueOf message
message_with a = (
  a.version,
  (
    a.community,
    ((a.envelope, (a.request_id, (a.error_status, (a.error_index, (bound a.variables, tt))))), tt),
  ),
)

abbrev pub framed : ℕ → Bytes → Value
framed tag content = record { envelope = record { class = 0; tag = tag }; bytes = content }

-- An int in the frame of an INTEGER.
pub record IntFrame (v : ℕ) : Type 0 where
  pub int_bytes : Bytes
  pub chunk : Bytes
  pub is_frame : IsFrame (framed 2 int_bytes) chunk
  pub means : IsIntContent 64 v int_bytes

-- The frame of an OBJECT IDENTIFIER, and that of a value.
pub record IsVariable (oid : Oid) (value : Value) (content : Bytes) : Type 0 where
  pub arcs : Bytes
  pub oid_chunk : Bytes
  pub oid_frame : IsFrame (framed 6 arcs) oid_chunk
  pub oid_read : unpack_oid (record { class = 0; tag = 6 }) arcs ≡ ok oid
  pub value_chunk : Bytes
  pub value_frame : IsFrame value value_chunk
  pub layout : content ≡ oid_chunk ++ value_chunk

-- Each variable in a frame, one after the other.
abbrev pub AreVariables : List (Oid × Value) → Bytes → Type 0
AreVariables [] bytes = bytes ≡ []
AreVariables ((oid, value) ∷ variables) bytes =
    (raw : Value) × (chunk : Bytes) × (rest : Bytes) × (bytes ≡ chunk ++ rest)
    × IsFrame raw chunk
    × IsVariable oid value raw.bytes
    × AreVariables variables rest

-- Three ints, and the variables in a frame of the envelope `list`.
pub record IsPdu (a : Answer) (list : Envelope) (content : Bytes) : Type 0 where
  pub request : IntFrame a.request_id
  pub status : IntFrame a.error_status
  pub index : IntFrame a.error_index
  pub list_bytes : Bytes
  pub list_chunk : Bytes
  pub list_frame : IsFrame (record { envelope = list; bytes = list_bytes }) list_chunk
  pub listed : AreVariables a.variables list_bytes
  pub layout : content ≡ request.chunk ++ (status.chunk ++ (index.chunk ++ list_chunk))

-- The version, the community in a frame of the envelope `string`, and the PDU in its own.
pub record IsMessage (a : Answer) (string list : Envelope) (content : Bytes) : Type 0 where
  pub version : IntFrame a.version
  pub community_chunk : Bytes
  pub community_frame : IsFrame (record { envelope = string; bytes = a.community }) community_chunk
  pub pdu_bytes : Bytes
  pub pdu_chunk : Bytes
  pub pdu_frame : IsFrame (record { envelope = a.envelope; bytes = pdu_bytes }) pdu_chunk
  pub has_pdu : IsPdu a list pdu_bytes
  pub layout : content ≡ version.chunk ++ (community_chunk ++ pdu_chunk)
