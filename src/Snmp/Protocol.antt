-- ===== src/Snmp/Protocol.antt =====
-- pkg/snmp/protocol.go, and the types of interface.go: the messages of SNMP as frames.
-- A Message is packed and unpacked by the shape of its type, as the registry arranges for a type without
-- methods of its own.
pub mod Layout
pub mod Decode
pub mod Laws
mod Tests
use net_mapper.Prelude.{
  ℕ, ◌^◌, ◌-◌, List, [], ◌∷◌, Option, none, some, Bytes, codes, ◌==◌, if◌then◌else◌, Outcome, ok,
  err, panicked, ◌>>=◌,
}
use net_mapper.Binary.Error.{Error}
use net_mapper.Binary.Value.{Envelope, Value, unmarshal}
use net_mapper.Binary.Interface.{Transformer}
use net_mapper.Binary.Codec.{value}
use net_mapper.Go.Oid.{Oid, pack_oid, unpack_oid}
use net_mapper.Go.Decimal.{parse_int, split_on}
use net_mapper.Reflect.{
  Shape, Fields, ValueOf, no_envelope, marshal_packed, pack, unpack, unpack_target, zero_of,
}

abbrev pub oid : Transformer Oid
oid = record { pack_asn1 = λ v _. pack_oid v; unpack_asn1 = λ _ e bytes. unpack_oid e bytes }

abbrev no_value : Value
no_value = record { envelope = no_envelope; bytes = [] }

-- What reflection would do with an OID, which is a slice, and with a Value, which is a struct. It is not
-- asked, since both have methods of their own.
abbrev slice_of_ints : Shape
slice_of_ints = Shape.slice (Shape.int 64)

unfoldable pub by_slice : Transformer Oid
by_slice = record {
  pack_asn1 = λ v params. pack 0 slice_of_ints v params;
  unpack_asn1 = λ v e bytes. unpack 0 slice_of_ints v e bytes;
}

abbrev envelope_and_bytes : Shape
envelope_and_bytes = Shape.envelope_struct [] (Fields.field [] Shape.byte_slice Fields.end)

unfoldable pub by_struct : Transformer Value
by_struct = record {
  pack_asn1 = λ v params. pack 0 envelope_and_bytes (v.envelope, (v.bytes, tt)) params;
  unpack_asn1 = λ v e bytes.
      unpack 0 envelope_and_bytes (v.envelope, (v.bytes, tt)) e bytes >>= λ (e', (bytes', _)).
      ok (record { envelope = e'; bytes = bytes' });
}

-- The struct types; an int has 64 bits.
abbrev pub var_bind : Shape
var_bind = Shape.struct (
    Fields.field [] (Shape.own Oid [] oid by_slice)
      (Fields.field [] (Shape.own Value no_value value by_struct) Fields.end))

abbrev pub pdu : Shape
pdu = Shape.envelope_struct [] (
    Fields.field [] (Shape.int 64) (
      Fields.field [] (Shape.int 64) (
        Fields.field [] (Shape.int 64)
          (Fields.field (codes "Sequence,Constructed") (Shape.slice var_bind) Fields.end))))

abbrev pub message : Shape
message = Shape.struct (
    Fields.field [] (Shape.int 64)
      (Fields.field (codes "OctetString") Shape.text (Fields.field [] pdu Fields.end)))

-- A time is in nanoseconds.
pub record Protocol : Type 0 where
  pub community : Bytes
  pub version : ℕ
  pub buffer_size : ℕ
  pub receive_timeout : ℕ

abbrev pub ProtocolOption : Type 0 → Type 0
ProtocolOption E = Protocol → Outcome E Protocol

pub data ProtocolError (E : Type 0) : Type 0 where
  option_failed : E → ProtocolError E
  version_required invalid_port invalid_address : ProtocolError E

-- The version is -1 at first.
abbrev pub new_defaults : Protocol
new_defaults = record {
  community = [];
  version = 2 ^ 64 - 1;
  buffer_size = 4096;
  receive_timeout = 2000000000;
}

module _ {E : Type 0} where
  abbrev pub with_v2 : Bytes → ProtocolOption E
  with_v2 community p = ok (record p { community = community; version = 1 })

  abbrev pub with_buffer_size : ℕ → ProtocolOption E
  with_buffer_size size p = ok (record p { buffer_size = size })

  abbrev pub with_receive_timeout : ℕ → ProtocolOption E
  with_receive_timeout timeout p = ok (record p { receive_timeout = timeout })

  unfoldable pub apply_options :
      List (ProtocolOption E) → Protocol → Outcome (ProtocolError E) Protocol
  apply_options [] p = ok p
  apply_options (option ∷ options) p = elim (option p) [
    | ok p' ↦ apply_options options p'
    | err e ↦ err (option_failed e)
    | panicked ↦ panicked
  ]

  unfoldable pub new_protocol : List (ProtocolOption E) → Outcome (ProtocolError E) Protocol
  new_protocol options = apply_options options new_defaults >>= λ p.
      if p.version == 2 ^ 64 - 1 then err version_required else ok p

  -- The host and the port that `Dial` resolves.
  unfoldable pub dial_target : Bytes → Outcome (ProtocolError E) (Bytes × ℕ)
  dial_target address = elim (split_on b':' [] address) [
    | (host ∷ port ∷ []) ↦ elim (parse_int 64 port) [
      | none ↦ err invalid_port
      | some n ↦ ok (host, n)
    ]
    | (host ∷ []) ↦ ok (address, 161)
    | _ ↦ err invalid_address
  ]

-- What a pointer points to.
unfoldable pub pointed : {A : Type 0} → Option A → Outcome Error A
pointed none = panicked
pointed (some v) = ok v

unfoldable pub decode_frame : Bytes → Outcome Error (ValueOf message)
unfolding pointed
decode_frame bytes = unmarshal bytes >>= λ (raw, _).
    unpack_target (Shape.pointer message) (some (zero_of message)) raw.envelope raw.bytes
    >>= pointed

-- `msg.PDU.Tag = pType; msg.PDU.Class = asn1binary.ClassContextSpecific`
abbrev pub message_of : Protocol → ℕ → ValueOf pdu → ValueOf message
message_of p type (_, fields) =
    (p.version, (p.community, ((record { class = 2; tag = type }, fields), tt)))

unfoldable pub encode_pdu : Protocol → ℕ → ValueOf pdu → Outcome Error Bytes
encode_pdu p type v = marshal_packed (pack 0 message (message_of p type v) none)
