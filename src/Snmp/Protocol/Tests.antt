-- ===== src/Snmp/Protocol/Tests.antt =====
-- A response of one variable: its encoding, and what the protocol makes of it.
use net_mapper.Prelude.{ℕ, ◌<◌, ◌≡◌, refl, arith, [], ◌∷◌, Bytes, codes, length, ok, err}
use net_mapper.Binary.Error
use net_mapper.Binary.Value.{Envelope, Value, encode_head, unmarshal}
use net_mapper.Binary.Value.RoundTrip.{marshal_short}
use net_mapper.Go.Decimal.{parse_int, split_on, digits_value, signed_digits}
use net_mapper.Go.Oid.{Oid, unpack_oid, unpack_elements}
use net_mapper.Reflect.{Shape, zero_of, unpack, unpack_slice}
use net_mapper.Reflect.Encoding.{IsFrame}
use net_mapper.Snmp.Protocol.{
  Protocol, new_defaults, encode_pdu, pdu, decode_frame, dial_target, ProtocolError, new_protocol,
  apply_options, oid, by_slice,
}
use net_mapper.Snmp.Protocol.Layout.{Answer, IntFrame, IsVariable, IsPdu, IsMessage, message_with}
use net_mapper.Snmp.Protocol.Decode.{decode_frame-IsMessage}
use net_mapper.Snmp.Protocol.Laws.{encode_pdu-cannot_pack}

short-IsFrame :
    (class tag : ℕ) (bytes : Bytes)
    → class < 4
    → tag < 64
    → length bytes < 128
    → IsFrame
        (record { envelope = record { class = class; tag = tag }; bytes = bytes })
        (encode_head (record { class = class; tag = tag }) ∷ length bytes ∷ bytes)
short-IsFrame class tag bytes c t short = record {
  written = marshal_short _ short;
  fits = record { class_fits = c; tag_fits = t };
  not_too_long = omega arith;
  not_256 = omega arith;
}

abbrev null_value : Value
null_value = record { envelope = record { class = 0; tag = 5 }; bytes = [] }

abbrev answer : Answer
answer = record {
  version = 1;
  community = codes "a";
  envelope = record { class = 2; tag = 0x22 };
  request_id = 1;
  error_status = 0;
  error_index = 0;
  variables = (1 ∷ 3 ∷ [], null_value) ∷ [];
}

small_int : (b : ℕ) → b < 128 → IntFrame b
unfolding encode_head
small_int b h = record {
  int_bytes = b ∷ [];
  chunk = 0x02 ∷ 0x01 ∷ b ∷ [];
  is_frame = short-IsFrame 0 2 (b ∷ []) (omega arith) (omega arith) (omega arith);
  means = record {
    at_most_64 = omega arith;
    whole_bytes = omega arith;
    some_left = omega arith;
    not_longer = omega arith;
    are_bytes = (omega arith, tt);
    value = ground arith;
  };
}

abbrev variable_bytes : Bytes
variable_bytes = 0x06 ∷ 0x01 ∷ 0x2B ∷ 0x05 ∷ 0x00 ∷ []

null_value-IsVariable : IsVariable (1 ∷ 3 ∷ []) null_value variable_bytes
unfolding unpack_oid unpack_elements encode_head
null_value-IsVariable = record {
  arcs = 0x2B ∷ [];
  oid_chunk = 0x06 ∷ 0x01 ∷ 0x2B ∷ [];
  oid_frame = short-IsFrame 0 6 (0x2B ∷ []) (omega arith) (omega arith) (omega arith);
  oid_read = refl;
  value_chunk = 0x05 ∷ 0x00 ∷ [];
  value_frame = short-IsFrame 0 5 [] (omega arith) (omega arith) (omega arith);
  layout = refl;
}

abbrev list_bytes : Bytes
list_bytes = 0x30 ∷ 0x05 ∷ variable_bytes

abbrev pdu_bytes : Bytes
pdu_bytes = 0x02 ∷ 0x01 ∷ 0x01 ∷ 0x02 ∷ 0x01 ∷ 0x00 ∷ 0x02 ∷ 0x01 ∷ 0x00 ∷ 0x30 ∷ 0x07 ∷ list_bytes

abbrev answer_bytes : Bytes
answer_bytes = 0x02 ∷ 0x01 ∷ 0x01 ∷ 0x04 ∷ 0x01 ∷ b'a' ∷ 0xA2 ∷ 0x12 ∷ pdu_bytes

abbrev sequence : Envelope
sequence = record { class = 0; tag = 0x30 }

abbrev octets : Envelope
octets = record { class = 0; tag = 4 }

response-IsPdu : IsPdu answer sequence pdu_bytes
unfolding encode_head small_int
response-IsPdu = record {
  request = small_int 1 (omega arith);
  status = small_int 0 (omega arith);
  index = small_int 0 (omega arith);
  list_bytes = list_bytes;
  list_chunk = 0x30 ∷ 0x07 ∷ list_bytes;
  list_frame = short-IsFrame 0 0x30 list_bytes (omega arith) (omega arith) (omega arith);
  listed = (
    record { envelope = sequence; bytes = variable_bytes },
    list_bytes,
    [],
    refl,
    short-IsFrame 0 0x30 variable_bytes (omega arith) (omega arith) (omega arith),
    null_value-IsVariable,
    refl,
  );
  layout = refl;
}

answer-IsMessage : IsMessage answer octets sequence answer_bytes
unfolding encode_head small_int
answer-IsMessage = record {
  version = small_int 1 (omega arith);
  community_chunk = 0x04 ∷ 0x01 ∷ b'a' ∷ [];
  community_frame = short-IsFrame 0 4 (codes "a") (omega arith) (omega arith) (omega arith);
  pdu_bytes = pdu_bytes;
  pdu_chunk = 0xA2 ∷ 0x12 ∷ pdu_bytes;
  pdu_frame = short-IsFrame 2 0x22 pdu_bytes (omega arith) (omega arith) (omega arith);
  has_pdu = response-IsPdu;
  layout = refl;
}

decode_frame-IsMessage_example :
    decode_frame (0x30 ∷ 0x1A ∷ answer_bytes) ≡ ok (message_with answer)
unfolding encode_head
decode_frame-IsMessage_example =
    decode_frame-IsMessage answer octets sequence
      (record { envelope = sequence; bytes = answer_bytes }) (0x30 ∷ 0x1A ∷ answer_bytes) []
      (short-IsFrame 0 0x30 answer_bytes (omega arith) (omega arith) (omega arith)) answer-IsMessage

-- Behind two pointers an OID is read as a slice of ints, so that its bytes are taken for frames.
oid_by_kind :
    unpack 2 (Shape.own Oid [] oid by_slice) [] (record { class = 0; tag = 6 }) (0x2B ∷ [])
    ≡ err (Error.Error.unexpected Error.envelope_truncated 2 1)
unfolding unpack by_slice unpack_slice unmarshal
oid_by_kind = refl

split_address : dial_target {E = ℕ} (codes "host:1161") ≡ ok (codes "host", 1161)
unfolding dial_target split_on parse_int signed_digits digits_value
split_address = refl

no_version : new_protocol {E = ℕ} [] ≡ err ProtocolError.version_required
unfolding new_protocol apply_options
no_version = refl

abbrev v2_public : Protocol
v2_public = record new_defaults { community = codes "public"; version = 1 }

encode_pdu-cannot_pack_example :
    encode_pdu v2_public 0x20 (zero_of pdu) ≡ err Error.Error.cannot_pack
encode_pdu-cannot_pack_example = encode_pdu-cannot_pack v2_public 0x20 (zero_of pdu)
