-- ===== src/Snmp/Protocol/Laws.antt =====
-- The tags of the fields of a message, and what `EncodePDU` gives.
use net_mapper.Prelude.{ℕ, ◌≡◌, refl, arith, none, some, [], Bytes, codes, str_eq, ok, err}
use net_mapper.Binary.Error.{Error}
use net_mapper.Binary.Value.{Value}
use net_mapper.Binary.Value.RoundTrip.{marshal_short}
use net_mapper.Binary.Mapping.{parse_tag, tag_map, lookup_val, lookup_name}
use net_mapper.Binary.Parameters.{update}
use net_mapper.Binary.Parameters.Parse.{
  no_parameters, parse_parameters, parse_parts, parse_part, parse_word, finish, trim_space,
  trim_left, cut_equals,
}
use net_mapper.Go.Decimal.{split_on}
use net_mapper.Go.Integer.{pack_integer, set_int}
use net_mapper.Go.Integer.Write.{set_int-Trimmed}
use net_mapper.Go.Text.{pack_text, pack_as}
use net_mapper.Reflect.{
  ValueOf, marshal_packed, pack, pack_fields, pack_string, check_struct, check_tags,
}
use net_mapper.Snmp.Protocol.{Protocol, pdu, encode_pdu}

pub no_tag : parse_parameters [] ≡ ok no_parameters
unfolding parse_parameters parse_parts parse_part finish trim_space trim_left split_on
no_tag = refl

pub octet_string_tag :
    parse_parameters (codes "OctetString") ≡ ok (record { tag = some 4; class = none })
unfolding parse_parameters parse_parts parse_part parse_word finish trim_space trim_left cut_equals
    split_on str_eq parse_tag tag_map lookup_val lookup_name
octet_string_tag = refl

pub sequence_tag :
    parse_parameters (codes "Sequence,Constructed") ≡ ok (record { tag = some 0x30; class = none })
unfolding parse_parameters parse_parts parse_part parse_word finish trim_space trim_left cut_equals
    split_on str_eq parse_tag tag_map lookup_val lookup_name
sequence_tag = refl

-- A String is not packed as an OctetString.
community_refused :
    (community : Bytes)
    → pack_string community (some (record { tag = some 4; class = none })) ≡ err Error.cannot_pack
unfolding pack_string pack_text pack_as update
community_refused community = refl

marshal_packed-err : (e : Error) → marshal_packed (err e) ≡ err e
unfolding marshal_packed
marshal_packed-err e = refl

-- An int is packed in at most eight bytes.
int_framed : (w : ℕ) → (chunk : Bytes) × (marshal_packed (ok (pack_integer (set_int w))) ≡ ok chunk)
unfolding marshal_packed pack_integer
int_framed w =
    let raw : Value = record { envelope = record { class = 0; tag = 2 }; bytes = set_int w } in
    (_, marshal_short raw (omega (arith, (set_int-Trimmed w).not_longer)))

-- EncodePDU fails for every protocol, type and PDU, with the error that a string cannot be packed
-- as an OctetString, which is the tag of the community.
pub encode_pdu-cannot_pack :
    (p : Protocol) (type : ℕ) (v : ValueOf pdu) → encode_pdu p type v ≡ err Error.cannot_pack
unfolding encode_pdu pack pack_fields check_struct check_tags
encode_pdu-cannot_pack p type (e, v) =
    let (chunk, version) = int_framed p.version in
    rw
      (
        no_tag,
        octet_string_tag,
        version,
        community_refused p.community,
        marshal_packed-err Error.cannot_pack,
        marshal_packed-err Error.cannot_pack,
      )
      refl
