-- ===== src/Go/Basic.antt =====
-- pkg/asn1/asn1go/octectstring.go, null.go and bitstring.go: `PackAsn1` and `UnpackAsn1`.
pub mod Laws
use net_mapper.Prelude.{ℕ, not, [], ◌∷◌, Bytes, ◌==◌, if◌then◌else◌, length, Option}
use net_mapper.Prelude.{Outcome, ok, err}
use net_mapper.Binary.Error
use net_mapper.Binary.Error.{Error}
use net_mapper.Binary.Value.{Envelope}
use net_mapper.Binary.Parameters.{Parameters}
use net_mapper.Binary.Interface.{Packed, Transformer}

abbrev pub OctetString : Type 0
OctetString = Bytes

unfoldable pub pack_octet_string : OctetString → Option Parameters → Packed
pack_octet_string v params = ok (record { class = 0; tag = 4 }, v)

unfoldable pub unpack_octet_string : OctetString → Envelope → Bytes → Outcome Error OctetString
unpack_octet_string v e bytes =
    if not (e.tag == 4) then err (Error.unexpected Error.unexpected_tag 4 e.tag) else ok bytes

abbrev pub Null : Type 0
Null = Unit {0}

unfoldable pub pack_null : Null → Option Parameters → Packed
pack_null v params = ok (record { class = 0; tag = 5 }, [])

unfoldable pub unpack_null : Null → Envelope → Bytes → Outcome Error Null
unpack_null v e bytes =
    if not (e.tag == 5)
    then err (Error.unexpected Error.unexpected_tag 5 e.tag)
    else if not (length bytes == 0)
    then err (Error.unexpected Error.null_content 0 (length bytes))
    else ok tt

pub record BitString : Type 0 where
  pub unused : ℕ
  pub bytes : Bytes

unfoldable pub pack_bit_string : BitString → Option Parameters → Packed
pack_bit_string v params = ok (record { class = 0; tag = 3 }, v.unused ∷ v.bytes)

unfoldable pub unpack_bit_string : BitString → Envelope → Bytes → Outcome Error BitString
unpack_bit_string v e [] =
    if not (e.tag == 3)
    then err (Error.unexpected Error.unexpected_tag 3 e.tag)
    else err (Error.unexpected Error.bitstring_prefix 1 0)
unpack_bit_string v e (b ∷ bs) =
    if not (e.tag == 3)
    then err (Error.unexpected Error.unexpected_tag 3 e.tag)
    else ok (record { unused = b; bytes = bs })

abbrev pub octet_string : Transformer OctetString
octet_string = record { pack_asn1 = pack_octet_string; unpack_asn1 = unpack_octet_string }

abbrev pub null : Transformer Null
null = record { pack_asn1 = pack_null; unpack_asn1 = unpack_null }

abbrev pub bit_string : Transformer BitString
bit_string = record { pack_asn1 = pack_bit_string; unpack_asn1 = unpack_bit_string }
