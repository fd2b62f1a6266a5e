-- ===== src/Go/Text.antt =====
-- pkg/asn1/asn1go/string.go: a Go string under one of the ASN.1 string tags.
-- A Go string is its bytes; `range` and the conversion from runes read and write UTF-8 as the Go language
-- says, with the rune 0xFFFD for what is no UTF-8.
pub mod Utf8
pub mod RoundTrip
mod Tests
use net_mapper.Prelude.{
  ℕ, ◌+◌, ◌*◌, ◌/◌, ◌%◌, ◌^◌, Bool, not, Option, none, some, List, [], ◌∷◌, ◌++◌,
}
use net_mapper.Prelude.{Bytes, ◌==◌, if◌then◌else◌, length, Outcome, ok, err, ◌>>=◌}
use net_mapper.Binary.Error
use net_mapper.Binary.Error.{Error}
use net_mapper.Binary.Value.{Envelope}
use net_mapper.Binary.Charset.{validate_bytes, printable_string, ia5_string}
use net_mapper.Binary.Parameters.{Parameters, update}
use net_mapper.Binary.Interface.{Packed}
use net_mapper.Go.Text.Utf8.{runes, from_runes}

-- The embedded envelope and `Elem`.
pub record Text : Type 0 where
  pub envelope : Envelope
  pub elem : Bytes

-- `byte(r>>8), byte(r)` for each rune of the string.
unfoldable pub to_bmp : List ℕ → Bytes
to_bmp [] = []
to_bmp (r ∷ rs) = r / 2 ^ 8 % 256 ∷ r % 256 ∷ to_bmp rs

-- `rune(uint16(bytes[i*2])<<8 + uint16(bytes[i*2+1]))`
unfoldable pub of_bmp : Bytes → List ℕ
of_bmp (hi ∷ lo ∷ bytes) = (hi * 2 ^ 8 % 2 ^ 16 + lo) % 2 ^ 16 ∷ of_bmp bytes
of_bmp _ = []

-- The tags: UTF8String 12, PrintableString 19, IA5String 22, BMPString 30, OctetString 4.
unfoldable pub pack_as : Envelope → Bytes → Packed
pack_as e elem =
    if e.tag == 12
    then ok (e, elem)
    else if e.tag == 30
    then ok (e, to_bmp (runes elem))
    else if e.tag == 19
    then (validate_bytes printable_string elem >>= λ _. ok (e, elem))
    else if e.tag == 22
    then (validate_bytes ia5_string elem >>= λ _. ok (e, elem))
    else err Error.cannot_pack

unfoldable pub pack_text : Text → Option Parameters → Packed
pack_text v params = pack_as (update params v.envelope) v.elem

unfoldable pub unpack_text : Text → Envelope → Bytes → Outcome Error Text
unpack_text v e bytes =
    if e.tag == 12
    then ok (record v { elem = bytes })
    else if e.tag == 19
    then (validate_bytes printable_string bytes >>= λ _. ok (record v { elem = bytes }))
    else if e.tag == 4
    then ok (record v { elem = bytes })
    else if e.tag == 22
    then (validate_bytes ia5_string bytes >>= λ _. ok (record v { elem = bytes }))
    else if e.tag == 30
    then (if not (length bytes % 2 == 0)
        then err Error.odd_bmp_length
        else ok (record v { elem = from_runes (of_bmp bytes) }))
    else err Error.cannot_unpack
