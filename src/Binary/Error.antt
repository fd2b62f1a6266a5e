-- ===== src/Binary/Error.antt =====
-- The error values of pkg/asn1/asn1error that the codecs return, by the message they carry.
use net_mapper.Prelude.{ℕ, List}

pub data Message : Type 0 where
  envelope_truncated frame_truncated envelope_long_truncated frame_long_truncated : Message
  tag_mismatch class_mismatch unexpected_tag oid_prefix bitstring_prefix null_content : Message
  boolean_value too_many_elements too_few_elements : Message

-- `unexpected` is `NewUnexpectedError`, with the expected and the actual number.
pub data Error : Type 0 where
  unexpected : Message → ℕ → ℕ → Error
  invalid_length_encoding oid_negative oid_truncated too_many_bits bits_not_multiple : Error
  integer_too_large odd_bmp_length cannot_pack cannot_unpack reader_failed : Error
  not_a_parameter_number constructed_without_tag no_fields unsupported_type nil_pointer
        not_settable :
      Error
  unknown_parameter : List ℕ → Error
  invalid_character : ℕ → Error
