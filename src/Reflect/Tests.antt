-- ===== src/Reflect/Tests.antt =====
-- Runs of the codec by reflection.
use net_mapper.Prelude.{◌≡◌, refl, arith, true, [], ◌∷◌, none, some, codes, str_eq, ok, err}
use net_mapper.Binary.Error
use net_mapper.Binary.Value.{encode_head, marshal, unmarshal, decode_head}
use net_mapper.Binary.Value.RoundTrip.{marshal_short}
use net_mapper.Binary.Parameters.{validate, update}
use net_mapper.Binary.Parameters.Parse.{
  parse_parameters, parse_parts, parse_part, parse_pair, finish, trim_space, trim_left, cut_equals,
}
use net_mapper.Go.Decimal.{split_on, parse_int, signed_digits, digits_value}
use net_mapper.Go.Integer.{set_int, trim_front, put_bytes, pack_integer}
use net_mapper.Reflect.{
  Shape, Fields, no_envelope, marshal_packed, pack, pack_fields, pack_slice, pack_boolean,
  check_struct, check_tags, unpack, unpack_target, unpack_fields, has_unpacker,
}
use net_mapper.Reflect.Encoding.{IsFrame}
use net_mapper.Reflect.Unpack.{unpack-Encodes}

-- A list of booleans behind a pointer.
abbrev flags : Shape
flags = Shape.pointer (Shape.slice Shape.boolean)

flag-IsFrame :
    IsFrame (record { envelope = record { class = 0; tag = 1 }; bytes = 7 ∷ [] }) (1 ∷ 1 ∷ 7 ∷ [])
unfolding encode_head
flag-IsFrame = record {
  written = marshal_short _ (omega arith);
  fits = record { class_fits = omega arith; tag_fits = omega arith };
  not_too_long = omega arith;
  not_256 = omega arith;
}

unpack-Encodes_example :
    unpack_target
      (Shape.pointer flags)
      (some none)
      (record { class = 0; tag = 0x30 })
      (1 ∷ 1 ∷ 7 ∷ [])
    ≡ ok (some (some (true ∷ [])))
unpack-Encodes_example =
    unpack-Encodes flags (some (true ∷ [])) (record { class = 0; tag = 0x30 }) (1 ∷ 1 ∷ 7 ∷ [])
      (_, 1 ∷ 1 ∷ 7 ∷ [], [], refl, flag-IsFrame, (refl, (7, refl, refl)), refl)

-- A slice is written with the tag 0x10, without the bit of a constructed encoding.
slice_tag :
    pack 0 (Shape.slice Shape.boolean) (true ∷ []) none
    ≡ ok (record { class = 0; tag = 0x10 }, 1 ∷ 1 ∷ 1 ∷ [])
unfolding pack pack_slice pack_boolean marshal_packed marshal encode_head
slice_tag = refl

-- An int is written with its own tag, whatever the tag of its field says, so that it is not read back.
abbrev tagged : Shape
tagged = Shape.struct (Fields.field (codes "class=2, tag=1") (Shape.int 64) Fields.end)

tag_not_written : pack 0 tagged (5, tt) none ≡ ok (no_envelope, 2 ∷ 1 ∷ 5 ∷ [])
unfolding pack pack_fields check_struct check_tags marshal_packed marshal encode_head update
    pack_integer set_int trim_front put_bytes parse_parameters parse_parts parse_part parse_pair
    finish trim_space trim_left cut_equals split_on parse_int signed_digits digits_value str_eq
tag_not_written = refl

tag_not_read :
    unpack 0 tagged (0, tt) no_envelope (2 ∷ 1 ∷ 5 ∷ [])
    ≡ err (Error.Error.unexpected Error.tag_mismatch 1 2)
unfolding has_unpacker unpack unpack_fields check_struct check_tags unmarshal decode_head validate
    parse_parameters parse_parts parse_part parse_pair finish trim_space trim_left cut_equals
    split_on parse_int signed_digits digits_value str_eq
tag_not_read = refl
