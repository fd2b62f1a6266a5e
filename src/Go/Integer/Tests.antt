-- ===== src/Go/Integer/Tests.antt =====
-- Runs of integer.go, with the cases of integer_test.go, and its theorems at concrete inputs.
use net_mapper.Prelude.{◌-◌, ◌^◌, ◌≤◌, ◌≡◌, refl, true, arith, [], ◌∷◌, length, ok, err, panicked}
use net_mapper.Binary.Error
use net_mapper.Go.Integer.{get_int, read_bytes, extend_sign, set_int, put_bytes, trim_front}
use net_mapper.Go.Integer.Read.{
  signed_value, be_value, get_int-signed_value, get_int_nine, get_int-panicked,
}
use net_mapper.Go.Integer.Write.{is_minimal, set_int-is_minimal}
use net_mapper.Go.Integer.RoundTrip.{get_int-set_int}
use net_mapper.Prelude.{◌*◌, ◌%◌}

decode_table :
    (get_int 64 (0x7f ∷ []) ≡ ok 127)
    × (get_int 64 (0x80 ∷ []) ≡ ok (2 ^ 64 - 128))
    × (get_int 64 (0xff ∷ []) ≡ ok (2 ^ 64 - 1))
    × (get_int 64 (0x07 ∷ 0xe4 ∷ []) ≡ ok 2020)
    × (get_int 16 (1 ∷ 2 ∷ 3 ∷ []) ≡ err Error.integer_too_large)
    × (get_int 12 [] ≡ err Error.bits_not_multiple)
unfolding get_int read_bytes extend_sign
decode_table = (refl, refl, refl, refl, refl, refl)

encode_table :
    (set_int 0 ≡ 0 ∷ [])
    × (set_int 127 ≡ 0x7f ∷ [])
    × (set_int (2 ^ 64 - 128) ≡ 0x80 ∷ [])
    × (set_int (2 ^ 64 - 1) ≡ 0xff ∷ [])
    × (set_int 2020 ≡ 0x07 ∷ 0xe4 ∷ [])
unfolding set_int put_bytes trim_front
encode_table = (refl, refl, refl, refl, refl)

get_int-signed_value_run : get_int 32 (0xff ∷ 0x7f ∷ []) ≡ ok (signed_value (0xff ∷ 0x7f ∷ []))
get_int-signed_value_run =
    get_int-signed_value 32 0xff (0x7f ∷ []) (omega arith) refl (omega arith) (omega arith)

get_int-set_int_example : get_int 64 (set_int (2 ^ 64 - 300)) ≡ ok (2 ^ 64 - 300)
get_int-set_int_example = get_int-set_int (2 ^ 64 - 300) (omega arith)

set_int-is_minimal_run :
    (is_minimal (set_int 300) ≡ true) × (1 ≤ length (set_int 300)) × (length (set_int 300) ≤ 8)
set_int-is_minimal_run = set_int-is_minimal 300 (omega arith)

-- 2 ^ 64 is read as 0.
get_int_nine_run :
    get_int 64 (1 ∷ 0 ∷ 0 ∷ 0 ∷ 0 ∷ 0 ∷ 0 ∷ 0 ∷ 0 ∷ [])
    ≡ ok (be_value (1 ∷ 0 ∷ 0 ∷ 0 ∷ 0 ∷ 0 ∷ 0 ∷ 0 ∷ []) * 256 % 2 ^ 64)
get_int_nine_run = get_int_nine 1 (0 ∷ 0 ∷ 0 ∷ 0 ∷ 0 ∷ 0 ∷ 0 ∷ []) refl (omega arith) (omega arith)

get_int-panicked_run :
    get_int 64 (0xff ∷ 0xff ∷ 0xff ∷ 0xff ∷ 0xff ∷ 0xff ∷ 0xff ∷ 0xff ∷ 0xff ∷ []) ≡ panicked
get_int-panicked_run =
    get_int-panicked 0xff (0xff ∷ 0xff ∷ 0xff ∷ 0xff ∷ 0xff ∷ 0xff ∷ 0xff ∷ []) refl (omega arith)
      (omega arith)
