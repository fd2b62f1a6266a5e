-- ===== src/Binary/Value/Tests.antt =====
-- Runs of value.go, and its theorems at concrete inputs.
use net_mapper.Prelude.{ℕ, ◌≡◌, ◌≢◌, refl, arith, Bool, false}
use net_mapper.Prelude.{
  [], ◌∷◌, ◌++◌, Bytes, codes, replicate, take, drop, ok, err, panicked, ◌>>=◌,
}
use net_mapper.Binary.Error
use net_mapper.Binary.Error.{Error}
use net_mapper.Binary.Value.{Value, decode_head, encoded_length, marshal, unmarshal_long, unmarshal}
use net_mapper.Binary.Value.Marshal.{marshal_too_long}
use net_mapper.Binary.Value.RoundTrip.{unmarshal-marshal, unmarshal-marshal_256}
use net_mapper.Binary.Value.Unmarshal.{unmarshal_field, unmarshal-panicked, unmarshal-ne-panicked}
use net_mapper.Binary.Value.Reader.{read_from, read_from-unmarshal, read_from_one}

abbrev octets : Bytes → Value
octets body = record { envelope = record { class = 0; tag = 4 }; bytes = body }

marshal_public : marshal (octets (codes "public")) ≡ ok (4 ∷ 6 ∷ codes "public")
unfolding marshal
marshal_public = refl

-- Two length bytes from 257 on.
marshal_300 : marshal (octets (replicate 300 7)) ≡ ok (4 ∷ 0x82 ∷ 1 ∷ 44 ∷ replicate 300 7)
unfolding marshal encoded_length
marshal_300 = refl

unmarshal_errors :
    (unmarshal (4 ∷ []) ≡ err (Error.unexpected Error.envelope_truncated 2 1))
    × (unmarshal (4 ∷ 3 ∷ 1 ∷ 2 ∷ []) ≡ err (Error.unexpected Error.frame_truncated 5 4))
    × (unmarshal (4 ∷ 0x82 ∷ 1 ∷ []) ≡ err (Error.unexpected Error.envelope_long_truncated 4 3))
    × (unmarshal (4 ∷ 0x81 ∷ 2 ∷ 1 ∷ []) ≡ err (Error.unexpected Error.frame_long_truncated 4 4))
unfolding unmarshal unmarshal_long
unmarshal_errors = (refl, refl, refl, refl)

unmarshal-marshal_example :
    (marshal (octets (replicate 130 7)) >>= λ written. unmarshal (written ++ (9 ∷ [])))
    ≡ ok (octets (replicate 130 7), 9 ∷ [])
unmarshal-marshal_example =
    unmarshal-marshal (octets (replicate 130 7)) (9 ∷ []) (omega arith) (omega arith) (omega arith)

unmarshal-marshal_256_example :
    (marshal (octets (replicate 256 7)) >>= λ written. unmarshal (written ++ (9 ∷ [])))
    ≡ ok (octets [], replicate 256 7 ++ (9 ∷ []))
unmarshal-marshal_256_example =
    unmarshal-marshal_256 (octets (replicate 256 7)) (9 ∷ []) (omega arith) refl

marshal_too_long_example : marshal (octets (replicate 1281 7)) ≡ panicked
marshal_too_long_example = marshal_too_long (octets (replicate 1281 7)) (omega arith)

unmarshal_field_run :
    unmarshal (4 ∷ 0x82 ∷ 0 ∷ 2 ∷ 5 ∷ 6 ∷ 7 ∷ [])
    ≡ ok (record { envelope = decode_head 4; bytes = 5 ∷ 6 ∷ [] }, 7 ∷ [])
unmarshal_field_run = unmarshal_field 4 (2 ∷ 0 ∷ []) (5 ∷ 6 ∷ 7 ∷ []) (omega arith) (omega arith)

unmarshal-panicked_run :
    unmarshal (4 ∷ 0x88 ∷ 0xff ∷ 0xff ∷ 0xff ∷ 0xff ∷ 0xff ∷ 0xff ∷ 0xff ∷ 0xff ∷ []) ≡ panicked
unmarshal-panicked_run =
    unmarshal-panicked 4 (0xff ∷ 0xff ∷ 0xff ∷ 0xff ∷ 0xff ∷ 0xff ∷ 0xff ∷ 0xff ∷ []) []
      (omega arith) refl (omega arith)

unmarshal-ne-panicked_example : unmarshal (4 ∷ 0x81 ∷ 2 ∷ 1 ∷ []) ≢ panicked
unmarshal-ne-panicked_example =
    unmarshal-ne-panicked 4 0x81 (2 ∷ 1 ∷ []) (omega arith) (omega arith)

-- A reader over bytes in memory, which gives as many as it has.
abbrev read_bytes : Bytes → ℕ → Bytes × Bytes × Bool
read_bytes b n = (drop n b, take n b, false)

read_from-unmarshal_example :
    (v : Value) × (unmarshal (4 ∷ 2 ∷ 5 ∷ 6 ∷ 7 ∷ []) ≡ ok (v, 7 ∷ []))
    × (read_from read_bytes (4 ∷ 2 ∷ 5 ∷ 6 ∷ 7 ∷ [])
        ≡ record { total_read = 4; outcome = ok v; reader = 7 ∷ [] })
read_from-unmarshal_example =
    read_from-unmarshal read_bytes (4 ∷ 2 ∷ 5 ∷ 6 ∷ 7 ∷ []) (5 ∷ 6 ∷ 7 ∷ []) (7 ∷ []) 4 2
      (5 ∷ 6 ∷ []) (7 ∷ []) refl refl refl (omega arith)

read_from_one_run : read_from read_bytes (4 ∷ 0x81 ∷ 2 ∷ 5 ∷ 6 ∷ []) ≡ record {
  total_read = 4;
  outcome = ok (record { envelope = decode_head 4; bytes = [] });
  reader = 5 ∷ 6 ∷ [];
}
read_from_one_run =
    read_from_one read_bytes (4 ∷ 0x81 ∷ 2 ∷ 5 ∷ 6 ∷ []) (2 ∷ 5 ∷ 6 ∷ []) (5 ∷ 6 ∷ []) (5 ∷ 6 ∷ [])
      4 2 refl refl refl
