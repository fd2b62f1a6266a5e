-- ===== src/Binary/Codec.antt =====
-- pkg/asn1/asn1binary/helpers.go, codec.go and the end of value.go: from Go values to frames and back.
-- The registry is the list of providers; `Any` stands for the Go values. A call that fills its target
-- gives what the target holds afterwards.
pub mod RoundTrip
mod Tests
use net_mapper.Prelude.{
  ℕ, Bool, List, Option, none, Bytes, if◌then◌else◌, Outcome, ok, err, panicked, ◌>>=◌,
}
use net_mapper.Binary.Error.{Error}
use net_mapper.Binary.Value.{Envelope, Value, marshal, unmarshal}
use net_mapper.Binary.Value.Reader.{read_from}
use net_mapper.Binary.Parameters.{Parameters, validate, update}
use net_mapper.Binary.Interface.{Packed, Transformer}
use net_mapper.Binary.Registry.{RegistryError, Provider, get_packer_for, get_unpacker_for}

pub data CodecError : Type 0 where
  registry : RegistryError → CodecError
  coding : Error → CodecError
  writer_failed : CodecError

abbrev pub from : {E A : Type 0} → (E → CodecError) → Outcome E A → Outcome CodecError A
from wrap (ok a) = ok a
from wrap (err e) = err (wrap e)
from wrap panicked = panicked

-- `Value.PackAsn1` and `Value.UnpackAsn1`: a frame is itself something to pack and to unpack.
unfoldable pub pack_value : Value → Option Parameters → Packed
pack_value v params = validate params v.envelope >>= λ _. ok (v.envelope, v.bytes)

unfoldable pub unpack_value : Value → Envelope → Bytes → Outcome Error Value
unpack_value v e bytes = ok (record { envelope = e; bytes = bytes })

abbrev pub value : Transformer Value
value = record { pack_asn1 = pack_value; unpack_asn1 = unpack_value }

module _ {Any : Type 0} (ps : List (Provider Any)) where
  unfoldable pub marshal_with_params : Any → Option Parameters → Outcome CodecError Bytes
  marshal_with_params v params = from registry (get_packer_for ps v) >>= λ packer.
      from coding (packer params) >>= λ (e, bytes).
      from coding (marshal (record { envelope = e; bytes = bytes }))

  unfoldable pub marshal_go : Any → Outcome CodecError Bytes
  marshal_go v = marshal_with_params v none

  unfoldable pub unmarshal_go : Bytes → Any → Outcome CodecError (Any × Bytes)
  unmarshal_go bytes v = from coding (unmarshal bytes) >>= λ (raw, tail).
      from registry (get_unpacker_for ps v) >>= λ unpacker.
      from coding (unpacker raw.envelope raw.bytes) >>= λ filled. ok (filled, tail)

  unfoldable pub unpack_into_go : Value → Any → Option Parameters → Outcome CodecError Any
  unpack_into_go raw i params = from coding (validate params raw.envelope) >>= λ _.
      from registry (get_unpacker_for ps i) >>= λ unpacker.
      from coding (unpacker raw.envelope raw.bytes)

  unfoldable pub pack_from_go : Any → Option Parameters → Outcome CodecError Value
  pack_from_go i params = from registry (get_packer_for ps i) >>= λ packer.
      from coding (packer params) >>= λ (e, bytes).
      ok (record { envelope = update params e; bytes = bytes })

  -- `write` is the `io.Writer`: its next state, and whether there was an error.
  module _ {W : Type 0} (write : W → Bytes → W × Bool) where
    send : W → Outcome CodecError Bytes → W × Outcome CodecError (Unit {0})
    send w panicked = (w, panicked)
    send w (err e) = (w, err e)
    send w (ok bytes) =
        let (w', failed) = write w bytes in (w', if failed then err writer_failed else ok tt)

    unfoldable pub encode_with_params :
        W → Any → Option Parameters → W × Outcome CodecError (Unit {0})
    unfolding send
    encode_with_params w i params =
        send w (pack_from_go i params >>= λ raw. from coding (marshal raw))

    unfoldable pub encode : W → Any → W × Outcome CodecError (Unit {0})
    encode w i = encode_with_params w i none

  -- `read` is the `io.Reader` of `read_from`.
  module _ {R : Type 0} (read : R → ℕ → R × Bytes × Bool) where
    unfoldable pub decode_with_params : R → Any → Option Parameters → R × Outcome CodecError Any
    decode_with_params r i params =
        let reading = read_from read r in
        (reading.reader, from coding reading.outcome >>= λ raw. unpack_into_go raw i params)

    unfoldable pub decode : R → Any → R × Outcome CodecError Any
    decode r i = decode_with_params r i none
