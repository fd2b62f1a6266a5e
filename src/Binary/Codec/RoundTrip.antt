-- ===== src/Binary/Codec/RoundTrip.antt =====
-- `Unmarshal` after `Marshal` for any type that is packed without loss.
use net_mapper.Prelude.{
  ◌≡◌, ◌≢◌, ◌≤◌, ap, refl, arith, List, Option, none, some, ◌++◌, Bytes, length, Outcome, ok, err,
  panicked, ◌>>=◌, >>=-eq-ok, ok_injective,
}
use net_mapper.Binary.Value.{Envelope, Value, marshal}
use net_mapper.Binary.Value.RoundTrip.{IsPackable, unmarshal-marshal}
use net_mapper.Binary.Parameters.{Parameters, validate, update, validate-update}
use net_mapper.Binary.Interface.{Transformer, IsLossless}
use net_mapper.Binary.Registry.{Provider, get_packer_for, get_unpacker_for}
use net_mapper.Binary.Codec.{
  CodecError, from, coding, registry, marshal_go, marshal_with_params, unmarshal_go, pack_from_go,
  pack_value, unpack_value, value,
}

pub value-IsLossless : IsLossless value
unfolding pack_value unpack_value validate
value-IsLossless = record { unpack-pack = λ v target e bytes h. cc }

update_idempotent : (p : Option Parameters) (e : Envelope) → update p (update p e) ≡ update p e
unfolding update
update_idempotent none e = refl
update_idempotent (some p) e = ground arith

-- from-eq-ok
from-eq-ok :
    {E A : Type 0} (wrap : E → CodecError) (o : Outcome E A) (a : A) → from wrap o ≡ ok a → o ≡ ok a
from-eq-ok wrap (ok b) a h = ap ok (ok_injective h)
from-eq-ok wrap (err e) a h = absurd (cc)
from-eq-ok wrap panicked a h = absurd (cc)

module _ {Any : Type 0} (ps : List (Provider Any)) where
  -- The envelope of a value that PackFromGoWithParameters packed passes Validate with the same
  -- parameters.
  pub validate-pack_from_go :
      (i : Any) (params : Option Parameters) (v : Value)
      → pack_from_go ps i params ≡ ok v
      → validate params v.envelope ≡ ok tt
  unfolding pack_from_go
  validate-pack_from_go i params v h =
      let (packer, _, h2) = >>=-eq-ok (from registry (get_packer_for ps i)) _ h in
      let (packed, _, h3) = >>=-eq-ok (from coding (packer params)) _ h2 in
      let same : update params packed.0 ≡ v.envelope = ap (λ w. w.envelope) (ok_injective h3) in
      (validate-update params v.envelope).1 (rw (← same) (update_idempotent params packed.0))

  -- The registry packs and unpacks the values of the type `A` by the transformer.
  pub record IsServed {A : Type 0} (t : Transformer A) (into : A → Any) : Type 0 where
    pub packs : (v : A) → get_packer_for ps (into v) ≡ ok (t.pack_asn1 v)
    pub unpacks :
        (v : A)
        → get_unpacker_for ps (into v)
          ≡ ok (λ e bytes. t.unpack_asn1 v e bytes >>= λ filled. ok (into filled))

  -- If the registry packs and unpacks the values of a type by a transformer that loses nothing,
  -- Unmarshal into any target of the type gives back the value that Marshal wrote and what
  -- followed it, where the packed value has a class below 4, a tag below 64, and at most 1280
  -- bytes other than 256.
  pub unmarshal_go-marshal_go :
      {A : Type 0} (t : Transformer A) (into : A → Any)
      → IsLossless t
      → IsServed t into
      → (v target : A) (packed : Value) (rest : Bytes)
      → t.pack_asn1 v none ≡ ok (packed.envelope, packed.bytes)
      → IsPackable packed
      → length packed.bytes ≤ 1280
      → length packed.bytes ≢ 256
      → (marshal_go ps (into v) >>= λ written. unmarshal_go ps (written ++ rest) (into target))
        ≡ ok (into v, rest)
  unfolding marshal_go marshal_with_params unmarshal_go
  unmarshal_go-marshal_go t into lossless served v target packed rest packs fits hi ne =
      let (written, m, u) =
        >>=-eq-ok (marshal packed) _ (unmarshal-marshal packed rest fits hi ne) in
      rw
        (
          served.packs v,
          packs,
          m,
          u,
          served.unpacks target,
          lossless.unpack-pack v target _ _ packs,
        )
        refl
