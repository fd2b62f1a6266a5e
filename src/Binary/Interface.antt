-- ===== src/Binary/Interface.antt =====
-- pkg/asn1/asn1binary/interface.go: what a type that is packed and unpacked has to offer.
use net_mapper.Prelude.{◌≡◌, Option, Bytes, Outcome, ok}
use net_mapper.Binary.Error.{Error}
use net_mapper.Binary.Value.{Envelope}
use net_mapper.Binary.Parameters.{Parameters}

abbrev pub Packed : Type 0
Packed = Outcome Error (Envelope × Bytes)

abbrev pub Packer : Type 0
Packer = Option Parameters → Packed

-- An unpacker writes to what it was made for; it gives what stands there afterwards.
abbrev pub Unpacker : Type 0 → Type 0
Unpacker A = Envelope → Bytes → Outcome Error A

-- The argument of `unpack_asn1` is what the target holds before.
pub record Transformer (A : Type 0) : Type 0 where
  pub pack_asn1 : A → Packer
  pub unpack_asn1 : A → Unpacker A

-- Whatever is packed without parameters is unpacked to the same, into any target.
pub record IsLossless {A : Type 0} (t : Transformer A) : Type 0 where
  pub unpack-pack :
      (v target : A) (e : Envelope) (bytes : Bytes)
      → t.pack_asn1 v Option.none ≡ ok (e, bytes)
      → t.unpack_asn1 target e bytes ≡ ok v
