-- ===== src/Reflect/Encoding.antt =====
-- What bytes stand for a value of a shape, by the rules of ASN.1 and the tags of the fields: the
-- description that `UnpackAsn1` is measured by. An encoder may choose among several contents; a frame is as
-- `Marshal` writes it. A type that cannot be read has none. The number is that of the pointers in front.
use net_mapper.Prelude.{
  ℕ, suc, ◌*◌, ◌%◌, ◌≡◌, ◌≢◌, ◌≤◌, ◌⊎◌, not, List, [], ◌∷◌, ◌++◌, none, some, Bytes, ◌==◌, length,
  All, ok,
}
use net_mapper.Binary.Value.{Envelope, Value, marshal}
use net_mapper.Binary.Value.Length.{IsByte}
use net_mapper.Binary.Value.RoundTrip.{IsPackable}
use net_mapper.Binary.Parameters.{Parameters, validate}
use net_mapper.Binary.Parameters.Parse.{parse_parameters}
use net_mapper.Go.Integer.Read.{signed_value}
use net_mapper.Reflect.{
  Shape, boolean, int, duration, text, own, pointer, slice, byte_slice, struct, envelope_struct,
  unsupported, methods_at, Fields, end, field, ValueOf, FieldsOf,
}

-- A frame that `Marshal` writes and `Unmarshal` reads.
pub record IsFrame (raw : Value) (chunk : Bytes) : Type 0 where
  pub written : marshal raw ≡ ok chunk
  pub fits : IsPackable raw
  pub not_too_long : length raw.bytes ≤ 1280
  pub not_256 : length raw.bytes ≢ 256

-- Two's complement, of no more bytes than an int of `bits` has.
pub record IsIntContent (bits v : ℕ) (bytes : Bytes) : Type 0 where
  pub at_most_64 : bits ≤ 64
  pub whole_bytes : bits % 8 ≡ 0
  pub some_left : 1 ≤ length bytes
  pub not_longer : 8 * length bytes ≤ bits
  pub are_bytes : All IsByte bytes
  pub value : v ≡ signed_value bytes

-- The parameters of a field allow the envelope.
abbrev pub Allows : Bytes → Envelope → Type 0
Allows p e =
    (params : Parameters) × (parse_parameters p ≡ ok params) × (validate (some params) e ≡ ok tt)

-- One frame for each value, one after the other.
abbrev pub AreFrames : {A : Type 0} → (A → Envelope → Bytes → Type 0) → List A → Bytes → Type 0
AreFrames P [] bytes = bytes ≡ []
AreFrames P (v ∷ vs) bytes =
    (raw : Value) × (chunk : Bytes) × (rest : Bytes) × (bytes ≡ chunk ++ rest)
    × IsFrame raw chunk
    × P v raw.envelope raw.bytes
    × AreFrames P vs rest

abbrev mutual
  pub Encodes : ℕ → (s : Shape) → ValueOf s → Envelope → Bytes → Type 0
  Encodes n boolean v e bytes = (e.tag ≡ 1) × ((b : ℕ) × (bytes ≡ b ∷ []) × (not (b == 0) ≡ v))
  Encodes n (int bits) v e bytes = (e.tag ≡ 2) × IsIntContent bits v bytes
  Encodes n duration v e bytes = ⊥
  Encodes n text v e bytes = ((e.tag ≡ 4) ⊎ (e.tag ≡ 12)) × (bytes ≡ v)
  Encodes n (own A z t k) v e bytes =
      (target : A) → (methods_at n t k).unpack_asn1 target e bytes ≡ ok v
  Encodes n (pointer s) none e bytes = ⊥
  Encodes n (pointer s) (some v) e bytes = Encodes (suc n) s v e bytes
  Encodes n (slice s) vs e bytes = AreFrames (Encodes 0 s) vs bytes
  Encodes n byte_slice v e bytes = ⊥
  Encodes n (struct end) vs e bytes = ⊥
  Encodes n (struct (field p s fs)) vs e bytes = EncodesFields (field p s fs) vs bytes
  Encodes n (envelope_struct p fs) (e', vs) e bytes =
      (e' ≡ e) × Allows p e × EncodesFields fs vs bytes
  Encodes n unsupported v e bytes = ⊥

  pub EncodesFields : (fs : Fields) → FieldsOf fs → Bytes → Type 0
  EncodesFields end vs bytes = bytes ≡ []
  EncodesFields (field p s fs) (v, vs) bytes =
      (raw : Value) × (chunk : Bytes) × (rest : Bytes) × (bytes ≡ chunk ++ rest)
      × IsFrame raw chunk
      × Allows p raw.envelope
      × Encodes 0 s v raw.envelope raw.bytes
      × EncodesFields fs vs rest
