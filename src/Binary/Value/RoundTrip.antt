-- ===== src/Binary/Value/RoundTrip.antt =====
-- `Unmarshal` after `Marshal`.
use native.Mathlib.Decide.{dec_lt}
use net_mapper.Prelude.{ℕ, zero, suc, ◌+◌, ◌≤◌, ◌<◌, ◌≡◌, ◌≢◌, refl, arith, ap, sym, ◌∙◌}
use net_mapper.Prelude.{[], ◌∷◌, ◌++◌, length, ok, Bytes, All, ◌>>=◌}
use net_mapper.Binary.Value.{Value, encode_head, byte_count, marshal, unmarshal}
use net_mapper.Binary.Value.Length.{le_digits, rev_onto, le_value, IsByte}
use net_mapper.Binary.Value.Marshal.{
  byte_count_lem, encoded_length-le_digits, decode_head-encode_head,
}
use net_mapper.Binary.Value.Unmarshal.{unmarshal_short, whole_frame}

-- What a caller of `Marshal` has to keep to: a class of two bits and a tag of six.
pub record IsPackable (v : Value) : Type 0 where
  pub class_fits : v.envelope.class < 4
  pub tag_fits : v.envelope.tag < 64

digits-IsByte : (n i k : ℕ) → All IsByte (le_digits n i k)
digits-IsByte n i zero = tt
digits-IsByte n i (suc k) = (omega arith, digits-IsByte n (suc i) k)

length-le_digits : (n i k : ℕ) → length (le_digits n i k) ≡ k
length-le_digits n i zero = refl
length-le_digits n i (suc k) = ap suc (length-le_digits n (suc i) k)

-- With `byte_count` bytes the digits stand for the length, except for 256.
le_value-byte_count :
    (n k : ℕ) → 128 ≤ n → n ≤ 1280 → n ≢ 256 → byte_count n ≡ k → le_value (le_digits n 0 k) ≡ n
le_value-byte_count n zero lo hi ne e = absurd (omega (arith, byte_count_lem n))
le_value-byte_count n (suc zero) lo hi ne e = omega (arith, byte_count_lem n)
le_value-byte_count n (suc (suc zero)) lo hi ne e = omega (arith, byte_count_lem n)
le_value-byte_count n (suc (suc (suc zero))) lo hi ne e = omega (arith, byte_count_lem n)
le_value-byte_count n (suc (suc (suc (suc zero)))) lo hi ne e = omega (arith, byte_count_lem n)
le_value-byte_count n (suc (suc (suc (suc (suc zero))))) lo hi ne e =
    omega (arith, byte_count_lem n)
le_value-byte_count n (suc (suc (suc (suc (suc (suc k)))))) lo hi ne e =
    absurd (omega (arith, byte_count_lem n))

rev_onto-append : (r t u : Bytes) → rev_onto r t ++ u ≡ rev_onto r (t ++ u)
rev_onto-append [] t u = refl
rev_onto-append (b ∷ r) t u = rev_onto-append r (b ∷ t) u

marshal_long :
    (v : Value)
    → 128 ≤ length v.bytes
    → length v.bytes ≤ 1280
    → marshal v
      ≡ ok (
          encode_head v.envelope
          ∷ (0x80 + byte_count (length v.bytes))
          ∷ rev_onto (le_digits (length v.bytes) 0 (byte_count (length v.bytes))) v.bytes)
unfolding marshal
marshal_long v lo hi =
    let n = length v.bytes in
    let k = byte_count n in
    ground (
      arith,
      byte_count_lem n,
      encoded_length-le_digits k n (omega (arith, byte_count_lem n))
          (omega (arith, byte_count_lem n)) refl,
      rev_onto-append (le_digits n 0 k) [] v.bytes,
    )

pub marshal_short :
    (v : Value)
    → length v.bytes < 128
    → marshal v ≡ ok (encode_head v.envelope ∷ length v.bytes ∷ v.bytes)
unfolding marshal
marshal_short v short = ground arith

short_trip :
    (v : Value) (rest : Bytes)
    → IsPackable v
    → length v.bytes < 128
    → (marshal v >>= λ written. unmarshal (written ++ rest)) ≡ ok (v, rest)
short_trip v rest fits short = rw (marshal_short v short) (
    unmarshal_short (encode_head v.envelope) v.bytes rest short
    ∙ rw (decode_head-encode_head v.envelope fits.class_fits fits.tag_fits))

long_trip :
    (v : Value) (rest : Bytes)
    → IsPackable v
    → 128 ≤ length v.bytes
    → length v.bytes ≤ 1280
    → length v.bytes ≢ 256
    → (marshal v >>= λ written. unmarshal (written ++ rest)) ≡ ok (v, rest)
long_trip v rest fits lo hi ne =
    let n = length v.bytes in
    let k = byte_count n in
    let r = le_digits n 0 k in
    rw (marshal_long v lo hi, rev_onto-append r v.bytes rest)
      (ap
          (λ (c : ℕ).
            unmarshal (encode_head v.envelope ∷ (0x80 + c) ∷ rev_onto r (v.bytes ++ rest)))
          (sym (length-le_digits n 0 k))
        ∙ whole_frame (encode_head v.envelope) r v.bytes rest (digits-IsByte n 0 k)
            (omega (arith, length-le_digits n 0 k, byte_count_lem n))
            (le_value-byte_count n k lo hi ne refl)
        ∙ rw (decode_head-encode_head v.envelope fits.class_fits fits.tag_fits))

-- Unmarshal gives back the value that Marshal wrote and whatever followed it, for a class below 4,
-- a tag below 64 and a content of at most 1280 bytes other than 256.
pub unmarshal-marshal :
    (v : Value) (rest : Bytes)
    → IsPackable v
    → length v.bytes ≤ 1280
    → length v.bytes ≢ 256
    → (marshal v >>= λ written. unmarshal (written ++ rest)) ≡ ok (v, rest)
unmarshal-marshal v rest fits hi ne = elim (dec_lt (length v.bytes) 128) [
  | yes short ↦ short_trip v rest fits short
  | no long ↦ long_trip v rest fits (omega arith) hi ne
]

le_value_256 : (n k : ℕ) → n ≡ 256 → byte_count n ≡ k → (k ≡ 1) × (le_value (le_digits n 0 1) ≡ 0)
le_value_256 n k is e = (omega (arith, byte_count_lem n), omega arith)

-- For a class below 4 and a tag below 64, a content of 256 bytes is written with the length 0:
-- Unmarshal gives back an empty value and takes the content for what follows it.
pub unmarshal-marshal_256 :
    (v : Value) (rest : Bytes)
    → IsPackable v
    → length v.bytes ≡ 256
    → (marshal v >>= λ written. unmarshal (written ++ rest))
      ≡ ok (record { envelope = v.envelope; bytes = [] }, v.bytes ++ rest)
unmarshal-marshal_256 v rest fits is =
    let n = length v.bytes in
    let (one, zero_length) = le_value_256 n (byte_count n) is refl in
    rw
      (
        marshal_long v (omega arith) (omega arith),
        one,
        rev_onto-append (le_digits n 0 1) v.bytes rest,
      )
      (whole_frame (encode_head v.envelope) (le_digits n 0 1) [] (v.bytes ++ rest)
          (digits-IsByte n 0 1) (omega arith) zero_length
        ∙ rw (decode_head-encode_head v.envelope fits.class_fits fits.tag_fits))
