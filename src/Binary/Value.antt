-- ===== src/Binary/Value.antt =====
-- pkg/asn1/asn1binary/value.go and envelope.go: `Marshal` and `Unmarshal` of one frame.
-- A Go `int` is its 64-bit pattern; one from 2 ^ 63 on is negative.
pub mod Length
pub mod Marshal
pub mod Unmarshal
pub mod RoundTrip
pub mod Reader
mod Tests
use net_mapper.Prelude.{ℕ, zero, suc, ◌+◌, ◌-◌, ◌*◌, ◌/◌, ◌%◌, ◌^◌, bit_and, bit_or}
use net_mapper.Prelude.{Bool, not, ◌&&◌, none, some, [], ◌∷◌, ◌++◌}
use net_mapper.Prelude.{Bytes, ltb, leb, ◌==◌, if◌then◌else◌, length, get_elem?, set, take, drop}
use net_mapper.Prelude.{Outcome, ok, err, panicked, ◌>>=◌}
use net_mapper.Binary.Error
use net_mapper.Binary.Error.{Error}

pub record Envelope : Type 0 where
  pub class : ℕ
  pub tag : ℕ

pub record Value : Type 0 where
  pub envelope : Envelope
  pub bytes : Bytes

-- The first byte of a frame, as `Marshal` computes it.
unfoldable pub encode_head : Envelope → ℕ
encode_head e = bit_or (e.class * 2 ^ 6 % 2 ^ 64) (bit_and e.tag 0x3f) % 256

-- `length >> 8`, and one more if the low byte is not zero.
unfoldable pub byte_count : ℕ → ℕ
byte_count len = if not (bit_and len 0xff == 0) then len / 2 ^ 8 + 1 else len / 2 ^ 8

-- `for i := 0; i < byteCount; i++ { encodedLength[byteCount-i] = byte(length >> (i * 8)) }`.
unfoldable pub write_length : ℕ → ℕ → ℕ → ℕ → Bytes → Outcome Error Bytes
write_length zero i count len encoded = ok encoded
write_length (suc rounds) i count len encoded =
    let rest =
      write_length rounds (suc i) count len (set encoded (count - i) (len / 2 ^ (i * 8) % 256)) in
    if ltb (count - i) (length encoded) then rest else panicked

abbrev pub empty_length : ℕ → Bytes
empty_length count = bit_or 0x80 count % 256 ∷ 0 ∷ 0 ∷ 0 ∷ 0 ∷ 0 ∷ []

-- The slice `encodedLength[:byteCount+1]` of an array of six.
unfoldable pub encoded_length : ℕ → Outcome Error Bytes
unfolding write_length byte_count
encoded_length len =
    let count = byte_count len in
    write_length count 0 count len (empty_length count) >>= λ encoded.
    if leb (count + 1) (length encoded) then ok (take (count + 1) encoded) else panicked

unfoldable pub marshal : Value → Outcome Error Bytes
unfolding encode_head
marshal v =
    let len = length v.bytes in
    if ltb len 128
    then ok (encode_head v.envelope ∷ len % 256 ∷ v.bytes)
    else encoded_length len >>= λ encoded. ok (encode_head v.envelope ∷ (encoded ++ v.bytes))

unfoldable pub decode_head : ℕ → Envelope
decode_head h = record { class = h / 2 ^ 6; tag = bit_and h 0x3f }

-- `for i := 0; i < byteCount; i++ { length |= int(data[top-i]) << (i * 8) }`.
unfoldable pub read_length : ℕ → ℕ → ℕ → Bytes → ℕ → Outcome Error ℕ
read_length zero i top bytes acc = ok acc
read_length (suc rounds) i top bytes acc = elim (get_elem? bytes (top - i)) [
  | none ↦ panicked
  | some b ↦ read_length rounds (suc i) top bytes (bit_or acc (b * 2 ^ (i * 8) % 2 ^ 64))
]

-- `len(data) < w` on ints: a pattern from 2 ^ 63 on is negative.
abbrev pub int_above : ℕ → ℕ → Bool
int_above w n = ltb w (2 ^ 63) && ltb n w

-- `data[low:high]` and `data[high:]`, for `high` at most `len(data)` unless it is negative.
unfoldable pub split_frame : Envelope → Bytes → ℕ → ℕ → Outcome Error (Value × Bytes)
split_frame e bytes low high =
    if ltb high (2 ^ 63) && leb low high
    then ok (record { envelope = e; bytes = take (high - low) (drop low bytes) }, drop high bytes)
    else panicked

-- The part of `Unmarshal` behind `length & 0x7F`; `bytes` is all of `data`.
unfoldable pub unmarshal_long : Envelope → ℕ → Bytes → Outcome Error (Value × Bytes)
unfolding read_length split_frame
unmarshal_long e count bytes =
    if ltb (length bytes) (2 + count)
    then err (Error.unexpected Error.envelope_long_truncated (2 + count) (length bytes))
    else read_length count 0 (1 + count) bytes 0 >>= λ len.
        let high = (2 + count + len) % 2 ^ 64 in
        if int_above high (length bytes)
        then err (Error.unexpected Error.frame_long_truncated ((2 + len) % 2 ^ 64) (length bytes))
        else split_frame e bytes (2 + count) high

unfoldable pub unmarshal : Bytes → Outcome Error (Value × Bytes)
unfolding decode_head
unmarshal [] = err (Error.unexpected Error.envelope_truncated 2 0)
unmarshal (h ∷ []) = err (Error.unexpected Error.envelope_truncated 2 1)
unmarshal (h ∷ l ∷ rest) =
    if ltb l 128
    then if ltb (length (h ∷ l ∷ rest)) (2 + l)
      then err (Error.unexpected Error.frame_truncated (2 + l) (length (h ∷ l ∷ rest)))
      else ok (record { envelope = decode_head h; bytes = take l rest }, drop l rest)
    else unmarshal_long (decode_head h) (bit_and l 0x7f) (h ∷ l ∷ rest)
