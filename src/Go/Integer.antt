-- ===== src/Go/Integer.antt =====
-- pkg/asn1/asn1go/integer.go. An `int64` is its 64-bit pattern; one from 2 ^ 63 on is negative.
pub mod Read
pub mod Write
pub mod RoundTrip
mod Tests
use net_mapper.Prelude.{
  ℕ, zero, suc, ◌+◌, ◌-◌, ◌*◌, ◌/◌, ◌%◌, ◌^◌, bit_and, Bool, true, false, not, ◌&&◌, ◌||◌,
}
use net_mapper.Prelude.{
  [], ◌∷◌, Bytes, ltb, leb, ◌==◌, if◌then◌else◌, length, Outcome, ok, err, panicked, ◌>>=◌,
}
use net_mapper.Binary.Error
use net_mapper.Binary.Error.{Error}
use net_mapper.Binary.Value.{Envelope}

unfoldable pub pack_integer : Bytes → Envelope × Bytes
pack_integer v = (record { class = 0; tag = 2 }, v)

-- The tag is looked at in the universal class alone.
unfoldable pub unpack_integer : Envelope → Bytes → Outcome Error Bytes
unpack_integer e bytes =
    if e.class == 0 && not (e.tag == 2)
    then err (Error.unexpected Error.unexpected_tag 2 e.tag)
    else ok bytes

unfoldable pub bit_size : Bytes → ℕ
bit_size [] = 8
bit_size (b ∷ bs) =
    let size = length (b ∷ bs) in
    (if b == 0 then size - 1 else if b == 0xff then size - 1 else size) * 8

abbrev pub is_negative : ℕ → Bool
is_negative w = leb (2 ^ 63) w

-- `w << s` and `w >> s` on an `int64`.
abbrev pub shift_left : ℕ → ℕ → ℕ
shift_left w s = w * 2 ^ s % 2 ^ 64

abbrev pub shift_right : ℕ → ℕ → ℕ
shift_right w s = if is_negative w then w / 2 ^ s + (2 ^ 64 - 2 ^ (64 - s)) else w / 2 ^ s

-- The loop of `GetInt`: the number so far, and the bits read.
unfoldable pub read_bytes : ℕ → Bool → ℕ → ℕ → Bytes → Outcome Error (ℕ × ℕ)
read_bytes bits negate n bits_read [] = ok (n, bits_read)
read_bytes bits negate n bits_read (b ∷ bs) =
    let rest = read_bytes bits negate ((shift_left n 8 + b) % 2 ^ 64) (bits_read + 8) bs in
    if leb bits bits_read && (negate && not (b == 0xff) || not negate && not (b == 0))
    then err Error.integer_too_large
    else rest

-- A shift by a negative count panics.
unfoldable pub extend_sign : Bool → ℕ × ℕ → Outcome Error ℕ
extend_sign negate (n, bits_read) =
    if negate
    then if ltb 64 bits_read
      then panicked
      else ok (shift_right (shift_left n (64 - bits_read)) (64 - bits_read))
    else ok n

unfoldable pub get_int : ℕ → Bytes → Outcome Error ℕ
get_int bits [] =
    if ltb 64 bits
    then err Error.too_many_bits
    else if not (bits % 8 == 0)
    then err Error.bits_not_multiple
    else ok 0
get_int bits (b ∷ bs) =
    let negate = not (bit_and b 0x80 == 0) in
    if ltb 64 bits
    then err Error.too_many_bits
    else if not (bits % 8 == 0)
    then err Error.bits_not_multiple
    else read_bytes bits negate 0 0 (b ∷ bs) >>= extend_sign negate

-- `for i := 7; i >= 0; i--`: the bytes are written from the last one on.
unfoldable pub put_bytes : ℕ → ℕ → Bytes → Bytes
put_bytes zero value out = out
put_bytes (suc rounds) value out =
    put_bytes rounds (shift_right value 8) (bit_and value 0xff % 256 ∷ out)

unfoldable pub trim_front : ℕ → Bytes → Bytes
trim_front trim [] = []
trim_front trim (b ∷ []) = b ∷ []
trim_front trim (b ∷ c ∷ bs) =
    if b == trim && bit_and c 0x80 == bit_and trim 0x80
    then trim_front trim (c ∷ bs)
    else b ∷ c ∷ bs

unfoldable pub set_int : ℕ → Bytes
set_int value = trim_front (if is_negative value then 0xff else 0) (put_bytes 8 value [])
