-- ===== src/Binary/Value/Marshal.antt =====
-- `Marshal`: what the long form writes, and where it stops.
use net_mapper.Prelude.{ℕ, zero, suc, ◌+◌, ◌*◌, ◌/◌, ◌%◌, ◌≤◌, ◌<◌, ◌≡◌, refl, arith}
use net_mapper.Prelude.{[], ◌∷◌, length, ok, panicked, bit_or}
use net_mapper.Prelude.Bits.{bit_and-ff, bit_and_3f, all_below, agree_byte}
use net_mapper.Binary.Value.{Value, Envelope, encode_head, decode_head, byte_count, encoded_length}
use net_mapper.Binary.Value.{write_length, marshal, empty_length}
use net_mapper.Binary.Value.Length.{le_digits, rev_onto}

pub byte_count_lem : (n : ℕ) → (256 * byte_count n < n + 256) × (n ≤ 256 * byte_count n)
unfolding byte_count
byte_count_lem n = ground (arith, bit_and-ff n)

-- For one to five bytes the array of six holds the length.
pub encoded_length-le_digits :
    (k n : ℕ)
    → 1 ≤ k
    → k ≤ 5
    → byte_count n ≡ k
    → encoded_length n ≡ ok ((0x80 + k) ∷ rev_onto (le_digits n 0 k) [])
unfolding encoded_length
encoded_length-le_digits zero n lo hi e = absurd (omega arith)
encoded_length-le_digits (suc zero) n lo hi e = rw e
encoded_length-le_digits (suc (suc zero)) n lo hi e = rw e
encoded_length-le_digits (suc (suc (suc zero))) n lo hi e = rw e
encoded_length-le_digits (suc (suc (suc (suc zero)))) n lo hi e = rw e
encoded_length-le_digits (suc (suc (suc (suc (suc zero))))) n lo hi e = rw e
encoded_length-le_digits (suc (suc (suc (suc (suc (suc k)))))) n lo hi e = absurd (omega arith)

-- With six or more the first write is out of the array.
write_length-panicked :
    (count n : ℕ) → 6 ≤ count → write_length count 0 count n (empty_length count) ≡ panicked
unfolding write_length
write_length-panicked zero n many = absurd (omega arith)
write_length-panicked (suc count) n many = ground arith

-- Marshal panics for a content of more than 1280 bytes, whose length does not fit its array of
-- six.
pub marshal_too_long : (v : Value) → 1280 < length v.bytes → marshal v ≡ panicked
unfolding marshal encoded_length
marshal_too_long v long = ground (
  arith,
  byte_count_lem (length v.bytes),
  write_length-panicked (byte_count (length v.bytes)) (length v.bytes),
)

head_table : (x : ℕ) → x < 256 → bit_or (x / 64 * 64) (x % 64) ≡ x
unfolding all_below
head_table = agree_byte (λ x. bit_or (x / 64 * 64) (x % 64)) (λ x. x) refl

pub encode_head_lem :
    (e : Envelope) → e.class < 4 → e.tag < 64 → encode_head e ≡ e.class * 64 + e.tag
unfolding encode_head
encode_head_lem e hc ht =
    let q : (e.class * 64 + e.tag) / 64 ≡ e.class = omega arith in
    let m : (e.class * 64 + e.tag) % 64 ≡ e.tag = omega arith in
    let whole = rw (q, m) at (head_table (e.class * 64 + e.tag) (omega arith)) in
    ground (arith, bit_and_3f e.tag (omega arith), whole)

-- Class and tag survive the first byte.
pub decode_head-encode_head :
    (e : Envelope) → e.class < 4 → e.tag < 64 → decode_head (encode_head e) ≡ e
unfolding decode_head
decode_head-encode_head e hc ht =
    ground (arith, encode_head_lem e hc ht, bit_and_3f (e.class * 64 + e.tag) (omega arith))
