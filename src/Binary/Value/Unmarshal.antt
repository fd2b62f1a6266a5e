-- ===== src/Binary/Value/Unmarshal.antt =====
-- `Unmarshal` on any input: what each branch returns.
use native.Mathlib.Nat.{pow-le-pow_right}
use net_mapper.Prelude.{Bool-cases, inl, inr, bit_and}
use net_mapper.Prelude.{ℕ, suc, ◌+◌, ◌^◌, ◌≤◌, ◌<◌, ◌≡◌, ◌≢◌, ap, ◌∙◌, arith}
use net_mapper.Prelude.{[], ◌∷◌, ◌++◌, Bytes, length, All, ok, err, panicked, length-append, ltb}
use net_mapper.Prelude.{take, drop, take_append, drop_append, if◌then◌else◌}
use net_mapper.Prelude.Bits.{bit_and-7f}
use net_mapper.Binary.Error
use net_mapper.Binary.Error.{Error}
use net_mapper.Binary.Value.{
  Envelope, decode_head, read_length, split_frame, unmarshal_long, unmarshal,
}
use net_mapper.Binary.Value.Length.{
  rev_onto, IsByte, le_value, le_value-lt, read_length-le_value, length-rev_onto, drop-rev_onto,
  rev_onto-cases,
}

-- A short frame is taken apart whatever follows it.
pub unmarshal_short :
    (h : ℕ) (body rest : Bytes)
    → length body < 128
    → unmarshal (h ∷ length body ∷ (body ++ rest))
      ≡ ok (record { envelope = decode_head h; bytes = body }, rest)
unfolding unmarshal
unmarshal_short h body rest short =
    ground (arith, take_append body rest, drop_append body rest, length-append body rest)

module _ (e : Envelope) (h l : ℕ) (r t : Bytes) (bytes : All IsByte r) where
  abbrev frame : Bytes
  frame = h ∷ l ∷ rev_onto r t

  read_field : length r ≤ 8 → read_length (length r) 0 (1 + length r) frame 0 ≡ ok (le_value r)
  read_field few =
      let e0 : 1 + length r ≡ 1 + 0 + length r = omega arith in
      rw e0
        (read_length-le_value r t h l 0 0 (omega arith) bytes (omega arith) ∙ ap ok (omega arith))

  length-frame : length frame ≡ 2 + length r + length t
  length-frame = omega (arith, length-rev_onto r t)

  drop-frame : (k : ℕ) → drop (2 + length r + k) frame ≡ drop k t
  drop-frame k =
      let e2 : 2 + length r + k ≡ suc (suc (length r + k)) = omega arith in
      rw e2 (drop-rev_onto r t k)

  split-frame :
      le_value r < 2 ^ 56
      → length r ≤ 7
      → split_frame e frame (2 + length r) (2 + length r + le_value r)
        ≡ ok (record { envelope = e; bytes = take (le_value r) t }, drop (le_value r) t)
  unfolding split_frame
  split-frame small few = ground (arith, drop-frame 0, drop-frame (le_value r))

  field-lt : length r ≤ 7 → le_value r < 2 ^ 56
  field-lt few =
      let bound = pow-le-pow_right {n = 256} (omega arith) {i = length r} {j = 7} few in
      omega (arith, le_value-lt r bytes)

  -- A length field of at most seven bytes: the frame is cut off where the field says.
  long_few :
      length r ≤ 7
      → unmarshal_long e (length r) frame ≡ (
          if ltb (length t) (le_value r)
          then err (Error.unexpected Error.frame_long_truncated (2 + le_value r) (length frame))
          else ok (record { envelope = e; bytes = take (le_value r) t }, drop (le_value r) t))
  unfolding unmarshal_long
  long_few few =
      let small = field-lt few in
      rw (read_field (omega arith)) (ground (arith, length-frame, split-frame small few))

  -- A field of eight bytes from 2 ^ 63 on is a negative int, which passes the test of the length.
  long_eight : length r ≡ 8 → 2 ^ 63 ≤ le_value r → unmarshal_long e (length r) frame ≡ panicked
  unfolding unmarshal_long split_frame
  long_eight eight big =
      let bound : le_value r < 2 ^ 64 = rw eight at (le_value-lt r bytes) in
      rw (read_field (omega arith)) (ground (arith, length-frame))

-- A long frame whose length field has at most seven bytes is either refused as truncated or split
-- just behind the number of bytes that the field states, most significant byte first.
pub unmarshal_field :
    (h : ℕ) (r t : Bytes)
    → All IsByte r
    → length r ≤ 7
    → unmarshal (h ∷ (0x80 + length r) ∷ rev_onto r t) ≡ (
        if ltb (length t) (le_value r)
        then err
            (Error.unexpected Error.frame_long_truncated (2 + le_value r) (2 + length r + length t))
        else ok
            (record { envelope = decode_head h; bytes = take (le_value r) t }, drop (le_value r) t))
unfolding unmarshal
unmarshal_field h r t bytes few = ground (
  arith,
  bit_and-7f (0x80 + length r),
  long_few (decode_head h) h (0x80 + length r) r t bytes few,
  length-frame (decode_head h) h (0x80 + length r) r t bytes,
)

pub whole_frame :
    (h : ℕ) (r body rest : Bytes)
    → All IsByte r
    → length r ≤ 7
    → le_value r ≡ length body
    → unmarshal (h ∷ (0x80 + length r) ∷ rev_onto r (body ++ rest))
      ≡ ok (record { envelope = decode_head h; bytes = body }, rest)
whole_frame h r body rest bytes few exact =
    unmarshal_field h r (body ++ rest) bytes few
    ∙ ground (arith, take_append body rest, drop_append body rest, length-append body rest)

-- Unmarshal panics on eight length bytes that state 2 ^ 63 or more, whatever follows.
pub unmarshal-panicked :
    (h : ℕ) (r t : Bytes)
    → All IsByte r
    → length r ≡ 8
    → 2 ^ 63 ≤ le_value r
    → unmarshal (h ∷ 0x88 ∷ rev_onto r t) ≡ panicked
unfolding unmarshal
unmarshal-panicked h r t bytes eight big =
    let e : Envelope = decode_head h in
    let p : unmarshal_long e 8 (h ∷ 0x88 ∷ rev_onto r t) ≡ panicked =
      rw eight at (long_eight e h 0x88 r t bytes eight big) in
    p

long-ne-panicked :
    (e : Envelope) (h l count : ℕ) (rest : Bytes)
    → count ≤ 7
    → All IsByte rest
    → unmarshal_long e count (h ∷ l ∷ rest) ≢ panicked
long-ne-panicked e h l count rest few bytes = elim (Bool-cases (ltb (length rest) count)) [
  | inl short ↦ unfold unmarshal_long in ground arith
  | inr long ↦
      let (r, t, same, size, hr) = rev_onto-cases count [] rest (ground arith) tt bytes in
      let size' : count ≡ length r = omega arith in
      rw (size', same) (ground (arith, long_few e h l r t hr (omega arith)))
]

-- Unmarshal returns a frame or an error, and does not panic, on every sequence of at least two
-- bytes whose second byte is below 0x88, so announces at most seven length bytes.
pub unmarshal-ne-panicked :
    (h l : ℕ) (rest : Bytes)
    → All IsByte (h ∷ l ∷ rest)
    → l < 0x88
    → unmarshal (h ∷ l ∷ rest) ≢ panicked
unfolding unmarshal
unmarshal-ne-panicked h l rest (hh, (hl, hr)) few = ground (
  arith,
  bit_and-7f l,
  λ (p : bit_and l 0x7f ≤ 7). long-ne-panicked (decode_head h) h l (bit_and l 0x7f) rest p hr,
)
