-- ===== src/Binary/Value/Reader.antt =====
-- `ReadFrom` of value.go: a frame read from an `io.Reader`, which is a parameter. A call of its
-- `Read` with room for `n` bytes gives the reader's next state, the bytes read, and whether there
-- was an error.
use net_mapper.Prelude.{ℕ, ◌+◌, ◌-◌, ◌<◌, ◌≡◌, arith, Bool, true, false, not}
use net_mapper.Prelude.{
  [], ◌∷◌, ◌++◌, length, Bytes, bit_and, ltb, ◌==◌, if◌then◌else◌, get_or, replicate,
}
use net_mapper.Prelude.{Outcome, ok, err, panicked}
use net_mapper.Binary.Error
use net_mapper.Binary.Error.{Error}
use net_mapper.Binary.Value.{Value, Envelope, decode_head, read_length, unmarshal}
use net_mapper.Binary.Value.Unmarshal.{unmarshal_short}

-- The two results of `ReadFrom`, `totalRead` and the error or the value, and the reader after it.
pub record Reading (R : Type 0) : Type 0 where
  pub total_read : ℕ
  pub outcome : Outcome Error Value
  pub reader : R

module _ {R : Type 0} (read : R → ℕ → R × Bytes × Bool) where
  -- The read into `v.Bytes = make([]byte, size)`, whose bytes are added to `total`. The two branches
  -- report a short read by the total and by this read.
  unfoldable pub read_body : R → Envelope → ℕ → ℕ → Bool → Reading R
  read_body r e size total long =
      let (r', body, failed) = read r size in
      let got = length body in
      if failed
      then record { total_read = total + got; outcome = err Error.reader_failed; reader = r' }
      else if not (got == size)
      then record {
        total_read = total + got;
        outcome =
            if long
            then err (Error.unexpected Error.frame_long_truncated size got)
            else err (Error.unexpected Error.frame_truncated size (total + got));
        reader = r';
      }
      else record {
        total_read = total + got;
        outcome = ok (record { envelope = e; bytes = body });
        reader = r';
      }

  -- `int(lengthBytes[int(byteCount)-i]) << (i * 8)` over an array of six, and the body behind it.
  unfoldable pub read_counted : R → Envelope → ℕ → Bytes → ℕ → Reading R
  read_counted r e count field total =
      let array = field ++ replicate (6 - length field) 0 in
      elim (read_length count 0 count array 0) [
        | ok size ↦ read_body r e size total true
        | err x ↦ record { total_read = total; outcome = err x; reader = r }
        | panicked ↦ record { total_read = total; outcome = panicked; reader = r }
      ]

  -- The long form. `totalRead += totalRead` counts the head twice, and the field not at all.
  unfoldable pub read_long : R → Envelope → ℕ → ℕ → Reading R
  unfolding read_counted
  read_long r e count total =
      let (r', field, failed) = read r count in
      if ltb 6 count
      then record { total_read = total; outcome = err Error.invalid_length_encoding; reader = r }
      else if failed
      then record { total_read = total + total; outcome = err Error.reader_failed; reader = r' }
      else if not (length field == count)
      then record {
        total_read = total + total;
        outcome = err (Error.unexpected Error.envelope_long_truncated count (length field));
        reader = r';
      }
      else read_counted r' e count field (total + total)

  unfoldable pub read_from : R → Reading R
  unfolding read_body read_long
  read_from r =
      let (r', head, failed) = read r 2 in
      let got = length head in
      let h = get_or head 0 0 in
      let l = get_or head 1 0 in
      if failed
      then record { total_read = got; outcome = err Error.reader_failed; reader = r' }
      else if not (got == 2)
      then record {
        total_read = got;
        outcome = err (Error.unexpected Error.envelope_truncated 2 got);
        reader = r';
      }
      else if ltb l 128
      then read_body r' (decode_head h) l got false
      else read_long r' (decode_head h) (bit_and l 0x7f) got

  -- On a frame in short form, which the reader delivers in two reads without an error, ReadFrom
  -- returns the value that Unmarshal finds at the start of the same bytes, and counts the bytes of
  -- the frame.
  pub read_from-unmarshal :
      (r r' r'' : R) (h l : ℕ) (body rest : Bytes)
      → read r 2 ≡ (r', h ∷ l ∷ [], false)
      → read r' l ≡ (r'', body, false)
      → length body ≡ l
      → l < 128
      → (v : Value) × (unmarshal (h ∷ l ∷ (body ++ rest)) ≡ ok (v, rest))
        × (read_from r ≡ record { total_read = 2 + l; outcome = ok v; reader = r'' })
  unfolding read_from
  read_from-unmarshal r r' r'' h l body rest first second size short = (
    record { envelope = decode_head h; bytes = body },
    rw (← size) (unmarshal_short h body rest (omega arith)),
    ground arith,
  )

  -- Of a frame whose length field is one byte, delivered without an error, ReadFrom loses the
  -- length: whatever that byte states, it reads nothing behind it and returns a value without
  -- content.
  pub read_from_one :
      (r r' r'' r''' : R) (h n : ℕ)
      → read r 2 ≡ (r', h ∷ 0x81 ∷ [], false)
      → read r' 1 ≡ (r'', n ∷ [], false)
      → read r'' 0 ≡ (r''', [], false)
      → read_from r ≡ record {
        total_read = 4;
        outcome = ok (record { envelope = decode_head h; bytes = [] });
        reader = r''';
      }
  unfolding read_from read_length
  read_from_one r r' r'' r''' h n first second third = ground arith
