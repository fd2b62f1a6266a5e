-- ===== src/Reflect/Unpack.antt =====
-- `UnpackAsn1` reads every encoding of a value.
use net_mapper.Prelude.{
  ℕ, zero, suc, ◌+◌, ◌≤◌, ◌≡◌, ◌⊎◌, refl, sym, ap, ◌∙◌, arith, inl, inr, Bool, not, List, [], ◌∷◌,
  ◌++◌, append-nil, append_assoc, none, some, Bytes, ◌==◌, length, length-append, Outcome, ok,
  err-ne-ok,
}
use net_mapper.Binary.Value.{Envelope, Value, unmarshal}
use net_mapper.Binary.Value.RoundTrip.{unmarshal-marshal}
use net_mapper.Go.Integer.{unpack_integer}
use net_mapper.Go.Integer.Read.{get_int-signed_value}
use net_mapper.Go.Text.{unpack_text}
use net_mapper.Reflect.{
  Shape, boolean, int, duration, text, own, pointer, slice, byte_slice, struct, envelope_struct,
  unsupported, Fields, end, field, ValueOf, FieldsOf, zero_of, zeros_of, check_tags, check_struct,
  has_unpacker, count_fields, unpack, unpack_fields, unpack_target, unpack_slice, unpack_boolean,
  unpack_int, unpack_string,
}
use net_mapper.Reflect.Encoding.{IsFrame, IsIntContent, AreFrames, Encodes, EncodesFields}

-- `Unmarshal` of a frame and what follows it.
pub frame_read :
    (raw : Value) (chunk rest : Bytes)
    → IsFrame raw chunk
    → unmarshal (chunk ++ rest) ≡ ok (raw, rest)
frame_read raw chunk rest h =
    let both = unmarshal-marshal raw rest h.fits h.not_too_long h.not_256 in rw h.written at both

pub frame_some : (raw : Value) (chunk : Bytes) → IsFrame raw chunk → 1 ≤ length chunk
unfolding unmarshal
frame_some raw [] h = absurd (err-ne-ok _ _ (frame_read raw [] [] h))
frame_some raw (b ∷ bs) h = omega arith

integer_read : (e : Envelope) (bytes : Bytes) → e.tag ≡ 2 → unpack_integer e bytes ≡ ok bytes
unfolding unpack_integer
integer_read e bytes tag = ground arith

int_read :
    (bits v : ℕ) (e : Envelope) (bytes : Bytes)
    → e.tag ≡ 2
    → IsIntContent bits v bytes
    → unpack_int bits e bytes ≡ ok v
unfolding unpack_int
int_read bits v e [] tag h = absurd (omega (arith, h.some_left))
int_read bits v e (b ∷ bs) tag h = rw (integer_read e (b ∷ bs) tag) (
    get_int-signed_value bits b bs h.at_most_64 h.whole_bytes h.not_longer h.are_bytes
    ∙ ap ok (sym h.value))

text_read : (v : Bytes) (e : Envelope) → (e.tag ≡ 4) ⊎ (e.tag ≡ 12) → unpack_string e v ≡ ok v
unfolding unpack_string unpack_text
text_read v e (inl tag) = rw tag refl
text_read v e (inr tag) = rw tag refl

boolean_read :
    (v : Bool) (e : Envelope) (b : ℕ)
    → e.tag ≡ 1
    → not (b == 0) ≡ v
    → unpack_boolean e (b ∷ []) ≡ ok v
unfolding unpack_boolean
boolean_read v e b tag h = rw (tag, h) refl

-- Enough fuel is the number of bytes.
elements_read :
    {A : Type 0} (P : A → Envelope → Bytes → Type 0) (read : Envelope → Bytes → Outcome _ A)
    → ((v : A) (e : Envelope) (bytes : Bytes) → P v e bytes → read e bytes ≡ ok v)
    → (vs before : List A) (fuel : ℕ) (bytes : Bytes) → length bytes ≤ fuel
    → AreFrames P vs bytes
    → unpack_slice read fuel before bytes ≡ ok (before ++ vs)
unfolding unpack_slice
elements_read P read reads [] before fuel bytes enough h = rw (h, append-nil before) refl
elements_read P read reads (v ∷ vs) before fuel bytes enough (raw, [], rest, is, framed, p, more) =
    absurd (omega (arith, frame_some raw [] framed))
elements_read P read reads (v ∷ vs) before zero bytes enough
      (raw, b ∷ bs, rest, is, framed, p, more) =
    absurd (omega (arith, ap length is))
elements_read P read reads (v ∷ vs) before (suc fuel) bytes enough
      (raw, b ∷ bs, rest, is, framed, p, more) =
    rw (is, frame_read raw (b ∷ bs) rest framed, reads v raw.envelope raw.bytes p)
      (elements_read P read reads vs (before ++ v ∷ []) fuel rest
          (omega (arith, ap length is, length-append {0} bs rest)) more
        ∙ ap ok (append_assoc before (v ∷ []) vs))

Encodes-has_unpacker :
    (n : ℕ) (s : Shape) (v : ValueOf s) (e : Envelope) (bytes : Bytes)
    → Encodes n s v e bytes
    → has_unpacker s ≡ ok tt
unfolding has_unpacker
Encodes-has_unpacker n (pointer s) none e bytes h = absurd h
Encodes-has_unpacker n (pointer s) (some v) e bytes h = Encodes-has_unpacker (suc n) s v e bytes h
Encodes-has_unpacker n unsupported v e bytes h = absurd h
Encodes-has_unpacker n boolean v e bytes h = refl
Encodes-has_unpacker n _ v e bytes h = refl

EncodesFields-check_tags :
    (fs : Fields) (vs : FieldsOf fs) (bytes : Bytes)
    → EncodesFields fs vs bytes
    → check_tags fs ≡ ok tt
unfolding check_tags
EncodesFields-check_tags end vs bytes h = refl
EncodesFields-check_tags (field p s fs) (v, vs) bytes
      (raw, chunk, rest, is, framed, allows, here, more) =
    rw allows.1 (EncodesFields-check_tags fs vs rest more)

mutual
  unfolding unpack unpack_fields check_struct

  pub read_encoding :
      (n : ℕ) (s : Shape) (v : ValueOf s) (e : Envelope) (bytes : Bytes)
      → Encodes n s v e bytes
      → unpack n s (zero_of s) e bytes ≡ ok v
  read_encoding n boolean v e bytes (tag, (b, is, h)) = rw is (boolean_read v e b tag h)
  read_encoding n (int bits) v e bytes (tag, h) = int_read bits v e bytes tag h
  read_encoding n duration v e bytes h = absurd h
  read_encoding n text v e bytes (tag, is) = rw is (text_read v e tag)
  read_encoding n (own A z t k) v e bytes h = h z
  read_encoding n (pointer s) none e bytes h = absurd h
  read_encoding n (pointer s) (some v) e bytes h = rw (read_encoding (suc n) s v e bytes h) refl
  read_encoding n (slice s) vs e bytes h =
      elements_read (Encodes 0 s) _
        (λ v e' bytes' here.
          rw (Encodes-has_unpacker 0 s v e' bytes' here) (read_encoding 0 s v e' bytes' here))
        vs [] (length bytes) bytes (omega arith) h
  read_encoding n byte_slice v e bytes h = absurd h
  read_encoding n (struct end) vs e bytes h = absurd h
  read_encoding n (struct (field p s fs)) vs e bytes h =
      rw (EncodesFields-check_tags (field p s fs) vs bytes h)
        (read_fields (field p s fs) (count_fields (field p s fs)) 0 vs bytes h)
  read_encoding n (envelope_struct p fs) (e', vs) e bytes (same, allows, h) =
      rw
        (
          allows.1,
          EncodesFields-check_tags fs vs bytes h,
          allows.2,
          read_fields fs (count_fields fs + 1) 1 vs bytes h,
          same,
        )
        refl
  read_encoding n unsupported v e bytes h = absurd h

  read_fields :
      (fs : Fields) (all i : ℕ) (vs : FieldsOf fs) (bytes : Bytes)
      → EncodesFields fs vs bytes
      → unpack_fields fs all i (zeros_of fs) bytes ≡ ok vs
  read_fields end all i vs bytes h = rw h refl
  read_fields (field p s fs) all i (v, vs) bytes (raw, [], rest, is, framed, allows, here, more) =
      absurd (omega (arith, frame_some raw [] framed))
  read_fields (field p s fs) all i (v, vs) bytes
        (raw, b ∷ bs, rest, is, framed, allows, here, more) =
      rw
        (
          is,
          frame_read raw (b ∷ bs) rest framed,
          allows.1,
          Encodes-has_unpacker 0 s v raw.envelope raw.bytes here,
          allows.2,
          read_encoding 0 s v raw.envelope raw.bytes here,
          read_fields fs all (i + 1) vs rest more,
        )
        refl

-- For each shape that the model has, UnpackAsn1 by reflection into a pointer to the zero value
-- gives the value for every envelope and content that encode it: a boolean in one byte, an int in
-- two's complement of no more bytes than its type has, a string under UTF8String or OctetString,
-- slices and structs as frames one after the other, in the form in which Marshal writes them, each
-- of at most 1280 bytes other than 256 and with an envelope that the tag of its field allows, and
-- for a type with methods of its own what its methods read, or behind a second pointer what the
-- handler of its kind reads.
pub unpack-Encodes :
    (s : Shape) (v : ValueOf s) (e : Envelope) (bytes : Bytes)
    → Encodes 1 s v e bytes
    → unpack_target (pointer s) (some (zero_of s)) e bytes ≡ ok (some v)
unfolding unpack_target
unpack-Encodes s v e bytes h = rw (read_encoding 1 s v e bytes h) refl
