-- ===== src/Reflect.antt =====
-- pkg/asn1/asn1reflect: Go values of any type are packed and unpacked by the shape of their type.
-- The package asks `reflect` for the type of a value; here the shape of the type is given, and the values
-- of a shape are a type of their own. The caches keep what the functions below compute again.
pub mod Encoding
pub mod Unpack
mod Tests
use net_mapper.Prelude.{
  ℕ, zero, suc, ◌+◌, Bool, true, false, not, List, [], ◌∷◌, ◌++◌, Option, none, some, Bytes, ◌==◌,
  if◌then◌else◌, length, Outcome, ok, err, panicked, ◌>>=◌,
}
use net_mapper.Binary.Error
use net_mapper.Binary.Error.{Error}
use net_mapper.Binary.Value.{Envelope, Value, marshal, unmarshal}
use net_mapper.Binary.Parameters.{Parameters, validate, update}
use net_mapper.Binary.Parameters.Parse.{parse_parameters}
use net_mapper.Binary.Interface.{Packed, Packer, Unpacker, Transformer}
use net_mapper.Go.Integer.{pack_integer, unpack_integer, get_int, set_int}
use net_mapper.Go.Text.{Text, pack_text, unpack_text}

-- `own` is a type with methods of its own on its pointer: its zero value, the methods, and what the handler of
-- its kind does instead. `int` has its size in bits. All fields are exported. A field
-- stands with the text of its tag. In `envelope_struct` the first field is an Envelope, with the
-- text of its tag.
mutual
  pub data Shape : Type 1 where
    boolean : Shape
    int : ℕ → Shape
    duration : Shape
    text : Shape
    own : (A : Type 0) → A → Transformer A → Transformer A → Shape
    pointer : Shape → Shape
    slice : Shape → Shape
    byte_slice : Shape
    struct : Fields → Shape
    envelope_struct : Bytes → Fields → Shape
    unsupported : Shape

  pub data Fields : Type 1 where
    end : Fields
    field : Bytes → Shape → Fields → Fields

-- The Go values of a shape; an int is its 64-bit pattern.
abbrev mutual
  pub ValueOf : Shape → Type 0
  ValueOf boolean = Bool
  ValueOf (int bits) = ℕ
  ValueOf duration = ℕ
  ValueOf text = Bytes
  ValueOf (own A z t k) = A
  ValueOf (pointer s) = Option (ValueOf s)
  ValueOf (slice s) = List (ValueOf s)
  ValueOf byte_slice = Bytes
  ValueOf (struct fs) = FieldsOf fs
  ValueOf (envelope_struct p fs) = Envelope × FieldsOf fs
  ValueOf unsupported = Unit {0}

  pub FieldsOf : Fields → Type 0
  FieldsOf end = Unit {0}
  FieldsOf (field p s fs) = ValueOf s × FieldsOf fs

abbrev pub no_envelope : Envelope
no_envelope = record { class = 0; tag = 0 }

-- `reflect.New(t).Elem()`
abbrev mutual
  pub zero_of : (s : Shape) → ValueOf s
  zero_of boolean = false
  zero_of (int bits) = 0
  zero_of duration = 0
  zero_of text = []
  zero_of (own A z t k) = z
  zero_of (pointer s) = none
  zero_of (slice s) = []
  zero_of byte_slice = []
  zero_of (struct fs) = zeros_of fs
  zero_of (envelope_struct p fs) = (no_envelope, zeros_of fs)
  zero_of unsupported = tt

  pub zeros_of : (fs : Fields) → FieldsOf fs
  zeros_of end = tt
  zeros_of (field p s fs) = (zero_of s, zeros_of fs)

unfoldable pub marshal_packed : Packed → Outcome Error Bytes
marshal_packed packed = packed >>= λ (e, bytes). marshal (record { envelope = e; bytes = bytes })

unfoldable pub pack_boolean : Bool → Packed
pack_boolean v = ok (record { class = 0; tag = 1 }, (if v then 1 else 0) ∷ [])

unfoldable pub pack_string : Bytes → Option Parameters → Packed
pack_string v params =
    pack_text (record { envelope = record { class = 0; tag = 12 }; elem = v }) params

-- Every element is packed with the parameters of the slice.
unfoldable pub pack_slice :
    {A : Type 0} → (A → Packer) → List A → Option Parameters → Outcome Error Bytes
pack_slice pack [] params = ok []
pack_slice pack (v ∷ vs) params = marshal_packed (pack v params) >>= λ chunk.
    pack_slice pack vs params >>= λ rest. ok (chunk ++ rest)

-- `fieldHelperFor`: a struct has fields, and all their tags are parsed first.
unfoldable pub check_tags : Fields → Outcome Error (Unit {0})
check_tags end = ok tt
check_tags (field p s fs) = parse_parameters p >>= λ _. check_tags fs

unfoldable pub check_struct : Fields → Outcome Error (Unit {0})
unfolding check_tags
check_struct end = err Error.no_fields
check_struct (field p s fs) = check_tags (field p s fs)

-- Methods are looked for on a value and on a pointer to it; behind a second pointer the handler of the kind
-- is taken.
abbrev pub methods_at : {A : Type 0} → ℕ → Transformer A → Transformer A → Transformer A
methods_at zero t k = t
methods_at (suc zero) t k = t
methods_at (suc (suc n)) t k = k

-- A nil pointer to a type with methods is a packer, whose call dereferences it.
abbrev pub pack_nil : ℕ → Shape → Packed
pack_nil zero (own A z t k) = panicked
pack_nil _ _ = err Error.nil_pointer

-- The number is that of the pointers that have been followed to the value.
unfoldable mutual
  pub pack : ℕ → (s : Shape) → ValueOf s → Packer
  pack n boolean v params = pack_boolean v
  pack n (int bits) v params = ok (pack_integer (set_int v))
  pack n duration v params = err Error.unsupported_type
  pack n text v params = pack_string v params
  pack n (own A z t k) v params = (methods_at n t k).pack_asn1 v params
  pack n (pointer s) none params = pack_nil n s
  pack n (pointer s) (some v) params = pack (suc n) s v params
  pack n (slice s) vs params =
      pack_slice (pack 0 s) vs params >>= λ bytes. ok (record { class = 0; tag = 0x10 }, bytes)
  pack n byte_slice v params = err Error.unsupported_type
  pack n (struct fs) vs params =
      check_struct fs >>= λ _. pack_fields fs vs >>= λ bytes. ok (update params no_envelope, bytes)
  pack n (envelope_struct p fs) (e, vs) params = parse_parameters p >>= λ _.
      check_tags fs >>= λ _. pack_fields fs vs >>= λ bytes. ok (update params e, bytes)
  pack n unsupported v params = err Error.unsupported_type

  pub pack_fields : (fs : Fields) → FieldsOf fs → Outcome Error Bytes
  pack_fields end vs = ok []
  pack_fields (field p s fs) (v, vs) = parse_parameters p >>= λ params.
      marshal_packed (pack 0 s v (some params)) >>= λ chunk.
      pack_fields fs vs >>= λ rest. ok (chunk ++ rest)

unfoldable pub unpack_boolean : Envelope → Bytes → Outcome Error Bool
unpack_boolean e [] = err (Error.unexpected Error.boolean_value 1 0)
unpack_boolean e (b ∷ []) =
    if not (e.tag == 1)
    then err (Error.unexpected Error.unexpected_tag 1 e.tag)
    else ok (not (b == 0))
unpack_boolean e (b ∷ c ∷ bs) = err (Error.unexpected Error.boolean_value 1 (length (b ∷ c ∷ bs)))

unfoldable pub unpack_int : ℕ → Envelope → Bytes → Outcome Error ℕ
unpack_int bits e bytes = unpack_integer e bytes >>= get_int bits

unfoldable pub unpack_string : Envelope → Bytes → Outcome Error Bytes
unpack_string e bytes = unpack_text (record { envelope = e; elem = [] }) e bytes >>= λ v. ok v.elem

unfoldable pub unpack_byte_slice : Envelope → Bytes → Outcome Error Bytes
unpack_byte_slice e bytes =
    if not (e.tag == 0x10)
    then err (Error.unexpected Error.unexpected_tag 4 e.tag)
    else err Error.unsupported_type

-- The loop of a slice, on fuel: each round takes a marshal_packed off the bytes.
unfoldable pub unpack_slice :
    {A : Type 0}
    → (Envelope → Bytes → Outcome Error A)
    → ℕ
    → List A
    → Bytes
    → Outcome Error (List A)
unpack_slice unpack fuel vs [] = ok vs
unpack_slice unpack zero vs (b ∷ bs) = panicked
unpack_slice unpack (suc fuel) vs (b ∷ bs) = unmarshal (b ∷ bs) >>= λ (raw, tail).
    unpack raw.envelope raw.bytes >>= λ v. unpack_slice unpack fuel (vs ++ v ∷ []) tail

-- `getUnpackerForReflectedValue`, which fails before an envelope is looked at.
unfoldable pub has_unpacker : Shape → Outcome Error (Unit {0})
has_unpacker unsupported = err Error.unsupported_type
has_unpacker (pointer s) = has_unpacker s
has_unpacker _ = ok tt

abbrev pub count_fields : Fields → ℕ
count_fields end = 0
count_fields (field p s fs) = suc (count_fields fs)

abbrev pub target_of : (s : Shape) → Option (ValueOf s) → ValueOf s
target_of s none = zero_of s
target_of s (some v) = v

-- The value is what the target holds before. `all` is the number of fields, `i` that of those behind.
unfoldable mutual
  pub unpack : ℕ → (s : Shape) → ValueOf s → Unpacker (ValueOf s)
  unpack n boolean v e bytes = unpack_boolean e bytes
  unpack n (int bits) v e bytes = unpack_int bits e bytes
  unpack n duration v e bytes = err Error.unsupported_type
  unpack n text v e bytes = unpack_string e bytes
  unpack n (own A z t k) v e bytes = (methods_at n t k).unpack_asn1 v e bytes
  unpack n (pointer s) v e bytes = unpack (suc n) s (target_of s v) e bytes >>= λ w. ok (some w)
  unpack n (slice s) vs e bytes =
      unpack_slice (λ e' bytes'. has_unpacker s >>= λ _. unpack 0 s (zero_of s) e' bytes')
        (length bytes) vs bytes
  unpack n byte_slice v e bytes = unpack_byte_slice e bytes
  unpack n (struct fs) vs e bytes =
      check_struct fs >>= λ _. unpack_fields fs (count_fields fs) 0 vs bytes
  unpack n (envelope_struct p fs) (_, vs) e bytes = parse_parameters p >>= λ params.
      check_tags fs >>= λ _. validate (some params) e >>= λ _.
      unpack_fields fs (count_fields fs + 1) 1 vs bytes >>= λ ws. ok (e, ws)
  unpack n unsupported v e bytes = err Error.unsupported_type

  pub unpack_fields : (fs : Fields) → ℕ → ℕ → FieldsOf fs → Bytes → Outcome Error (FieldsOf fs)
  unpack_fields end all i vs [] = ok tt
  unpack_fields end all i vs (b ∷ bs) = err (Error.unexpected Error.too_many_elements all (i + 1))
  unpack_fields (field p s fs) all i vs [] = err (Error.unexpected Error.too_few_elements all i)
  unpack_fields (field p s fs) all i (v, vs) (b ∷ bs) = unmarshal (b ∷ bs) >>= λ (raw, tail).
      parse_parameters p >>= λ params. has_unpacker s >>= λ _.
      validate (some params) raw.envelope >>= λ _. unpack 0 s v raw.envelope raw.bytes >>= λ w.
      unpack_fields fs all (i + 1) vs tail >>= λ ws. ok (w, ws)

-- `getUnpackerFor`: a target is a pointer, since nothing else can be set. A nil pointer would have to be set.
unfoldable pub unpack_target : (s : Shape) → ValueOf s → Unpacker (ValueOf s)
unfolding unpack
unpack_target (pointer s) none e bytes = panicked
unpack_target (pointer s) (some v) e bytes = unpack 1 s v e bytes >>= λ w. ok (some w)
unpack_target _ v e bytes = err Error.not_settable
