-- ===== src/Snmp/Protocol/Decode.antt =====
-- What `DecodeFrame` makes of the bytes of a message.
use net_mapper.Prelude.{
  ℕ, ◌+◌, ◌≡◌, refl, sym, ap, ◌∙◌, arith, inl, true, false, not, Bool-cases, List, [], ◌∷◌, ◌++◌,
  append-nil, none, some, Bytes, codes, ◌==◌, ==_iff, inr, if◌then◌else◌, Outcome, ok, err, ◌>>=◌,
}
use net_mapper.Binary.Error
use net_mapper.Binary.Error.{Error}
use net_mapper.Binary.Value.{Envelope, Value}
use net_mapper.Binary.Parameters.{validate}
use net_mapper.Binary.Parameters.Parse.{parse_parameters, no_parameters}
use net_mapper.Binary.Codec.{unpack_value}
use net_mapper.Go.Oid.{Oid}
use net_mapper.Reflect.{
  Shape, Fields, field, ValueOf, FieldsOf, zero_of, has_unpacker, check_tags, check_struct, unpack,
  unpack_fields, unpack_target,
}
use net_mapper.Reflect.Encoding.{IsFrame, Allows, AreFrames, Encodes}
use net_mapper.Reflect.Unpack.{frame_read, frame_some, read_encoding}
use net_mapper.Snmp.Protocol.{var_bind, pdu, pointed, decode_frame}
use net_mapper.Snmp.Protocol.Layout.{
  Answer, bound, message_with, framed, IntFrame, IsVariable, AreVariables, IsPdu, IsMessage,
}
use net_mapper.Snmp.Protocol.Laws.{no_tag, octet_string_tag, sequence_tag}

-- One field: its frame, its parameters, its value, and then the fields behind it.
field_step :
    (p : Bytes) (s : Shape) (fs : Fields) (all i : ℕ) (v : ValueOf s) (vs : FieldsOf fs)
    (raw : Value) (chunk rest : Bytes)
    → IsFrame raw chunk
    → unpack_fields (field p s fs) all i (v, vs) (chunk ++ rest) ≡ (
        parse_parameters p >>= λ params. has_unpacker s >>= λ _.
        validate (some params) raw.envelope >>= λ _. unpack 0 s v raw.envelope raw.bytes >>= λ w.
        unpack_fields fs all (i + 1) vs rest >>= λ ws. ok (w, ws))
unfolding unpack_fields
field_step p s fs all i v vs raw [] rest framed = absurd (omega (arith, frame_some raw [] framed))
field_step p s fs all i v vs raw (b ∷ bs) rest framed =
    rw (frame_read raw (b ∷ bs) rest framed) refl

-- A field without a tag.
plain_step :
    (s : Shape) (fs : Fields) (all i : ℕ) (v w : ValueOf s) (vs : FieldsOf fs) (raw : Value)
    (chunk rest : Bytes)
    → IsFrame raw chunk
    → has_unpacker s ≡ ok tt
    → unpack 0 s v raw.envelope raw.bytes ≡ ok w
    → unpack_fields (field [] s fs) all i (v, vs) (chunk ++ rest)
      ≡ (unpack_fields fs all (i + 1) vs rest >>= λ ws. ok (w, ws))
unfolding validate
plain_step s fs all i v w vs raw chunk rest framed has reads =
    field_step [] s fs all i v vs raw chunk rest framed ∙ rw (no_tag, has, reads) refl

int_step :
    (fs : Fields) (all i v : ℕ) (vs : FieldsOf fs) (int : IntFrame v) (rest : Bytes)
    → unpack_fields (field [] (Shape.int 64) fs) all i (0, vs) (int.chunk ++ rest)
      ≡ (unpack_fields fs all (i + 1) vs rest >>= λ ws. ok (v, ws))
unfolding has_unpacker
int_step fs all i v vs int rest =
    plain_step (Shape.int 64) fs all i 0 v vs (framed 2 int.int_bytes) int.chunk rest int.is_frame
      refl (read_encoding 0 (Shape.int 64) v _ int.int_bytes (refl, int.means))

-- A field with a tag that is another one than that of the frame.
tagged_refused :
    (p : Bytes) (t : ℕ) (s : Shape) (fs : Fields) (all i : ℕ) (v : ValueOf s) (vs : FieldsOf fs)
    (raw : Value) (chunk rest : Bytes)
    → IsFrame raw chunk
    → parse_parameters p ≡ ok (record { tag = some t; class = none })
    → has_unpacker s ≡ ok tt
    → (raw.envelope.tag == t) ≡ false
    → unpack_fields (field p s fs) all i (v, vs) (chunk ++ rest)
      ≡ err (Error.unexpected Error.tag_mismatch t raw.envelope.tag)
unfolding validate
tagged_refused p t s fs all i v vs raw chunk rest framed parsed has other =
    field_step p s fs all i v vs raw chunk rest framed ∙ rw (parsed, has, other) refl

tagged_step :
    (p : Bytes) (t : ℕ) (s : Shape) (fs : Fields) (all i : ℕ) (v w : ValueOf s) (vs : FieldsOf fs)
    (raw : Value) (chunk rest : Bytes)
    → IsFrame raw chunk
    → parse_parameters p ≡ ok (record { tag = some t; class = none })
    → has_unpacker s ≡ ok tt
    → (raw.envelope.tag == t) ≡ true
    → unpack 0 s v raw.envelope raw.bytes ≡ ok w
    → unpack_fields (field p s fs) all i (v, vs) (chunk ++ rest)
      ≡ (unpack_fields fs all (i + 1) vs rest >>= λ ws. ok (w, ws))
unfolding validate
tagged_step p t s fs all i v w vs raw chunk rest framed parsed has same reads =
    field_step p s fs all i v vs raw chunk rest framed ∙ rw (parsed, has, same, reads) refl

any_allowed : (e : Envelope) → Allows [] e
unfolding validate
any_allowed e = (no_parameters, no_tag, refl)

variable-Encodes :
    (oid : Oid) (value : Value) (e : Envelope) (content : Bytes)
    → IsVariable oid value content
    → Encodes 0 var_bind (oid, (value, tt)) e content
unfolding unpack_value
variable-Encodes oid value e content h = (
  framed 6 h.arcs,
  h.oid_chunk,
  h.value_chunk,
  h.layout,
  h.oid_frame,
  any_allowed _,
  (λ _. h.oid_read),
  (
    value,
    h.value_chunk,
    [],
    sym (append-nil h.value_chunk),
    h.value_frame,
    any_allowed _,
    (λ _. refl),
    refl,
  ),
)

variables-AreFrames :
    (variables : List (Oid × Value)) (content : Bytes)
    → AreVariables variables content
    → AreFrames (Encodes 0 var_bind) (bound variables) content
variables-AreFrames [] content h = h
variables-AreFrames ((oid, value) ∷ variables) content (raw, chunk, rest, is, framed, here, more) =
    (
      raw,
      chunk,
      rest,
      is,
      framed,
      variable-Encodes oid value raw.envelope raw.bytes here,
      variables-AreFrames variables rest more,
    )

module _ (a : Answer) (list : Envelope) (content : Bytes) (h : IsPdu a list content) where
  abbrev Variables : Fields
  Variables = field (codes "Sequence,Constructed") (Shape.slice var_bind) Fields.end

  abbrev list_result : Outcome Error (FieldsOf Variables)
  list_result = unpack_fields Variables 5 4 ([], tt) (h.list_chunk ++ [])

  list_read : (list.tag == 0x30) ≡ true → list_result ≡ ok (bound a.variables, tt)
  unfolding has_unpacker unpack_fields
  list_read same =
      tagged_step (codes "Sequence,Constructed") 0x30 (Shape.slice var_bind) Fields.end 5 4 []
        (bound a.variables) tt _ h.list_chunk [] h.list_frame sequence_tag refl same
        (read_encoding 0 (Shape.slice var_bind) (bound a.variables) list h.list_bytes
          (variables-AreFrames a.variables h.list_bytes h.listed))

  list_refused :
      (list.tag == 0x30) ≡ false
      → list_result ≡ err (Error.unexpected Error.tag_mismatch 0x30 list.tag)
  unfolding has_unpacker
  list_refused other =
      tagged_refused (codes "Sequence,Constructed") 0x30 (Shape.slice var_bind) Fields.end 5 4 [] tt
        _ h.list_chunk [] h.list_frame sequence_tag refl other

  -- The fields of the PDU, up to the list.
  list_reached :
      unpack_fields
        (field [] (Shape.int 64) (field [] (Shape.int 64) (field [] (Shape.int 64) Variables)))
        5
        1
        (0, (0, (0, ([], tt))))
        content
      ≡ (list_result
          >>= (λ ws. ok (a.error_index, ws))
          >>= (λ ws. ok (a.error_status, ws))
          >>= λ ws. ok (a.request_id, ws))
  list_reached =
      rw
        (
          h.layout
              ∙ ap (λ c. h.request.chunk ++ (h.status.chunk ++ (h.index.chunk ++ c)))
                  (sym (append-nil h.list_chunk)),
          int_step (field [] (Shape.int 64) (field [] (Shape.int 64) Variables)) 5 1 a.request_id
              (0, (0, ([], tt))) h.request
              (h.status.chunk ++ (h.index.chunk ++ (h.list_chunk ++ []))),
          int_step (field [] (Shape.int 64) Variables) 5 2 a.error_status (0, ([], tt)) h.status
              (h.index.chunk ++ (h.list_chunk ++ [])),
          int_step Variables 5 3 a.error_index ([], tt) h.index (h.list_chunk ++ []),
        )
        refl

  pdu_read :
      (list.tag == 0x30) ≡ true
      → unpack 0 pdu (zero_of pdu) a.envelope content
        ≡ ok
            (a.envelope, (a.request_id, (a.error_status, (a.error_index, (bound a.variables, tt)))))
  unfolding unpack check_tags validate
  pdu_read same = rw (no_tag, sequence_tag, list_reached, list_read same) refl

  pdu_refused :
      (list.tag == 0x30) ≡ false
      → unpack 0 pdu (zero_of pdu) a.envelope content
        ≡ err (Error.unexpected Error.tag_mismatch 0x30 list.tag)
  unfolding unpack check_tags validate
  pdu_refused other = rw (no_tag, sequence_tag, list_reached, list_refused other) refl

module _ (a : Answer) (string list : Envelope) (content : Bytes)
    (h : IsMessage a string list content) where
  abbrev After : Fields
  After = field [] pdu Fields.end

  -- The fields of the message, up to the community.
  community_reached :
      unpack_fields
        (field [] (Shape.int 64) (field (codes "OctetString") Shape.text After))
        3
        0
        (0, ([], (zero_of pdu, tt)))
        content
      ≡ (unpack_fields
            (field (codes "OctetString") Shape.text After)
            3
            1
            ([], (zero_of pdu, tt))
            (h.community_chunk ++ (h.pdu_chunk ++ []))
          >>= λ ws. ok (a.version, ws))
  community_reached =
      rw
        (
          h.layout
              ∙ ap (λ c. h.version.chunk ++ (h.community_chunk ++ c))
                  (sym (append-nil h.pdu_chunk)),
          int_step (field (codes "OctetString") Shape.text After) 3 0 a.version
              ([], (zero_of pdu, tt)) h.version (h.community_chunk ++ (h.pdu_chunk ++ [])),
        )
        refl

  community_refused :
      (string.tag == 4) ≡ false
      → unpack_fields
          (field (codes "OctetString") Shape.text After)
          3
          1
          ([], (zero_of pdu, tt))
          (h.community_chunk ++ (h.pdu_chunk ++ []))
        ≡ err (Error.unexpected Error.tag_mismatch 4 string.tag)
  unfolding has_unpacker
  community_refused other =
      tagged_refused (codes "OctetString") 4 Shape.text After 3 1 [] (zero_of pdu, tt) _
        h.community_chunk (h.pdu_chunk ++ []) h.community_frame octet_string_tag refl other

  community_read :
      (string.tag == 4) ≡ true
      → unpack_fields
          (field (codes "OctetString") Shape.text After)
          3
          1
          ([], (zero_of pdu, tt))
          (h.community_chunk ++ (h.pdu_chunk ++ []))
        ≡ (unpack_fields After 3 2 (zero_of pdu, tt) (h.pdu_chunk ++ []) >>= λ ws.
            ok (a.community, ws))
  unfolding has_unpacker
  community_read same =
      tagged_step (codes "OctetString") 4 Shape.text After 3 1 [] a.community (zero_of pdu, tt) _
        h.community_chunk (h.pdu_chunk ++ []) h.community_frame octet_string_tag refl same
        (read_encoding 0 Shape.text a.community string a.community
          (inl ((==_iff string.tag 4).0 same), refl))

  pdu_field_read :
      (list.tag == 0x30) ≡ true
      → unpack_fields After 3 2 (zero_of pdu, tt) (h.pdu_chunk ++ [])
        ≡ ok (
          (a.envelope, (a.request_id, (a.error_status, (a.error_index, (bound a.variables, tt))))),
          tt,
        )
  unfolding has_unpacker unpack_fields
  pdu_field_read same =
      plain_step pdu Fields.end 3 2 (zero_of pdu) _ tt _ h.pdu_chunk [] h.pdu_frame refl
        (pdu_read a list h.pdu_bytes h.has_pdu same)

  pdu_field_refused :
      (list.tag == 0x30) ≡ false
      → unpack_fields After 3 2 (zero_of pdu, tt) (h.pdu_chunk ++ [])
        ≡ err (Error.unexpected Error.tag_mismatch 0x30 list.tag)
  unfolding has_unpacker validate
  pdu_field_refused other =
      field_step [] pdu Fields.end 3 2 (zero_of pdu) tt _ h.pdu_chunk [] h.pdu_frame
      ∙ rw (no_tag, pdu_refused a list h.pdu_bytes h.has_pdu other) refl

-- On a frame that holds the frame of a version, that of a community, and that of a PDU of three
-- ints and a list of variables, each of them an OBJECT IDENTIFIER and a value, DecodeFrame gives
-- the message of these, with the envelope of the PDU, whatever follows the frame, if the community
-- has the tag 4 and the list the tag 0x30; if one of them has another tag, it fails with the error
-- that names both tags, for the community first. Each frame is as Marshal writes it, of at most
-- 1280 bytes of content other than 256, and each int in two's complement of at most eight bytes.
pub decode_frame-IsMessage :
    (a : Answer) (string list : Envelope) (raw : Value) (chunk rest : Bytes)
    → IsFrame raw chunk
    → IsMessage a string list raw.bytes
    → decode_frame (chunk ++ rest) ≡ (
        if not (string.tag == 4)
        then err (Error.unexpected Error.tag_mismatch 4 string.tag)
        else if not (list.tag == 0x30)
        then err (Error.unexpected Error.tag_mismatch 0x30 list.tag)
        else ok (message_with a))
unfolding decode_frame unpack_target unpack check_struct check_tags pointed
decode_frame-IsMessage a string list raw chunk rest framed h = elim (Bool-cases (string.tag == 4)) [
  | inr other ↦
      rw
        (
          frame_read raw chunk rest framed,
          no_tag,
          octet_string_tag,
          community_reached a string list raw.bytes h,
          community_refused a string list raw.bytes h other,
          other,
        )
        refl
  | inl same ↦ elim (Bool-cases (list.tag == 0x30)) [
    | inr other ↦
        rw
          (
            frame_read raw chunk rest framed,
            no_tag,
            octet_string_tag,
            community_reached a string list raw.bytes h,
            community_read a string list raw.bytes h same,
            pdu_field_refused a string list raw.bytes h other,
            same,
            other,
          )
          refl
    | inl listed ↦
        rw
          (
            frame_read raw chunk rest framed,
            no_tag,
            octet_string_tag,
            community_reached a string list raw.bytes h,
            community_read a string list raw.bytes h same,
            pdu_field_read a string list raw.bytes h listed,
            same,
            listed,
          )
          refl
  ]
]
