-- ===== src/Go/Text/RoundTrip.antt =====
-- `UnpackAsn1` after `PackAsn1` of string.go.
use net_mapper.Prelude.{
  ℕ, ◌+◌, ◌*◌, ◌/◌, ◌%◌, ◌^◌, ◌≡◌, refl, ap, sym, arith, Option, List, [], ◌∷◌, map,
}
use net_mapper.Prelude.{
  true, ◌==◌, Bytes, All, length, ok, err, ok_injective, Bool-cases, inl, inr, >>=-eq-ok, ◌>>=◌,
}
use net_mapper.Binary.Value.{Envelope}
use net_mapper.Binary.Parameters.{Parameters, update}
use net_mapper.Binary.Charset.{Charset, validate_bytes, printable_string, ia5_string}
use net_mapper.Binary.Error.{cannot_pack}
use net_mapper.Binary.Interface.{Packed}
use net_mapper.Go.Text.{Text, to_bmp, of_bmp, pack_as, pack_text, unpack_text}
use net_mapper.Go.Text.Utf8.{IsBmp, runes, from_runes, runes-from_runes}

-- Two bytes hold a rune up to 0xFFFF; of a larger one the upper bits are lost.
pub of_bmp-to_bmp : (rs : List ℕ) → of_bmp (to_bmp rs) ≡ map (λ r. r % 2 ^ 16) rs
unfolding of_bmp to_bmp
of_bmp-to_bmp [] = refl
of_bmp-to_bmp (r ∷ rs) =
    let e : (r / 2 ^ 8 % 256 * 2 ^ 8 % 2 ^ 16 + r % 256) % 2 ^ 16 ≡ r % 2 ^ 16 = omega arith in
    rw (e, of_bmp-to_bmp rs) refl

even-to_bmp : (rs : List ℕ) → length (to_bmp rs) % 2 ≡ 0
unfolding to_bmp
even-to_bmp [] = refl
even-to_bmp (r ∷ rs) = omega (arith, even-to_bmp rs)

map-small : (rs : List ℕ) → All IsBmp rs → map (λ r. r % 2 ^ 16) rs ≡ rs
map-small [] h = refl
map-small (r ∷ rs) (hr, h) = let e : r % 2 ^ 16 ≡ r = omega arith in rw (e, map-small rs h) refl

-- A string of code points of the Basic Multilingual Plane, none of them a surrogate.
pub record IsBmpText (elem : Bytes) : Type 0 where
  pub code_points : List ℕ
  pub in_plane : All IsBmp code_points
  pub written : elem ≡ from_runes code_points

bmp_trip : (elem : Bytes) → IsBmpText elem → from_runes (of_bmp (to_bmp (runes elem))) ≡ elem
bmp_trip elem h =
    rw
      (
        h.written,
        runes-from_runes h.code_points h.in_plane,
        of_bmp-to_bmp h.code_points,
        map-small h.code_points h.in_plane,
      )
      refl

-- What `pack_as` has packed, and under which tag.
data IsPacked (elem bytes : Bytes) (e : Envelope) : Type 0 where
  as_utf8 : e.tag ≡ 12 → bytes ≡ elem → IsPacked elem bytes e
  as_bmp : e.tag ≡ 30 → bytes ≡ to_bmp (runes elem) → IsPacked elem bytes e
  as_printable :
      e.tag ≡ 19
      → bytes ≡ elem
      → validate_bytes printable_string elem ≡ ok tt
      → IsPacked elem bytes e
  as_ia5 :
      e.tag ≡ 22 → bytes ≡ elem → validate_bytes ia5_string elem ≡ ok tt → IsPacked elem bytes e

pack_validated :
    (c : Charset) (elem bytes : Bytes) (e e' : Envelope)
    → ◌>>=◌ {B = Envelope × Bytes} (validate_bytes c elem) (λ _. ok (e, elem)) ≡ ok (e', bytes)
    → (validate_bytes c elem ≡ ok tt) × (e ≡ e') × (bytes ≡ elem)
pack_validated c elem bytes e e' h =
    let (u, valid, same) =
      >>=-eq-ok {B = Envelope × Bytes} (validate_bytes c elem) (λ _. ok (e, elem)) h in
    let p = ok_injective same in (valid, ap (λ q. q.0) p, sym (ap (λ q. q.1) p))

tag_of : (w e : Envelope) (k : ℕ) → (w.tag == k) ≡ true → w ≡ e → e.tag ≡ k
tag_of w e k h same = let t : w.tag ≡ e.tag = ap (λ x. x.tag) same in ground arith

pack_as-IsPacked :
    (w e : Envelope) (elem bytes : Bytes) → pack_as w elem ≡ ok (e, bytes) → IsPacked elem bytes e
unfolding pack_as
pack_as-IsPacked w e elem bytes h = elim (Bool-cases (w.tag == 12)) [
  | inl is ↦
      let p = ok_injective (rw (is, pack_as) at h) in
      as_utf8 (tag_of w e 12 is (ap (λ q. q.0) p)) (sym (ap (λ q. q.1) p))
  | inr not_12 ↦ elim (Bool-cases (w.tag == 30)) [
    | inl is ↦
        let p = ok_injective (rw (not_12, is, pack_as) at h) in
        as_bmp (tag_of w e 30 is (ap (λ q. q.0) p)) (sym (ap (λ q. q.1) p))
    | inr not_30 ↦ elim (Bool-cases (w.tag == 19)) [
      | inl is ↦
          let (valid, p, q) =
            pack_validated printable_string elem bytes w e
              (rw (not_12, not_30, is, pack_as) at h) in
          as_printable (tag_of w e 19 is p) q valid
      | inr not_19 ↦ elim (Bool-cases (w.tag == 22)) [
        | inl is ↦
            let (valid, p, q) =
              pack_validated ia5_string elem bytes w e
                (rw (not_12, not_30, not_19, is, pack_as) at h) in
            as_ia5 (tag_of w e 22 is p) q valid
        | inr not_22 ↦ absurd (no_pack (rw (not_12, not_30, not_19, not_22, pack_as) at h))
      ]
    ]
  ]
]
  where
    no_pack : ◌≡◌ {A = Packed} (err cannot_pack) (ok (e, bytes)) → ⊥
    no_pack x = cc

-- UnpackAsn1 of a String gives back the text that PackAsn1 packed, under each tag that PackAsn1
-- has; under BMPString for a text that is UTF-8 of code points of the Basic Multilingual Plane
-- other than surrogates.
pub unpack_text-pack_text :
    (v target : Text) (params : Option Parameters) (e : Envelope) (bytes : Bytes)
    → pack_text v params ≡ ok (e, bytes)
    → (e.tag ≡ 30 → IsBmpText v.elem)
    → unpack_text target e bytes ≡ ok (record target { elem = v.elem })
unfolding pack_text unpack_text
unpack_text-pack_text v target params e bytes h bmp =
    elim (pack_as-IsPacked (update params v.envelope) e v.elem bytes h) [
      | as_utf8 tag same ↦ ground (arith, same)
      | as_bmp tag same ↦
          rw (tag, same) (ground (arith, even-to_bmp (runes v.elem), bmp_trip v.elem (bmp tag)))
      | as_printable tag same valid ↦ rw (tag, same, valid) refl
      | as_ia5 tag same valid ↦ rw (tag, same, valid) refl
    ]
