-- ===== src/Go/Text/Tests.antt =====
-- Runs of string.go, and its theorem at a concrete input.
use net_mapper.Prelude.{◌≡◌, refl, arith, none, [], ◌∷◌, codes, ok, err}
use net_mapper.Binary.Error
use net_mapper.Go.Text.{Text, pack_as, pack_text, unpack_text, to_bmp, of_bmp}
use net_mapper.Binary.Parameters.{update}
use net_mapper.Go.Text.Utf8.{runes, runes_behind, decode_rune, from_runes, encode_rune}
use net_mapper.Go.Text.RoundTrip.{IsBmpText, unpack_text-pack_text}

-- The letters A and é and the euro sign.
abbrev euro : Text
euro = record {
  envelope = record { class = 0; tag = 30 };
  elem = 0x41 ∷ 0xc3 ∷ 0xa9 ∷ 0xe2 ∷ 0x82 ∷ 0xac ∷ [];
}

euro-IsBmpText : IsBmpText euro.elem
unfolding from_runes encode_rune
euro-IsBmpText = record {
  code_points = 0x41 ∷ 0xe9 ∷ 0x20ac ∷ [];
  in_plane = omega arith;
  written = refl;
}

packed : pack_text euro none ≡ ok (euro.envelope, 0 ∷ 0x41 ∷ 0 ∷ 0xe9 ∷ 0x20 ∷ 0xac ∷ [])
unfolding pack_text pack_as update to_bmp runes runes_behind decode_rune
packed = refl

unpack_text-pack_text_example :
    unpack_text
      (record { envelope = euro.envelope; elem = [] })
      euro.envelope
      (0 ∷ 0x41 ∷ 0 ∷ 0xe9 ∷ 0x20 ∷ 0xac ∷ [])
    ≡ ok euro
unpack_text-pack_text_example =
    unpack_text-pack_text euro (record { envelope = euro.envelope; elem = [] }) none euro.envelope
      (0 ∷ 0x41 ∷ 0 ∷ 0xe9 ∷ 0x20 ∷ 0xac ∷ []) packed (λ _. euro-IsBmpText)

-- A rune above 0xFFFF, U+1F600, comes back as another one.
truncated : of_bmp (to_bmp (0x1f600 ∷ [])) ≡ 0xf600 ∷ []
unfolding of_bmp to_bmp
truncated = refl

-- There is no case for OctetString in `PackAsn1`.
not_packed :
    pack_text (record { envelope = record { class = 0; tag = 4 }; elem = codes "public" }) none
    ≡ err Error.cannot_pack
unfolding pack_text pack_as update
not_packed = refl
