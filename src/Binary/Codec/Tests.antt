-- ===== src/Binary/Codec/Tests.antt =====
-- Runs of helpers.go, and theorems at concrete inputs. The Go values are octet strings.
use net_mapper.Prelude.{
  ◌≡◌, refl, arith, none, some, List, [], ◌∷◌, ◌++◌, Option, Bytes, codes, ok, ◌>>=◌,
}
use net_mapper.Binary.Value.{Value, marshal}
use net_mapper.Binary.Parameters.{Parameters, validate, update}
use net_mapper.Binary.Registry
use net_mapper.Binary.Registry.{Provider, get_packer_for, get_unpacker_for, first_offer}
use net_mapper.Binary.Codec.{marshal_go, unmarshal_go, marshal_with_params, pack_from_go}
use net_mapper.Binary.Codec.RoundTrip.{IsServed, unmarshal_go-marshal_go, validate-pack_from_go}
use net_mapper.Go.Basic.{octet_string, pack_octet_string, unpack_octet_string}
use net_mapper.Go.Basic.Laws.{octet_string-IsLossless}

abbrev octets : Provider Bytes
octets = record {
  priority = 0;
  name = codes "go";
  packer = λ v. Registry.offers (pack_octet_string v);
  unpacker =
      λ v. Registry.offers (λ e bytes. unpack_octet_string v e bytes >>= λ filled. ok filled);
}

abbrev providers : List (Provider Bytes)
providers = octets ∷ []

octets-IsServed : IsServed providers octet_string (λ v. v)
unfolding get_packer_for get_unpacker_for first_offer
octets-IsServed = record { packs = λ v. refl; unpacks = λ v. refl }

abbrev packed : Value
packed = record { envelope = record { class = 0; tag = 4 }; bytes = codes "public" }

is_packed : pack_octet_string (codes "public") none ≡ ok (packed.envelope, packed.bytes)
unfolding pack_octet_string
is_packed = refl

unmarshal_go-marshal_go_example :
    (marshal_go providers (codes "public") >>= λ written.
    unmarshal_go providers (written ++ (9 ∷ [])) [])
    ≡ ok (codes "public", 9 ∷ [])
unmarshal_go-marshal_go_example =
    unmarshal_go-marshal_go providers octet_string (λ v. v) octet_string-IsLossless octets-IsServed
      (codes "public") [] packed (9 ∷ []) is_packed
      (record { class_fits = omega arith; tag_fits = omega arith }) (omega arith) (omega arith)

abbrev application : Option Parameters
application = some (record { tag = some 2; class = some 1 })

abbrev tagged : Value
tagged = record { envelope = record { class = 1; tag = 2 }; bytes = codes "public" }

is_tagged : pack_from_go providers (codes "public") application ≡ ok tagged
unfolding pack_from_go get_packer_for first_offer pack_octet_string update
is_tagged = refl

validate-pack_from_go_run : validate application tagged.envelope ≡ ok tt
validate-pack_from_go_run =
    validate-pack_from_go providers (codes "public") application tagged is_tagged

-- `Marshal` leaves the parameters to the packer, which does not look at them.
not_tagged :
    marshal_with_params providers (codes "public") application ≡ ok (4 ∷ 6 ∷ codes "public")
unfolding marshal_with_params get_packer_for first_offer pack_octet_string marshal
not_tagged = refl
