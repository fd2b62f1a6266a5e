-- ===== src/Binary/Registry/Tests.antt =====
-- Runs of provider.go, and a theorem at a concrete input.
use net_mapper.Prelude.{
  ℕ, ◌⊎◌, All, none, ◌==◌, if◌then◌else◌, ◌≡◌, refl, [], ◌∷◌, codes, ok, err, str_eq,
}
use net_mapper.Binary.Error.{cannot_pack}
use net_mapper.Binary.Interface.{Packer}
use net_mapper.Binary.Registry
use net_mapper.Binary.Registry.{
  Provider, offered, register_all, register, sort, insert, has_name, get_packer_for, first_offer,
  str_less,
}
use net_mapper.Binary.Registry.Laws.{IsFirst, get_packer_for-IsFirst}

-- Two providers of packers for numbers, of which the second refuses all but 7.
abbrev basic : Provider ℕ
basic = record {
  priority = 0;
  name = codes "go";
  packer = λ n. Registry.offers (λ params. ok (record { class = 0; tag = 4 }, n ∷ []));
  unpacker = λ n. Registry.nil_pointer;
}

abbrev seven : Packer
seven params = ok (record { class = 0; tag = 2 }, 7 ∷ [])

abbrev special_packer : ℕ → Registry.Offer Packer
special_packer n = if n == 7 then Registry.offers seven else Registry.refused cannot_pack

abbrev special : Provider ℕ
special = record {
  priority = 11;
  name = codes "reflect";
  packer = special_packer;
  unpacker = λ n. Registry.nil_pointer;
}

registered : register_all (basic ∷ special ∷ []) [] ≡ ok (special ∷ basic ∷ [])
unfolding register_all register sort insert has_name str_eq str_less
registered = refl

registered_twice :
    register basic (special ∷ basic ∷ []) ≡ err (Registry.already_registered (codes "go"))
unfolding register has_name str_eq
registered_twice = refl

found : get_packer_for (special ∷ basic ∷ []) 7 ≡ ok seven
unfolding get_packer_for first_offer
found = refl

get_packer_for-IsFirst_example :
    ((packer : Packer) × (get_packer_for (special ∷ basic ∷ []) 7 ≡ ok packer)
      × IsFirst (λ p. p.packer 7) (basic ∷ special ∷ []) packer)
    ⊎ ((e : Registry.RegistryError) × (get_packer_for (special ∷ basic ∷ []) 7 ≡ err e)
        × All (λ q. offered (q.packer 7) ≡ none) (basic ∷ special ∷ []))
get_packer_for-IsFirst_example =
    get_packer_for-IsFirst (basic ∷ special ∷ []) (special ∷ basic ∷ []) 7 registered
