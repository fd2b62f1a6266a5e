-- ===== src/Framework/Tests.antt =====
-- Runs of helpers.go, and its theorems at concrete inputs.
use net_mapper.Prelude.{
  ◌≤◌, ◌≡◌, ◌↔◌, refl, true, List, [], ◌∷◌, Bytes, codes, str_eq, length, All, ok, err,
}
use net_mapper.Framework.{
  first_not_letter, invalid_character, unexpected_fields, is_word, is_identifier, check_chars,
  variations, variations_of, contains, unexpected, check_fields,
}
use net_mapper.Framework.Laws.{starts_with_letter, is_identifier_iff, check_fields_iff}

identifier_errors :
    (is_identifier (codes "2nd") ≡ err first_not_letter)
    × (is_identifier (codes "a-b") ≡ err invalid_character)
unfolding is_identifier check_chars
identifier_errors = (refl, refl)

abbrev two_fields : List Bytes
two_fields = codes "hosts" ∷ codes "query" ∷ []

field_variations :
    variations two_fields
    ≡ codes "hosts" ∷ codes "host" ∷ codes "query" ∷ codes "querys" ∷ codes "queries" ∷ []
unfolding variations variations_of
field_variations = refl

unknown_field :
    check_fields (codes "host" ∷ codes "cidr" ∷ []) two_fields
    ≡ err (unexpected_fields (codes "cidr" ∷ []))
unfolding check_fields unexpected contains variations variations_of str_eq
unknown_field = refl

is_identifier_iff_run :
    (is_identifier (codes "dns_2") ≡ ok tt)
    ↔ (length (codes "dns_2") ≤ 64)
      × (starts_with_letter (codes "dns_2") ≡ true)
      × All (λ c. is_word c ≡ true) (codes "dns_2")
is_identifier_iff_run = is_identifier_iff (codes "dns_2")

check_fields_iff_run :
    (check_fields (codes "host" ∷ codes "cidr" ∷ []) two_fields ≡ ok tt)
    ↔ All (λ k. contains (variations two_fields) k ≡ true) (codes "host" ∷ codes "cidr" ∷ [])
check_fields_iff_run = check_fields_iff (codes "host" ∷ codes "cidr" ∷ []) two_fields
