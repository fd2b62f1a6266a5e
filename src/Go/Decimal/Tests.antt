-- ===== src/Go/Decimal/Tests.antt =====
-- Runs of `String` and `ParseOID`, and their theorem at a concrete input.
use net_mapper.Prelude.{◌≡◌, refl, arith, none, [], ◌∷◌, codes, ok, err}
use net_mapper.Go.Oid.{Oid}
use net_mapper.Go.Decimal
use net_mapper.Go.Decimal.{
  itoa, digits, digits_value, atoi_digits, oid_text, split_on, parse_part, parse_parts, parse_oid,
}
use net_mapper.Go.Decimal.Digits.{parse_oid-oid_text}

abbrev enterprises : Oid
enterprises = 1 ∷ 3 ∷ 6 ∷ 1 ∷ 4 ∷ 1 ∷ 2021 ∷ []

printed : oid_text enterprises ≡ codes "1.3.6.1.4.1.2021"
unfolding oid_text itoa digits
printed = refl

empty_part : parse_oid none (codes "1..3") ≡ err Decimal.empty_element
unfolding parse_oid parse_parts parse_part split_on atoi_digits digits_value
empty_part = refl

parse_oid-oid_text_example : parse_oid none (oid_text enterprises) ≡ ok enterprises
parse_oid-oid_text_example = parse_oid-oid_text enterprises (λ e. cc) (omega arith)
