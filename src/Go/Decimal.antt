-- ===== src/Go/Decimal.antt =====
-- `strconv.Itoa` and `strconv.Atoi` for the 64-bit patterns of ints, and the text of an OID: `String` and
-- `ParseOID` of pkg/asn1/asn1go/oid.go.
pub mod Digits
mod Tests
use net_mapper.Prelude.{
  ℕ, zero, suc, ◌+◌, ◌-◌, ◌*◌, ◌/◌, ◌%◌, ◌^◌, Bool, true, false, not, ◌&&◌, ◌||◌, List, [], ◌∷◌,
  ◌++◌, Option, none, some,
}
use net_mapper.Prelude.{
  Bytes, codes, ltb, leb, ◌==◌, str_eq, if◌then◌else◌, length, Outcome, ok, err, panicked, ◌>>=◌,
}
use net_mapper.Go.Oid.{Oid}

-- The digits in front of `out`, the last one first; twenty are enough for 2 ^ 64.
unfoldable pub digits : ℕ → ℕ → Bytes → Bytes
digits zero n out = out
digits (suc fuel) n out =
    let more = digits fuel (n / 10) ((b'0' + n % 10) ∷ out) in
    if ltb n 10 then (b'0' + n) ∷ out else more

unfoldable pub itoa : ℕ → Bytes
itoa n = if leb (2 ^ 63) n then b'-' ∷ digits 20 (2 ^ 64 - n) [] else digits 20 n []

abbrev pub is_digit : ℕ → Bool
is_digit c = leb b'0' c && leb c b'9'

-- The number that the digits stand for, behind those that stand for `n`.
unfoldable pub digits_value : ℕ → Bytes → Option ℕ
digits_value n [] = some n
digits_value n (c ∷ cs) = if is_digit c then digits_value (n * 10 + (c - b'0')) cs else none

-- `strconv.Atoi` of a text that begins with a digit: an int, or an error.
unfoldable pub atoi_digits : Bytes → Option ℕ
atoi_digits s = elim (digits_value 0 s) [
  | none ↦ none
  | some n ↦ if ltb n (2 ^ 63) then some n else none
]

-- The pattern of an int of `bits` that is written by the digits, or by those behind a minus sign.
unfoldable pub signed_digits : ℕ → Bool → Bytes → Option ℕ
signed_digits bits negative [] = none
signed_digits bits negative (c ∷ cs) = elim (digits_value 0 (c ∷ cs)) [
  | none ↦ none
  | some n ↦
      if negative
      then if leb n (2 ^ (bits - 1)) then some (if n == 0 then 0 else 2 ^ 64 - n) else none
      else if ltb n (2 ^ (bits - 1))
      then some n
      else none
]

-- `strconv.ParseInt(s, 10, bits)`, and for 64 bits `strconv.Atoi(s)`.
unfoldable pub parse_int : ℕ → Bytes → Option ℕ
unfolding signed_digits
parse_int bits [] = none
parse_int bits (c ∷ cs) =
    if c == b'-'
    then signed_digits bits true cs
    else if c == b'+'
    then signed_digits bits false cs
    else signed_digits bits false (c ∷ cs)

unfoldable pub oid_text : Oid → Bytes
unfolding itoa
oid_text [] = []
oid_text (n ∷ []) = itoa n
oid_text (n ∷ m ∷ ns) = itoa n ++ b'.' ∷ oid_text (m ∷ ns)

-- `strings.Split(s, sep)` for one byte, with the part that has been read so far.
unfoldable pub split_on : ℕ → Bytes → Bytes → List Bytes
split_on sep part [] = part ∷ []
split_on sep part (c ∷ cs) =
    let closed = split_on sep [] cs in
    let longer = split_on sep (part ++ c ∷ []) cs in if c == sep then part ∷ closed else longer

pub data OidError : Type 0 where
  empty_element not_a_number unresolved : OidError
  lookup_failed : OidError

-- One element of the loop of `ParseOID`; `none` for the lookup is the nil function.
unfoldable pub parse_part : Option (Bytes → Option Oid) → Bytes → Outcome OidError Oid
parse_part find [] = err empty_element
parse_part find (c ∷ cs) =
    if is_digit c
    then (elim (atoi_digits (c ∷ cs)) [ none ↦ err not_a_number | some n ↦ ok (n ∷ []) ])
    else elim find [
      | none ↦ err unresolved
      | some f ↦ elim (f (c ∷ cs)) [ none ↦ err lookup_failed | some oid ↦ ok oid ]
    ]

unfoldable pub parse_parts : Option (Bytes → Option Oid) → List Bytes → Outcome OidError Oid
parse_parts find [] = ok []
parse_parts find (part ∷ parts) =
    parse_part find part >>= λ head. parse_parts find parts >>= λ tail. ok (head ++ tail)

unfoldable pub parse_oid : Option (Bytes → Option Oid) → Bytes → Outcome OidError Oid
parse_oid find s = parse_parts find (split_on b'.' [] s)
