-- ===== src/Binary/Parameters/Parse.antt =====
-- pkg/asn1/asn1binary/parameters.go: `ParseParameters`, which reads the tag of a struct field.
-- White space is that of ASCII.
use net_mapper.Prelude.{
  ℕ, bit_or, Bool, true, false, ◌&&◌, ◌||◌, List, [], ◌∷◌, Option, none, some, Bytes, codes, leb,
  ◌==◌, str_eq, if◌then◌else◌, Outcome, ok, err, panicked, ◌>>=◌,
}
use mathlib.Core.List.{reverse}
use net_mapper.Binary.Error.{Error}
use net_mapper.Binary.Mapping.{to_lower, parse_tag, parse_class}
use net_mapper.Binary.Parameters.{Parameters}
use net_mapper.Go.Decimal.{parse_int, split_on}

abbrev is_space : ℕ → Bool
is_space c = c == 32 || leb 9 c && leb c 13

unfoldable pub trim_left : Bytes → Bytes
trim_left [] = []
trim_left (c ∷ cs) = if is_space c then trim_left cs else c ∷ cs

-- `strings.TrimSpace(s)`
unfoldable pub trim_space : Bytes → Bytes
trim_space s = reverse (trim_left (reverse (trim_left s)))

-- `part[:equals]` and `part[equals+1:]` for the first `=`.
unfoldable pub cut_equals : Bytes → Option (Bytes × Bytes)
cut_equals [] = none
cut_equals (c ∷ cs) =
    if c == b'='
    then some ([], cs)
    else elim (cut_equals cs) [ none ↦ none | some (key, v) ↦ some (c ∷ key, v) ]

-- What has been read: the parameters, and whether `constructed` was among them.
pub record TagReading : Type 0 where
  pub params : Parameters
  pub constructed : Bool

abbrev with_number : Option ℕ → (ℕ → TagReading) → Outcome Error TagReading
with_number none f = err Error.not_a_parameter_number
with_number (some n) f = ok (f n)

unfoldable pub parse_pair : TagReading → Bytes → Bytes × Bytes → Outcome Error TagReading
parse_pair r part (key, v) =
    if str_eq (to_lower key) (codes "tag")
    then with_number (parse_int 16 v) (λ n. record r { params = record r.params { tag = some n } })
    else if str_eq (to_lower key) (codes "class")
    then with_number (parse_int 16 v)
        (λ n. record r { params = record r.params { class = some n } })
    else err (Error.unknown_parameter part)

-- A word is `constructed`, the name of a tag, or that of a class.
unfoldable pub parse_word : TagReading → Bytes → Outcome Error TagReading
parse_word r part =
    if str_eq (to_lower part) (codes "constructed")
    then ok (record r { constructed = true })
    else elim (parse_tag part) [
      | ok t ↦ ok (record r { params = record r.params { tag = some t } })
      | panicked ↦ panicked
      | err _ ↦ elim (parse_class part) [
        | ok c ↦ ok (record r { params = record r.params { class = some c } })
        | panicked ↦ panicked
        | err _ ↦ err (Error.unknown_parameter part)
      ]
    ]

unfoldable pub parse_part : TagReading → Bytes → Outcome Error TagReading
unfolding parse_pair parse_word
parse_part r [] = ok r
parse_part r (c ∷ cs) = elim (cut_equals (c ∷ cs)) [
  | some pair ↦ parse_pair r (c ∷ cs) pair
  | none ↦ parse_word r (c ∷ cs)
]

unfoldable pub parse_parts : TagReading → List Bytes → Outcome Error TagReading
parse_parts r [] = ok r
parse_parts r (part ∷ parts) = parse_part r (trim_space part) >>= λ next. parse_parts next parts

-- `*params.Tag |= 0x20`
abbrev mark_constructed : Parameters → Option ℕ → Outcome Error Parameters
mark_constructed p none = err Error.constructed_without_tag
mark_constructed p (some t) = ok (record p { tag = some (bit_or t 0x20) })

unfoldable pub finish : TagReading → Outcome Error Parameters
finish r = if r.constructed then mark_constructed r.params r.params.tag else ok r.params

abbrev pub no_parameters : Parameters
no_parameters = record { tag = none; class = none }

unfoldable pub parse_parameters : Bytes → Outcome Error Parameters
parse_parameters s =
    parse_parts (record { params = no_parameters; constructed = false }) (split_on b',' [] s)
    >>= finish
