-- ===== src/Binary/Mapping.antt =====
-- pkg/asn1/asn1binary/mapping.go, class.go and tag.go: names of tags and classes.
-- A Go map is an association list; the pairs are never changed, so their pointers are values here.
-- `strings.ToLower` is that of ASCII, which all names of the tables are.
pub mod Laws
mod Tests
use net_mapper.Prelude.{
  ℕ, ◌+◌, ◌-◌, ◌^◌, Bool, true, false, ◌&&◌, List, [], ◌∷◌, map, Option, none, some,
}
use net_mapper.Prelude.{
  Bytes, leb, ◌==◌, str_eq, if◌then◌else◌, Outcome, ok, err, panicked, ◌>>=◌, codes,
}

pub data Error : Type 0 where
  unknown_value : ℕ → Error
  unknown_name : Bytes → Error

pub record Pair : Type 0 where
  pub name : Bytes
  pub val : ℕ

pub record Mapping : Type 0 where
  pub val_map : List (ℕ × Pair)
  pub name_map : List (Bytes × Pair)

abbrev pub lower_byte : ℕ → ℕ
lower_byte c = if leb b'A' c && leb c b'Z' then c + 32 else c

abbrev pub to_lower : Bytes → Bytes
to_lower = map lower_byte

unfoldable pub lookup_val : ℕ → List (ℕ × Pair) → Option Pair
lookup_val k [] = none
lookup_val k ((j, p) ∷ m) = if j == k then some p else lookup_val k m

unfoldable pub lookup_name : Bytes → List (Bytes × Pair) → Option Pair
lookup_name k [] = none
lookup_name k ((j, p) ∷ m) = if str_eq j k then some p else lookup_name k m

abbrev pub empty : Mapping
empty = record { val_map = []; name_map = [] }

-- A value or a name that is there already panics.
unfoldable pub add : Bytes → ℕ → Mapping → Outcome Error Mapping
add name val m = elim (lookup_val val m.val_map) [
  | some _ ↦ panicked
  | none ↦ elim (lookup_name (to_lower name) m.name_map) [
    | some _ ↦ panicked
    | none ↦
        let p : Pair = record { name = name; val = val } in
        ok (record { val_map = (val, p) ∷ m.val_map; name_map = (to_lower name, p) ∷ m.name_map })
  ]
]

unfoldable pub add_each : Pair → List Bytes → Mapping → Outcome Error Mapping
add_each known [] m = ok m
add_each known (alias ∷ aliases) m =
    let rest =
      add_each known aliases (record m { name_map = (to_lower alias, known) ∷ m.name_map }) in
    elim (lookup_name (to_lower alias) m.name_map) [ some _ ↦ panicked | none ↦ rest ]

unfoldable pub add_alias : Bytes → List Bytes → Mapping → Outcome Error Mapping
unfolding add_each
add_alias name aliases m = elim (lookup_name (to_lower name) m.name_map) [
  | none ↦ panicked
  | some known ↦ add_each known aliases m
]

unfoldable pub name_of : Mapping → ℕ → Outcome Error Bytes
name_of m val = elim (lookup_val val m.val_map) [
  | none ↦ err (unknown_value val)
  | some p ↦ ok p.name
]

unfoldable pub value_of : Mapping → Bytes → Outcome Error ℕ
value_of m name = elim (lookup_name (to_lower name) m.name_map) [
  | none ↦ err (unknown_name name)
  | some p ↦ ok p.val
]

unfoldable pub add_all : List (Bytes × ℕ) → Mapping → Outcome Error Mapping
unfolding add
add_all [] m = ok m
add_all ((name, val) ∷ entries) m = add name val m >>= add_all entries

abbrev class_names : List (Bytes × ℕ)
class_names =
    (codes "Universal", 0)
    ∷ (codes "Application", 1)
    ∷ (codes "ContextSpecific", 2)
    ∷ (codes "Private", 3)
    ∷ []

unfoldable pub class_map : Outcome Error Mapping
unfolding add_all
class_map = add_all class_names empty

abbrev tag_names : List (Bytes × ℕ)
tag_names =
    (codes "Boolean", 0x01)
    ∷ (codes "Integer", 0x02)
    ∷ (codes "BitString", 0x03)
    ∷ (codes "OctetString", 0x04)
    ∷ (codes "Null", 0x05)
    ∷ (codes "OID", 0x06)
    ∷ (codes "Enum", 0x0A)
    ∷ (codes "UTF8String", 0x0C)
    ∷ (codes "Sequence", 0x10)
    ∷ (codes "Set", 0x11)
    ∷ (codes "NumericString", 0x12)
    ∷ (codes "PrintableString", 0x13)
    ∷ (codes "T61String", 0x14)
    ∷ (codes "IA5String", 0x16)
    ∷ (codes "UTCTime", 0x17)
    ∷ (codes "GeneralizedTime", 0x18)
    ∷ (codes "GeneralString", 0x1B)
    ∷ (codes "BMPString", 0x1E)
    ∷ (codes "Date", 0x1F)
    ∷ (codes "Time", 0x0E)
    ∷ (codes "ObjectDescriptor", 0x07)
    ∷ []

unfoldable pub alias_sequence : Mapping → Outcome Error Mapping
unfolding add_alias
alias_sequence = add_alias (codes "Sequence") (codes "SequenceOf" ∷ [])

unfoldable pub alias_set : Mapping → Outcome Error Mapping
unfolding add_alias
alias_set = add_alias (codes "Set") (codes "SetOf" ∷ [])

unfoldable pub tag_map : Outcome Error Mapping
unfolding add_all alias_sequence alias_set
tag_map = add_all tag_names empty >>= alias_sequence >>= alias_set

-- `tagMap.Name` and `classMap.Name`, as the `String` methods call them.
unfoldable pub tag_name : ℕ → Outcome Error Bytes
unfolding name_of
tag_name t = tag_map >>= λ m. name_of m t

unfoldable pub class_name : ℕ → Outcome Error Bytes
unfolding name_of
class_name c = class_map >>= λ m. name_of m c

-- `ParseTag` and `ParseClass`, on the tables as `init` leaves them.
unfoldable pub parse_tag : Bytes → Outcome Error ℕ
unfolding value_of
parse_tag s = tag_map >>= λ m. value_of m s

unfoldable pub parse_class : Bytes → Outcome Error ℕ
unfolding value_of
parse_class s = class_map >>= λ m. value_of m s
