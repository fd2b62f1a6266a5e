-- ===== src/Mibdb/TypeReference/Compile.antt =====
-- CompileEnums, CompileColumns and compileValue of pkg/snmp/mibdb/type.go.
use net_mapper.Prelude.{
  ℕ, zero, suc, Bool, false, not, ◌||◌, List, [], ◌∷◌, Option, none, some, Bytes, codes, str_eq,
  if◌then◌else◌, length, Outcome, ok, err, panicked,
}
use net_mapper.Mibtoken.Token
use net_mapper.Mibtoken.Token.{Token, type_of, is_text}
use net_mapper.Mibtoken.Tokens.{TokenList, look_ahead, pop, read_block}
use net_mapper.Go.Decimal.{parse_int}
use net_mapper.Mibdb.TypeReference.{TypeReference, is_ident_type, is_number}

-- A map from the number of a value, as a 64-bit word, to its name, with the newest entry first.
abbrev pub Enums : Type 0
Enums = List (ℕ × Bytes)

-- What stands in the brackets behind a name: one number.
abbrev pub enum_number : List Token → Option ℕ
enum_number [] = none
enum_number (t ∷ []) = if is_number (type_of t) then parse_int 64 t.value else none
enum_number (t ∷ u ∷ ts) = none

abbrev pub skip_comma : TokenList → TokenList
skip_comma s = elim (look_ahead 0 s) [
  | ok t ↦ if is_text t (codes ",") then (pop s).0 else s
  | err _ ↦ s
  | panicked ↦ s
]

-- What follows the block behind a name; `go` is the rest of the loop.
abbrev pub after_block :
    (Enums → TokenList → Option Enums)
    → Enums
    → Token
    → TokenList × Outcome Token.Error TokenList
    → Option Enums
after_block go m name (s, err _) = none
after_block go m name (s, panicked) = none
after_block go m name (s, ok block) = elim (enum_number block.elements) [
  | none ↦ none
  | some n ↦ go ((n, name.value) ∷ m) (skip_comma s)
]

-- The loop of `CompileEnums`; each round takes a token, so as much fuel as there are tokens is enough.
-- `none` is the nil map.
unfoldable pub enums_from : ℕ → Enums → TokenList → Option Enums
enums_from zero m s = some m
enums_from (suc fuel) m s = elim s.elements [
  | [] ↦ some m
  | (name ∷ _) ↦
      if is_ident_type (type_of name)
      then after_block (enums_from fuel) m name (read_block (codes "(") (codes ")") (pop s).0)
      else none
]

unfoldable pub compile_enums : TypeReference → Option Enums
compile_enums ref = elim ref.constraint [
  | none ↦ none
  | some block ↦ enums_from (length block.elements) [] block
]

-- Each round takes three tokens, of which it keeps the text of the first.
unfoldable pub columns_from : List Token → List Bytes
columns_from [] = []
columns_from (name ∷ []) = name.value ∷ []
columns_from (name ∷ _ ∷ []) = name.value ∷ []
columns_from (name ∷ _ ∷ _ ∷ ts) = name.value ∷ columns_from ts

-- `none` is the nil slice.
unfoldable pub compile_columns : TypeReference → Option (List Bytes)
compile_columns ref = elim ref.constraint [
  | none ↦ none
  | some block ↦ some (columns_from block.elements)
]

abbrev pub simple_type_names : List Bytes
simple_type_names =
    codes "INTEGER"
    ∷ codes "OCTET STRING"
    ∷ codes "SEQUENCE"
    ∷ codes "SEQUENCE OF"
    ∷ codes "CHOICE"
    ∷ codes "OBJECT IDENTIFIER"
    ∷ codes "IA5String"
    ∷ []

abbrev pub is_name_in : List Bytes → Bytes → Bool
is_name_in [] name = false
is_name_in (n ∷ ns) name = str_eq name n || is_name_in ns name

pub data TypeError : Type 0 where
  meta_failed : TypeError
  not_known : Token → TypeError

-- `compileValue` of a type; the first argument is what compiling the meta data gives.
unfoldable pub compile_type : Bool → TypeReference → Outcome TypeError TypeReference
compile_type meta ref =
    if not meta
    then err meta_failed
    else if is_name_in simple_type_names ref.ident.value
    then ok ref
    else err (not_known ref.ident)
