-- ===== src/Mibdb/TypeReference.antt =====
-- pkg/snmp/mibdb/type.go, and readOid of object.go, read of ConstantValue and ExpectedToken in value.go:
-- what is read from the tokens of a MIB. A reader is a list of tokens, as which the scanner and its
-- projections act.
pub mod Compile
pub mod Enums
pub mod Reads
pub mod Elements
mod Tests
use net_mapper.Prelude.{
  ℕ, zero, suc, Bool, true, false, not, ◌&&◌, ◌||◌, List, [], ◌∷◌, ◌++◌, map, Option, none, some,
  Bytes, codes, str_eq, if◌then◌else◌, length, Outcome, ok, err, panicked,
}
use net_mapper.Mibtoken.Token
use net_mapper.Mibtoken.Token.{Token, TokenType, type_of, is_text}
use net_mapper.Mibtoken.Tokens.{TokenList, look_ahead, pop, read_block}
use net_mapper.Go.Decimal.{parse_int}

pub data ReadError : Type 0 where
  reading : Token.Error → ReadError
  unexpected : Bytes → Token → ReadError

-- What a reader gives, and what is left to read.
abbrev pub Reading : Type 0 → Type 0
Reading A = TokenList → TokenList × Outcome ReadError A

abbrev pub go_on :
    {A B : Type 0}
    → (A → Reading B)
    → TokenList × Outcome ReadError A
    → TokenList × Outcome ReadError B
go_on f (s, ok a) = f a s
go_on f (s, err e) = (s, err e)
go_on f (s, panicked) = (s, panicked)

infixl 5 ◌>>=◌
abbrev pub ◌>>=◌ : {A B : Type 0} → Reading A → (A → Reading B) → Reading B
◌>>=◌ m f s = go_on f (m s)

abbrev pub give : {A : Type 0} → A → Reading A
give a s = (s, ok a)

abbrev pub lift : {A : Type 0} → TokenList × Outcome Token.Error A → TokenList × Outcome ReadError A
lift (s, ok a) = (s, ok a)
lift (s, err e) = (s, err (reading e))
lift (s, panicked) = (s, panicked)

abbrev pub peek_token : Reading Token
peek_token s = lift (s, look_ahead 0 s)

abbrev pub take_token : Reading Token
take_token s = lift (pop s)

abbrev pub take_block : Bytes → Bytes → Reading TokenList
take_block start end s = lift (read_block start end s)

pub record TypeReference : Type 0 where
  pub ident : Token
  pub sequence_of : Bool
  pub constraint : Option TokenList

-- The map `brackets`.
abbrev pub closer_of : Token → Option (Bytes × Bytes)
closer_of t =
    if is_text t (codes "{")
    then some (codes "{", codes "}")
    else if is_text t (codes "(")
    then some (codes "(", codes ")")
    else if is_text t (codes "[")
    then some (codes "[", codes "]")
    else none

-- A tag in brackets, and whether it is implicit, are passed over: the token behind them.
unfoldable pub skip_word : Token → Reading Token
skip_word t =
    if is_text t (codes "IMPLICIT") || is_text t (codes "EXPLICIT")
    then (take_token >>= λ _. peek_token)
    else give t

unfoldable pub skip_tag : Token → Reading Token
unfolding skip_word
skip_tag t =
    if is_text t (codes "[")
    then (take_block (codes "[") (codes "]") >>= λ _. peek_token >>= skip_word)
    else give t

abbrev pub read_closed : TypeReference → Option (Bytes × Bytes) → Reading TypeReference
read_closed plain none = give plain
read_closed plain (some (opener, closer)) =
    take_block opener closer >>= λ block. give (record plain { constraint = some block })

unfoldable pub read_constraint : Token → Bool → Reading TypeReference
read_constraint ident of = peek_token >>= λ t.
    read_closed (record { ident = ident; sequence_of = of; constraint = none }) (closer_of t)

-- At the end of the tokens the error of `Pop` is that of the next `LookAhead`.
unfoldable pub read_ident : Token → Reading TypeReference
unfolding read_constraint
read_ident t = take_token >>= λ _.
    if is_text t (codes "SEQUENCE OF")
    then (take_token >>= λ ident. read_constraint ident true)
    else read_constraint t false

abbrev pub is_ident_type : TokenType → Bool
is_ident_type Token.ident = true
is_ident_type _ = false

abbrev pub is_number : TokenType → Bool
is_number Token.number = true
is_number _ = false

abbrev pub read_named : Token → Reading TypeReference
read_named t =
    if is_ident_type (type_of t)
    then read_ident t
    else (λ s. (s, err (unexpected (codes "IDENT") t)))

unfoldable pub read_definition : Reading TypeReference
unfolding skip_tag read_ident
read_definition = peek_token >>= skip_tag >>= read_named

-- The texts of a constant, in braces or alone.
abbrev pub texts_of : List Token → List Bytes
texts_of = map (λ t. t.value)

unfoldable pub read_constant : Reading (List Bytes)
read_constant = peek_token >>= λ t.
    if is_text t (codes "{")
    then (take_block (codes "{") (codes "}") >>= λ block. give (texts_of block.elements))
    else (take_token >>= λ _. give (t.value ∷ []))

-- `ExpectedToken.readValue`, which takes ACCESS for MAX-ACCESS.
unfoldable pub read_expected_text : Bytes → Reading (Unit {0})
read_expected_text text = peek_token >>= λ t.
    if is_text t text
    then (take_token >>= λ _. give tt)
    else if is_text t (codes "ACCESS") && str_eq text (codes "MAX-ACCESS")
    then (take_token >>= λ _. give tt)
    else (λ s. (s, err (unexpected text t)))

abbrev opens_number : TokenList → Bool
opens_number s = elim (look_ahead 0 s) [
  | ok t ↦ is_text t (codes "(")
  | err _ ↦ false
  | panicked ↦ false
]

abbrev add_element :
    (List Bytes → TokenList → Outcome ReadError (List Bytes))
    → List Bytes
    → TokenList × Outcome ReadError Token
    → Outcome ReadError (List Bytes)
add_element go acc (s, ok t) = go (acc ++ t.value ∷ []) s
add_element go acc (s, err e) = err e
add_element go acc (s, panicked) = panicked

-- What follows the token t of an object identifier: a number in parentheses stands for it. A second token in
-- the parentheses is passed over.
abbrev pub element_if : Bool → Token → Reading Token
element_if false t = give t
element_if true t = take_block (codes "(") (codes ")") >>= λ block s. (s, (lift (pop block)).1)

abbrev pub oid_element : Token → Reading Token
oid_element t s = element_if (opens_number s) t s

-- The loop of `readOid` over the tokens in the braces, on as much fuel as there are tokens.
unfoldable pub oid_texts : ℕ → List Bytes → TokenList → Outcome ReadError (List Bytes)
oid_texts zero acc s = ok acc
oid_texts (suc fuel) acc s = elim s.elements [
  | [] ↦ ok acc
  | (t ∷ _) ↦ add_element (oid_texts fuel) acc (oid_element t (pop s).0)
]

unfoldable pub oid_of_block : TokenList → Reading (List Bytes)
oid_of_block block s = (s, oid_texts (length block.elements) [] block)

-- The elements that `readOid` gives an object.
unfoldable pub read_oid : Reading (List Bytes)
unfolding oid_of_block
read_oid = peek_token >>= λ t.
    if is_text t (codes "{")
    then (take_block (codes "{") (codes "}") >>= oid_of_block)
    else (take_token >>= λ _. give (t.value ∷ []))
