-- ===== src/Mibdb/Pattern.antt =====
-- pkg/snmp/mibdb/pattern.go: how the definition of a pattern of a macro is read, as a sequence of types
-- and texts, and as a choice of sequences.
pub mod Sequence
pub mod Stuck
pub mod Choice
mod Tests
use net_mapper.Prelude.{
  ℕ, zero, suc, Bool, true, false, List, [], ◌∷◌, ◌++◌, Option, none, some, Bytes, codes,
  if◌then◌else◌, Outcome, ok, err, panicked,
}
use net_mapper.Mibtoken.Token
use net_mapper.Mibtoken.Token.{Token, TokenType, type_of, is_text}
use net_mapper.Mibtoken.Tokens.{TokenList, look_ahead, pop}
use net_mapper.Mibtoken.Scanner.{UnquoteError, unquote}
use net_mapper.Mibdb.Object.{LookupError}
use net_mapper.Mibdb.TypeReference.{
  ReadError, Reading, go_on, ◌>>=◌, give, take_token, take_block, peek_token, lift, TypeReference,
  closer_of, read_closed,
}

pub data Pattern : Type 0 where
  reference : TypeReference → Pattern
  literal : Bytes → Pattern

pub data PatternError : Type 0 where
  not_read : ReadError → PatternError
  not_unquoted : UnquoteError → PatternError
  unknown_type : LookupError → PatternError
  unexpected_token : Bytes → Token → PatternError

-- `none` stands for a loop that has not ended on the fuel.
abbrev pub Loop : Type 0 → Type 0
Loop A = Option (TokenList × Outcome PatternError A)

-- The token after the next one is `::=`: the name of another definition comes next.
unfoldable pub starts_definition : TokenList → Bool
starts_definition s = elim (look_ahead 1 s) [
  | ok t ↦ is_text t (codes "::=")
  | err _ ↦ false
  | panicked ↦ false
]

abbrev pub next_closer : TokenList → Option (Bytes × Bytes)
next_closer s = elim (look_ahead 0 s) [ ok t ↦ closer_of t | err _ ↦ none | panicked ↦ none ]

abbrev pub read_bracket : Token → Bool → Reading TypeReference
read_bracket ident of s =
    read_closed (record { ident = ident; sequence_of = of; constraint = none }) (next_closer s) s

unfoldable pub read_reference : Token → Reading TypeReference
read_reference t = take_token >>= λ _.
    if is_text t (codes "SEQUENCE OF")
    then (take_token >>= λ ident. read_bracket ident true)
    else read_bracket t false

abbrev after_reference :
    (List Pattern → TokenList → Loop (List Pattern))
    → List Pattern
    → TokenList × Outcome ReadError TypeReference
    → Loop (List Pattern)
after_reference go acc (s, ok ref) = go (acc ++ reference ref ∷ []) s
after_reference go acc (s, err e) = some (s, err (not_read e))
after_reference go acc (s, panicked) = some (s, panicked)

abbrev after_literal :
    (List Pattern → TokenList → Loop (List Pattern))
    → List Pattern
    → TokenList
    → Outcome UnquoteError Bytes
    → Loop (List Pattern)
after_literal go acc s (ok text) = go (acc ++ literal text ∷ []) (pop s).0
after_literal go acc s (err e) = some (s, err (not_unquoted e))
after_literal go acc s panicked = some (s, panicked)

-- The switch on the type of the next token, which has no default: the loop goes on with the token.
abbrev pub read_part :
    (List Pattern → TokenList → Loop (List Pattern))
    → List Pattern
    → Token
    → TokenType
    → TokenList
    → Loop (List Pattern)
read_part go acc t Token.ident s = after_reference go acc (read_reference t s)
read_part go acc t Token.quoted s = after_literal go acc s (unquote t)
read_part go acc t Token.symbol s =
    if is_text t (codes "|")
    then some (s, ok acc)
    else some (s, err (unexpected_token (codes "IDENT") t))
read_part go acc t _ s = go acc s

abbrev part_if :
    Bool
    → (List Pattern → TokenList → Loop (List Pattern))
    → List Pattern
    → Token
    → TokenList
    → Loop (List Pattern)
part_if true go acc t s = some (s, ok acc)
part_if false go acc t s = read_part go acc t (type_of t) s

-- The loop of `readDefinition` of a patternSequence.
unfoldable pub read_parts : ℕ → List Pattern → TokenList → Loop (List Pattern)
read_parts zero acc s = none
read_parts (suc fuel) acc s = elim s.elements [
  | [] ↦ some (s, ok acc)
  | (t ∷ _) ↦ part_if (starts_definition s) (read_parts fuel) acc t s
]

-- An alternative of a choice: a type by its name, a definition that was looked up, or a sequence.
pub data Alternative (D : Type 0) : Type 0 where
  simple : TypeReference → Alternative D
  defined : D → Alternative D
  parts : List Pattern → Alternative D

abbrev plain_type : Token → TypeReference
plain_type ident = record { ident = ident; sequence_of = false; constraint = none }

abbrev is_bar_next : TokenList → Bool
is_bar_next s = elim (look_ahead 0 s) [
  | ok t ↦ is_text t (codes "|")
  | err _ ↦ false
  | panicked ↦ false
]

-- The rest of the loop over the alternatives.
abbrev pub Rest : Type 0 → Type 0
Rest D = List (Alternative D) → TokenList → Loop (List (Alternative D))

abbrev pub label_if : Token → Outcome Token.Error Token → TypeReference
label_if label (ok t) = plain_type t
label_if label _ = plain_type label

-- What is in the parentheses behind `value`: a label and a type, or the type alone.
abbrev pub label_of : TokenList × Outcome Token.Error Token → Outcome PatternError TypeReference
label_of (block, err e) = err (not_read (ReadError.reading e))
label_of (block, panicked) = panicked
label_of (block, ok label) = ok (label_if label (pop block).1)

module _ {D : Type 0} where
  abbrev add_alternative :
      Rest D
      → List (Alternative D)
      → TokenList
      → Outcome PatternError (Alternative D)
      → Loop (List (Alternative D))
  add_alternative go acc s (ok a) = go (acc ++ a ∷ []) s
  add_alternative go acc s (err e) = some (s, err e)
  add_alternative go acc s panicked = some (s, panicked)

  abbrev as_simple : Outcome PatternError TypeReference → Outcome PatternError (Alternative D)
  as_simple (ok ref) = ok (simple ref)
  as_simple (err e) = err e
  as_simple panicked = panicked

  abbrev after_value :
      Rest D
      → List (Alternative D)
      → TokenList × Outcome ReadError TokenList
      → Loop (List (Alternative D))
  after_value go acc (s, ok block) = add_alternative go acc s (as_simple (label_of (pop block)))
  after_value go acc (s, err e) = some (s, err (not_read e))
  after_value go acc (s, panicked) = some (s, panicked)

  abbrev alternative_found : Outcome LookupError D → Outcome PatternError (Alternative D)
  alternative_found (ok d) = ok (defined d)
  alternative_found (err e) = err (unknown_type e)
  alternative_found panicked = panicked

  abbrev find_named :
      (Bytes → Outcome LookupError D)
      → Outcome Token.Error Token
      → Outcome PatternError (Alternative D)
  find_named find (ok t) = alternative_found (find t.value)
  find_named find (err e) = err (not_read (ReadError.reading e))
  find_named find panicked = panicked

  -- Without a block behind it, `type` is itself the name of the type.
  abbrev after_type :
      (Bytes → Outcome LookupError D)
      → Rest D
      → List (Alternative D)
      → Token
      → TokenList × Outcome ReadError TokenList
      → Loop (List (Alternative D))
  after_type find go acc t (s, ok block) = add_alternative go acc s (find_named find (pop block).1)
  after_type find go acc t (s, err _) = go (acc ++ simple (plain_type t) ∷ []) s
  after_type find go acc t (s, panicked) = some (s, panicked)

  -- A sequence without parts is not an alternative; `break` leaves the switch, and the loop goes on.
  abbrev after_parts :
      Rest D → List (Alternative D) → Loop (List Pattern) → Loop (List (Alternative D))
  after_parts go acc none = none
  after_parts go acc (some (s, ok [])) = go acc s
  after_parts go acc (some (s, ok (p ∷ ps))) = go (acc ++ parts (p ∷ ps) ∷ []) s
  after_parts go acc (some (s, err e)) = some (s, err e)
  after_parts go acc (some (s, panicked)) = some (s, panicked)

  module _ (find : Bytes → Outcome LookupError D) where
    abbrev pub read_alternative :
        ℕ
        → Rest D
        → List (Alternative D)
        → TokenList × Outcome ReadError Token
        → Loop (List (Alternative D))
    read_alternative fuel go acc (s, err e) = some (s, err (not_read e))
    read_alternative fuel go acc (s, panicked) = some (s, panicked)
    read_alternative fuel go acc (s, ok t) =
        if is_text t (codes "value")
        then after_value go acc (take_block (codes "(") (codes ")") (pop s).0)
        else if is_text t (codes "type")
        then after_type find go acc t (take_block (codes "(") (codes ")") (pop s).0)
        else after_parts go acc (read_parts fuel [] s)

    -- Behind an alternative there must be a bar, which is passed over.
    abbrev choice_if :
        Bool → ℕ → Rest D → List (Alternative D) → TokenList → Loop (List (Alternative D))
    choice_if true fuel go acc s = read_alternative fuel go acc (peek_token (pop s).0)
    choice_if false fuel go acc s = some (s, ok acc)

    abbrev pub next_alternative :
        ℕ → Rest D → List (Alternative D) → TokenList → Loop (List (Alternative D))
    next_alternative fuel go [] s = read_alternative fuel go [] (peek_token s)
    next_alternative fuel go (a ∷ more) s = choice_if (is_bar_next s) fuel go (a ∷ more) s

    -- The loop of `readDefinition` of a patternChoice.
    unfoldable pub read_choice : ℕ → List (Alternative D) → TokenList → Loop (List (Alternative D))
    read_choice zero acc s = none
    read_choice (suc fuel) acc s = elim s.elements [
      | [] ↦ some (s, ok acc)
      | (_ ∷ _) ↦ next_alternative fuel (read_choice fuel) acc s
    ]
