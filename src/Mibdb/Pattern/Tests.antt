-- ===== src/Mibdb/Pattern/Tests.antt =====
-- Patterns of a macro, some on which the loops do not end.
use net_mapper.Prelude.{
  ℕ, ◌≡◌, refl, arith, inl, inr, false, List, [], ◌∷◌, none, some, Bytes, codes, str_eq, Outcome,
  ok, err,
}
use net_mapper.Mibtoken.Token.{Token, Source, type_of, type_of_text, is_text, is_eof_source}
use net_mapper.Mibtoken.Tokens.{TokenList, look_ahead}
use net_mapper.Mibtoken.Tokens.Block.{nothing, plain}
use net_mapper.Mibtoken.Scanner.{unquote, unquote_text, unquote_from, escaped, blank_run}
use net_mapper.Mibdb.Object.{LookupError, unknown_definition}
use net_mapper.Mibdb.TypeReference.Reads.{alone, unconstrained}
use net_mapper.Mibdb.Pattern.{
  reference, literal, simple, parts, starts_definition, read_parts, read_choice,
}
use net_mapper.Mibdb.Pattern.Stuck.{read_parts-unhandled, read_choice-IsEnd}
use net_mapper.Mibdb.Pattern.Sequence.{typed, quoted, Part, IsParts, read_parts-write_parts}
use net_mapper.Mibdb.Pattern.Choice.{
  WrittenAlternative, labelled, sequence, IsBranch, AreBranches, write_more,
  read_choice-write_branch,
}

abbrev place : Source
place = record { filename = []; line = 1; column = 1 }

abbrev tok : Bytes → Token
tok text = record { value = text; position = place }

abbrev tokens : List Token → TokenList
tokens ts = record { origin = place; elements = ts }

abbrev no_types : Bytes → Outcome LookupError ℕ
no_types name = err (unknown_definition name)

read_parts-unhandled_example :
    read_parts 5 [] (tokens (tok (codes "12") ∷ tok (codes "x") ∷ [])) ≡ none
unfolding type_of type_of_text is_eof_source starts_definition look_ahead is_text str_eq
read_parts-unhandled_example =
    read_parts-unhandled 5 [] place (tok (codes "12")) (tok (codes "x") ∷ []) tt refl

read_choice-IsEnd_run :
    read_choice no_types 5 [] (tokens (tok (codes "|") ∷ tok (codes "x") ∷ [])) ≡ none
unfolding type_of type_of_text is_eof_source is_text str_eq
read_choice-IsEnd_run =
    read_choice-IsEnd no_types 5 place (tok (codes "|")) (tok (codes "x") ∷ []) refl refl
      (inr (refl, refl))

-- 'UNITS' Text
abbrev units : Part
units = quoted (tok (codes "'UNITS'")) (codes "UNITS")

abbrev text : Part
text = typed (alone (tok (codes "Text"))) unconstrained

abbrev following : List Token
following = tok (codes "Next") ∷ tok (codes "::=") ∷ []

units_text : IsParts place (units ∷ text ∷ []) following
unfolding type_of type_of_text is_eof_source starts_definition look_ahead is_text str_eq unquote
    unquote_text unquote_from escaped blank_run
units_text = (refl, (refl, refl), (refl, (refl, refl, refl), inl refl))

read_parts-write_parts_run :
    read_parts 3 [] (
      tokens
        (tok (codes "'UNITS'") ∷ tok (codes "Text") ∷ tok (codes "Next") ∷ tok (codes "::=") ∷ []))
    ≡ some (
      tokens following,
      ok (
          literal (codes "UNITS")
          ∷ reference
              (record { ident = tok (codes "Text"); sequence_of = false; constraint = none })
          ∷ []),
    )
read_parts-write_parts_run =
    read_parts-write_parts place (units ∷ text ∷ []) following 3 [] units_text (omega arith)

-- value(VALUE INTEGER) | 'UNITS' Text
abbrev labelled_value : WrittenAlternative
labelled_value =
    labelled (tok (codes "value")) (tok (codes "(")) (tok (codes "VALUE")) (tok (codes "INTEGER"))
      (tok (codes ")"))

abbrev behind : List (Token × WrittenAlternative)
behind = (tok (codes "|"), sequence units (text ∷ [])) ∷ []

labelled_value-IsBranch : IsBranch place labelled_value (write_more behind following)
unfolding is_text str_eq
labelled_value-IsBranch = (
  refl,
  record {
    opens = refl;
    closes = refl;
    balanced =
        plain (tok (codes "VALUE")) _ refl refl (plain (tok (codes "INTEGER")) _ refl refl nothing);
  },
)

behind-AreBranches : AreBranches place behind following
unfolding is_text str_eq
behind-AreBranches = (refl, (refl, refl, units_text), refl)

read_choice-write_branch_example :
    read_choice no_types 6 [] (
      tokens (
        tok (codes "value")
        ∷ tok (codes "(")
        ∷ tok (codes "VALUE")
        ∷ tok (codes "INTEGER")
        ∷ tok (codes ")")
        ∷ tok (codes "|")
        ∷ tok (codes "'UNITS'")
        ∷ tok (codes "Text")
        ∷ tok (codes "Next")
        ∷ tok (codes "::=")
        ∷ []))
    ≡ some (
      tokens following,
      ok (
          simple (record { ident = tok (codes "INTEGER"); sequence_of = false; constraint = none })
          ∷ parts (
              literal (codes "UNITS")
              ∷ reference
                  (record { ident = tok (codes "Text"); sequence_of = false; constraint = none })
              ∷ [])
          ∷ []),
    )
read_choice-write_branch_example =
    read_choice-write_branch no_types place labelled_value behind following 6
      labelled_value-IsBranch behind-AreBranches (omega arith)
