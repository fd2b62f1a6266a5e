-- ===== src/Mibdb/Macro/Tests.antt =====
-- A macro of two fields, of which the second one is a list.
use net_mapper.Prelude.{
  ℕ, ◌≡◌, refl, arith, inl, inr, false, List, [], ◌∷◌, ◌++◌, Option, none, some, Bytes, codes,
  str_eq, Outcome, ok, err,
}
use net_mapper.Prelude.Assoc.{lookup, put}
use net_mapper.Mibtoken.Token.{Token, Source, type_of, type_of_text, is_text, is_eof_source}
use net_mapper.Mibtoken.Tokens.{TokenList, look_ahead}
use net_mapper.Mibtoken.Tokens.Block.{nothing, plain}
use net_mapper.Mibtoken.Scanner.{unquote, unquote_text, unquote_from, escaped, blank_run}
use net_mapper.Mibdb.Object.{LookupError, unknown_definition}
use net_mapper.Mibdb.TypeReference.Reads.{IsBlock, alone, unconstrained}
use net_mapper.Mibdb.Pattern.{Pattern, reference, literal, parts, starts_definition}
use net_mapper.Mibdb.Pattern.Sequence.{Part, typed, quoted}
use net_mapper.Mibdb.Pattern.Choice.{sequence}
use net_mapper.Mibdb.Macro.{one, list_of, item_of, field_of, read_macro}
use net_mapper.Mibdb.Macro.Fields.{WrittenField, write_fields, AreFields, read_macro-write_fields}

abbrev place : Source
place = record { filename = []; line = 1; column = 1 }

abbrev tok : Bytes → Token
tok text = record { value = text; position = place }

abbrev tokens : List Token → TokenList
tokens ts = record { origin = place; elements = ts }

abbrev no_types : Bytes → Outcome LookupError ℕ
no_types name = err (unknown_definition name)

abbrev no_sequence : ℕ → Option (List Pattern)
no_sequence d = none

abbrev type_part : Bytes → Part
type_part name = typed (alone (tok name)) unconstrained

-- TYPE NOTATION ::= 'UNITS' Text
abbrev notation_field : WrittenField
notation_field = record {
  name = tok (codes "TYPE NOTATION");
  assign = tok (codes "::=");
  head = sequence (quoted (tok (codes "'UNITS'")) (codes "UNITS")) (type_part (codes "Text") ∷ []);
  more = [];
}

-- Items ::= Item | Items ',' Item
abbrev items_field : WrittenField
items_field = record {
  name = tok (codes "Items");
  assign = tok (codes "::=");
  head = sequence (type_part (codes "Item")) [];
  more =
      (
        tok (codes "|"),
        sequence (type_part (codes "Items"))
            (quoted (tok (codes "','")) (codes ",") ∷ type_part (codes "Item") ∷ []),
      )
      ∷ [];
}

abbrev both : List WrittenField
both = notation_field ∷ items_field ∷ []

both-AreFields : AreFields no_sequence no_types place [] both
unfolding type_of type_of_text is_eof_source starts_definition look_ahead is_text str_eq unquote
    unquote_text unquote_from escaped blank_run lookup put
both-AreFields = (
  refl,
  refl,
  refl,
  (refl, refl, (refl, (refl, refl), (refl, (refl, refl, refl), inl refl))),
  refl,
  (
    refl,
    refl,
    refl,
    (refl, refl, (refl, (refl, refl, refl), inr (refl, refl))),
    (
      refl,
      (
        refl,
        refl,
        (refl, (refl, refl, refl), (refl, (refl, refl), (refl, (refl, refl, refl), tt))),
      ),
      tt,
    ),
    tt,
  ),
)

both-IsBlock : IsBlock (codes "BEGIN") (codes "END") (record {
  opening = tok (codes "BEGIN");
  inner = write_fields both;
  closing = tok (codes "END");
})
unfolding is_text str_eq
both-IsBlock = record {
  opens = refl;
  closes = refl;
  balanced = plain _ _ refl refl (
      plain _ _ refl refl (
        plain _ _ refl refl (
          plain _ _ refl refl (
            plain _ _ refl refl (
              plain _ _ refl refl (
                plain _ _ refl refl (
                  plain _ _ refl refl (
                    plain _ _ refl refl (plain _ _ refl refl (plain _ _ refl refl nothing))))))))));
}

read_macro-write_fields_example :
    read_macro no_sequence no_types 15
      (tokens (tok (codes "BEGIN") ∷ (write_fields both ++ tok (codes "END") ∷ [])))
    ≡ some (
      tokens [],
      ok (
          (
            codes "TYPE NOTATION",
            one (
                parts (
                  literal (codes "UNITS")
                  ∷ reference (record {
                    ident = tok (codes "Text");
                    sequence_of = false;
                    constraint = none;
                  })
                  ∷ [])),
          )
          ∷ (codes "Items", list_of (tok (codes "Item")))
          ∷ []),
    )
unfolding field_of item_of put str_eq
read_macro-write_fields_example =
    read_macro-write_fields no_sequence no_types place (tok (codes "BEGIN")) (tok (codes "END"))
      both [] 15 both-IsBlock both-AreFields (omega arith)
